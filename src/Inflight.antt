-- ===== src/Inflight.antt =====
-- web/upstream_inflight.go: one reading of an upstream for however many callers want it. A deferred is
-- a number, and the steps of the callers and of the detached readings are taken in any order. A caller
-- that has claimed a reading can be interrupted before it forks it.
pub mod Sharing
pub mod Waiting
pub mod Abandoning
pub mod Tests
use effect_golang_web.Common.{
  ℕ, suc, Bool, true, false, Option, none, some, List, [], ◌∷◌, Text, Map, lookup, insert, delete,
  ◌==◌, ◌≡◌, Member, if◌then◌else◌,
}

-- How far the reading for a deferred has come: its caller has claimed it, its caller was interrupted
-- before it forked it, it runs, or it has ended with an exit and its key is forgotten.
pub data Stage (Exit : Type 0) : Type 0 where
  claimed abandoned running : Stage Exit
  forgotten : Exit → Stage Exit

pub record Reading (Exit : Type 0) : Type 0 where
  pub key : Text
  pub stage : Stage Exit

-- `pending` is the field of `inFlightReads`. Beside it stand the readings by the deferred that each
-- completes, the deferreds that are complete, and those that callers await.
pub record Reads (Exit : Type 0) : Type 0 where
  pub pending : Map ℕ
  pub fresh : ℕ
  pub readings : ℕ → Option (Reading Exit)
  pub answers : ℕ → Option Exit
  pub waiting : List ℕ

pub record Claim : Type 0 where
  pub answer : ℕ
  pub leader : Bool

abbrev pub set_at : {A : Type 0} → ℕ → Option A → (ℕ → Option A) → ℕ → Option A
set_at a value f b = if b == a then value else f b

module _ {Exit : Type 0} where
  unfoldable pub new_in_flight_reads : Reads Exit
  new_in_flight_reads = record {
    pending = [];
    fresh = 0;
    readings = λ a. none;
    answers = λ a. none;
    waiting = [];
  }

  -- Under the lock: the deferred that is pending, or the fresh one, which becomes pending.
  abbrev claim_of : Reads Exit → Option ℕ → Claim
  claim_of reads (some already) = record { answer = already; leader = false }
  claim_of reads none = record { answer = reads.fresh; leader = true }

  abbrev after_claim : Reads Exit → Text → Option ℕ → Reads Exit
  after_claim reads key' (some already) = record reads {
    fresh = suc reads.fresh;
    waiting = already ∷ reads.waiting;
  }
  after_claim reads key' none = record reads {
    pending = insert key' reads.fresh reads.pending;
    fresh = suc reads.fresh;
    readings = set_at reads.fresh (some (record { key = key'; stage = claimed })) reads.readings;
  }

  unfoldable pub join_or_start : Reads Exit → Text → Claim × Reads Exit
  unfolding lookup insert
  join_or_start reads key =
      (claim_of reads (lookup key reads.pending), after_claim reads key (lookup key reads.pending))

  -- The reading is forked, and its caller awaits it like everybody else.
  unfoldable pub fork_read : Reads Exit → ℕ → Text → Reads Exit
  fork_read reads a key' = record reads {
    readings = set_at a (some (record { key = key'; stage = running })) reads.readings;
    waiting = a ∷ reads.waiting;
  }

  -- The caller that claimed the reading is interrupted between `joinOrStart` and the fork: nothing is
  -- forked, and the key stays pending.
  unfoldable pub abandon_read : Reads Exit → ℕ → Text → Reads Exit
  abandon_read reads a key' = record reads {
    readings = set_at a (some (record { key = key'; stage = abandoned })) reads.readings;
  }

  -- `forgetKey`, the first half of what is done when a reading exits.
  unfoldable pub forget_key : Reads Exit → ℕ → Text → Exit → Reads Exit
  unfolding delete
  forget_key reads a key' exit = record reads {
    pending = delete key' reads.pending;
    readings = set_at a (some (record { key = key'; stage = forgotten exit })) reads.readings;
  }

  -- `answer.Complete`, the second half.
  unfoldable pub complete : Reads Exit → ℕ → Exit → Reads Exit
  complete reads a exit = record reads {
    readings = set_at a none reads.readings;
    answers = set_at a (some exit) reads.answers;
  }

  abbrev pub reading_of : Text → Stage Exit → Option (Reading Exit)
  reading_of key' stage' = some (record { key = key'; stage = stage' })

  -- One step of a caller or of a reading. A caller that goes away no longer waits; one
  -- that goes away before it forks its reading abandons it.
  pub data Step (reads : Reads Exit) : Reads Exit → Type 0 where
    ask : (key : Text) → Step reads (join_or_start reads key).1
    fork :
        (a : ℕ) (key : Text)
        → reads.readings a ≡ reading_of key claimed
        → Step reads (fork_read reads a key)
    abandon :
        (a : ℕ) (key : Text)
        → reads.readings a ≡ reading_of key claimed
        → Step reads (abandon_read reads a key)
    forget :
        (a : ℕ) (key : Text) (exit : Exit)
        → reads.readings a ≡ reading_of key running
        → Step reads (forget_key reads a key exit)
    finish :
        (a : ℕ) (key : Text) (exit : Exit)
        → reads.readings a ≡ reading_of key (forgotten exit)
        → Step reads (complete reads a exit)
    leave :
        (kept : List ℕ)
        → ((a : ℕ) → Member a kept → Member a reads.waiting)
        → Step reads (record reads { waiting = kept })

  pub data Reaches (reads : Reads Exit) : Reads Exit → Type 0 where
    stay : Reaches reads reads
    then_step :
        {middle end : Reads Exit} → Reaches reads middle → Step middle end → Reaches reads end
