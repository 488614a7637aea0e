-- ===== src/Inflight/Waiting.antt =====
-- web/upstream_inflight.go: whatever order the steps come in, a key has one reading at a time, and a
-- caller that waits can be answered, unless its reading was abandoned.
use effect_golang_web.Common.{ℕ, ◌≡◌, inl, inr, true, Text, lookup, is_some, Option-cases}
use effect_golang_web.Inflight.{
  Stage, abandon, Reads, Step, ask, fork, forget, finish, leave, Reaches, stay, then_step,
  reading_of, new_in_flight_reads, join_or_start,
}
use effect_golang_web.Inflight.Sharing.{
  is_open, IsSound, new_in_flight_reads-IsSound, IsSound-leave, IsSound-joined, IsSound-started,
  IsSound-fork, IsSound-abandon, IsSound-forget, IsSound-complete,
}

module _ {Exit : Type 0} where
  IsSound-join_or_start :
      (reads : Reads Exit) (key : Text) → IsSound reads → IsSound (join_or_start reads key).1
  unfolding join_or_start
  IsSound-join_or_start reads key sound = elim (Option-cases (lookup key reads.pending)) [
    | inl free ↦ rw free (IsSound-started reads sound key free)
    | inr (already, e) ↦ rw e (IsSound-joined reads sound key already e)
  ]

  -- A step of a caller or of a reading keeps the readings sound: a key is pending for just the open
  -- reading of it, and every deferred that is awaited is complete or has a reading.
  pub Step-IsSound : (reads after : Reads Exit) → Step reads after → IsSound reads → IsSound after
  Step-IsSound reads after (ask key) sound = IsSound-join_or_start reads key sound
  Step-IsSound reads after (fork a key r) sound = IsSound-fork reads sound a key r
  Step-IsSound reads after (abandon a key r) sound = IsSound-abandon reads sound a key r
  Step-IsSound reads after (forget a key exit r) sound = IsSound-forget reads sound a key exit r
  Step-IsSound reads after (finish a key exit r) sound = IsSound-complete reads sound a key exit r
  Step-IsSound reads after (leave kept from) sound = IsSound-leave reads sound kept from

  pub Reaches-IsSound :
      (reads after : Reads Exit) → Reaches reads after → IsSound reads → IsSound after
  Reaches-IsSound reads after stay sound = sound
  Reaches-IsSound reads after (then_step {middle = middle} steps step) sound =
      Step-IsSound middle after step (Reaches-IsSound reads middle steps sound)

  -- The state that a sequence of steps ends in has the deferred complete.
  abbrev Ends : Reads Exit → ℕ → Type 0
  Ends from a = (end : Reads Exit) × Reaches from end × (is_some (end.answers a) ≡ true)

  module _ (reads : Reads Exit) (reached : Reaches new_in_flight_reads reads) where
    reached-IsSound : IsSound reads
    reached-IsSound = Reaches-IsSound new_in_flight_reads reads reached new_in_flight_reads-IsSound

    -- At any time a key has one reading at most that is claimed or running.
    pub one_reading_lem :
        (key : Text) (a b : ℕ) (stage other : Stage Exit)
        → reads.readings a ≡ reading_of key stage
        → is_open stage ≡ true
        → reads.readings b ≡ reading_of key other
        → is_open other ≡ true
        → a ≡ b
    one_reading_lem key a b stage other r o r' o' =
        cc (reached-IsSound.owned a key stage r o, reached-IsSound.owned b key other r' o')
