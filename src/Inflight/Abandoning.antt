-- ===== src/Inflight/Abandoning.antt =====
-- web/upstream_inflight.go: a reading whose caller is interrupted before it forks it.
use effect_golang_web.Common.{
  ℕ, ◌≢◌, ◌≡◌, refl, sym, ap, ◌∙◌, inl, inr, false, Option, none, some, Text, lookup, is_some,
  Option-cases, arith,
}
use effect_golang_web.Inflight.{
  Stage, Reading, claimed, abandoned, running, forgotten, Reads, Step, ask, fork, abandon, forget,
  finish, leave, Reaches, stay, then_step, set_at, reading_of, join_or_start, fork_read,
  abandon_read, forget_key, complete,
}
use effect_golang_web.Inflight.Sharing.{set_at-cases, set_at_self, same_reading, IsSound}
use effect_golang_web.Inflight.Waiting.{Step-IsSound, Reaches-IsSound}

module _ {Exit : Type 0} where
  -- The reading for the deferred is abandoned, and the deferred is not complete.
  abbrev pub IsStuck : Reads Exit → ℕ → Text → Type 0
  IsStuck reads a key = (reads.readings a ≡ reading_of key abandoned) × (reads.answers a ≡ none)

  -- A step of another reading leaves it as it is.
  set_at-apart :
      (reads : Reads Exit) (a b : ℕ) (key other : Text) (stage : Stage Exit)
      (next : Option (Reading Exit))
      → reads.readings a ≡ reading_of key abandoned
      → reads.readings b ≡ reading_of other stage
      → (stage ≢ abandoned)
      → (a ≢ b) × (set_at b next reads.readings a ≡ reading_of key abandoned)
  set_at-apart reads a b key other stage next stuck r n =
      let apart : a ≢ b = λ same. n (
        sym
          ((same_reading key other abandoned stage (sym stuck ∙ ap reads.readings same ∙ r)).1)) in
      elim (set_at-cases b a next reads.readings) [
        | inl (same, _) ↦ absurd (apart same)
        | inr (_, before) ↦ (apart, before ∙ stuck)
      ]

  ask-IsStuck :
      (reads : Reads Exit) (a : ℕ) (key other : Text)
      → IsSound reads
      → IsStuck reads a key
      → IsStuck (join_or_start reads other).1 a key
  unfolding join_or_start
  ask-IsStuck reads a key other sound (stuck, unanswered) =
      elim (Option-cases (lookup other reads.pending)) [
        | inr (already, e) ↦ rw e (stuck, unanswered)
        | inl free ↦ elim (set_at-cases reads.fresh a (reading_of other claimed) reads.readings) [
          | inl (same, _) ↦ absurd (omega (arith, same, sound.bounded a (ap is_some stuck)))
          | inr (_, before) ↦ rw free (before ∙ stuck, unanswered)
        ]
      ]

  Step-IsStuck :
      (reads after : Reads Exit) (a : ℕ) (key : Text)
      → Step reads after
      → IsSound reads
      → IsStuck reads a key
      → IsStuck after a key
  unfolding fork_read abandon_read forget_key complete
  Step-IsStuck reads after a key (ask other) sound s = ask-IsStuck reads a key other sound s
  Step-IsStuck reads after a key (fork b other r) sound (stuck, u) =
      ((set_at-apart reads a b key other claimed _ stuck r (λ e. cc)).1, u)
  Step-IsStuck reads after a key (abandon b other r) sound (stuck, u) =
      ((set_at-apart reads a b key other claimed _ stuck r (λ e. cc)).1, u)
  Step-IsStuck reads after a key (forget b other exit r) sound (stuck, u) =
      ((set_at-apart reads a b key other running _ stuck r (λ e. cc)).1, u)
  Step-IsStuck reads after a key (finish b other exit r) sound (stuck, u) =
      let (apart, still) =
        set_at-apart reads a b key other (forgotten exit) none stuck r (λ e. cc) in
      elim (set_at-cases b a (some exit) reads.answers) [
        | inl (same, _) ↦ absurd (apart same)
        | inr (_, before) ↦ (still, before ∙ u)
      ]
  Step-IsStuck reads after a key (leave kept from) sound s = s

  Reaches-IsStuck :
      (reads end : Reads Exit) (a : ℕ) (key : Text)
      → Reaches reads end
      → IsSound reads
      → IsStuck reads a key
      → IsStuck end a key
  Reaches-IsStuck reads end a key stay sound s = s
  Reaches-IsStuck reads end a key (then_step {middle = middle} steps step) sound s =
      Step-IsStuck middle end a key step (Reaches-IsSound reads middle steps sound)
        (Reaches-IsStuck reads middle a key steps sound s)

  -- A caller that is interrupted between its claim and the fork of the reading blocks its key: if the
  -- readings are sound and the deferred is not complete, then in every state that is reached
  -- afterwards the deferred is still not complete, and whoever asks for the key joins it.
  pub abandoned_lem :
      (reads end : Reads Exit) (a : ℕ) (key : Text)
      → IsSound reads
      → reads.readings a ≡ reading_of key claimed
      → reads.answers a ≡ none
      → Reaches (abandon_read reads a key) end
      → (end.answers a ≡ none) × ((join_or_start end key).0 ≡ record { answer = a; leader = false })
  unfolding join_or_start
  abandoned_lem reads end a key sound r u steps =
      let abandoned_sound = Step-IsSound reads (abandon_read reads a key) (abandon a key r) sound in
      let start : IsStuck (abandon_read reads a key) a key =
        unfold abandon_read in (set_at_self a (reading_of key abandoned) reads.readings, u) in
      let (stuck, unanswered) =
        Reaches-IsStuck (abandon_read reads a key) end a key steps abandoned_sound start in
      let later = Reaches-IsSound (abandon_read reads a key) end steps abandoned_sound in
      (unanswered, rw (later.owned a key abandoned stuck refl) refl)
