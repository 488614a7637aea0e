-- ===== src/Inflight/Sharing.antt =====
-- web/upstream_inflight.go: what holds of the readings under way, in whatever order the steps come.
use effect_golang_web.Common.{
  ℕ, ◌≡◌, ◌≢◌, ◌<◌, refl, sym, ap, subst, ◌∙◌, ◌⊎◌, inl, inr, Bool, true, false, Option, none, some,
  List, Text, text_eq, text_eq_iff, Map, lookup, insert, delete, lookup-insert, lookup-delete,
  is_some, Member, ◌==◌, ==_iff, Bool-cases, arith,
}
use effect_golang_web.Inflight.{
  Stage, claimed, abandoned, abandon_read, running, forgotten, Reads, set_at, reading_of,
  new_in_flight_reads, after_claim, fork_read, forget_key, complete,
}

pub set_at-cases :
    {A : Type 0} (a b : ℕ) (value : Option A) (f : ℕ → Option A)
    → (b ≡ a) × (set_at a value f b ≡ value) ⊎ (b ≢ a) × (set_at a value f b ≡ f b)
set_at-cases a b value f = elim (Bool-cases (b == a)) [
  | inl same ↦ inl ((==_iff b a).0 same, rw same refl)
  | inr apart ↦ inr ((λ e. cc ((==_iff b a).1 e, apart)), rw apart refl)
]

pub set_at_self :
    {A : Type 0} (a : ℕ) (value : Option A) (f : ℕ → Option A) → set_at a value f a ≡ value
set_at_self a value f = elim (set_at-cases a a value f) [
  | inl (_, now) ↦ now
  | inr (n, _) ↦ absurd (n refl)
]

lookup-insert_cases :
    (key other : Text) (a : ℕ) (m : Map ℕ)
    → (key ≡ other) × (lookup other (insert key a m) ≡ some a)
      ⊎ (key ≢ other) × (lookup other (insert key a m) ≡ lookup other m)
lookup-insert_cases key other a m = elim (Bool-cases (text_eq key other)) [
  | inl same ↦ inl ((text_eq_iff key other).0 same, lookup-insert key other a m ∙ rw same refl)
  | inr apart ↦
      inr (
        (λ e. cc ((text_eq_iff key other).1 e, apart)),
        lookup-insert key other a m ∙ rw apart refl,
      )
]

lookup-delete_cases :
    (key other : Text) (m : Map ℕ)
    → (key ≡ other) × (lookup other (delete key m) ≡ none)
      ⊎ (key ≢ other) × (lookup other (delete key m) ≡ lookup other m)
lookup-delete_cases key other m = elim (Bool-cases (text_eq key other)) [
  | inl same ↦ inl ((text_eq_iff key other).0 same, lookup-delete key other m ∙ rw same refl)
  | inr apart ↦
      inr
        ((λ e. cc ((text_eq_iff key other).1 e, apart)), lookup-delete key other m ∙ rw apart refl)
]

module _ {Exit : Type 0} where
  pub same_reading :
      (k k' : Text) (s s' : Stage Exit) → reading_of k s ≡ reading_of k' s' → (k ≡ k') × (s ≡ s')
  same_reading k k' s s' e = (cc, cc)

  -- A reading whose key is not forgotten.
  abbrev pub is_open : Stage Exit → Bool
  is_open claimed = true
  is_open abandoned = true
  is_open running = true
  is_open (forgotten exit) = false

  abbrev pub Awaited : Reads Exit → ℕ → Type 0
  Awaited reads a = (is_some (reads.answers a) ≡ true) ⊎ (is_some (reads.readings a) ≡ true)

  -- A key is pending for just the open reading of it, and every deferred that is awaited is complete
  -- or has a reading.
  pub record IsSound (reads : Reads Exit) : Type 0 where
    pub owned :
        (a : ℕ) (key : Text) (stage : Stage Exit)
        → reads.readings a ≡ reading_of key stage
        → is_open stage ≡ true
        → lookup key reads.pending ≡ some a
    pub held :
        (a : ℕ) (key : Text)
        → lookup key reads.pending ≡ some a
        → (stage : Stage Exit) × (reads.readings a ≡ reading_of key stage) × (is_open stage ≡ true)
    pub bounded : (a : ℕ) → is_some (reads.readings a) ≡ true → a < reads.fresh
    pub served : (a : ℕ) → Member a reads.waiting → Awaited reads a

  pub new_in_flight_reads-IsSound : IsSound (new_in_flight_reads {Exit = Exit})
  unfolding new_in_flight_reads lookup
  new_in_flight_reads-IsSound = record {
    owned = λ a key stage e o. cc;
    held = λ a key e. cc;
    bounded = λ a e. cc;
    served = λ a m. absurd m;
  }

  module _ (reads : Reads Exit) (sound : IsSound reads) where
    pub IsSound-leave :
        (kept : List ℕ)
        → ((a : ℕ) → Member a kept → Member a reads.waiting)
        → IsSound (record reads { waiting = kept })
    IsSound-leave kept from = record {
      owned = sound.owned;
      held = sound.held;
      bounded = sound.bounded;
      served = λ a m. sound.served a (from a m);
    }

    pub IsSound-joined :
        (key : Text) (already : ℕ)
        → lookup key reads.pending ≡ some already
        → IsSound (after_claim reads key (some already))
    IsSound-joined key already e = record {
      owned = sound.owned;
      held = sound.held;
      bounded = λ a h. omega (arith, sound.bounded a h);
      served = λ a m. elim m [
        | inl here ↦
            let (stage, r, _) = sound.held already key e in
            inr (subst (λ x. is_some (reads.readings x) ≡ true) here (rw r refl))
        | inr there ↦ sound.served a there
      ];
    }

    pub IsSound-started :
        (key : Text) → lookup key reads.pending ≡ none → IsSound (after_claim reads key none)
    IsSound-started key e = record {
      owned = λ a other stage r o.
          elim (set_at-cases reads.fresh a (reading_of key claimed) reads.readings) [
            | inl (here, now) ↦
                let (k, _) = same_reading key other claimed stage (sym now ∙ r) in
                elim (lookup-insert_cases key other reads.fresh reads.pending) [
                  | inl (_, there) ↦ there ∙ ap some (sym here)
                  | inr (n, _) ↦ absurd (n k)
                ]
            | inr (_, before) ↦
                let own = sound.owned a other stage (sym before ∙ r) o in
                elim (lookup-insert_cases key other reads.fresh reads.pending) [
                  | inl (k, _) ↦ cc (ap (λ x. lookup x reads.pending) k, e, own)
                  | inr (_, there) ↦ there ∙ own
                ]
          ];
      held = λ a other h. elim (lookup-insert_cases key other reads.fresh reads.pending) [
        | inl (k, there) ↦
            let here : reads.fresh ≡ a = cc (there, h) in
            elim (set_at-cases reads.fresh a (reading_of key claimed) reads.readings) [
              | inl (_, now) ↦ (claimed, now ∙ ap (λ x. reading_of x claimed) k, refl)
              | inr (n, _) ↦ absurd (n (sym here))
            ]
        | inr (_, there) ↦
            let (stage, r, o) = sound.held a other (sym there ∙ h) in
            elim (set_at-cases reads.fresh a (reading_of key claimed) reads.readings) [
              | inl (here, _) ↦ absurd (omega (arith, here, sound.bounded a (rw r refl)))
              | inr (_, before) ↦ (stage, before ∙ r, o)
            ]
      ];
      bounded = λ a h. elim (set_at-cases reads.fresh a (reading_of key claimed) reads.readings) [
        | inl (here, _) ↦ omega (arith, here)
        | inr (_, before) ↦ omega (arith, sound.bounded a (ap is_some (sym before) ∙ h))
      ];
      served = λ a m. elim (set_at-cases reads.fresh a (reading_of key claimed) reads.readings) [
        | inl (_, now) ↦ inr (ap is_some now)
        | inr (_, before) ↦ elim (sound.served a m) [
          | inl answered ↦ inl answered
          | inr reading ↦ inr (ap is_some before ∙ reading)
        ]
      ];
    }

    -- A claimed reading goes on to a stage in which its key is still pending.
    IsSound-open :
        (next : Stage Exit) (a : ℕ) (key : Text)
        → is_open next ≡ true
        → reads.readings a ≡ reading_of key claimed
        → IsSound (record reads { readings = set_at a (reading_of key next) reads.readings })
    IsSound-open next a key still r = record {
      owned = λ b other stage r' o. elim (set_at-cases a b (reading_of key next) reads.readings) [
        | inl (here, now) ↦
            let (k, _) = same_reading key other next stage (sym now ∙ r') in
            ap (λ x. lookup x reads.pending) (sym k)
            ∙ sound.owned a key claimed r refl
            ∙ ap some (sym here)
        | inr (_, before) ↦ sound.owned b other stage (sym before ∙ r') o
      ];
      held = λ b other h.
          let (stage, r', o) = sound.held b other h in
          elim (set_at-cases a b (reading_of key next) reads.readings) [
            | inl (here, now) ↦
                let (k, _) =
                  same_reading key other claimed stage
                    (sym r ∙ ap reads.readings (sym here) ∙ r') in
                (next, now ∙ ap (λ x. reading_of x next) k, still)
            | inr (_, before) ↦ (stage, before ∙ r', o)
          ];
      bounded = λ b h. elim (set_at-cases a b (reading_of key next) reads.readings) [
        | inl (here, _) ↦ sound.bounded b (ap (λ x. is_some (reads.readings x)) here ∙ ap is_some r)
        | inr (_, before) ↦ sound.bounded b (ap is_some (sym before) ∙ h)
      ];
      served = λ b m. elim (set_at-cases a b (reading_of key next) reads.readings) [
        | inl (_, now) ↦ inr (ap is_some now)
        | inr (_, before) ↦ elim (sound.served b m) [
          | inl answered ↦ inl answered
          | inr reading ↦ inr (ap is_some before ∙ reading)
        ]
      ];
    }

    pub IsSound-fork :
        (a : ℕ) (key : Text)
        → reads.readings a ≡ reading_of key claimed
        → IsSound (fork_read reads a key)
    unfolding fork_read
    IsSound-fork a key r =
        let open_still = IsSound-open running a key refl r in
        record {
          owned = open_still.owned;
          held = open_still.held;
          bounded = open_still.bounded;
          served = λ b m. elim m [
            | inl here ↦
                subst (Awaited (fork_read reads a key)) here
                  (inr (ap is_some (set_at_self a (reading_of key running) reads.readings)))
            | inr there ↦ open_still.served b there
          ];
        }

    pub IsSound-abandon :
        (a : ℕ) (key : Text)
        → reads.readings a ≡ reading_of key claimed
        → IsSound (abandon_read reads a key)
    unfolding abandon_read
    IsSound-abandon a key r = IsSound-open abandoned a key refl r

    pub IsSound-forget :
        (a : ℕ) (key : Text) (exit : Exit)
        → reads.readings a ≡ reading_of key running
        → IsSound (forget_key reads a key exit)
    unfolding forget_key
    IsSound-forget a key exit r = record {
      owned = λ b other stage r' o.
          elim (set_at-cases a b (reading_of key (forgotten exit)) reads.readings) [
            | inl (here, now) ↦
                let (_, s) = same_reading key other (forgotten exit) stage (sym now ∙ r') in
                cc (ap is_open s, o)
            | inr (n, before) ↦
                let own = sound.owned b other stage (sym before ∙ r') o in
                elim (lookup-delete_cases key other reads.pending) [
                  | inl (k, _) ↦
                      let mine = sound.owned a key running r refl in
                      absurd (n (cc (ap (λ x. lookup x reads.pending) k, mine, own)))
                  | inr (_, there) ↦ there ∙ own
                ]
          ];
      held = λ b other h. elim (lookup-delete_cases key other reads.pending) [
        | inl (_, gone) ↦ cc (gone, h)
        | inr (m, there) ↦
            let (stage, r', o) = sound.held b other (sym there ∙ h) in
            elim (set_at-cases a b (reading_of key (forgotten exit)) reads.readings) [
              | inl (here, _) ↦
                  let (k, _) =
                    same_reading key other running stage
                      (sym r ∙ ap reads.readings (sym here) ∙ r') in
                  absurd (m k)
              | inr (_, before) ↦ (stage, before ∙ r', o)
            ]
      ];
      bounded = λ b h. elim (set_at-cases a b (reading_of key (forgotten exit)) reads.readings) [
        | inl (here, _) ↦ sound.bounded b (ap (λ x. is_some (reads.readings x)) here ∙ ap is_some r)
        | inr (_, before) ↦ sound.bounded b (ap is_some (sym before) ∙ h)
      ];
      served = λ b m. elim (set_at-cases a b (reading_of key (forgotten exit)) reads.readings) [
        | inl (_, now) ↦ inr (ap is_some now)
        | inr (_, before) ↦ elim (sound.served b m) [
          | inl answered ↦ inl answered
          | inr reading ↦ inr (ap is_some before ∙ reading)
        ]
      ];
    }

    pub IsSound-complete :
        (a : ℕ) (key : Text) (exit : Exit)
        → reads.readings a ≡ reading_of key (forgotten exit)
        → IsSound (complete reads a exit)
    unfolding complete
    IsSound-complete a key exit r = record {
      owned = λ b other stage r' o. elim (set_at-cases a b none reads.readings) [
        | inl (_, gone) ↦ cc (gone, r')
        | inr (_, before) ↦ sound.owned b other stage (sym before ∙ r') o
      ];
      held = λ b other h.
          let (stage, r', o) = sound.held b other h in
          elim (set_at-cases a b none reads.readings) [
            | inl (here, _) ↦
                let (_, s) =
                  same_reading key other (forgotten exit) stage
                    (sym r ∙ ap reads.readings (sym here) ∙ r') in
                cc (ap is_open s, o)
            | inr (_, before) ↦ (stage, before ∙ r', o)
          ];
      bounded = λ b h. elim (set_at-cases a b none reads.readings) [
        | inl (_, gone) ↦ cc (gone, h)
        | inr (_, before) ↦ sound.bounded b (ap is_some (sym before) ∙ h)
      ];
      served = λ b m. elim (set_at-cases a b none reads.readings) [
        | inl (here, _) ↦ elim (set_at-cases a b (some exit) reads.answers) [
          | inl (_, now) ↦ inl (ap is_some now)
          | inr (n, _) ↦ absurd (n here)
        ]
        | inr (n, before) ↦ elim (set_at-cases a b (some exit) reads.answers) [
          | inl (here, _) ↦ absurd (n here)
          | inr (_, same) ↦ elim (sound.served b m) [
            | inl answered ↦ inl (ap is_some same ∙ answered)
            | inr reading ↦ inr (ap is_some before ∙ reading)
          ]
        ]
      ];
    }
