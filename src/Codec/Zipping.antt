-- ===== src/Codec/Zipping.antt =====
-- web/codec.go: when two codecs may be combined, and what the combination reads.
use effect_golang_web.Common.{
  ℕ, ◌≡◌, ◌≢◌, refl, sym, ap, ◌∙◌, ◌↔◌, inl, inr, Bool, true, false, ◌&&◌, ◌||◌, Option, none, some,
  List, [], ◌∷◌, ◌++◌, drop, ap₂, Text, codes, text_eq, text_eq_iff, All, Bool-cases, is_some, ok,
  ◌>>=◌, arith, Option-cases,
}
use effect_golang_web.Path.{contains}
use effect_golang_web.Declarations.{Location, in_path, in_query, in_header, Parameter}
use effect_golang_web.Http.{Request}
use effect_golang_web.Codec.{
  Codec, two_entities, location_text, or_first, parameter_key, duplicate_from,
  duplicate_parameter_fault, validate_codec, call, decode_with, first_codec_fault, zip,
}

abbrev first_code : Text → ℕ
first_code [] = 0
first_code (c ∷ s) = c

parameter_text-injective :
    (l l' : Location) (s t : Text)
    → location_text l ++ codes " " ++ s ≡ location_text l' ++ codes " " ++ t
    → (l ≡ l') × (s ≡ t)
parameter_text-injective in_path in_path s t e = (refl, ap (drop 5) e)
parameter_text-injective in_query in_query s t e = (refl, ap (drop 6) e)
parameter_text-injective in_header in_header s t e = (refl, ap (drop 7) e)
parameter_text-injective in_path in_query s t e = absurd (omega (arith, ap first_code e))
parameter_text-injective in_path in_header s t e = absurd (omega (arith, ap first_code e))
parameter_text-injective in_query in_path s t e = absurd (omega (arith, ap first_code e))
parameter_text-injective in_query in_header s t e = absurd (omega (arith, ap first_code e))
parameter_text-injective in_header in_path s t e = absurd (omega (arith, ap first_code e))
parameter_text-injective in_header in_query s t e = absurd (omega (arith, ap first_code e))

differ : (j k : Text) → (j ≢ k) ↔ (text_eq j k ≡ false)
differ j k = (
  λ n. elim (Bool-cases (text_eq j k)) [
    | inl same ↦ absurd (n ((text_eq_iff j k).0 same))
    | inr apart ↦ apart
  ],
  λ d e. cc ((text_eq_iff j k).1 e, d),
)

neither : (a b : Bool) → (a || b ≡ false) ↔ ((a ≡ false) × (b ≡ false))
neither true b = (λ h. cc, λ (h, _). cc)
neither false b = (λ h. (refl, h), λ (_, h). h)

module _ {Shape : Type 0} where
  -- No two parameters have one location and one name.
  abbrev pub Apart : Parameter Shape → Parameter Shape → Type 0
  Apart p q = (p.location ≡ q.location) → (p.name ≡ q.name) → ⊥

  abbrev pub DistinctParameters : List (Parameter Shape) → Type 0
  DistinctParameters [] = Unit
  DistinctParameters (p ∷ ps) = All (Apart p) ps × DistinctParameters ps

  key-Apart : (p q : Parameter Shape) → (parameter_key p ≢ parameter_key q) ↔ Apart p q
  unfolding parameter_key
  key-Apart p q = (
    λ n l e. n (ap₂ (λ x y. location_text x ++ codes " " ++ y) l e),
    λ a e. let (l, m) = parameter_text-injective p.location q.location p.name q.name e in a l m,
  )

  abbrev Unseen : List Text → Parameter Shape → Type 0
  Unseen seen p = contains seen (parameter_key p) ≡ false

  Unseen-one :
      (seen : List Text) (p q : Parameter Shape)
      → Unseen (parameter_key p ∷ seen) q ↔ (Apart p q × Unseen seen q)
  unfolding contains
  Unseen-one seen p q =
      let (to, from) =
        neither (text_eq (parameter_key p) (parameter_key q)) (contains seen (parameter_key q)) in
      let (d₁, d₂) = differ (parameter_key p) (parameter_key q) in
      let (k₁, k₂) = key-Apart p q in
      (λ u. let (d, v) = to u in (k₁ (d₂ d), v), λ (a, v). from (d₁ (k₂ a), v))

  Unseen-cons :
      (seen : List Text) (p : Parameter Shape) (ps : List (Parameter Shape))
      → All (Unseen (parameter_key p ∷ seen)) ps ↔ (All (Apart p) ps × All (Unseen seen) ps)
  Unseen-cons seen p [] = (λ h. (tt, tt), λ h. tt)
  Unseen-cons seen p (q ∷ ps) =
      let (to, from) = Unseen-one seen p q in
      let (up, down) = Unseen-cons seen p ps in
      (
        λ (u, us). let (a, v) = to u in let (as', vs) = up us in ((a, as'), (v, vs)),
        λ ((a, as'), (v, vs)). (from (a, v), down (as', vs)),
      )

  duplicate_iff :
      (X : Type 0) (seen : List Text) (ps : List (Parameter Shape))
      → (duplicate_from {X = X} seen ps ≡ none) ↔ (All (Unseen seen) ps × DistinctParameters ps)
  unfolding duplicate_from
  duplicate_iff X seen [] = (λ h. (tt, tt), λ h. refl)
  duplicate_iff X seen (p ∷ ps) = elim (Bool-cases (contains seen (parameter_key p))) [
    | inl again ↦ rw again (λ h. cc, λ ((u, _), _). cc)
    | inr fresh ↦
        let (to, from) = duplicate_iff X (parameter_key p ∷ seen) ps in
        let (up, down) = Unseen-cons seen p ps in
        rw fresh (
          λ h. let (u, d) = to h in let (a, v) = up u in ((refl, v), (a, d)),
          λ ((_, v), (a, d)). from (down (a, v), d),
        )
  ]

  -- Parameters are refused exactly if two of them have one location and one name.
  pub duplicate_parameter_fault_iff :
      (X : Type 0) (ps : List (Parameter Shape))
      → (duplicate_parameter_fault {X = X} ps ≡ none) ↔ DistinctParameters ps
  unfolding duplicate_parameter_fault contains
  duplicate_parameter_fault_iff X ps =
      let (to, from) = duplicate_iff X [] ps in (λ h. (to h).1, λ d. from (all_unseen ps, d))
    where
      all_unseen : (qs : List (Parameter Shape)) → All (Unseen []) qs
      all_unseen [] = tt
      all_unseen (q ∷ qs) = (refl, all_unseen qs)

pub decode-validated :
    {Shape Strategy X C : Type 0} (codec : Codec Shape Strategy X C) (request : Request Strategy)
    → validate_codec codec ≡ none
    → decode_with codec request ≡ call codec.decode request
unfolding decode_with
decode-validated codec request e = rw e refl

pub or_first-none :
    {C : Type 0} (a b : Option C) → (or_first a b ≡ none) ↔ ((a ≡ none) × (b ≡ none))
or_first-none none b = (λ h. (refl, h), λ (_, h). h)
or_first-none (some a) b = (λ h. cc, λ (h, _). cc)

module _ {Shape Strategy X A B : Type 0} (first : Codec Shape Strategy X A)
    (second : Codec Shape Strategy X B) where
  -- At most one of the two reads the body.
  abbrev pub OneBody : Type 0
  OneBody = is_some first.entity && is_some second.entity ≡ false

  validate-zip : validate_codec (zip first second) ≡ first_codec_fault first second
  unfolding validate_codec zip
  validate-zip = elim (Option-cases (first_codec_fault first second)) [
    | inl sound ↦ rw sound refl
    | inr (fault, e) ↦ rw e refl
  ]

  first_codec_fault_iff : (first_codec_fault first second ≡ none) ↔ (
      (validate_codec first ≡ none)
      × (validate_codec second ≡ none)
      × OneBody
      × DistinctParameters (first.parameters ++ second.parameters))
  unfolding first_codec_fault
  first_codec_fault_iff =
      let (to, from) = duplicate_parameter_fault_iff X (first.parameters ++ second.parameters) in
      elim (Bool-cases (is_some first.entity && is_some second.entity)) [
        | inl both ↦ rw both (
          λ h.
              cc
                ((or_first-none (validate_codec second) (some two_entities)).0
                  ((or_first-none (validate_codec first) _).0 h).1).1,
          λ (_, _, one, _). cc,
        )
        | inr one ↦ rw one (
          λ h.
              let (a, rest) = (or_first-none _ _).0 h in
              let (b, d) = (or_first-none _ _).0 rest in (a, b, refl, to d),
          λ (a, b, _, d). rw (a, b) (from d),
        )
      ]

  -- A combination of two codecs can be used exactly if each can, at most one of them reads the
  -- body, and no two of their parameters have one location and one name.
  pub zip_lem : (validate_codec (zip first second) ≡ none) ↔ (
      (validate_codec first ≡ none)
      × (validate_codec second ≡ none)
      × OneBody
      × DistinctParameters (first.parameters ++ second.parameters))
  zip_lem =
      let (to, from) = first_codec_fault_iff in
      (λ h. to (sym validate-zip ∙ h), λ h. validate-zip ∙ from h)

  decode_of-zip :
      (request : Request Strategy)
      → first_codec_fault first second ≡ none
      → call (zip first second).decode request
        ≡ (call first.decode request >>= (λ a. call second.decode request >>= (λ b. ok (a, b))))
  unfolding zip
  decode_of-zip request e = rw (call, e) refl

  -- A combination that can be used reads the request with the first codec and then with the second;
  -- it fails with the fault of the first that fails, and else pairs the two values.
  pub decode-zip :
      (request : Request Strategy)
      → validate_codec (zip first second) ≡ none
      → decode_with (zip first second) request
        ≡ (decode_with first request >>= (λ a. decode_with second request >>= (λ b. ok (a, b))))
  decode-zip request e =
      let (a, b, _, _) = zip_lem.0 e in
      decode-validated (zip first second) request e
      ∙ decode_of-zip request (sym validate-zip ∙ e)
      ∙ ap₂ (λ x y. x >>= (λ c. y >>= (λ d. ok (c, d)))) (sym (decode-validated first request a))
          (sym (decode-validated second request b))
