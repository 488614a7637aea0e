-- ===== src/Endpoint/Captures.antt =====
-- web/endpoint_validation.go: `validateCaptures` against what matching a path captures.
use effect_golang_web.Common.{
  ◌≡◌, ◌≢◌, ◌↔◌, Any, text_eq_iff, refl, ap, subst, ◌∙◌, ◌⊎◌, inl, inr, Bool, true, false, ◌&&◌,
  not, Option, none, some, List, [], ◌∷◌, Text, join, text_eq, Map, lookup, insert as put,
  lookup-insert, is_some, Member, Bool-cases, if◌then◌else◌, arith,
}
use effect_golang_web.Path.{
  SegmentKind, literal_segment, capture_segment, wildcard_segment, Segment, slash, contains,
  is_literal, is_empty,
}
use effect_golang_web.Declarations.{Location, in_path, in_query, in_header, Parameter}
use effect_golang_web.Http.{Request, with_captures, capture_of}
use effect_golang_web.Tree.{Binding, capture_values, set_values}
use effect_golang_web.Tree.Meaning.{match_segments, match_part, bind_first, binding}
use effect_golang_web.Endpoint.{captured_names, uncaptured, validate_captures, is_in_path}

abbrev names_of : List Binding → List Text
names_of [] = []
names_of (b ∷ bs) = b.name ∷ names_of bs

names_of-bind_first :
    (text part : Text) (rest : Option (List Binding)) (names : List Text) (bs : List Binding)
    → ((b : List Binding) → rest ≡ some b → names_of b ≡ names)
    → bind_first text part rest ≡ some bs
    → names_of bs ≡ text ∷ names
names_of-bind_first text part none names bs h e = cc
names_of-bind_first text part (some b) names bs h e =
    let same : binding text part ∷ b ≡ bs = cc in
    subst (λ x. names_of x ≡ text ∷ names) same (ap (λ r. text ∷ r) (h b refl))

names_of-part :
    (kind : SegmentKind) (text part : Text) (path : List Text) (segments : List Segment)
    (rest : Option (List Binding)) (bs : List Binding)
    → ((b : List Binding) → rest ≡ some b → names_of b ≡ captured_names segments)
    → match_part kind text part path (is_empty segments) rest ≡ some bs
    → names_of bs
      ≡ (if is_literal kind then captured_names segments else text ∷ captured_names segments)
unfolding match_part captured_names
names_of-part literal_segment text part path segments rest bs h e =
    elim (Bool-cases (text_eq text part)) [
      | inl same ↦ h bs (ground (arith))
      | inr apart ↦ ground (arith)
    ]
names_of-part capture_segment text part path segments rest bs h e =
    names_of-bind_first text part rest (captured_names segments) bs h e
names_of-part wildcard_segment text part path [] rest bs h e =
    let same : binding text (join (part ∷ path) (slash ∷ [])) ∷ [] ≡ bs = cc in
    subst (λ x. names_of x ≡ text ∷ []) same refl
names_of-part wildcard_segment text part path (s ∷ segments) rest bs h e = cc

-- A path that a pattern matches binds just the names that the pattern captures.
names_of-match :
    (segments : List Segment) (path : List Text) (bs : List Binding)
    → match_segments segments path ≡ some bs
    → names_of bs ≡ captured_names segments
unfolding match_segments captured_names
names_of-match [] [] bs e = ground arith
names_of-match [] (_ ∷ _) bs e = cc
names_of-match (s ∷ segments) [] bs e = cc
names_of-match (s ∷ segments) (part ∷ path) bs e =
    names_of-part s.kind s.text part path segments (match_segments segments path) bs
      (λ b h. names_of-match segments path b h) e

-- The map of captures has a value for every name that is bound.
set_values-some :
    (bs : List Binding) (m : Map Text) (n : Text)
    → (contains (names_of bs) n ≡ true) ⊎ (is_some (lookup n m) ≡ true)
    → is_some (lookup n (set_values bs m)) ≡ true
unfolding set_values contains
set_values-some [] m n (inl h) = cc
set_values-some [] m n (inr h) = h
set_values-some (b ∷ bs) m n h =
    set_values-some bs (put b.name b.value m) n (elim (Bool-cases (text_eq b.name n)) [
      | inl same ↦ inr (rw (lookup-insert b.name n b.value m, same) refl)
      | inr apart ↦ elim h [
        | inl bound ↦ inl (rw (← bound, apart) refl)
        | inr held ↦ inr (rw (lookup-insert b.name n b.value m, apart) held)
      ]
    ])

location_cases : (l : Location) → (l ≡ in_path) ⊎ (is_in_path l ≡ false)
location_cases in_path = inl refl
location_cases in_query = inr refl
location_cases in_header = inr refl

kind_cases :
    (k : SegmentKind) → (k ≡ literal_segment) ⊎ ((k ≢ literal_segment) × (is_literal k ≡ false))
kind_cases literal_segment = inl refl
kind_cases capture_segment = inr ((λ e. cc), refl)
kind_cases wildcard_segment = inr ((λ e. cc), refl)

pub guard_none :
    {A : Type 0} (b : Bool) (a : A) (rest : Option A)
    → (if b then some a else rest) ≡ none
    → (b ≡ false) × (rest ≡ none)
guard_none true a rest e = cc
guard_none false a rest e = (refl, e)

and_not : (a c : Bool) → a ≡ true → a && not c ≡ false → c ≡ true
and_not true true h e = refl
and_not true false h e = cc
and_not false c h e = cc

pub uncaptured-none :
    {Shape : Type 0} (X : Type 0) (captured : List Text) (ps : List (Parameter Shape))
    (p : Parameter Shape)
    → uncaptured {X = X} captured ps ≡ none
    → Member p ps
    → p.location ≡ in_path
    → contains captured p.name ≡ true
unfolding uncaptured
uncaptured-none X captured [] p e m l = absurd m
uncaptured-none X captured (q ∷ ps) p e m l =
    let (fine, later) =
      guard_none (is_in_path q.location && not (contains captured q.name)) _
        (uncaptured captured ps) e in
    elim m [
      | inl here ↦
          subst (λ r. contains captured r.name ≡ true) here
            (and_not (is_in_path q.location) (contains captured q.name)
              (ap is_in_path (ap (λ r. r.location) here ∙ l)) fine)
      | inr there ↦ uncaptured-none X captured ps p later there l
    ]

all_captured :
    {Shape : Type 0} (X : Type 0) (captured : List Text) (ps : List (Parameter Shape))
    → ((p : Parameter Shape) → Member p ps → p.location ≡ in_path → contains captured p.name ≡ true)
    → uncaptured {X = X} captured ps ≡ none
unfolding uncaptured
all_captured X captured [] given = refl
all_captured X captured (q ∷ ps) given =
    let later = all_captured X captured ps (λ p m l. given p (inr m) l) in
    elim (location_cases q.location) [
      | inl inside ↦ rw (inside, given q (inl refl) inside) later
      | inr outside ↦ rw outside later
    ]

-- A segment that captures what stands in its place under this name.
abbrev pub IsCapture : Text → Segment → Type 0
IsCapture name segment = (segment.kind ≢ literal_segment) × (segment.text ≡ name)

captures_iff :
    (segments : List Segment) (name : Text)
    → (contains (captured_names segments) name ≡ true) ↔ Any (IsCapture name) segments
unfolding captured_names contains
captures_iff [] name = (λ h. cc, λ h. absurd h)
captures_iff (s ∷ segments) name =
    let (to, from) = captures_iff segments name in
    elim (kind_cases s.kind) [
      | inl literal ↦ (
        λ h. inr (to (rw literal at h)),
        λ h. elim h [ inl (n, _) ↦ absurd (n literal) | inr later ↦ rw literal (from later) ],
      )
      | inr (n, other) ↦ elim (Bool-cases (text_eq s.text name)) [
        | inl same ↦ (λ h. inl (n, (text_eq_iff s.text name).0 same), λ h. rw (other, same) refl)
        | inr apart ↦ (
          λ h. inr (to (rw (other, apart) at h)),
          λ h. elim h [
            | inl (_, same) ↦ cc ((text_eq_iff s.text name).1 same, apart)
            | inr later ↦ rw (other, apart) (from later)
          ],
        )
      ]
    ]

-- Each parameter that is read from the path has a segment that captures it.
abbrev pub AreCaptured : {Shape : Type 0} → List Segment → List (Parameter Shape) → Type 0
AreCaptured {Shape = Shape} segments parameters =
    (p : Parameter Shape)
    → Member p parameters
    → p.location ≡ in_path
    → Any (IsCapture p.name) segments

pub validate_captures_iff :
    {Shape : Type 0} (X : Type 0) (segments : List Segment) (parameters : List (Parameter Shape))
    → (validate_captures {X = X} segments parameters ≡ none) ↔ AreCaptured segments parameters
unfolding validate_captures
validate_captures_iff X segments parameters = (
  λ e p m l.
      (captures_iff segments p.name).0
        (uncaptured-none X (captured_names segments) parameters p e m l),
  λ given.
      all_captured X (captured_names segments) parameters
        (λ p m l. (captures_iff segments p.name).1 (given p m l)),
)

-- A declared path parameter is never missing: if the check of the captures finds no fault, then for
-- every path that the pattern matches, the request with the captures of that match has a value
-- under the name of each parameter that is read from the path.
pub validate_captures_lem :
    {Shape X Strategy : Type 0} (segments : List Segment) (parameters : List (Parameter Shape))
    (path : List Text) (bindings : List Binding) (request : Request Strategy)
    → validate_captures {X = X} segments parameters ≡ none
    → match_segments segments path ≡ some bindings
    → (p : Parameter Shape) → Member p parameters
    → p.location ≡ in_path
    → is_some (capture_of (with_captures request (capture_values bindings)) p.name) ≡ true
unfolding validate_captures capture_of with_captures capture_values
validate_captures_lem {X = X} segments parameters path bindings request sound matched p m l =
    set_values-some bindings [] p.name (
      inl (
        ap (λ ns. contains ns p.name) (names_of-match segments path bindings matched)
        ∙ uncaptured-none X (captured_names segments) parameters p sound m l))
