-- ===== src/Filling/Matching.antt =====
-- web/call.go against web/path.go and web/route_tree.go: the path that a client fills in, matched by
-- the pattern it was filled from. That net/url escapes and reads back the path on its way is left out.
use effect_golang_web.Common.{
  ◌≡◌, ◌≢◌, refl, sym, ap, subst, ◌∙◌, false, Option, none, some, List, [], ◌∷◌, Text, text_eq_refl,
  Map, lookup, join, split, join-split, split-ne-nil, split-append, split_plain, Lacks, All, Result,
  ok, >>=-eq-ok, ok-injective,
}
use effect_golang_web.Path.{
  SegmentKind, literal_segment, capture_segment, wildcard_segment, Segment, slash, path_segments,
}
use effect_golang_web.Path.Segments.{IsReadable}
use effect_golang_web.Path.Patterns.{IsPattern, AreReadable}
use effect_golang_web.Tree.{Binding}
use effect_golang_web.Tree.Meaning.{match_segments, match_part, binding}
use effect_golang_web.Filling.{FillMistake, given_value, fill_part, fill_parts, fill_pattern}

-- A value may go into one segment of a path.
abbrev pub Fits : SegmentKind → Option Text → Type 0
Fits capture_segment (some value) = Lacks slash value
Fits _ _ = Unit

abbrev pub Fit : List Segment → Map Text → Type 0
Fit [] captures = Unit
Fit (s ∷ segments) captures = Fits s.kind (lookup s.text captures) × Fit segments captures

-- What a pattern captures of a path that was filled with these values.
abbrev pub filled : SegmentKind → Text → Option Text → List Binding → List Binding
filled literal_segment text value rest = rest
filled _ text none rest = rest
filled _ text (some value) rest = binding text value ∷ rest

pub filled_bindings : List Segment → Map Text → List Binding
filled_bindings [] captures = []
filled_bindings (s ∷ segments) captures =
    filled s.kind s.text (lookup s.text captures) (filled_bindings segments captures)

abbrev value_of : SegmentKind → Text → Option Text → Result FillMistake Text
value_of literal_segment text o = ok text
value_of capture_segment text o = given_value text o
value_of wildcard_segment text o = given_value text o

fill_part-value_of :
    (kind : SegmentKind) (text : Text) (captures : Map Text)
    → fill_part kind text captures ≡ value_of kind text (lookup text captures)
unfolding fill_part
fill_part-value_of literal_segment text captures = refl
fill_part-value_of capture_segment text captures = refl
fill_part-value_of wildcard_segment text captures = refl

wildcard_parts :
    (text : Text) (parts : List Text)
    → parts ≢ []
    → match_segments (record { kind = wildcard_segment; text = text } ∷ []) parts
      ≡ some (binding text (join parts (slash ∷ [])) ∷ [])
unfolding match_segments match_part
wildcard_parts text [] n = absurd (n refl)
wildcard_parts text (part ∷ parts) n = refl

-- A segment that is no wildcard takes the one part that it is filled with.
front_part :
    (kind : SegmentKind) (text : Text) (o : Option Text) (value : Text) (segments : List Segment)
    (parts : List Text) (rest : List Binding)
    → kind ≢ wildcard_segment
    → Lacks slash text
    → Fits kind o
    → value_of kind text o ≡ ok value
    → match_segments segments parts ≡ some rest
    → Lacks slash value
      × (match_segments (record { kind = kind; text = text } ∷ segments) (value ∷ parts)
          ≡ some (filled kind text o rest))
unfolding match_segments match_part
front_part literal_segment text o value segments parts rest n plain fit e h =
    let same : text ≡ value = ok-injective e in
    (
      subst (Lacks slash) same plain,
      subst
          (λ v.
            match_segments (record { kind = literal_segment; text = text } ∷ segments) (v ∷ parts)
            ≡ some rest)
          same (rw (text_eq_refl text) h),
    )
front_part capture_segment text none value segments parts rest n plain fit e h = cc
front_part capture_segment text (some v) value segments parts rest n plain fit e h =
    let same : v ≡ value = ok-injective e in
    (
      subst (Lacks slash) same fit,
      subst
          (λ x.
            match_segments (record { kind = capture_segment; text = text } ∷ segments) (x ∷ parts)
            ≡ some (binding text v ∷ rest))
          same (rw h refl),
    )
front_part wildcard_segment text o value segments parts rest n plain fit e h = absurd (n refl)

last_part :
    (kind : SegmentKind) (text : Text) (o : Option Text) (value : Text)
    → Lacks slash text
    → Fits kind o
    → value_of kind text o ≡ ok value
    → match_segments (record { kind = kind; text = text } ∷ []) (split value slash)
      ≡ some (filled kind text o [])
last_part wildcard_segment text none value plain fit e = cc
last_part wildcard_segment text (some v) value plain fit e =
    let same : v ≡ value = ok-injective e in
    wildcard_parts text (split value slash) (split-ne-nil slash value)
    ∙ ap (λ x. some (binding text x ∷ [])) (join-split slash value ∙ sym same)
last_part literal_segment text o value plain fit e =
    let (lacks, matched) =
      front_part literal_segment text o value [] [] [] (λ x. cc) plain fit e
        (unfold match_segments in refl) in
    ap (match_segments (record { kind = literal_segment; text = text } ∷ []))
      (split_plain slash value lacks)
    ∙ matched
last_part capture_segment text o value plain fit e =
    let (lacks, matched) =
      front_part capture_segment text o value [] [] [] (λ x. cc) plain fit e
        (unfold match_segments in refl) in
    ap (match_segments (record { kind = capture_segment; text = text } ∷ []))
      (split_plain slash value lacks)
    ∙ matched

front_kind :
    (kind : SegmentKind) (text : Text) → IsReadable kind text false → kind ≢ wildcard_segment
front_kind literal_segment text r = λ e. cc
front_kind capture_segment text r = λ e. cc
front_kind wildcard_segment text (_, last) = cc

record Filled (s : Segment) (segments : List Segment) (captures : Map Text) (parts : List Text)
    : Type 0 where
  value : Text
  others : List Text
  shape : value ∷ others ≡ parts
  given : value_of s.kind s.text (lookup s.text captures) ≡ ok value
  later : fill_parts segments captures ≡ ok others

fill_parts-Filled :
    (s : Segment) (segments : List Segment) (captures : Map Text) (parts : List Text)
    → fill_parts (s ∷ segments) captures ≡ ok parts
    → Filled s segments captures parts
unfolding fill_parts
fill_parts-Filled s segments captures parts e =
    let (v, e₁, e₂) = >>=-eq-ok {E = FillMistake} (fill_part s.kind s.text captures) _ e in
    let (vs, e₃, e₄) = >>=-eq-ok {E = FillMistake} (fill_parts segments captures) _ e₂ in
    record {
      value = v;
      others = vs;
      shape = ok-injective {E = FillMistake} e₄;
      given = sym (fill_part-value_of s.kind s.text captures) ∙ e₁;
      later = e₃;
    }

filled_parts :
    (segments : List Segment) (captures : Map Text) (parts : List Text)
    → segments ≢ []
    → AreReadable segments
    → All (λ s. Lacks slash s.text) segments
    → Fit segments captures
    → fill_parts segments captures ≡ ok parts
    → match_segments segments (split (join parts (slash ∷ [])) slash)
      ≡ some (filled_bindings segments captures)
unfolding filled_bindings join
filled_parts [] captures parts n r plain fit e = absurd (n refl)
filled_parts (s ∷ []) captures parts n r (plain, _) (fit, _) e =
    let f = fill_parts-Filled s [] captures parts e in
    let none_left : [] ≡ f.others = ok-injective {E = FillMistake} (unfold fill_parts in f.later) in
    subst
      (λ ps.
        match_segments (s ∷ []) (split (join ps (slash ∷ [])) slash)
        ≡ some (filled s.kind s.text (lookup s.text captures) []))
      (ap (λ vs. f.value ∷ vs) none_left ∙ f.shape)
      (last_part s.kind s.text (lookup s.text captures) f.value plain fit f.given)
filled_parts (s ∷ t ∷ segments) captures parts n (r, rs) (plain, plains) (fit, fit') e =
    let f = fill_parts-Filled s (t ∷ segments) captures parts e in
    let g = fill_parts-Filled t segments captures f.others f.later in
    let ih = filled_parts (t ∷ segments) captures f.others (λ x. cc) rs plains fit' f.later in
    let (lacks, matched) =
      front_part s.kind s.text (lookup s.text captures) f.value (t ∷ segments)
        (split (join f.others (slash ∷ [])) slash) (filled_bindings (t ∷ segments) captures)
        (front_kind s.kind s.text r) plain fit f.given ih in
    ap (λ ps. match_segments (s ∷ t ∷ segments) (split (join ps (slash ∷ [])) slash))
      (sym (ap (λ vs. f.value ∷ vs) g.shape ∙ f.shape))
    ∙ ap (match_segments (s ∷ t ∷ segments)) (
        split-append slash f.value (join (g.value ∷ g.others) (slash ∷ [])) lacks
        ∙ ap (λ ps. f.value ∷ split (join ps (slash ∷ [])) slash) g.shape)
    ∙ matched

-- A path that a client fills in is matched by the pattern that it was filled from, and the captures
-- of that match are the values that were filled in, as long as no value for a capture of one segment
-- holds a slash.
pub fill_pattern_lem :
    (segments : List Segment) (captures : Map Text) (path : Text)
    → IsPattern segments
    → Fit segments captures
    → fill_pattern segments captures ≡ ok path
    → match_segments segments (path_segments path) ≡ some (filled_bindings segments captures)
unfolding fill_pattern path_segments
fill_pattern_lem [] captures path p fit e = absurd (p.some_segment refl)
fill_pattern_lem (s ∷ segments) captures path p fit e =
    let (parts, e₁, e₂) = >>=-eq-ok {E = FillMistake} (fill_parts (s ∷ segments) captures) _ e in
    let same : slash ∷ join parts (slash ∷ []) ≡ path = ok-injective {E = FillMistake} e₂ in
    subst
      (λ x.
        match_segments (s ∷ segments) (path_segments x)
        ≡ some (filled_bindings (s ∷ segments) captures))
      same
      (filled_parts (s ∷ segments) captures parts p.some_segment p.readable p.slash_free fit e₁)
