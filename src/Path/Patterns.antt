-- ===== src/Path/Patterns.antt =====
-- web/path.go: whole patterns, `parsePattern` against `renderPattern`.
use effect_golang_web.Common.{
  ℕ, ◌≡◌, ◌≢◌, refl, sym, ap, subst, ◌∙◌, ◌↔◌, false, List, [], ◌∷◌, ◌++◌, map, arith, Text,
  text_eq_iff, split, join, join-split, split-join, split-ne-nil, split-Lacks, ok, >>=-eq-ok,
  map_err, map_err-eq-ok, Lacks, All, All-append, Bool-cases, ◌==◌, ==_iff, inl, inr,
}
use effect_golang_web.Path.{
  SegmentKind, literal_segment, capture_segment, wildcard_segment, Segment, slash, close_brace,
  dots, contains, note_capture, is_empty, parse_segment, parse_parts, fault_of, parse_pattern,
  render_segment, render_pattern,
}
use effect_golang_web.Path.Segments.{IsReadable, parse_segment_iff}

abbrev pub named : SegmentKind → Text → List Text → List Text
named literal_segment text names = names
named _ text names = text ∷ names

-- The names that a pattern captures, in order.
abbrev pub capture_names : List Segment → List Text
capture_names [] = []
capture_names (s ∷ segments) = named s.kind s.text (capture_names segments)

abbrev pub Distinct : List Text → Type 0
Distinct [] = Unit
Distinct (n ∷ names) = All (λ m. n ≢ m) names × Distinct names

abbrev pub AreReadable : List Segment → Type 0
AreReadable [] = Unit
AreReadable (s ∷ segments) = IsReadable s.kind s.text (is_empty segments) × AreReadable segments

-- What a pattern is: at least one segment, each readable where it stands (a wildcard only at the
-- end), none with a slash inside, and no two captures of one name.
pub record IsPattern (segments : List Segment) : Type 0 where
  pub some_segment : segments ≢ []
  pub readable : AreReadable segments
  pub slash_free : All (λ s. Lacks slash s.text) segments
  pub distinct : Distinct (capture_names segments)

-- None of the names is among those captured before, or repeated.
abbrev Fresh : List Text → List Text → Type 0
Fresh captured [] = Unit
Fresh captured (n ∷ names) = (contains captured n ≡ false) × Fresh (n ∷ captured) names

note_capture_sound :
    (captured : List Text) (kind : SegmentKind) (text : Text) (names after : List Text)
    → note_capture captured (record { kind = kind; text = text }) ≡ ok after
    → Fresh after names
    → Fresh captured (named kind text names)
unfolding note_capture
note_capture_sound captured literal_segment text names after h f =
    let e : captured ≡ after = cc in subst (λ c. Fresh c names) (sym e) f
note_capture_sound captured _ text names after h f =
    let free : contains captured text ≡ false = ground arith in
    let e : text ∷ captured ≡ after = ground arith in (free, subst (λ c. Fresh c names) (sym e) f)

note_capture_complete :
    (captured : List Text) (kind : SegmentKind) (text : Text) (names : List Text)
    → Fresh captured (named kind text names)
    → (note_capture captured (record { kind = kind; text = text }) ≡ ok (named kind text captured))
      × Fresh (named kind text captured) names
unfolding note_capture
note_capture_complete captured literal_segment text names f = (refl, f)
note_capture_complete captured _ text names (free, f) = (rw free, f)

abbrev AreRead : List Text → List Text → List Segment → Type 0
AreRead captured parts segments =
    AreReadable segments
    × Fresh captured (capture_names segments)
    × (map render_segment segments ≡ parts)

is_empty-map {ℓ κ} :
    {A : Type ℓ} {B : Type κ} (f : A → B) (xs : List A) → is_empty (map f xs) ≡ is_empty xs
is_empty-map f [] = refl
is_empty-map f (x ∷ xs) = refl

parse_parts_sound :
    (captured parts : List Text) (segments : List Segment)
    → parse_parts captured parts ≡ ok segments
    → AreRead captured parts segments
unfolding parse_parts
parse_parts_sound captured [] segments h =
    let e : [] ≡ segments = cc in subst (AreRead captured []) e (tt, tt, refl)
parse_parts_sound captured (part ∷ parts) segments h =
    let (s, read, h₁) = >>=-eq-ok (parse_segment part (is_empty parts)) _ h in
    let (after, noted, h₂) = >>=-eq-ok (note_capture captured s) _ h₁ in
    let (rest, parsed, h₃) = >>=-eq-ok (parse_parts after parts) _ h₂ in
    let (readable, fresh, spelled) = parse_parts_sound after parts rest parsed in
    let e : s ∷ rest ≡ segments = cc in
    let (here, written) = (parse_segment_iff part (is_empty parts) s).0 read in
    let last : is_empty parts ≡ is_empty rest =
      ap is_empty (sym spelled) ∙ is_empty-map render_segment rest in
    subst (AreRead captured (part ∷ parts)) e (
      (subst (IsReadable s.kind s.text) last here, readable),
      note_capture_sound captured s.kind s.text _ after noted fresh,
      cc,
    )

parse_parts_complete :
    (captured : List Text) (segments : List Segment)
    → AreReadable segments
    → Fresh captured (capture_names segments)
    → parse_parts captured (map render_segment segments) ≡ ok segments
unfolding parse_parts
parse_parts_complete captured [] r f = refl
parse_parts_complete captured (s ∷ segments) (here, readable) f =
    let (noted, fresh) = note_capture_complete captured s.kind s.text (capture_names segments) f in
    rw
      (
        is_empty-map render_segment segments,
        (parse_segment_iff _ _ s).1 (here, refl),
        noted,
        parse_parts_complete _ segments readable fresh,
      )
      refl

Distinct-Fresh :
    (captured names : List Text)
    → All (λ n. contains captured n ≡ false) names
    → Distinct names
    → Fresh captured names
unfolding contains
Distinct-Fresh captured [] a d = tt
Distinct-Fresh captured (n ∷ names) (free, a) (differ, d) =
    (free, Distinct-Fresh (n ∷ captured) names (step names differ a) d)
  where
    step :
        (ms : List Text)
        → All (λ m. n ≢ m) ms
        → All (λ m. contains captured m ≡ false) ms
        → All (λ m. contains (n ∷ captured) m ≡ false) ms
    step [] _ _ = tt
    step (m ∷ ms) (p, ps) (q, qs) = (ground (arith, text_eq_iff n m), step ms ps qs)

Fresh-Distinct :
    (captured names : List Text)
    → Fresh captured names
    → All (λ n. contains captured n ≡ false) names × Distinct names
unfolding contains
Fresh-Distinct captured [] f = (tt, tt)
Fresh-Distinct captured (n ∷ names) (free, f) =
    let (a, d) = Fresh-Distinct (n ∷ captured) names f in
    let (old, new) = step names a in ((free, old), (new, d))
  where
    step :
        (ms : List Text)
        → All (λ m. contains (n ∷ captured) m ≡ false) ms
        → All (λ m. contains captured m ≡ false) ms × All (λ m. n ≢ m) ms
    step [] _ = (tt, tt)
    step (m ∷ ms) (q, qs) =
        let (old, new) = step ms qs in ((ground arith, old), (ground (arith, text_eq_iff n m), new))

Lacks-append_left : (c : ℕ) (s t : Text) → Lacks c (s ++ t) → Lacks c s
Lacks-append_left c [] t h = tt
Lacks-append_left c (d ∷ s) t (n, h) = (n, Lacks-append_left c s t h)

render_segment-Lacks :
    (kind : SegmentKind) (text : Text)
    → Lacks slash text ↔ Lacks slash (render_segment (record { kind = kind; text = text }))
unfolding render_segment
render_segment-Lacks literal_segment text = (λ h. h, λ h. h)
render_segment-Lacks capture_segment text = (
  λ h. (omega arith, All-append (λ d. d ≢ slash) text (close_brace ∷ []) h (omega arith)),
  λ h. Lacks-append_left slash text _ h.1,
)
render_segment-Lacks wildcard_segment text = (
  λ h. (omega arith, All-append (λ d. d ≢ slash) text (dots ++ close_brace ∷ []) h (omega arith)),
  λ h. Lacks-append_left slash text _ h.1,
)

render-All-Lacks :
    (segments : List Segment)
    → All (λ s. Lacks slash s.text) segments ↔ All (Lacks slash) (map render_segment segments)
render-All-Lacks [] = (λ h. h, λ h. h)
render-All-Lacks (s ∷ segments) =
    let (to, from) = render_segment-Lacks s.kind s.text in
    let (tos, froms) = render-All-Lacks segments in
    (λ (h, hs). (to h, tos hs), λ (h, hs). (from h, froms hs))

empty_All : (names : List Text) → All (λ n. contains [] n ≡ false) names
unfolding contains
empty_All [] = tt
empty_All (n ∷ names) = (refl, empty_All names)

parse_rooted :
    (rest : Text)
    → parse_pattern (slash ∷ rest)
      ≡ map_err (fault_of (slash ∷ rest)) (parse_parts [] (split rest slash))
unfolding parse_pattern
parse_rooted rest = refl

parse_rooted_sound :
    (rest : Text) (segments : List Segment)
    → parse_parts [] (split rest slash) ≡ ok segments
    → IsPattern segments × (render_pattern segments ≡ slash ∷ rest)
unfolding render_pattern
parse_rooted_sound rest segments h =
    let (readable, fresh, spelled) = parse_parts_sound [] (split rest slash) segments h in
    (
      record {
        some_segment = λ e. split-ne-nil slash rest (sym spelled ∙ ap (map render_segment) e);
        readable = readable;
        slash_free =
            (render-All-Lacks segments).1
              (subst (All (Lacks slash)) (sym spelled) (split-Lacks slash rest));
        distinct = (Fresh-Distinct [] _ fresh).1;
      },
      ap (λ t. slash ∷ t) (ap (λ ps. join ps (slash ∷ [])) spelled ∙ join-split slash rest),
    )

parse_pattern_sound :
    (path : Text) (segments : List Segment)
    → parse_pattern path ≡ ok segments
    → IsPattern segments × (render_pattern segments ≡ path)
parse_pattern_sound [] segments h = unfold parse_pattern in cc
parse_pattern_sound (c ∷ rest) segments h = elim (Bool-cases (c == slash)) [
  | inr other ↦ unfold parse_pattern in absurd (ground arith)
  | inl rooted ↦
      let e : c ≡ slash = (==_iff c slash).0 rooted in
      let h' = subst (λ d. parse_pattern (d ∷ rest) ≡ ok segments) e h in
      let (p, w) =
        parse_rooted_sound rest segments
          (map_err-eq-ok _ _ segments (sym (parse_rooted rest) ∙ h')) in
      (p, w ∙ ap (λ d. d ∷ rest) (sym e))
]

parse_pattern_complete :
    (segments : List Segment)
    → IsPattern segments
    → parse_pattern (render_pattern segments) ≡ ok segments
unfolding render_pattern
parse_pattern_complete segments p =
    parse_rooted (join (map render_segment segments) (slash ∷ []))
    ∙ rw
        (
          split-join slash (map render_segment segments) (λ e. p.some_segment (map-nil segments e))
              ((render-All-Lacks segments).0 p.slash_free),
          parse_parts_complete [] segments p.readable
              (Distinct-Fresh [] _ (empty_All _) p.distinct),
        )
        refl
  where
    map-nil : (ss : List Segment) → map render_segment ss ≡ [] → ss ≡ []
    map-nil [] e = refl
    map-nil (s ∷ ss) e = cc

-- A path is read as a list of segments exactly if the list is a pattern and is written as that
-- path: reading keeps every part, and every pattern is read back from the way it is written.
pub parse_pattern_iff :
    (path : Text) (segments : List Segment)
    → (parse_pattern path ≡ ok segments) ↔ (IsPattern segments × (render_pattern segments ≡ path))
parse_pattern_iff path segments = (
  parse_pattern_sound path segments,
  λ (p, e). subst (λ t. parse_pattern t ≡ ok segments) e (parse_pattern_complete segments p),
)
