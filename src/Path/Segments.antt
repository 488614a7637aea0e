-- ===== src/Path/Segments.antt =====
-- web/path.go: one segment, `parseSegment` against the way it is written.
use effect_golang_web.Common.{
  ℕ, suc, ◌-◌, ◌≡◌, refl, sym, ap, subst, ◌∙◌, ◌↔◌, inl, inr, Bool, true, false, Option, none, some,
  [], ◌∷◌, ◌++◌, append_assoc, arith, Text, has_prefix, has_suffix, cut_suffix, cut_suffix_iff,
  cut_suffix_complete, has_code, is_blank, length, length-append, take-append, ok, Lacks,
  Option-cases, Bool-cases,
}
use effect_golang_web.Path.{
  SegmentKind, literal_segment, capture_segment, wildcard_segment, Segment, new_capture,
  literal_part, inner_name, capture_part, parse_segment, render_segment, open_brace, close_brace,
  dots,
}

-- What a segment must be to be read from a pattern; `last` says whether it stands at the end.
abbrev pub IsReadable : SegmentKind → Text → Bool → Type 0
IsReadable literal_segment text last = Lacks open_brace text × Lacks close_brace text
IsReadable capture_segment text last = (is_blank text ≡ false) × (cut_suffix text dots ≡ none)
IsReadable wildcard_segment text last = (is_blank text ≡ false) × (last ≡ true)

abbrev pub IsRead : Text → Bool → Segment → Type 0
IsRead part last s = IsReadable s.kind s.text last × (render_segment s ≡ part)

has_code-Lacks : (c : ℕ) (s : Text) → has_code c s ≡ false → Lacks c s
has_code-Lacks c [] h = tt
has_code-Lacks c (d ∷ s) h = (ground arith, has_code-Lacks c s (ground arith))

Lacks-has_code : (c : ℕ) (s : Text) → Lacks c s → has_code c s ≡ false
Lacks-has_code c [] h = refl
Lacks-has_code c (d ∷ s) (n, h) = ground (arith, Lacks-has_code c s h)

inner_name_lem : (name : Text) → inner_name (open_brace ∷ (name ++ close_brace ∷ [])) ≡ name
inner_name_lem name =
    let e : suc (length (name ++ close_brace ∷ [])) - 1 - 1 ≡ length name =
      omega (arith, length-append name (close_brace ∷ [])) in
    rw e (take-append name (close_brace ∷ []))

-- A part between braces, whole.
braced :
    (part : Text)
    → has_prefix part (open_brace ∷ []) ≡ true
    → has_suffix part (close_brace ∷ []) ≡ true
    → (name : Text) × (part ≡ open_brace ∷ (name ++ close_brace ∷ []))
braced [] p s = cc
braced (c ∷ r) p s = elim (Option-cases (cut_suffix (c ∷ r) (close_brace ∷ []))) [
  | inl e ↦ cc
  | inr (before, e) ↦ go before ((cut_suffix_iff _ _ _).0 e)
]
  where
    go :
        (before : Text)
        → c ∷ r ≡ before ++ close_brace ∷ []
        → (name : Text) × (c ∷ r ≡ open_brace ∷ (name ++ close_brace ∷ []))
    go [] e = ground arith
    go (d ∷ before) e = (before, ground arith)

new_capture_sound :
    (kind : SegmentKind) (name : Text) (s : Segment)
    → new_capture kind name ≡ ok s
    → (is_blank name ≡ false) × (s ≡ record { kind = kind; text = name })
unfolding new_capture
new_capture_sound kind name s h = ground arith

capture_part_sound :
    (name : Text) (last : Bool) (o : Option Text) (s : Segment)
    → cut_suffix name dots ≡ o
    → capture_part (open_brace ∷ (name ++ close_brace ∷ [])) last o ≡ ok s
    → IsRead (open_brace ∷ (name ++ close_brace ∷ [])) last s
unfolding capture_part render_segment
capture_part_sound name last none s e h =
    let (b, es) = new_capture_sound capture_segment name s (rw (inner_name_lem name) at h) in
    rw es ((b, e), refl)
capture_part_sound name false (some rest) s e h = cc
capture_part_sound name true (some rest) s e h =
    let (b, es) = new_capture_sound wildcard_segment rest s h in
    let spelled : name ≡ rest ++ dots = (cut_suffix_iff name dots rest).0 e in
    rw (es, spelled)
      ((b, refl), ap (λ t. open_brace ∷ t) (sym (append_assoc rest dots (close_brace ∷ []))))

literal_part_sound :
    (part : Text) (last : Bool) (s : Segment) → literal_part part ≡ ok s → IsRead part last s
unfolding literal_part render_segment
literal_part_sound part last s h =
    let no_open : has_code open_brace part ≡ false = ground arith in
    let no_close : has_code close_brace part ≡ false = ground arith in
    let es : s ≡ record { kind = literal_segment; text = part } = ground arith in
    rw es ((has_code-Lacks _ part no_open, has_code-Lacks _ part no_close), refl)

-- A part between braces is a capture, whatever stands inside.
parse_braced :
    (name : Text) (last : Bool)
    → parse_segment (open_brace ∷ (name ++ close_brace ∷ [])) last
      ≡ capture_part (open_brace ∷ (name ++ close_brace ∷ [])) last (cut_suffix name dots)
unfolding parse_segment
parse_braced name last =
    rw (cut_suffix_complete (open_brace ∷ name) (close_brace ∷ []), inner_name_lem name) refl

parse_segment_sound :
    (part : Text) (last : Bool) (s : Segment) → parse_segment part last ≡ ok s → IsRead part last s
parse_segment_sound part last s h = elim (Bool-cases (has_prefix part (open_brace ∷ []))) [
  | inr plain ↦ literal_part_sound part last s (unfold parse_segment in rw plain at h)
  | inl opened ↦ elim (Bool-cases (has_suffix part (close_brace ∷ []))) [
    | inr open_ended ↦ unfold parse_segment in absurd (ground arith)
    | inl closed ↦
        let (name, e) = braced part opened closed in
        rw e (
          capture_part_sound name last _ s refl
            (sym (parse_braced name last) ∙ subst (λ t. parse_segment t last ≡ ok s) e h))
  ]
]

has_prefix-Lacks : (c : ℕ) (s : Text) → Lacks c s → has_prefix s (c ∷ []) ≡ false
has_prefix-Lacks c [] h = refl
has_prefix-Lacks c (d ∷ s) (n, h) = ground arith

parse_segment_complete :
    (kind : SegmentKind) (text : Text) (last : Bool)
    → IsReadable kind text last
    → parse_segment (render_segment (record { kind = kind; text = text })) last
      ≡ ok (record { kind = kind; text = text })
unfolding parse_segment render_segment
parse_segment_complete literal_segment text last (o, c) =
    rw
      (
        has_prefix-Lacks open_brace text o,
        literal_part,
        Lacks-has_code _ text o,
        Lacks-has_code _ text c,
      )
      refl
parse_segment_complete capture_segment text last (b, n) =
    parse_braced text last ∙ rw (n, inner_name_lem text, new_capture, b) refl
parse_segment_complete wildcard_segment text last (b, n) =
    rw (← append_assoc text dots (close_brace ∷ [])) (
      parse_braced (text ++ dots) last ∙ rw (cut_suffix_complete text dots, n, new_capture, b) refl)

-- A segment is read exactly from the text that it is written as, if it is readable there.
pub parse_segment_iff :
    (part : Text) (last : Bool) (s : Segment)
    → (parse_segment part last ≡ ok s) ↔ IsRead part last s
parse_segment_iff part last s = (
  parse_segment_sound part last s,
  λ (r, e). rw (← e) (parse_segment_complete s.kind s.text last r),
)
