-- ===== src/Path.antt =====
-- web/path.go: path patterns over segments, read from a declaration and written back out.
pub mod Segments
pub mod Patterns
pub mod Tests
use effect_golang_web.Common.{
  ℕ, ◌-◌, ◌≡◌, Bool, true, false, ◌||◌, not, Option, none, some, List, [], ◌∷◌, ◌++◌, map, Text,
  codes, text_eq, has_prefix, has_suffix, cut_suffix, has_code, slice, split, join, is_blank,
  length, if◌then◌else◌, Result, ok, err, ◌>>=◌, map_err,
}

pub data SegmentKind : Type 0 where
  literal_segment capture_segment wildcard_segment : SegmentKind

-- `text` is the literal for a literal segment and the capture name for the other two.
pub record Segment : Type 0 where
  pub kind : SegmentKind
  pub text : Text

-- The reasons, with the text that the message quotes.
pub data PathMistake : Type 0 where
  unrooted_path nameless_capture : PathMistake
  captured_twice partial_capture unclosed_capture early_wildcard : Text → PathMistake

-- `Fault{Op: "read the path " + path, Err: …}`
pub record PathFault : Type 0 where
  pub path : Text
  pub cause : PathMistake

abbrev pub slash : ℕ
slash = b'/'

abbrev pub open_brace : ℕ
open_brace = b'{'

abbrev pub close_brace : ℕ
close_brace = b'}'

-- What marks a wildcard inside the braces.
abbrev pub dots : Text
dots = codes "..."

unfoldable pub new_capture : SegmentKind → Text → Result PathMistake Segment
unfolding is_blank
new_capture kind name =
    if is_blank name then err nameless_capture else ok (record { kind = kind; text = name })

-- `errors.New("a capture takes the whole segment")` stands for a brace inside a literal.
literal_part : Text → Result PathMistake Segment
literal_part part =
    if has_code open_brace part || has_code close_brace part
    then err (partial_capture part)
    else ok (record { kind = literal_segment; text = part })

abbrev inner_name : Text → Text
inner_name part = slice part 1 (length part - 1)

capture_part : Text → Bool → Option Text → Result PathMistake Segment
capture_part part last (some rest) =
    if not last then err (early_wildcard part) else new_capture wildcard_segment rest
capture_part part last none = new_capture capture_segment (inner_name part)

unfoldable pub parse_segment : Text → Bool → Result PathMistake Segment
unfolding literal_part capture_part cut_suffix new_capture
parse_segment part last =
    if not (has_prefix part (open_brace ∷ []))
    then literal_part part
    else if not (has_suffix part (close_brace ∷ []))
    then err (unclosed_capture part)
    else capture_part part last (cut_suffix (inner_name part) dots)

unfoldable pub contains : List Text → Text → Bool
contains [] name = false
contains (n ∷ names) name = text_eq n name || contains names name

abbrev pub is_literal : SegmentKind → Bool
is_literal literal_segment = true
is_literal _ = false

-- The body of the loop behind `parseSegment`: a name captured twice is refused.
note_capture : List Text → Segment → Result PathMistake (List Text)
unfolding contains
note_capture captured element =
    if is_literal element.kind
    then ok captured
    else if contains captured element.text
    then err (captured_twice element.text)
    else ok (element.text ∷ captured)

abbrev pub is_empty {ℓ} : {A : Type ℓ} → List A → Bool
is_empty [] = true
is_empty (_ ∷ _) = false

-- The loop of `parsePattern`; `captured` is the map of the names seen so far.
parse_parts : List Text → List Text → Result PathMistake (List Segment)
unfolding note_capture
parse_parts captured [] = ok []
parse_parts captured (part ∷ parts) = do
  element ← parse_segment part (is_empty parts)
  captured' ← note_capture captured element
  segments ← parse_parts captured' parts
  ok (element ∷ segments)

-- `strings.TrimPrefix(path, "/")`
unfoldable pub trim_slash : Text → Text
trim_slash [] = []
trim_slash (c ∷ path) = if has_prefix (c ∷ path) (slash ∷ []) then path else c ∷ path

unfoldable pub path_segments : Text → List Text
unfolding split trim_slash
path_segments path = split (trim_slash path) slash

abbrev pub fault_of : Text → PathMistake → PathFault
fault_of path cause = record { path = path; cause = cause }

unfoldable pub parse_pattern : Text → Result PathFault (List Segment)
unfolding parse_parts parse_segment path_segments
parse_pattern path =
    if not (has_prefix path (slash ∷ []))
    then err (fault_of path unrooted_path)
    else map_err (fault_of path) (parse_parts [] (path_segments path))

unfoldable pub render_segment : Segment → Text
render_segment part = elim part.kind [
  | literal_segment ↦ part.text
  | capture_segment ↦ open_brace ∷ (part.text ++ close_brace ∷ [])
  | wildcard_segment ↦ open_brace ∷ (part.text ++ (dots ++ close_brace ∷ []))
]

unfoldable pub render_pattern : List Segment → Text
unfolding render_segment join
render_pattern segments = slash ∷ join (map render_segment segments) (slash ∷ [])
