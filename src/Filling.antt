-- ===== src/Filling.antt =====
-- web/call.go: `fillPattern`, the path that a client asks for.
pub mod Matching
pub mod Tests
use effect_golang_web.Common.{
  Option, none, some, List, [], ◌∷◌, Text, Map, lookup, join, Result, ok, err, ◌>>=◌, if◌then◌else◌,
}
use effect_golang_web.Path.{
  SegmentKind, literal_segment, capture_segment, wildcard_segment, Segment, slash, is_empty,
}

pub data FillMistake : Type 0 where
  unpatterned_endpoint : FillMistake
  nothing_given : Text → FillMistake

abbrev pub given_value : Text → Option Text → Result FillMistake Text
given_value name none = err (nothing_given name)
given_value name (some value) = ok value

-- One round of the loop.
unfoldable pub fill_part : SegmentKind → Text → Map Text → Result FillMistake Text
unfolding lookup
fill_part literal_segment text captures = ok text
fill_part capture_segment text captures = given_value text (lookup text captures)
fill_part wildcard_segment text captures = given_value text (lookup text captures)

unfoldable pub fill_parts : List Segment → Map Text → Result FillMistake (List Text)
unfolding fill_part
fill_parts [] captures = ok []
fill_parts (part ∷ segments) captures = do
  value ← fill_part part.kind part.text captures
  parts ← fill_parts segments captures
  ok (value ∷ parts)

unfoldable pub fill_pattern : List Segment → Map Text → Result FillMistake Text
unfolding fill_parts join
fill_pattern segments captures =
    if is_empty segments
    then err unpatterned_endpoint
    else fill_parts segments captures >>= (λ parts. ok (slash ∷ join parts (slash ∷ [])))
