-- ===== src/Path/Tests.antt =====
-- Paths of web/path.go read and written.
use effect_golang_web.Common.{◌≡◌, refl, ◌↔◌, false, List, [], ◌∷◌, codes, ok, err}
use effect_golang_web.Path.{
  Segment, literal_segment, capture_segment, wildcard_segment, captured_twice, early_wildcard,
  partial_capture, unclosed_capture, nameless_capture, unrooted_path, fault_of, parse_pattern,
  parse_segment, render_pattern,
}
use effect_golang_web.Path.Patterns.{IsPattern, parse_pattern_iff}

abbrev pub books : Segment
books = record { kind = literal_segment; text = codes "books" }

abbrev pub book_id : Segment
book_id = record { kind = capture_segment; text = codes "id" }

abbrev pub rest_of_path : Segment
rest_of_path = record { kind = wildcard_segment; text = codes "rest" }

abbrev shelf : List Segment
shelf = books ∷ book_id ∷ rest_of_path ∷ []

reads_all_kinds : parse_pattern (codes "/books/{id}/{rest...}") ≡ ok shelf
unfolding parse_pattern
reads_all_kinds = refl

writes_all_kinds : render_pattern shelf ≡ codes "/books/{id}/{rest...}"
unfolding render_pattern
writes_all_kinds = refl

refuses_no_slash : parse_pattern (codes "books") ≡ err (fault_of (codes "books") unrooted_path)
unfolding parse_pattern
refuses_no_slash = refl

refuses_second_capture :
    parse_pattern (codes "/{id}/{id}")
    ≡ err (fault_of (codes "/{id}/{id}") (captured_twice (codes "id")))
unfolding parse_pattern
refuses_second_capture = refl

refuses_early_wildcard :
    parse_pattern (codes "/{a...}/b")
    ≡ err (fault_of (codes "/{a...}/b") (early_wildcard (codes "{a...}")))
unfolding parse_pattern
refuses_early_wildcard = refl

refuses_inner_brace :
    parse_pattern (codes "/a{b}") ≡ err (fault_of (codes "/a{b}") (partial_capture (codes "a{b}")))
unfolding parse_pattern
refuses_inner_brace = refl

refuses_lone_brace : parse_segment (codes "{") false ≡ err (unclosed_capture (codes "{"))
unfolding parse_segment
refuses_lone_brace = refl

refuses_blank_name : parse_segment (codes "{ }") false ≡ err nameless_capture
unfolding parse_segment
refuses_blank_name = refl

-- Two braced names in one part are read as one capture.
reads_braces_in_name :
    parse_segment (codes "{a}-{b}") false
    ≡ ok (record { kind = capture_segment; text = codes "a}-{b" })
unfolding parse_segment
reads_braces_in_name = refl

parse_pattern_iff_example :
    (parse_pattern (codes "/books/{id}/{rest...}") ≡ ok shelf)
    ↔ (IsPattern shelf × (render_pattern shelf ≡ codes "/books/{id}/{rest...}"))
parse_pattern_iff_example = parse_pattern_iff (codes "/books/{id}/{rest...}") shelf
