-- ===== src/Filling/Tests.antt =====
-- Paths of web/call.go filled in.
use effect_golang_web.Common.{
  ◌≡◌, refl, some, List, [], ◌∷◌, Text, codes, Map, lookup, ok, err, arith,
}
use effect_golang_web.Path.{Segment, parse_pattern, path_segments}
use effect_golang_web.Path.Tests.{books, book_id, rest_of_path}
use effect_golang_web.Path.Patterns.{IsPattern, parse_pattern_iff}
use effect_golang_web.Tree.Meaning.{match_segments}
use effect_golang_web.Filling.{nothing_given, fill_pattern}
use effect_golang_web.Filling.Matching.{Fit, filled_bindings, fill_pattern_lem}

abbrev shelf : List Segment
shelf = books ∷ book_id ∷ rest_of_path ∷ []

abbrev values_given : Map Text
values_given = (codes "rest", codes "a/b") ∷ (codes "id", codes "7") ∷ []

fills : fill_pattern shelf values_given ≡ ok (codes "/books/7/a/b")
unfolding fill_pattern
fills = refl

needs_all : fill_pattern shelf [] ≡ err (nothing_given (codes "id"))
unfolding fill_pattern
needs_all = refl

shelf_read : parse_pattern (codes "/books/{id}/{rest...}") ≡ ok shelf
unfolding parse_pattern
shelf_read = refl

shelf-IsPattern : IsPattern shelf
shelf-IsPattern = ((parse_pattern_iff (codes "/books/{id}/{rest...}") shelf).0 shelf_read).0

shelf-Fit : Fit shelf values_given
unfolding lookup
shelf-Fit = (tt, (((λ e. omega (arith, e)), tt), (tt, tt)))

fill_pattern_lem_example :
    match_segments shelf (path_segments (codes "/books/7/a/b"))
    ≡ some (filled_bindings shelf values_given)
fill_pattern_lem_example =
    fill_pattern_lem shelf values_given (codes "/books/7/a/b") shelf-IsPattern shelf-Fit fills
