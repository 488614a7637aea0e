-- ===== src/Endpoint/Tests.antt =====
-- Endpoints of web/endpoint.go declared and checked.
use effect_golang_web.Common.{
  ℕ, ◌≡◌, refl, ◌↔◌, inl, Bool, true, none, some, List, [], ◌∷◌, Text, codes, is_some, Member,
}
use effect_golang_web.Path.{Segment, parse_pattern}
use effect_golang_web.Path.Tests.{books, book_id}
use effect_golang_web.Declarations.{in_path, Parameter}
use effect_golang_web.Http.{Request, capture_of, with_captures}
use effect_golang_web.Tree.{Binding, capture_values}
use effect_golang_web.Tree.Meaning.{match_segments}
use effect_golang_web.Codec.Parameters.{path_param, required_parameter}
use effect_golang_web.Codec.Tests.{id_codec}
use effect_golang_web.Endpoint.{
  Output, uncaptured_parameter, unstatused_output, returns_nothing, declare, validate_endpoint,
  validate_captures, first_endpoint_fault,
}
use effect_golang_web.Endpoint.Captures.{validate_captures_lem}
use effect_golang_web.Endpoint.Soundness.{IsUsable, declare_ok_iff, declared_parameters_lem}

abbrev get : Text
get = codes "GET"

unfoldable done : Output ℕ Bool Text ℕ Unit
done = returns_nothing 204

is_usable : validate_endpoint (declare get (codes "/books/{id}") id_codec done) ≡ none
unfolding validate_endpoint declare first_endpoint_fault id_codec path_param done returns_nothing
    parse_pattern
is_usable = refl

mistyped_name :
    validate_endpoint (declare get (codes "/books/{ident}") id_codec done)
    ≡ some (uncaptured_parameter (codes "id"))
unfolding validate_endpoint declare first_endpoint_fault id_codec path_param done returns_nothing
mistyped_name = refl

odd_status :
    validate_endpoint
      (declare {Out = Unit} get (codes "/books/{id}") id_codec (returns_nothing {W = ℕ} 600))
    ≡ some unstatused_output
unfolding validate_endpoint declare first_endpoint_fault id_codec path_param returns_nothing
odd_status = refl

abbrev asked : Request Bool
asked = record {
  source = record { method = get; path = codes "/books/7"; query = []; header = [] };
  captures = [];
  strategy = none;
}

abbrev id_parameter : Parameter ℕ
id_parameter = record {
  name = codes "id";
  location = in_path;
  description = [];
  required = true;
  shape = 1;
}

abbrev seven : List Binding
seven = record { name = codes "id"; value = codes "7" } ∷ []

captured : validate_captures {X = Text} (books ∷ book_id ∷ []) (id_parameter ∷ []) ≡ none
unfolding validate_captures
captured = refl

matched : match_segments (books ∷ book_id ∷ []) (codes "books" ∷ codes "7" ∷ []) ≡ some seven
unfolding match_segments
matched = refl

validate_captures_lem_example :
    is_some (capture_of (with_captures asked (capture_values seven)) (codes "id")) ≡ true
validate_captures_lem_example =
    validate_captures_lem {X = Text} (books ∷ book_id ∷ []) (id_parameter ∷ [])
      (codes "books" ∷ codes "7" ∷ []) seven asked captured matched id_parameter (inl refl) refl

declare_ok_iff_example :
    (validate_endpoint (declare get (codes "/books/{id}") id_codec done) ≡ none)
    ↔ ((segments : List Segment) × IsUsable get (codes "/books/{id}") id_codec done segments)
declare_ok_iff_example = declare_ok_iff get (codes "/books/{id}") id_codec done

declared_matched :
    match_segments
      (declare get (codes "/books/{id}") id_codec done).segments
      (codes "books" ∷ codes "7" ∷ [])
    ≡ some seven
unfolding declare match_segments
declared_matched = refl

id_is_read : Member id_parameter id_codec.parameters
unfolding id_codec path_param required_parameter
id_is_read = inl refl

declared_parameters_lem_example :
    is_some (capture_of (with_captures asked (capture_values seven)) (codes "id")) ≡ true
declared_parameters_lem_example =
    declared_parameters_lem get (codes "/books/{id}") id_codec done (codes "books" ∷ codes "7" ∷ [])
      seven asked is_usable declared_matched id_parameter id_is_read refl
