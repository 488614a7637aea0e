-- ===== src/Endpoint.antt =====
-- web/endpoint.go and web/endpoint_validation.go: what a route accepts and returns, and the checks
-- that are made where it is declared.
pub mod Captures
pub mod Soundness
pub mod Tests
use effect_golang_web.Common.{
  ℕ, Bool, true, false, ◌||◌, ◌&&◌, not, Option, none, some, List, [], ◌∷◌, ◌++◌, Text, Bytes,
  codes, text_eq, ltb, is_some, Result, ok, err, map_err, ◌>>=◌, if◌then◌else◌,
}
use effect_golang_web.Path.{
  SegmentKind, literal_segment, Segment, PathFault, is_empty, is_literal, contains, parse_pattern,
  render_pattern,
}
use effect_golang_web.Declarations.{
  Location, in_path, in_query, in_header, Parameter, Content, FailureResponse, Alternative,
  Declaration,
}
use effect_golang_web.Http.{Response, empty_response, bytes_response}
use effect_golang_web.Codec.{Schema, Codec, CodecFault, or_first, validate_codec}

pub data EndpointFault (X : Type 0) : Type 0 where
  zero_endpoint nameless_method no_output unstatused_output : EndpointFault X
  unreadable_path : PathFault → EndpointFault X
  unusable_codec : CodecFault X → EndpointFault X
  bad_response : X → EndpointFault X
  uncaptured_parameter : Text → EndpointFault X

-- The fields are those of `Output`; `encode` and `decode` are nil where the output has a fault.
pub record Output (Shape Strategy X W A : Type 0) : Type 0 where
  pub status : ℕ
  pub content : Option (Content Shape)
  pub encode : Option (A → Option Strategy → Result X (Response W))
  pub decode : Option (Bytes → Option Strategy → Result X A)
  pub fault : Option (EndpointFault X)

pub record Endpoint (Shape Strategy X W In Out : Type 0) : Type 0 where
  pub method : Text
  pub segments : List Segment
  pub input : Codec Shape Strategy X In
  pub output : Output Shape Strategy X W Out
  pub summary : Text
  pub doc : Text
  pub failures : List FailureResponse
  pub alternatives : List Alternative
  pub fault : Option (EndpointFault X)

module _ {Shape Strategy X W A : Type 0} (itoa : ℕ → Text) where
  -- `JSON` of web/response.go
  abbrev pub json_response :
      ℕ → Schema Shape Strategy X A → A → Option Strategy → Result X (Response W)
  json_response status shape value strategy =
      shape.encode_json strategy value
      >>= (λ body. ok (bytes_response itoa status (codes "application/json") body))

  unfoldable pub returns : ℕ → Schema Shape Strategy X A → Output Shape Strategy X W A
  unfolding bytes_response
  returns status' shape' = elim shape'.mistake [
    | some mistake ↦ record {
      status = status';
      content =
          some (record { media_type = codes "application/json"; shape = some shape'.structure });
      encode = none;
      decode = none;
      fault = some (bad_response mistake);
    }
    | none ↦ record {
      status = status';
      content =
          some (record { media_type = codes "application/json"; shape = some shape'.structure });
      encode = some (json_response status' shape');
      decode = some (λ entity strategy. shape'.decode_json strategy entity);
      fault = none;
    }
  ]

module _ {Shape Strategy X W : Type 0} where
  unfoldable pub returns_raw : (ℕ → Text) → ℕ → Text → Output Shape Strategy X W Bytes
  unfolding bytes_response
  returns_raw itoa status' media_type' = record {
    status = status';
    content = some (record { media_type = media_type'; shape = none });
    encode = some (λ entity strategy. ok (bytes_response itoa status' media_type' entity));
    decode = some (λ entity strategy. ok entity);
    fault = none;
  }

  unfoldable pub returns_nothing : ℕ → Output Shape Strategy X W Unit
  unfolding empty_response
  returns_nothing status' = record {
    status = status';
    content = none;
    encode = some (λ value strategy. ok (empty_response status'));
    decode = some (λ entity strategy. ok tt);
    fault = none;
  }

-- The names that are set in the map of `validateCaptures`.
unfoldable pub captured_names : List Segment → List Text
captured_names [] = []
captured_names (part ∷ segments) =
    let rest = captured_names segments in if is_literal part.kind then rest else part.text ∷ rest

abbrev pub is_in_path : Location → Bool
is_in_path in_path = true
is_in_path _ = false

-- The second loop of `validateCaptures`, over the names that the first has set.
unfoldable pub uncaptured :
    {Shape X : Type 0} → List Text → List (Parameter Shape) → Option (EndpointFault X)
unfolding contains
uncaptured captured [] = none
uncaptured captured (parameter ∷ parameters) =
    let rest = uncaptured captured parameters in
    if is_in_path parameter.location && not (contains captured parameter.name)
    then some (uncaptured_parameter parameter.name)
    else rest

unfoldable pub validate_captures :
    {Shape X : Type 0} → List Segment → List (Parameter Shape) → Option (EndpointFault X)
unfolding uncaptured captured_names
validate_captures segments parameters = uncaptured (captured_names segments) parameters

abbrev pub unusable : {X : Type 0} → Option (CodecFault X) → Option (EndpointFault X)
unusable none = none
unusable (some fault) = some (unusable_codec fault)

-- `segments, err := parsePattern(path)`
abbrev pub segments_of : Result PathFault (List Segment) → List Segment
segments_of (ok segments) = segments
segments_of (err fault) = []

abbrev pub path_mistake : {X : Type 0} → Result PathFault (List Segment) → Option (EndpointFault X)
path_mistake (ok segments) = none
path_mistake (err fault) = some (unreadable_path fault)

module _ {Shape Strategy X W In Out : Type 0} where
  unfoldable pub first_endpoint_fault :
      Text
      → Result PathFault (List Segment)
      → Codec Shape Strategy X In
      → Output Shape Strategy X W Out
      → Option (EndpointFault X)
  unfolding validate_codec validate_captures
  first_endpoint_fault method path input output =
      if is_empty method
      then some nameless_method
      else or_first (path_mistake path) (
          or_first (unusable (validate_codec input)) (
            or_first output.fault (
              if not (is_some output.encode)
              then some no_output
              else if ltb output.status 100 || ltb 599 output.status
              then some unstatused_output
              else validate_captures (segments_of path) input.parameters)))

  unfoldable pub declare :
      Text
      → Text
      → Codec Shape Strategy X In
      → Output Shape Strategy X W Out
      → Endpoint Shape Strategy X W In Out
  unfolding first_endpoint_fault parse_pattern
  declare method' path input' output' = record {
    method = method';
    segments = segments_of (parse_pattern path);
    input = input';
    output = output';
    summary = [];
    doc = [];
    failures = [];
    alternatives = [];
    fault = first_endpoint_fault method' (parse_pattern path) input' output';
  }

  unfoldable pub validate_endpoint : Endpoint Shape Strategy X W In Out → Option (EndpointFault X)
  validate_endpoint endpoint = or_first endpoint.fault (
      if is_empty endpoint.method || not (is_some endpoint.output.encode)
      then some zero_endpoint
      else none)

  unfoldable pub with_summary :
      Endpoint Shape Strategy X W In Out → Text → Endpoint Shape Strategy X W In Out
  with_summary endpoint summary' = record endpoint { summary = summary' }

  unfoldable pub with_doc :
      Endpoint Shape Strategy X W In Out → Text → Endpoint Shape Strategy X W In Out
  with_doc endpoint doc' = record endpoint { doc = doc' }

  unfoldable pub with_failure :
      Endpoint Shape Strategy X W In Out → ℕ → Text → Endpoint Shape Strategy X W In Out
  with_failure endpoint status' doc' = record endpoint {
    failures = endpoint.failures ++ record { status = status'; description = doc' } ∷ [];
  }

  unfoldable pub with_alternative :
      Endpoint Shape Strategy X W In Out → ℕ → Text → Endpoint Shape Strategy X W In Out
  with_alternative endpoint status' doc' = record endpoint {
    alternatives = endpoint.alternatives ++ record { status = status'; description = doc' } ∷ [];
  }

  unfoldable pub declaration : Endpoint Shape Strategy X W In Out → Declaration Shape
  unfolding render_pattern
  declaration endpoint = record {
    method = endpoint.method;
    path = render_pattern endpoint.segments;
    summary = endpoint.summary;
    description = endpoint.doc;
    parameters = endpoint.input.parameters;
    entity = endpoint.input.entity;
    status = endpoint.output.status;
    content = endpoint.output.content;
    failures = endpoint.failures;
    alternatives = endpoint.alternatives;
  }
