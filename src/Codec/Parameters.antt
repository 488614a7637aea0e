-- ===== src/Codec/Parameters.antt =====
-- web/codec_parameter.go: codecs of one parameter.
use effect_golang_web.Common.{
  Bool, true, false, Option, none, some, List, [], ◌∷◌, Text, is_blank, is_some, lookup, Result, ok,
  err, ◌>>=◌, map_err, if◌then◌else◌,
}
use effect_golang_web.Declarations.{Location, in_path, in_query, in_header, Parameter}
use effect_golang_web.Http.{Request, capture_of}
use effect_golang_web.Http.Headers.{canonical_key, get_header}
use effect_golang_web.Codec.{
  Schema, Codec, CodecFault, nameless_parameter, bad_parameter, absent_parameter,
  unreadable_parameter,
}

abbrev first_text : Option (List Text) → Option Text
first_text none = none
first_text (some []) = none
first_text (some (value ∷ _)) = some value

unfoldable pub query_value : {Strategy : Type 0} → Text → Request Strategy → Option Text
query_value name request = first_text (lookup name request.source.query)

unfoldable pub header_value : {Strategy : Type 0} → Text → Request Strategy → Option Text
header_value name request =
    if is_some (lookup (canonical_key name) request.source.header)
    then some (get_header request.source.header name)
    else none

module _ {Shape Strategy X : Type 0} where
  unfoldable pub parameter_fault :
      {A : Type 0} → Text → Schema Shape Strategy X A → Option (CodecFault X)
  unfolding is_blank
  parameter_fault name shape =
      if is_blank name
      then some nameless_parameter
      else (elim shape.mistake [ none ↦ none | some mistake ↦ some (bad_parameter name mistake) ])

  -- The decoder of a parameter that must be there; `read` finds its text.
  abbrev required_value :
      {A : Type 0}
      → Text
      → Location
      → Schema Shape Strategy X A
      → Option Text
      → Result (CodecFault X) A
  required_value name location shape none = err (absent_parameter location name)
  required_value name location shape (some text) =
      map_err (unreadable_parameter location name) (shape.decode_text text)

  abbrev optional_value :
      {A : Type 0}
      → Text
      → Location
      → Schema Shape Strategy X A
      → Option Text
      → Result (CodecFault X) (Option A)
  optional_value name location shape none = ok none
  optional_value name location shape (some text) =
      map_err (unreadable_parameter location name) (shape.decode_text text)
      >>= (λ value. ok (some value))

  abbrev parameter_of :
      {A : Type 0} → Text → Location → Bool → Schema Shape Strategy X A → Parameter Shape
  parameter_of name' location' required' shape' = record {
    name = name';
    location = location';
    description = [];
    required = required';
    shape = shape'.structure;
  }

  unfoldable pub required_parameter :
      {A : Type 0}
      → Text
      → Location
      → Schema Shape Strategy X A
      → (Request Strategy → Option Text)
      → Codec Shape Strategy X A
  unfolding parameter_fault
  required_parameter name location shape read = record {
    parameters = parameter_of name location true shape ∷ [];
    entity = none;
    decode = elim (parameter_fault name shape) [
      | some fault ↦ none
      | none ↦ some (λ request. required_value name location shape (read request))
    ];
    fault = parameter_fault name shape;
  }

  unfoldable pub optional_parameter :
      {A : Type 0}
      → Text
      → Location
      → Schema Shape Strategy X A
      → (Request Strategy → Option Text)
      → Codec Shape Strategy X (Option A)
  unfolding parameter_fault
  optional_parameter name location shape read = record {
    parameters = parameter_of name location false shape ∷ [];
    entity = none;
    decode = elim (parameter_fault name shape) [
      | some fault ↦ none
      | none ↦ some (λ request. optional_value name location shape (read request))
    ];
    fault = parameter_fault name shape;
  }

  unfoldable pub path_param :
      {A : Type 0} → Text → Schema Shape Strategy X A → Codec Shape Strategy X A
  unfolding required_parameter capture_of
  path_param name shape = required_parameter name in_path shape (λ request. capture_of request name)

  unfoldable pub query_param :
      {A : Type 0} → Text → Schema Shape Strategy X A → Codec Shape Strategy X A
  unfolding required_parameter query_value
  query_param name shape = required_parameter name in_query shape (query_value name)

  unfoldable pub optional_query_param :
      {A : Type 0} → Text → Schema Shape Strategy X A → Codec Shape Strategy X (Option A)
  unfolding optional_parameter query_value
  optional_query_param name shape = optional_parameter name in_query shape (query_value name)

  unfoldable pub header_param :
      {A : Type 0} → Text → Schema Shape Strategy X A → Codec Shape Strategy X A
  unfolding required_parameter header_value
  header_param name shape = required_parameter name in_header shape (header_value name)

  unfoldable pub optional_header_param :
      {A : Type 0} → Text → Schema Shape Strategy X A → Codec Shape Strategy X (Option A)
  unfolding optional_parameter header_value
  optional_header_param name shape = optional_parameter name in_header shape (header_value name)
