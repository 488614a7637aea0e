-- ===== src/Codec.antt =====
-- web/codec.go, with `WithDescription` and `OrElse` of web/codec_parameter.go: what a route reads of
-- a request.
pub mod Parameters
pub mod Zipping
pub mod Struct
pub mod Tests
use effect_golang_web.Common.{
  ◌≡◌, Bool, true, false, ◌&&◌, Option, none, some, List, [], ◌∷◌, ◌++◌, Text, Bytes, codes,
  text_eq, is_blank, is_some, lookup, Result, ok, err, ◌>>=◌, map_err, if◌then◌else◌,
}
use effect_golang_web.Path.{contains}
use effect_golang_web.Declarations.{Location, in_path, in_query, in_header, Parameter, Content}
use effect_golang_web.Http.{Request, capture_of}
use effect_golang_web.Http.Headers.{canonical_key, get_header}

-- The reasons, with what their messages quote. An `X` is an error of the schema library, or one
-- that a caller's function returned. `nil_decoder` is the panic of a call of nil.
pub data CodecFault (X : Type 0) : Type 0 where
  zero_codec two_entities nameless_parameter not_one_parameter no_entity nil_decoder : CodecFault X
  read_twice absent_parameter : Location → Text → CodecFault X
  unreadable_parameter : Location → Text → X → CodecFault X
  bad_parameter : Text → X → CodecFault X
  bad_body unreadable_body unconverted : X → CodecFault X

-- What this package uses of a schema: its structure, what is wrong with it, decoding from the text of
-- a parameter and from a body of JSON, and encoding into one.
pub record Schema (Shape Strategy X A : Type 0) : Type 0 where
  pub structure : Shape
  pub mistake : Option X
  pub decode_text : Text → Result X A
  pub decode_json : Option Strategy → Bytes → Result X A
  pub encode_json : Option Strategy → A → Result X Bytes

pub record Codec (Shape Strategy X A : Type 0) : Type 0 where
  pub parameters : List (Parameter Shape)
  pub entity : Option (Content Shape)
  pub decode : Option (Request Strategy → Result (CodecFault X) A)
  pub fault : Option (CodecFault X)

abbrev pub location_text : Location → Text
location_text in_path = codes "path"
location_text in_query = codes "query"
location_text in_header = codes "header"

-- The first of two that is not nil: `cmp.Or`, and the guards that return the first fault.
abbrev pub or_first : {A : Type 0} → Option A → Option A → Option A
or_first none next = next
or_first (some a) next = some a

abbrev pub first_entity :
    {Shape : Type 0} → Option (Content Shape) → Option (Content Shape) → Option (Content Shape)
first_entity = or_first

module _ {Shape : Type 0} where
  unfoldable pub parameter_key : Parameter Shape → Text
  parameter_key parameter = location_text parameter.location ++ codes " " ++ parameter.name

  -- The loop of `duplicateParameterFault`; `seen` is the map of the keys.
  unfoldable pub duplicate_from :
      {X : Type 0} → List Text → List (Parameter Shape) → Option (CodecFault X)
  unfolding contains parameter_key
  duplicate_from seen [] = none
  duplicate_from seen (parameter ∷ parameters) =
      let rest = duplicate_from (parameter_key parameter ∷ seen) parameters in
      if contains seen (parameter_key parameter)
      then some (read_twice parameter.location parameter.name)
      else rest

  unfoldable pub duplicate_parameter_fault :
      {X : Type 0} → List (Parameter Shape) → Option (CodecFault X)
  unfolding duplicate_from
  duplicate_parameter_fault parameters = duplicate_from [] parameters

-- A call of a codec's `decode` field.
abbrev pub call :
    {A X Strategy : Type 0}
    → Option (Request Strategy → Result (CodecFault X) A)
    → Request Strategy
    → Result (CodecFault X) A
call none request = err nil_decoder
call (some decode) request = decode request

-- `if err := …; err != nil { return zero, err }`
abbrev pub unless_fault :
    {A X : Type 0} → Option (CodecFault X) → Result (CodecFault X) A → Result (CodecFault X) A
unless_fault (some fault) result = err fault
unless_fault none result = result

abbrev described :
    {Shape : Type 0} → Text → List (Parameter Shape) → Option (List (Parameter Shape))
described doc [] = none
described doc (parameter ∷ []) = some (record parameter { description = doc } ∷ [])
described doc (_ ∷ _ ∷ _) = none

module _ {Shape Strategy X : Type 0} where
  unfoldable pub validate_codec : {A : Type 0} → Codec Shape Strategy X A → Option (CodecFault X)
  validate_codec codec = elim codec.fault [
    | some fault ↦ some fault
    | none ↦ elim codec.decode [ none ↦ some zero_codec | some decode ↦ none ]
  ]

  unfoldable pub decode_with :
      {A : Type 0} → Codec Shape Strategy X A → Request Strategy → Result (CodecFault X) A
  unfolding validate_codec
  decode_with codec request = unless_fault (validate_codec codec) (call codec.decode request)

  unfoldable pub nothing : Codec Shape Strategy X Unit
  nothing = record {
    parameters = [];
    entity = none;
    decode = some (λ request. ok tt);
    fault = none;
  }

  unfoldable pub first_codec_fault :
      {A B : Type 0} → Codec Shape Strategy X A → Codec Shape Strategy X B → Option (CodecFault X)
  unfolding validate_codec duplicate_parameter_fault
  first_codec_fault first second = or_first (validate_codec first) (
      or_first (validate_codec second) (
        if is_some first.entity && is_some second.entity
        then some two_entities
        else duplicate_parameter_fault (first.parameters ++ second.parameters)))

  abbrev decode_both :
      {A B : Type 0}
      → Codec Shape Strategy X A
      → Codec Shape Strategy X B
      → Request Strategy
      → Result (CodecFault X) (A × B)
  decode_both first second request = do
    value ← call first.decode request
    also ← call second.decode request
    ok (value, also)

  unfoldable pub zip :
      {A B : Type 0}
      → Codec Shape Strategy X A
      → Codec Shape Strategy X B
      → Codec Shape Strategy X (A × B)
  unfolding first_codec_fault
  zip first second = record {
    parameters = first.parameters ++ second.parameters;
    entity = first_entity first.entity second.entity;
    decode = elim (first_codec_fault first second) [
      | some fault ↦ none
      | none ↦ some (decode_both first second)
    ];
    fault = first_codec_fault first second;
  }

  -- `to` answers with a value or the caller's error.
  unfoldable pub convert :
      {A B : Type 0} → Codec Shape Strategy X A → (A → Result X B) → Codec Shape Strategy X B
  unfolding validate_codec
  convert inner to = record {
    parameters = inner.parameters;
    entity = inner.entity;
    decode = elim (validate_codec inner) [
      | some fault ↦ none
      | none ↦
          some (λ request. call inner.decode request >>= (λ value. map_err unconverted (to value)))
    ];
    fault = validate_codec inner;
  }

  unfoldable pub or_else_value :
      {A : Type 0} → Codec Shape Strategy X (Option A) → A → Codec Shape Strategy X A
  unfolding convert
  or_else_value codec fallback =
      convert codec (λ value. elim value [ none ↦ ok fallback | some a ↦ ok a ])

  unfoldable pub with_description :
      {A : Type 0} → Codec Shape Strategy X A → Text → Codec Shape Strategy X A
  with_description codec doc = elim (described doc codec.parameters) [
    | none ↦ record codec { fault = some not_one_parameter }
    | some parameters' ↦ record codec { parameters = parameters' }
  ]
