-- ===== src/Codec/Tests.antt =====
-- Codecs of web/codec.go combined and run.
use effect_golang_web.Common.{
  All, List, ◌≤◌, ℕ, ◌≡◌, refl, ◌↔◌, Bool, none, some, [], ◌∷◌, ◌++◌, Text, codes, ok,
}
use effect_golang_web.Declarations.{in_path}
use effect_golang_web.Http.{Request}
use effect_golang_web.Codec.{
  Schema, Codec, read_twice, zip, validate_codec, decode_with, duplicate_parameter_fault,
  first_codec_fault,
}
use effect_golang_web.Codec.Parameters.{
  path_param, query_param, required_parameter, parameter_fault,
}
use effect_golang_web.Codec.Struct.{
  Field, field_of, gather, struct_codec, all_parameters, bodies, struct_codec_lem,
  decode-struct_codec, Reads,
}
use effect_golang_web.Codec.Zipping.{DistinctParameters, duplicate_parameter_fault_iff}

abbrev pub plain_text : Schema ℕ Bool Text Text
plain_text = record {
  structure = 1;
  mistake = none;
  decode_text = λ text. ok text;
  decode_json = λ strategy text. ok text;
  encode_json = λ strategy text. ok text;
}

unfoldable pub id_codec : Codec ℕ Bool Text Text
id_codec = path_param (codes "id") plain_text

unfoldable title_codec : Codec ℕ Bool Text Text
title_codec = query_param (codes "title") plain_text

abbrev asked : Request Bool
asked = record {
  source = record {
    method = codes "GET";
    path = codes "/books/7";
    query = (codes "title", codes "Emma" ∷ []) ∷ [];
    header = [];
  };
  captures = (codes "id", codes "7") ∷ [];
  strategy = none;
}

both_usable : validate_codec (zip id_codec title_codec) ≡ none
unfolding validate_codec zip id_codec title_codec path_param query_param required_parameter
    parameter_fault first_codec_fault
both_usable = refl

reads_both : decode_with (zip id_codec title_codec) asked ≡ ok (codes "7", codes "Emma")
unfolding decode_with zip id_codec title_codec path_param query_param
reads_both = refl

same_parameter_twice :
    validate_codec (zip id_codec id_codec) ≡ some (read_twice in_path (codes "id"))
unfolding validate_codec zip id_codec path_param
same_parameter_twice = refl

duplicate_parameter_fault_iff_example :
    (duplicate_parameter_fault {X = Text} (id_codec.parameters ++ title_codec.parameters) ≡ none)
    ↔ DistinctParameters (id_codec.parameters ++ title_codec.parameters)
duplicate_parameter_fault_iff_example =
    duplicate_parameter_fault_iff Text (id_codec.parameters ++ title_codec.parameters)

abbrev parts : List (Field ℕ Bool Text (Text × Text))
parts =
    field_of id_codec (λ into id. (id, into.1))
    ∷ field_of title_codec (λ into title. (into.0, title))
    ∷ []

abbrev blank : Text × Text
blank = ([], [])

struct_usable : validate_codec (struct_codec blank parts) ≡ none
unfolding validate_codec struct_codec gather field_of id_codec title_codec path_param query_param
    duplicate_parameter_fault
struct_usable = refl

reads_struct : decode_with (struct_codec blank parts) asked ≡ ok (codes "7", codes "Emma")
unfolding decode_with struct_codec gather field_of id_codec title_codec path_param query_param
    duplicate_parameter_fault
reads_struct = refl

struct_codec_lem_example : (validate_codec (struct_codec blank parts) ≡ none) ↔ (
    All (λ f. f.fault ≡ none) parts
    × (bodies parts ≤ 1)
    × DistinctParameters (all_parameters parts))
struct_codec_lem_example = struct_codec_lem blank parts

decode-struct_codec_example :
    (decode_with (struct_codec blank parts) asked ≡ ok (codes "7", codes "Emma"))
    ↔ Reads asked parts blank (ok (codes "7", codes "Emma"))
decode-struct_codec_example =
    decode-struct_codec blank parts asked (ok (codes "7", codes "Emma")) struct_usable
