-- ===== src/Handling/Tests.antt =====
-- A route whose runtime counts its spans.
use effect_golang_web.Common.{
  ℕ, suc, ◌≡◌, refl, ap, subst, some-injective, none, some, [], ◌∷◌, Text, codes, Result, ok, err,
}
use effect_golang_web.Http.{no_entity as no_body, Response, Request, bytes_response, with_naming}
use effect_golang_web.Codec.{Schema, Codec, decode_with, validate_codec, nothing, no_entity}
use effect_golang_web.Endpoint.{Endpoint, Output, declare, returns}
use effect_golang_web.Routes.{Phases, is_quiet, phase_names}
use effect_golang_web.Handling.{
  Program, Effect, PhaseSampler, HandleMistake, unread_request, build_of, no_phases, plain,
  encode_output,
}
use effect_golang_web.Handling.Phasing.{AreAlike, AreHidden, IsHidden, build_of-AreAlike}
use effect_golang_web.Handling.Refusing.{AnswersAlike, refused_lem, build_of-IsJson}
use effect_golang_web.Calling.Answering.{IsJson}

record Tally : Type 0 where
  value : ℕ
  spans : ℕ

abbrev spanned : {A : Type 0} → Tally × Result ℕ A → Tally × Result ℕ A
spanned (state, result) = (record state { spans = suc state.spans }, result)

abbrev counted : {A : Type 0} → Text → (Tally → Tally × Result ℕ A) → Tally → Tally × Result ℕ A
counted name effect state = spanned (effect (record state { spans = suc state.spans }))

abbrev tallied : Program
tallied = record {
  State = Tally;
  Cause = ℕ;
  Mistake = ℕ;
  Strategy = ℕ;
  Shape = ℕ;
  Writer = ℕ;
  spell = λ shape strategy. shape;
  defect = λ mistake. mistake;
  nil_call = 0;
  warn = λ method path mistake state. state;
  with_span = counted;
}

abbrev count_phase : PhaseSampler tallied
count_phase name state = (
  record state { spans = suc state.spans },
  some (λ ended. record ended { spans = suc ended.spans }),
)

abbrev digits : ℕ → Text
digits n = n ∷ []

abbrev text_schema : Schema ℕ ℕ ℕ Text
text_schema = record {
  structure = 1;
  mistake = none;
  decode_text = λ text. ok text;
  decode_json = λ strategy text. ok text;
  encode_json = λ strategy text. ok text;
}

abbrev text_output : Output ℕ ℕ ℕ ℕ Text
unfolding returns
text_output = returns digits 200 text_schema

abbrev read_endpoint : Endpoint ℕ ℕ ℕ ℕ Unit Text
unfolding declare nothing text_output
read_endpoint = declare (codes "GET") (codes "/1") nothing text_output

abbrev refusing_codec : Codec ℕ ℕ ℕ Unit
refusing_codec = record {
  parameters = [];
  entity = none;
  decode = some (λ request. err no_entity);
  fault = none;
}

abbrev refusing_endpoint : Endpoint ℕ ℕ ℕ ℕ Unit Text
unfolding declare text_output
refusing_endpoint = declare (codes "GET") (codes "/1") refusing_codec text_output

-- The handler counts its runs.
abbrev say : Text → Unit {0} → Effect tallied Text
say text input state = (record state { value = suc state.value }, ok text)

abbrev reject_all : HandleMistake ℕ → Response ℕ
reject_all mistake = record { status = 400; header = []; write = no_body }

abbrev all_phases : Phases (PhaseSampler tallied)
unfolding phase_names
all_phases = record phase_names { sampler = some count_phase }

abbrev asked : Request ℕ
asked = record {
  source = record { method = codes "GET"; path = codes "/1"; query = []; header = [] };
  captures = [];
  strategy = none;
}

abbrev begin : Tally
begin = record { value = 0; spans = 0 }

spans-AreHidden : AreHidden tallied (λ state. state.value)
spans-AreHidden A name effect state = (record state { spans = suc state.spans }, refl, refl, refl)

spans_answer_alike : AnswersAlike tallied
spans_answer_alike A name effect state =
    (record state { spans = suc state.spans }, refl, refl, refl)

count-IsHidden : IsHidden tallied (λ state. state.value) count_phase
count-IsHidden name state =
    (refl, λ end other e. subst (λ f. (f other).value ≡ other.value) (some-injective e) refl)

build_of-AreAlike_example :
    AreAlike tallied
      (λ state. state.value)
      (build_of tallied read_endpoint (say (codes "x")) reject_all all_phases none asked)
      (build_of tallied read_endpoint (say (codes "x")) reject_all (no_phases tallied) none asked)
unfolding all_phases
build_of-AreAlike_example =
    build_of-AreAlike tallied (λ state. state.value) read_endpoint (say (codes "x")) spans-AreHidden
      all_phases reject_all none asked
      (λ each given.
        subst (IsHidden tallied (λ state. state.value)) (some-injective given) count-IsHidden)
      (λ input s t seen. (ap suc seen, refl)) (λ method path mistake s t seen. seen)

refused : decode_with refusing_endpoint.input (with_naming asked none) ≡ err no_entity
unfolding decode_with validate_codec refusing_endpoint declare with_naming
refused = refl

read_well : decode_with read_endpoint.input (with_naming asked none) ≡ ok tt
unfolding decode_with validate_codec read_endpoint declare nothing with_naming
read_well = refl

answered :
    build_of tallied read_endpoint (say (codes "x")) reject_all (no_phases tallied) none asked begin
    ≡ (
      record begin { value = 1 },
      ok (bytes_response digits 200 (codes "application/json") (codes "x")),
    )
unfolding build_of plain is_quiet encode_output decode_with validate_codec read_endpoint declare
    nothing with_naming text_output returns
answered = refl

refused_lem_example :
    ((build_of tallied refusing_endpoint (say (codes "x")) reject_all all_phases none asked begin).1
      ≡ ok (reject_all (unread_request no_entity)))
    × (build_of tallied refusing_endpoint (say (codes "x")) reject_all all_phases none asked begin
        ≡ build_of tallied refusing_endpoint
            (say (codes "y"))
            reject_all
            all_phases
            none
            asked
            begin)
refused_lem_example =
    refused_lem tallied refusing_endpoint spans_answer_alike (say (codes "x")) (say (codes "y"))
      reject_all all_phases none asked no_entity begin refused

text_schema_output : read_endpoint.output ≡ returns digits 200 text_schema
unfolding read_endpoint declare text_output
text_schema_output = refl

build_of-IsJson_example :
    IsJson {W = ℕ} digits 200 text_schema
      (codes "x")
      none
      (bytes_response digits 200 (codes "application/json") (codes "x"))
build_of-IsJson_example =
    build_of-IsJson tallied read_endpoint digits 200 text_schema (say (codes "x")) reject_all none
      asked tt (codes "x") (bytes_response digits 200 (codes "application/json") (codes "x")) begin
      (record begin { value = 1 }) (record begin { value = 1 }) text_schema_output read_well refl
      answered
