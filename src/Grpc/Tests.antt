-- ===== src/Grpc/Tests.antt =====
-- A procedure that counts, and its contract.
use effect_golang_web.Common.{
  ℕ, suc, ◌≡◌, refl, ◌↔◌, false, none, some, List, [], ◌∷◌, map, Text, codes, Result, ok, err,
  is_blank,
}
use effect_golang_web.Grpc.{
  Calls, Boundary, Procedure, ProtoSchema, ProcedureDeclaration, ProtoProcedure, plain_message,
  unknown, handle_call, proto_procedures, unary, bare_service_name, cut_prefix, proto_procedure,
}
use effect_golang_web.Grpc.Contracts.{declared_path, generated_path, proto_procedures_lem}
use effect_golang_web.Grpc.Serving.{Ends, handle_call_iff}

abbrev direct_run : {A : Type 0} → Result ℕ A → Result ℕ A
direct_run exit = exit

abbrev direct : Calls
direct = record {
  Effect = λ A. Result ℕ A;
  Cause = ℕ;
  Error = ℕ;
  Mistake = ℕ;
  Shape = ℕ;
  run = direct_run;
  contains_defect = λ cause. false;
  typed_failure = λ cause. some cause;
  has_interrupts_only = λ cause. false;
}

abbrev first_code : Text → Result ℕ ℕ
first_code [] = err 0
first_code (c ∷ text) = ok c

abbrev code_schema : ProtoSchema ℕ ℕ ℕ
code_schema = record {
  structure = 1;
  mistake = none;
  decode = first_code;
  encode = λ n. ok (n ∷ []);
}

abbrev count_up : Procedure ℕ ℕ ℕ ℕ
unfolding unary is_blank
count_up = unary (codes "shop.v1.Shipping") (codes "Next") code_schema code_schema

abbrev failing_boundary : Boundary direct
failing_boundary = record {
  on_failure = λ error. record { code = unknown; message = plain_message (codes "no") };
  on_defect = λ cause. record { code = unknown; message = plain_message (codes "no") };
}

handle_call_iff_example :
    (handle_call direct failing_boundary count_up (λ n. ok (suc n)) (codes "a")
      ≡ (ok (codes "b"), []))
    ↔ Ends direct failing_boundary count_up (λ n. ok (suc n)) (codes "a") (ok (codes "b"), [])
handle_call_iff_example =
    handle_call_iff direct failing_boundary count_up (λ n. ok (suc n)) (codes "a")
      (ok (codes "b"), [])

abbrev declared : ProcedureDeclaration ℕ ℕ
declared = record {
  service = codes "shop.v1.Shipping";
  method = codes "Next";
  description = [];
  shapes = (1, 1);
  fault = none;
}

abbrev made : List (ProtoProcedure ℕ)
made =
    record {
      service = codes "Shipping";
      method = codes "Next";
      description = [];
      request = 1;
      response = 1;
    }
    ∷ []

contract_made : proto_procedures (codes "shop.v1") (declared ∷ []) ≡ ok made
unfolding proto_procedures bare_service_name cut_prefix proto_procedure
contract_made = refl

proto_procedures_lem_example :
    map (generated_path (codes "shop.v1")) made ≡ map declared_path (declared ∷ [])
proto_procedures_lem_example =
    proto_procedures_lem (codes "shop.v1") (declared ∷ []) made contract_made
