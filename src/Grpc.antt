-- ===== src/Grpc.antt =====
-- grpc/procedure.go, grpc/contract.go, grpc/boundary.go and grpc/fault.go: procedures, the contract that
-- is projected of them, and the boundary that serves them.
pub mod Contracts
pub mod Serving
pub mod Tests
use effect_golang_web.Common.{
  ℕ, Bool, true, false, ◌||◌, not, Option, none, some, List, [], ◌∷◌, ◌++◌, Text, codes, Result, ok,
  err, ◌>>=◌, map_err, is_blank, has_code, text_eq, ◌==◌, if◌then◌else◌,
}
use effect_golang_web.Path.{is_empty}

pub data Code : Type 0 where
  cancelled unknown invalid_argument deadline_exceeded not_found already_exists permission_denied
        resource_exhausted failed_precondition aborted out_of_range unimplemented internal
        unavailable data_loss unauthenticated :
      Code

-- A message is its text, or one that quotes an error of the schema library.
pub data FailureMessage (X : Type 0) : Type 0 where
  plain_message : Text → FailureMessage X
  unsatisfied : Text → X → FailureMessage X

pub record Failure (X : Type 0) : Type 0 where
  pub code : Code
  pub message : FailureMessage X

-- The reasons, with what their messages quote.
pub data GrpcFault (X : Type 0) : Type 0 where
  no_runtime no_transport no_failure_mapping : GrpcFault X
  no_service no_method : Text → GrpcFault X
  bad_schema : Text → X → GrpcFault X
  no_handler : Text → GrpcFault X
  unencoded_response : Text → X → GrpcFault X
  outside_package nested_package : Text → Text → GrpcFault X

-- What this package uses of a schema, with protobuf's encoding of it.
pub record ProtoSchema (Shape X A : Type 0) : Type 0 where
  pub structure : Shape
  pub mistake : Option X
  pub decode : Text → Result X A
  pub encode : A → Result X Text

pub record Procedure (Shape X In Out : Type 0) : Type 0 where
  pub service : Text
  pub method : Text
  pub doc : Text
  pub request : ProtoSchema Shape X In
  pub response : ProtoSchema Shape X Out
  pub fault : Option (GrpcFault X)

abbrev pub procedure_path : Text → Text → Text
procedure_path service method = codes "/" ++ (service ++ (codes "/" ++ method))

module _ {X : Type 0} where
  abbrev first_mistake : Text → Option X → Option X → Option (GrpcFault X)
  first_mistake path' (some mistake) second = some (bad_schema path' mistake)
  first_mistake path' none (some mistake) = some (bad_schema path' mistake)
  first_mistake path' none none = none

module _ {Shape X In Out : Type 0} where
  unfoldable pub unary :
      Text → Text → ProtoSchema Shape X In → ProtoSchema Shape X Out → Procedure Shape X In Out
  unfolding is_blank
  unary service' method' request' response' = record {
    service = service';
    method = method';
    doc = [];
    request = request';
    response = response';
    fault =
        if is_blank service'
        then some (no_service method')
        else if is_blank method'
        then some (no_method service')
        else first_mistake (procedure_path service' method') request'.mistake response'.mistake;
  }

  unfoldable pub procedure_with_description :
      Procedure Shape X In Out → Text → Procedure Shape X In Out
  procedure_with_description procedure doc' = record procedure { doc = doc' }

-- The interface of a procedure that a contract reads, `Declaration`, and what it makes of one.
pub record ProcedureDeclaration (Shape X : Type 0) : Type 0 where
  pub service : Text
  pub method : Text
  pub description : Text
  pub shapes : Shape × Shape
  pub fault : Option (GrpcFault X)

pub record ProtoProcedure (Shape : Type 0) : Type 0 where
  pub service : Text
  pub method : Text
  pub description : Text
  pub request : Shape
  pub response : Shape

-- strings.CutPrefix: what stands behind the prefix, if the text begins with it.
unfoldable pub cut_prefix : Text → Text → Option Text
cut_prefix s [] = some s
cut_prefix [] (_ ∷ _) = none
cut_prefix (c ∷ s) (d ∷ p) = let rest = cut_prefix s p in if c == d then rest else none

module _ {Shape X : Type 0} where
  unfoldable pub proto_procedure : ProcedureDeclaration Shape X → Text → ProtoProcedure Shape
  proto_procedure declared bare = record {
    service = bare;
    method = declared.method;
    description = declared.description;
    request = declared.shapes.0;
    response = declared.shapes.1;
  }

module _ {X : Type 0} where
  abbrev pub bare_of : Text → Text → Option Text → Result (GrpcFault X) Text
  bare_of package_name service none = err (outside_package service package_name)
  bare_of package_name service (some bare) =
      if is_empty bare || has_code b'.' bare
      then err (nested_package service package_name)
      else ok bare

  abbrev pub unless_faulty :
      {A : Type 0} → Option (GrpcFault X) → Result (GrpcFault X) A → Result (GrpcFault X) A
  unless_faulty (some mistake) next = err mistake
  unless_faulty none next = next

  unfoldable pub bare_service_name : Text → Text → Result (GrpcFault X) Text
  unfolding cut_prefix
  bare_service_name package_name service =
      bare_of package_name service (cut_prefix service (package_name ++ codes "."))

module _ {Shape X : Type 0} where
  -- The loop of `Contract`.
  unfoldable pub proto_procedures :
      Text
      → List (ProcedureDeclaration Shape X)
      → Result (GrpcFault X) (List (ProtoProcedure Shape))
  unfolding bare_service_name proto_procedure
  proto_procedures package_name [] = ok []
  proto_procedures package_name (declared ∷ procedures) = do
    bare ← unless_faulty declared.fault (bare_service_name package_name declared.service)
    rest ← proto_procedures package_name procedures
    ok (proto_procedure declared bare ∷ rest)

-- The runtime: an exit is a value or a cause.
pub record Calls : Type 1 where
  pub Effect : Type 0 → Type 0
  pub Cause : Type 0
  pub Error : Type 0
  pub Mistake : Type 0
  pub Shape : Type 0
  pub run : {A : Type 0} → Effect A → Result Cause A
  pub contains_defect : Cause → Bool
  pub typed_failure : Cause → Option Error
  pub has_interrupts_only : Cause → Bool

-- What is reported: a defect's cause, or a response that could not be encoded.
pub data CallReport (Cause X : Type 0) : Type 0 where
  handler_failed : Cause → CallReport Cause X
  unencoded : GrpcFault X → CallReport Cause X

module _ (c : Calls) where
  open c use {
    Effect, Cause, Error, Mistake, Shape, run, contains_defect, typed_failure, has_interrupts_only,
  }

  -- The runtime and the transport are not fields: a nil one is told to `new_boundary`.
  pub record Boundary : Type 0 where
    pub on_failure : Error → Failure Mistake
    pub on_defect : Cause → Failure Mistake

  unfoldable pub defect_failure : Cause → Failure Mistake
  defect_failure cause =
      if has_interrupts_only cause
      then record { code = cancelled; message = plain_message (codes "the call was cancelled") }
      else record { code = unknown; message = plain_message (codes "the service failed") }

  unfoldable pub new_boundary :
      Bool → Bool → Option (Error → Failure Mistake) → Result (GrpcFault Mistake) Boundary
  unfolding defect_failure
  new_boundary false has_transport on_failure' = err no_runtime
  new_boundary true false on_failure' = err no_transport
  new_boundary true true none = err no_failure_mapping
  new_boundary true true (some on_failure') =
      ok (record { on_failure = on_failure'; on_defect = defect_failure })

  unfoldable pub with_defect_failure : Boundary → (Cause → Failure Mistake) → Boundary
  with_defect_failure boundary answer = record boundary { on_defect = answer }

  -- An answer to a call, with what is reported beside it.
  abbrev pub CallAnswer : Type 0
  CallAnswer = Result (Failure Mistake) Text × List (CallReport Cause Mistake)

  abbrev typed_answer : Boundary → Cause → Option Error → Failure Mistake
  typed_answer boundary cause (some failure) = boundary.on_failure failure
  typed_answer boundary cause none = boundary.on_defect cause

  unfoldable pub failure_for_cause :
      Boundary → Cause → Failure Mistake × List (CallReport Cause Mistake)
  failure_for_cause boundary cause =
      if contains_defect cause
      then (boundary.on_defect cause, handler_failed cause ∷ [])
      else (typed_answer boundary cause (typed_failure cause), [])

  abbrev pub refused_with : Failure Mistake × List (CallReport Cause Mistake) → CallAnswer
  refused_with (failure, reports) = (err failure, reports)

  abbrev pub encoded_answer : Text → Result Mistake Text → CallAnswer
  encoded_answer path' (ok message) = (ok message, [])
  encoded_answer path' (err mistake) = (
    err (record {
      code = internal;
      message = plain_message (codes "the response could not be encoded");
    }),
    unencoded (unencoded_response path' mistake) ∷ [],
  )

  module _ {In Out : Type 0} (boundary : Boundary) (procedure : Procedure Shape Mistake In Out)
      (handle : In → Effect Out) where
    abbrev pub exit_answer : Result Cause Out → CallAnswer
    unfolding failure_for_cause
    exit_answer (err cause) = refused_with (failure_for_cause boundary cause)
    exit_answer (ok answer) =
        encoded_answer (procedure_path procedure.service procedure.method)
          (procedure.response.encode answer)

    abbrev pub input_answer : Result Mistake In → CallAnswer
    unfolding exit_answer
    input_answer (err mistake) = (
      err (record {
        code = invalid_argument;
        message = unsatisfied (procedure_path procedure.service procedure.method) mistake;
      }),
      [],
    )
    input_answer (ok input) = exit_answer (run (handle input))

    unfoldable pub handle_call : Text → CallAnswer
    unfolding input_answer
    handle_call request = input_answer (procedure.request.decode request)

  -- `Answer`: what the transport is given under the path of the procedure.
  unfoldable pub answer :
      {In Out : Type 0}
      → Boundary
      → Procedure Shape Mistake In Out
      → Option (In → Effect Out)
      → Result (GrpcFault Mistake) (Text × (Text → CallAnswer))
  unfolding handle_call
  answer boundary procedure handle = elim procedure.fault [
    | some mistake ↦ err mistake
    | none ↦ elim handle [
      | none ↦ err (no_handler (procedure_path procedure.service procedure.method))
      | some run_it ↦
          ok (
            procedure_path procedure.service procedure.method,
            handle_call boundary procedure run_it,
          )
    ]
  ]
