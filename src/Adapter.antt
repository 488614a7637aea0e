-- ===== src/Adapter.antt =====
-- web/adapter.go and web/middleware.go: handlers interpreted as net/http handlers, and wrapped.
pub mod Answers
pub mod Tests
use effect_golang_web.Common.{
  ℕ, Bool, true, false, ◌&&◌, not, Option, none, some, List, [], ◌∷◌, ◌++◌, Text, codes, Result, ok,
  err, is_some, if◌then◌else◌,
}
use effect_golang_web.Http.{Response, HttpRequest, Request, request_from, empty_response}
use effect_golang_web.CrossOrigin.{
  CrossOrigin, allowed_origin, is_preflight, preflight_response, share,
}

-- What stands outside this repository: the runtime, which runs an effect to an exit with a value or
-- a cause, what it says of a cause, and strconv.Itoa and the whole seconds of a duration.
pub record Runtime : Type 1 where
  pub Effect : Type 0
  pub Writer : Type 0
  pub Strategy : Type 0
  pub Failure : Type 0
  pub Cause : Type 0
  pub Mistake : Type 0
  pub run : Effect → Result Cause (Response Writer)
  pub contains_defect : Cause → Bool
  pub failures : Cause → List Failure
  pub has_interrupts_only : Cause → Bool
  pub itoa : ℕ → Text
  pub seconds : ℕ → ℕ

-- What is recorded: the texts of the source before the cause, and the fault of a writer.
pub data Report (Cause Mistake : Type 0) : Type 0 where
  unhandled_defect refused ended_badly : Cause → Report Cause Mistake
  unwritten_response : Mistake → Report Cause Mistake

pub data AdapterMistake : Type 0 where
  no_runtime no_failure_mapping : AdapterMistake

-- The order of `for index := len(middleware) - 1; index >= 0; index--`.
backwards : {A : Type 0} → List A → List A
backwards [] = []
backwards (x ∷ xs) = backwards xs ++ x ∷ []

module _ (r : Runtime) where
  open r use {
    Effect, Writer, Strategy, Failure, Cause, Mistake, run, contains_defect, failures,
    has_interrupts_only, itoa, seconds,
  }

  abbrev pub Handler : Type 0
  Handler = Request Strategy → Effect

  -- The sink is not a field: what is reported is what a call gives beside its answer.
  pub record Adapter : Type 0 where
    pub on_failure : Failure → Response Writer
    pub on_defect : Cause → Response Writer
    pub cross_origin : CrossOrigin
    pub quiet : Bool

  unfoldable pub defect_response : Cause → Response Writer
  unfolding empty_response
  defect_response cause =
      if has_interrupts_only cause then empty_response 503 else empty_response 500

  abbrev no_sharing : CrossOrigin
  no_sharing = record {
    allowed_origins = [];
    allowed_headers = [];
    exposed_headers = [];
    max_age = 0;
  }

  -- A nil runtime is told by `has_runtime`, and a nil mapping by `none`.
  unfoldable pub new_adapter :
      Bool → Option (Failure → Response Writer) → Result AdapterMistake Adapter
  unfolding defect_response
  new_adapter false on_failure' = err no_runtime
  new_adapter true none = err no_failure_mapping
  new_adapter true (some on_failure') = ok (record {
    on_failure = on_failure';
    on_defect = defect_response;
    cross_origin = no_sharing;
    quiet = false;
  })

  unfoldable pub with_defect_response : Adapter → (Cause → Response Writer) → Adapter
  with_defect_response adapter respond = record adapter { on_defect = respond }

  unfoldable pub with_cross_origin : Adapter → CrossOrigin → Adapter
  with_cross_origin adapter cross = record adapter { cross_origin = cross }

  unfoldable pub quieted : Adapter → Adapter
  quieted adapter = record adapter { quiet = true }

  abbrev pub Answered : Type 0
  Answered = Response Writer × List (Report Cause Mistake)

  unfoldable pub record_refusal : Adapter → Cause → List (Report Cause Mistake)
  record_refusal adapter cause = if adapter.quiet then [] else refused cause ∷ []

  abbrev answer_failures : Adapter → Cause → List Failure → Answered
  unfolding record_refusal
  answer_failures adapter cause [] = (adapter.on_defect cause, [])
  answer_failures adapter cause (failure ∷ _) =
      (adapter.on_failure failure, record_refusal adapter cause)

  unfoldable pub response_for_cause : Adapter → Cause → Answered
  unfolding answer_failures
  response_for_cause adapter cause =
      if contains_defect cause
      then (adapter.on_defect cause, unhandled_defect cause ∷ [])
      else answer_failures adapter cause (failures cause)

  -- `exit.Fold(adapter.responseForCause, sameResponse)`
  unfoldable pub fold_exit : Adapter → Result Cause (Response Writer) → Answered
  unfolding response_for_cause
  fold_exit adapter (ok response) = (response, [])
  fold_exit adapter (err cause) = response_for_cause adapter cause

  abbrev pub shared_answer : Adapter → Text → Answered → Answered
  shared_answer adapter origin (response, reports) =
      (share adapter.cross_origin response origin, reports)

  unfoldable pub answer : Adapter → Handler → HttpRequest → Answered
  unfolding fold_exit allowed_origin is_preflight preflight_response share request_from
  answer adapter handler request = elim (allowed_origin adapter.cross_origin request) [
    | none ↦ fold_exit adapter (run (handler (request_from request)))
    | some origin ↦
        if is_preflight request
        then (preflight_response itoa seconds adapter.cross_origin request origin, [])
        else shared_answer adapter origin (fold_exit adapter (run (handler (request_from request))))
  ]

  abbrev write_reports : Option Mistake → List (Report Cause Mistake)
  write_reports none = []
  write_reports (some mistake) = unwritten_response mistake ∷ []

  -- `write` is what writing a response to the client of a request came to.
  unfoldable pub serve :
      Adapter → Handler → (Response Writer → HttpRequest → Option Mistake) → HttpRequest → Answered
  unfolding answer
  serve adapter handler write request =
      let (response, reports) = answer adapter handler request in
      (response, reports ++ write_reports (write response request))

  -- Interpret: what is recorded of an exchange that answers with no response.
  abbrev pub interpret : Result Cause (Unit {0}) → List (Report Cause Mistake)
  interpret (ok _) = []
  interpret (err cause) = if has_interrupts_only cause then [] else ended_badly cause ∷ []

  -- Middleware; nil is `none`.
  abbrev pub Middleware : Type 0
  Middleware = Handler → Handler

  -- The loop of `Wrap`, over the middleware from the last to the first.
  wrap_loop : Handler → List (Option Middleware) → Handler
  wrap_loop handler [] = handler
  wrap_loop handler (none ∷ middleware) = wrap_loop handler middleware
  wrap_loop handler (some each ∷ middleware) = wrap_loop (each handler) middleware

  unfoldable pub wrap : Handler → List (Option Middleware) → Handler
  unfolding wrap_loop backwards
  wrap handler middleware = wrap_loop handler (backwards middleware)
