-- ===== src/Adapter/Tests.antt =====
-- Requests of web/adapter.go answered.
use effect_golang_web.Common.{
  ℕ, ◌≡◌, ◌⊎◌, refl, Bool, false, none, some, [], ◌∷◌, codes, Result, ok, Member, ◌/◌, ◌==◌, ltb,
  if◌then◌else◌,
}
use effect_golang_web.Http.{Response, HttpRequest, no_entity, request_from}
use effect_golang_web.Http.Headers.{values, get_header}
use effect_golang_web.CrossOrigin.Sharing.{allow_origin}
use effect_golang_web.CrossOrigin.Tests.{films}
use effect_golang_web.Adapter.{
  Runtime, Handler, Adapter, Middleware, unhandled_defect, refused, response_for_cause, fold_exit,
  answer, wrap,
}
use effect_golang_web.Adapter.Answers.{nested, answer_lem, wrap_lem}

-- An effect is its exit, and a cause is a number: 0 an interruption, 1 a defect, else a failure.
abbrev small_runtime : Runtime
small_runtime = record {
  Effect = Result ℕ (Response ℕ);
  Writer = ℕ;
  Strategy = Bool;
  Failure = ℕ;
  Cause = ℕ;
  Mistake = ℕ;
  run = λ fx. fx;
  contains_defect = λ cause. cause == 1;
  failures = λ cause. if ltb 1 cause then cause ∷ [] else [];
  has_interrupts_only = λ cause. cause == 0;
  itoa = λ n. codes "600";
  seconds = λ n. n / 1000000000;
}

abbrev plain : ℕ → Response ℕ
plain status = record { status = status; header = []; write = no_entity }

abbrev boundary : Adapter small_runtime
boundary = record {
  on_failure = λ failure. plain 404;
  on_defect = λ cause. plain 500;
  cross_origin = films;
  quiet = false;
}

abbrev finds : Handler small_runtime
finds request = ok (plain 200)

abbrev from_films : HttpRequest
from_films = record {
  method = codes "GET";
  path = codes "/films";
  query = [];
  header = (codes "Origin", codes "https://films.example" ∷ []) ∷ [];
}

reports_defect : response_for_cause small_runtime boundary 1 ≡ (plain 500, unhandled_defect 1 ∷ [])
unfolding response_for_cause
reports_defect = refl

reports_refusal : response_for_cause small_runtime boundary 2 ≡ (plain 404, refused 2 ∷ [])
unfolding response_for_cause
reports_refusal = refl

reports_no_interruption : response_for_cause small_runtime boundary 0 ≡ (plain 500, [])
unfolding response_for_cause
reports_no_interruption = refl

answer_lem_example :
    (values (answer small_runtime boundary finds from_films).0.header allow_origin
        ≡ get_header from_films.header (codes "Origin") ∷ [])
      × Member (get_header from_films.header (codes "Origin")) films.allowed_origins
    ⊎ (answer small_runtime boundary finds from_films
        ≡ fold_exit small_runtime boundary (small_runtime.run (finds (request_from from_films))))
answer_lem_example = answer_lem small_runtime boundary finds from_films

abbrev created : Middleware small_runtime
created handler request = ok (plain 201)

wrap_lem_example :
    wrap small_runtime finds (some created ∷ none ∷ [])
    ≡ nested small_runtime finds (some created ∷ none ∷ [])
wrap_lem_example = wrap_lem small_runtime finds (some created ∷ none ∷ [])
