-- ===== src/Upstream/Retrying.antt =====
-- web/upstream_client.go: a service is asked again, under the schedule of the effect library, whose
-- documented behaviour is stated here.
use effect_golang_web.Common.{
  ℕ, zero, suc, ◌≡◌, refl, sym, ap, ◌∙◌, Bool, true, false, Option, none, some, Text, Result, ok,
  err, inl, inr, Bool-cases,
}
use effect_golang_web.Client.{
  ClientRequest, ClientResponse, Fault, Wire, Client, HttpCall, Effect, flat_map, resumed,
  recovered, fetch, exchange, target_of, full_address, http_call, call_op, sent, failing,
  exchange_over,
}
use effect_golang_web.Upstream.{
  Ports, RetryPolicy, UpstreamClient, is_enabled, is_retryable, is_successful, retry_schedule,
  recover_refusal, fail_unsuccessful, await_upstream_turn, attempt, ask_upstream, refusal_of,
  turned,
}

module _ {w : Wire} (p : Ports w) where
  open w use {State, Mistake, Transport, send}
  open p use {
    Allowance, Schedule, stop, exponential, recurs, intersect, while_input, retry, await_turn, wait,
  }

  abbrev pub Outcome : Type 0
  Outcome = State × Result (Fault Mistake) ClientResponse

  -- What ends a retry with `n` more attempts: an answer, no more attempts, or a failure that is not
  -- worth another.
  abbrev pub IsLast : (Fault Mistake → Bool) → ℕ → Result (Fault Mistake) ClientResponse → Type 0
  IsLast again n (ok response) = Unit
  IsLast again zero (err mistake) = Unit
  IsLast again (suc n) (err mistake) = again mistake ≡ false

  -- From this state the effect is run once, and then again, after a wait, for as long as it fails with
  -- what is worth another attempt, at most `n` times; the outcome is that of the last run.
  pub data Attempts (again : Fault Mistake → Bool) (effect : Effect w ClientResponse)
      : ℕ → State → Outcome → Type 0 where
    last :
        {n : ℕ} {state : State} {outcome : Outcome}
        → effect state ≡ outcome
        → IsLast again n outcome.1
        → Attempts again effect n state outcome
    repeated :
        {n : ℕ} {state failed : State} {mistake : Fault Mistake} {outcome : Outcome} (delay : ℕ)
        → effect state ≡ (failed, err mistake)
        → again mistake ≡ true
        → Attempts again effect n (wait delay failed) outcome
        → Attempts again effect (suc n) state outcome

  -- What the effect library documents of the schedules that this package builds.
  pub record Retries : Type 0 where
    pub once :
        (effect : Effect w ClientResponse) (state : State) → retry stop effect state ≡ effect state
    pub again_while :
        (again : Fault Mistake → Bool) (base max n : ℕ) (effect : Effect w ClientResponse)
        (state : State)
        → Attempts again effect n state
            (retry (while_input again (intersect (exponential base max) (recurs n))) effect state)

  -- Some run of the effect is the last.
  last_run :
      {again : Fault Mistake → Bool} {effect : Effect w ClientResponse} {n : ℕ} {state : State}
      {outcome : Outcome}
      → Attempts again effect n state outcome
      → (before : State) × (effect before ≡ outcome)
  last_run {state = state} (last ended is_last) = (state, ended)
  last_run (repeated delay failed worth rest) = last_run rest

  pub retry_run :
      (r : Retries) (policy : RetryPolicy) (effect : Effect w ClientResponse) (state : State)
      → (before : State) × (effect before ≡ retry (retry_schedule p policy) effect state)
  unfolding retry_schedule
  retry_run r policy effect state = elim (Bool-cases (is_enabled policy)) [
    | inl enabled ↦
        rw enabled
          (last_run (r.again_while is_retryable policy.base policy.max policy.retries effect state))
    | inr disabled ↦ rw disabled (state, sym (r.once effect state))
  ]

  -- A turn and an exchange, with the status as data.
  abbrev pub ask_once : UpstreamClient p → Text → Text → ClientRequest → Effect w ClientResponse
  ask_once upstream method path' request =
      flat_map w (await_upstream_turn p upstream)
        (λ turn. fetch w upstream.client method path' request)

  -- A failure that carries no refusal.
  abbrev IsPlain : {A : Type 0} → State × Result (Fault Mistake) A → Type 0
  IsPlain (state, ok value) = Unit
  IsPlain (state, err mistake) = refusal_of mistake ≡ none

  sent-IsPlain :
      (op : Text) (result : State × Result Mistake ClientResponse)
      → IsPlain (failing w op (sent w result))
  sent-IsPlain op (state, ok response) = tt
  sent-IsPlain op (state, err mistake) = refl

  exchange-IsPlain :
      (op : Text) (transport : Option Transport) (bad : Option Mistake) (call : HttpCall)
      (state : State)
      → IsPlain (failing w op (exchange_over w transport bad call state))
  exchange-IsPlain op none bad call state = refl
  exchange-IsPlain op (some transport) (some mistake) call state = refl
  exchange-IsPlain op (some transport) none call state = sent-IsPlain op (send transport call state)

  fetch-IsPlain :
      (client : Client w) (method path' : Text) (request : ClientRequest) (state : State)
      → IsPlain (fetch w client method path' request state)
  unfolding fetch exchange
  fetch-IsPlain client method path' request state =
      exchange-IsPlain (call_op w (target_of w method path')) client.transport
        (w.bad_call method (full_address w client path' request))
        (http_call w client method path' request) state

  turn-IsPlain :
      (name : Text) (result : State × Result Mistake (Unit {0})) → IsPlain (turned p name result)
  turn-IsPlain name (state, ok done) = tt
  turn-IsPlain name (state, err mistake) = refl

  recovered-fail :
      (target : Text) (outcome : Outcome)
      → IsPlain outcome
      → recovered w (resumed w outcome (fail_unsuccessful p target)) (recover_refusal p) ≡ outcome
  unfolding fail_unsuccessful recover_refusal
  recovered-fail target (state, ok response) plain = elim (Bool-cases (is_successful response)) [
    | inl successful ↦ rw successful refl
    | inr unsuccessful ↦ rw unsuccessful refl
  ]
  recovered-fail target (state, err mistake) plain = rw plain refl

  recovered-turn :
      (upstream : UpstreamClient p) (method path' : Text) (request : ClientRequest)
      (turn : State × Result (Fault Mistake) (Unit {0}))
      → IsPlain turn
      → recovered w
          (resumed w turn (λ done.
            flat_map w
              (fetch w upstream.client method path' request)
              (fail_unsuccessful p (target_of w method path'))))
          (recover_refusal p)
        ≡ resumed w turn (λ done. fetch w upstream.client method path' request)
  recovered-turn upstream method path' request (state, ok done) plain =
      recovered-fail (target_of w method path') (fetch w upstream.client method path' request state)
        (fetch-IsPlain upstream.client method path' request state)
  recovered-turn upstream method path' request (state, err mistake) plain =
      unfold recover_refusal in rw plain refl

  recovered-attempt :
      (upstream : UpstreamClient p) (method path' : Text) (request : ClientRequest) (state : State)
      → recovered w (attempt p upstream method path' request state) (recover_refusal p)
        ≡ ask_once upstream method path' request state
  unfolding attempt await_upstream_turn
  recovered-attempt upstream method path' request state =
      recovered-turn upstream method path' request
        (turned p upstream.terms.name
          (await_turn upstream.terms.allowance upstream.terms.max_wait state))
        (turn-IsPlain upstream.terms.name
          (await_turn upstream.terms.allowance upstream.terms.max_wait state))

  -- Whatever the retry policy, asking an upstream ends as one turn and one fetch do from some state:
  -- with the response of that fetch and its status as data, also where the attempts that failed before
  -- it are spent, or with the failure of that turn or that fetch.
  pub ask_upstream_lem :
      (r : Retries) (upstream : UpstreamClient p) (method path' : Text) (request : ClientRequest)
      (state : State)
      → (before : State) × (ask_upstream p upstream method path' request state
          ≡ ask_once upstream method path' request before)
  unfolding ask_upstream
  ask_upstream_lem r upstream method path' request state =
      let (before, ran) =
        retry_run r upstream.terms.retry_policy (attempt p upstream method path' request) state in
      (
        before,
        ap (λ o. recovered w o (recover_refusal p)) (sym ran)
            ∙ recovered-attempt upstream method path' request before,
      )
