-- ===== src/Upstream/Asking.antt =====
-- web/upstream_client.go: how often a service is asked for one answer.
use effect_golang_web.Common.{
  ℕ, suc, ◌+◌, ◌≤◌, ◌≡◌, refl, ap, Bool, Option, none, some, Text, Result, ok, err, inl, inr,
  if◌then◌else◌, arith, Bool-cases,
}
use effect_golang_web.Client.{
  ClientRequest, ClientResponse, Fault, Wire, Client, HttpCall, Effect, flat_map, resumed,
  recovered, fetch, exchange, target_of, call_op, sent, failing, exchange_over, full_address,
  http_call,
}
use effect_golang_web.Upstream.{
  Ports, RetryPolicy, UpstreamClient, is_enabled, is_retryable, is_successful, retry_schedule,
  recover_refusal, fail_unsuccessful, await_upstream_turn, attempt, ask_upstream, turned,
}
use effect_golang_web.Upstream.Retrying.{Outcome, Attempts, last, repeated, Retries}

-- The attempts that a policy allows.
abbrev pub attempts_of : RetryPolicy → ℕ
attempts_of policy = if is_enabled policy then suc policy.retries else 1

module _ {w : Wire} (p : Ports w) (Cost : w.State → ℕ)
    (turn_free : (allowance : p.Allowance) (max_wait : ℕ) (state : w.State)
      → Cost (p.await_turn allowance max_wait state).0 ≤ Cost state)
    (wait_free : (delay : ℕ) (state : w.State) → Cost (p.wait delay state) ≤ Cost state)
    (send_le : (transport : w.Transport) (call : HttpCall) (state : w.State)
      → Cost (w.send transport call state).0 ≤ Cost state + 1) where
  sent-le :
      (op : Text) (result : w.State × Result w.Mistake ClientResponse)
      → Cost (failing w op (sent w result)).0 ≡ Cost result.0
  sent-le op (state, result) = refl

  exchange-le :
      (op : Text) (transport : Option w.Transport) (bad : Option w.Mistake) (call : HttpCall)
      (state : w.State)
      → Cost (failing w op (exchange_over w transport bad call state)).0 ≤ Cost state + 1
  exchange-le op none bad call state = omega arith
  exchange-le op (some transport) (some mistake) call state = omega arith
  exchange-le op (some transport) none call state =
      omega (arith, sent-le op (w.send transport call state), send_le transport call state)

  fetch-le :
      (client : Client w) (method path' : Text) (request : ClientRequest) (state : w.State)
      → Cost (fetch w client method path' request state).0 ≤ Cost state + 1
  unfolding fetch exchange
  fetch-le client method path' request state =
      exchange-le (call_op w (target_of w method path')) client.transport
        (w.bad_call method (full_address w client path' request))
        (http_call w client method path' request) state

  failed-le :
      (target : Text) (outcome : Outcome p)
      → Cost (resumed w outcome (fail_unsuccessful p target)).0 ≤ Cost outcome.0
  unfolding fail_unsuccessful
  failed-le target (state, ok response) = elim (Bool-cases (is_successful response)) [
    | inl successful ↦ rw successful (omega arith)
    | inr unsuccessful ↦ rw unsuccessful (omega arith)
  ]
  failed-le target (state, err mistake) = omega arith

  turned-le :
      (upstream : UpstreamClient p) (method path' : Text) (request : ClientRequest)
      (result : w.State × Result w.Mistake (Unit {0}))
      → Cost
          (resumed w (turned p upstream.terms.name result) (λ done.
            flat_map w
              (fetch w upstream.client method path' request)
              (fail_unsuccessful p (target_of w method path')))).0
        ≤ Cost result.0 + 1
  turned-le upstream method path' request (state, ok done) = omega (
    arith,
    failed-le (target_of w method path') (fetch w upstream.client method path' request state),
    fetch-le upstream.client method path' request state,
  )
  turned-le upstream method path' request (state, err mistake) = omega arith

  attempt-le :
      (upstream : UpstreamClient p) (method path' : Text) (request : ClientRequest)
      (state : w.State)
      → Cost (attempt p upstream method path' request state).0 ≤ Cost state + 1
  unfolding attempt await_upstream_turn
  attempt-le upstream method path' request state = omega (
    arith,
    turned-le upstream method path' request
        (p.await_turn upstream.terms.allowance upstream.terms.max_wait state),
    turn_free upstream.terms.allowance upstream.terms.max_wait state,
  )

  Attempts-le :
      {again : Fault w.Mistake → Bool} (effect : Effect w ClientResponse) {n : ℕ} {state : w.State}
      {outcome : Outcome p}
      → ((before : w.State) → Cost (effect before).0 ≤ Cost before + 1)
      → Attempts p again effect n state outcome
      → Cost outcome.0 ≤ Cost state + suc n
  Attempts-le effect {n = n} {state = state} {outcome = outcome} each (last ended is_last) =
      omega (arith, each state, ap (λ o. Cost o.0) ended)
  Attempts-le effect {n = suc n} {state = state} {outcome = outcome} each
        (repeated {failed = failed} delay went worth rest) =
      omega (
        arith,
        Attempts-le effect each rest,
        wait_free delay failed,
        ap (λ o. Cost o.0) went,
        each state,
      )

  recovered-le :
      (outcome : Outcome p) → Cost (recovered w outcome (recover_refusal p)).0 ≡ Cost outcome.0
  unfolding recover_refusal
  recovered-le (state, ok response) = refl
  recovered-le (state, err mistake) = refl

  retry-le :
      (r : Retries p) (policy : RetryPolicy) (effect : Effect w ClientResponse) (state : w.State)
      → ((before : w.State) → Cost (effect before).0 ≤ Cost before + 1)
      → Cost (p.retry (retry_schedule p policy) effect state).0 ≤ Cost state + attempts_of policy
  unfolding retry_schedule
  retry-le r policy effect state each = elim (Bool-cases (is_enabled policy)) [
    | inl enabled ↦ rw enabled (
        Attempts-le effect each
          (r.again_while is_retryable policy.base policy.max policy.retries effect state))
    | inr disabled ↦
        rw disabled (omega (arith, ap (λ o. Cost o.0) (r.once effect state), each state))
  ]

  -- Let each request that is sent raise a count by at most one, and neither waiting nor a turn raise
  -- it. Then asking an upstream raises it at most by the attempts that the policy allows: one, and
  -- where retries are enabled as many more as there are retries.
  pub ask_upstream-le :
      (r : Retries p) (upstream : UpstreamClient p) (method path' : Text) (request : ClientRequest)
      (state : w.State)
      → Cost (ask_upstream p upstream method path' request state).0
        ≤ Cost state + attempts_of upstream.terms.retry_policy
  unfolding ask_upstream
  ask_upstream-le r upstream method path' request state = omega (
    arith,
    recovered-le (
        p.retry (retry_schedule p upstream.terms.retry_policy)
          (attempt p upstream method path' request) state),
    retry-le r upstream.terms.retry_policy (attempt p upstream method path' request) state
        (attempt-le upstream method path' request),
  )
