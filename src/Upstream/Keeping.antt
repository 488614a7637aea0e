-- ===== src/Upstream/Keeping.antt =====
-- web/upstream_client.go and web/upstream_cache.go: what reading an upstream does to the outside, as
-- steps, and what becomes of an answer that was kept.
use effect_golang_web.Common.{
  ℕ, ◌≡◌, refl, sym, subst, Bool, true, Option, none, some, Text, codes, Result, ok, err, inl, inr,
  Bool-cases,
}
use effect_golang_web.Client.{
  ClientRequest, ClientResponse, Fault, Wire, flat_map, resumed, recovered, fetch, exchange,
  target_of, call_op, failing, exchange_over, full_address, http_call,
}
use effect_golang_web.Upstream.{
  Ports, RetryPolicy, CacheEntry, UpstreamClient, is_enabled, is_retryable, is_successful,
  retry_schedule, recover_refusal, fail_unsuccessful, await_upstream_turn, attempt, ask_upstream,
  turned, cache_key, lookup_cache, read_once, reading, write_cache, fetch_upstream, response_from,
  marshal_response, kept_or_warned, keep, replayed, replay, found_or_warned,
}
use effect_golang_web.Upstream.Retrying.{Outcome, Attempts, last, repeated, Retries}

pub data Phase : Type 0 where
  idle has_turn : Phase

module _ {w : Wire} (p : Ports w) (upstream : UpstreamClient p) (method path' : Text)
    (request : ClientRequest) where
  open w use {State, Mistake, send}
  open p use {await_turn, read, write, warn, wait}

  abbrev pub key_of : Text
  unfolding cache_key
  key_of = cache_key p upstream method path' request

  abbrev pub entry_of : Text → CacheEntry
  entry_of entity' = record {
    key = key_of;
    about = request.about;
    entity = entity';
    fresh = upstream.terms.time_to_live;
  }

  -- One use of a port while this request is read. A turn that was given is for one exchange of this
  -- request, and only a successful response is written to the store, under the key of the request.
  pub data Step : Phase → State → Phase → State → Type 0 where
    turn_given :
        {before after : State}
        → await_turn upstream.terms.allowance upstream.terms.max_wait before ≡ (after, ok tt)
        → Step idle before has_turn after
    turn_refused :
        {before after : State} {mistake : Mistake}
        → await_turn upstream.terms.allowance upstream.terms.max_wait before ≡ (after, err mistake)
        → Step idle before idle after
    exchanged :
        {before : State} {transport : w.Transport}
        → upstream.client.transport ≡ some transport
        → Step has_turn before idle
            (send transport (http_call w upstream.client method path' request) before).0
    unsent : {before : State} → Step has_turn before idle before
    waited : {before : State} (delay : ℕ) → Step idle before idle (wait delay before)
    looked_up : {before : State} → Step idle before idle (read key_of before).0
    warned :
        {before : State} {op : Text} {mistake : Mistake}
        → Step idle before idle (warn op key_of mistake before)
    kept :
        {before : State} (response : ClientResponse) {entity : Text}
        → is_successful response ≡ true
        → marshal_response p response ≡ ok entity
        → Step idle before idle (write (entry_of entity) before).0

  pub data Steps : Phase → State → Phase → State → Type 0 where
    done : {phase : Phase} {state : State} → Steps phase state phase state
    then_steps :
        {first second third : Phase} {before between after : State}
        → Step first before second between
        → Steps second between third after
        → Steps first before third after

  Steps-trans :
      {first second third : Phase} {before between after : State}
      → Steps first before second between
      → Steps second between third after
      → Steps first before third after
  Steps-trans done rest = rest
  Steps-trans (then_steps step steps) rest = then_steps step (Steps-trans steps rest)

  one_step :
      {first second : Phase} {before after : State}
      → Step first before second after
      → Steps first before second after
  one_step step = then_steps step done

  sent-Steps :
      (op : Text) (transport : Option w.Transport) (bad : Option Mistake) (state : State)
      → upstream.client.transport ≡ transport
      → Steps has_turn state idle
          (failing w op (
            exchange_over w transport bad
              (http_call w upstream.client method path' request)
              state)).0
  sent-Steps op none bad state e = one_step unsent
  sent-Steps op (some transport) (some mistake) state e = one_step unsent
  sent-Steps op (some transport) none state e = one_step (exchanged e)

  fetch-Steps :
      (state : State)
      → Steps has_turn state idle (fetch w upstream.client method path' request state).0
  unfolding fetch exchange
  fetch-Steps state =
      sent-Steps (call_op w (target_of w method path')) upstream.client.transport
        (w.bad_call method (full_address w upstream.client path' request)) state refl

  fail_unsuccessful-same :
      (target : Text) (outcome : Outcome p)
      → (resumed w outcome (fail_unsuccessful p target)).0 ≡ outcome.0
  unfolding fail_unsuccessful
  fail_unsuccessful-same target (state, ok response) = elim (Bool-cases (is_successful response)) [
    | inl successful ↦ rw successful refl
    | inr unsuccessful ↦ rw unsuccessful refl
  ]
  fail_unsuccessful-same target (state, err mistake) = refl

  turned-Steps :
      (state : State) (turn : State × Result Mistake (Unit {0}))
      → await_turn upstream.terms.allowance upstream.terms.max_wait state ≡ turn
      → Steps idle state idle
          (resumed w (turned p upstream.terms.name turn) (λ given.
            flat_map w
              (fetch w upstream.client method path' request)
              (fail_unsuccessful p (target_of w method path')))).0
  turned-Steps state (after, ok given) e = then_steps (turn_given e) (
      subst (Steps has_turn after idle)
        (sym (
          fail_unsuccessful-same (target_of w method path')
            (fetch w upstream.client method path' request after)))
        (fetch-Steps after))
  turned-Steps state (after, err mistake) e = one_step (turn_refused e)

  attempt-Steps :
      (state : State) → Steps idle state idle (attempt p upstream method path' request state).0
  unfolding attempt await_upstream_turn
  attempt-Steps state =
      turned-Steps state (await_turn upstream.terms.allowance upstream.terms.max_wait state) refl

  attempts-Steps :
      {again : Fault Mistake → Bool} {n : ℕ} {state : State} {outcome : Outcome p}
      → Attempts p again (attempt p upstream method path' request) n state outcome
      → Steps idle state idle outcome.0
  attempts-Steps {state = state} (last ended is_last) =
      subst (λ o. Steps idle state idle o.0) ended (attempt-Steps state)
  attempts-Steps {state = state} (repeated {failed = failed} delay went worth rest) =
      Steps-trans (subst (λ o. Steps idle state idle o.0) went (attempt-Steps state))
        (then_steps (waited delay) (attempts-Steps rest))

  retry-Steps :
      (r : Retries p) (policy : RetryPolicy) (state : State)
      → Steps idle state idle
          (p.retry (retry_schedule p policy) (attempt p upstream method path' request) state).0
  unfolding retry_schedule
  retry-Steps r policy state = elim (Bool-cases (is_enabled policy)) [
    | inl enabled ↦ rw enabled (
        attempts-Steps (
          r.again_while is_retryable policy.base policy.max policy.retries
            (attempt p upstream method path' request) state))
    | inr disabled ↦ rw disabled (
        subst (λ o. Steps idle state idle o.0)
          (sym (r.once (attempt p upstream method path' request) state)) (attempt-Steps state))
  ]

  recover-same : (outcome : Outcome p) → (recovered w outcome (recover_refusal p)).0 ≡ outcome.0
  unfolding recover_refusal
  recover-same (state, ok response) = refl
  recover-same (state, err mistake) = refl

  ask-Steps :
      (r : Retries p) (state : State)
      → Steps idle state idle (ask_upstream p upstream method path' request state).0
  unfolding ask_upstream
  ask-Steps r state =
      subst (Steps idle state idle)
        (sym (
          recover-same (
            p.retry (retry_schedule p upstream.terms.retry_policy)
              (attempt p upstream method path' request) state)))
        (retry-Steps r upstream.terms.retry_policy state)

  kept-Steps :
      (response : ClientResponse) (entity : Text) (state : State)
      (result : State × Result Mistake (Unit {0}))
      → is_successful response ≡ true
      → marshal_response p response ≡ ok entity
      → write (entry_of entity) state ≡ result
      → Steps idle state idle (kept_or_warned p key_of response result).0
  kept-Steps response entity state (after, ok given) s e h =
      subst (λ o. Steps idle state idle o.0) h (one_step (kept response s e))
  kept-Steps response entity state (after, err mistake) s e h =
      then_steps (subst (λ o. Step idle state idle o.0) h (kept response s e)) (one_step warned)

  keep-Steps :
      (response : ClientResponse) (entity : Result Mistake Text) (state : State)
      → is_successful response ≡ true
      → marshal_response p response ≡ entity
      → Steps idle state idle (keep p upstream key_of request.about response entity state).0
  keep-Steps response (ok entity) state s e =
      kept-Steps response entity state (write (entry_of entity) state) s e refl
  keep-Steps response (err mistake) state s e = done

  asked-Steps :
      (state : State) (outcome : Outcome p)
      → Steps idle state idle outcome.0
      → Steps idle state idle (resumed w outcome (write_cache p upstream key_of request.about)).0
  unfolding write_cache
  asked-Steps state (after, ok response) steps = elim (Bool-cases (is_successful response)) [
    | inl successful ↦ rw successful (
        Steps-trans steps (keep-Steps response (marshal_response p response) after successful refl))
    | inr unsuccessful ↦ rw unsuccessful steps
  ]
  asked-Steps state (after, err mistake) steps = steps

  joined-Steps :
      (r : Retries p) (joined : Option (Result (Fault Mistake) ClientResponse)) (state : State)
      → Steps idle state idle (read_once p joined (reading p upstream method path' request) state).0
  unfolding read_once reading cache_key
  joined-Steps r none state =
      asked-Steps state (ask_upstream p upstream method path' request state) (ask-Steps r state)
  joined-Steps r (some exit) state = done

  replayed-Steps :
      (r : Retries p) (joined : Option (Result (Fault Mistake) ClientResponse)) (state : State)
      (answer : Option ClientResponse)
      → Steps idle state idle
          (replayed p joined (reading p upstream method path' request) state answer).0
  replayed-Steps r joined state none = joined-Steps r joined state
  replayed-Steps r joined state (some response) = done

  looked-Steps :
      (r : Retries p) (joined : Option (Result (Fault Mistake) ClientResponse)) (state : State)
      (result : State × Result Mistake (Option Text))
      → read key_of state ≡ result
      → Steps idle state idle
          (replay p joined
            (reading p upstream method path' request)
            (found_or_warned p key_of result)).0
  unfolding replay
  looked-Steps r joined state (after, ok lookup) e =
      then_steps (subst (λ o. Step idle state idle o.0) e looked_up)
        (replayed-Steps r joined after (response_from p lookup))
  looked-Steps r joined state (after, err mistake) e =
      then_steps (subst (λ o. Step idle state idle o.0) e looked_up) (
        then_steps warned (
          replayed-Steps r joined (warn (codes "read") key_of mistake after)
            (response_from p none)))

  -- Reading an upstream, whether it joins a reading under way or leads one, does to the outside only a
  -- sequence of steps: lookups under the key of the request, waits, warnings, turns, exchanges of the
  -- request, each after a turn of its own that was given, and writes of successful responses to the
  -- store under that key.
  pub fetch_upstream-Steps :
      (r : Retries p) (joined : Option (Result (Fault Mistake) ClientResponse)) (state : State)
      → Steps idle state idle (fetch_upstream p joined upstream method path' request state).0
  unfolding fetch_upstream lookup_cache replay cache_key
  fetch_upstream-Steps r joined state = looked-Steps r joined state (read key_of state) refl
