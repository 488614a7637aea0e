-- ===== src/Calling.antt =====
-- web/call.go and `CallUpstream` of web/upstream_client.go: an endpoint is called by its declaration.
pub mod Answering
pub mod Tests
use effect_golang_web.Common.{
  ℕ, Bool, true, false, Option, none, some, [], Text, codes, Result, ok, err, map_err, ◌==◌,
  if◌then◌else◌,
}
use effect_golang_web.Endpoint.{EndpointFault, Endpoint, Output, validate_endpoint}
use effect_golang_web.Filling.{FillMistake, fill_pattern}
use effect_golang_web.Client.{
  ClientRequest, ClientResponse, Refusal, Reason, refused, outside, unfilled, nil_decoder, Fault,
  fault, uncallable, Wire, Client, Effect, flat_map, fetch, call_op, target_of,
}
use effect_golang_web.Upstream.{Ports, UpstreamClient, fetch_upstream}

module _ (w : Wire) {Out : Type 0} where
  open w use {State, Mistake, Strategy}

  abbrev pub decoded :
      Option (Text → Option Strategy → Result Mistake Out)
      → Text
      → Option Strategy
      → Result (Reason Mistake) Out
  decoded none entity strategy = err nil_decoder
  decoded (some decode) entity strategy =
      map_err (λ mistake. outside mistake) (decode entity strategy)

  -- What both calls do: the endpoint is checked, its path is filled, and the response is read that
  -- `read` gives for the path.
  abbrev pub called :
      Option (EndpointFault Mistake)
      → Result FillMistake Text
      → (Text → Effect w ClientResponse)
      → (Text → ClientResponse → Effect w Out)
      → Effect w Out
  called (some mistake) path' read decode state = (state, err (uncallable mistake))
  called none (err mistake) read decode state =
      (state, err (fault (codes "build the path") (unfilled mistake)))
  called none (ok path') read decode state = flat_map w (read path') (decode path') state

module _ (w : Wire) {Shape W Out : Type 0} where
  open w use {State, Mistake, Strategy}

  unfoldable pub decode_response :
      Output Shape Strategy Mistake W Out → ClientResponse → Text → Option Strategy → Effect w Out
  decode_response output response target strategy state =
      if response.status == output.status
      then (
        state,
        map_err (fault (codes "read the response body"))
            (decoded w output.decode response.entity strategy),
      )
      else (
        state,
        err (
            fault (call_op w target) (
              refused
                (record { status = response.status; entity = response.entity; header = [] }))),
      )

module _ (w : Wire) {Shape W In Out : Type 0} where
  open w use {State, Mistake, Strategy}

  unfoldable pub call_endpoint :
      Client w → Endpoint Shape Strategy Mistake W In Out → ClientRequest → Effect w Out
  unfolding validate_endpoint fill_pattern fetch decode_response
  call_endpoint client endpoint request =
      called w (validate_endpoint endpoint) (fill_pattern endpoint.segments request.path)
        (λ path'. fetch w client endpoint.method path' request)
        (λ path' response.
          decode_response w endpoint.output response (target_of w endpoint.method path')
            client.strategy)

  unfoldable pub call_upstream :
      (p : Ports w)
      → Option (Result (Fault Mistake) ClientResponse)
      → UpstreamClient p
      → Endpoint Shape Strategy Mistake W In Out
      → ClientRequest
      → Effect w Out
  unfolding validate_endpoint fill_pattern fetch_upstream decode_response
  call_upstream p joined upstream endpoint request =
      called w (validate_endpoint endpoint) (fill_pattern endpoint.segments request.path)
        (λ path'. fetch_upstream p joined upstream endpoint.method path' request)
        (λ path' response.
          decode_response w endpoint.output response (target_of w endpoint.method path')
            upstream.client.strategy)
