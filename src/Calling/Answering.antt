-- ===== src/Calling/Answering.antt =====
-- web/call.go: what a server's endpoint encodes is what a client's call of it returns.
use effect_golang_web.Common.{
  ℕ, ◌≡◌, refl, sym, ap, subst, ◌∙◌, Option, none, some, [], Text, codes, Result, ok, map_err, inl,
  inr, Option-cases, >>=-eq-ok, ok-injective, some-injective, ==_iff,
}
use effect_golang_web.Http.{Response, bytes_response, Entity, no_entity, body, written_by}
use effect_golang_web.Codec.{Schema}
use effect_golang_web.Endpoint.{Endpoint, Output, validate_endpoint, returns, json_response}
use effect_golang_web.Filling.{fill_pattern}
use effect_golang_web.Client.{
  ClientRequest, ClientResponse, outside, fault, Wire, Client, fetch, target_of,
}
use effect_golang_web.Calling.{decode_response, call_endpoint}

-- The body that a response writes, where it is not a caller's function that writes it.
abbrev pub entity_text : {W : Type 0} → Entity W → Option Text
entity_text no_entity = some []
entity_text (body text) = some text
entity_text (written_by writer) = none

-- A call of an output's `encode`.
abbrev pub encode_with :
    {A X R Strategy : Type 0}
    → Option (A → Option Strategy → Result X R)
    → A
    → Option Strategy
    → Option (Result X R)
encode_with none value strategy = none
encode_with (some encode) value strategy = some (encode value strategy)

module _ {Shape Strategy X W A : Type 0} (itoa : ℕ → Text) (status : ℕ)
    (shape : Schema Shape Strategy X A) where
  -- The response is the value in JSON, as the schema writes it, with this status.
  pub record IsJson (value : A) (strategy : Option Strategy) (response : Response W) : Type 0 where
    pub entity : Text
    pub wrote : shape.encode_json strategy value ≡ ok entity
    pub status_is : response.status ≡ status
    pub entity_is : entity_text response.write ≡ some entity

  json_response-IsJson :
      (value : A) (strategy : Option Strategy) (response : Response W)
      → json_response itoa status shape value strategy ≡ ok response
      → IsJson value strategy response
  json_response-IsJson value strategy response h =
      let (text, wrote, same) =
        >>=-eq-ok (shape.encode_json strategy value)
          (λ text. ok (bytes_response itoa status (codes "application/json") text)) h in
      subst (IsJson value strategy) (ok-injective {E = X} same) (record {
        entity = text;
        wrote = wrote;
        status_is = unfold bytes_response in refl;
        entity_is = unfold bytes_response in refl;
      })

  -- Only an output whose schema has no mistake encodes, and what it encodes is JSON.
  pub returns-IsJson :
      (value : A) (strategy : Option Strategy) (response : Response W)
      → encode_with (returns {W = W} itoa status shape).encode value strategy ≡ some (ok response)
      → (shape.mistake ≡ none) × IsJson value strategy response
  unfolding returns
  returns-IsJson value strategy response h = elim (Option-cases shape.mistake) [
    | inr (mistake, bad) ↦ cc (rw bad at h)
    | inl sound ↦
        (sound, json_response-IsJson value strategy response (some-injective (rw sound at h)))
  ]

-- What a client receives of a response: its status and its body.
abbrev pub IsReceived : {W : Type 0} → Response W → ClientResponse → Type 0
IsReceived response arrived =
    (arrived.status ≡ response.status) × (entity_text response.write ≡ some arrived.entity)

module _ (w : Wire) {Shape W Out : Type 0} (itoa : ℕ → Text) (status : ℕ)
    (shape : Schema Shape w.Strategy w.Mistake Out)
    (law : (value : Out) (strategy : Option w.Strategy) (text : Text)
      → shape.encode_json strategy value ≡ ok text
      → shape.decode_json strategy text ≡ ok value) where
  decode_response-encode :
      (value : Out) (strategy : Option w.Strategy) (response : Response W)
      (arrived : ClientResponse) (target : Text) (state : w.State)
      → encode_with (returns {W = W} itoa status shape).encode value strategy ≡ some (ok response)
      → IsReceived response arrived
      → decode_response w (returns {W = W} itoa status shape) arrived target strategy state
        ≡ (state, ok value)
  unfolding decode_response returns
  decode_response-encode value strategy response arrived target state encodes (told, entity) =
      let (sound, json) = returns-IsJson itoa status shape value strategy response encodes in
      let received : json.entity ≡ arrived.entity = some-injective (sym json.entity_is ∙ entity) in
      rw (sound, (==_iff arrived.status status).1 (told ∙ json.status_is))
        (ap (λ r. (state, map_err (fault (codes "read the response body")) r))
          (ap (λ r. map_err (λ mistake. outside mistake) r)
            (ap (shape.decode_json strategy) (sym received)
              ∙ law value strategy json.entity json.wrote)))

  -- Let a usable endpoint return JSON by a schema that decodes what it encodes, its path be filled by
  -- what the caller supplies, and the request be answered with the status and the body of what the
  -- output of the endpoint encodes for a value, under the naming strategy of the client. Then the call
  -- returns that value.
  pub call_endpoint_lem :
      {In : Type 0} (client : Client w) (endpoint : Endpoint Shape w.Strategy w.Mistake W In Out)
      (request : ClientRequest) (path' : Text) (value : Out) (response : Response W)
      (arrived : ClientResponse) (state after : w.State)
      → endpoint.output ≡ returns itoa status shape
      → validate_endpoint endpoint ≡ none
      → fill_pattern endpoint.segments request.path ≡ ok path'
      → encode_with endpoint.output.encode value client.strategy ≡ some (ok response)
      → fetch w client endpoint.method path' request state ≡ (after, ok arrived)
      → IsReceived response arrived
      → call_endpoint w client endpoint request state ≡ (after, ok value)
  unfolding call_endpoint
  call_endpoint_lem client endpoint request path' value response arrived state after same usable
        filled encodes sent r =
      let read =
        decode_response-encode value client.strategy response arrived
          (target_of w endpoint.method path') after
          (subst
            (λ (o : Output Shape w.Strategy w.Mistake W Out).
              encode_with o.encode value client.strategy ≡ some (ok response))
            same encodes)
          r in
      rw (usable, filled, sent)
        (subst
          (λ (o : Output Shape w.Strategy w.Mistake W Out).
            decode_response w o arrived (target_of w endpoint.method path') client.strategy after
            ≡ (after, ok value))
          (sym same) read)
