-- ===== src/Client.antt =====
-- web/client.go and, of web/call.go, the refusals: a server is called over net/http's client.
-- Effects are functions of the state that the outside keeps; what an effect of the effect library is
-- built of (Gen, FlatMap, MapError, CatchAll) is sequencing of such functions.
use effect_golang_web.Common.{
  ℕ, ◌||◌, Option, none, some, List, [], ◌∷◌, ◌++◌, Text, Bytes, codes, cut_suffix, Map, insert,
  Result, ok, err, ◌>>=◌, map_err, leb, ◌==◌, if◌then◌else◌,
}
use effect_golang_web.Path.{is_empty}
use effect_golang_web.Http.Headers.{Header, canonical_key, set_header}
use effect_golang_web.Endpoint.{EndpointFault}
use effect_golang_web.Filling.{FillMistake}

pub record ClientRequest : Type 0 where
  pub path : Map Text
  pub query : Map (List Text)
  pub header : Header
  pub entity : Text
  pub media_type : Text
  pub about : Text

pub record ClientResponse : Type 0 where
  pub status : ℕ
  pub header : Header
  pub entity : Bytes

pub record Refusal : Type 0 where
  pub status : ℕ
  pub entity : Bytes
  pub header : Header

-- The kinds of package fault that a status has.
pub data RefusalKind : Type 0 where
  missing unavailable unacceptable : RefusalKind

unfoldable pub refusal_kind : Refusal → RefusalKind
refusal_kind refusal =
    if refusal.status == 404 || refusal.status == 410
    then missing
    else if refusal.status == 408 || refusal.status == 429 || leb 500 refusal.status
    then unavailable
    else unacceptable

-- The `Err` of a `Fault`; an `X` is an error of what stands outside. `nil_decoder` is the panic of a
-- call of nil.
pub data Reason (X : Type 0) : Type 0 where
  refused : Refusal → Reason X
  no_http_client nil_decoder : Reason X
  unfilled : FillMistake → Reason X
  outside : X → Reason X

-- A `Fault` with its `Op`, or the one that `ValidateEndpoint` returns.
pub data Fault (X : Type 0) : Type 0 where
  fault : Text → Reason X → Fault X
  uncallable : EndpointFault X → Fault X

-- What an http.Request is made of.
pub record HttpCall : Type 0 where
  pub method : Text
  pub address : Text
  pub header : Header
  pub entity : Text

-- net/http's client and net/url. `send` does the request and reads the body of the response;
-- `bad_call` is why NewRequestWithContext refuses a method and an address.
pub record Wire : Type 1 where
  pub State : Type 0
  pub Mistake : Type 0
  pub Strategy : Type 0
  pub Transport : Type 0
  pub bad_call : Text → Text → Option Mistake
  pub send : Transport → HttpCall → State → State × Result Mistake ClientResponse
  pub encode_query : Map (List Text) → Text

-- `request.Header` written into the header of the request, under canonical names.
unfoldable pub canonical_headers : Header → Header → Header
unfolding insert
canonical_headers [] into = into
canonical_headers ((name, values) ∷ header) into =
    canonical_headers header (insert (canonical_key name) values into)

unfoldable pub with_media_type : Header → Text → Header
unfolding set_header
with_media_type header media_type =
    if is_empty media_type then header else set_header header (codes "Content-Type") media_type

module _ (w : Wire) where
  open w use {State, Mistake, Strategy, Transport, bad_call, send, encode_query}

  -- A nil client is `none` in `transport`.
  pub record Client : Type 0 where
    pub transport : Option Transport
    pub address : Text
    pub strategy : Option Strategy

  -- An effect that fails with a `Fault`.
  abbrev pub Effect : Type 0 → Type 0
  Effect A = State → State × Result (Fault Mistake) A

  abbrev pub resumed :
      {A B : Type 0}
      → State × Result (Fault Mistake) A
      → (A → Effect B)
      → State × Result (Fault Mistake) B
  resumed (state, ok value) next = next value state
  resumed (state, err mistake) next = (state, err mistake)

  -- `FlatMap`, and `Await` in a `Gen`.
  abbrev pub flat_map : {A B : Type 0} → Effect A → (A → Effect B) → Effect B
  flat_map first next state = resumed (first state) next

  abbrev pub recovered :
      {A : Type 0}
      → State × Result (Fault Mistake) A
      → (Fault Mistake → Effect A)
      → State × Result (Fault Mistake) A
  recovered (state, ok value) handle = (state, ok value)
  recovered (state, err mistake) handle = handle mistake state

  -- `CatchAll`
  abbrev pub catch_all : {A : Type 0} → Effect A → (Fault Mistake → Effect A) → Effect A
  catch_all first handle state = recovered (first state) handle

  abbrev trimmed : Text → Option Text → Text
  trimmed address none = address
  trimmed address (some before) = before

  unfoldable pub dial : Option Transport → Text → Client
  unfolding cut_suffix
  dial transport' address' = record {
    transport = transport';
    address = trimmed address' (cut_suffix address' (codes "/"));
    strategy = none;
  }

  unfoldable pub client_with_naming : Client → Option Strategy → Client
  client_with_naming client strategy' = record client { strategy = strategy' }

  -- `encode` is EncodeJSON of the schema library with its options.
  unfoldable pub with_entity :
      {A : Type 0}
      → ClientRequest
      → (A → Result Mistake Text)
      → A
      → Result (Fault Mistake) ClientRequest
  with_entity request encode value =
      map_err (λ mistake. fault (codes "encode the request body") (outside mistake)) (encode value)
      >>= (λ document.
          ok (record request { entity = document; media_type = codes "application/json" }))

  unfoldable pub full_address : Client → Text → ClientRequest → Text
  full_address client path' request = elim request.query [
    | [] ↦ client.address ++ path'
    | _ ∷ _ ↦ (client.address ++ path') ++ (codes "?" ++ encode_query request.query)
  ]

  unfoldable pub http_call : Client → Text → Text → ClientRequest → HttpCall
  unfolding full_address canonical_headers with_media_type
  http_call client method' path' request = record {
    method = method';
    address = full_address client path' request;
    header = with_media_type (canonical_headers request.header []) request.media_type;
    entity = request.entity;
  }

  abbrev pub sent :
      State × Result Mistake ClientResponse → State × Result (Reason Mistake) ClientResponse
  sent (state, result) = (state, map_err (λ mistake. outside mistake) result)

  -- What follows on the two guards of `exchange`: a client, and a request that can be made.
  abbrev pub exchange_over :
      Option Transport
      → Option Mistake
      → HttpCall
      → State
      → State × Result (Reason Mistake) ClientResponse
  exchange_over none bad call state = (state, err no_http_client)
  exchange_over (some transport') (some mistake) call state = (state, err (outside mistake))
  exchange_over (some transport') none call state = sent (send transport' call state)

  unfoldable pub exchange :
      Client → Text → Text → ClientRequest → State → State × Result (Reason Mistake) ClientResponse
  unfolding http_call full_address
  exchange client method path' request state =
      exchange_over client.transport (bad_call method (full_address client path' request))
        (http_call client method path' request) state

  abbrev pub call_op : Text → Text
  call_op target = codes "call " ++ target

  abbrev pub failing :
      Text
      → State × Result (Reason Mistake) ClientResponse
      → State × Result (Fault Mistake) ClientResponse
  failing op (state, result) = (state, map_err (fault op) result)

  abbrev pub target_of : Text → Text → Text
  target_of method path' = method ++ (codes " " ++ path')

  unfoldable pub fetch : Client → Text → Text → ClientRequest → Effect ClientResponse
  unfolding exchange
  fetch client method path' request state =
      failing (call_op (target_of method path')) (exchange client method path' request state)
