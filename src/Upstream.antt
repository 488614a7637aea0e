-- ===== src/Upstream.antt =====
-- web/upstream_client.go, web/upstream_cache.go and web/upstream_refusal.go: a service that this
-- program does not own is read under terms. What a caller does that joins a reading is in Inflight.
pub mod Retrying
pub mod Asking
pub mod Keeping
pub mod Replaying
pub mod Keys
pub mod Tests
use effect_golang_web.Common.{
  length, ℕ, Bool, true, false, ◌&&◌, ◌||◌, not, Option, none, some, List, [], ◌∷◌, ◌++◌, Text,
  Bytes, codes, join, Result, ok, err, map_err, ltb, leb, if◌then◌else◌,
}
use effect_golang_web.Path.{is_empty}
use effect_golang_web.Http.Headers.{Header}
use effect_golang_web.Client.{
  ClientRequest, ClientResponse, Refusal, Reason, refused, outside, no_http_client, Fault, fault,
  uncallable, Wire, Client, Effect, flat_map, catch_all, fetch, call_op, target_of,
}

-- Durations are numbers; one that is not positive is 0.
pub record RetryPolicy : Type 0 where
  pub base : ℕ
  pub max : ℕ
  pub retries : ℕ

pub record CacheEntry : Type 0 where
  pub key : Text
  pub about : Text
  pub entity : Bytes
  pub fresh : ℕ

-- What is set of an http.Response that is written, and what is used of one that is read; `body` is what
-- reading all of the body gives, or none where that fails.
pub record HttpResponse : Type 0 where
  pub status_line : Text
  pub code : ℕ
  pub proto : Text
  pub header : Header
  pub body : Bytes
  pub content_length : ℕ

pub record HttpRead : Type 0 where
  pub code : ℕ
  pub header : Header
  pub body : Option Bytes

-- The ports of the effect library (rate, cache, its log and its schedules), and net/http's text of a
-- status, and its writing and reading of a response. `read` gives the entity of a lookup that found one.
pub record Ports (w : Wire) : Type 1 where
  pub Allowance : Type 0
  pub is_stated : Allowance → Bool
  pub await_turn : Allowance → ℕ → w.State → w.State × Result w.Mistake (Unit {0})
  pub read : Text → w.State → w.State × Result w.Mistake (Option Text)
  pub write : CacheEntry → w.State → w.State × Result w.Mistake (Unit {0})
  pub warn : Text → Text → w.Mistake → w.State → w.State
  pub status_text : ℕ → Text
  pub write_http : HttpResponse → Result w.Mistake Bytes
  pub read_http : Bytes → Option HttpRead
  pub wait : ℕ → w.State → w.State
  pub Schedule : Type 0
  pub stop : Schedule
  pub exponential : ℕ → ℕ → Schedule
  pub recurs : ℕ → Schedule
  pub intersect : Schedule → Schedule → Schedule
  pub while_input : (Fault w.Mistake → Bool) → Schedule → Schedule
  pub retry : Schedule → Effect w ClientResponse → Effect w ClientResponse

unfoldable pub is_enabled : RetryPolicy → Bool
is_enabled policy = ltb 0 policy.retries && ltb 0 policy.base

unfoldable pub is_successful : ClientResponse → Bool
is_successful response = leb 200 response.status && ltb response.status 300

-- errors.As with a Refusal: what the reason of a fault is.
abbrev pub refusal_of : {X : Type 0} → Fault X → Option Refusal
refusal_of (fault op (refused refusal)) = some refusal
refusal_of (fault op _) = none
refusal_of (uncallable mistake) = none

abbrev worth_another : Option Refusal → Bool
worth_another none = true
worth_another (some refusal) = leb 500 refusal.status

unfoldable pub is_retryable : {X : Type 0} → Fault X → Bool
is_retryable mistake = worth_another (refusal_of mistake)

pub data UpstreamMistake : Type 0 where
  clientless unstated_terms : UpstreamMistake

module _ {w : Wire} (p : Ports w) where
  open w use {State, Mistake, encode_query}
  open p use {
    Allowance, is_stated, await_turn, read, write, warn, status_text, write_http, read_http,
    Schedule, stop, exponential, recurs, intersect, while_input, retry,
  }

  pub record UpstreamTerms : Type 0 where
    pub name : Text
    pub allowance : Allowance
    pub max_wait : ℕ
    pub time_to_live : ℕ
    pub retry_policy : RetryPolicy

  pub record UpstreamClient : Type 0 where
    pub client : Client w
    pub terms : UpstreamTerms

  unfoldable pub terms_are_stated : UpstreamTerms → Bool
  terms_are_stated terms =
      not (is_empty terms.name) && is_stated terms.allowance && ltb 0 terms.time_to_live

  -- A nil client is `none`, as is one whose http.Client is nil; whether there are a store and a
  -- limiter is told by the last two arguments.
  unfoldable pub new_upstream_client :
      Option (Client w) → UpstreamTerms → Bool → Bool → Result UpstreamMistake UpstreamClient
  unfolding terms_are_stated
  new_upstream_client none terms' has_store has_limiter = err clientless
  new_upstream_client (some client') terms' has_store has_limiter = elim client'.transport [
    | none ↦ err clientless
    | some transport' ↦
        if not (terms_are_stated terms')
        then err unstated_terms
        else if not has_store || not has_limiter
        then err unstated_terms
        else ok (record { client = client'; terms = terms' })
  ]

  unfoldable pub question_of : Text → Text → ClientRequest → Text
  question_of method path' request = elim request.query [
    | [] ↦ target_of w method path'
    | _ ∷ _ ↦ target_of w method path' ++ (codes "?" ++ encode_query request.query)
  ]

  unfoldable pub cache_key : UpstreamClient → Text → Text → ClientRequest → Text
  unfolding join question_of
  cache_key upstream method path' request =
      join (upstream.terms.name ∷ request.about ∷ question_of method path' request ∷ []) (codes ":")

  unfoldable pub fail_unsuccessful : Text → ClientResponse → Effect w ClientResponse
  unfolding is_successful
  fail_unsuccessful target response state =
      if is_successful response then (state, ok response) else (
        state,
        err (
            fault (call_op w target) (
              refused (record {
                status = response.status;
                entity = response.entity;
                header = response.header;
              }))),
      )

  abbrev handed_back : Fault Mistake → Option Refusal → Result (Fault Mistake) ClientResponse
  handed_back mistake none = err mistake
  handed_back mistake (some refusal) =
      ok (record { status = refusal.status; header = refusal.header; entity = refusal.entity })

  unfoldable pub recover_refusal : Fault Mistake → Effect w ClientResponse
  recover_refusal mistake state = (state, handed_back mistake (refusal_of mistake))

  unfoldable pub retry_schedule : RetryPolicy → Schedule
  unfolding is_enabled is_retryable
  retry_schedule policy =
      if is_enabled policy
      then while_input is_retryable
          (intersect (exponential policy.base policy.max) (recurs policy.retries))
      else stop

  abbrev pub turned :
      Text → State × Result Mistake (Unit {0}) → State × Result (Fault Mistake) (Unit {0})
  turned name (state, result) = (
    state,
    map_err (λ mistake. fault (codes "wait for a turn at " ++ name) (outside mistake)) result,
  )

  unfoldable pub await_upstream_turn : UpstreamClient → Effect w (Unit {0})
  await_upstream_turn upstream state =
      turned upstream.terms.name (await_turn upstream.terms.allowance upstream.terms.max_wait state)

  -- One attempt: a turn, the exchange, and the failure that a status is while a retry runs.
  unfoldable pub attempt : UpstreamClient → Text → Text → ClientRequest → Effect w ClientResponse
  unfolding await_upstream_turn fetch fail_unsuccessful
  attempt upstream method path' request = flat_map w (await_upstream_turn upstream) (λ turn.
      flat_map w (fetch w upstream.client method path' request)
        (fail_unsuccessful (target_of w method path')))

  unfoldable pub ask_upstream :
      UpstreamClient → Text → Text → ClientRequest → Effect w ClientResponse
  unfolding attempt retry_schedule recover_refusal
  ask_upstream upstream method path' request =
      catch_all w
        (retry (retry_schedule upstream.terms.retry_policy) (attempt upstream method path' request))
        recover_refusal

  abbrev pub found_or_warned : Text → State × Result Mistake (Option Text) → State × Option Text
  found_or_warned key (state, ok lookup) = (state, lookup)
  found_or_warned key (state, err mistake) = (warn (codes "read") key mistake state, none)

  -- A store that cannot be read has nothing kept.
  unfoldable pub lookup_cache : Text → State → State × Option Text
  lookup_cache key state = found_or_warned key (read key state)

  abbrev pub http_response_of : ClientResponse → HttpResponse
  http_response_of response = record {
    status_line = status_text response.status;
    code = response.status;
    proto = codes "HTTP/1.1";
    header = response.header;
    body = response.entity;
    content_length = length response.entity;
  }

  unfoldable pub marshal_response : ClientResponse → Result Mistake Text
  marshal_response response = write_http (http_response_of response)

  abbrev pub response_of : Option HttpRead → Option ClientResponse
  response_of none = none
  response_of (some got) = elim got.body [
    | none ↦ none
    | some entity' ↦ some (record { status = got.code; header = got.header; entity = entity' })
  ]

  unfoldable pub response_from : Option Text → Option ClientResponse
  response_from none = none
  response_from (some entity) = response_of (read_http entity)

  abbrev pub kept_or_warned :
      Text
      → ClientResponse
      → State × Result Mistake (Unit {0})
      → State × Result (Fault Mistake) ClientResponse
  kept_or_warned key response (state, ok done) = (state, ok response)
  kept_or_warned key response (state, err mistake) =
      (warn (codes "write") key mistake state, ok response)

  abbrev pub keep :
      UpstreamClient → Text → Text → ClientResponse → Result Mistake Text → Effect w ClientResponse
  keep upstream key' about' response (err mistake) state =
      (state, err (fault (codes "keep the answer") (outside mistake)))
  keep upstream key' about' response (ok entity') state = kept_or_warned key' response (
      write
        (record {
          key = key';
          about = about';
          entity = entity';
          fresh = upstream.terms.time_to_live;
        })
        state)

  unfoldable pub write_cache :
      UpstreamClient → Text → Text → ClientResponse → Effect w ClientResponse
  unfolding is_successful marshal_response
  write_cache upstream key' about' response state =
      if is_successful response
      then keep upstream key' about' response (marshal_response response) state
      else (state, ok response)

  -- `joined` is the exit of a reading of the same key that is under way, or none: then this caller's
  -- reading is the one.
  unfoldable pub read_once :
      Option (Result (Fault Mistake) ClientResponse)
      → Effect w ClientResponse
      → Effect w ClientResponse
  read_once (some exit) ask state = (state, exit)
  read_once none ask state = ask state

  -- The reading: the service is asked, and its answer kept.
  unfoldable pub reading : UpstreamClient → Text → Text → ClientRequest → Effect w ClientResponse
  unfolding ask_upstream write_cache cache_key
  reading upstream method path' request =
      flat_map w (ask_upstream upstream method path' request)
        (write_cache upstream (cache_key upstream method path' request) request.about)

  abbrev pub replayed :
      Option (Result (Fault Mistake) ClientResponse)
      → Effect w ClientResponse
      → State
      → Option ClientResponse
      → State × Result (Fault Mistake) ClientResponse
  replayed joined ask state (some response) = (state, ok response)
  replayed joined ask state none = read_once joined ask state

  abbrev pub replay :
      Option (Result (Fault Mistake) ClientResponse)
      → Effect w ClientResponse
      → State × Option Text
      → State × Result (Fault Mistake) ClientResponse
  unfolding response_from
  replay joined ask (state, lookup) = replayed joined ask state (response_from lookup)

  unfoldable pub fetch_upstream :
      Option (Result (Fault Mistake) ClientResponse)
      → UpstreamClient
      → Text
      → Text
      → ClientRequest
      → Effect w ClientResponse
  unfolding replay lookup_cache read_once reading cache_key
  fetch_upstream joined upstream method path' request state =
      replay joined (reading upstream method path' request)
        (lookup_cache (cache_key upstream method path' request) state)
