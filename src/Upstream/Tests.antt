-- ===== src/Upstream/Tests.antt =====
-- A service that answers 503 at first and 200 then, read over a store in memory.
use effect_golang_web.Common.{
  ℕ, zero, suc, ◌≤◌, ◌≡◌, refl, ap, ◌∙◌, Bool, true, false, Option, none, some, [], ◌∷◌, Text,
  codes, Lacks, text_eq_refl, Map, lookup, insert, lookup-insert, Result, ok, err, ok-injective,
  inl, inr, ltb, ◌==◌, if◌then◌else◌, Bool-cases, arith,
}
use effect_golang_web.Client.{
  ClientRequest, ClientResponse, Fault, Wire, Client, Effect, fetch, exchange, http_call,
  full_address, canonical_headers, with_media_type,
}
use effect_golang_web.Upstream.{
  Ports, CacheEntry, UpstreamClient, is_successful, is_retryable, is_enabled, ask_upstream, attempt,
  retry_schedule, recover_refusal, await_upstream_turn, fail_unsuccessful, cache_key, lookup_cache,
  response_from, HttpResponse, HttpRead, marshal_response, write_cache, read_once, reading,
  fetch_upstream,
}
use effect_golang_web.Upstream.Retrying.{
  IsLast, Attempts, last, repeated, Retries, ask_once, ask_upstream_lem,
}
use effect_golang_web.Upstream.Asking.{ask_upstream-le}
use effect_golang_web.Upstream.Keeping.{Steps, idle, key_of, fetch_upstream-Steps}
use effect_golang_web.Upstream.Replaying.{IsPlain, fetch_upstream-replay}
use effect_golang_web.Upstream.Keys.{cache_key-injective, query_text}

pub record Memory : Type 0 where
  pub store : Map Text
  pub count : ℕ

abbrev answer_at : ℕ → Text → ClientResponse
answer_at count text = record {
  status = if count == 0 then 503 else 200;
  header = [];
  entity = text;
}

abbrev pub memory_wire : Wire
memory_wire = record {
  State = Memory;
  Mistake = ℕ;
  Strategy = ℕ;
  Transport = ℕ;
  bad_call = λ method address. none;
  send = λ transport call state.
      (record state { count = suc state.count }, ok (answer_at state.count call.address));
  encode_query = λ query. codes "q=1";
}

abbrev after_run :
    (Fault ℕ → Bool)
    → Effect memory_wire ClientResponse
    → Memory × Result (Fault ℕ) ClientResponse
    → Memory × Result (Fault ℕ) ClientResponse
after_run again rest (state, ok response) = (state, ok response)
after_run again rest (state, err mistake) =
    if again mistake then rest state else (state, err mistake)

abbrev retrying :
    ℕ → (Fault ℕ → Bool) → Effect memory_wire ClientResponse → Effect memory_wire ClientResponse
retrying zero again effect state = effect state
retrying (suc n) again effect state = after_run again (retrying n again effect) (effect state)

abbrev read_back : Text → Option HttpRead
read_back [] = none
read_back (code' ∷ text) = some (record { code = code'; header = []; body = some text })

abbrev pub memory_ports : Ports memory_wire
memory_ports = record {
  Allowance = ℕ;
  is_stated = λ allowance. ltb 0 allowance;
  await_turn = λ allowance max_wait state. (state, ok tt);
  read = λ key state. (state, ok (lookup key state.store));
  write =
      λ entry state. (record state { store = insert entry.key entry.entity state.store }, ok tt);
  warn = λ op key mistake state. state;
  status_text = λ status. codes "OK";
  write_http = λ message. ok (message.code ∷ message.body);
  read_http = read_back;
  wait = λ delay state. state;
  Schedule = ℕ × (Fault ℕ → Bool);
  stop = (0, λ mistake. false);
  exponential = λ base max. (0, λ mistake. true);
  recurs = λ n. (n, λ mistake. true);
  intersect = λ first second. second;
  while_input = λ again schedule. (schedule.0, again);
  retry = λ schedule effect. retrying schedule.0 schedule.1 effect;
}

module _ (again : Fault ℕ → Bool) (effect : Effect memory_wire ClientResponse) where
  no_more : (result : Result (Fault ℕ) ClientResponse) → IsLast memory_ports again zero result
  no_more (ok response) = tt
  no_more (err mistake) = tt

  after_run-Attempts :
      (n : ℕ) (state : Memory) (outcome : Memory × Result (Fault ℕ) ClientResponse)
      → effect state ≡ outcome
      → ((failed : Memory)
          → Attempts memory_ports again effect n failed (retrying n again effect failed))
      → Attempts memory_ports again effect
          (suc n)
          state
          (after_run again (retrying n again effect) outcome)
  after_run-Attempts n state (failed, ok response) e rest = last e tt
  after_run-Attempts n state (failed, err mistake) e rest = elim (Bool-cases (again mistake)) [
    | inl worth ↦ rw worth (repeated 0 e worth (rest failed))
    | inr not_worth ↦ rw not_worth (last e not_worth)
  ]

  retrying-Attempts :
      (n : ℕ) (state : Memory)
      → Attempts memory_ports again effect n state (retrying n again effect state)
  retrying-Attempts zero state = last refl (no_more (effect state).1)
  retrying-Attempts (suc n) state =
      after_run-Attempts n state (effect state) refl (retrying-Attempts n)

pub memory_retries : Retries memory_ports
memory_retries = record {
  once = λ effect state. refl;
  again_while = λ again base max n effect state. retrying-Attempts again effect n state;
}

abbrev pub films : Client memory_wire
films = record { transport = some 1; address = codes "http://f"; strategy = none }

abbrev pub film_client : UpstreamClient memory_ports
film_client = record {
  client = films;
  terms = record {
    name = codes "films";
    allowance = 1;
    max_wait = 0;
    time_to_live = 60;
    retry_policy = record { base = 1; max = 8; retries = 2 };
  };
}

abbrev book_client : UpstreamClient memory_ports
book_client = record {
  client = films;
  terms = record {
    name = codes "films:a";
    allowance = 1;
    max_wait = 0;
    time_to_live = 60;
    retry_policy = record { base = 0; max = 0; retries = 0 };
  };
}

abbrev pub plain_request : ClientRequest
plain_request = record {
  path = [];
  query = [];
  header = [];
  entity = [];
  media_type = [];
  about = codes "a";
}

abbrev pub begin : Memory
begin = record { store = []; count = 0 }

abbrev film_path : Text
film_path = codes "/1"

-- Two services with different names, and one key.
shared_key :
    cache_key memory_ports film_client
      (codes "GET")
      film_path
      (record plain_request { about = codes "a:b" })
    ≡ cache_key memory_ports book_client
        (codes "GET")
        film_path
        (record plain_request { about = codes "b" })
unfolding cache_key
shared_key = refl

asked_twice :
    (ask_upstream memory_ports film_client (codes "GET") film_path plain_request begin).0.count ≡ 2
unfolding ask_upstream retry_schedule is_enabled attempt await_upstream_turn fetch exchange
    http_call full_address canonical_headers with_media_type fail_unsuccessful is_successful
    recover_refusal is_retryable
asked_twice = refl

ask_upstream-le_example :
    (ask_upstream memory_ports film_client (codes "GET") film_path plain_request begin).0.count ≤ 3
unfolding is_enabled
ask_upstream-le_example =
    ask_upstream-le memory_ports (λ state. state.count) (λ allowance max_wait state. omega arith)
      (λ delay state. omega arith) (λ transport call state. omega arith) memory_retries film_client
      (codes "GET") film_path plain_request begin

ask_upstream_lem_example :
    (before : Memory) × (ask_upstream memory_ports film_client
        (codes "GET")
        film_path
        plain_request
        begin
      ≡ ask_once memory_ports film_client (codes "GET") film_path plain_request before)
ask_upstream_lem_example =
    ask_upstream_lem memory_ports memory_retries film_client (codes "GET") film_path plain_request
      begin

fetch_upstream-Steps_example :
    Steps memory_ports film_client
      (codes "GET")
      film_path
      plain_request
      idle
      begin
      idle
      (fetch_upstream memory_ports none film_client (codes "GET") film_path plain_request begin).0
fetch_upstream-Steps_example =
    fetch_upstream-Steps memory_ports film_client (codes "GET") film_path plain_request
      memory_retries none begin

films_has_no_colon : Lacks b':' (codes "films")
films_has_no_colon = (omega arith, (omega arith, (omega arith, (omega arith, (omega arith, tt)))))

get_has_no_space : Lacks b' ' (codes "GET")
get_has_no_space = (omega arith, (omega arith, (omega arith, tt)))

film_path_is_plain : Lacks b'?' film_path
film_path_is_plain = (omega arith, (omega arith, tt))

cache_key-injective_example :
    (film_client.terms.name ≡ film_client.terms.name)
    × (codes "a" ≡ codes "a")
    × (codes "GET" ≡ codes "GET")
    × (film_path ≡ film_path)
    × (query_text memory_ports plain_request ≡ query_text memory_ports plain_request)
cache_key-injective_example =
    cache_key-injective memory_ports film_client film_client (codes "GET") film_path (codes "GET")
      film_path plain_request plain_request films_has_no_colon films_has_no_colon (omega arith, tt)
      (omega arith, tt) get_has_no_space get_has_no_space film_path_is_plain film_path_is_plain refl

memory_stores :
    (entry : CacheEntry) (state : Memory)
    → (after : Memory) × (memory_ports.write entry state ≡ (after, ok tt))
      × (memory_ports.read entry.key after ≡ (after, ok (some entry.entity)))
memory_stores entry state = (
  record state { store = insert entry.key entry.entity state.store },
  refl,
  ap (λ r. (record state { store = insert entry.key entry.entity state.store }, ok r))
      (lookup-insert entry.key entry.key entry.entity state.store
        ∙ rw (text_eq_refl entry.key) refl),
)

memory_reads_back :
    (message : HttpResponse) (text : Text)
    → memory_ports.write_http message ≡ ok text
    → IsPlain message
    → (got : HttpRead) × (memory_ports.read_http text ≡ some got)
      × (got.code ≡ message.code)
      × (got.body ≡ some message.body)
memory_reads_back message text h plain = (
  record { code = message.code; header = []; body = some message.body },
  rw⁻¹ (ok-injective {E = ℕ} h) refl,
  refl,
  refl,
)

abbrev awake : Memory
awake = record { store = []; count = 1 }

abbrev film : ClientResponse
film = record { status = 200; header = []; entity = codes "http://f/1" }

abbrev film_key : Text
unfolding cache_key
film_key = key_of memory_ports film_client (codes "GET") film_path plain_request

abbrev after_film : Memory
after_film = record { store = (codes "films:a:GET /1", 200 ∷ codes "http://f/1") ∷ []; count = 2 }

nothing_kept : response_from memory_ports (lookup_cache memory_ports film_key awake).1 ≡ none
unfolding film_key response_from lookup_cache lookup
nothing_kept = refl

film_fetched :
    fetch_upstream memory_ports none film_client (codes "GET") film_path plain_request awake
    ≡ (after_film, ok film)
unfolding fetch_upstream read_once reading write_cache lookup_cache response_from marshal_response
    cache_key lookup insert ask_upstream retry_schedule is_enabled attempt await_upstream_turn fetch
    exchange http_call full_address canonical_headers with_media_type fail_unsuccessful
    is_successful recover_refusal is_retryable
film_fetched = refl

answered_well : is_successful film ≡ true
unfolding is_successful
answered_well = refl

fetch_upstream-replay_example :
    (copy : ClientResponse) × (fetch_upstream memory_ports none film_client
        (codes "GET")
        film_path
        plain_request
        after_film
      ≡ (after_film, ok copy))
    × (copy.status ≡ 200)
    × (copy.entity ≡ codes "http://f/1")
unfolding film_key
fetch_upstream-replay_example =
    fetch_upstream-replay memory_ports film_client (codes "GET") film_path plain_request
      memory_stores memory_reads_back awake after_film film none nothing_kept film_fetched
      answered_well (inl (omega arith))
