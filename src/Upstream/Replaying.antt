-- ===== src/Upstream/Replaying.antt =====
-- web/upstream_cache.go: an answer that was kept is what the next caller is given.
use effect_golang_web.Common.{
  ◌≢◌, ◌⊎◌, ◌≤◌, ◌<◌, [], length, arith, ◌≡◌, refl, sym, ap, ◌∙◌, subst, true, Option, none, some,
  Text, Result, ok, err, inl, inr, ok-injective, Bool-cases,
}
use effect_golang_web.Client.{ClientRequest, ClientResponse, Fault, Wire, resumed}
use effect_golang_web.Upstream.{
  HttpResponse, HttpRead, http_response_of, marshal_response, Ports, CacheEntry, UpstreamClient,
  is_successful, ask_upstream, cache_key, lookup_cache, read_once, reading, write_cache,
  fetch_upstream, response_from, kept_or_warned, keep, replay, found_or_warned,
}
use effect_golang_web.Upstream.Retrying.{Outcome}
use effect_golang_web.Upstream.Keeping.{key_of, entry_of}

-- A message with a status that is no interim one and has its body in the message, and whose length is
-- that of its body.
abbrev pub IsPlain : HttpResponse → Type 0
IsPlain message =
    (200 ≤ message.code)
    × (message.code ≢ 304)
    × ((message.code ≢ 204) ⊎ (message.body ≡ []))
    × (message.content_length ≡ length message.body)

module _ {w : Wire} (p : Ports w) (upstream : UpstreamClient p) (method path' : Text)
    (request : ClientRequest)
    (stores : (entry : CacheEntry) (state : w.State)
      → (after : w.State) × (p.write entry state ≡ (after, ok tt))
        × (p.read entry.key after ≡ (after, ok (some entry.entity))))
    (reads_back : (message : HttpResponse) (text : Text)
      → p.write_http message ≡ ok text
      → IsPlain message
      → (got : HttpRead) × (p.read_http text ≡ some got)
        × (got.code ≡ message.code)
        × (got.body ≡ some message.body)) where
  abbrev Kept : w.State → ClientResponse → Type 0
  Kept state response =
      (entity : Text) × (marshal_response p response ≡ ok entity)
      × (p.read (key_of p upstream method path' request) state ≡ (state, ok (some entity)))

  keep-Kept :
      (found : ClientResponse) (entity : Result w.Mistake Text) (before after : w.State)
      (response : ClientResponse)
      → marshal_response p found ≡ entity
      → keep p upstream (key_of p upstream method path' request) request.about found entity before
        ≡ (after, ok response)
      → Kept after response
  keep-Kept found (err mistake) before after response e h = cc
  keep-Kept found (ok entity) before after response e h =
      let (stored, wrote, read) = stores (entry_of p upstream method path' request entity) before in
      let same : ◌≡◌ {A = Outcome p} (stored, ok found) (after, ok response) =
        ap (kept_or_warned p (key_of p upstream method path' request) found) (sym wrote) ∙ h in
      (
        entity,
        subst (λ r. marshal_response p r ≡ ok entity)
            (ok-injective {E = Fault w.Mistake} (ap (λ o. o.1) same)) e,
        subst (λ s. p.read (key_of p upstream method path' request) s ≡ (s, ok (some entity)))
            (ap (λ o. o.0) same) read,
      )

  write_cache-Kept :
      (outcome : Outcome p) (after : w.State) (response : ClientResponse)
      → resumed w outcome
          (write_cache p upstream (key_of p upstream method path' request) request.about)
        ≡ (after, ok response)
      → is_successful response ≡ true
      → Kept after response
  unfolding write_cache
  write_cache-Kept (before, err mistake) after response h s = cc
  write_cache-Kept (before, ok found) after response h s = elim (Bool-cases (is_successful found)) [
    | inl successful ↦
        keep-Kept found (marshal_response p found) before after response refl (rw successful at h)
    | inr unsuccessful ↦
        let same = ok-injective {E = Fault w.Mistake} (ap (λ o. o.1) (rw unsuccessful at h)) in cc
  ]

  missed-Kept :
      (looked : w.State × Option Text) (after : w.State) (response : ClientResponse)
      → response_from p looked.1 ≡ none
      → replay p none (reading p upstream method path' request) looked ≡ (after, ok response)
      → is_successful response ≡ true
      → Kept after response
  unfolding replay read_once reading cache_key
  missed-Kept (before, lookup) after response miss h s =
      write_cache-Kept (ask_upstream p upstream method path' request before) after response
        (rw miss at h) s

  replays :
      (response : ClientResponse) (entity : Text)
      → marshal_response p response ≡ ok entity
      → is_successful response ≡ true
      → (response.status ≢ 204) ⊎ (response.entity ≡ [])
      → (copy : ClientResponse) × (response_from p (some entity) ≡ some copy)
        × (copy.status ≡ response.status)
        × (copy.entity ≡ response.entity)
  unfolding marshal_response response_from is_successful
  replays response entity wrote successful plain =
      let low : 200 ≤ response.status = ground arith in
      let high : response.status < 300 = ground arith in
      let (got, back, code, body') =
        reads_back (http_response_of p response) entity wrote
          (low, (λ e. omega (arith, e, high)), plain, refl) in
      (
        record { status = got.code; header = got.header; entity = response.entity },
        rw (back, body') refl,
        code,
        refl,
      )

  -- Let the store find an entry that was written, and net/http read back of a message that it wrote
  -- the status and the body. Then a successful answer that a caller got from the service, where the
  -- store had none, is given to the next caller with its status and entity, from the store: nothing is
  -- sent, also if another reading is under way. An answer of status 204 is taken to have no entity.
  pub fetch_upstream-replay :
      (state after : w.State) (response : ClientResponse)
      (joined : Option (Result (Fault w.Mistake) ClientResponse))
      → response_from p (lookup_cache p (key_of p upstream method path' request) state).1 ≡ none
      → fetch_upstream p none upstream method path' request state ≡ (after, ok response)
      → is_successful response ≡ true
      → (response.status ≢ 204) ⊎ (response.entity ≡ [])
      → (copy : ClientResponse) × (fetch_upstream p joined upstream method path' request after
          ≡ (after, ok copy))
        × (copy.status ≡ response.status)
        × (copy.entity ≡ response.entity)
  unfolding fetch_upstream lookup_cache replay cache_key
  fetch_upstream-replay state after response joined miss h s plain =
      let (entity, wrote, read) =
        missed-Kept (lookup_cache p (key_of p upstream method path' request) state) after response
          miss h s in
      let (copy, back, status, body) = replays response entity wrote s plain in
      (
        copy,
        ap
              (λ r.
                replay p joined (reading p upstream method path' request)
                  (found_or_warned p (key_of p upstream method path' request) r))
              read
            ∙ rw back refl,
        status,
        body,
      )
