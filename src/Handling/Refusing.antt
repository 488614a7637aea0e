-- ===== src/Handling/Refusing.antt =====
-- web/route.go: a request that the codec refuses, and the answer to one that it reads.
use effect_golang_web.Common.{
  ℕ, Text, subst, ◌≡◌, refl, sym, ap, ◌∙◌, Option, some, Result, ok, err, ok-injective, ok-ne-err,
  inl, inr, Bool-cases, Option-cases, if◌then◌else◌,
}
use effect_golang_web.Http.{Response, Request, with_naming}
use effect_golang_web.Codec.{CodecFault, decode_with}
use effect_golang_web.Codec.{Schema}
use effect_golang_web.Endpoint.{Output, returns, Endpoint, declaration}
use effect_golang_web.Routes.{Phases, is_quiet, Reject}
use effect_golang_web.Handling.{
  Program, Effect, PhaseSampler, world_of, resumed, flat_map, instrument_phase, unread_request,
  encode_output, encoded, after_decoding, plain, phase_handler, build_of, no_phases,
}
use effect_golang_web.Handling.Phasing.{AreHidden, instrument_phase-AreAlike}
use effect_golang_web.Calling.Answering.{IsJson, returns-IsJson, encode_with}

module _ (p : Program) where
  -- What the model says of a span where nothing of the state is seen: it answers as its effect does.
  abbrev pub seen_nothing : p.State → Unit {0}
  seen_nothing state = tt

  -- A span answers as its effect does from some state.
  abbrev pub AnswersAlike : Type 1
  AnswersAlike = AreHidden p seen_nothing

module _ (p : Program) {In Out : Type 0}
    (endpoint : Endpoint p.Shape p.Strategy p.Mistake p.Writer In Out) where
  abbrev refusal_by :
      Reject (world_of p)
      → CodecFault p.Mistake
      → p.State
      → p.State × Result p.Cause (Response p.Writer)
  refusal_by reject mistake state = (
    p.warn (declaration endpoint).method (declaration endpoint).path mistake state,
    ok (reject (unread_request mistake)),
  )

  resumed-refused :
      (reject : Reject (world_of p)) (next : In → Effect p (Response p.Writer))
      (read : p.State × Result p.Cause (Result (CodecFault p.Mistake) In))
      (mistake : CodecFault p.Mistake)
      → read.1 ≡ ok (err mistake)
      → resumed p read (after_decoding p (declaration endpoint) reject next)
        ≡ refusal_by reject mistake read.0
  resumed-refused reject next (state, ok result) mistake e =
      ap (λ r. after_decoding p (declaration endpoint) reject next r state)
        (ok-injective {E = p.Cause} e)
  resumed-refused reject next (state, err cause) mistake e = absurd (ok-ne-err (sym e))

  -- The state in which a refusal is noted.
  abbrev noted_in : Phases (PhaseSampler p) → Result (CodecFault p.Mistake) In → p.State → p.State
  unfolding instrument_phase
  noted_in phases read state =
      if is_quiet phases
      then state
      else (instrument_phase p (λ s. (s, ok read)) phases.decode_span phases.sampler state).0

  build_of-refused :
      (spans : AnswersAlike p) (handle : In → Effect p Out) (reject : Reject (world_of p))
      (phases : Phases (PhaseSampler p)) (strategy : Option p.Strategy)
      (request : Request p.Strategy) (mistake : CodecFault p.Mistake) (state : p.State)
      → decode_with endpoint.input (with_naming request strategy) ≡ err mistake
      → build_of p endpoint handle reject phases strategy request state
        ≡ refusal_by reject mistake
            (noted_in phases (decode_with endpoint.input (with_naming request strategy)) state)
  unfolding build_of plain phase_handler noted_in
  build_of-refused spans handle reject phases strategy request mistake state e =
      elim (Bool-cases (is_quiet phases)) [
        | inl quiet ↦ rw (quiet, e) refl
        | inr loud ↦
            let read = decode_with endpoint.input (with_naming request strategy) in
            rw loud (
              resumed-refused reject
                (λ input.
                  flat_map p (instrument_phase p (handle input) phases.handle_span phases.sampler)
                    (λ value.
                      instrument_phase p (encode_output p endpoint.output strategy value)
                        phases.encode_span phases.sampler))
                (instrument_phase p (λ s. (s, ok read)) phases.decode_span phases.sampler state)
                mistake
                ((instrument_phase-AreAlike p (seen_nothing p) spans (λ s. (s, ok read))
                    (λ s. (s, ok read)) phases.decode_span phases.sampler (λ s t seen. (refl, refl))
                    (λ each given name s. (refl, λ end other same. refl)) state state refl).1
                  ∙ ap (λ r. ok r) e))
      ]

  -- A request that the codec refuses never reaches the handler: whatever the phases, the answer is
  -- the rejection of the refusal, no failure of the application, and another handler would have left
  -- the same state and answer. A span is taken to answer as its effect does from some state.
  pub refused_lem :
      (spans : AnswersAlike p) (handle other : In → Effect p Out) (reject : Reject (world_of p))
      (phases : Phases (PhaseSampler p)) (strategy : Option p.Strategy)
      (request : Request p.Strategy) (mistake : CodecFault p.Mistake) (state : p.State)
      → decode_with endpoint.input (with_naming request strategy) ≡ err mistake
      → ((build_of p endpoint handle reject phases strategy request state).1
          ≡ ok (reject (unread_request mistake)))
        × (build_of p endpoint handle reject phases strategy request state
            ≡ build_of p endpoint other reject phases strategy request state)
  refused_lem spans handle other reject phases strategy request mistake state e =
      let first = build_of-refused spans handle reject phases strategy request mistake state e in
      let second = build_of-refused spans other reject phases strategy request mistake state e in
      (ap (λ o. o.1) first, first ∙ sym second)

  encoded-ok :
      (result : Result p.Mistake (Response p.Writer)) (state after : p.State)
      (response : Response p.Writer)
      → encoded p result state ≡ (after, ok response)
      → result ≡ ok response
  encoded-ok (ok given) state after response h =
      ap ok (ok-injective {E = p.Cause} (ap (λ o. o.1) h))
  encoded-ok (err mistake) state after response h = absurd (ok-ne-err (sym (ap (λ o. o.1) h)))

  encode_output-ok :
      (strategy : Option p.Strategy) (value : Out) (state after : p.State)
      (response : Response p.Writer)
      → encode_output p endpoint.output strategy value state ≡ (after, ok response)
      → encode_with endpoint.output.encode value strategy ≡ some (ok response)
  unfolding encode_output
  encode_output-ok strategy value state after response h =
      elim (Option-cases endpoint.output.encode) [
        | inl missing ↦ absurd (ok-ne-err (sym (ap (λ o. o.1) (rw missing at h))))
        | inr (encode, given) ↦
            rw given
              (ap some (encoded-ok (encode value strategy) state after response (rw given at h)))
      ]

  -- Where the codec reads a request and the handler gives a value, an answer of a route without phases
  -- that returns JSON has the declared status, and its body is that value as the schema of the output
  -- writes it under the naming strategy of the route.
  pub build_of-IsJson :
      (itoa : ℕ → Text) (status : ℕ) (shape : Schema p.Shape p.Strategy p.Mistake Out)
      (handle : In → Effect p Out) (reject : Reject (world_of p)) (strategy : Option p.Strategy)
      (request : Request p.Strategy) (input : In) (value : Out) (response : Response p.Writer)
      (state between after : p.State)
      → endpoint.output ≡ returns itoa status shape
      → decode_with endpoint.input (with_naming request strategy) ≡ ok input
      → handle input state ≡ (between, ok value)
      → build_of p endpoint handle reject (no_phases p) strategy request state
        ≡ (after, ok response)
      → IsJson itoa status shape value strategy response
  unfolding build_of is_quiet plain
  build_of-IsJson itoa status shape handle reject strategy request input value response state
        between after same read ran h =
      (returns-IsJson itoa status shape value strategy response (
        subst
          (λ (o : Output p.Shape p.Strategy p.Mistake p.Writer Out).
            encode_with o.encode value strategy ≡ some (ok response))
          same (encode_output-ok strategy value between after response (rw (read, ran) at h)))).1
