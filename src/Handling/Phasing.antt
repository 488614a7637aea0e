-- ===== src/Handling/Phasing.antt =====
-- web/phase.go: naming and measuring the phases of a route changes no answer.
use effect_golang_web.Common.{
  ◌≡◌, refl, sym, subst, ◌∙◌, Option, none, some, Text, Result, ok, err, ok-injective, ok-ne-err,
  inl, inr, Bool-cases, Option-cases,
}
use effect_golang_web.Path.{is_empty}
use effect_golang_web.Http.{Response, Request, with_naming}
use effect_golang_web.Codec.{CodecFault, decode_with}
use effect_golang_web.Endpoint.{Endpoint, declaration}
use effect_golang_web.Routes.{Phases, is_quiet, Reject}
use effect_golang_web.Handling.{
  Program, Effect, PhaseSampler, world_of, resumed, flat_map, measured, measured_by, measure_phase,
  span_of, instrument_phase, encode_output, encoded, after_decoding, plain, phase_handler, build_of,
  no_phases,
}

-- What a program sees of the state of its runtime: `view`.
module _ (p : Program) {V : Type 0} (view : p.State → V) where
  -- The same seen before, the same answer and the same seen after.
  abbrev pub AreAlike : {A : Type 0} → Effect p A → Effect p A → Type 0
  AreAlike first second =
      (state other : p.State)
      → view state ≡ view other
      → (view (first state).0 ≡ view (second other).0) × ((first state).1 ≡ (second other).1)

  -- A span runs its effect once, from a state and to a state that the program does not tell apart.
  abbrev pub AreHidden : Type 1
  AreHidden =
      (A : Type 0) (name : Text) (effect : Effect p A) (state : p.State)
      → (inside : p.State) × (view inside ≡ view state)
        × (view (p.with_span name effect state).0 ≡ view (effect inside).0)
        × ((p.with_span name effect state).1 ≡ (effect inside).1)

  -- Nor does the program see what a sampler does.
  abbrev pub IsHidden : PhaseSampler p → Type 0
  IsHidden sampler =
      (name : Text) (state : p.State)
      → (view (sampler name state).0 ≡ view state)
        × ((end : p.State → p.State) (other : p.State)
            → (sampler name state).1 ≡ some end
            → view (end other) ≡ view other)

  resumed-AreAlike :
      {A B : Type 0} (first second : p.State × Result p.Cause A) (next other : A → Effect p B)
      → view first.0 ≡ view second.0
      → first.1 ≡ second.1
      → ((value : A) → AreAlike (next value) (other value))
      → (view (resumed p first next).0 ≡ view (resumed p second other).0)
        × ((resumed p first next).1 ≡ (resumed p second other).1)
  resumed-AreAlike (s, ok a) (t, ok b) next other seen same alike =
      subst (λ c. (view (next a s).0 ≡ view (other c t).0) × ((next a s).1 ≡ (other c t).1))
        (ok-injective {E = p.Cause} same) (alike a s t seen)
  resumed-AreAlike (s, ok a) (t, err b) next other seen same alike = absurd (ok-ne-err same)
  resumed-AreAlike (s, err a) (t, ok b) next other seen same alike = absurd (ok-ne-err (sym same))
  resumed-AreAlike (s, err a) (t, err b) next other seen same alike = (seen, cc)

  flat_map-AreAlike :
      {A B : Type 0} (first second : Effect p A) (next other : A → Effect p B)
      → AreAlike first second
      → ((value : A) → AreAlike (next value) (other value))
      → AreAlike (flat_map p first next) (flat_map p second other)
  flat_map-AreAlike first second next other alike each s t seen =
      let (after, same) = alike s t seen in
      resumed-AreAlike (first s) (second t) next other after same each

  measured-AreAlike :
      {A : Type 0} (first second : Effect p A) (begun : p.State × Option (p.State → p.State))
      (other : p.State)
      → AreAlike first second
      → view begun.0 ≡ view other
      → ((end : p.State → p.State) (after : p.State)
          → begun.1 ≡ some end
          → view (end after) ≡ view after)
      → (view (measured p first begun).0 ≡ view (second other).0)
        × ((measured p first begun).1 ≡ (second other).1)
  measured-AreAlike first second (s, none) other alike seen hidden = alike s other seen
  measured-AreAlike first second (s, some end) other alike seen hidden =
      let (after, same) = alike s other seen in (hidden end (first s).0 refl ∙ after, same)

  measured_by-AreAlike :
      {A : Type 0} (first second : Effect p A) (name : Text) (sampler : Option (PhaseSampler p))
      → AreAlike first second
      → ((each : PhaseSampler p) → sampler ≡ some each → IsHidden each)
      → AreAlike (measured_by p first name sampler) second
  measured_by-AreAlike first second name none alike hidden s t seen = alike s t seen
  measured_by-AreAlike first second name (some sampler) alike hidden s t seen =
      let (before, ended) = hidden sampler refl name s in
      measured-AreAlike first second (sampler name s) t alike (before ∙ seen) ended

  measure_phase-AreAlike :
      {A : Type 0} (first second : Effect p A) (name : Text) (sampler : Option (PhaseSampler p))
      → AreAlike first second
      → ((each : PhaseSampler p) → sampler ≡ some each → IsHidden each)
      → AreAlike (measure_phase p first name sampler) second
  unfolding measure_phase
  measure_phase-AreAlike first second name sampler alike hidden =
      elim (Bool-cases (is_empty name)) [
        | inl unnamed ↦ rw unnamed alike
        | inr named ↦ rw named (measured_by-AreAlike first second name sampler alike hidden)
      ]

  spanned-AreAlike :
      {A : Type 0} (spans : AreHidden) (first second : Effect p A) (name : Text)
      → AreAlike first second
      → AreAlike (p.with_span name first) second
  spanned-AreAlike {A = A} spans first second name alike s t seen =
      let (inside, before, after, result) = spans A name first s in
      let (end, same) = alike inside t (before ∙ seen) in (after ∙ end, result ∙ same)

  pub instrument_phase-AreAlike :
      {A : Type 0} (spans : AreHidden) (first second : Effect p A) (name : Text)
      (sampler : Option (PhaseSampler p))
      → AreAlike first second
      → ((each : PhaseSampler p) → sampler ≡ some each → IsHidden each)
      → AreAlike (instrument_phase p first name sampler) second
  unfolding instrument_phase span_of measure_phase
  instrument_phase-AreAlike spans first second name sampler alike hidden =
      elim (Bool-cases (is_empty name)) [
        | inl unnamed ↦ rw unnamed alike
        | inr named ↦ rw named (
            spanned-AreAlike spans (measured_by p first name sampler) second name
              (measured_by-AreAlike first second name sampler alike hidden))
      ]

  encoded-AreAlike :
      {A : Type 0} (result : Result p.Mistake A) → AreAlike (encoded p result) (encoded p result)
  encoded-AreAlike (ok response) s t seen = (seen, refl)
  encoded-AreAlike (err mistake) s t seen = (seen, refl)

  module _ {In Out : Type 0} (endpoint : Endpoint p.Shape p.Strategy p.Mistake p.Writer In Out)
      (handle : In → Effect p Out) where
    after_decoding-AreAlike :
        (reject : Reject (world_of p)) (next other : In → Effect p (Response p.Writer))
        (read : Result (CodecFault p.Mistake) In)
        → ((input : In) → AreAlike (next input) (other input))
        → ((method path : Text) (mistake : CodecFault p.Mistake) (s t : p.State)
            → view s ≡ view t
            → view (p.warn method path mistake s) ≡ view (p.warn method path mistake t))
        → AreAlike
            (after_decoding p (declaration endpoint) reject next read)
            (after_decoding p (declaration endpoint) reject other read)
    after_decoding-AreAlike reject next other (ok input) alike warns s t seen = alike input s t seen
    after_decoding-AreAlike reject next other (err mistake) alike warns s t seen =
        (warns (declaration endpoint).method (declaration endpoint).path mistake s t seen, refl)

    encode_output-AreAlike :
        (strategy : Option p.Strategy) (value : Out)
        → AreAlike
            (encode_output p endpoint.output strategy value)
            (encode_output p endpoint.output strategy value)
    unfolding encode_output
    encode_output-AreAlike strategy value = elim (Option-cases endpoint.output.encode) [
      | inl none_given ↦ rw none_given (λ s t seen. (seen, refl))
      | inr (encode, given) ↦ rw given (encoded-AreAlike (encode value strategy))
    ]

    phase_handler-AreAlike :
        (spans : AreHidden) (phases : Phases (PhaseSampler p)) (reject : Reject (world_of p))
        (strategy : Option p.Strategy) (request : Request p.Strategy)
        → ((each : PhaseSampler p) → phases.sampler ≡ some each → IsHidden each)
        → ((input : In) → AreAlike (handle input) (handle input))
        → ((method path : Text) (mistake : CodecFault p.Mistake) (s t : p.State)
            → view s ≡ view t
            → view (p.warn method path mistake s) ≡ view (p.warn method path mistake t))
        → AreAlike
            (phase_handler p endpoint handle reject phases strategy request)
            (plain p endpoint handle reject strategy request)
    unfolding phase_handler plain
    phase_handler-AreAlike spans phases reject strategy request hidden handles warns =
        let read = decode_with endpoint.input (with_naming request strategy) in
        flat_map-AreAlike
          (instrument_phase p (λ state. (state, ok read)) phases.decode_span phases.sampler)
          (λ state. (state, ok read))
          (after_decoding p (declaration endpoint) reject (λ input.
            flat_map p (instrument_phase p (handle input) phases.handle_span phases.sampler)
              (λ value.
                instrument_phase p (encode_output p endpoint.output strategy value)
                  phases.encode_span phases.sampler)))
          (after_decoding p (declaration endpoint) reject
            (λ input. flat_map p (handle input) (encode_output p endpoint.output strategy)))
          (instrument_phase-AreAlike spans (λ state. (state, ok read)) (λ state. (state, ok read))
            phases.decode_span phases.sampler (λ s t seen. (seen, refl)) hidden)
          (λ result.
            after_decoding-AreAlike reject
              (λ input.
                flat_map p (instrument_phase p (handle input) phases.handle_span phases.sampler)
                  (λ value.
                    instrument_phase p (encode_output p endpoint.output strategy value)
                      phases.encode_span phases.sampler))
              (λ input. flat_map p (handle input) (encode_output p endpoint.output strategy)) result
              (λ input.
                flat_map-AreAlike
                  (instrument_phase p (handle input) phases.handle_span phases.sampler)
                  (handle input)
                  (λ value.
                    instrument_phase p (encode_output p endpoint.output strategy value)
                      phases.encode_span phases.sampler)
                  (encode_output p endpoint.output strategy)
                  (instrument_phase-AreAlike spans (handle input) (handle input) phases.handle_span
                    phases.sampler (handles input) hidden)
                  (λ value.
                    instrument_phase-AreAlike spans (encode_output p endpoint.output strategy value)
                      (encode_output p endpoint.output strategy value) phases.encode_span
                      phases.sampler (encode_output-AreAlike strategy value) hidden))
              warns)

    plain-AreAlike :
        (reject : Reject (world_of p)) (strategy : Option p.Strategy) (request : Request p.Strategy)
        → ((input : In) → AreAlike (handle input) (handle input))
        → ((method path : Text) (mistake : CodecFault p.Mistake) (s t : p.State)
            → view s ≡ view t
            → view (p.warn method path mistake s) ≡ view (p.warn method path mistake t))
        → AreAlike
            (plain p endpoint handle reject strategy request)
            (plain p endpoint handle reject strategy request)
    unfolding plain
    plain-AreAlike reject strategy request handles warns =
        after_decoding-AreAlike reject
          (λ input. flat_map p (handle input) (encode_output p endpoint.output strategy))
          (λ input. flat_map p (handle input) (encode_output p endpoint.output strategy))
          (decode_with endpoint.input (with_naming request strategy))
          (λ input.
            flat_map-AreAlike (handle input) (handle input)
              (encode_output p endpoint.output strategy) (encode_output p endpoint.output strategy)
              (handles input) (encode_output-AreAlike strategy))
          warns

    -- Let the spans of the runtime and the sampler, if there is one, be hidden from what the program
    -- sees, and let the handler and the log answer by what the program sees. Then however the phases
    -- of a route are named and measured, a request is answered as without phases, and leaves the
    -- program the same to see.
    pub build_of-AreAlike :
        (spans : AreHidden) (phases : Phases (PhaseSampler p)) (reject : Reject (world_of p))
        (strategy : Option p.Strategy) (request : Request p.Strategy)
        → ((each : PhaseSampler p) → phases.sampler ≡ some each → IsHidden each)
        → ((input : In) → AreAlike (handle input) (handle input))
        → ((method path : Text) (mistake : CodecFault p.Mistake) (s t : p.State)
            → view s ≡ view t
            → view (p.warn method path mistake s) ≡ view (p.warn method path mistake t))
        → AreAlike
            (build_of p endpoint handle reject phases strategy request)
            (build_of p endpoint handle reject (no_phases p) strategy request)
    unfolding build_of is_quiet
    build_of-AreAlike spans phases reject strategy request hidden handles warns =
        elim (Bool-cases (is_quiet phases)) [
          | inl quiet ↦ rw quiet (plain-AreAlike reject strategy request handles warns)
          | inr loud ↦
              rw loud
                (phase_handler-AreAlike spans phases reject strategy request hidden handles warns)
        ]
