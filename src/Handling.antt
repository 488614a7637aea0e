-- ===== src/Handling.antt =====
-- web/route.go and web/phase.go: an endpoint is given its handler, and its phases are spanned and
-- measured. Effects are functions of the state of the runtime; Suspend is the function itself.
pub mod Phasing
pub mod Refusing
pub mod Tests
use effect_golang_web.Common.{
  ℕ, Bool, true, false, Option, none, some, List, [], ◌∷◌, Text, codes, Result, ok, err, map_err,
  if◌then◌else◌,
}
use effect_golang_web.Path.{is_empty}
use effect_golang_web.Http.{Response, Request, with_naming}
use effect_golang_web.Declarations.{Declaration}
use effect_golang_web.Codec.{CodecFault, decode_with}
use effect_golang_web.Endpoint.{EndpointFault, Endpoint, Output, validate_endpoint, declaration}
use effect_golang_web.Routes.{World, Phases, is_quiet, Reject, Build, Handler, Route}

-- The runtime and the schema library: `defect` is DieCause of a defect, `nil_call` that of a call of
-- nil, and `warn` what LogWarn does with the method and the path of the route.
pub record Program : Type 1 where
  pub State : Type 0
  pub Cause : Type 0
  pub Mistake : Type 0
  pub Strategy : Type 0
  pub Shape : Type 0
  pub Writer : Type 0
  pub spell : Shape → Strategy → Shape
  pub defect : Mistake → Cause
  pub nil_call : Cause
  pub warn : Text → Text → CodecFault Mistake → State → State
  pub with_span :
      {A : Type 0} → Text → (State → State × Result Cause A) → State → State × Result Cause A

-- Why a route cannot be built, or a request is refused.
pub data HandleMistake (X : Type 0) : Type 0 where
  bad_endpoint : EndpointFault X → HandleMistake X
  no_handler : HandleMistake X
  unread_request : CodecFault X → HandleMistake X

module _ (p : Program) where
  open p use {
    State, Cause, Mistake, Strategy, Shape, Writer, spell, defect, nil_call, warn, with_span,
  }

  abbrev pub Effect : Type 0 → Type 0
  Effect A = State → State × Result Cause A

  -- A sampler is called when a phase begins, and may give the function that is called when it ends.
  abbrev pub PhaseSampler : Type 0
  PhaseSampler = Text → State → State × Option (State → State)

  abbrev pub world_of : World
  world_of = record {
    Effect = Effect (Response Writer);
    Writer = Writer;
    succeed = λ response state. (state, ok response);
    Strategy = Strategy;
    Shape = Shape;
    spell = spell;
    Sampler = PhaseSampler;
    Mistake = HandleMistake Mistake;
  }

  abbrev pub resumed :
      {A B : Type 0} → State × Result Cause A → (A → Effect B) → State × Result Cause B
  resumed (state, ok value) next = next value state
  resumed (state, err cause) next = (state, err cause)

  abbrev pub flat_map : {A B : Type 0} → Effect A → (A → Effect B) → Effect B
  flat_map first next state = resumed (first state) next

  abbrev pub finished :
      {A : Type 0} → (State → State) → State × Result Cause A → State × Result Cause A
  finished end (state, result) = (end state, result)

  abbrev pub measured :
      {A : Type 0} → Effect A → State × Option (State → State) → State × Result Cause A
  measured effect (state, none) = effect state
  measured effect (state, some end) = finished end (effect state)

  abbrev pub measured_by : {A : Type 0} → Effect A → Text → Option PhaseSampler → Effect A
  measured_by effect name none state = effect state
  measured_by effect name (some sampler) state = measured effect (sampler name state)

  unfoldable pub measure_phase : {A : Type 0} → Effect A → Text → Option PhaseSampler → Effect A
  measure_phase effect name sampler =
      if is_empty name then effect else measured_by effect name sampler

  unfoldable pub span_of : {A : Type 0} → Effect A → Text → Effect A
  span_of effect name = if is_empty name then effect else with_span name effect

  unfoldable pub instrument_phase : {A : Type 0} → Effect A → Text → Option PhaseSampler → Effect A
  unfolding measure_phase span_of
  instrument_phase effect name sampler = span_of (measure_phase effect name sampler) name

  abbrev pub encoded : {A : Type 0} → Result Mistake A → Effect A
  encoded (ok response) state = (state, ok response)
  encoded (err mistake) state = (state, err (defect mistake))

  unfoldable pub encode_output :
      {Out : Type 0}
      → Output Shape Strategy Mistake Writer Out
      → Option Strategy
      → Out
      → Effect (Response Writer)
  encode_output output strategy value = elim output.encode [
    | none ↦ λ state. (state, err nil_call)
    | some encode ↦ encoded (encode value strategy)
  ]

  -- `logRefusal(…).As(reject(…))` where the request was refused, and `next` where it was read.
  abbrev pub after_decoding :
      {In : Type 0}
      → Declaration Shape
      → Reject world_of
      → (In → Effect (Response Writer))
      → Result (CodecFault Mistake) In
      → Effect (Response Writer)
  after_decoding declared reject next (err mistake) state =
      (warn declared.method declared.path mistake state, ok (reject (unread_request mistake)))
  after_decoding declared reject next (ok input) state = next input state

  module _ {In Out : Type 0} (endpoint : Endpoint Shape Strategy Mistake Writer In Out)
      (handle : In → Effect Out) where
    -- The body without phases.
    unfoldable pub plain : Reject world_of → Option Strategy → Handler world_of
    unfolding decode_with encode_output declaration with_naming
    plain reject strategy request =
        after_decoding (declaration endpoint) reject
          (λ input. flat_map (handle input) (encode_output endpoint.output strategy))
          (decode_with endpoint.input (with_naming request strategy))

    -- Decode, handle and encode, each instrumented.
    unfoldable pub phase_handler :
        Reject world_of → Phases PhaseSampler → Option Strategy → Handler world_of
    unfolding decode_with encode_output declaration instrument_phase with_naming
    phase_handler reject phases strategy request =
        flat_map
          (instrument_phase
            (λ state. (state, ok (decode_with endpoint.input (with_naming request strategy))))
            phases.decode_span phases.sampler)
          (after_decoding (declaration endpoint) reject (λ input.
            flat_map (instrument_phase (handle input) phases.handle_span phases.sampler) (λ value.
              instrument_phase (encode_output endpoint.output strategy value) phases.encode_span
                phases.sampler)))

    unfoldable pub build_of : Build world_of
    unfolding plain phase_handler is_quiet
    build_of reject phases strategy =
        if is_quiet phases then plain reject strategy else phase_handler reject phases strategy

  abbrev pub no_phases : Phases PhaseSampler
  no_phases = record { decode_span = []; handle_span = []; encode_span = []; sampler = none }

  -- What is wrong with the endpoint, and then a missing handler.
  abbrev pub route_fault_of :
      {In Out : Type 0}
      → Option (EndpointFault Mistake)
      → Option (In → Effect Out)
      → Option (HandleMistake Mistake)
  route_fault_of (some mistake) handle = some (bad_endpoint mistake)
  route_fault_of none none = some no_handler
  route_fault_of none (some run) = none

  unfoldable pub first_route_fault :
      {In Out : Type 0}
      → Endpoint Shape Strategy Mistake Writer In Out
      → Option (In → Effect Out)
      → Option (HandleMistake Mistake)
  unfolding validate_endpoint
  first_route_fault endpoint handle = route_fault_of (validate_endpoint endpoint) handle

  abbrev build_if :
      {In Out : Type 0}
      → Endpoint Shape Strategy Mistake Writer In Out
      → Option (HandleMistake Mistake)
      → Option (In → Effect Out)
      → Option (Build world_of)
  unfolding build_of
  build_if endpoint (some fault) handle = none
  build_if endpoint none none = none
  build_if endpoint none (some handle) = some (build_of endpoint handle)

  unfoldable pub route_of :
      {In Out : Type 0}
      → Endpoint Shape Strategy Mistake Writer In Out
      → Option (In → Effect Out)
      → Option (HandleMistake Mistake)
      → Route world_of
  unfolding build_if declaration
  route_of endpoint handle fault' = record {
    declaration = declaration endpoint;
    segments = endpoint.segments;
    build = build_if endpoint fault' handle;
    phases = no_phases;
    strategy = none;
    fault = fault';
  }

  -- `Handle`
  unfoldable pub handle_endpoint :
      {In Out : Type 0}
      → Endpoint Shape Strategy Mistake Writer In Out
      → Option (In → Effect Out)
      → Route world_of
  unfolding route_of first_route_fault
  handle_endpoint endpoint handle = route_of endpoint handle (first_route_fault endpoint handle)
