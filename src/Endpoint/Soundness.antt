-- ===== src/Endpoint/Soundness.antt =====
-- web/endpoint.go and web/endpoint_validation.go: which declarations can be used, and what a usable
-- one says of itself.
use effect_golang_web.Common.{
  ℕ, inl, inr, Option-cases, ◌≡◌, ◌≢◌, ◌≤◌, refl, sym, ap, ◌∙◌, ◌↔◌, Bool, true, false, ◌||◌, not,
  Option, none, some, List, [], ◌∷◌, Text, ltb, is_some, Member, Result, ok, err, if◌then◌else◌,
  arith,
}
use effect_golang_web.Path.{Segment, PathFault, is_empty, parse_pattern, render_pattern}
use effect_golang_web.Path.Patterns.{parse_pattern_iff}
use effect_golang_web.Declarations.{in_path, Parameter}
use effect_golang_web.Http.{Request, with_captures, capture_of}
use effect_golang_web.Tree.{Binding, capture_values}
use effect_golang_web.Tree.Meaning.{match_segments}
use effect_golang_web.Codec.{Codec, CodecFault, validate_codec}
use effect_golang_web.Codec.Zipping.{or_first-none}
use effect_golang_web.Endpoint.{
  EndpointFault, Output, validate_captures, unusable, segments_of, path_mistake,
  first_endpoint_fault, declare, validate_endpoint, declaration, unstatused_output, no_output,
  nameless_method,
}
use effect_golang_web.Endpoint.Captures.{
  guard_none, validate_captures_lem, validate_captures_iff, AreCaptured,
}

unusable-none : {X : Type 0} (f : Option (CodecFault X)) → (unusable f ≡ none) ↔ (f ≡ none)
unusable-none none = (λ h. refl, λ h. refl)
unusable-none (some f) = (λ h. cc, λ h. cc)

validate_codec-none :
    {Shape Strategy X In : Type 0} (input : Codec Shape Strategy X In)
    → (validate_codec input ≡ none) ↔ ((input.fault ≡ none) × (is_some input.decode ≡ true))
unfolding validate_codec
validate_codec-none input = elim (Option-cases input.fault) [
  | inr (fault, faulty) ↦ (λ h. cc (rw faulty at h), λ (h, _). cc)
  | inl fine ↦ elim (Option-cases input.decode) [
    | inl missing ↦ (λ h. cc (rw (fine, missing) at h), λ (_, h). cc (ap is_some missing))
    | inr (decode, there) ↦ (λ h. (fine, ap is_some there), λ h. rw (fine, there) refl)
  ]
]

path_mistake-none :
    {X : Type 0} (r : Result PathFault (List Segment))
    → path_mistake {X = X} r ≡ none
    → r ≡ ok (segments_of r)
path_mistake-none (ok segments) h = refl
path_mistake-none (err fault) h = cc

not_empty : {A : Type 0} (xs : List A) → (is_empty xs ≡ false) ↔ (xs ≢ [])
not_empty [] = (λ h. cc, λ n. absurd (n refl))
not_empty (x ∷ xs) = (λ h e. cc, λ n. refl)

not-false : (b : Bool) → not b ≡ false → b ≡ true
not-false true e = refl
not-false false e = cc

statused : (n : ℕ) → (ltb n 100 || ltb 599 n ≡ false) ↔ ((100 ≤ n) × (n ≤ 599))
statused n = (λ h. (ground arith, ground arith), λ (a, b). ground arith)

module _ {Shape Strategy X W In Out : Type 0} (method : Text) (path : Text)
    (input : Codec Shape Strategy X In) (output : Output Shape Strategy X W Out) where
  -- What a declaration must have: a method, a readable path, a usable codec, an output that encodes
  -- with a status of three digits, and a capture for each path parameter.
  pub record IsUsable (segments : List Segment) : Type 0 where
    pub named : method ≢ []
    pub readable : parse_pattern path ≡ ok segments
    pub sound : input.fault ≡ none
    pub decodes : is_some input.decode ≡ true
    pub faultless : output.fault ≡ none
    pub encodes : is_some output.encode ≡ true
    pub statused : (100 ≤ output.status) × (output.status ≤ 599)
    pub captured : AreCaptured segments input.parameters

  output_none :
      {rest : Option (EndpointFault X)}
      → (if not (is_some output.encode)
          then some no_output
          else if ltb output.status 100 || ltb 599 output.status
          then some unstatused_output
          else rest)
        ≡ none
      → (is_some output.encode ≡ true)
        × ((100 ≤ output.status) × (output.status ≤ 599))
        × (rest ≡ none)
  output_none {rest} e =
      let (there, e₁) = guard_none (not (is_some output.encode)) no_output _ e in
      let (inside, e₂) =
        guard_none (ltb output.status 100 || ltb 599 output.status) unstatused_output rest e₁ in
      (not-false (is_some output.encode) there, (statused output.status).0 inside, e₂)

  output_faultless :
      (rest : Option (EndpointFault X))
      → is_some output.encode ≡ true
      → (100 ≤ output.status) × (output.status ≤ 599)
      → rest ≡ none
      → (if not (is_some output.encode)
          then some no_output
          else if ltb output.status 100 || ltb 599 output.status
          then some unstatused_output
          else rest)
        ≡ none
  output_faultless rest there inside e = rw (there, (statused output.status).1 inside, e) refl

  usable :
      first_endpoint_fault method (parse_pattern path) input output ≡ none
      → IsUsable (segments_of (parse_pattern path))
  unfolding first_endpoint_fault
  usable e =
      let (named', e₀) = guard_none (is_empty method) nameless_method _ e in
      let (read, e₁) = (or_first-none (path_mistake (parse_pattern path)) _).0 e₀ in
      let (decodes', e₂) = (or_first-none (unusable (validate_codec input)) _).0 e₁ in
      let (faultless', e₃) = (or_first-none output.fault _).0 e₂ in
      let (encodes', statused', captured') = output_none e₃ in
      record {
        named = (not_empty method).0 named';
        readable = path_mistake-none {X = X} (parse_pattern path) read;
        sound =
            ((validate_codec-none input).0 ((unusable-none (validate_codec input)).0 decodes')).0;
        decodes =
            ((validate_codec-none input).0 ((unusable-none (validate_codec input)).0 decodes')).1;
        faultless = faultless';
        encodes = encodes';
        statused = statused';
        captured =
            (validate_captures_iff X (segments_of (parse_pattern path)) input.parameters).0
              captured';
      }

  faultless :
      (segments : List Segment)
      → IsUsable segments
      → first_endpoint_fault method (parse_pattern path) input output ≡ none
  unfolding first_endpoint_fault
  faultless segments u =
      rw
        (
          (not_empty method).1 u.named,
          u.readable,
          (validate_codec-none input).1 (u.sound, u.decodes),
          u.faultless,
        )
        (output_faultless (validate_captures segments input.parameters) u.encodes u.statused
          ((validate_captures_iff X segments input.parameters).1 u.captured))

  -- A declared endpoint can be used exactly if it has a method, a path that can be read, a codec that
  -- can be used, an output without a fault that encodes with a status from 100 to 599, and a capture
  -- in its path for each parameter that is read from the path.
  pub declare_ok_iff :
      (validate_endpoint (declare method path input output) ≡ none)
      ↔ ((segments : List Segment) × IsUsable segments)
  unfolding validate_endpoint declare
  declare_ok_iff = (
    λ e. (
      _,
      usable
          ((or_first-none (first_endpoint_fault method (parse_pattern path) input output) _).0 e).0,
    ),
    λ (segments, u). rw (faultless segments u, (not_empty method).1 u.named, u.encodes) refl,
  )

  -- An endpoint that can be used says of itself the method and the path that it was declared with.
  pub declaration-declare :
      validate_endpoint (declare method path input output) ≡ none
      → ((declaration (declare method path input output)).path ≡ path)
        × ((declaration (declare method path input output)).method ≡ method)
  unfolding declaration declare
  declaration-declare e =
      let (segments, u) = declare_ok_iff.0 e in
      let (_, written) = (parse_pattern_iff path segments).0 u.readable in
      (ap (λ r. render_pattern (segments_of r)) u.readable ∙ written, refl)

  -- Where an endpoint can be used, every request that its pattern matches carries, with the captures
  -- of that match, a value under the name of each parameter that the endpoint reads from the path.
  pub declared_parameters_lem :
      (requested : List Text) (bindings : List Binding) (request : Request Strategy)
      → validate_endpoint (declare method path input output) ≡ none
      → match_segments (declare method path input output).segments requested ≡ some bindings
      → (p : Parameter Shape) → Member p input.parameters
      → p.location ≡ in_path
      → is_some (capture_of (with_captures request (capture_values bindings)) p.name) ≡ true
  unfolding declare
  declared_parameters_lem requested bindings request e matched =
      let (segments, u) = declare_ok_iff.0 e in
      validate_captures_lem {X = X} segments input.parameters requested bindings request
        ((validate_captures_iff X segments input.parameters).1 u.captured)
        (ap (λ r. match_segments (segments_of r) requested) (sym u.readable) ∙ matched)
