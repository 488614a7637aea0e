-- ===== src/Codec/Struct.antt =====
-- web/codec_struct.go: a request read into a struct, one field per codec. An assignment to a field of
-- the struct is a function from the struct to the struct.
use effect_golang_web.Common.{
  ℕ, ◌+◌, ◌≤◌, ◌≡◌, refl, sym, subst, ◌∙◌, ◌↔◌, ◌&&◌, Option, none, some, List, [], ◌∷◌, ◌++◌,
  append-nil, append_assoc, is_some, All, Option-cases, inl, inr, Result, ok, err, Result-cases,
  ◌>>=◌, if◌then◌else◌, arith,
}
use effect_golang_web.Declarations.{Parameter, Content}
use effect_golang_web.Http.{Request}
use effect_golang_web.Codec.{
  Codec, CodecFault, two_entities, or_first, first_entity, validate_codec, call, decode_with,
  duplicate_parameter_fault,
}
use effect_golang_web.Codec.Zipping.{
  DistinctParameters, duplicate_parameter_fault_iff, or_first-none, decode-validated,
}

pub record Field (Shape Strategy X S : Type 0) : Type 0 where
  pub parameters : List (Parameter Shape)
  pub entity : Option (Content Shape)
  pub fault : Option (CodecFault X)
  pub decode : Request Strategy → S → Result (CodecFault X) S

-- What the loop of `Struct` has gathered.
pub record Gathered (Shape X : Type 0) : Type 0 where
  pub parameters : List (Parameter Shape)
  pub entity : Option (Content Shape)
  pub fault : Option (CodecFault X)

unfoldable pub second_entity_fault :
    {Shape X : Type 0} → Option (Content Shape) → Option (Content Shape) → Option (CodecFault X)
second_entity_fault first second =
    if is_some first && is_some second then some two_entities else none

abbrev nothing_gathered : {Shape X : Type 0} → Gathered Shape X
nothing_gathered = record { parameters = []; entity = none; fault = none }

abbrev struct_fault : {Shape X : Type 0} → Gathered Shape X → Option (CodecFault X)
struct_fault gathered = or_first gathered.fault (duplicate_parameter_fault gathered.parameters)

abbrev pub count_body : {Shape : Type 0} → Option (Content Shape) → ℕ
count_body none = 0
count_body (some content) = 1

one_body :
    {Shape : Type 0} (X : Type 0) (first second : Option (Content Shape)) (n : ℕ)
    → ((second_entity_fault {X = X} first second ≡ none)
        × (count_body (first_entity first second) + n ≤ 1))
      ↔ (count_body first + (count_body second + n) ≤ 1)
unfolding second_entity_fault
one_body X none none n = (λ (_, h). omega (arith, h), λ h. (refl, omega (arith, h)))
one_body X none (some b) n = (λ (_, h). omega (arith, h), λ h. (refl, omega (arith, h)))
one_body X (some a) none n = (λ (_, h). omega (arith, h), λ h. (refl, omega (arith, h)))
one_body X (some a) (some b) n = (λ (h, _). cc, λ h. absurd (omega (arith, h)))

small_body : {Shape : Type 0} (o : Option (Content Shape)) → count_body o ≤ 1
small_body none = omega arith
small_body (some content) = omega arith

module _ {Shape Strategy X S : Type 0} where
  unfoldable pub field_of :
      {A : Type 0} → Codec Shape Strategy X A → (S → A → S) → Field Shape Strategy X S
  unfolding validate_codec
  field_of codec assign = record {
    parameters = codec.parameters;
    entity = codec.entity;
    fault = validate_codec codec;
    decode = λ request into. call codec.decode request >>= (λ value. ok (assign into value));
  }

  -- One round of the loop.
  unfoldable gather_one : Gathered Shape X → Field Shape Strategy X S → Gathered Shape X
  unfolding second_entity_fault
  gather_one so_far field = record {
    parameters = so_far.parameters ++ field.parameters;
    entity = first_entity so_far.entity field.entity;
    fault =
        or_first so_far.fault
          (or_first field.fault (second_entity_fault so_far.entity field.entity));
  }

  unfoldable pub gather : Gathered Shape X → List (Field Shape Strategy X S) → Gathered Shape X
  unfolding gather_one
  gather so_far [] = so_far
  gather so_far (field ∷ fields) = gather (gather_one so_far field) fields

  unfoldable pub decode_fields :
      List (Field Shape Strategy X S) → Request Strategy → S → Result (CodecFault X) S
  decode_fields [] request value = ok value
  decode_fields (field ∷ fields) request value =
      field.decode request value >>= decode_fields fields request

  -- `zero` is the zero value of the struct.
  unfoldable pub struct_codec : S → List (Field Shape Strategy X S) → Codec Shape Strategy X S
  unfolding gather decode_fields duplicate_parameter_fault
  struct_codec zero fields = record {
    parameters = (gather nothing_gathered fields).parameters;
    entity = (gather nothing_gathered fields).entity;
    decode = elim (struct_fault (gather nothing_gathered fields)) [
      | some fault ↦ none
      | none ↦ some (λ request. decode_fields fields request zero)
    ];
    fault = struct_fault (gather nothing_gathered fields);
  }

  abbrev pub all_parameters : List (Field Shape Strategy X S) → List (Parameter Shape)
  all_parameters [] = []
  all_parameters (field ∷ fields) = field.parameters ++ all_parameters fields

  abbrev pub bodies : List (Field Shape Strategy X S) → ℕ
  bodies [] = 0
  bodies (field ∷ fields) = count_body field.entity + bodies fields

  gathered_parameters :
      (fields : List (Field Shape Strategy X S)) (so_far : Gathered Shape X)
      → (gather so_far fields).parameters ≡ so_far.parameters ++ all_parameters fields
  unfolding gather gather_one
  gathered_parameters [] so_far = sym (append-nil so_far.parameters)
  gathered_parameters (field ∷ fields) so_far =
      gathered_parameters fields (gather_one so_far field)
      ∙ append_assoc so_far.parameters field.parameters (all_parameters fields)

  gathered_fault_iff :
      (fields : List (Field Shape Strategy X S)) (so_far : Gathered Shape X)
      → ((gather so_far fields).fault ≡ none) ↔ (
          (so_far.fault ≡ none)
          × All (λ f. f.fault ≡ none) fields
          × (count_body so_far.entity + bodies fields ≤ 1))
  unfolding gather gather_one
  gathered_fault_iff [] so_far =
      (λ e. (e, tt, omega (arith, small_body so_far.entity)), λ (e, _, _). e)
  gathered_fault_iff (field ∷ fields) so_far =
      let (to, from) = gathered_fault_iff fields (gather_one so_far field) in
      let later = or_first field.fault (second_entity_fault so_far.entity field.entity) in
      let (o₁, p₁) = or_first-none so_far.fault later in
      let (o₂, p₂) = or_first-none field.fault (second_entity_fault so_far.entity field.entity) in
      let (b₁, b₂) = one_body X so_far.entity field.entity (bodies fields) in
      (
        λ e.
            let (f, fs, n) = to e in
            let (a, l) = o₁ f in let (c, d) = o₂ l in (a, (c, fs), b₁ (d, n)),
        λ (a, (c, fs), n). let (d, m) = b₂ n in from (p₁ (a, p₂ (c, d)), fs, m),
      )

  validate-struct_codec :
      (zero : S) (fields : List (Field Shape Strategy X S))
      → validate_codec (struct_codec zero fields) ≡ struct_fault (gather nothing_gathered fields)
  unfolding validate_codec struct_codec
  validate-struct_codec zero fields =
      elim (Option-cases (struct_fault (gather nothing_gathered fields))) [
        | inl sound ↦ rw sound refl
        | inr (fault, e) ↦ rw e refl
      ]

  -- A struct can be read exactly if each field can, at most one field reads the body, and no two
  -- parameters of its fields have one location and one name.
  pub struct_codec_lem :
      (zero : S) (fields : List (Field Shape Strategy X S))
      → (validate_codec (struct_codec zero fields) ≡ none) ↔ (
          All (λ f. f.fault ≡ none) fields
          × (bodies fields ≤ 1)
          × DistinctParameters (all_parameters fields))
  struct_codec_lem zero fields =
      let (to, from) = gathered_fault_iff fields nothing_gathered in
      let (d₁, d₂) =
        duplicate_parameter_fault_iff X
          (gather (nothing_gathered {Shape = Shape} {X = X}) fields).parameters in
      let (o, p) = or_first-none (gather (nothing_gathered {Shape = Shape} {X = X}) fields).fault (
        duplicate_parameter_fault
          (gather (nothing_gathered {Shape = Shape} {X = X}) fields).parameters) in
      let names = gathered_parameters fields nothing_gathered in
      (
        λ e.
            let (f, d) = o (sym (validate-struct_codec zero fields) ∙ e) in
            let (_, fs, n) = to f in (fs, omega (arith, n), subst DistinctParameters names (d₁ d)),
        λ (fs, n, d).
            validate-struct_codec zero fields
            ∙ p (from (refl, fs, omega (arith, n)), d₂ (subst DistinctParameters (sym names) d)),
      )

  -- What reading the fields one after the other makes of a struct: each is read into what those before
  -- it have left, and the first that fails ends it.
  pub data Reads (request : Request Strategy)
      : List (Field Shape Strategy X S) → S → Result (CodecFault X) S → Type 0 where
    all_read : {value : S} → Reads request [] value (ok value)
    next_read :
        {field : Field Shape Strategy X S} {fields : List (Field Shape Strategy X S)} {value : S}
        {end : Result (CodecFault X) S} (after : S)
        → field.decode request value ≡ ok after
        → Reads request fields after end
        → Reads request (field ∷ fields) value end
    not_read :
        {field : Field Shape Strategy X S} {fields : List (Field Shape Strategy X S)} {value : S}
        (mistake : CodecFault X)
        → field.decode request value ≡ err mistake
        → Reads request (field ∷ fields) value (err mistake)

  decode_fields-Reads :
      (fields : List (Field Shape Strategy X S)) (request : Request Strategy) (value : S)
      → Reads request fields value (decode_fields fields request value)
  unfolding decode_fields
  decode_fields-Reads [] request value = all_read
  decode_fields-Reads (field ∷ fields) request value =
      elim (Result-cases (field.decode request value)) [
        | inl (after, read) ↦
            rw read (next_read after read (decode_fields-Reads fields request after))
        | inr (mistake, failed) ↦ rw failed (not_read mistake failed)
      ]

  Reads-decode_fields :
      (request : Request Strategy) (fields : List (Field Shape Strategy X S)) (value : S)
      (end : Result (CodecFault X) S)
      → Reads request fields value end
      → decode_fields fields request value ≡ end
  unfolding decode_fields
  Reads-decode_fields request fields value end all_read = refl
  Reads-decode_fields request (field ∷ fields) value end (next_read after read later) =
      rw read (Reads-decode_fields request fields after end later)
  Reads-decode_fields request (field ∷ fields) value end (not_read mistake failed) = rw failed refl

  -- A struct whose codec is usable is read to a value, or to a fault, exactly if reading its fields one
  -- after the other, in the order given and from its zero value, comes to it.
  pub decode-struct_codec :
      (zero : S) (fields : List (Field Shape Strategy X S)) (request : Request Strategy)
      (end : Result (CodecFault X) S)
      → validate_codec (struct_codec zero fields) ≡ none
      → (decode_with (struct_codec zero fields) request ≡ end) ↔ Reads request fields zero end
  decode-struct_codec zero fields request end e =
      let looped : decode_with (struct_codec zero fields) request
          ≡ decode_fields fields request zero =
        decode-validated (struct_codec zero fields) request e
        ∙ unfold struct_codec in rw (call, sym (validate-struct_codec zero fields) ∙ e) refl in
      (
        λ same.
            subst (Reads request fields zero) (sym looped ∙ same)
              (decode_fields-Reads fields request zero),
        λ reads. looped ∙ Reads-decode_fields request fields zero end reads,
      )
