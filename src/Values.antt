-- ===== src/Values.antt =====
-- The values that amqp091/field_values.go and amqp10/property_values.go convert. `Value` has the
-- cases of `dynamic.Value` that the source switches on, and `unknown` for any other; `Untyped` is an
-- `any`, with the Go types that either file switches on, and `other` for the rest. A nil map is the
-- empty one: both have no names. A map is a list of its entries, in no order that the source reads.
pub mod Ordering
use effect_golang_web.Common.{
  ℕ, suc, Bool, true, false, Option, none, some, List, [], ◌∷◌, Text, text_eq, lookup, Map, Result,
  ok, err, ◌>>=◌, map_err, if◌then◌else◌,
}

-- What stands outside this repository: floats, instants and UUIDs.
pub record Kinds : Type 1 where
  pub Float32 : Type 0
  pub Float64 : Type 0
  pub Instant : Type 0
  pub Uuid : Type 0
  pub widen : Float32 → Float64
  pub uuid_text : Uuid → Text

pub data ℤ : Type 0 where
  pos : ℕ → ℤ
  negsuc : ℕ → ℤ

module _ (k : Kinds) where
  open k use {Float32, Float64, Instant, Uuid}

  mutual
    pub data Value : Type 0 where
      absent : Value
      boolean : Bool → Value
      integer : ℤ → Value
      number : Float64 → Value
      text : Text → Value
      bytes : List ℕ → Value
      timestamp : Instant → Value
      object : Fields → Value
      list : Elements → Value
      unknown : Text → Value

    pub data Fields : Type 0 where
      no_fields : Fields
      field : Text → Value → Fields → Fields

    pub data Elements : Type 0 where
      no_elements : Elements
      element : Value → Elements → Elements

  mutual
    pub data Untyped : Type 0 where
      nil : Untyped
      bool : Bool → Untyped
      int int8 int16 int32 int64 : ℤ → Untyped
      uint8 uint16 uint32 : ℕ → Untyped
      float32 : Float32 → Untyped
      float64 : Float64 → Untyped
      string : Text → Untyped
      uuid : Uuid → Untyped
      byte_slice : List ℕ → Untyped
      time : Instant → Untyped
      table : Entries → Untyped
      map_of_any : Entries → Untyped
      slice_of_any : Items → Untyped
      other : Text → Untyped

    pub data Entries : Type 0 where
      no_entries : Entries
      entry : Text → Untyped → Entries → Entries

    pub data Items : Type 0 where
      no_items : Items
      item : Untyped → Items → Items

  -- The name that a message puts before what is wrong with its value.
  pub data Holder : Type 0 where
    header property annotation : Holder

  pub data ValueMistake : Type 0 where
    in_field : Holder → Text → ValueMistake → ValueMistake
    in_element : ℕ → ValueMistake → ValueMistake
    unheld_value : Value → ValueMistake
    unread_value : Untyped → ValueMistake

module _ {k : Kinds} where
  -- `fields[name] = field`
  unfoldable pub set : Text → Untyped k → Entries k → Entries k
  set name raw no_entries = entry name raw no_entries
  set name raw (entry other_name old entries) =
      let rest = set name raw entries in
      if text_eq other_name name then entry other_name raw entries else entry other_name old rest

  -- `for name := range raw`
  unfoldable pub names : Entries k → List Text
  names no_entries = []
  names (entry name raw entries) = name ∷ names entries

  -- A name that the map has not is read as nil.
  abbrev pub found : Option (Result (ValueMistake k) (Value k)) → Result (ValueMistake k) (Value k)
  found none = ok absent
  found (some value) = value

  -- The object whose fields are read by name, in the order of the names. `read` is what each entry
  -- of the map is converted to.
  unfoldable pub in_order :
      Holder k
      → List Text
      → Map (Result (ValueMistake k) (Value k))
      → Result (ValueMistake k) (Fields k)
  unfolding lookup
  in_order whose [] read = ok no_fields
  in_order whose (name ∷ order) read = do
    value ← map_err (in_field whose name) (found (lookup name read))
    fields ← in_order whose order read
    ok (field name value fields)
