-- ===== src/PropertyValues.antt =====
-- amqp10/property_values.go: an object as a map of properties or annotations, and the way back.
pub mod Forwarding
mod Tests
use effect_golang_web.Common.{ℕ, suc, List, [], ◌∷◌, Text, Map, Result, ok, err, ◌>>=◌, map_err}
use effect_golang_web.Common.Sorting.{sort}
use effect_golang_web.Values.{
  Kinds, ℤ, pos, negsuc, Value, absent, boolean, integer, number, text, bytes, timestamp, object,
  list, unknown, Fields, no_fields, field, Elements, no_elements, element, Untyped, nil, bool, int,
  int8, int16, int32, int64, uint8, uint16, uint32, float32, float64, string, uuid, byte_slice,
  time, table, map_of_any, slice_of_any, other, Entries, no_entries, entry, Items, no_items, item,
  Holder, header, property, annotation, ValueMistake, in_field, in_element, unheld_value,
  unread_value, set, names, found, in_order,
}

module _ {k : Kinds} where
  unfoldable pub name_order : Entries k → List Text
  unfolding names sort
  name_order raw = sort (names raw)

  unfoldable mutual
    unfolding set

    pub property_of : Value k → Result (ValueMistake k) (Untyped k)
    property_of absent = ok nil
    property_of (boolean b) = ok (bool b)
    property_of (integer n) = ok (int64 n)
    property_of (number x) = ok (float64 x)
    property_of (text s) = ok (string s)
    property_of (bytes bs) = ok (byte_slice bs)
    property_of (timestamp t) = ok (time t)
    property_of (object fields) =
        properties_loop fields no_entries >>= (λ made. ok (map_of_any made))
    property_of (list elements) = properties_of 0 elements >>= (λ made. ok (slice_of_any made))
    property_of (unknown type_name) = err (unheld_value (unknown type_name))

    -- The loop of `Properties`, with the map that is made so far.
    pub properties_loop : Fields k → Entries k → Result (ValueMistake k) (Entries k)
    properties_loop no_fields made = ok made
    properties_loop (field name value fields) made = do
      raw ← map_err (in_field property name) (property_of value)
      properties_loop fields (set name raw made)

    pub properties_of : ℕ → Elements k → Result (ValueMistake k) (Items k)
    properties_of index no_elements = ok no_items
    properties_of index (element value elements) = do
      raw ← map_err (in_element index) (property_of value)
      raws ← properties_of (suc index) elements
      ok (item raw raws)

  -- `Properties`; an object with no fields makes the nil map.
  unfoldable pub properties : Fields k → Result (ValueMistake k) (Entries k)
  unfolding properties_loop
  properties fields = properties_loop fields no_entries

  -- The loop of `Annotations`, whose keys are the texts that the fields have.
  unfoldable annotations_loop : Fields k → Entries k → Result (ValueMistake k) (Entries k)
  unfolding property_of set
  annotations_loop no_fields made = ok made
  annotations_loop (field name value fields) made = do
    raw ← map_err (in_field annotation name) (property_of value)
    annotations_loop fields (set name raw made)

  unfoldable pub annotations : Fields k → Result (ValueMistake k) (Entries k)
  unfolding annotations_loop
  annotations fields = annotations_loop fields no_entries

  unfoldable mutual
    unfolding in_order name_order

    pub property_value : Untyped k → Result (ValueMistake k) (Value k)
    property_value nil = ok absent
    property_value (bool b) = ok (boolean b)
    property_value (int8 n) = ok (integer n)
    property_value (int16 n) = ok (integer n)
    property_value (int32 n) = ok (integer n)
    property_value (int64 n) = ok (integer n)
    property_value (int n) = ok (integer n)
    property_value (float32 x) = ok (number (k.widen x))
    property_value (float64 x) = ok (number x)
    property_value (string s) = ok (text s)
    property_value (byte_slice bs) = ok (bytes bs)
    property_value (time t) = ok (timestamp t)
    property_value (map_of_any raw) =
        in_order property (name_order raw) (read_entries raw) >>= (λ fields. ok (object fields))
    property_value (slice_of_any raw) = elements 0 raw >>= (λ values. ok (list values))
    property_value (uint8 n) = ok (integer (pos n))
    property_value (uint16 n) = ok (integer (pos n))
    property_value (uint32 n) = ok (integer (pos n))
    property_value (uuid u) = ok (text (k.uuid_text u))
    property_value (table raw) = err (unread_value (table raw))
    property_value (other type_name) = err (unread_value (other type_name))

    -- What `ReadProperties` reads at each name.
    pub read_entries : Entries k → Map (Result (ValueMistake k) (Value k))
    read_entries no_entries = []
    read_entries (entry name raw entries) = (name, property_value raw) ∷ read_entries entries

    pub elements : ℕ → Items k → Result (ValueMistake k) (Elements k)
    elements index no_items = ok no_elements
    elements index (item raw raws) = do
      value ← map_err (in_element index) (property_value raw)
      values ← elements (suc index) raws
      ok (element value values)

  unfoldable pub read_properties : Entries k → Result (ValueMistake k) (Fields k)
  unfolding in_order name_order read_entries
  read_properties raw = in_order property (name_order raw) (read_entries raw)
