-- ===== src/FieldValues.antt =====
-- amqp091/field_values.go: an object as a field table, and a field table as an object.
pub mod Forwarding
mod Tests
use effect_golang_web.Common.{ℕ, suc, List, [], ◌∷◌, Text, Map, Result, ok, err, ◌>>=◌, map_err}
use effect_golang_web.Common.Sorting.{sort}
use effect_golang_web.Values.{
  Kinds, ℤ, pos, negsuc, Value, absent, boolean, integer, number, text, bytes, timestamp, object,
  list, unknown, Fields, no_fields, field, Elements, no_elements, element, Untyped, nil, bool, int,
  int8, int16, int32, int64, uint8, uint16, uint32, float32, float64, string, uuid, byte_slice,
  time, table, map_of_any, slice_of_any, other, Entries, no_entries, entry, Items, no_items, item,
  Holder, header, property, annotation, ValueMistake, in_field, in_element, unheld_value,
  unread_value, set, names, found, in_order,
}

module _ {k : Kinds} where
  unfoldable pub name_order : Entries k → List Text
  unfolding names sort
  name_order raw = sort (names raw)

  unfoldable mutual
    unfolding set

    pub field_of : Value k → Result (ValueMistake k) (Untyped k)
    field_of absent = ok nil
    field_of (boolean b) = ok (bool b)
    field_of (integer n) = ok (int64 n)
    field_of (number x) = ok (float64 x)
    field_of (text s) = ok (string s)
    field_of (bytes bs) = ok (byte_slice bs)
    field_of (timestamp t) = ok (time t)
    field_of (object fields) = table_loop fields no_entries >>= (λ made. ok (table made))
    field_of (list elements) = fields_of 0 elements >>= (λ made. ok (slice_of_any made))
    field_of (unknown type_name) = err (unheld_value (unknown type_name))

    -- The loop of `Table`, with the map that is made so far.
    pub table_loop : Fields k → Entries k → Result (ValueMistake k) (Entries k)
    table_loop no_fields made = ok made
    table_loop (field name value fields) made = do
      raw ← map_err (in_field header name) (field_of value)
      table_loop fields (set name raw made)

    pub fields_of : ℕ → Elements k → Result (ValueMistake k) (Items k)
    fields_of index no_elements = ok no_items
    fields_of index (element value elements) = do
      raw ← map_err (in_element index) (field_of value)
      raws ← fields_of (suc index) elements
      ok (item raw raws)

  -- `Table`; an object with no fields makes the nil map.
  unfoldable pub table_of : Fields k → Result (ValueMistake k) (Entries k)
  unfolding table_loop
  table_of fields = table_loop fields no_entries

  unfoldable mutual
    unfolding in_order name_order

    pub field_value : Untyped k → Result (ValueMistake k) (Value k)
    field_value nil = ok absent
    field_value (bool b) = ok (boolean b)
    field_value (int8 n) = ok (integer n)
    field_value (int16 n) = ok (integer n)
    field_value (int32 n) = ok (integer n)
    field_value (int64 n) = ok (integer n)
    field_value (int n) = ok (integer n)
    field_value (float32 x) = ok (number (k.widen x))
    field_value (float64 x) = ok (number x)
    field_value (string s) = ok (text s)
    field_value (byte_slice bs) = ok (bytes bs)
    field_value (time t) = ok (timestamp t)
    field_value (table raw) =
        in_order header (name_order raw) (read_entries raw) >>= (λ fields. ok (object fields))
    field_value (map_of_any raw) =
        in_order header (name_order raw) (read_entries raw) >>= (λ fields. ok (object fields))
    field_value (slice_of_any raw) = elements 0 raw >>= (λ values. ok (list values))
    field_value (uint8 n) = err (unread_value (uint8 n))
    field_value (uint16 n) = err (unread_value (uint16 n))
    field_value (uint32 n) = err (unread_value (uint32 n))
    field_value (uuid u) = err (unread_value (uuid u))
    field_value (other type_name) = err (unread_value (other type_name))

    -- What `Headers` reads at each name.
    pub read_entries : Entries k → Map (Result (ValueMistake k) (Value k))
    read_entries no_entries = []
    read_entries (entry name raw entries) = (name, field_value raw) ∷ read_entries entries

    pub elements : ℕ → Items k → Result (ValueMistake k) (Elements k)
    elements index no_items = ok no_elements
    elements index (item raw raws) = do
      value ← map_err (in_element index) (field_value raw)
      values ← elements (suc index) raws
      ok (element value values)

  unfoldable pub headers : Entries k → Result (ValueMistake k) (Fields k)
  unfolding in_order name_order read_entries
  headers raw = in_order header (name_order raw) (read_entries raw)
