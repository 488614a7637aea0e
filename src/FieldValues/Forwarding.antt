-- ===== src/FieldValues/Forwarding.antt =====
-- amqp091/field_values.go: what is read of a field table is sent on as it was read.
use effect_golang_web.Common.{
  ℕ, suc, ◌≡◌, refl, sym, ap, ◌∙◌, subst, inl, inr, some, [], ◌∷◌, ◌++◌, append_assoc, append-nil,
  Text, text_eq, lookup, insert, lookup-insert, ok, ◌>>=◌, map_err, map_err-eq-ok, >>=-eq-ok,
  ok-injective, if◌then◌else◌, Bool-cases,
}
use effect_golang_web.Common.Sorting.{sort, IsDistinct}
use effect_golang_web.Values.{
  Kinds, Value, absent, boolean, integer, number, text, bytes, timestamp, object, list, unknown,
  Fields, no_fields, field, Elements, no_elements, element, Untyped, nil, bool, int, int8, int16,
  int32, int64, uint8, uint16, uint32, float32, float64, string, uuid, byte_slice, time, table,
  map_of_any, slice_of_any, other, Entries, no_entries, entry, Items, no_items, item, header,
  ValueMistake, in_element, set, names, in_order,
}
use effect_golang_web.Values.Ordering.{
  field_names, IsCarried, AreCarried, ElementsCarried, IsMap, AreMaps, ItemsMaps, after_fields,
  names-set, AreCarried-IsStrict, in_order-after_fields, ReadsCarried, in_order-AreCarried, IsApart,
  IsApart-none, IsApart-next, leaf, as_object, as_list, with_element,
}
use effect_golang_web.FieldValues.{
  name_order, field_of, table_loop, fields_of, table_of, field_value, read_entries, elements,
  headers,
}

module _ {k : Kinds} where
  read_entries-set :
      (name : Text) (raw : Untyped k) (entries : Entries k)
      → read_entries (set name raw entries) ≡ insert name (field_value raw) (read_entries entries)
  unfolding set read_entries insert
  read_entries-set name raw no_entries = refl
  read_entries-set name raw (entry other_name old entries) =
      elim (Bool-cases (text_eq other_name name)) [
        | inl same ↦ rw same refl
        | inr apart ↦ rw (apart, read_entries-set name raw entries) refl
      ]

  -- A carried value is written, and what is written is read as the value.
  mutual
    unfolding field_of field_value name_order

    written :
        (v : Value k)
        → IsCarried v
        → (raw : Untyped k) × (field_of v ≡ ok raw) × (field_value raw ≡ ok v)
    written absent c = (nil, refl, refl)
    written (boolean b) c = (bool b, refl, refl)
    written (integer n) c = (int64 n, refl, refl)
    written (number x) c = (float64 x, refl, refl)
    written (text s) c = (string s, refl, refl)
    written (bytes bs) c = (byte_slice bs, refl, refl)
    written (timestamp t) c = (time t, refl, refl)
    written (object fields) c =
        let (raw, made, taken, read) = written_loop fields no_entries c (IsApart-none fields) in
        (
          table raw,
          rw made refl,
          ap (λ r. r >>= (λ fs. ok (object fs)))
              (in_order-after_fields header raw (read_entries raw) fields
                (AreCarried-IsStrict fields c) taken read),
        )
    written (list values) c =
        let (raw, made, read) = written_all values 0 c in
        (slice_of_any raw, rw made refl, rw read refl)
    written (unknown type_name) c = elim c [ ]

    written_loop :
        (fields : Fields k) (made : Entries k)
        → AreCarried fields
        → IsApart (names made) fields
        → (raw : Entries k) × (table_loop fields made ≡ ok raw)
          × (names raw ≡ names made ++ field_names fields)
          × ((name : Text)
              → lookup name (read_entries raw)
                ≡ after_fields name fields (lookup name (read_entries made)))
    written_loop no_fields made c a = (made, refl, sym (append-nil (names made)), λ j. refl)
    written_loop (field name value fields) made (c, b, cs) (n, a) =
        let (raw, to, from) = written value c in
        let (end, went, taken, read) = written_loop fields (set name raw made) cs (
          subst (λ ns. IsApart ns fields) (sym (names-set name raw made n))
            (IsApart-next (names made) name fields a b)) in
        (
          end,
          rw to went,
          taken
              ∙ ap (λ ns. ns ++ field_names fields) (names-set name raw made n)
              ∙ append_assoc (names made) (name ∷ []) (field_names fields),
          λ j.
              read j
              ∙ ap (λ r. after_fields j fields (lookup j r)) (read_entries-set name raw made)
              ∙ ap (after_fields j fields) (
                  lookup-insert name j (field_value raw) (read_entries made)
                  ∙ ap (λ r. if text_eq name j then some r else lookup j (read_entries made)) from),
        )

    written_all :
        (values : Elements k) (index : ℕ)
        → ElementsCarried values
        → (raw : Items k) × (fields_of index values ≡ ok raw) × (elements index raw ≡ ok values)
    written_all no_elements index c = (no_items, refl, refl)
    written_all (element value values) index (c, cs) =
        let (raw, to, from) = written value c in
        let (raws, tos, froms) = written_all values (suc index) cs in
        (item raw raws, rw (to, tos) refl, rw (from, froms) refl)

  -- What is read of a Go map is carried.
  mutual
    unfolding field_value name_order

    value-IsCarried :
        (raw : Untyped k) → IsMap raw → (v : Value k) → field_value raw ≡ ok v → IsCarried v
    value-IsCarried nil m v e = leaf absent v tt e
    value-IsCarried (bool b) m v e = leaf (boolean b) v tt e
    value-IsCarried (int n) m v e = leaf (integer n) v tt e
    value-IsCarried (int8 n) m v e = leaf (integer n) v tt e
    value-IsCarried (int16 n) m v e = leaf (integer n) v tt e
    value-IsCarried (int32 n) m v e = leaf (integer n) v tt e
    value-IsCarried (int64 n) m v e = leaf (integer n) v tt e
    value-IsCarried (float32 x) m v e = leaf (number (k.widen x)) v tt e
    value-IsCarried (float64 x) m v e = leaf (number x) v tt e
    value-IsCarried (string s) m v e = leaf (text s) v tt e
    value-IsCarried (byte_slice bs) m v e = leaf (bytes bs) v tt e
    value-IsCarried (time t) m v e = leaf (timestamp t) v tt e
    value-IsCarried (table raw) (m, d) v e =
        let (fields, read, same) =
          >>=-eq-ok (in_order header (sort (names raw)) (read_entries raw)) as_object e in
        leaf (object fields) v
          (in_order-AreCarried header raw (read_entries raw) fields (entries-ReadsCarried raw m) d
            read)
          same
    value-IsCarried (map_of_any raw) (m, d) v e =
        let (fields, read, same) =
          >>=-eq-ok (in_order header (sort (names raw)) (read_entries raw)) as_object e in
        leaf (object fields) v
          (in_order-AreCarried header raw (read_entries raw) fields (entries-ReadsCarried raw m) d
            read)
          same
    value-IsCarried (slice_of_any raws) m v e =
        let (values, read, same) = >>=-eq-ok (elements 0 raws) as_list e in
        leaf (list values) v (items-ElementsCarried raws 0 values m read) same
    value-IsCarried (uint8 n) m v e = cc
    value-IsCarried (uint16 n) m v e = cc
    value-IsCarried (uint32 n) m v e = cc
    value-IsCarried (uuid u) m v e = cc
    value-IsCarried (other type_name) m v e = cc

    entries-ReadsCarried : (raw : Entries k) → AreMaps raw → ReadsCarried (read_entries raw)
    entries-ReadsCarried no_entries m = tt
    entries-ReadsCarried (entry name raw entries) (m, ms) =
        (λ v e. value-IsCarried raw m v e, entries-ReadsCarried entries ms)

    items-ElementsCarried :
        (raws : Items k) (index : ℕ) (made : Elements k)
        → ItemsMaps raws
        → elements index raws ≡ ok made
        → ElementsCarried made
    items-ElementsCarried no_items index made m e =
        subst ElementsCarried (ok-injective {E = ValueMistake k} e) tt
    items-ElementsCarried (item raw raws) index made (m, ms) e =
        let (value, first, after) =
          >>=-eq-ok (map_err (in_element index) (field_value raw))
            (λ v. elements (suc index) raws >>= (λ vs. ok (element v vs))) e in
        let (rest, second, same) =
          >>=-eq-ok (elements (suc index) raws) (with_element value) after in
        subst ElementsCarried (ok-injective {E = ValueMistake k} same) (
          value-IsCarried raw m value
              (map_err-eq-ok (in_element index) (field_value raw) value first),
          items-ElementsCarried raws (suc index) rest ms second,
        )

  -- An object whose names stand in order, none twice, in it and in each object that it holds, and
  -- that holds no value of an unknown kind, is made a table, and the headers of that table are the
  -- object.
  pub headers-table_of :
      (fields : Fields k) → AreCarried fields → (table_of fields >>= headers) ≡ ok fields
  unfolding table_of headers name_order
  headers-table_of fields c =
      let (raw, made, taken, read) = written_loop fields no_entries c (IsApart-none fields) in
      rw made (
        in_order-after_fields header raw (read_entries raw) fields (AreCarried-IsStrict fields c)
          taken read)

  -- The headers that are read of a field table, in which as in a Go map no name stands twice, are
  -- made a table whose headers are the same, in the same order.
  pub forward_headers :
      (raw : Entries k) (fields : Fields k)
      → AreMaps raw
      → IsDistinct (names raw)
      → headers raw ≡ ok fields
      → AreCarried fields × ((table_of fields >>= headers) ≡ ok fields)
  unfolding headers name_order
  forward_headers raw fields m d e =
      let c =
        in_order-AreCarried header raw (read_entries raw) fields (entries-ReadsCarried raw m) d e in
      (c, headers-table_of fields c)
