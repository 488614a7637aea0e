-- ===== src/FieldValues/Tests.antt =====
-- amqp091/field_values.go: a field table that arrives, and witnesses.
use effect_golang_web.Common.{
  ℕ, ◌≡◌, refl, inl, inr, [], ◌∷◌, codes, ne_of_text_eq, Result, ok, err, ◌>>=◌,
}
use effect_golang_web.Common.Sorting.{sort}
use effect_golang_web.Values.{
  Kinds, ValueMistake, pos, integer, text, object, list, Fields, no_fields, field, no_elements,
  element, int8, int64, string, other, map_of_any, slice_of_any, Entries, no_entries, entry,
  no_items, item, in_field, in_element, unread_value, header, names, in_order,
}
use effect_golang_web.FieldValues.{headers, table_of}
use effect_golang_web.Values.Ordering.{AreCarried}
use effect_golang_web.FieldValues.Forwarding.{forward_headers, headers-table_of}

abbrev plain_kinds : Kinds
plain_kinds = record {
  Float32 = ℕ;
  Float64 = ℕ;
  Instant = ℕ;
  Uuid = ℕ;
  widen = λ x. x;
  uuid_text = λ u. u ∷ [];
}

abbrev inner : Entries plain_kinds
inner = entry (codes "z") (int8 (pos 1)) (entry (codes "y") (string (codes "t")) no_entries)

-- What arrives, in no order.
abbrev arrived : Entries plain_kinds
arrived = entry (codes "b") (int8 (pos 3)) (
    entry (codes "a") (map_of_any inner)
      (entry (codes "c") (slice_of_any (item (int64 (pos 5)) no_items)) no_entries))

-- The same by name.
abbrev carried : Fields plain_kinds
carried =
    field (codes "a")
      (object
        (field (codes "y") (text (codes "t")) (field (codes "z") (integer (pos 1)) no_fields)))
      (field (codes "b") (integer (pos 3))
        (field (codes "c") (list (element (integer (pos 5)) no_elements)) no_fields))

arrived_read : headers arrived ≡ ok carried
unfolding headers sort in_order
arrived_read = refl

abbrev Read : Type 0
Read = Result (ValueMistake plain_kinds) (Fields plain_kinds)

abbrev refused_read : ValueMistake plain_kinds → Read
refused_read mistake = err mistake

unread_place :
    headers (entry (codes "k") (slice_of_any (item (other (codes "T")) no_items)) no_entries)
    ≡ refused_read (in_field header (codes "k") (in_element 0 (unread_value (other (codes "T")))))
unfolding headers sort in_order
unread_place = refl

headers-table_of_example : (table_of carried >>= headers) ≡ ok carried
headers-table_of_example = headers-table_of carried (
  (tt, ((refl, ne_of_text_eq (codes "y") (codes "z") refl), tt), (tt, tt, tt)),
  (
    (refl, ne_of_text_eq (codes "a") (codes "b") refl),
    ((refl, ne_of_text_eq (codes "a") (codes "c") refl), tt),
  ),
  (tt, ((refl, ne_of_text_eq (codes "b") (codes "c") refl), tt), ((tt, tt), tt, tt)),
)

forward_headers_example : AreCarried carried × ((table_of carried >>= headers) ≡ ok carried)
unfolding names
forward_headers_example =
    forward_headers arrived carried
      (
        tt,
        (
          (
            (tt, (tt, tt)),
            (
              λ h. elim h [
                | inl e ↦ ne_of_text_eq (codes "y") (codes "z") refl e
                | inr n ↦ elim n [ ]
              ],
              (λ h. elim h [ ], tt),
            ),
          ),
          ((tt, tt), tt),
        ),
      )
      (
        λ h. elim h [
          | inl e ↦ ne_of_text_eq (codes "a") (codes "b") refl e
          | inr h ↦ elim h [
            | inl e ↦ ne_of_text_eq (codes "c") (codes "b") refl e
            | inr n ↦ elim n [ ]
          ]
        ],
        (
          λ h. elim h [ inl e ↦ ne_of_text_eq (codes "c") (codes "a") refl e | inr n ↦ elim n [ ] ],
          (λ h. elim h [ ], tt),
        ),
      )
      arrived_read
