-- ===== src/Values/Ordering.antt =====
-- Objects whose fields stand in the order of their names, and maps read in that order.
use effect_golang_web.Common.{
  ◌≡◌, refl, sym, ap, subst, ◌∙◌, ◌≢◌, inl, inr, true, Option, none, some, List, [], ◌∷◌, ◌++◌,
  Text, text_eq, text_eq_iff, text_eq_refl, lookup, Map, Result, ok, ◌>>=◌, map_err, map_err-eq-ok,
  >>=-eq-ok, Bool-cases, All, Any, if◌then◌else◌, ok-injective, Any-append_inv,
}
use effect_golang_web.Common.Sorting.{
  text_leb, sort, IsSorted, sort-IsSorted, IsDistinct, Distinct-sort, sort_sorted,
}
use effect_golang_web.Values.{
  Kinds, Value, absent, boolean, integer, number, text, bytes, timestamp, object, list, unknown,
  Fields, no_fields, field, Elements, no_elements, element, Untyped, table, map_of_any,
  slice_of_any, Entries, no_entries, entry, Items, no_items, item, Holder, ValueMistake, in_field,
  set, names, found, in_order,
}

-- `n` stands strictly before `m`.
abbrev pub Before : Text → Text → Type 0
Before n m = (text_leb n m ≡ true) × (n ≢ m)

abbrev pub IsStrict : List Text → Type 0
IsStrict [] = Unit
IsStrict (n ∷ ns) = All (Before n) ns × IsStrict ns

module _ {k : Kinds} where
  abbrev pub field_names : Fields k → List Text
  field_names no_fields = []
  field_names (field name value fields) = name ∷ field_names fields

  -- Each object in the value has its fields in the order of their names, none twice, and no part is
  -- a value that the source cannot convert.
  abbrev mutual
    pub IsCarried : Value k → Type 0
    IsCarried (object fields) = AreCarried fields
    IsCarried (list elements) = ElementsCarried elements
    IsCarried (unknown type_name) = ⊥
    IsCarried absent = Unit
    IsCarried (boolean b) = Unit
    IsCarried (integer n) = Unit
    IsCarried (number x) = Unit
    IsCarried (text s) = Unit
    IsCarried (bytes bs) = Unit
    IsCarried (timestamp t) = Unit

    pub AreCarried : Fields k → Type 0
    AreCarried no_fields = Unit
    AreCarried (field name value fields) =
        IsCarried value × All (Before name) (field_names fields) × AreCarried fields

    pub ElementsCarried : Elements k → Type 0
    ElementsCarried no_elements = Unit
    ElementsCarried (element value elements) = IsCarried value × ElementsCarried elements

  -- A Go map: no name twice, in the map and in each map that it holds.
  abbrev mutual
    pub IsMap : Untyped k → Type 0
    IsMap (table raw) = AreMaps raw × IsDistinct (names raw)
    IsMap (map_of_any raw) = AreMaps raw × IsDistinct (names raw)
    IsMap (slice_of_any raw) = ItemsMaps raw
    IsMap _ = Unit

    pub AreMaps : Entries k → Type 0
    AreMaps no_entries = Unit
    AreMaps (entry name raw entries) = IsMap raw × AreMaps entries

    pub ItemsMaps : Items k → Type 0
    ItemsMaps no_items = Unit
    ItemsMaps (item raw raws) = IsMap raw × ItemsMaps raws

  -- What the map finds after the fields are set in it, the last of two with one name.
  abbrev pub after_fields :
      Text
      → Fields k
      → Option (Result (ValueMistake k) (Value k))
      → Option (Result (ValueMistake k) (Value k))
  after_fields name no_fields before = before
  after_fields name (field other_name value fields) before =
      after_fields name fields (if text_eq other_name name then some (ok value) else before)

  -- Each field is what the map finds.
  abbrev pub Finds : Map (Result (ValueMistake k) (Value k)) → Fields k → Type 0
  Finds read no_fields = Unit
  Finds read (field name value fields) = (lookup name read ≡ some (ok value)) × Finds read fields

  -- No field has the name of an entry.
  abbrev pub IsApart : List Text → Fields k → Type 0
  IsApart taken no_fields = Unit
  IsApart taken (field name value fields) = ¬ (Any (λ m. m ≡ name) taken) × IsApart taken fields

  pub IsApart-none : (fields : Fields k) → IsApart [] fields
  IsApart-none no_fields = tt
  IsApart-none (field name value fields) = (λ h. elim h [ ], IsApart-none fields)

  pub IsApart-next :
      (taken : List Text) (name : Text) (fields : Fields k)
      → IsApart taken fields
      → All (Before name) (field_names fields)
      → IsApart (taken ++ name ∷ []) fields
  IsApart-next taken name no_fields h a = tt
  IsApart-next taken name (field other_name value fields) (n, h) (b, a) = (
    λ i. elim (Any-append_inv (λ m. m ≡ other_name) taken (name ∷ []) i) [
      | inl before ↦ n before
      | inr last ↦ elim last [ inl same ↦ b.1 same | inr never ↦ elim never [ ] ]
    ],
    IsApart-next taken name fields h a,
  )

  pub names-set :
      (name : Text) (raw : Untyped k) (entries : Entries k)
      → ¬ (Any (λ m. m ≡ name) (names entries))
      → names (set name raw entries) ≡ names entries ++ name ∷ []
  unfolding names set
  names-set name raw no_entries n = refl
  names-set name raw (entry other_name old entries) n =
      elim (Bool-cases (text_eq other_name name)) [
        | inl same ↦ absurd (n (inl ((text_eq_iff other_name name).0 same)))
        | inr apart ↦
            rw apart (ap (λ r. other_name ∷ r) (names-set name raw entries (λ h. n (inr h))))
      ]

  pub in_order-Finds :
      (whose : Holder k) (read : Map (Result (ValueMistake k) (Value k))) (fields : Fields k)
      → Finds read fields
      → in_order whose (field_names fields) read ≡ ok fields
  unfolding in_order
  in_order-Finds w read no_fields h = refl
  in_order-Finds w read (field name value fields) (h, hs) =
      rw (h, in_order-Finds w read fields hs) refl

  after_fields-apart :
      (name : Text) (fields : Fields k) (before : Option (Result (ValueMistake k) (Value k)))
      → All (Before name) (field_names fields)
      → after_fields name fields before ≡ before
  after_fields-apart name no_fields before a = refl
  after_fields-apart name (field other_name value fields) before (b, a) =
      elim (Bool-cases (text_eq other_name name)) [
        | inl same ↦ absurd (b.1 (sym ((text_eq_iff other_name name).0 same)))
        | inr apart ↦ rw apart (after_fields-apart name fields before a)
      ]

  pub AreCarried-IsStrict : (fields : Fields k) → AreCarried fields → IsStrict (field_names fields)
  AreCarried-IsStrict no_fields c = tt
  AreCarried-IsStrict (field name value fields) (_, a, c) = (a, AreCarried-IsStrict fields c)

  -- Fields in order, set in a map, are found there.
  after_fields-Finds :
      (read : Map (Result (ValueMistake k) (Value k))) (fields : Fields k)
      (before : Text → Option (Result (ValueMistake k) (Value k)))
      → IsStrict (field_names fields)
      → ((name : Text) → lookup name read ≡ after_fields name fields (before name))
      → Finds read fields
  after_fields-Finds read no_fields before s h = tt
  after_fields-Finds read (field name value fields) before (a, s) h = (
    h name ∙ rw (text_eq_refl name) (after_fields-apart name fields (some (ok value)) a),
    after_fields-Finds read fields (λ j. if text_eq name j then some (ok value) else before j) s h,
  )

IsStrict-IsSorted : (ns : List Text) → IsStrict ns → IsSorted ns
IsStrict-IsSorted [] s = tt
IsStrict-IsSorted (n ∷ ns) (a, s) = (weaken ns a, IsStrict-IsSorted ns s)
  where
    weaken : (ms : List Text) → All (Before n) ms → All (λ m. text_leb n m ≡ true) ms
    weaken [] b = tt
    weaken (m ∷ ms) (b, bs) = (b.0, weaken ms bs)

module _ {k : Kinds} where
  -- A map that was made of fields in order is read as those fields.
  pub in_order-after_fields :
      (whose : Holder k) (raw : Entries k) (read : Map (Result (ValueMistake k) (Value k)))
      (fields : Fields k)
      → IsStrict (field_names fields)
      → names raw ≡ field_names fields
      → ((name : Text) → lookup name read ≡ after_fields name fields none)
      → in_order whose (sort (names raw)) read ≡ ok fields
  in_order-after_fields w raw read fields s e h =
      ap (λ ns. in_order w ns read)
        (ap sort e ∙ sort_sorted (field_names fields) (IsStrict-IsSorted (field_names fields) s))
      ∙ in_order-Finds w read fields (after_fields-Finds read fields (λ j. none) s h)

-- Each result of the map, where it is one, is carried.
abbrev pub ReadsCarried : {k : Kinds} → Map (Result (ValueMistake k) (Value k)) → Type 0
ReadsCarried {k} [] = Unit
ReadsCarried {k} ((name, result) ∷ read) =
    ((value : Value k) → result ≡ ok value → IsCarried value) × ReadsCarried read

module _ {k : Kinds} where
  found-IsCarried :
      (read : Map (Result (ValueMistake k) (Value k))) (name : Text) (value : Value k)
      → ReadsCarried read
      → found (lookup name read) ≡ ok value
      → IsCarried value
  unfolding lookup
  found-IsCarried [] name value c e = subst IsCarried (ok-injective {E = ValueMistake k} e) tt
  found-IsCarried ((other_name, result) ∷ read) name value (c, cs) e =
      elim (Bool-cases (text_eq other_name name)) [
        | inl same ↦ c value (rw same at e)
        | inr apart ↦ found-IsCarried read name value cs (rw apart at e)
      ]

  in_order-IsCarried :
      (whose : Holder k) (read : Map (Result (ValueMistake k) (Value k))) (order : List Text)
      (made : Fields k)
      → ReadsCarried read
      → IsStrict order
      → in_order whose order read ≡ ok made
      → (field_names made ≡ order) × AreCarried made
  unfolding in_order
  in_order-IsCarried w read [] made c s e =
      subst (λ fs. (field_names fs ≡ []) × AreCarried fs) (ok-injective {E = ValueMistake k} e)
        (refl, tt)
  in_order-IsCarried w read (name ∷ order) made c (a, s) e =
      let (value, first, after) =
        >>=-eq-ok (map_err (in_field w name) (found (lookup name read)))
          (λ v. in_order w order read >>= (λ fs. ok (field name v fs))) e in
      let (rest, second, ended) =
        >>=-eq-ok (in_order w order read) (λ fs. ok (field name value fs)) after in
      let (same, carried) = in_order-IsCarried w read order rest c s second in
      subst (λ fs. (field_names fs ≡ name ∷ order) × AreCarried fs)
        (ok-injective {E = ValueMistake k} ended)
        (
          ap (λ ns. name ∷ ns) same,
          (
            found-IsCarried read name value c
                (map_err-eq-ok (in_field w name) (found (lookup name read)) value first),
            subst (All (Before name)) (sym same) a,
            carried,
          ),
        )

IsDistinct-IsStrict : (ns : List Text) → IsSorted ns → IsDistinct ns → IsStrict ns
IsDistinct-IsStrict [] s d = tt
IsDistinct-IsStrict (n ∷ ns) (a, s) (m, d) = (both ns a m, IsDistinct-IsStrict ns s d)
  where
    both :
        (us : List Text)
        → All (λ u. text_leb n u ≡ true) us
        → ¬ (Any (λ u. u ≡ n) us)
        → All (Before n) us
    both [] h k = tt
    both (u ∷ us) (h, hs) k = ((h, λ e. k (inl (sym e))), both us hs (λ i. k (inr i)))

module _ {k : Kinds} where
  -- What is read of a Go map in the order of its names is carried.
  pub in_order-AreCarried :
      (whose : Holder k) (raw : Entries k) (read : Map (Result (ValueMistake k) (Value k)))
      (fields : Fields k)
      → ReadsCarried read
      → IsDistinct (names raw)
      → in_order whose (sort (names raw)) read ≡ ok fields
      → AreCarried fields
  in_order-AreCarried w raw read fields c d e =
      (in_order-IsCarried w read (sort (names raw)) fields c
        (IsDistinct-IsStrict (sort (names raw)) (sort-IsSorted (names raw))
          (Distinct-sort (names raw) d))
        e).1

  pub leaf :
      (v w : Value k)
      → IsCarried v
      → ◌≡◌ {A = Result (ValueMistake k) (Value k)} (ok v) (ok w)
      → IsCarried w
  leaf v w c e = subst IsCarried (ok-injective {E = ValueMistake k} e) c

  abbrev pub as_object : Fields k → Result (ValueMistake k) (Value k)
  as_object fields = ok (object fields)

  abbrev pub as_list : Elements k → Result (ValueMistake k) (Value k)
  as_list values = ok (list values)

  abbrev pub with_element : Value k → Elements k → Result (ValueMistake k) (Elements k)
  with_element value values = ok (element value values)
