-- ===== src/Amqp10/Counting.antt =====
-- amqp10/inprocess: how often the tag of a delivery stands at a broker or at a link.
use effect_golang_web.Common.{
  ℕ, ◌+◌, ◌≤◌, ◌≡◌, refl, ap, subst, inl, inr, Bool, true, false, none, some, List, [], ◌∷◌, ◌++◌,
  Text, Map, lookup, insert, is_some, text_eq, lookup-insert, some-injective, ==_iff, ◌==◌,
  if◌then◌else◌, Bool-cases, arith,
}
use effect_golang_web.Amqp10.{Delivery, Rejection, Broker, Receiver, find_unsettled, drop_unsettled}

abbrev pub one_if : Bool → ℕ
one_if true = 1
one_if false = 0

module _ (n : ℕ) where
  abbrev accepted_count : List ℕ → ℕ
  accepted_count [] = 0
  accepted_count (tag ∷ tags) = one_if (tag == n) + accepted_count tags

  pub accepted_count-append :
      (xs ys : List ℕ) → accepted_count (xs ++ ys) ≡ accepted_count xs + accepted_count ys
  accepted_count-append [] ys = omega arith
  accepted_count-append (x ∷ xs) ys = omega (arith, accepted_count-append xs ys)

module _ {P : Type 0} (n : ℕ) where
  -- How often the tag stands in a place.
  abbrev pub count : List (Delivery P) → ℕ
  count [] = 0
  count (delivery ∷ deliveries) = one_if (delivery.tag == n) + count deliveries

  abbrev node_count : Map (List (Delivery P)) → ℕ
  node_count [] = 0
  node_count ((address, backlog) ∷ nodes) = count backlog + node_count nodes

  abbrev rejected_count : List (Rejection P) → ℕ
  rejected_count [] = 0
  rejected_count (rejection ∷ rejections) = one_if (rejection.tag == n) + rejected_count rejections

  abbrev pub unsettled_count : List (Receiver P) → ℕ
  unsettled_count [] = 0
  unsettled_count (link ∷ links) = count link.unsettled + unsettled_count links

  -- How often the tag stands at the broker: in a backlog, accepted or rejected.
  abbrev pub held : Broker P → ℕ
  held broker =
      node_count broker.nodes
      + (accepted_count n broker.outcomes.accepted + rejected_count broker.outcomes.rejected)

  pub count-append : (xs ys : List (Delivery P)) → count (xs ++ ys) ≡ count xs + count ys
  count-append [] ys = omega arith
  count-append (x ∷ xs) ys = omega (arith, count-append xs ys)

  pub rejected_count-append :
      (xs ys : List (Rejection P))
      → rejected_count (xs ++ ys) ≡ rejected_count xs + rejected_count ys
  rejected_count-append [] ys = omega arith
  rejected_count-append (x ∷ xs) ys = omega (arith, rejected_count-append xs ys)

  pub unsettled_count-append :
      (xs ys : List (Receiver P))
      → unsettled_count (xs ++ ys) ≡ unsettled_count xs + unsettled_count ys
  unsettled_count-append [] ys = omega arith
  unsettled_count-append (x ∷ xs) ys = omega (arith, unsettled_count-append xs ys)

  -- A backlog is put in the place of another.
  pub node_count-insert :
      (address : Text) (old new : List (Delivery P)) (nodes : Map (List (Delivery P)))
      → lookup address nodes ≡ some old
      → node_count (insert address new nodes) + count old ≡ node_count nodes + count new
  unfolding lookup insert
  node_count-insert address old new [] h = cc
  node_count-insert address old new ((other, backlog) ∷ nodes) h =
      elim (Bool-cases (text_eq other address)) [
        | inl same ↦
            let found = some-injective (rw same at h) in rw same (omega (arith, ap count found))
        | inr apart ↦
            let rest = node_count-insert address old new nodes (rw apart at h) in
            rw apart (omega (arith, rest))
      ]

  pub node_count-new :
      (address : Text) (nodes : Map (List (Delivery P)))
      → lookup address nodes ≡ none
      → node_count (insert address [] nodes) ≡ node_count nodes
  unfolding lookup insert
  node_count-new address [] h = omega arith
  node_count-new address ((other, backlog) ∷ nodes) h = elim (Bool-cases (text_eq other address)) [
    | inl same ↦ cc (rw same at h)
    | inr apart ↦
        let rest = node_count-new address nodes (rw apart at h) in rw apart (omega (arith, rest))
  ]

  pub count-drop :
      (tag : ℕ) (unsettled : List (Delivery P))
      → count (drop_unsettled tag unsettled) ≡ (if tag == n then 0 else count unsettled)
  unfolding drop_unsettled
  count-drop tag [] = ground arith
  count-drop tag (delivery ∷ unsettled) = ground (arith, count-drop tag unsettled)

module _ {P : Type 0} where
  -- What is found has the tag, and is there.
  pub count-find :
      (tag : ℕ) (unsettled : List (Delivery P)) (delivery : Delivery P)
      → find_unsettled tag unsettled ≡ some delivery
      → (delivery.tag ≡ tag) × (1 ≤ count tag unsettled)
  unfolding find_unsettled
  count-find tag [] delivery h = cc
  count-find tag (first ∷ unsettled) delivery h = elim (Bool-cases (first.tag == tag)) [
    | inl same ↦
        let found = some-injective (rw same at h) in
        (
          subst (λ (d : Delivery P). d.tag ≡ tag) found ((==_iff first.tag tag).0 same),
          rw same (omega arith),
        )
    | inr other ↦
        let (its, there) = count-find tag unsettled delivery (rw other at h) in
        (its, rw other (omega (arith, there)))
  ]

  -- No node is taken away.
  abbrev pub Grows : Broker P → Broker P → Type 0
  Grows before after =
      (address : Text)
      → is_some (lookup address before.nodes) ≡ true
      → is_some (lookup address after.nodes) ≡ true

  pub insert-Grows :
      (address : Text) (backlog : List (Delivery P)) (nodes : Map (List (Delivery P)))
      (other : Text)
      → is_some (lookup other nodes) ≡ true
      → is_some (lookup other (insert address backlog nodes)) ≡ true
  insert-Grows address backlog nodes other known =
      rw (lookup-insert address other backlog nodes) (elim (Bool-cases (text_eq address other)) [
        | inl same ↦ rw same refl
        | inr apart ↦ rw apart known
      ])
