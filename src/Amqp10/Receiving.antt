-- ===== src/Amqp10/Receiving.antt =====
-- amqp10/inprocess: what sending and receiving move.
use effect_golang_web.Common.{
  ℕ, ◌+◌, ◌≤◌, ◌≡◌, refl, ap, subst, inl, inr, Bool, true, false, Option, none, some, List, [], ◌∷◌,
  ◌++◌, Text, lookup, insert, ok, ok-injective, ==_iff, ◌==◌, Bool-cases, Option-cases, arith,
}
use effect_golang_web.Amqp10.{
  Message, Delivery, Broker, Sender, Receiver, next_tag, declare_node, delivery_of, sent_to, send,
  drop_unsettled, taken_from, receive, received_unless, LinkFault,
}
use effect_golang_web.Amqp10.Counting.{
  count, held, count-append, node_count-insert, node_count-new, count-drop, Grows, insert-Grows,
  one_if,
}
use effect_golang_web.Amqp10.Keeping.{IsMove}

module _ {P : Type 0} where
  abbrev pub IsReceive :
      ℕ → Broker P → Receiver P → Option (Delivery P) × Receiver P × Broker P → Type 0
  IsReceive n broker link (got, link_after, after) = IsMove n broker link (link_after, after)

  received-Moves :
      (n : ℕ) (link : Receiver P) (broker : Broker P) (delivery : Delivery P)
      (backlog : List (Delivery P))
      → held delivery.tag broker + count delivery.tag link.unsettled ≤ 1
      → lookup link.address broker.nodes ≡ some (delivery ∷ backlog)
      → held n (record broker { nodes = insert link.address backlog broker.nodes })
          + count n (delivery ∷ drop_unsettled delivery.tag link.unsettled)
        ≡ held n broker + count n link.unsettled
  received-Moves n link broker delivery backlog few there =
      let moved =
        node_count-insert n link.address (delivery ∷ backlog) backlog broker.nodes there in
      elim (Bool-cases (delivery.tag == n)) [
        | inl same ↦
            let equal : delivery.tag ≡ n = (==_iff delivery.tag n).0 same in
            let least = subst (λ t. held t broker + count t link.unsettled ≤ 1) equal few in
            rw (count-drop n delivery.tag link.unsettled, same)
              (omega (arith, least, moved, ap one_if same))
        | inr other ↦
            rw (count-drop n delivery.tag link.unsettled, other)
              (omega (arith, moved, ap one_if other))
      ]

  taken-IsReceive :
      (n : ℕ) (link : Receiver P) (broker : Broker P) (found : Option (List (Delivery P)))
      (end : Option (Delivery P) × Receiver P × Broker P)
      → ((tag : ℕ) → held tag broker + count tag link.unsettled ≤ 1)
      → lookup link.address broker.nodes ≡ found
      → taken_from link broker found ≡ ok end
      → IsReceive n broker link end
  unfolding taken_from
  taken-IsReceive n link broker none end few there h = cc
  taken-IsReceive n link broker (some []) end few there h =
      subst (IsReceive n broker link) (ok-injective {E = LinkFault} h)
        (refl, refl, refl, λ other k. k)
  taken-IsReceive n link broker (some (delivery ∷ backlog)) end few there h =
      subst (IsReceive n broker link) (ok-injective {E = LinkFault} h) (
        received-Moves n link broker delivery backlog (few delivery.tag) there,
        refl,
        refl,
        λ other k. insert-Grows link.address backlog broker.nodes other k,
      )

  received_unless-IsReceive :
      (n : ℕ) (detached : Bool) (link : Receiver P) (broker : Broker P)
      (end : Option (Delivery P) × Receiver P × Broker P)
      → ((tag : ℕ) → held tag broker + count tag link.unsettled ≤ 1)
      → received_unless detached link broker ≡ ok end
      → IsReceive n broker link end
  unfolding received_unless
  received_unless-IsReceive n true link broker end few h =
      subst (IsReceive n broker link) (ok-injective {E = LinkFault} h)
        (refl, refl, refl, λ other k. k)
  received_unless-IsReceive n false link broker end few h =
      taken-IsReceive n link broker (lookup link.address broker.nodes) end few refl h

  -- A receive moves at most one delivery of the broker to the link.
  pub receive-IsReceive :
      (n : ℕ) (link : Receiver P) (broker : Broker P)
      (end : Option (Delivery P) × Receiver P × Broker P)
      → ((tag : ℕ) → held tag broker + count tag link.unsettled ≤ 1)
      → receive link broker ≡ ok end
      → IsReceive n broker link end
  unfolding receive
  receive-IsReceive n link broker end few h =
      received_unless-IsReceive n link.detached link broker end few h

  sent_to-held :
      (n : ℕ) (address : Text) (message : Message P) (broker after : Broker P)
      (found : Option (List (Delivery P)))
      → lookup address broker.nodes ≡ found
      → sent_to broker address message found ≡ ok after
      → (held n after ≡ held n broker + one_if (next_tag broker.tag == n))
        × (after.tag ≡ next_tag broker.tag)
        × Grows broker after
  unfolding sent_to
  sent_to-held n address message broker after none there h = cc
  sent_to-held n address message broker after (some backlog) there h =
      let sent = delivery_of message (next_tag broker.tag) in
      subst
        (λ (b : Broker P).
          (held n b ≡ held n broker + one_if (next_tag broker.tag == n))
          × (b.tag ≡ next_tag broker.tag)
          × Grows broker b)
        (ok-injective {E = LinkFault} h)
        (
          omega (
            arith,
            node_count-insert n address backlog (backlog ++ sent ∷ []) broker.nodes there,
            count-append n backlog (sent ∷ []),
          ),
          refl,
          λ other k. insert-Grows address (backlog ++ sent ∷ []) broker.nodes other k,
        )

  -- A message that is sent is a new delivery at the broker, under the next tag.
  pub send-held :
      (n : ℕ) (link : Sender P) (message : Message P) (broker after : Broker P)
      → send link message broker ≡ ok after
      → (held n after ≡ held n broker + one_if (next_tag broker.tag == n))
        × (after.tag ≡ next_tag broker.tag)
        × Grows broker after
  unfolding send
  send-held n link message broker after h = elim (Bool-cases link.detached) [
    | inl gone ↦ cc (rw gone at h)
    | inr there ↦
        sent_to-held n link.address message broker after (lookup link.address broker.nodes) refl
          (rw there at h)
  ]

  pub declare_node-held :
      (n : ℕ) (broker : Broker P) (address : Text)
      → (held n (declare_node broker address) ≡ held n broker)
        × ((declare_node broker address).tag ≡ broker.tag)
        × Grows broker (declare_node broker address)
  unfolding declare_node
  declare_node-held n broker address = elim (Option-cases (lookup address broker.nodes)) [
    | inl missing ↦ rw missing (
      omega (arith, node_count-new n address broker.nodes missing),
      refl,
      λ other k. insert-Grows address [] broker.nodes other k,
    )
    | inr (backlog, there) ↦ rw there (refl, refl, λ other k. k)
  ]
