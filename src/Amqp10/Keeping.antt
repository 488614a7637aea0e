-- ===== src/Amqp10/Keeping.antt =====
-- amqp10/inprocess: no message is lost or doubled, whatever the links do.
use effect_golang_web.Common.{
  ℕ, suc, ◌+◌, ◌%◌, ◌^◌, ◌≤◌, ◌≡◌, refl, sym, ap, subst, ◌∙◌, inl, inr, Bool, true, false, List, [],
  ◌∷◌, ◌++◌, lookup, is_some, ok, ok-injective, ==_iff, ◌==◌, if◌then◌else◌, Bool-cases,
  Option-cases, arith,
}
use effect_golang_web.Amqp10.{
  Delivery, Broker, Receiver, Disposition, accept, release, reject, modify, find_unsettled,
  drop_unsettled, put_back, redeliver, decide, settled, settle, LinkFault,
}
use effect_golang_web.Amqp10.Counting.{
  accepted_count-append, count, held, count-append, rejected_count-append, node_count-insert,
  count-drop, count-find, Grows, insert-Grows, one_if,
}

module _ {P : Type 0} where
  -- What a step of one link does: its deliveries and the broker's are together those of before.
  abbrev pub Moves : ℕ → Broker P → Receiver P → Broker P → Receiver P → Type 0
  Moves n before link after link_after =
      held n after + count n link_after.unsettled ≡ held n before + count n link.unsettled

  -- A broker comes to hold a tag once more, or as often as before.
  abbrev Gains : ℕ → Bool → Broker P → Broker P → Type 0
  Gains n gained before after =
      (held n after ≡ held n before + one_if gained) × (after.tag ≡ before.tag) × Grows before after

  -- A link and its broker after such a step.
  abbrev pub IsMove : ℕ → Broker P → Receiver P → Receiver P × Broker P → Type 0
  IsMove n broker link (link_after, after) =
      Moves n broker link after link_after
      × (after.tag ≡ broker.tag)
      × (link_after.address ≡ link.address)
      × Grows broker after

  attempted_tag :
      (given_up : Bool) (delivery : Delivery P)
      → (if given_up
          then delivery
          else record delivery { attempts = suc delivery.attempts % 2 ^ 32 }).tag
        ≡ delivery.tag
  attempted_tag true delivery = refl
  attempted_tag false delivery = refl

  put_back-held :
      (n : ℕ) (link : Receiver P) (delivery : Delivery P) (broker : Broker P)
      → is_some (lookup link.address broker.nodes) ≡ true
      → Gains n (delivery.tag == n) broker (redeliver link delivery broker)
  unfolding redeliver put_back
  put_back-held n link delivery broker known =
      elim (Option-cases (lookup link.address broker.nodes)) [
        | inl missing ↦ cc (known, ap is_some missing)
        | inr (backlog, there) ↦ rw there (
          omega (
            arith,
            node_count-insert n link.address backlog (backlog ++ delivery ∷ []) broker.nodes there,
            count-append n backlog (delivery ∷ []),
          ),
          refl,
          λ other k. insert-Grows link.address (backlog ++ delivery ∷ []) broker.nodes other k,
        )
      ]

  decide-held :
      (n : ℕ) (disposition : Disposition P) (tag : ℕ) (link : Receiver P) (delivery : Delivery P)
      (broker : Broker P)
      → is_some (lookup link.address broker.nodes) ≡ true
      → delivery.tag ≡ tag
      → Gains n (tag == n) broker (decide disposition tag link delivery broker)
  unfolding decide
  decide-held n accept tag link delivery broker known its = (
    omega (arith, accepted_count-append n broker.outcomes.accepted (tag ∷ [])),
    refl,
    λ other k. k,
  )
  decide-held n (reject reason) tag link delivery broker known its = (
    omega (
      arith,
      rejected_count-append {P = P} n broker.outcomes.rejected
          (record { tag = tag; reason = reason } ∷ []),
    ),
    refl,
    λ other k. k,
  )
  decide-held n release tag link delivery broker known its =
      subst (λ t. Gains n (t == n) broker (decide release tag link delivery broker)) its
        (put_back-held n link delivery
          (record broker {
            outcomes = record broker.outcomes { released = broker.outcomes.released ++ tag ∷ [] };
          })
          known)
  decide-held n (modify change) tag link delivery broker known its =
      subst (λ t. Gains n (t == n) broker (decide (modify change) tag link delivery broker))
        (attempted_tag change.undeliverable_here delivery ∙ its)
        (put_back-held n link
          (if change.undeliverable_here
            then delivery
            else record delivery { attempts = suc delivery.attempts % 2 ^ 32 })
          (record broker {
            outcomes = record broker.outcomes {
              modified = broker.outcomes.modified ++ record { tag = tag; change = change } ∷ [];
            };
          })
          known)

  count-drop_found :
      (n tag : ℕ) (unsettled : List (Delivery P))
      → count tag unsettled ≡ 1
      → count n (drop_unsettled tag unsettled) + one_if (tag == n) ≡ count n unsettled
  count-drop_found n tag unsettled one = elim (Bool-cases (tag == n)) [
    | inl same ↦
        let equal : tag ≡ n = (==_iff tag n).0 same in
        rw (count-drop n tag unsettled, same) (subst (λ t. 1 ≡ count t unsettled) equal (sym one))
    | inr other ↦ rw (count-drop n tag unsettled, other) (omega arith)
  ]

  -- A disposition moves one delivery of the link to the broker, or refuses.
  pub settle-IsMove :
      (n : ℕ) (disposition : Disposition P) (tag : ℕ) (link link_after : Receiver P)
      (broker after : Broker P)
      → is_some (lookup link.address broker.nodes) ≡ true
      → count tag link.unsettled ≤ 1
      → settle disposition tag link broker ≡ ok (link_after, after)
      → IsMove n broker link (link_after, after)
  unfolding settle settled
  settle-IsMove n disposition tag link link_after broker after known few h =
      elim (Option-cases (find_unsettled tag link.unsettled)) [
        | inl missing ↦ cc (rw missing at h)
        | inr (delivery, there) ↦
            let same = ok-injective {E = LinkFault} (rw there at h) in
            let (its, one) = count-find tag link.unsettled delivery there in
            let (keeps, tags, grows) =
              decide-held n disposition tag link delivery broker known its in
            let exact : count tag link.unsettled ≡ 1 = omega (arith, few, one) in
            subst (IsMove n broker link) same
              (omega (arith, keeps, count-drop_found n tag link.unsettled exact), tags, refl, grows)
      ]
