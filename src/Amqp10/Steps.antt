-- ===== src/Amqp10/Steps.antt =====
-- amqp10/inprocess: a broker and the links that receive from it, in any order of operations.
use effect_golang_web.Common.{
  ℕ, suc, ◌+◌, ◌≤◌, ◌≡◌, refl, sym, ap, subst, ◌∙◌, inl, inr, Bool, true, false, ◌&&◌, Option, List,
  [], ◌∷◌, ◌++◌, Text, lookup, is_some, ok, ok-injective, ◌==◌, ltb, leb, Bool-cases, arith, All,
}
use effect_golang_web.Amqp10.{
  Message, Delivery, Broker, Sender, Receiver, Disposition, next_tag, declare_node, attach_receiver,
  send, receive, settle, close_receiver, LinkFault,
}
use effect_golang_web.Amqp10.Counting.{
  one_if, count, held, unsettled_count, unsettled_count-append, Grows,
}
use effect_golang_web.Amqp10.Keeping.{IsMove, settle-IsMove}
use effect_golang_web.Amqp10.Receiving.{receive-IsReceive, send-held, declare_node-held}

pub record System (P : Type 0) : Type 0 where
  pub broker : Broker P
  pub links : List (Receiver P)

abbrev pub system_of : {P : Type 0} → Broker P → List (Receiver P) → System P
system_of broker' links' = record { broker = broker'; links = links' }

-- One operation of the test, a sender or a receiver; the counter of the broker does not wrap.
pub data Step {P : Type 0} : System P → System P → Type 0 where
  declared :
      {broker : Broker P} {links : List (Receiver P)} (address : Text)
      → Step (system_of broker links) (system_of (declare_node broker address) links)
  attached :
      {broker : Broker P} {links : List (Receiver P)} (link : Receiver P) (address : Text)
      → attach_receiver broker address ≡ ok link
      → Step (system_of broker links) (system_of broker (link ∷ links))
  sent :
      {broker after : Broker P} {links : List (Receiver P)} (sender : Sender P)
      (message : Message P)
      → send sender message broker ≡ ok after
      → next_tag broker.tag ≡ suc broker.tag
      → Step (system_of broker links) (system_of after links)
  received :
      {broker after : Broker P} (link link_after : Receiver P) (got : Option (Delivery P))
      (before later : List (Receiver P))
      → receive link broker ≡ ok (got, link_after, after)
      → Step
          (system_of broker (before ++ link ∷ later))
          (system_of after (before ++ link_after ∷ later))
  disposed :
      {broker after : Broker P} (link link_after : Receiver P) (before later : List (Receiver P))
      (disposition : Disposition P) (tag : ℕ)
      → settle disposition tag link broker ≡ ok (link_after, after)
      → Step
          (system_of broker (before ++ link ∷ later))
          (system_of after (before ++ link_after ∷ later))
  closed :
      {broker : Broker P} (link : Receiver P) (before later : List (Receiver P))
      → Step
          (system_of broker (before ++ link ∷ later))
          (system_of broker (before ++ close_receiver link ∷ later))

one_if-le : (b : Bool) → one_if b ≤ 1
one_if-le true = omega arith
one_if-le false = omega arith

next_count :
    (n tag : ℕ)
    → one_if (ltb 0 n && leb n tag) + one_if (suc tag == n) ≡ one_if (ltb 0 n && leb n (suc tag))
next_count n tag = ground arith

module _ {P : Type 0} where
  -- How often a tag stands in the whole: in a backlog, unsettled at a link, accepted or rejected.
  abbrev pub total : ℕ → System P → ℕ
  total n system = held n system.broker + unsettled_count n system.links

  abbrev pub IsKnown : Broker P → Receiver P → Type 0
  IsKnown broker link = is_some (lookup link.address broker.nodes) ≡ true

  -- Each tag that was given out stands in one place, and no other tag in any; and each link is at a
  -- node.
  pub record IsKept (system : System P) : Type 0 where
    pub once : (n : ℕ) → total n system ≡ one_if (ltb 0 n && leb n system.broker.tag)
    pub known : All (IsKnown system.broker) system.links

  All-IsKnown :
      (broker after : Broker P) (links : List (Receiver P))
      → Grows broker after
      → All (IsKnown broker) links
      → All (IsKnown after) links
  All-IsKnown broker after [] grows a = tt
  All-IsKnown broker after (link ∷ links) grows (k, a) =
      (grows link.address k, All-IsKnown broker after links grows a)

  All-at :
      (broker : Broker P) (before later : List (Receiver P)) (link : Receiver P)
      → All (IsKnown broker) (before ++ link ∷ later)
      → IsKnown broker link
  All-at broker [] later link (k, a) = k
  All-at broker (first ∷ before) later link (_, a) = All-at broker before later link a

  All-replace :
      (broker : Broker P) (before later : List (Receiver P)) (link other : Receiver P)
      → IsKnown broker other
      → All (IsKnown broker) (before ++ link ∷ later)
      → All (IsKnown broker) (before ++ other ∷ later)
  All-replace broker [] later link other k (_, a) = (k, a)
  All-replace broker (first ∷ before) later link other k (f, a) =
      (f, All-replace broker before later link other k a)

  -- A link holds, with the broker, no tag twice.
  few_at :
      (broker : Broker P) (before later : List (Receiver P)) (link : Receiver P)
      → IsKept (system_of broker (before ++ link ∷ later))
      → (tag : ℕ) → held tag broker + count tag link.unsettled ≤ 1
  few_at broker before later link kept tag = omega (
    arith,
    kept.once tag,
    unsettled_count-append tag before (link ∷ later),
    one_if-le (ltb 0 tag && leb tag broker.tag),
  )

  -- A link is replaced by what a move makes of it.
  moved-IsKept :
      (broker after : Broker P) (before later : List (Receiver P)) (link link_after : Receiver P)
      → IsKept (system_of broker (before ++ link ∷ later))
      → ((n : ℕ) → IsMove n broker link (link_after, after))
      → IsKept (system_of after (before ++ link_after ∷ later))
  moved-IsKept broker after before later link link_after kept moves =
      let (_, tags, address, grows) = moves 0 in
      record {
        once = λ n. omega (
          arith,
          kept.once n,
          (moves n).0,
          unsettled_count-append n before (link ∷ later),
          unsettled_count-append n before (link_after ∷ later),
          ap (λ t. one_if (ltb 0 n && leb n t)) tags,
        );
        known =
            All-replace after before later link link_after
              (grows link_after.address (
                subst (λ a. is_some (lookup a broker.nodes) ≡ true) (sym address)
                  (All-at broker before later link kept.known)))
              (All-IsKnown broker after (before ++ link ∷ later) grows kept.known);
      }

  attached-IsKnown :
      (broker : Broker P) (address : Text) (link : Receiver P)
      → attach_receiver broker address ≡ ok link
      → IsKnown broker link × (link.unsettled ≡ [])
  unfolding attach_receiver
  attached-IsKnown broker address link h =
      elim (Bool-cases (is_some (lookup address broker.nodes))) [
        | inl there ↦
            subst (λ (r : Receiver P). IsKnown broker r × (r.unsettled ≡ []))
              (ok-injective {E = LinkFault} (rw there at h)) (there, refl)
        | inr missing ↦ cc (rw missing at h)
      ]

  sent-once :
      (n : ℕ) (broker after : Broker P) (sender : Sender P) (message : Message P)
      (links : List (Receiver P))
      → send sender message broker ≡ ok after
      → next_tag broker.tag ≡ suc broker.tag
      → total n (system_of broker links) ≡ one_if (ltb 0 n && leb n broker.tag)
      → total n (system_of after links) ≡ one_if (ltb 0 n && leb n after.tag)
  sent-once n broker after sender message links done counted once =
      let (holds, tags, _) = send-held n sender message broker after done in
      omega (
        arith,
        once,
        holds,
        ap (λ t. one_if (t == n)) counted,
        next_count n broker.tag,
        ap (λ t. one_if (ltb 0 n && leb n t)) (tags ∙ counted),
      )

  -- Every operation, whose counter does not wrap, leads from a kept system to a kept system: each tag
  -- that was given out stands in one place, waiting at a node, unsettled at one link, or accepted or
  -- rejected once; a tag that was not given out stands nowhere; and each link is at a node.
  pub Step-IsKept : (before after : System P) → Step before after → IsKept before → IsKept after
  Step-IsKept before after (declared {broker = broker} {links = links} address) kept = record {
    once = λ n. omega (
      arith,
      kept.once n,
      (declare_node-held n broker address).0,
      ap (λ t. one_if (ltb 0 n && leb n t)) (declare_node-held n broker address).1,
    );
    known =
        All-IsKnown broker (declare_node broker address) links
          (declare_node-held 0 broker address).2 kept.known;
  }
  Step-IsKept before after (attached {broker = broker} {links = links} link address opened) kept =
      let (there, empty) = attached-IsKnown broker address link opened in
      record {
        once = λ n. omega (arith, kept.once n, ap (count n) empty);
        known = (there, kept.known);
      }
  Step-IsKept before after
        (sent {broker = broker} {after = later} {links = links} sender message done counted) kept =
      record {
        once = λ n. sent-once n broker later sender message links done counted (kept.once n);
        known =
            All-IsKnown broker later links (send-held 0 sender message broker later done).2
              kept.known;
      }
  Step-IsKept before after
        (received {broker = broker} {after = next} link link_after got first later done) kept =
      moved-IsKept broker next first later link link_after kept (λ n.
        receive-IsReceive n link broker (got, link_after, next)
          (few_at broker first later link kept) done)
  Step-IsKept before after
        (disposed {broker = broker} {after = next} link link_after first later disposition tag done)
        kept =
      let few : count tag link.unsettled ≤ 1 =
        omega (arith, few_at broker first later link kept tag) in
      moved-IsKept broker next first later link link_after kept (λ n.
        settle-IsMove n disposition tag link link_after broker next
          (All-at broker first later link kept.known) few done)
  Step-IsKept before after (closed {broker = broker} link first later) kept =
      unfold close_receiver in
      moved-IsKept broker broker first later link (close_receiver link) kept
        (λ n. (refl, refl, refl, λ address known. known))
