-- ===== src/Amqp10.antt =====
-- amqp10/inprocess: a broker of AMQP 1.0 in this process, its links and the four dispositions. The tag
-- of a delivery is the number in it: the broker counts it up with every message, so the text that is
-- written of address and number differs where the numbers do. Each operation is one step, though the
-- source lets go of the lock of a link before it takes that of the broker. The map of the unsettled
-- deliveries is the list of its values, which are kept under their own tags.
pub mod Counting
pub mod Keeping
pub mod Receiving
pub mod Steps
pub mod Tests
use effect_golang_web.Common.{
  ℕ, suc, ◌+◌, ◌%◌, ◌^◌, ◌≡◌, Bool, true, false, Option, none, some, List, [], ◌∷◌, ◌++◌, Text, Map,
  lookup, insert, is_some, length, Result, ok, err, ◌==◌, if◌then◌else◌,
}

pub data Durability : Type 0 where
  transient durable : Durability

module _ (Properties : Type 0) where
  pub record Message : Type 0 where
    pub body : Text
    pub content_type : Text
    pub subject : Text
    pub properties : Properties
    pub durability : Durability

  pub record Delivery : Type 0 where
    pub body : Text
    pub content_type : Text
    pub subject : Text
    pub properties : Properties
    pub tag : ℕ
    pub attempts : ℕ

  pub record Change : Type 0 where
    pub delivery_failed : Bool
    pub undeliverable_here : Bool
    pub annotations : Properties

  pub record Rejection : Type 0 where
    pub tag : ℕ
    pub reason : Text

  pub record Modification : Type 0 where
    pub tag : ℕ
    pub change : Change

  pub record Settlements : Type 0 where
    pub accepted : List ℕ
    pub rejected : List Rejection
    pub released : List ℕ
    pub modified : List Modification

  pub record Broker : Type 0 where
    pub nodes : Map (List Delivery)
    pub tag : ℕ
    pub outcomes : Settlements

  pub record Sender : Type 0 where
    pub address : Text
    pub detached : Bool

  pub record Receiver : Type 0 where
    pub address : Text
    pub unsettled : List Delivery
    pub detached : Bool

  pub data Disposition : Type 0 where
    accept release : Disposition
    reject : Text → Disposition
    modify : Change → Disposition

pub data LinkFault : Type 0 where
  no_such_node link_detached unknown_tag : LinkFault

abbrev pub Received : Type 0 → Type 0
Received P = Result LinkFault (Option (Delivery P) × Receiver P × Broker P)

-- The counter is a uint64.
unfoldable pub next_tag : ℕ → ℕ
next_tag tag = suc tag % 2 ^ 64

module _ {P : Type 0} where
  unfoldable pub new_broker : Broker P
  new_broker = record {
    nodes = [];
    tag = 0;
    outcomes = record { accepted = []; rejected = []; released = []; modified = [] };
  }

  unfoldable pub declare_node : Broker P → Text → Broker P
  unfolding lookup insert
  declare_node broker address =
      if is_some (lookup address broker.nodes)
      then broker
      else record broker { nodes = insert address [] broker.nodes }

  backlog_length : Option (List (Delivery P)) → ℕ
  backlog_length none = 0
  backlog_length (some backlog) = length backlog

  unfoldable pub depth : Broker P → Text → ℕ
  unfolding backlog_length lookup
  depth broker address = backlog_length (lookup address broker.nodes)

  unfoldable pub attach_sender : Broker P → Text → Result LinkFault (Sender P)
  unfolding lookup
  attach_sender broker address' =
      if is_some (lookup address' broker.nodes)
      then ok (record { address = address'; detached = false })
      else err no_such_node

  unfoldable pub attach_receiver : Broker P → Text → Result LinkFault (Receiver P)
  unfolding lookup
  attach_receiver broker address' =
      if is_some (lookup address' broker.nodes)
      then ok (record { address = address'; unsettled = []; detached = false })
      else err no_such_node

  abbrev pub delivery_of : Message P → ℕ → Delivery P
  delivery_of message tag' = record {
    body = message.body;
    content_type = message.content_type;
    subject = message.subject;
    properties = message.properties;
    tag = tag';
    attempts = 0;
  }

  unfoldable pub close_sender : Sender P → Sender P
  close_sender link = record link { detached = true }

  unfoldable pub close_receiver : Receiver P → Receiver P
  close_receiver link = record link { detached = true }

  abbrev pub sent_to :
      Broker P → Text → Message P → Option (List (Delivery P)) → Result LinkFault (Broker P)
  unfolding next_tag insert
  sent_to broker address message none = err no_such_node
  sent_to broker address message (some backlog) = ok (record broker {
    tag = next_tag broker.tag;
    nodes = insert address (backlog ++ delivery_of message (next_tag broker.tag) ∷ []) broker.nodes;
  })

  unfoldable pub send : Sender P → Message P → Broker P → Result LinkFault (Broker P)
  unfolding lookup insert
  send link message broker =
      if link.detached
      then err link_detached
      else sent_to broker link.address message (lookup link.address broker.nodes)

  unfoldable pub find_unsettled : ℕ → List (Delivery P) → Option (Delivery P)
  find_unsettled tag [] = none
  find_unsettled tag (delivery ∷ unsettled) =
      let rest = find_unsettled tag unsettled in if delivery.tag == tag then some delivery else rest

  unfoldable pub drop_unsettled : ℕ → List (Delivery P) → List (Delivery P)
  drop_unsettled tag [] = []
  drop_unsettled tag (delivery ∷ unsettled) =
      let rest = drop_unsettled tag unsettled in
      if delivery.tag == tag then rest else delivery ∷ rest

  abbrev pub taken_from : Receiver P → Broker P → Option (List (Delivery P)) → Received P
  unfolding drop_unsettled insert
  taken_from link broker none = err no_such_node
  taken_from link broker (some []) = ok (none, link, broker)
  taken_from link broker (some (delivery ∷ backlog)) = ok (
    some delivery,
    record link { unsettled = delivery ∷ drop_unsettled delivery.tag link.unsettled },
    record broker { nodes = insert link.address backlog broker.nodes },
  )

  abbrev pub received_unless : Bool → Receiver P → Broker P → Received P
  unfolding taken_from lookup
  received_unless true link broker = ok (none, link, broker)
  received_unless false link broker = taken_from link broker (lookup link.address broker.nodes)

  -- `Receive` under a context that has not ended; none is the end of the messages.
  unfoldable pub receive : Receiver P → Broker P → Received P
  unfolding received_unless
  receive link broker = received_unless link.detached link broker

  abbrev pub put_back : Text → Delivery P → Broker P → Option (List (Delivery P)) → Broker P
  unfolding insert
  put_back address delivery broker none = broker
  put_back address delivery broker (some backlog) = record broker {
    nodes = insert address (backlog ++ delivery ∷ []) broker.nodes;
  }

  unfoldable pub redeliver : Receiver P → Delivery P → Broker P → Broker P
  unfolding put_back lookup
  redeliver link delivery broker =
      put_back link.address delivery broker (lookup link.address broker.nodes)

  abbrev with_outcomes : Broker P → Settlements P → Broker P
  with_outcomes broker outcomes' = record broker { outcomes = outcomes' }

  -- What each disposition does under the lock of the broker; `attempts` is a uint32.
  unfoldable pub decide : Disposition P → ℕ → Receiver P → Delivery P → Broker P → Broker P
  unfolding redeliver
  decide accept tag link delivery broker =
      with_outcomes broker
        (record broker.outcomes { accepted = broker.outcomes.accepted ++ tag ∷ [] })
  decide (reject reason') tag' link delivery broker = with_outcomes broker (record broker.outcomes {
    rejected = broker.outcomes.rejected ++ record { tag = tag'; reason = reason' } ∷ [];
  })
  decide release tag link delivery broker = redeliver link delivery (
      with_outcomes broker
        (record broker.outcomes { released = broker.outcomes.released ++ tag ∷ [] }))
  decide (modify change') tag' link delivery broker =
      redeliver link
        (if change'.undeliverable_here
          then delivery
          else record delivery { attempts = suc delivery.attempts % 2 ^ 32 })
        (with_outcomes broker (record broker.outcomes {
          modified = broker.outcomes.modified ++ record { tag = tag'; change = change' } ∷ [];
        }))

  abbrev pub settled :
      Disposition P
      → ℕ
      → Receiver P
      → Broker P
      → Option (Delivery P)
      → Result LinkFault (Receiver P × Broker P)
  unfolding decide drop_unsettled
  settled disposition tag link broker none = err unknown_tag
  settled disposition tag link broker (some delivery) = ok (
    record link { unsettled = drop_unsettled tag link.unsettled },
    decide disposition tag link delivery broker,
  )

  -- `Accept`, `Reject`, `Release` and `Modify`, by their disposition.
  unfoldable pub settle :
      Disposition P → ℕ → Receiver P → Broker P → Result LinkFault (Receiver P × Broker P)
  unfolding settled find_unsettled
  settle disposition tag link broker =
      settled disposition tag link broker (find_unsettled tag link.unsettled)
