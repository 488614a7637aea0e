-- ===== src/Amqp.antt =====
-- amqp091/inprocess: a broker in this process, in broker.go, operations.go and subscription.go. A
-- queue is never removed or replaced, so a pointer to it is its name. A body is the list of its bytes.
pub mod Routing
pub mod Tests
use effect_golang_web.Common.{
  ◌≡◌, ℕ, ◌+◌, ◌%◌, ◌^◌, Bool, true, false, ◌&&◌, ◌||◌, not, Option, none, some, List, [], ◌∷◌,
  ◌++◌, Text, text_eq, length, ltb, ◌==◌, Map, lookup, insert, is_some, Result, ok, err, ◌>>=◌,
  if◌then◌else◌,
}
use effect_golang_web.Path.{is_empty}

pub data ExchangeKind : Type 0 where
  direct topic fanout by_header : ExchangeKind

pub record Exchange : Type 0 where
  pub name : Text
  pub kind : ExchangeKind

pub record Binding : Type 0 where
  pub exchange : Text
  pub queue : Text
  pub key : Text

pub record Target : Type 0 where
  pub exchange : Text
  pub key : Text

-- `H` is the schema library's dynamic object.
pub record Message (H : Type 0) : Type 0 where
  pub body : List ℕ
  pub content_type : Text
  pub headers : H

pub record Delivery (H : Type 0) : Type 0 where
  pub body : List ℕ
  pub content_type : Text
  pub headers : H
  pub exchange : Text
  pub key : Text
  pub tag : ℕ
  pub redelivered : Bool

pub record Queue (H : Type 0) : Type 0 where
  pub backlog : List (Delivery H)
  pub unsettled : List (ℕ × Delivery H)

pub record Settlements : Type 0 where
  pub acks : List ℕ
  pub discards : List ℕ
  pub requeues : List ℕ

pub record Broker (H : Type 0) : Type 0 where
  pub exchanges : Map Exchange
  pub queues : Map (Queue H)
  pub bindings : List Binding
  pub tag : ℕ
  pub outcomes : Settlements

pub data BrokerFault : Type 0 where
  no_such_queue no_such_exchange not_routable unknown_tag queue_full : BrokerFault

-- The buffer of the channel that holds a backlog.
abbrev pub capacity : ℕ
capacity = 1024

-- `map[uint64]amqp091.Delivery`
unfoldable pub find_tag : {A : Type 0} → ℕ → List (ℕ × A) → Option A
find_tag tag [] = none
find_tag tag ((t, a) ∷ rest) = let found' = find_tag tag rest in if t == tag then some a else found'

unfoldable pub drop_tag : {A : Type 0} → ℕ → List (ℕ × A) → List (ℕ × A)
drop_tag tag [] = []
drop_tag tag ((t, a) ∷ rest) =
    let kept = drop_tag tag rest in if t == tag then kept else (t, a) ∷ kept

abbrev pub or_missing : {A : Type 0} → BrokerFault → Option A → Result BrokerFault A
or_missing fault none = err fault
or_missing fault (some a) = ok a

abbrev takes : ExchangeKind → Bool
takes fanout = true
takes _ = false

-- The queues that the bindings name, in the order of the bindings.
unfoldable pub bound_queues : ExchangeKind → Target → List Binding → List Text
bound_queues kind target [] = []
bound_queues kind target (binding ∷ bindings) =
    let rest = bound_queues kind target bindings in
    if text_eq binding.exchange target.exchange && (takes kind || text_eq binding.key target.key)
    then binding.queue ∷ rest
    else rest

abbrev pub routable : ExchangeKind → Bool
routable direct = true
routable fanout = true
routable _ = false

module _ {H : Type 0} where
  unfoldable pub new_broker : Broker H
  new_broker = record {
    exchanges = [];
    queues = [];
    bindings = [];
    tag = 0;
    outcomes = record { acks = []; discards = []; requeues = [] };
  }

  unfoldable pub offer : Queue H → Delivery H → Result BrokerFault (Queue H)
  offer queue delivery =
      if ltb (length queue.backlog) capacity
      then ok (record queue { backlog = queue.backlog ++ delivery ∷ [] })
      else err queue_full

  unfoldable pub depth : Broker H → Text → ℕ
  depth broker name = elim (lookup name broker.queues) [
    | none ↦ 0
    | some queue ↦ length queue.backlog
  ]

  unfoldable pub find_queue : Broker H → Text → Result BrokerFault (Queue H)
  unfolding lookup
  find_queue broker name = or_missing no_such_queue (lookup name broker.queues)

  unfoldable pub route_targets : Broker H → Target → Result BrokerFault (List Text)
  unfolding bound_queues lookup
  route_targets broker target =
      if is_empty target.exchange
      then ok (target.key ∷ [])
      else or_missing no_such_exchange (lookup target.exchange broker.exchanges) >>= (λ exchange.
        if routable exchange.kind
        then ok (bound_queues exchange.kind target broker.bindings)
        else err not_routable)

  abbrev pub delivery_of : Target → Message H → ℕ → Delivery H
  delivery_of target message tag' = record {
    body = message.body;
    content_type = message.content_type;
    headers = message.headers;
    exchange = target.exchange;
    key = target.key;
    tag = tag';
    redelivered = false;
  }

  -- `broker.tag++` on 64 bits
  abbrev pub next_tag : Broker H → Broker H
  next_tag broker = record broker { tag = (broker.tag + 1) % 2 ^ 64 }

  -- The loop of `queuesFor`: the tags that it takes stay taken where a queue is missing.
  pub place :
      Broker H
      → Target
      → Message H
      → List Text
      → Broker H × Result BrokerFault (List (Text × Delivery H))
  unfolding find_queue
  place broker target message [] = (broker, ok [])
  place broker target message (name ∷ names) =
      let (after, rest) = place (next_tag broker) target message names in
      elim (find_queue broker name) [
        | err fault ↦ (broker, err fault)
        | ok queue ↦ (
          after,
          rest >>= (λ more. ok ((name, delivery_of target message (next_tag broker).tag) ∷ more)),
        )
      ]

  -- The loop of `Publish`: what was placed before a full queue stays placed.
  pub place_all : Broker H → List (Text × Delivery H) → Broker H × Option BrokerFault
  unfolding find_queue offer insert
  place_all broker [] = (broker, none)
  place_all broker ((name, delivery) ∷ placements) =
      elim (find_queue broker name >>= (λ queue. offer queue delivery)) [
        | err fault ↦ (broker, some fault)
        | ok queue ↦
            place_all (record broker { queues = insert name queue broker.queues }) placements
      ]

  abbrev pub placed :
      Broker H × Result BrokerFault (List (Text × Delivery H)) → Broker H × Option BrokerFault
  unfolding place_all
  placed (broker, err fault) = (broker, some fault)
  placed (broker, ok placements) = place_all broker placements

  unfoldable pub publish : Broker H → Target → Message H → Broker H × Option BrokerFault
  unfolding route_targets place placed
  publish broker target message = elim (route_targets broker target) [
    | err fault ↦ (broker, some fault)
    | ok names ↦ placed (place broker target message names)
  ]

  unfoldable pub declare_exchange : Broker H → Exchange → Broker H
  unfolding insert
  declare_exchange broker exchange = record broker {
    exchanges = insert exchange.name exchange broker.exchanges;
  }

  unfoldable pub declare_queue : Broker H → Text → Broker H
  unfolding insert lookup
  declare_queue broker name =
      if is_some (lookup name broker.queues) then broker else record broker {
        queues = insert name (record { backlog = []; unsettled = [] }) broker.queues;
      }

  unfoldable pub bind : Broker H → Binding → Result BrokerFault (Broker H)
  unfolding find_queue lookup
  bind broker binding =
      if not (is_some (lookup binding.exchange broker.exchanges))
      then err no_such_exchange
      else find_queue broker binding.queue
        >>= (λ queue. ok (record broker { bindings = broker.bindings ++ binding ∷ [] }))

  abbrev take_first : Broker H → Text → Queue H → List (Delivery H) → Option (Broker H × Delivery H)
  take_first broker name queue [] = none
  take_first broker name queue (delivery ∷ backlog') = some (
    record broker {
      queues =
          insert name
            (record {
              backlog = backlog';
              unsettled = (delivery.tag, delivery) ∷ drop_tag delivery.tag queue.unsettled;
            })
            broker.queues;
    },
    delivery,
  )

  -- A subscription waits, here `none`, while there is nothing to receive.
  unfoldable pub next : Broker H → Text → Option (Broker H × Delivery H)
  unfolding lookup insert drop_tag
  next broker name = elim (lookup name broker.queues) [
    | none ↦ none
    | some queue ↦ take_first broker name queue queue.backlog
  ]

  unfoldable pub settle : Broker H → Text → ℕ → Result BrokerFault (Broker H × Delivery H)
  unfolding find_queue find_tag drop_tag insert
  settle broker name tag = do
    queue ← find_queue broker name
    delivery ← or_missing unknown_tag (find_tag tag queue.unsettled)
    ok (
      record broker {
        queues =
            insert name (record queue { unsettled = drop_tag tag queue.unsettled }) broker.queues;
      },
      delivery,
    )

  unfoldable pub ack : Broker H → Text → ℕ → Result BrokerFault (Broker H)
  unfolding settle
  ack broker name tag = settle broker name tag >>= (λ (after, delivery). ok (record after {
    outcomes = record after.outcomes { acks = after.outcomes.acks ++ tag ∷ [] };
  }))

  unfoldable pub discard : Broker H → Text → ℕ → Result BrokerFault (Broker H)
  unfolding settle
  discard broker name tag = settle broker name tag >>= (λ (after, delivery). ok (record after {
    outcomes = record after.outcomes { discards = after.outcomes.discards ++ tag ∷ [] };
  }))

  -- The delivery goes to the end of the queue; if the queue is full by then, it is in neither place.
  unfoldable pub requeue : Broker H → Text → ℕ → Broker H × Option BrokerFault
  unfolding settle place_all
  requeue broker name tag = elim (settle broker name tag) [
    | err fault ↦ (broker, some fault)
    | ok taken ↦
        place_all
          (record taken.0 {
            outcomes = record taken.0.outcomes { requeues = taken.0.outcomes.requeues ++ tag ∷ [] };
          })
          ((name, record taken.1 { redelivered = true }) ∷ [])
  ]
