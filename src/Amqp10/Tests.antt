-- ===== src/Amqp10/Tests.antt =====
-- amqp10/inprocess: a message that is sent, received and given back.
use effect_golang_web.Common.{◌≡◌, refl, ok, some, [], ◌∷◌, codes, err, false, arith}
use effect_golang_web.Amqp10.{
  Message, Delivery, depth, transient, release, accept, Broker, Sender, Receiver, next_tag,
  new_broker, declare_node, attach_receiver, close_sender, delivery_of, send, sent_to, receive,
  settle, link_detached, unknown_tag,
}
use effect_golang_web.Amqp10.Steps.{
  system_of, attached, sent, received, disposed, IsKept, Step-IsKept,
}

abbrev order : Message Unit
order = record {
  body = codes "one";
  content_type = codes "text/plain";
  subject = codes "order";
  properties = tt;
  durability = transient;
}

abbrev order_delivery : Delivery Unit
order_delivery = delivery_of order 1

abbrev orders_broker : Broker Unit
orders_broker = record {
  nodes = (codes "orders", []) ∷ [];
  tag = 0;
  outcomes = record { accepted = []; rejected = []; released = []; modified = [] };
}

abbrev sent_broker : Broker Unit
sent_broker = record orders_broker { nodes = (codes "orders", order_delivery ∷ []) ∷ []; tag = 1 }

abbrev taken_broker : Broker Unit
taken_broker = record orders_broker { tag = 1 }

abbrev released_broker : Broker Unit
released_broker = record {
  nodes = (codes "orders", order_delivery ∷ []) ∷ [];
  tag = 1;
  outcomes = record { accepted = []; rejected = []; released = 1 ∷ []; modified = [] };
}

abbrev orders_sender : Sender Unit
orders_sender = record { address = codes "orders"; detached = false }

abbrev orders_receiver : Receiver Unit
orders_receiver = record { address = codes "orders"; unsettled = []; detached = false }

abbrev holding_receiver : Receiver Unit
holding_receiver = record orders_receiver { unsettled = order_delivery ∷ [] }

declares_orders : declare_node {P = Unit} new_broker (codes "orders") ≡ orders_broker
unfolding declare_node new_broker
declares_orders = refl

attaches_orders : attach_receiver orders_broker (codes "orders") ≡ ok orders_receiver
unfolding attach_receiver
attaches_orders = refl

sends_order : send orders_sender order orders_broker ≡ ok sent_broker
unfolding send sent_to
sends_order = refl

takes_order :
    receive orders_receiver sent_broker ≡ ok (some order_delivery, holding_receiver, taken_broker)
unfolding receive
takes_order = refl

releases_order :
    settle release 1 holding_receiver taken_broker ≡ ok (orders_receiver, released_broker)
unfolding settle
releases_order = refl

waits_again : depth released_broker (codes "orders") ≡ 1
unfolding depth
waits_again = refl

settles_unknown : settle accept 2 holding_receiver taken_broker ≡ err unknown_tag
unfolding settle
settles_unknown = refl

closed_sender : send (close_sender orders_sender) order orders_broker ≡ err link_detached
unfolding send close_sender
closed_sender = refl

orders_broker-IsKept : IsKept (system_of orders_broker [])
orders_broker-IsKept = record { once = λ n. ground arith; known = tt }

taken-IsKept : IsKept (system_of taken_broker (holding_receiver ∷ []))
unfolding next_tag
taken-IsKept =
    Step-IsKept _ _
      (received orders_receiver holding_receiver (some order_delivery) [] [] takes_order)
      (Step-IsKept _ _ (sent orders_sender order sends_order refl) (
        Step-IsKept _ _ (attached orders_receiver (codes "orders") attaches_orders)
          orders_broker-IsKept))

Step-IsKept_example : IsKept (system_of released_broker (orders_receiver ∷ []))
Step-IsKept_example =
    Step-IsKept (system_of taken_broker (holding_receiver ∷ []))
      (system_of released_broker (orders_receiver ∷ []))
      (disposed holding_receiver orders_receiver [] [] release 1 releases_order) taken-IsKept
