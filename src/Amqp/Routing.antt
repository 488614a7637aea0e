-- ===== src/Amqp/Routing.antt =====
-- amqp091/inprocess/operations.go: which queues a published message comes to.
use effect_golang_web.Common.{
  ℕ, ◌+◌, Bool, true, false, ◌&&◌, none, some, List, [], ◌∷◌, Text, lookup, text_eq, if◌then◌else◌,
}
use effect_golang_web.Path.{is_empty}
use effect_golang_web.Amqp.{ExchangeKind, direct, fanout, Broker, Binding, Delivery, Target}

-- A direct exchange routes by its bindings under the key of the message, a fanout exchange by all.
abbrev pub fits : ExchangeKind → Target → Binding → Bool
fits direct target binding =
    text_eq binding.exchange target.exchange && text_eq binding.key target.key
fits fanout target binding = text_eq binding.exchange target.exchange
fits _ target binding = false

abbrev one_if : Bool → ℕ
one_if true = 1
one_if false = 0

abbrev times : Text → List Text → ℕ
times name [] = 0
times name (first ∷ names) = one_if (text_eq first name) + times name names

abbrev pub bound_times : ExchangeKind → Target → Text → List Binding → ℕ
bound_times kind target name [] = 0
bound_times kind target name (binding ∷ bindings) =
    one_if (fits kind target binding && text_eq binding.queue name)
    + bound_times kind target name bindings

module _ {H : Type 0} where
  -- How many copies of a message to a target are for the queue: one for the queue that is named by the
  -- key, where no exchange is named, else one for each binding of the exchange that routes to it.
  abbrev pub routed : Broker H → Target → Text → ℕ
  routed broker target name =
      if is_empty target.exchange
      then one_if (text_eq target.key name)
      else elim (lookup target.exchange broker.exchanges) [
        | none ↦ 0
        | some exchange ↦ bound_times exchange.kind target name broker.bindings
      ]

  abbrev names_of : List (Text × Delivery H) → List Text
  names_of [] = []
  names_of ((name, delivery) ∷ placements) = name ∷ names_of placements
