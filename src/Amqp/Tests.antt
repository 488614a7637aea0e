-- ===== src/Amqp/Tests.antt =====
-- The broker of amqp091/inprocess used.
use effect_golang_web.Common.{ℕ, ◌≡◌, refl, some, [], ◌∷◌, Text, codes, lookup}
use effect_golang_web.Amqp.{
  Broker, fanout, Target, Message, declare_queue, new_broker, publish, depth, no_such_queue,
  place_all,
}
use effect_golang_web.Amqp.Routing.{routed}

abbrev parcels : Text
parcels = codes "parcels"

abbrev to_parcels : Target
to_parcels = record { exchange = []; key = parcels }

abbrev hello : Message ℕ
hello = record { body = 104 ∷ []; content_type = codes "text/plain"; headers = 0 }

abbrev declared : Broker ℕ
declared = declare_queue new_broker parcels

places_one : depth (publish declared to_parcels hello).0 parcels ≡ 1
unfolding depth publish place_all declare_queue new_broker
places_one = refl

knows_no_queue : (publish new_broker to_parcels hello).1 ≡ some no_such_queue
unfolding publish new_broker
knows_no_queue = refl

-- A fanout exchange that is bound twice to the queue.
abbrev wide : Broker ℕ
wide = record declared {
  exchanges = (codes "all", record { name = codes "all"; kind = fanout }) ∷ [];
  bindings =
      record { exchange = codes "all"; queue = parcels; key = [] }
      ∷ record { exchange = codes "all"; queue = parcels; key = codes "a" }
      ∷ [];
}

abbrev to_all : Target
to_all = record { exchange = codes "all"; key = codes "b" }

abbrev wide_after : Broker ℕ
wide_after = (publish wide to_all hello).0

routed_twice : routed wide to_all parcels ≡ 2
unfolding lookup
routed_twice = refl
