-- ===== src/System.antt =====
-- The path of an order through app/services/inventory.py, app/services/orders.py, app/crud/order.py
-- and app/worker.py, for events without a seat map: requests, the consumer, the dead-letter path,
-- the transitions and the returns interleave on one database and one Redis.
pub mod Tally
pub mod Books
pub mod Requests
pub mod RequestBooks
pub mod Acks
pub mod Consumes
pub mod Returns
pub mod GiveUps
pub mod Transitions
pub mod OrderReturns
pub mod Conserved
use fast_api.Base.{Has, ℕ, ◌≡◌, ◌≢◌, Bool, true, false, if◌then◌else◌, none, List, [], ◌∷◌, All}
use fast_api.Redis.{Redis, Intent, Marker}
use fast_api.Database.{Order}
use fast_api.Inventory.{Args, reserve_and_enqueue}
use fast_api.Orders.Owed.{Attempt, attempt}
use fast_api.Orders.Rows.{owes}
use fast_api.Orders.Release.{release_order_seat}
use fast_api.Worker.Intents.{Catalogue}
use fast_api.Worker.Stream.{Worker, Pass, deliver, dead_letter_intent, ack_and_remove}

-- One step of the program: a request under a stream id; a try of the consumer to persist an entry;
-- an entry given up, and acknowledged or not; a transition tried on a copy of an order; the seats
-- of an order given back after a commit, by the caller or by the relay.
pub data Move : Type 0 where
  request : ℕ → Args → Move
  consume : Catalogue → Pass → ℕ → Intent → Move
  give_up : Bool → ℕ → Intent → Move
  transition : Attempt → Move
  give_back : Order → Move

module _ {F : Type 0} where
  unfoldable pub move : Move → Worker F → Worker F
  move (request s a) w = record w { redis = (reserve_and_enqueue s a w.redis).1 }
  move (consume c p entry i) w = deliver c p entry i w
  move (give_up acked entry i) w =
      let given_up = record w { redis = (dead_letter_intent (λ s. s) entry i w.db w.redis).1 } in
      if acked then ack_and_remove entry given_up else given_up
  move (transition a) w = record w { db = attempt a w.db }
  move (give_back o) w =
      let (answer, db, r) = release_order_seat o w.db w.redis in record w { db = db; redis = r }

  abbrev pub moves : List Move → Worker F → Worker F
  moves [] w = w
  moves (m ∷ ms) w = moves ms (move m w)

  -- When the program takes the step. Redis gives new stream ids and the sequence new order ids; an
  -- intent is for an event without seats; the consumer tries an entry that is still in the stream
  -- and was not given up, which the source does not check: a consumer that is slower than the
  -- reclaim may try an entry that it holds in memory after it was given up. No entry is persisted
  -- while its dead-letter path waits for the database. Seats go back for an order that is expired or
  -- cancelled.
  abbrev pub Allowed : Move → Worker F → Type 0
  Allowed (request s a) w = (a.zone_id ≡ none) × All (λ (p : ℕ × Intent). p.0 ≢ s) w.redis.stream
  Allowed (consume c p entry i) w =
      Has (entry, i) w.redis.stream
      × (w.redis.released (Marker.dead_letter i.idempotency_key) ≡ false)
      × All (λ (o : Order). o.id ≢ p.order_id entry) w.db.orders
      × (w.redis.released (Marker.order (p.order_id entry)) ≡ false)
  Allowed (give_up acked entry i) w = Has (entry, i) w.redis.stream
  Allowed (transition a) w = Unit
  Allowed (give_back o) w = Has o w.db.orders × (owes o.status ≡ true)

  abbrev pub AllAllowed : List Move → Worker F → Type 0
  AllAllowed [] w = Unit
  AllAllowed (m ∷ ms) w = Allowed m w × AllAllowed ms (move m w)
