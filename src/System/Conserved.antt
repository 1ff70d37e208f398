-- ===== src/System/Conserved.antt =====
-- The counter of an event against its orders, over every interleaving of the steps of the system.
use fast_api.Base.{
  ℕ, ◌+◌, ◌≤◌, ◌≡◌, refl, ap, ◌∙◌, Bool, true, false, ◌&&◌, ◌||◌, not, some, List, [], ◌∷◌, All,
  arith,
}
use fast_api.Base.Int.{ℤ, pos, ◌-ℤ◌}
use fast_api.Exceptions.{OrderStatus, pending, paid, confirmed, expired, cancelled, Result}
use fast_api.Database.{Order, is_held}
use fast_api.Inventory.Scripts.{counter_of}
use fast_api.Inventory.Reconcile.{held_sum, expected-held, compute_expected_available}
use fast_api.Orders.Rows.{owes}
use fast_api.Worker.Stream.{Worker}
use fast_api.System.{
  Move, request, consume, give_up, transition, give_back, move, moves, Allowed, AllAllowed,
}
use fast_api.System.Tally.{tally}
use fast_api.System.Books.{order_id, order_seats, is_kept, waiting, Balanced, Orderly}
use fast_api.System.Requests.{request-Balanced}
use fast_api.System.RequestBooks.{request-Orderly}
use fast_api.System.Consumes.{GoodWorker, deliver-Good}
use fast_api.System.GiveUps.{give_up-Good}
use fast_api.System.Transitions.{transition-Good}
use fast_api.System.OrderReturns.{give_back-Good}

held-owes : (s : OrderStatus) → is_held s ≡ not (owes s)
held-owes pending = refl
held-owes paid = refl
held-owes confirmed = refl
held-owes expired = refl
held-owes cancelled = refl

-- What is held is kept.
held-kept :
    (e : ℕ) (due : ℕ → Bool) (orders : List Order)
    → All (λ (o : Order). (due o.id || owes o.status) ≡ true) orders
    → held_sum e orders ≤ tally order_id (order_seats e) due orders
unfolding held_sum
held-kept e due [] h = omega arith
held-kept e due (o ∷ orders) h =
    let rest = held-kept e due orders h.1 in rw (held-owes o.status) (ground arith)

-- Where the seats of every expired or cancelled order went back, what is kept is held.
kept-held :
    (e : ℕ) (due : ℕ → Bool) (orders : List Order)
    → All (λ (o : Order). (due o.id || owes o.status) ≡ true) orders
    → All (λ (o : Order). (due o.id && owes o.status) ≡ false) orders
    → tally order_id (order_seats e) due orders ≡ held_sum e orders
unfolding held_sum
kept-held e due [] h k = refl
kept-held e due (o ∷ orders) h k =
    let rest = kept-held e due orders h.1 k.1 in rw (held-owes o.status) (ground arith)

left_over : (n held total : ℕ) → n + held ≡ total → pos total -ℤ pos held ≡ pos n
unfolding ◌-ℤ◌
left_over n held total e = ground arith

module _ {F : Type 0} where
  move-Good :
      (e total : ℕ) (m : Move) (w : Worker F)
      → Allowed m w
      → GoodWorker e total w
      → GoodWorker e total (move m w)
  unfolding move
  move-Good e total (request s a) w (plain, fresh) (b, o) = (
    request-Balanced e total s a w.db w.redis o b,
    request-Orderly s a w.db w.redis plain fresh o,
  )
  move-Good e total (consume c p entry i) w (there, alive, fresh, unmarked) g =
      deliver-Good e total c p entry i w
        (record { there = there; alive = alive; fresh = fresh; unmarked = unmarked }) g
  move-Good e total (give_up acked entry i) w has g = give_up-Good e total entry i acked w has g
  move-Good e total (transition a) w allowed g = transition-Good e total a w g
  move-Good e total (give_back o) w (has, owed) g = give_back-Good e total o w has owed g

  -- Conservation over the whole path of an order, for events without a seat map: where the counter
  -- of an event, the seats of the entries that wait to be persisted and those that orders keep make
  -- up the event's seats, and the books are in order, it is so again after any allowed interleaving
  -- of requests, tries of the consumer, cut short or not, entries given up, acknowledged or not,
  -- transitions tried on any copies of orders, and seats given back. Allowed means above all that
  -- the consumer tries no entry that was given up or removed from the stream, which the source does
  -- not check; that intents are for events without a seat map, ids are new, and seats go back only
  -- for orders that are expired or cancelled.
  pub moves-Balanced :
      (e total : ℕ) (ms : List Move) (w : Worker F)
      → AllAllowed ms w
      → Balanced e total w.db w.redis × Orderly w.db w.redis
      → Balanced e total (moves ms w).db (moves ms w).redis
        × Orderly (moves ms w).db (moves ms w).redis
  moves-Balanced e total [] w allowed g = g
  moves-Balanced e total (m ∷ ms) w allowed g =
      moves-Balanced e total ms (move m w) allowed.1 (move-Good e total m w allowed.0 g)

  -- No overselling: in such a state, after any allowed interleaving, in which the consumer tries no
  -- entry that was given up or removed from the stream, the pending, paid and confirmed
  -- orders of the event hold no more seats than it has.
  pub moves-held :
      (e total : ℕ) (ms : List Move) (w : Worker F)
      → AllAllowed ms w
      → Balanced e total w.db w.redis × Orderly w.db w.redis
      → held_sum e (moves ms w).db.orders ≤ total
  moves-held e total ms w allowed g =
      let w' = moves ms w in
      let (b, o) = moves-Balanced e total ms w allowed g in
      let bound = held-kept e (is_kept w'.redis) w'.db.orders o.owing in
      let sum = b.sum in omega arith

  -- At rest the counter is what the database expects: where, after any allowed interleaving, in
  -- which the consumer tries no entry that was given up or removed from the stream, the stream
  -- is empty and the seats of every expired or cancelled order went back, the counter is the number
  -- that a reconciliation would compute.
  pub moves-reconciled :
      (e total : ℕ) (ms : List Move) (w : Worker F)
      → AllAllowed ms w
      → Balanced e total w.db w.redis × Orderly w.db w.redis
      → (moves ms w).db.events e ≡ some total
      → (moves ms w).redis.stream ≡ []
      → All
          (λ (o : Order). (is_kept (moves ms w).redis o.id && owes o.status) ≡ false)
          (moves ms w).db.orders
      → (n : ℤ) × (counter_of e (moves ms w).redis ≡ some n)
        × (compute_expected_available (moves ms w).db e ≡ Result.ok n)
  unfolding compute_expected_available
  moves-reconciled e total ms w allowed g known drained returned =
      let w' = moves ms w in
      let (b, o) = moves-Balanced e total ms w allowed g in
      let keeps = kept-held e (is_kept w'.redis) w'.db.orders o.owing returned in
      let none_wait : waiting e w'.db w'.redis ≡ 0 = rw drained refl in
      let sum = b.sum in
      (
        pos b.left,
        b.counter,
        rw (known, compute_expected_available)
            (ap (λ (k : ℕ). Result.ok (pos total -ℤ pos k)) (expected-held e w'.db.orders)
              ∙ ap Result.ok (left_over b.left (held_sum e w'.db.orders) total (ground arith))),
      )
