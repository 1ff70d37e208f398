-- ===== src/System/Books.antt =====
-- What the counter of an event without a seat map must agree with: the entries of the stream that
-- wait to be persisted and the orders whose seats were not given back.
use fast_api.Base.{
  ℕ, ◌+◌, ◌≡◌, Bool, true, false, ◌&&◌, ◌||◌, not, ◌==◌, if◌then◌else◌, none, some, is_some, All,
}
use fast_api.Base.Int.{pos}
use fast_api.Redis.{Redis, Intent, Marker}
use fast_api.Database.{Database, Order}
use fast_api.Inventory.Scripts.{counter_of}
use fast_api.Orders.Rows.{owes}
use fast_api.Worker.Intents.{find_key}
use fast_api.System.Tally.{tally, Distinct}

abbrev pub entry_key : ℕ × Intent → ℕ
entry_key p = p.1.idempotency_key

abbrev pub entry_id : ℕ × Intent → ℕ
entry_id p = p.0

abbrev pub entry_seats : ℕ → ℕ × Intent → ℕ
entry_seats e p = if p.1.event_id == e then p.1.quantity else 0

abbrev pub order_id : Order → ℕ
order_id o = o.id

abbrev pub order_seats : ℕ → Order → ℕ
order_seats e o = if o.event_id == e then o.quantity else 0

module _ {F : Type 0} where
  -- The key has no order, and its seats were not given back.
  abbrev pub is_waiting : Database → Redis F → ℕ → Bool
  is_waiting db r key =
      not (is_some (find_key key db.orders)) && not (r.released (Marker.dead_letter key))

  -- The order's seats were not given back.
  abbrev pub is_kept : Redis F → ℕ → Bool
  is_kept r id = not (r.released (Marker.order id))

  abbrev pub waiting : ℕ → Database → Redis F → ℕ
  waiting e db r = tally entry_key (entry_seats e) (is_waiting db r) r.stream

  abbrev pub kept : ℕ → Database → Redis F → ℕ
  kept e db r = tally order_id (order_seats e) (is_kept r) db.orders

  -- The counter of event `e`, what waits and what orders keep make up the event's seats.
  pub record Balanced (e total : ℕ) (db : Database) (r : Redis F) : Type 0 where
    pub left : ℕ
    pub counter : counter_of e r ≡ some (pos left)
    pub sum : left + (waiting e db r + kept e db r) ≡ total

  -- Keys and ids are distinct; each key that was used has its claim; only seats of expired and
  -- cancelled orders were given back, and no order's intent was given up with its seats.
  pub record Orderly (db : Database) (r : Redis F) : Type 0 where
    pub keys : Distinct entry_key r.stream
    pub ids : Distinct entry_id r.stream
    pub rows : Distinct order_id db.orders
    pub claimed_entries : All (λ p. is_some (r.claim (entry_key p)) ≡ true) r.stream
    pub claimed_orders : All (λ (o : Order). is_some (r.claim o.idempotency_key) ≡ true) db.orders
    pub claimed_markers :
        (key : ℕ) → (not (r.released (Marker.dead_letter key)) || is_some (r.claim key)) ≡ true
    pub owing : All (λ (o : Order). (is_kept r o.id || owes o.status) ≡ true) db.orders
    pub not_given_up :
        All (λ (o : Order). r.released (Marker.dead_letter o.idempotency_key) ≡ false) db.orders
    pub plain_entries :
        All (λ (p : ℕ × Intent). (p.1.zone_id ≡ none) × (p.1.block_id ≡ none)) r.stream
    pub plain_orders : All (λ (o : Order). o.zone_id ≡ none) db.orders
