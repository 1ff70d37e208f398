-- ===== src/Worker/Intents.antt =====
-- app/worker.py, `_persist_intent`, with the constraints of models/order.py and models/seating.py
-- that answer an insert with `IntegrityError`.
pub mod Persist
pub mod Refused
pub mod Holds
pub mod Frozen
pub mod Seated
use fast_api.Base.{
  ℕ, ◌+◌, ◌-◌, Bool, true, false, ◌&&◌, ◌||◌, not, ltb, ◌==◌, if◌then◌else◌, Option, none, some,
  is_some, List, [], ◌∷◌,
}
use fast_api.Exceptions.{OrderStatus, pending, Result, ok, err, value_error}
use fast_api.Redis.{Intent}
use fast_api.Database.{Database, Order, SeatHold, find_hold}

-- The tables that the foreign keys point to: which users exist, which zones of an event have a
-- price, which blocks a zone has, and which seats a block.
pub record Catalogue : Type 0 where
  pub users : ℕ → Bool
  pub zone_prices : ℕ → ℕ → Bool
  pub zone_blocks : ℕ → ℕ → Bool
  pub seats : ℕ → ℕ → Bool

-- 'ok' | 'duplicate' | 'failed'
pub data Outcome : Type 0 where
  persisted duplicate failed : Outcome

-- `get_order_by_idempotency_key`
abbrev pub find_key : ℕ → List Order → Option Order
find_key key [] = none
find_key key (o ∷ orders) =
    let rest = find_key key orders in if o.idempotency_key == key then some o else rest

-- The row that `create_order` inserts, under the id that the sequence gives.
abbrev pub new_order : ℕ → Intent → Option ℕ → Order
new_order id i zone = record {
  id = id;
  user_id = i.user_id;
  event_id = i.event_id;
  quantity = i.quantity;
  total_price_cents = i.total_price_cents;
  status = pending;
  idempotency_key = i.idempotency_key;
  zone_id = zone;
  paid_at = none;
  confirmed_at = none;
  expired_at = none;
  cancelled_at = none;
}

abbrev pub new_hold : ℕ → Intent → ℕ → ℕ → ℕ → SeatHold
new_hold id i zone block start = record {
  order_id = id;
  event_id = i.event_id;
  zone_id = zone;
  block_id = block;
  start_pos = start;
  length = i.quantity;
  confirmed_at = none;
}

-- `fk_orders_event_zone_price`, which a missing zone satisfies
abbrev pub zone_priced : Catalogue → ℕ → Option ℕ → Bool
zone_priced c event none = true
zone_priced c event (some zone) = c.zone_prices event zone

-- The constraints on a new row of `orders`.
unfoldable pub accepts_order : Catalogue → Database → Order → Bool
accepts_order c db o =
    ltb 0 o.quantity
    && (c.users o.user_id
        && (is_some (db.events o.event_id)
            && (zone_priced c o.event_id o.zone_id
                && not (is_some (find_key o.idempotency_key db.orders)))))

-- `ex_seat_holds_no_overlap`: same event, same block, and a common seat.
abbrev pub overlaps : SeatHold → SeatHold → Bool
overlaps h k =
    (h.event_id == k.event_id)
    && ((h.block_id == k.block_id)
        && (ltb h.start_pos (k.start_pos + k.length) && ltb k.start_pos (h.start_pos + h.length)))

abbrev pub overlaps_any : SeatHold → List SeatHold → Bool
overlaps_any h [] = false
overlaps_any h (k ∷ holds) = overlaps h k || overlaps_any h holds

-- The constraints on a new row of `seat_holds`. The trigger `seat_holds_match_order` compares the
-- hold with its order; here both have the intent's event, zone and quantity.
unfoldable pub accepts_hold : Catalogue → Database → SeatHold → Bool
accepts_hold c db h =
    ltb 0 h.length
    && (not (is_some (find_hold h.order_id db.holds))
        && (c.seats h.block_id (h.start_pos + h.length - 1)
            && (c.zone_blocks h.zone_id h.block_id
                && (c.zone_prices h.event_id h.zone_id && not (overlaps_any h db.holds)))))

-- After an `IntegrityError`, and the rollback: was the intent persisted before?
unfoldable pub after_integrity_error : Intent → Database → Outcome
after_integrity_error i db =
    if is_some (find_key i.idempotency_key db.orders) then duplicate else failed

unfoldable pub persist_plain : Catalogue → ℕ → Intent → Database → Result Outcome × Database
unfolding accepts_order after_integrity_error
persist_plain c id i db =
    let o = new_order id i none in
    if accepts_order c db o
    then (ok persisted, record db { orders = o ∷ db.orders })
    else (ok (after_integrity_error i db), db)

-- The order and its hold, in one transaction. A missing position is no number.
unfoldable pub persist_seated :
    Catalogue → ℕ → Intent → ℕ → ℕ → Option ℕ → Database → Result Outcome × Database
unfolding accepts_order accepts_hold after_integrity_error
persist_seated c id i zone block none db =
    if accepts_order c db (new_order id i (some zone))
    then (err value_error, db)
    else (ok (after_integrity_error i db), db)
persist_seated c id i zone block (some start) db =
    let o = new_order id i (some zone) in
    let h = new_hold id i zone block start in
    if accepts_order c db o && accepts_hold c db h
    then (ok persisted, record db { orders = o ∷ db.orders; holds = h ∷ db.holds })
    else (ok (after_integrity_error i db), db)

-- Both of zone and block, or neither.
unfoldable pub persist_in :
    Catalogue → ℕ → Intent → Option ℕ → Option ℕ → Database → Result Outcome × Database
unfolding persist_plain persist_seated
persist_in c id i none none db = persist_plain c id i db
persist_in c id i (some zone) (some block) db = persist_seated c id i zone block i.start_pos db
persist_in c id i none (some block) db = (ok failed, db)
persist_in c id i (some zone) none db = (ok failed, db)

-- `_persist_intent`: what it returns or raises, and the database.
unfoldable pub persist_intent : Catalogue → ℕ → Intent → Database → Result Outcome × Database
unfolding persist_in
persist_intent c id i db = persist_in c id i i.zone_id i.block_id db
