-- ===== src/Database.antt =====
-- The tables that the modelled code reads and writes: models/order.py, models/seating.py
-- (`SeatHold`), models/outbox.py, models/event.py. PostgreSQL itself is not modelled: a statement is a
-- function on the lists of rows, in the order in which the database serialises the statements.
use fast_api.Base.{ℕ, Bool, true, false, ◌==◌, if◌then◌else◌, Option, none, some, List, [], ◌∷◌}
use fast_api.Exceptions.{OrderStatus, pending, paid, confirmed, expired, cancelled}

pub record Order : Type 0 where
  pub id : ℕ
  pub user_id : ℕ
  pub event_id : ℕ
  pub quantity : ℕ
  pub total_price_cents : ℕ
  pub status : OrderStatus
  pub idempotency_key : ℕ
  pub zone_id : Option ℕ
  pub paid_at : Option ℕ
  pub confirmed_at : Option ℕ
  pub expired_at : Option ℕ
  pub cancelled_at : Option ℕ

pub record SeatHold : Type 0 where
  pub order_id : ℕ
  pub event_id : ℕ
  pub zone_id : ℕ
  pub block_id : ℕ
  pub start_pos : ℕ
  pub length : ℕ
  pub confirmed_at : Option ℕ

-- `SEAT_RELEASE`, the one type of event that is written, or a type without a handler.
pub data OutboxType : Type 0 where
  seat_release unknown_type : OutboxType

-- An entry of the outbox; `aggregate_id` is the order that it is about.
pub record OutboxEntry : Type 0 where
  pub id : ℕ
  pub event_type : OutboxType
  pub aggregate_id : ℕ
  pub attempts : ℕ
  pub next_attempt_at : ℕ
  pub processed_at : Option ℕ

-- A row as it is inserted, with the defaults of the columns.
abbrev pub new_entry : ℕ → ℕ → ℕ → OutboxEntry
new_entry now id order_id = record {
  id = id;
  event_type = seat_release;
  aggregate_id = order_id;
  attempts = 0;
  next_attempt_at = now;
  processed_at = none;
}

pub record Database : Type 0 where
  -- `events.total_seats`
  pub events : ℕ → Option ℕ
  pub orders : List Order
  pub holds : List SeatHold
  pub outbox : List OutboxEntry
  -- the next id that the sequence of the outbox gives
  pub outbox_id : ℕ

abbrev pub status_eq : OrderStatus → OrderStatus → Bool
status_eq pending pending = true
status_eq paid paid = true
status_eq confirmed confirmed = true
status_eq expired expired = true
status_eq cancelled cancelled = true
status_eq a b = false

-- `Order.status.in_(held)`
abbrev pub is_held : OrderStatus → Bool
is_held pending = true
is_held paid = true
is_held confirmed = true
is_held expired = false
is_held cancelled = false

-- `SELECT ... WHERE id = ...`
abbrev pub find_order : ℕ → List Order → Option Order
find_order id [] = none
find_order id (o ∷ orders) = let rest = find_order id orders in if o.id == id then some o else rest

abbrev pub find_hold : ℕ → List SeatHold → Option SeatHold
find_hold order_id [] = none
find_hold order_id (h ∷ holds) =
    let rest = find_hold order_id holds in if h.order_id == order_id then some h else rest

abbrev pub delete_hold : ℕ → List SeatHold → List SeatHold
delete_hold order_id [] = []
delete_hold order_id (h ∷ holds) =
    let rest = delete_hold order_id holds in if h.order_id == order_id then rest else h ∷ rest
