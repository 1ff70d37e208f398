-- ===== src/Orders.antt =====
-- app/crud/order.py, the state machine of an order and its compare-and-set, and
-- app/services/orders.py, what each transition entails.
pub mod Rows
pub mod Owed
pub mod Updates
pub mod History
pub mod Release
pub mod Submit
pub mod Enqueued
pub mod OnSale
use fast_api.Base.{
  ℕ, ◌+◌, Bool, true, false, ◌&&◌, ◌==◌, not, if◌then◌else◌, Option, none, some, List, [], ◌∷◌, map,
}
use fast_api.Exceptions.{
  OrderStatus, pending, paid, confirmed, expired, cancelled, Result, err, ok,
  invalid_order_transition,
}
use fast_api.Database.{Database, Order, SeatHold, new_entry, status_eq, find_order}

-- `_VALID_TRANSITIONS`
abbrev pub is_valid : OrderStatus → OrderStatus → Bool
is_valid pending paid = true
is_valid pending expired = true
is_valid pending cancelled = true
is_valid pending pending = false
is_valid pending confirmed = false
is_valid paid confirmed = true
is_valid paid pending = false
is_valid paid paid = false
is_valid paid expired = false
is_valid paid cancelled = false
is_valid confirmed s = false
is_valid expired s = false
is_valid cancelled s = false

-- The row with its new status, and the time in the field that `_STATUS_TIMESTAMP` names.
unfoldable pub stamp : ℕ → OrderStatus → Order → Order
stamp now pending o = record o { status = pending }
stamp now paid o = record o { status = paid; paid_at = some now }
stamp now confirmed o = record o { status = confirmed; confirmed_at = some now }
stamp now expired o = record o { status = expired; expired_at = some now }
stamp now cancelled o = record o { status = cancelled; cancelled_at = some now }

-- `UPDATE orders SET ... WHERE id = ... AND status = expected`, and its `rowcount`.
unfoldable pub update_row : ℕ → ℕ → OrderStatus → OrderStatus → Order → Order
update_row now id expected new_status o =
    if (o.id == id) && status_eq o.status expected then stamp now new_status o else o

unfoldable pub row_count : ℕ → OrderStatus → List Order → ℕ
row_count id expected [] = 0
row_count id expected (o ∷ orders) =
    (if (o.id == id) && status_eq o.status expected then 1 else 0) + row_count id expected orders

-- `db.refresh(order)`
abbrev pub refresh : Order → Database → Order
refresh order db = elim (find_order order.id db.orders) [ none ↦ order | some o ↦ o ]

-- `transition_order_status`: the answer, the caller's order, and the database.
unfoldable pub transition_order_status :
    ℕ → Order → OrderStatus → Database → Result Bool × Order × Database
unfolding update_row row_count
transition_order_status now order new_status db =
    let updated = record db {
      orders = map (update_row now order.id order.status new_status) db.orders;
    } in
    if not (is_valid order.status new_status)
    then (err (invalid_order_transition order.id order.status new_status), order, db)
    else if not (row_count order.id order.status db.orders == 1)
    then (ok false, order, updated)
    else (ok true, refresh order updated, updated)

unfoldable pub mark_paid : ℕ → Order → Database → Result Bool × Order × Database
unfolding transition_order_status
mark_paid now order db = transition_order_status now order paid db

-- `UPDATE seat_holds SET confirmed_at WHERE order_id = ... AND confirmed_at IS NULL`
unfoldable pub freeze : ℕ → ℕ → SeatHold → SeatHold
freeze now id h = elim (h.confirmed_at) [
  | some at ↦ h
  | none ↦ if h.order_id == id then record h { confirmed_at = some now } else h
]

unfoldable pub freeze_holds : ℕ → Order → Database → Database
unfolding freeze
freeze_holds now order db = elim (order.zone_id) [
  | none ↦ db
  | some zone ↦ record db { holds = map (freeze now order.id) db.holds }
]

abbrev pub is_applied : Result Bool → Bool
is_applied (ok b) = b
is_applied (err e) = false

unfoldable pub mark_confirmed : ℕ → Order → Database → Result Bool × Order × Database
unfolding transition_order_status freeze_holds
mark_confirmed now order db =
    let (answer, order', db') = transition_order_status now order confirmed db in
    (answer, order', if is_applied answer then freeze_holds now order' db' else db')

-- `_transition_owing_release`
unfoldable pub transition_owing_release :
    ℕ → Order → OrderStatus → Database → Result Bool × Order × Database
unfolding transition_order_status
transition_owing_release now order new_status db =
    let (answer, order', db') = transition_order_status now order new_status db in
    (
      answer,
      order',
      if is_applied answer
          then record db' {
            outbox = new_entry now db'.outbox_id order.id ∷ db'.outbox;
            outbox_id = db'.outbox_id + 1;
          }
          else db',
    )

unfoldable pub cancel_order : ℕ → Order → Database → Result Bool × Order × Database
unfolding transition_owing_release
cancel_order now order db = transition_owing_release now order cancelled db

unfoldable pub expire_order : ℕ → Order → Database → Result Bool × Order × Database
unfolding transition_owing_release
expire_order now order db = transition_owing_release now order expired db
