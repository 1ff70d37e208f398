-- ===== src/Payments.antt =====
-- app/api/v1/webhook.py and app/crud/stripe_event.py: the payment events that Stripe sends. The
-- verification of the signature, a call of the Stripe library, comes before.
pub mod Rows
pub mod Charges
use fast_api.Base.{
  ℕ, Bool, true, false, not, ◌==◌, if◌then◌else◌, Option, none, some, List, [], ◌∷◌,
}
use fast_api.Exceptions.{OrderStatus, pending, paid, confirmed, expired, cancelled, Result, ok}
use fast_api.Redis.{Redis}
use fast_api.Database.{Database, Order, find_order, status_eq}
use fast_api.Orders.{mark_paid, mark_confirmed, expire_order, is_applied}
use fast_api.Orders.Release.{release_order_seat}

pub data EventType : Type 0 where
  payment_succeeded payment_failed payment_canceled other_event : EventType

-- The fields of a payment intent that the handlers read; `order_id` from its metadata.
pub record PaymentIntent : Type 0 where
  pub id : ℕ
  pub order_id : Option ℕ
  pub amount_received : Option ℕ
  pub amount : Option ℕ

pub record StripeEvent : Type 0 where
  pub id : ℕ
  pub type : EventType
  pub intent : PaymentIntent

pub data Reason : Type 0 where
  wrong_amount : Option ℕ → ℕ → Reason
  not_payable : OrderStatus → Reason
  left_pending : Reason

-- `_RefundNeeded`
pub record RefundNeeded : Type 0 where
  pub payment_intent_id : ℕ
  pub reason : Reason

-- `intent.get("amount_received") or intent.get("amount")`: an amount of zero counts as missing.
unfoldable pub captured : PaymentIntent → Option ℕ
captured i = elim (i.amount_received) [
  | none ↦ i.amount
  | some n ↦ if n == 0 then i.amount else some n
]

abbrev pub is_amount : Option ℕ → ℕ → Bool
is_amount none total = false
is_amount (some n) total = n == total

abbrev pub refund_for : PaymentIntent → Reason → Option RefundNeeded
refund_for i reason = some (record { payment_intent_id = i.id; reason = reason })

-- Step (4), on the database as other writers left it since the order was read.
unfoldable pub accept_payment :
    ℕ → PaymentIntent → Order → Database → Option RefundNeeded × Database
unfolding mark_paid mark_confirmed
accept_payment now i order db =
    let (answer, order', db') = mark_paid now order db in
    let (answer', order'', db'') = mark_confirmed now order' db' in
    if is_applied answer then (none, db'') else (refund_for i left_pending, db')

-- Steps (2) and (3), by the status that was read.
unfoldable pub charge_status :
    ℕ → PaymentIntent → Order → OrderStatus → Database → Option RefundNeeded × Database
unfolding accept_payment
charge_status now i order pending db = accept_payment now i order db
charge_status now i order paid db = (none, db)
charge_status now i order confirmed db = (none, db)
charge_status now i order expired db = (refund_for i (not_payable expired), db)
charge_status now i order cancelled db = (refund_for i (not_payable cancelled), db)

-- Step (1)
unfoldable pub charge_order : ℕ → PaymentIntent → Order → Database → Option RefundNeeded × Database
unfolding captured charge_status
charge_order now i order db =
    if is_amount (captured i) order.total_price_cents
    then charge_status now i order order.status db
    else (refund_for i (wrong_amount (captured i) order.total_price_cents), db)

-- `get_order_by_id` of the order that the metadata names.
abbrev pub order_of : PaymentIntent → Database → Option Order
order_of i db = elim (i.order_id) [ none ↦ none | some id ↦ find_order id db.orders ]

-- `_handle_payment_succeeded`; `between` is what other writers commit after the read.
unfoldable pub handle_payment_succeeded :
    ℕ → (Database → Database) → PaymentIntent → Database → Option RefundNeeded × Database
unfolding charge_order
handle_payment_succeeded now between i db = elim (order_of i db) [
  | none ↦ (none, between db)
  | some order ↦ charge_order now i order (between db)
]

-- `_handle_payment_aborted`: the order whose seats are to go back.
unfoldable pub handle_payment_aborted :
    ℕ → (Database → Database) → PaymentIntent → Database → Option Order × Database
unfolding expire_order
handle_payment_aborted now between i db = elim (order_of i db) [
  | none ↦ (none, between db)
  | some order ↦
      let (answer, order', db') = expire_order now order (between db) in
      if status_eq order.status pending
      then (if is_applied answer then (some order', db') else (none, db'))
      else (none, between db)
]

-- The database, the ids of the events that were claimed, Redis, and the refunds that were asked for.
pub record Desk (F : Type 0) : Type 0 where
  pub db : Database
  pub claimed : List ℕ
  pub redis : Redis F
  pub refunds : List RefundNeeded

abbrev pub is_claimed : ℕ → List ℕ → Bool
is_claimed id [] = false
is_claimed id (j ∷ ids) = let rest = is_claimed id ids in if j == id then true else rest

module _ {F : Type 0} where
  -- After the commit: the refund.
  abbrev pub ask_refund : Option RefundNeeded → Desk F → Desk F
  ask_refund none d = d
  ask_refund (some refund) d = record d { refunds = refund ∷ d.refunds }

  -- After the commit: the seats of an order that was expired.
  unfoldable pub return_order : Option Order → Desk F → Desk F
  unfolding release_order_seat
  return_order none d = d
  return_order (some order) d =
      let (answer, db, r) = release_order_seat order d.db d.redis in record d { db = db; redis = r }

  unfoldable pub handle_event :
      EventType → ℕ → (Database → Database) → PaymentIntent → Desk F → Desk F
  unfolding handle_payment_succeeded handle_payment_aborted return_order
  handle_event payment_succeeded now between i d =
      let (refund, db) = handle_payment_succeeded now between i d.db in
      ask_refund refund (record d { db = db })
  handle_event payment_canceled now between i d =
      let (order, db) = handle_payment_aborted now between i d.db in
      return_order order (record d { db = db })
  handle_event payment_failed now between i d = record d { db = between d.db }
  handle_event other_event now between i d = record d { db = between d.db }

  -- `stripe_webhook`, with `claim_event`: a redelivery is ignored.
  unfoldable pub stripe_webhook : ℕ → (Database → Database) → StripeEvent → Desk F → Desk F
  unfolding handle_event
  stripe_webhook now between e d =
      let handled =
        handle_event e.type now between e.intent (record d { claimed = e.id ∷ d.claimed }) in
      if is_claimed e.id d.claimed then d else handled
