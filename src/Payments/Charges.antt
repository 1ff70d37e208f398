-- ===== src/Payments/Charges.antt =====
-- app/api/v1/webhook.py, `_handle_payment_succeeded`: what becomes of a charge.
use fast_api.Base.{ℕ, ◌≡◌, ◌≢◌, ◌⊎◌, Bool, true, false, Option, none, some}
use fast_api.Exceptions.{OrderStatus, pending, paid, confirmed, expired, cancelled}
use fast_api.Database.{Database, Order, find_order}
use fast_api.Orders.{row_count}
use fast_api.Payments.{PaymentIntent, RefundNeeded, captured}
use fast_api.Orders.Rows.{owes}

abbrev pub is_settled : OrderStatus → Bool
is_settled paid = true
is_settled confirmed = true
is_settled pending = false
is_settled expired = false
is_settled cancelled = false

-- The order is confirmed in the database.
abbrev pub Confirmed : ℕ → Database → Type 0
Confirmed id db = (row : Order) × (find_order id db.orders ≡ some row) × (row.status ≡ confirmed)

-- What becomes of a charge for the order `o`, whose database was `seen` when the charge was handled.
abbrev pub Charged : PaymentIntent → Order → Database → Option RefundNeeded → Database → Type 0
Charged i o seen none db' =
    (captured i ≡ some o.total_price_cents)
    × (((is_settled o.status ≡ true) × (db' ≡ seen)) ⊎ ((o.status ≡ pending) × Confirmed o.id db'))
Charged i o seen (some refund) db' =
    (refund.payment_intent_id ≡ i.id)
    × (db' ≡ seen)
    × ((captured i ≢ some o.total_price_cents)
        ⊎ (owes o.status ≡ true)
        ⊎ ((o.status ≡ pending) × (row_count o.id pending seen.orders ≢ 1)))
