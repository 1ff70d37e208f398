-- ===== src/Examples/Sales.antt =====
-- The theorems on orders and prices, at the example orders.
use fast_api.Base.{ℕ, ◌*◌, ◌≤◌, ◌≡◌, refl, ◌↔◌, ◌⊎◌, false, none, some, List, [], ◌∷◌, arith}
use fast_api.Base.Int.{ℤ, ◌+ℤ◌, ◌-ℤ◌}
use fast_api.Exceptions.{ok, paid, confirmed}
use fast_api.Database.{Order, find_order}
use fast_api.Pricing.{EventMeta, EventStatus, total_for, order_total, unit_price}
use fast_api.Pricing.Total.{Priced, total_for_iff}
use fast_api.Inventory.{ReserveOutcome, reserve_and_enqueue, reserve_script, after_reserve, take}
use fast_api.Orders.Owed.{Attempt, confirm, cancel, expire, attempts, IsOwed, attempts-IsOwed}
use fast_api.Orders.History.{Reach, attempts-Reach, paid-stays}
use fast_api.Orders.Release.{release_order_seat, release_order_seat-once}
use fast_api.Orders.Submit.{
  Submission, submit_order, outcome_only, on_sale, submit_priced, submit_counted, raise_refusal,
}
use fast_api.Orders.OnSale.{Sold, submit_order-Sold}
use fast_api.SeatRuns.Reserve.{World}
use fast_api.Examples.{whole, redis, database, pending_order, paid_order}

-- Two callers race on the pending order, the loser with a stale copy; the paid one is confirmed.
abbrev tries : List Attempt
tries = cancel 10 pending_order ∷ expire 11 pending_order ∷ confirm 12 paid_order ∷ []

database-IsOwed : IsOwed database
database-IsOwed = record { keyed = λ id. ground arith; one_entry = λ id. ground arith }

attempts-IsOwed_example : IsOwed (attempts tries database)
attempts-IsOwed_example = attempts-IsOwed tries database database-IsOwed

attempts-Reach_example :
    (o : Order) × (find_order 1 (attempts tries database).orders ≡ some o)
    × Reach pending_order.status o.status
attempts-Reach_example = attempts-Reach tries database 1 pending_order refl

paid-stays_example :
    (o : Order) × (find_order 2 (attempts tries database).orders ≡ some o)
    × ((o.status ≡ paid) ⊎ (o.status ≡ confirmed))
paid-stays_example = paid-stays tries database 2 paid_order refl refl

release_order_seat-once_example :
    release_order_seat pending_order
      (release_order_seat pending_order database redis).1
      (release_order_seat pending_order database redis).2
    ≡ (
      ok false,
      (release_order_seat pending_order database redis).1,
      (release_order_seat pending_order database redis).2,
    )
release_order_seat-once_example = release_order_seat-once pending_order database redis

abbrev pub meta : EventMeta
meta = record {
  event_id = 5;
  status = EventStatus.published;
  sale_starts_at = 100;
  sale_ends_at = 200;
  price_cents = some 250;
  venue_id = none;
  zone_prices = [];
  queue_opens_at = none;
  queue_closes_at = none;
}

total_for_iff_example :
    (total_for meta none 2 ≡ ok 500)
    ↔ ((1 ≤ 2) × (price : ℕ) × Priced meta none price × (500 ≡ 2 * price))
total_for_iff_example = total_for_iff meta none 2 500

abbrev submission : Submission
submission = record {
  user_id = 8;
  event_id = 5;
  quantity = 2;
  idempotency_key = 77;
  zone_id = none;
  now = 150;
  max_per_user = 4;
  max_purchasable = 4;
}

abbrev world : World ℤ
world = record {
  randrange = λ attempt n. 0;
  randrange-lt = λ attempt n h. h;
  stream_id = λ attempt. 3;
  before_read = λ attempt r. r;
  before_claim = λ attempt r. r;
}

submission-ok :
    (submit_order world (λ e. some meta) 3 submission redis).0
    ≡ ok (outcome_only ReserveOutcome.ok (some 3))
unfolding submit_order on_sale total_for order_total unit_price submit_priced submit_counted
    raise_refusal reserve_and_enqueue reserve_script after_reserve take ◌+ℤ◌ ◌-ℤ◌
submission-ok = refl

submit_order-Sold_example :
    Sold
      (λ e. some meta)
      submission
      (outcome_only ReserveOutcome.ok (some 3))
      (submit_order world (λ e. some meta) 3 submission redis).1
submit_order-Sold_example =
    submit_order-Sold world (λ e. some meta) 3 submission redis
      (outcome_only ReserveOutcome.ok (some 3)) submission-ok
