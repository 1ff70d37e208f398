-- ===== src/Examples/Counter.antt =====
-- The theorems on the plain counter, at the example event.
use fast_api.Base.{ℕ, ◌+◌, ◌≡◌, refl, true, false, none, some, List, [], ◌∷◌, arith}
use fast_api.Base.Int.{pos, ◌≤ℤ◌, ◌+ℤ◌}
use fast_api.Redis.{Marker}
use fast_api.Inventory.{
  Args, ReleaseArgs, ReserveOutcome, reserve_script, release_script, release, reserve_and_enqueue,
  after_reserve, take,
}
use fast_api.Inventory.Scripts.{
  Reserved, Released, counter_of, quota_of, reserve_script-Reserved, release_script-Returns,
}
use fast_api.Inventory.Trace.{
  Op, reserve, give_back, run, total_sold, total_returned, run-conserves, is_ok,
}
use fast_api.Inventory.Repeats.{run-within_limit, release-once, reserve-once}
use fast_api.Inventory.Reconcile.{Reconciled, reconcile_inventory, reconcile_inventory-Reconciled}
use fast_api.Examples.{redis, database}

abbrev buy : Args
buy = record {
  event_id = 5;
  user_id = 8;
  quantity = 2;
  total_price_cents = 500;
  idempotency_key = 77;
  zone_id = none;
  limit = 4;
}

abbrev refund : ReleaseArgs
refund = record { event_id = 5; user_id = 8; quantity = 2; marker = Marker.order 1 }

-- A sale, its repetition, a second sale over the limit, a refund, and its repetition.
abbrev trace : List Op
trace =
    reserve 1 buy
    ∷ reserve 2 buy
    ∷ reserve 3 (record buy { idempotency_key = 78 })
    ∷ give_back refund
    ∷ give_back refund
    ∷ []

run-conserves_example :
    (m : ℕ) × (counter_of 5 (run trace redis) ≡ some (pos m))
    × (m + total_sold 5 trace redis ≡ 10 + total_returned 5 trace redis)
run-conserves_example = run-conserves 5 trace redis 10 refl

reserve_script-Reserved_example :
    Reserved buy redis (reserve_script 1 buy redis).0 (reserve_script 1 buy redis).1
reserve_script-Reserved_example = reserve_script-Reserved 1 buy redis

release_script-Returns_example :
    Released refund redis (release_script refund redis).0 (release_script refund redis).1
release_script-Returns_example = release_script-Returns refund redis

run-within_limit_example : quota_of 5 8 (run trace redis) ≤ℤ pos 4
run-within_limit_example =
    run-within_limit 5 8 4 trace redis (omega arith, (omega arith, (omega arith, (tt, (tt, tt)))))
      (omega arith)

release-once_example :
    release refund (run trace (release refund redis).1)
    ≡ (false, run trace (release refund redis).1)
release-once_example = release-once refund refund trace redis refl

buy-ok : is_ok ((reserve_and_enqueue 1 buy redis).0.outcome) ≡ true
unfolding reserve_and_enqueue reserve_script after_reserve take ◌+ℤ◌
buy-ok = refl

reserve-once_example :
    ((reserve_and_enqueue 2 buy (run trace (reserve_and_enqueue 1 buy redis).1)).0.outcome
      ≡ ReserveOutcome.dup)
    × ((reserve_and_enqueue 2 buy (run trace (reserve_and_enqueue 1 buy redis).1)).1
        ≡ run trace (reserve_and_enqueue 1 buy redis).1)
reserve-once_example = reserve-once 1 2 buy buy trace redis buy-ok refl

reconcile_inventory-Reconciled_example :
    Reconciled database 5 false redis
      (reconcile_inventory database 5 false redis).0
      (reconcile_inventory database 5 false redis).1
reconcile_inventory-Reconciled_example = reconcile_inventory-Reconciled database 5 false redis
