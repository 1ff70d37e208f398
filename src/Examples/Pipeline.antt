-- ===== src/Examples/Pipeline.antt =====
-- The theorems on the worker and on the system, at an example shop.
use fast_api.Base.{◌&&◌, ◌≤◌, ◌≡◌, refl, inl, true, false, none, some, List, [], ◌∷◌, All, arith}
use fast_api.Base.Int.{ℤ, pos, ◌+ℤ◌, ◌-ℤ◌}
use fast_api.Exceptions.{ok}
use fast_api.Redis.{Redis, Intent, Claim, at}
use fast_api.Database.{Database, Order}
use fast_api.Inventory.{
  Args, reserve_and_enqueue, reserve_script, take, after_reserve, release, release_script,
  after_release,
}
use fast_api.Inventory.Reconcile.{held_sum, compute_expected_available}
use fast_api.Inventory.Scripts.{counter_of}
use fast_api.Orders.Owed.{cancel}
use fast_api.SeatRuns.Release.{return_quota}
use fast_api.Worker.Intents.{Catalogue, persist_intent, persist_in, persist_plain, accepts_order}
use fast_api.Worker.Intents.Persist.{Persisted}
use fast_api.Worker.Intents.Refused.{Justified, persist_intent-Answered}
use fast_api.Worker.Intents.Holds.{IsSeated}
use fast_api.Worker.Intents.Seated.{Write, persist, transition, writes, AllFresh, writes-IsSeated}
use fast_api.Worker.Stream.{
  Worker, Pass, Sweep, no_fault, before_commit, deliver, acknowledge, settle, ack_and_remove,
  dead_letter_intent, refund, mark_claim_failed,
}
use fast_api.Worker.Stream.DeadLetter.{NoMore, dead_letter_intent-once}
use fast_api.Worker.Stream.Drain.{Settled, reclaims, reclaims-settle}
use fast_api.Orders.Rows.{owes}
use fast_api.System.{Move, request, consume, give_up, moves, move, AllAllowed}
use fast_api.System.Books.{Balanced, Orderly, is_kept}
use fast_api.System.Requests.{intent_of}
use fast_api.System.Conserved.{moves-Balanced, moves-held, moves-reconciled}
use fast_api.Examples.{redis, database, pending_order, paid_order}

abbrev catalogue : Catalogue
catalogue = record {
  users = λ u. true;
  zone_prices = λ e z. true;
  zone_blocks = λ z b. true;
  seats = λ b p. true;
}

abbrev args : Args
args = record {
  event_id = 5;
  user_id = 8;
  quantity = 2;
  total_price_cents = 500;
  idempotency_key = 78;
  zone_id = none;
  limit = 4;
}

abbrev intent : Intent
intent = intent_of args

abbrev seated_intent : Intent
seated_intent = record intent { zone_id = some 2; block_id = some 1; start_pos = some 4 }

-- Event 5 has twelve seats; one paid order keeps two of them.
abbrev shop_database : Database
shop_database = record {
  events = at 5 (some 12) (λ e. none);
  orders = paid_order ∷ [];
  holds = [];
  outbox = [];
  outbox_id = 0;
}

abbrev shop_redis : Redis ℤ
shop_redis = record redis { claim = at 77 (some Claim.pending) (λ k. none) }

abbrev shop : Worker ℤ
shop = record { db = shop_database; redis = shop_redis; pending = []; last_delivered = 0 }

abbrev pass : Pass
pass = record { fault = λ e. no_fault; order_id = λ e. 9; idle = λ e. true }

persist_intent-Answered_example :
    Persisted 9 seated_intent database
      (persist_intent catalogue 9 seated_intent database).0
      (persist_intent catalogue 9 seated_intent database).1
    × Justified catalogue 9 seated_intent
        (some 2)
        (some 1)
        (some 4)
        database
        (persist_intent catalogue 9 seated_intent database).0
persist_intent-Answered_example = persist_intent-Answered catalogue 9 seated_intent database

abbrev sales : List (Write ℤ)
sales = persist catalogue 9 seated_intent ∷ transition (cancel 10 pending_order) ∷ []

abbrev seated_database : Database
seated_database = record database { orders = pending_order ∷ [] }

seated_database-IsSeated : IsSeated seated_database
seated_database-IsSeated = record {
  disjoint = (refl, tt);
  booked = ((pending_order, refl, refl, refl, refl), tt);
  one_order = λ key. ground arith;
}

sales-AllFresh : AllFresh sales seated_database
sales-AllFresh = (refl, (tt, tt))

writes-IsSeated_example : IsSeated (writes sales seated_database)
writes-IsSeated_example =
    writes-IsSeated sales seated_database sales-AllFresh seated_database-IsSeated

first_end : (dead_letter_intent (λ s. s) 3 intent shop_database shop_redis).0 ≡ ok tt
unfolding dead_letter_intent refund
first_end = refl

dead_letter_intent-once_example :
    NoMore
      (dead_letter_intent (λ s. s) 3 intent shop_database shop_redis).1
      (dead_letter_intent
        (λ s. s)
        4
        intent
        shop_database
        (dead_letter_intent (λ s. s) 3 intent shop_database shop_redis).1).0
      (dead_letter_intent
        (λ s. s)
        4
        intent
        shop_database
        (dead_letter_intent (λ s. s) 3 intent shop_database shop_redis).1).1
dead_letter_intent-once_example =
    dead_letter_intent-once (λ s. s) 3 4 intent shop_database shop_database shop_redis
      (dead_letter_intent (λ s. s) 3 intent shop_database shop_redis).1 refl first_end refl

abbrev waiting_shop : Worker ℤ
waiting_shop = record shop {
  redis = record shop_redis { stream = (3, intent) ∷ [] };
  pending = (3, 1) ∷ [];
  last_delivered = 3;
}

abbrev down : Pass
down = record pass { fault = λ e. before_commit }

abbrev sweep : Pass → Sweep ℤ
sweep p = record { pass = p; others = λ e r. r }

abbrev two_sweeps : List (Sweep ℤ)
two_sweeps = sweep down ∷ sweep pass ∷ []

reclaims-settle_example : Settled 3 intent (reclaims catalogue two_sweeps 2 3 waiting_shop)
reclaims-settle_example =
    reclaims-settle catalogue two_sweeps 2 1 3 intent waiting_shop refl (refl, (refl, tt))
      (omega arith) (omega arith) (refl, refl)

abbrev day : List Move
day = request 3 args ∷ consume catalogue pass 3 intent ∷ []

day-AllAllowed : AllAllowed day shop
unfolding move reserve_and_enqueue reserve_script take after_reserve ◌+ℤ◌ ◌-ℤ◌
day-AllAllowed = ((refl, tt), ((inl refl, refl, ((λ e. ground arith), tt), refl), tt))

shop-IsGood : Balanced 5 12 shop_database shop_redis × Orderly shop_database shop_redis
shop-IsGood = (
  record { left = 10; counter = refl; sum = refl },
  record {
    keys = tt;
    ids = tt;
    rows = (tt, tt);
    claimed_entries = tt;
    claimed_orders = (refl, tt);
    claimed_markers = λ key. refl;
    owing = (refl, tt);
    not_given_up = (refl, tt);
    plain_entries = tt;
    plain_orders = (refl, tt);
  },
)

moves-Balanced_example :
    Balanced 5 12 (moves day shop).db (moves day shop).redis
    × Orderly (moves day shop).db (moves day shop).redis
moves-Balanced_example = moves-Balanced 5 12 day shop day-AllAllowed shop-IsGood

moves-held_example : held_sum 5 (moves day shop).db.orders ≤ 12
moves-held_example = moves-held 5 12 day shop day-AllAllowed shop-IsGood

day-known : (moves day shop).db.events 5 ≡ some 12
unfolding move reserve_and_enqueue reserve_script take after_reserve deliver acknowledge settle
    ack_and_remove persist_intent persist_in persist_plain accepts_order ◌+ℤ◌ ◌-ℤ◌
day-known = refl

day-drained : (moves day shop).redis.stream ≡ []
unfolding move reserve_and_enqueue reserve_script take after_reserve deliver acknowledge settle
    ack_and_remove persist_intent persist_in persist_plain accepts_order ◌+ℤ◌ ◌-ℤ◌
day-drained = refl

day-returned :
    All
      (λ (o : Order). (is_kept (moves day shop).redis o.id && owes o.status) ≡ false)
      (moves day shop).db.orders
unfolding move reserve_and_enqueue reserve_script take after_reserve deliver acknowledge settle
    ack_and_remove persist_intent persist_in persist_plain accepts_order ◌+ℤ◌ ◌-ℤ◌
day-returned = (refl, (refl, tt))

moves-reconciled_example :
    (n : ℤ) × (counter_of 5 (moves day shop).redis ≡ some n)
    × (compute_expected_available (moves day shop).db 5 ≡ ok n)
moves-reconciled_example =
    moves-reconciled 5 12 day shop day-AllAllowed shop-IsGood day-known day-drained day-returned

-- A consumer that was delivered an entry keeps it in memory. Where the entry is given up before the
-- consumer comes to it, its seats are on sale again, and its order is inserted too.
abbrev late : List Move
late = request 3 args ∷ give_up true 3 intent ∷ consume catalogue pass 3 intent ∷ []

late_order : held_sum 5 (moves late shop).db.orders ≡ 4
unfolding held_sum move reserve_and_enqueue reserve_script take after_reserve deliver acknowledge
    settle ack_and_remove persist_intent persist_in persist_plain accepts_order dead_letter_intent
    refund ◌+ℤ◌ ◌-ℤ◌
late_order = refl

late_counter : counter_of 5 (moves late shop).redis ≡ some (pos 10)
unfolding move reserve_and_enqueue reserve_script take after_reserve deliver acknowledge settle
    ack_and_remove persist_intent persist_in persist_plain accepts_order dead_letter_intent refund
    mark_claim_failed release release_script after_release return_quota ◌+ℤ◌ ◌-ℤ◌
late_counter = refl
