-- ===== src/Worker/Stream.antt =====
-- app/worker.py: `_consume_batch`, `_ack_and_remove`, `_dead_letter_intent` and
-- `reclaim_stale_order_intents`, on the stream of intents and its consumer group. The trimming of
-- the dead-letter stream at its maximal length is left out.
pub mod DeadLetter
pub mod Drain
use fast_api.Base.{
  ℕ, zero, suc, ◌+◌, Bool, true, false, ltb, leb, if◌then◌else◌, Option, none, some, is_some, List,
  [], ◌∷◌, ◌++◌, Hash, hget, hset, hdel, nat_eq,
}
use fast_api.Exceptions.{Result, Error, ok, err, ◌>>=◌}
use fast_api.Redis.{Redis, Intent, Claim, Marker, at}
use fast_api.Database.{Database}
use fast_api.Inventory.{ReleaseArgs, release}
use fast_api.SeatRuns.Release.{Args, release_seats}
use fast_api.Worker.Intents.{
  Catalogue, Outcome, persisted, duplicate, failed, find_key, persist_intent,
}

-- The database, Redis, the entries that were delivered and not acknowledged, with the number of
-- deliveries of each, and the last entry that the group was given.
pub record Worker (F : Type 0) : Type 0 where
  pub db : Database
  pub redis : Redis F
  pub pending : Hash ℕ ℕ
  pub last_delivered : ℕ

-- How a try to persist an entry may be cut short: not at all, by an exception before the commit, or
-- by one between the commit and the acknowledgement.
pub data Fault : Type 0 where
  no_fault before_commit before_ack : Fault

-- What the outside decides for each entry of one pass: a fault, the id of a new order, and whether
-- the entry has been idle for long enough.
pub record Pass : Type 0 where
  pub fault : ℕ → Fault
  pub order_id : ℕ → ℕ
  pub idle : ℕ → Bool

abbrev pub plain_return : Intent → ReleaseArgs
plain_return i = record {
  event_id = i.event_id;
  user_id = i.user_id;
  quantity = i.quantity;
  marker = Marker.dead_letter i.idempotency_key;
}

abbrev pub seat_return : Intent → ℕ → ℕ → ℕ → Args
seat_return i zone block start = record {
  event_id = i.event_id;
  zone_id = zone;
  user_id = i.user_id;
  block = block;
  start = start;
  length = i.quantity;
  marker = Marker.dead_letter i.idempotency_key;
}

-- `XREADGROUP ... COUNT`: the first entries behind the last one that was delivered.
unfoldable pub read_new : ℕ → ℕ → List (ℕ × Intent) → List (ℕ × Intent)
read_new zero last entries = []
read_new (suc count) last [] = []
read_new (suc count) last ((entry, i) ∷ entries) =
    let rest = read_new count last entries in
    let later = read_new (suc count) last entries in
    if ltb last entry then (entry, i) ∷ rest else later

-- A pass of the reclaim, with what happens in Redis while the dead-letter path of an entry waits for
-- the database.
pub record Sweep (F : Type 0) : Type 0 where
  pub pass : Pass
  pub others : ℕ → Redis F → Redis F

module _ {F : Type 0} where
  -- services/idempotency.py
  unfoldable pub mark_claim_failed : ℕ → Redis F → Redis F
  mark_claim_failed key r = record r { claim = at key (some Claim.failed) r.claim }

  -- XACK and XDEL in one transaction.
  unfoldable pub ack_and_remove : ℕ → Worker F → Worker F
  ack_and_remove entry w = record w {
    pending = hdel entry w.pending;
    redis = record (w.redis) { stream = hdel entry w.redis.stream };
  }

  -- `release_seats` for an intent with a block, whose zone and position may be missing.
  unfoldable pub return_seats :
      Intent → Option ℕ → ℕ → Option ℕ → Redis F → Result (Unit {0}) × Redis F
  return_seats i none block start r = (ok tt, r)
  return_seats i (some zone) block none r = (err Error.value_error, r)
  return_seats i (some zone) block (some start) r =
      let (answer, r') = release_seats (seat_return i zone block start) r in
      (answer >>= λ done. ok tt, r')

  unfoldable pub refund : Intent → Option ℕ → Redis F → Result (Unit {0}) × Redis F
  unfolding return_seats
  refund i none r = (ok tt, (release (plain_return i) r).1)
  refund i (some block) r = return_seats i i.zone_id block i.start_pos r

  abbrev pub park : ℕ → Intent → Redis F → Redis F
  park entry i r = record r { dead = r.dead ++ (entry, i) ∷ [] }

  -- `_dead_letter_intent`: park the intent, give its seats back unless it has an order, and mark
  -- its claim. The database and Redis are asked one after the other: `others` is what happens in
  -- Redis from the look at the database on.
  unfoldable pub dead_letter_intent :
      (Redis F → Redis F) → ℕ → Intent → Database → Redis F → Result (Unit {0}) × Redis F
  unfolding refund mark_claim_failed
  dead_letter_intent others entry i db r =
      let parked = others (park entry i r) in
      if is_some (find_key i.idempotency_key db.orders)
      then (ok tt, mark_claim_failed i.idempotency_key parked)
      else let (answer, r') = refund i i.block_id parked in
        elim answer [ err e ↦ (err e, r') | ok _ ↦ (ok tt, mark_claim_failed i.idempotency_key r') ]

  -- `if outcome in ("ok", "duplicate")`
  unfoldable pub settle : ℕ → Result Outcome → Worker F → Worker F
  unfolding ack_and_remove
  settle entry (ok persisted) w = ack_and_remove entry w
  settle entry (ok duplicate) w = ack_and_remove entry w
  settle entry (ok failed) w = w
  settle entry (err e) w = w

  -- After the persist step, whose answer and database these are.
  unfoldable pub acknowledge : Fault → ℕ → Result Outcome → Database → Worker F → Worker F
  unfolding settle
  acknowledge no_fault entry answer db w = settle entry answer (record w { db = db })
  acknowledge before_commit entry answer db w = w
  acknowledge before_ack entry answer db w = record w { db = db }

  -- One entry of a batch: persist, then acknowledge; exceptions are logged.
  unfoldable pub deliver : Catalogue → Pass → ℕ → Intent → Worker F → Worker F
  unfolding acknowledge persist_intent
  deliver c p entry i w =
      let (answer, db) = persist_intent c (p.order_id entry) i w.db in
      acknowledge (p.fault entry) entry answer db w

  abbrev pub mark_delivered : List (ℕ × Intent) → Worker F → Worker F
  mark_delivered [] w = w
  mark_delivered ((entry, i) ∷ entries) w =
      mark_delivered entries (record w { pending = hset entry 1 w.pending; last_delivered = entry })

  unfoldable pub deliver_all : Catalogue → Pass → List (ℕ × Intent) → Worker F → Worker F
  unfolding deliver
  deliver_all c p [] w = w
  deliver_all c p ((entry, i) ∷ entries) w = deliver_all c p entries (deliver c p entry i w)

  -- `_consume_batch`, 500 entries at a time.
  unfoldable pub consume_batch : Catalogue → Pass → Worker F → Worker F
  unfolding read_new deliver_all
  consume_batch c p w =
      let batch = read_new 500 w.last_delivered w.redis.stream in
      deliver_all c p batch (mark_delivered batch w)

  -- One claimed entry, which had been delivered `times` times.
  unfoldable pub retry :
      Catalogue → Sweep F → ℕ → ℕ → ℕ → Intent → Worker F → Result (Unit {0}) × Worker F
  unfolding deliver dead_letter_intent ack_and_remove
  retry c v max_deliveries times entry i w =
      if leb max_deliveries times
      then (let (answer, r') = dead_letter_intent (v.others entry) entry i w.db w.redis in
          elim answer [
            | err e ↦ (err e, record w { redis = r' })
            | ok _ ↦ (ok tt, ack_and_remove entry (record w { redis = r' }))
          ])
      else (ok tt, deliver c v.pass entry i w)

  -- One entry of `reclaim_stale_order_intents`: `XCLAIM` counts a delivery, and drops an entry that
  -- the stream no longer has.
  unfoldable pub reclaim_entry :
      Catalogue → Sweep F → ℕ → ℕ → Worker F → Result (Unit {0}) × Worker F
  unfolding retry
  reclaim_entry c v max_deliveries entry w = elim (hget entry w.pending) [
    | none ↦ (ok tt, w)
    | some times ↦
        if v.pass.idle entry
        then elim (hget entry w.redis.stream) [
          | none ↦ (ok tt, record w { pending = hdel entry w.pending })
          | some i ↦
              retry c v max_deliveries times entry i
                (record w { pending = hset entry (suc times) w.pending })
        ]
        else (ok tt, w)
  ]

  -- The pass: an exception of the dead-letter path ends it.
  unfoldable pub reclaim_all :
      Catalogue → Sweep F → ℕ → List ℕ → Worker F → Result (Unit {0}) × Worker F
  unfolding reclaim_entry
  reclaim_all c v max_deliveries [] w = (ok tt, w)
  reclaim_all c v max_deliveries (entry ∷ entries) w =
      let (answer, w') = reclaim_entry c v max_deliveries entry w in
      let (later, w'') = reclaim_all c v max_deliveries entries w' in
      elim answer [ err e ↦ (err e, w') | ok _ ↦ (later, w'') ]
