-- ===== src/Worker/Outbox.antt =====
-- app/worker.py, the relay of the outbox: `_OUTBOX_CLAIM_SQL`, `_handle_seat_release`,
-- `process_outbox` and `purge_processed_outbox`. The ids of the entries are a primary key; times are
-- whole microseconds.
pub mod Attempts
pub mod Relay
pub mod Done
pub mod Handled
use Prim.Native.Nat.{min, ◌^◌}
use fast_api.Base.{
  ℕ, ◌+◌, ◌*◌, ◌-◌, Bool, true, false, ◌&&◌, not, ltb, leb, ◌==◌, if◌then◌else◌, Option, none, some,
  is_some, List, [], ◌∷◌, map,
}
use fast_api.Exceptions.{Result, ok, err}
use fast_api.Redis.{Redis}
use fast_api.Database.{
  Database, OutboxEntry, OutboxType, seat_release, unknown_type, Order, find_order,
}
use fast_api.Orders.Release.{release_order_seat}

abbrev pub outbox_batch : ℕ
outbox_batch = 100

abbrev pub outbox_max_attempts : ℕ
outbox_max_attempts = 8

abbrev pub backoff_base : ℕ
backoff_base = 60

abbrev pub backoff_cap : ℕ
backoff_cap = 3600

abbrev pub seconds : ℕ → ℕ
seconds n = n * 1000000

-- `LEAST(:base * power(2, attempts), :cap)`
abbrev pub backoff : ℕ → ℕ
backoff attempts = min (backoff_base * 2 ^ attempts) backoff_cap

-- The rows that the inner SELECT may take; another relay has locked some.
abbrev pub is_due : ℕ → (ℕ → Bool) → OutboxEntry → Bool
is_due now locked e =
    not (is_some e.processed_at)
    && (leb e.next_attempt_at now && (ltb e.attempts outbox_max_attempts && not (locked e.id)))

-- How many due rows have a smaller id.
abbrev pub rank : ℕ → (ℕ → Bool) → ℕ → List OutboxEntry → ℕ
rank now locked id [] = 0
rank now locked id (e ∷ rows) =
    (if is_due now locked e && ltb e.id id then 1 else 0) + rank now locked id rows

-- `ORDER BY id LIMIT :batch`
abbrev pub is_selected : ℕ → (ℕ → Bool) → List OutboxEntry → OutboxEntry → Bool
is_selected now locked rows e = is_due now locked e && ltb (rank now locked e.id rows) outbox_batch

-- The lease of one row.
unfoldable pub lease : ℕ → (ℕ → Bool) → List OutboxEntry → OutboxEntry → OutboxEntry
lease now locked rows e =
    if is_selected now locked rows e
    then record e {
      attempts = e.attempts + 1;
      next_attempt_at = now + seconds (backoff e.attempts);
    }
    else e

-- `RETURNING`
abbrev pub selected : (OutboxEntry → Bool) → List OutboxEntry → List OutboxEntry
selected p [] = []
selected p (e ∷ rows) = let rest = selected p rows in if p e then e ∷ rest else rest

-- `UPDATE outbox SET processed_at = now() WHERE id = ...`
unfoldable pub mark_processed : ℕ → ℕ → OutboxEntry → OutboxEntry
mark_processed now id e = if e.id == id then record e { processed_at = some now } else e

abbrev pub processed_row : ℕ → ℕ → Database → Database
processed_row now id db = record db { outbox = map (mark_processed now id) db.outbox }

-- Where a transient exception stops the handling of a row: nowhere, at the start, between the commit
-- that deletes the hold and the release in Redis, or after the release, before the row is marked.
pub data HandlerFault : Type 0 where
  unstopped at_start before_release before_mark : HandlerFault

module _ {F : Type 0} where
  -- `_handle_seat_release`: a missing order is only reported.
  unfoldable pub handle_seat_release :
      ℕ → Database → Redis F → Result (Unit {0}) × Database × Redis F
  handle_seat_release order_id db r = elim (find_order order_id db.orders) [
    | none ↦ (ok tt, db, r)
    | some o ↦
        let (answer, db', r') = release_order_seat o db r in
        (elim answer [ err e ↦ err e | ok b ↦ ok tt ], db', r')
  ]

  -- After the handler: the row is marked, or left to its lease.
  unfoldable pub finish : ℕ → ℕ → Result (Unit {0}) → Database × Redis F → Database × Redis F
  unfolding mark_processed
  finish now id (err e) (db, r) = (db, r)
  finish now id (ok u) (db, r) = (processed_row now id db, r)

  -- One claimed row. Before the release the hold, where there is one, is deleted and committed.
  unfoldable pub handle_row :
      ℕ → HandlerFault → OutboxType → OutboxEntry → Database × Redis F → Database × Redis F
  unfolding handle_seat_release finish
  handle_row now fault unknown_type e (db, r) = (db, r)
  handle_row now at_start seat_release e (db, r) = (db, r)
  handle_row now before_release seat_release e (db, r) =
      let (answer, db', r') = handle_seat_release e.aggregate_id db r in (db', r)
  handle_row now before_mark seat_release e (db, r) =
      let (answer, db', r') = handle_seat_release e.aggregate_id db r in (db', r')
  handle_row now unstopped seat_release e (db, r) =
      let (answer, db', r') = handle_seat_release e.aggregate_id db r in
      finish now e.id answer (db', r')

  unfoldable pub handle_rows :
      ℕ → (ℕ → HandlerFault) → List OutboxEntry → Database × Redis F → Database × Redis F
  unfolding handle_row
  handle_rows now faults [] s = s
  handle_rows now faults (e ∷ rows) s =
      handle_rows now faults rows (handle_row now (faults e.id) e.event_type e s)

  -- `process_outbox`: the leases are committed first.
  unfoldable pub process_outbox :
      ℕ → (ℕ → Bool) → (ℕ → HandlerFault) → Database × Redis F → Database × Redis F
  unfolding lease handle_rows
  process_outbox now locked faults (db, r) =
      let leased = record db { outbox = map (lease now locked db.outbox) db.outbox } in
      handle_rows now faults (selected (is_selected now locked db.outbox) db.outbox) (leased, r)

-- The rows that have used up their attempts.
abbrev pub dead_rows : List OutboxEntry → ℕ
dead_rows [] = 0
dead_rows (e ∷ rows) =
    (if not (is_some e.processed_at) && leb outbox_max_attempts e.attempts then 1 else 0)
    + dead_rows rows

-- `processed_at < cutoff`, after the retention of seven days.
abbrev pub is_old : ℕ → Option ℕ → Bool
is_old now none = false
is_old now (some at) = ltb (at + seconds (7 * 86400)) now

unfoldable pub purge_processed_outbox : ℕ → Database → Database
purge_processed_outbox now db = record db {
  outbox = selected (λ e. not (is_old now e.processed_at)) db.outbox;
}
