-- ===== src/Worker/Intents/Persist.antt =====
-- app/worker.py, `_persist_intent`: what each of its answers says of the database.
use fast_api.Base.{
  ℕ, ◌<◌, ◌≡◌, ◌≢◌, ap, refl, ◌⊎◌, inl, inr, true, false, ◌&&◌, Option, none, some, is_some, ◌∷◌,
  arith, Bool-cases, Option-cases,
}
use fast_api.Exceptions.{Result, ok, err, value_error}
use fast_api.Redis.{Intent}
use fast_api.Database.{Database, Order, SeatHold}
use fast_api.Worker.Intents.{
  Catalogue, Outcome, persisted, duplicate, failed, find_key, new_order, new_hold, accepts_order,
  accepts_hold, overlaps_any, after_integrity_error, persist_plain, persist_seated, persist_in,
  persist_intent,
}

-- What is inserted: an order that no zone holds; or an order and the hold of its seats.
abbrev Inserted : ℕ → Intent → Database → Database → Type 0
Inserted id i db db' =
    ((i.zone_id ≡ none)
      × (i.block_id ≡ none)
      × (db' ≡ record db { orders = new_order id i none ∷ db.orders }))
    ⊎ ((zone : ℕ) × (block : ℕ) × (start : ℕ) × (i.zone_id ≡ some zone)
        × (i.block_id ≡ some block)
        × (overlaps_any (new_hold id i zone block start) db.holds ≡ false)
        × (db' ≡ record db {
          orders = new_order id i (some zone) ∷ db.orders;
          holds = new_hold id i zone block start ∷ db.holds;
        }))

-- What each answer of `_persist_intent` promises.
abbrev pub Persisted : ℕ → Intent → Database → Result Outcome → Database → Type 0
Persisted id i db (ok persisted) db' =
    (0 < i.quantity) × (find_key i.idempotency_key db.orders ≡ none) × Inserted id i db db'
Persisted id i db (ok duplicate) db' =
    (db' ≡ db) × (is_some (find_key i.idempotency_key db.orders) ≡ true)
Persisted id i db (ok failed) db' =
    (db' ≡ db)
    × ((find_key i.idempotency_key db.orders ≡ none) ⊎ (is_some i.zone_id ≢ is_some i.block_id))
Persisted id i db (err e) db' = (db' ≡ db) × (e ≡ value_error) × (i.start_pos ≡ none)

unpersisted :
    (id : ℕ) (i : Intent) (db : Database) → Persisted id i db (ok (after_integrity_error i db)) db
unfolding after_integrity_error
unpersisted id i db = elim (Option-cases (find_key i.idempotency_key db.orders)) [
  | inl absent ↦ rw absent (refl, inl absent)
  | inr (o, found) ↦ rw found (refl, ap is_some found)
]

new_key :
    (c : Catalogue) (db : Database) (o : Order)
    → accepts_order c db o ≡ true
    → (0 < o.quantity) × (find_key o.idempotency_key db.orders ≡ none)
unfolding accepts_order
new_key c db o h = elim (Option-cases (find_key o.idempotency_key db.orders)) [
  | inl absent ↦ (ground arith, absent)
  | inr (p, found) ↦ let h' = rw found at h in ground arith
]

no_overlap :
    (c : Catalogue) (db : Database) (h : SeatHold)
    → accepts_hold c db h ≡ true
    → overlaps_any h db.holds ≡ false
unfolding accepts_hold
no_overlap c db h e = ground arith

plain-Persisted :
    (c : Catalogue) (id : ℕ) (i : Intent) (db : Database)
    → i.zone_id ≡ none
    → i.block_id ≡ none
    → Persisted id i db (persist_plain c id i db).0 (persist_plain c id i db).1
unfolding persist_plain
plain-Persisted c id i db z b = elim (Bool-cases (accepts_order c db (new_order id i none))) [
  | inl taken ↦
      let (full, new) = new_key c db (new_order id i none) taken in
      rw taken (full, new, inl (z, b, refl))
  | inr refused ↦ rw refused (unpersisted id i db)
]

seated-Persisted :
    (c : Catalogue) (id : ℕ) (i : Intent) (zone block : ℕ) (start : Option ℕ) (db : Database)
    → i.zone_id ≡ some zone
    → i.block_id ≡ some block
    → i.start_pos ≡ start
    → Persisted id i db
        (persist_seated c id i zone block start db).0
        (persist_seated c id i zone block start db).1
unfolding persist_seated
seated-Persisted c id i zone block none db z b s =
    elim (Bool-cases (accepts_order c db (new_order id i (some zone)))) [
      | inl taken ↦ rw taken (refl, refl, s)
      | inr refused ↦ rw refused (unpersisted id i db)
    ]
seated-Persisted c id i zone block (some start) db z b s =
    let o = new_order id i (some zone) in
    let h = new_hold id i zone block start in
    elim (Bool-cases (accepts_order c db o && accepts_hold c db h)) [
      | inl taken ↦
          let (full, new) = new_key c db o (ground arith) in
          rw taken
            (full, new, inr (zone, block, start, z, b, no_overlap c db h (ground arith), refl))
      | inr refused ↦ rw refused (unpersisted id i db)
    ]

persist_in-Persisted :
    (c : Catalogue) (id : ℕ) (i : Intent) (zone block : Option ℕ) (db : Database)
    → i.zone_id ≡ zone
    → i.block_id ≡ block
    → Persisted id i db (persist_in c id i zone block db).0 (persist_in c id i zone block db).1
unfolding persist_in
persist_in-Persisted c id i none none db z b = plain-Persisted c id i db z b
persist_in-Persisted c id i (some zone) (some block) db z b =
    seated-Persisted c id i zone block i.start_pos db z b refl
persist_in-Persisted c id i none (some block) db z b = (refl, inr (λ e. ground arith))
persist_in-Persisted c id i (some zone) none db z b = (refl, inr (λ e. ground arith))

-- Each answer of the persist step keeps its promise. 'ok': the intent asks for tickets, its key was
-- new, and its order is inserted, alone where it names neither zone nor block, with a hold that
-- overlaps none where it names both. 'duplicate': nothing changes, the key has an order. 'failed':
-- nothing changes, and the key has no order or the intent names one of zone and block alone.
-- An exception: nothing changes, and the position is missing.
pub persist_intent-Persisted :
    (c : Catalogue) (id : ℕ) (i : Intent) (db : Database)
    → Persisted id i db (persist_intent c id i db).0 (persist_intent c id i db).1
unfolding persist_intent
persist_intent-Persisted c id i db = persist_in-Persisted c id i i.zone_id i.block_id db refl refl
