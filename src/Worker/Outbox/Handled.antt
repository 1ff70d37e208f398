-- ===== src/Worker/Outbox/Handled.antt =====
-- app/worker.py, `process_outbox`: how often an entry is handled, and what becomes of one that is not.
use fast_api.Base.{
  ℕ, ◌≤◌, ◌≡◌, ◌⊎◌, ltb, refl, ap, ◌∙◌, inl, inr, Bool, false, ◌==◌, List, [], ◌∷◌, map, All, arith,
  Bool-cases,
}
use fast_api.Exceptions.{Result, ok, err}
use fast_api.Redis.{Redis}
use fast_api.Database.{Database, OutboxEntry, OutboxType, seat_release, unknown_type}
use fast_api.Worker.Outbox.{
  HandlerFault, unstopped, at_start, before_release, before_mark, outbox_max_attempts, is_selected,
  lease, selected, mark_processed, finish, handle_row, handle_rows, process_outbox,
}
use fast_api.Worker.Outbox.Attempts.{entries_of, claims_of, Limited}
use fast_api.Worker.Outbox.Done.{is_done}
use fast_api.Worker.Outbox.Relay.{Run, handler-outbox, relay, relays, handled, handled-attempts}

mark-other :
    (now j id : ℕ) (rows : List OutboxEntry)
    → (j == id) ≡ false
    → is_done id (map (mark_processed now j) rows) ≡ is_done id rows
unfolding mark_processed
mark-other now j id [] h = refl
mark-other now j id (e ∷ rows) h =
    let rest = mark-other now j id rows h in
    elim (Bool-cases (e.id == j)) [
      | inl here ↦ rw (here, rest) (ground arith)
      | inr there ↦ rw (there, rest) refl
    ]

lease-done :
    (id now : ℕ) (locked : ℕ → Bool) (all rows : List OutboxEntry)
    → is_done id (map (lease now locked all) rows) ≡ is_done id rows
unfolding lease
lease-done id now locked all [] = refl
lease-done id now locked all (e ∷ rows) =
    let rest = lease-done id now locked all rows in
    elim (Bool-cases (is_selected now locked all e)) [
      | inl taken ↦ rw (taken, rest) refl
      | inr left ↦ rw (left, rest) refl
    ]

-- Where no row under the id is claimed, no claimed row has the id.
selected-other :
    (id : ℕ) (p : OutboxEntry → Bool) (rows : List OutboxEntry)
    → claims_of id p rows ≡ 0
    → All (λ (e : OutboxEntry). (e.id == id) ≡ false) (selected p rows)
selected-other id p [] h = tt
selected-other id p (e ∷ rows) h =
    let rest = selected-other id p rows (omega (arith, h)) in
    elim (Bool-cases (p e)) [ inl taken ↦ rw taken (ground arith, rest) | inr left ↦ rw left rest ]

module _ {F : Type 0} where
  finish-other :
      (now j id : ℕ) (answer : Result (Unit {0})) (db : Database) (r : Redis F)
      → (j == id) ≡ false
      → is_done id (finish now j answer (db, r)).0.outbox ≡ is_done id db.outbox
  unfolding finish
  finish-other now j id (err e) db r h = refl
  finish-other now j id (ok u) db r h = mark-other now j id db.outbox h

  row-other :
      (now id : ℕ) (fault : HandlerFault) (type : OutboxType) (e : OutboxEntry)
      (s : Database × Redis F)
      → (e.id == id) ≡ false
      → is_done id (handle_row now fault type e s).0.outbox ≡ is_done id s.0.outbox
  unfolding handle_row
  row-other now id fault unknown_type e (db, r) h = refl
  row-other now id at_start seat_release e (db, r) h = refl
  row-other now id before_release seat_release e (db, r) h =
      ap (is_done id) (handler-outbox e.aggregate_id db r).0
  row-other now id before_mark seat_release e (db, r) h =
      ap (is_done id) (handler-outbox e.aggregate_id db r).0
  row-other now id unstopped seat_release e (db, r) h =
      finish-other now e.id id _ _ _ h ∙ ap (is_done id) (handler-outbox e.aggregate_id db r).0

  rows-other :
      (now id : ℕ) (faults : ℕ → HandlerFault) (rows : List OutboxEntry) (s : Database × Redis F)
      → All (λ (e : OutboxEntry). (e.id == id) ≡ false) rows
      → is_done id (handle_rows now faults rows s).0.outbox ≡ is_done id s.0.outbox
  unfolding handle_rows
  rows-other now id faults [] s h = refl
  rows-other now id faults (e ∷ rows) s h =
      rows-other now id faults rows _ h.1 ∙ row-other now id (faults e.id) e.event_type e s h.0

  relay-idle :
      (id : ℕ) (u : Run) (s : Database × Redis F)
      → claims_of id (is_selected u.now u.locked s.0.outbox) s.0.outbox ≡ 0
      → is_done id (relay u s).0.outbox ≡ is_done id s.0.outbox
  unfolding process_outbox
  relay-idle id u (db, r) h =
      rows-other u.now id u.faults _ _
        (selected-other id (is_selected u.now u.locked db.outbox) db.outbox h)
      ∙ lease-done id u.now u.locked db.outbox db.outbox

  relays-idle :
      (id : ℕ) (us : List Run) (s : Database × Redis F)
      → handled id us s ≡ 0
      → is_done id (relays us s).0.outbox ≡ is_done id s.0.outbox
  relays-idle id [] s h = refl
  relays-idle id (u ∷ us) s h =
      relays-idle id us (relay u s) (omega (arith, h)) ∙ relay-idle id u s (omega (arith, h))

  -- A poisoned entry does not spin: where no row has used more attempts than it has and ids are
  -- unique, an entry is claimed for its handler at most eight times, over any number of runs, at any
  -- times, whatever rows are locked and wherever handlers are stopped; and it is claimed at least
  -- once, or the runs do not change whether it is processed.
  pub relays-handled :
      (id : ℕ) (us : List Run) (s : Database × Redis F)
      → Limited s.0.outbox
      → entries_of id s.0.outbox ≤ 1
      → (handled id us s ≤ outbox_max_attempts)
        × ((1 ≤ handled id us s) ⊎ (is_done id (relays us s).0.outbox ≡ is_done id s.0.outbox))
  relays-handled id us s h one =
      let bound = handled-attempts id us s h in
      (
        ground arith,
        elim (Bool-cases (ltb 0 (handled id us s))) [
          | inl some_times ↦ inl (ground arith)
          | inr never ↦ inr (relays-idle id us s (ground arith))
        ],
      )
