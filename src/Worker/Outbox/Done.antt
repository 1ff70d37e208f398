-- ===== src/Worker/Outbox/Done.antt =====
-- app/worker.py, `process_outbox`: an entry that one run claims.
use fast_api.Base.{
  ◌||◌, ℕ, ◌≡◌, ◌⊎◌, refl, ap, sym, ◌∙◌, subst, inl, inr, Bool, true, false, ◌&&◌, ◌==◌, none, some,
  is_some, List, [], ◌∷◌, map, Has, arith, Bool-cases,
}
use fast_api.Exceptions.{Result, ok, err}
use fast_api.Redis.{Redis}
use fast_api.Database.{
  Database, OutboxEntry, OutboxType, seat_release, unknown_type, Order, find_order,
}
use fast_api.Orders.Release.{without_zone}
use fast_api.Worker.Outbox.Relay.{handler-outbox}
use fast_api.Worker.Outbox.{
  HandlerFault, unstopped, at_start, before_release, before_mark, is_selected, lease, selected,
  mark_processed, handle_seat_release, finish, handle_row, handle_rows, process_outbox,
}

-- A row under the id; one that is processed.
abbrev pub is_present : ℕ → List OutboxEntry → Bool
is_present id [] = false
is_present id (e ∷ rows) = (e.id == id) || is_present id rows

abbrev pub is_done : ℕ → List OutboxEntry → Bool
is_done id [] = false
is_done id (e ∷ rows) = ((e.id == id) && is_some e.processed_at) || is_done id rows

-- Each row keeps its id, and what is processed stays so.
record Keeps (rows rows' : List OutboxEntry) : Type 0 where
  present : (id : ℕ) → is_present id rows ≡ true → is_present id rows' ≡ true
  done : (id : ℕ) → is_done id rows ≡ true → is_done id rows' ≡ true

same-Keeps : (rows rows' : List OutboxEntry) → rows' ≡ rows → Keeps rows rows'
same-Keeps rows rows' e =
    subst (Keeps rows) (sym e) (record { present = λ id h. h; done = λ id h. h })

mark-Keeps : (now j : ℕ) (rows : List OutboxEntry) → Keeps rows (map (mark_processed now j) rows)
unfolding mark_processed
mark-Keeps now j [] = record { present = λ id h. h; done = λ id h. h }
mark-Keeps now j (e ∷ rows) =
    let rest = mark-Keeps now j rows in
    elim (Bool-cases (e.id == j)) [
      | inl here ↦ rw here (record {
        present = λ id h. let r = rest.present id in ground arith;
        done = λ id h. let r = rest.done id in ground arith;
      })
      | inr there ↦ rw there (record {
        present = λ id h. let r = rest.present id in ground arith;
        done = λ id h. let r = rest.done id in ground arith;
      })
    ]

mark-done :
    (now id : ℕ) (rows : List OutboxEntry)
    → is_present id rows ≡ true
    → is_done id (map (mark_processed now id) rows) ≡ true
unfolding mark_processed
mark-done now id [] h = cc
mark-done now id (e ∷ rows) h = elim (Bool-cases (e.id == id)) [
  | inl here ↦ rw here (ground arith)
  | inr there ↦ rw there (let rest = mark-done now id rows (ground arith) in ground arith)
]

lease-present :
    (id now : ℕ) (locked : ℕ → Bool) (all rows : List OutboxEntry)
    → is_present id (map (lease now locked all) rows) ≡ is_present id rows
unfolding lease
lease-present id now locked all [] = refl
lease-present id now locked all (e ∷ rows) =
    let rest = lease-present id now locked all rows in
    elim (Bool-cases (is_selected now locked all e)) [
      | inl taken ↦ rw (taken, rest) refl
      | inr left ↦ rw (left, rest) refl
    ]

Has-present : (e : OutboxEntry) (rows : List OutboxEntry) → Has e rows → is_present e.id rows ≡ true
Has-present e [] h = elim h [ ]
Has-present e (x ∷ rows) (inl same) = let i = ap (λ (k : OutboxEntry). k.id) same in ground arith
Has-present e (x ∷ rows) (inr h) = let rest = Has-present e rows h in ground arith

Has-selected :
    (p : OutboxEntry → Bool) (e : OutboxEntry) (rows : List OutboxEntry)
    → Has e rows
    → p e ≡ true
    → Has e (selected p rows)
Has-selected p e [] h chosen = elim h [ ]
Has-selected p e (x ∷ rows) (inl same) chosen = rw (ap p same ∙ chosen) (inl same)
Has-selected p e (x ∷ rows) (inr h) chosen =
    let rest = Has-selected p e rows h chosen in
    elim (Bool-cases (p x)) [ inl kept ↦ rw kept (inr rest) | inr dropped ↦ rw dropped rest ]

-- The order of the entry, where there is one, has no zone: its return raises nothing.
abbrev pub PlainOrder : ℕ → List Order → Type 0
PlainOrder id orders =
    (find_order id orders ≡ none)
    ⊎ ((o : Order) × (find_order id orders ≡ some o) × (o.zone_id ≡ none))

module _ {F : Type 0} where
  finish-Keeps :
      (now id : ℕ) (answer : Result (Unit {0})) (rows : List OutboxEntry) (db : Database)
      (r : Redis F)
      → db.outbox ≡ rows
      → Keeps rows (finish now id answer (db, r)).0.outbox
        × ((finish now id answer (db, r)).0.orders ≡ db.orders)
  unfolding finish
  finish-Keeps now id (err e) rows db r same = (same-Keeps rows db.outbox same, refl)
  finish-Keeps now id (ok u) rows db r same = (
    subst (λ (l : List OutboxEntry). Keeps rows (map (mark_processed now id) l)) (sym same)
        (mark-Keeps now id rows),
    refl,
  )

  row-Keeps :
      (now : ℕ) (fault : HandlerFault) (type : OutboxType) (e : OutboxEntry)
      (s : Database × Redis F)
      → Keeps s.0.outbox (handle_row now fault type e s).0.outbox
        × ((handle_row now fault type e s).0.orders ≡ s.0.orders)
  unfolding handle_row
  row-Keeps now fault unknown_type e (db, r) = (same-Keeps db.outbox db.outbox refl, refl)
  row-Keeps now at_start seat_release e (db, r) = (same-Keeps db.outbox db.outbox refl, refl)
  row-Keeps now before_release seat_release e (db, r) =
      let (outbox, orders) = handler-outbox e.aggregate_id db r in
      (same-Keeps db.outbox _ outbox, orders)
  row-Keeps now before_mark seat_release e (db, r) =
      let (outbox, orders) = handler-outbox e.aggregate_id db r in
      (same-Keeps db.outbox _ outbox, orders)
  row-Keeps now unstopped seat_release e (db, r) =
      let (outbox, orders) = handler-outbox e.aggregate_id db r in
      let (keeps, same) =
        finish-Keeps now e.id (handle_seat_release e.aggregate_id db r).0 db.outbox
          (handle_seat_release e.aggregate_id db r).1 (handle_seat_release e.aggregate_id db r).2
          outbox in
      (keeps, same ∙ orders)

  rows-done :
      (now : ℕ) (faults : ℕ → HandlerFault) (id : ℕ) (rows : List OutboxEntry)
      (s : Database × Redis F)
      → is_done id s.0.outbox ≡ true
      → is_done id (handle_rows now faults rows s).0.outbox ≡ true
  unfolding handle_rows
  rows-done now faults id [] s h = h
  rows-done now faults id (e ∷ rows) s h =
      rows-done now faults id rows _ ((row-Keeps now (faults e.id) e.event_type e s).0.done id h)

  plain_answer :
      (id : ℕ) (db : Database) (r : Redis F)
      → PlainOrder id db.orders
      → (handle_seat_release id db r).0 ≡ ok tt
  unfolding handle_seat_release
  plain_answer id db r (inl missing) = rw (missing, handle_seat_release) refl
  plain_answer id db r (inr (o, found, plain)) =
      rw (found, handle_seat_release, without_zone o db r plain) refl

  own_row :
      (now : ℕ) (e : OutboxEntry) (s : Database × Redis F)
      → PlainOrder e.aggregate_id s.0.orders
      → is_present e.id s.0.outbox ≡ true
      → is_done e.id (handle_row now unstopped seat_release e s).0.outbox ≡ true
  unfolding handle_row finish
  own_row now e (db, r) plain there =
      let (outbox, orders) = handler-outbox e.aggregate_id db r in
      rw (plain_answer e.aggregate_id db r plain) (
        subst (λ (l : List OutboxEntry). is_done e.id (map (mark_processed now e.id) l) ≡ true)
          (sym outbox) (mark-done now e.id db.outbox there))

  claimed-done :
      (now : ℕ) (faults : ℕ → HandlerFault) (e : OutboxEntry) (rows : List OutboxEntry)
      (s : Database × Redis F)
      → Has e rows
      → faults e.id ≡ unstopped
      → e.event_type ≡ seat_release
      → PlainOrder e.aggregate_id s.0.orders
      → is_present e.id s.0.outbox ≡ true
      → is_done e.id (handle_rows now faults rows s).0.outbox ≡ true
  unfolding handle_rows
  claimed-done now faults e [] s h calm type plain there = elim h [ ]
  claimed-done now faults e (x ∷ rows) s (inl same) calm type plain there =
      rows-done now faults e.id rows _ (
        subst
          (λ (y : OutboxEntry).
            is_done e.id (handle_row now (faults y.id) y.event_type y s).0.outbox ≡ true)
          (sym same) (rw (calm, type) (own_row now e s plain there)))
  claimed-done now faults e (x ∷ rows) s (inr h) calm type plain there =
      let (keeps, orders) = row-Keeps now (faults x.id) x.event_type x s in
      claimed-done now faults e rows _ h calm type
        (subst (PlainOrder e.aggregate_id) (sym orders) plain) (keeps.present e.id there)

  -- A debt is paid: an entry of a known type that a run claims, whose handler no transient exception
  -- stops, and whose order has no zone or is missing, is processed after the run, whatever becomes
  -- of the other entries.
  pub process_outbox-done :
      (now : ℕ) (locked : ℕ → Bool) (faults : ℕ → HandlerFault) (e : OutboxEntry) (db : Database)
      (r : Redis F)
      → Has e db.outbox
      → is_selected now locked db.outbox e ≡ true
      → faults e.id ≡ unstopped
      → e.event_type ≡ seat_release
      → PlainOrder e.aggregate_id db.orders
      → is_done e.id (process_outbox now locked faults (db, r)).0.outbox ≡ true
  unfolding process_outbox
  process_outbox-done now locked faults e db r has chosen calm type plain =
      claimed-done now faults e (selected (is_selected now locked db.outbox) db.outbox)
        (record db { outbox = map (lease now locked db.outbox) db.outbox }, r)
        (Has-selected (is_selected now locked db.outbox) e db.outbox has chosen) calm type plain
        (lease-present e.id now locked db.outbox db.outbox ∙ Has-present e db.outbox has)
