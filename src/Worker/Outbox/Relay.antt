-- ===== src/Worker/Outbox/Relay.antt =====
-- app/worker.py, `process_outbox`: runs of the relay.
use fast_api.Base.{
  ℕ, ◌+◌, ◌*◌, ◌≤◌, ◌≡◌, refl, sym, ◌∙◌, subst, inl, inr, Bool, List, [], ◌∷◌, map, arith,
  Option-cases,
}
use fast_api.Exceptions.{Result, ok, err}
use fast_api.Redis.{Redis}
use fast_api.Database.{
  Database, OutboxEntry, OutboxType, seat_release, unknown_type, Order, find_order, find_hold,
}
use fast_api.Orders.Release.{release_order_seat, with_hold, without_hold, without_zone}
use fast_api.Worker.Outbox.{
  HandlerFault, unstopped, at_start, before_release, before_mark, outbox_max_attempts, is_selected,
  lease, selected, mark_processed, handle_seat_release, finish, handle_row, handle_rows,
  process_outbox,
}
use fast_api.Worker.Outbox.Attempts.{
  attempts_of, entries_of, claims_of, Limited, SameAttempts, lease-attempts, lease-entries,
  lease-Limited, mark-SameAttempts, within_limit,
}

-- What one run meets: the time, the rows that another relay has locked, and the handlers that a
-- transient exception stops.
pub record Run : Type 0 where
  pub now : ℕ
  pub locked : ℕ → Bool
  pub faults : ℕ → HandlerFault

same-SameAttempts : (rows rows' : List OutboxEntry) → rows' ≡ rows → SameAttempts rows rows'
same-SameAttempts rows rows' same =
    subst (λ (l : List OutboxEntry). SameAttempts rows l) (sym same)
      (record { attempts = λ j. refl; entries = λ j. refl; limited = λ h. h })

module _ {F : Type 0} where
  returned-outbox :
      (o : Order) (db : Database) (r : Redis F)
      → ((release_order_seat o db r).1.outbox ≡ db.outbox)
        × ((release_order_seat o db r).1.orders ≡ db.orders)
  returned-outbox o db r = elim (Option-cases (o.zone_id)) [
    | inl plain ↦
        subst
          (λ (p : Result Bool × Database × Redis F).
            (p.1.outbox ≡ db.outbox) × (p.1.orders ≡ db.orders))
          (sym (without_zone o db r plain)) (refl, refl)
    | inr (zone, seated) ↦ elim (Option-cases (find_hold o.id db.holds)) [
      | inl gone ↦
          subst
            (λ (p : Result Bool × Database × Redis F).
              (p.1.outbox ≡ db.outbox) × (p.1.orders ≡ db.orders))
            (sym (without_hold o zone db r seated gone)) (refl, refl)
      | inr (hold, held) ↦
          subst
            (λ (p : Result Bool × Database × Redis F).
              (p.1.outbox ≡ db.outbox) × (p.1.orders ≡ db.orders))
            (sym (with_hold o zone hold db r seated held)) (refl, refl)
    ]
  ]

  pub handler-outbox :
      (id : ℕ) (db : Database) (r : Redis F)
      → ((handle_seat_release id db r).1.outbox ≡ db.outbox)
        × ((handle_seat_release id db r).1.orders ≡ db.orders)
  unfolding handle_seat_release
  handler-outbox id db r = elim (Option-cases (find_order id db.orders)) [
    | inl missing ↦ rw (missing, handle_seat_release) (refl, refl)
    | inr (o, found) ↦ rw (found, handle_seat_release) (returned-outbox o db r)
  ]

  finish-SameAttempts :
      (now id : ℕ) (answer : Result (Unit {0})) (rows : List OutboxEntry) (db : Database)
      (r : Redis F)
      → db.outbox ≡ rows
      → SameAttempts rows (finish now id answer (db, r)).0.outbox
  unfolding finish
  finish-SameAttempts now id (err e) rows db r same = same-SameAttempts rows db.outbox same
  finish-SameAttempts now id (ok u) rows db r same =
      subst (λ (l : List OutboxEntry). SameAttempts rows (map (mark_processed now id) l)) (sym same)
        (mark-SameAttempts now id rows)

  row-SameAttempts :
      (now : ℕ) (fault : HandlerFault) (type : OutboxType) (e : OutboxEntry)
      (s : Database × Redis F)
      → SameAttempts s.0.outbox (handle_row now fault type e s).0.outbox
  unfolding handle_row
  row-SameAttempts now fault unknown_type e (db, r) = same-SameAttempts db.outbox db.outbox refl
  row-SameAttempts now at_start seat_release e (db, r) = same-SameAttempts db.outbox db.outbox refl
  row-SameAttempts now before_release seat_release e (db, r) =
      same-SameAttempts db.outbox _ (handler-outbox e.aggregate_id db r).0
  row-SameAttempts now before_mark seat_release e (db, r) =
      same-SameAttempts db.outbox _ (handler-outbox e.aggregate_id db r).0
  row-SameAttempts now unstopped seat_release e (db, r) =
      finish-SameAttempts now e.id _ db.outbox _ _ (handler-outbox e.aggregate_id db r).0

  rows-SameAttempts :
      (now : ℕ) (faults : ℕ → HandlerFault) (rows : List OutboxEntry) (s : Database × Redis F)
      → SameAttempts s.0.outbox (handle_rows now faults rows s).0.outbox
  unfolding handle_rows
  rows-SameAttempts now faults [] s = record {
    attempts = λ j. refl;
    entries = λ j. refl;
    limited = λ h. h;
  }
  rows-SameAttempts now faults (e ∷ rows) s =
      let first = row-SameAttempts now (faults e.id) e.event_type e s in
      let later =
        rows-SameAttempts now faults rows (handle_row now (faults e.id) e.event_type e s) in
      record {
        attempts = λ id. later.attempts id ∙ first.attempts id;
        entries = λ id. later.entries id ∙ first.entries id;
        limited = λ h. later.limited (first.limited h);
      }

  abbrev pub relay : Run → Database × Redis F → Database × Redis F
  relay u s = process_outbox u.now u.locked u.faults s

  abbrev pub relays : List Run → Database × Redis F → Database × Redis F
  relays [] s = s
  relays (u ∷ us) s = relays us (relay u s)

  -- How often the runs hand a row under the id to its handler.
  abbrev pub handled : ℕ → List Run → Database × Redis F → ℕ
  handled id [] s = 0
  handled id (u ∷ us) s =
      claims_of id (is_selected u.now u.locked s.0.outbox) s.0.outbox + handled id us (relay u s)

  relay-attempts :
      (id : ℕ) (u : Run) (s : Database × Redis F)
      → Limited s.0.outbox
      → (attempts_of id (relay u s).0.outbox
          ≡ attempts_of id s.0.outbox
            + claims_of id (is_selected u.now u.locked s.0.outbox) s.0.outbox)
        × (entries_of id (relay u s).0.outbox ≡ entries_of id s.0.outbox)
        × Limited (relay u s).0.outbox
  unfolding process_outbox
  relay-attempts id u (db, r) h =
      let leased = record db { outbox = map (lease u.now u.locked db.outbox) db.outbox } in
      let claimed = selected (is_selected u.now u.locked db.outbox) db.outbox in
      let same = rows-SameAttempts u.now u.faults claimed (leased, r) in
      (
        same.attempts id ∙ lease-attempts id u.now u.locked db.outbox db.outbox,
        same.entries id ∙ lease-entries id u.now u.locked db.outbox db.outbox,
        same.limited (lease-Limited u.now u.locked db.outbox db.outbox h),
      )

  pub handled-attempts :
      (id : ℕ) (us : List Run) (s : Database × Redis F)
      → Limited s.0.outbox
      → handled id us s + attempts_of id s.0.outbox ≤ outbox_max_attempts * entries_of id s.0.outbox
  handled-attempts id [] s h = let all = within_limit id s.0.outbox h in omega (arith, all)
  handled-attempts id (u ∷ us) s h =
      let (more, same, limited) = relay-attempts id u s h in
      let later = handled-attempts id us (relay u s) limited in ground arith
