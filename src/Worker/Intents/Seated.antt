-- ===== src/Worker/Intents/Seated.antt =====
-- app/worker.py, `_persist_intent`, with app/crud/order.py and app/services/orders.py: sequences of
-- the writes to the orders and the holds.
use fast_api.Base.{
  Bool, ℕ, ◌+◌, ◌≤◌, ◌≡◌, refl, ap, sym, subst, inl, inr, ◌==◌, none, some, List, [], ◌∷◌, All-mono,
  arith, Bool-cases, Option-cases,
}
use fast_api.Exceptions.{Result, ok, err}
use fast_api.Redis.{Intent, Redis}
use fast_api.Database.{Database, Order, SeatHold, find_order, find_hold}
use fast_api.Orders.Owed.{Attempt, attempt}
use fast_api.Orders.Updates.{Freezes, attempt-Rewrites, attempt-Freezes}
use fast_api.Orders.Release.{release_order_seat, with_hold, without_hold}
use fast_api.Worker.Intents.{
  Catalogue, Outcome, persisted, duplicate, failed, find_key, new_order, persist_intent,
}
use fast_api.Worker.Intents.Persist.{Persisted, persist_intent-Persisted}
use fast_api.Worker.Intents.Holds.{keys, Booked, IsSeated, Rewrites-IsSeated}
use fast_api.Worker.Intents.Frozen.{
  All-delete_hold, delete-Disjoint, freeze-Disjoint, freeze-Booked,
}

Freezes-IsSeated :
    (db : Database) (holds : List SeatHold)
    → Freezes db.holds holds
    → IsSeated db
    → IsSeated (record db { holds = holds })
Freezes-IsSeated db holds (inr w) i =
    subst (λ (l : List SeatHold). IsSeated (record db { holds = l })) (sym w)
      (record { disjoint = i.disjoint; booked = i.booked; one_order = i.one_order })
Freezes-IsSeated db holds (inl (now, id, w)) i =
    subst (λ (l : List SeatHold). IsSeated (record db { holds = l })) (sym w)
      (record {
        disjoint = freeze-Disjoint now id db.holds i.disjoint;
        booked = freeze-Booked now id db.orders db.holds i.booked;
        one_order = i.one_order;
      })

attempt-IsSeated : (a : Attempt) (db : Database) → IsSeated db → IsSeated (attempt a db)
attempt-IsSeated a db i =
    let db' = record db { orders = (attempt a db).orders } in
    let rewritten : IsSeated db' = elim (attempt-Rewrites a db) [
      | inl (now, id, s, t, legal, w) ↦ Rewrites-IsSeated db (attempt a db).orders now id s t w i
      | inr w ↦
          subst (λ (l : List Order). IsSeated (record db { orders = l })) (sym w)
            (record { disjoint = i.disjoint; booked = i.booked; one_order = i.one_order })
    ] in
    let done = Freezes-IsSeated db' (attempt a db).holds (attempt-Freezes a db) rewritten in
    record { disjoint = done.disjoint; booked = done.booked; one_order = done.one_order }

-- A row under a new id is found, and hides no other row.
Booked-insert :
    (o : Order) (orders : List Order) (h : SeatHold)
    → find_order o.id orders ≡ none
    → Booked orders h
    → Booked (o ∷ orders) h
Booked-insert o orders h fresh (p, found, e', z, q) = elim (Bool-cases (o.id == h.order_id)) [
  | inl same ↦
      let e : o.id ≡ h.order_id = ground arith in
      let f = ap (λ (j : ℕ). find_order j orders) e in ground arith
  | inr other ↦ (p, rw other found, e', z, q)
]

absent-keys : (key : ℕ) (orders : List Order) → find_key key orders ≡ none → keys key orders ≡ 0
absent-keys key [] e = refl
absent-keys key (o ∷ orders) e = ground (arith, absent-keys key orders)

insert-keys :
    (o : Order) (orders : List Order) (key : ℕ)
    → find_key o.idempotency_key orders ≡ none
    → keys key orders ≤ 1
    → keys key (o ∷ orders) ≤ 1
insert-keys o orders key new few = elim (Bool-cases (o.idempotency_key == key)) [
  | inl same ↦
      let e : o.idempotency_key ≡ key = ground arith in
      let none_yet = absent-keys o.idempotency_key orders new in
      rw same (subst (λ (j : ℕ). 1 + keys j orders ≤ 1) e (omega (arith, none_yet)))
  | inr other ↦ rw other (ground arith)
]

Persisted-IsSeated :
    (id : ℕ) (i : Intent) (db db' : Database) (answer : Result Outcome)
    → find_order id db.orders ≡ none
    → IsSeated db
    → Persisted id i db answer db'
    → IsSeated db'
Persisted-IsSeated id i db db' (ok duplicate) fresh w (same, _) = subst IsSeated (sym same) w
Persisted-IsSeated id i db db' (ok failed) fresh w (same, _) = subst IsSeated (sym same) w
Persisted-IsSeated id i db db' (err e) fresh w (same, _, _) = subst IsSeated (sym same) w
Persisted-IsSeated id i db db' (ok persisted) fresh w (full, new, inl (z, b, e)) =
    subst IsSeated (sym e) (record {
      disjoint = w.disjoint;
      booked =
          All-mono (Booked db.orders) _ db.holds
            (λ h. Booked-insert (new_order id i none) db.orders h fresh) w.booked;
      one_order = λ key. insert-keys (new_order id i none) db.orders key new (w.one_order key);
    })
Persisted-IsSeated id i db db' (ok persisted) fresh w
      (full, new, inr (zone, block, start, z, b, apart, e)) =
    let o = new_order id i (some zone) in
    subst IsSeated (sym e) (record {
      disjoint = (apart, w.disjoint);
      booked = (
        (o, ground arith, refl, refl, refl),
        All-mono (Booked db.orders) _ db.holds (λ h. Booked-insert o db.orders h fresh) w.booked,
      );
      one_order = λ key. insert-keys o db.orders key new (w.one_order key);
    })

module _ {F : Type 0} where
  returned-IsSeated :
      (o : Order) (db : Database) (r : Redis F)
      → IsSeated db
      → IsSeated (release_order_seat o db r).1
  unfolding release_order_seat
  returned-IsSeated o db r w = elim (Option-cases (o.zone_id)) [
    | inl plain ↦ rw plain w
    | inr (zone, seated) ↦ elim (Option-cases (find_hold o.id db.holds)) [
      | inl gone ↦
          subst (λ (p : Result Bool × Database × Redis F). IsSeated p.1)
            (sym (without_hold o zone db r seated gone)) w
      | inr (hold, held) ↦
          subst (λ (p : Result Bool × Database × Redis F). IsSeated p.1)
            (sym (with_hold o zone hold db r seated held))
            (record {
              disjoint = delete-Disjoint o.id db.holds w.disjoint;
              booked = All-delete_hold (Booked db.orders) o.id db.holds w.booked;
              one_order = w.one_order;
            })
    ]
  ]

-- One transaction on the two tables: an intent persisted under an id, a transition tried on a copy
-- of an order, the seats of an order given back.
pub data Write (F : Type 0) : Type 0 where
  persist : Catalogue → ℕ → Intent → Write F
  transition : Attempt → Write F
  give_back : Order → Redis F → Write F

module _ {F : Type 0} where
  abbrev pub write : Write F → Database → Database
  write (persist c id i) db = (persist_intent c id i db).1
  write (transition a) db = attempt a db
  write (give_back o r) db = (release_order_seat o db r).1

  abbrev pub writes : List (Write F) → Database → Database
  writes [] db = db
  writes (w ∷ ws) db = writes ws (write w db)

  -- The sequence gives new ids.
  abbrev pub IsFresh : Write F → Database → Type 0
  IsFresh (persist c id i) db = find_order id db.orders ≡ none
  IsFresh (transition a) db = Unit
  IsFresh (give_back o r) db = Unit

  abbrev pub AllFresh : List (Write F) → Database → Type 0
  AllFresh [] db = Unit
  AllFresh (w ∷ ws) db = IsFresh w db × AllFresh ws (write w db)

  write-IsSeated :
      (w : Write F) (db : Database) → IsFresh w db → IsSeated db → IsSeated (write w db)
  write-IsSeated (persist c id i) db fresh s =
      Persisted-IsSeated id i db _ _ fresh s (persist_intent-Persisted c id i db)
  write-IsSeated (transition a) db fresh s = attempt-IsSeated a db s
  write-IsSeated (give_back o r) db fresh s = returned-IsSeated o db r s

  -- No chair has two owners: where no two holds of an event and block share a seat, each hold is of
  -- an order of its event, zone and quantity, and no two orders have one key, it is so again after
  -- any sequence of intents persisted under new ids, transitions tried on any copies of orders, and
  -- seats given back.
  pub writes-IsSeated :
      (ws : List (Write F)) (db : Database) → AllFresh ws db → IsSeated db → IsSeated (writes ws db)
  writes-IsSeated [] db fresh s = s
  writes-IsSeated (w ∷ ws) db fresh s =
      writes-IsSeated ws (write w db) fresh.1 (write-IsSeated w db fresh.0 s)
