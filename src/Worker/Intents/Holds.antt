-- ===== src/Worker/Intents/Holds.antt =====
-- app/worker.py, `_persist_intent`, with app/crud/order.py and app/services/orders.py: the holds of
-- seats and the keys of orders, as every writer of the two tables leaves them.
use fast_api.Base.{
  ℕ, ◌+◌, ◌≤◌, ◌≡◌, refl, sym, subst, ◌∙◌, inl, inr, false, ◌&&◌, ◌==◌, if◌then◌else◌, some, List,
  [], ◌∷◌, map, All, All-mono, arith, Bool-cases,
}
use fast_api.Exceptions.{OrderStatus, pending, paid, confirmed, expired, cancelled}
use fast_api.Database.{Database, Order, SeatHold, find_order, status_eq}
use fast_api.Orders.{stamp, update_row}
use fast_api.Worker.Intents.{overlaps_any}

-- The orders with a key.
abbrev pub keys : ℕ → List Order → ℕ
keys key [] = 0
keys key (o ∷ orders) = (if o.idempotency_key == key then 1 else 0) + keys key orders

-- No two holds of one event and block share a seat.
abbrev pub Disjoint : List SeatHold → Type 0
Disjoint [] = Unit
Disjoint (h ∷ holds) = (overlaps_any h holds ≡ false) × Disjoint holds

-- The hold is of an order of its event, its zone and its length.
abbrev pub Booked : List Order → SeatHold → Type 0
Booked orders h =
    (o : Order) × (find_order h.order_id orders ≡ some o)
    × (o.event_id ≡ h.event_id)
    × (o.zone_id ≡ some h.zone_id)
    × (o.quantity ≡ h.length)

pub record IsSeated (db : Database) : Type 0 where
  pub disjoint : Disjoint db.holds
  pub booked : All (Booked db.orders) db.holds
  pub one_order : (key : ℕ) → keys key db.orders ≤ 1

-- A transition changes neither what was booked nor the key.
pub record SameBooking (o o' : Order) : Type 0 where
  pub event : o'.event_id ≡ o.event_id
  pub zone : o'.zone_id ≡ o.zone_id
  pub quantity : o'.quantity ≡ o.quantity
  pub key : o'.idempotency_key ≡ o.idempotency_key
  pub id : o'.id ≡ o.id

stamp-SameBooking : (now : ℕ) (s : OrderStatus) (o : Order) → SameBooking o (stamp now s o)
unfolding stamp
stamp-SameBooking now pending o = record {
  event = refl;
  zone = refl;
  quantity = refl;
  key = refl;
  id = refl;
}
stamp-SameBooking now paid o = record {
  event = refl;
  zone = refl;
  quantity = refl;
  key = refl;
  id = refl;
}
stamp-SameBooking now confirmed o = record {
  event = refl;
  zone = refl;
  quantity = refl;
  key = refl;
  id = refl;
}
stamp-SameBooking now expired o = record {
  event = refl;
  zone = refl;
  quantity = refl;
  key = refl;
  id = refl;
}
stamp-SameBooking now cancelled o = record {
  event = refl;
  zone = refl;
  quantity = refl;
  key = refl;
  id = refl;
}

pub update_row-SameBooking :
    (now id : ℕ) (s t : OrderStatus) (o : Order) → SameBooking o (update_row now id s t o)
unfolding update_row
update_row-SameBooking now id s t o = elim (Bool-cases ((o.id == id) && status_eq o.status s)) [
  | inl hit ↦ rw hit (stamp-SameBooking now t o)
  | inr miss ↦
      rw miss (record { event = refl; zone = refl; quantity = refl; key = refl; id = refl })
]

keys-update :
    (key now id : ℕ) (s t : OrderStatus) (orders : List Order)
    → keys key (map (update_row now id s t) orders) ≡ keys key orders
keys-update key now id s t [] = refl
keys-update key now id s t (o ∷ orders) =
    let same = update_row-SameBooking now id s t o in
    rw (same.key, keys-update key now id s t orders) refl

find_order-update :
    (j now id : ℕ) (s t : OrderStatus) (orders : List Order) (o : Order)
    → find_order j orders ≡ some o
    → (o' : Order) × (find_order j (map (update_row now id s t) orders) ≡ some o')
      × SameBooking o o'
find_order-update j now id s t [] o found = ground arith
find_order-update j now id s t (p ∷ orders) o found =
    let same = update_row-SameBooking now id s t p in
    elim (Bool-cases (p.id == j)) [
      | inl here ↦
          let it : p ≡ o = ground arith in
          (
            update_row now id s t p,
            rw (same.id, here) refl,
            subst (λ (k : Order). SameBooking k (update_row now id s t p)) it same,
          )
      | inr elsewhere ↦
          let (o', found', kept) =
            find_order-update j now id s t orders o (rw elsewhere at found) in
          (o', rw (same.id, elsewhere) found', kept)
    ]

Booked-update :
    (now id : ℕ) (s t : OrderStatus) (orders : List Order) (h : SeatHold)
    → Booked orders h
    → Booked (map (update_row now id s t) orders) h
Booked-update now id s t orders h (o, found, e, z, q) =
    let (o', found', same) = find_order-update h.order_id now id s t orders o found in
    (o', found', same.event ∙ e, same.zone ∙ z, same.quantity ∙ q)

pub Rewrites-IsSeated :
    (db : Database) (orders : List Order) (now id : ℕ) (s t : OrderStatus)
    → orders ≡ map (update_row now id s t) db.orders
    → IsSeated db
    → IsSeated (record db { orders = orders })
Rewrites-IsSeated db orders now id s t w i =
    subst (λ (l : List Order). IsSeated (record db { orders = l })) (sym w)
      (record {
        disjoint = i.disjoint;
        booked =
            All-mono (Booked db.orders) _ db.holds (Booked-update now id s t db.orders) i.booked;
        one_order = λ key. rw (keys-update key now id s t db.orders) (i.one_order key);
      })
