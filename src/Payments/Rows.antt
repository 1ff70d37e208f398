-- ===== src/Payments/Rows.antt =====
-- app/crud/order.py, `transition_order_status`: the row of an order whose compare-and-set hits, or
-- misses.
use fast_api.Base.{
  ℕ, ◌≤◌, ◌≡◌, refl, ap, sym, ◌∙◌, subst, inl, inr, Bool, true, false, ◌&&◌, ◌==◌, some, List, [],
  ◌∷◌, map, arith, Bool-cases,
}
use fast_api.Exceptions.{OrderStatus, pending, paid, confirmed, expired, cancelled, Result, ok}
use fast_api.Database.{Database, Order, find_order, status_eq}
use fast_api.Orders.{is_valid, stamp, update_row, row_count, transition_order_status, refresh}
use fast_api.Orders.Rows.{rows, rows-update, stamp-id, stamp-status, row_count-rows}

absent_row :
    (id : ℕ) (s : OrderStatus) (orders : List Order)
    → rows id orders ≡ 0
    → row_count id s orders ≡ 0
absent_row id s orders none_there = let few = row_count-rows id s orders in omega (arith, few)

-- The row of the order is there once in its status.
pub record Moved (id : ℕ) (t : OrderStatus) (orders : List Order) : Type 0 where
  pub row : Order
  pub found : find_order id orders ≡ some row
  pub named : row.id ≡ id
  pub status : row.status ≡ t
  pub one : row_count id t orders ≡ 1

status_eq_refl : (s : OrderStatus) → status_eq s s ≡ true
status_eq_refl pending = refl
status_eq_refl paid = refl
status_eq_refl confirmed = refl
status_eq_refl expired = refl
status_eq_refl cancelled = refl

update_hit :
    (now id : ℕ) (s t : OrderStatus) (o : Order)
    → ((o.id == id) && status_eq o.status s) ≡ true
    → update_row now id s t o ≡ stamp now t o
unfolding update_row
update_hit now id s t o hit = rw hit refl

update_miss :
    (now id : ℕ) (s t : OrderStatus) (o : Order)
    → ((o.id == id) && status_eq o.status s) ≡ false
    → update_row now id s t o ≡ o
unfolding update_row
update_miss now id s t o miss = rw miss refl

Moved-here :
    (id : ℕ) (t : OrderStatus) (o : Order) (orders : List Order)
    → o.id ≡ id
    → o.status ≡ t
    → rows id orders ≡ 0
    → Moved id t (o ∷ orders)
unfolding row_count
Moved-here id t o orders named status none_there =
    let rest = absent_row id t orders none_there in
    let same : status_eq o.status t ≡ true = rw status (status_eq_refl t) in
    record { row = o; found = ground arith; named = named; status = status; one = ground arith }

Moved-there :
    (id : ℕ) (t : OrderStatus) (o : Order) (orders : List Order)
    → (o.id == id) ≡ false
    → Moved id t orders
    → Moved id t (o ∷ orders)
unfolding row_count
Moved-there id t o orders elsewhere m = record {
  row = m.row;
  found = rw elsewhere m.found;
  named = m.named;
  status = m.status;
  one = let h = m.one in rw elsewhere (omega (arith, h));
}

cas-Moved :
    (now id : ℕ) (s t : OrderStatus) (orders : List Order)
    → rows id orders ≤ 1
    → row_count id s orders ≡ 1
    → Moved id t (map (update_row now id s t) orders)
unfolding row_count
cas-Moved now id s t [] few hit = ground arith
cas-Moved now id s t (o ∷ orders) few hit = elim (Bool-cases (o.id == id)) [
  | inl here ↦
      let rest = absent_row id s orders (ground arith) in
      let none_there : rows id (map (update_row now id s t) orders) ≡ 0 =
        rows-update id now id s t orders ∙ ground arith in
      let e = update_hit now id s t o (ground arith) in
      subst (λ (p : Order). Moved id t (p ∷ map (update_row now id s t) orders)) (sym e)
        (Moved-here id t (stamp now t o) _ (stamp-id now t o ∙ ground arith) (stamp-status now t o)
          none_there)
  | inr elsewhere ↦
      let e = update_miss now id s t o (ground arith) in
      subst (λ (p : Order). Moved id t (p ∷ map (update_row now id s t) orders)) (sym e)
        (Moved-there id t o _ elsewhere (cas-Moved now id s t orders (ground arith) (ground arith)))
]

cas_missed :
    (now id : ℕ) (s t : OrderStatus) (orders : List Order)
    → row_count id s orders ≡ 0
    → map (update_row now id s t) orders ≡ orders
unfolding row_count
cas_missed now id s t [] miss = refl
cas_missed now id s t (o ∷ orders) miss =
    rw (update_miss now id s t o (ground arith), cas_missed now id s t orders (ground arith)) refl

-- A transition that is valid, and whose row is in the status that the caller read.
pub record Won (o : Order) (t : OrderStatus) (answer : Result Bool) (o' : Order) (db' : Database)
    : Type 0 where
  pub answered : answer ≡ ok true
  pub named : o'.id ≡ o.id
  pub status : o'.status ≡ t
  pub moved : Moved o.id t db'.orders
  pub keyed : rows o.id db'.orders ≤ 1

refresh_found :
    (o : Order) (db : Database) (row : Order)
    → find_order o.id db.orders ≡ some row
    → refresh o db ≡ row
refresh_found o db row e = rw (e, refresh) refl

pub transition-Won :
    (now : ℕ) (o : Order) (t : OrderStatus) (db : Database)
    → is_valid o.status t ≡ true
    → rows o.id db.orders ≤ 1
    → row_count o.id o.status db.orders ≡ 1
    → Won o t
        (transition_order_status now o t db).0
        (transition_order_status now o t db).1
        (transition_order_status now o t db).2
unfolding transition_order_status
transition-Won now o t db legal few hit =
    let m = cas-Moved now o.id o.status t db.orders few hit in
    rw (legal, hit)
      (record {
        answered = refl;
        named =
            ap (λ (k : Order). k.id)
              (refresh_found o
                (record db { orders = map (update_row now o.id o.status t) db.orders }) m.row
                m.found)
            ∙ m.named;
        status =
            ap (λ (k : Order). k.status)
              (refresh_found o
                (record db { orders = map (update_row now o.id o.status t) db.orders }) m.row
                m.found)
            ∙ m.status;
        moved = m;
        keyed = rw (rows-update o.id now o.id o.status t db.orders) few;
      })

pub transition-lost :
    (now : ℕ) (o : Order) (t : OrderStatus) (db : Database)
    → is_valid o.status t ≡ true
    → rows o.id db.orders ≤ 1
    → (row_count o.id o.status db.orders == 1) ≡ false
    → ((transition_order_status now o t db).0 ≡ ok false)
      × ((transition_order_status now o t db).2 ≡ db)
unfolding transition_order_status
transition-lost now o t db legal few lost =
    let bound = row_count-rows o.id o.status db.orders in
    rw (legal, lost)
      (
        refl,
        ap (λ (l : List Order). record db { orders = l })
            (cas_missed now o.id o.status t db.orders (ground arith)),
      )
