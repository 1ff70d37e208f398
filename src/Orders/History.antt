-- ===== src/Orders/History.antt =====
-- app/crud/order.py, `_VALID_TRANSITIONS`: the statuses that an order passes through.
use fast_api.Base.{
  ℕ, ◌≡◌, refl, sym, ◌⊎◌, inl, inr, subst, true, ◌&&◌, ◌==◌, some, List, [], ◌∷◌, map, arith,
  Bool-cases,
}
use fast_api.Exceptions.{OrderStatus, pending, paid, confirmed, expired, cancelled}
use fast_api.Database.{Database, Order, status_eq, find_order}
use fast_api.Orders.{is_valid, update_row}
use fast_api.Orders.Rows.{stamp-status, update_row-id, status_eq_iff}
use fast_api.Orders.Updates.{attempt-Rewrites}
use fast_api.Orders.Owed.{Attempt, attempt, attempts}

-- Reachability by valid transitions.
pub data Reach : OrderStatus → OrderStatus → Type 0 where
  stay : (s : OrderStatus) → Reach s s
  move : (s t u : OrderStatus) → is_valid s t ≡ true → Reach t u → Reach s u

Reach-trans : (s t u : OrderStatus) → Reach s t → Reach t u → Reach s u
Reach-trans s t u (stay s') g = g
Reach-trans s t u (move s' v t' h f) g = move s v u h (Reach-trans v t u f g)

-- Each row of `after` continues the row of `before` with the same id.
abbrev Continues : List Order → List Order → Type 0
Continues before after =
    (id : ℕ) (o : Order)
    → find_order id before ≡ some o
    → (o' : Order) × (find_order id after ≡ some o') × Reach o.status o'.status

same-Continues : (orders : List Order) → Continues orders orders
same-Continues orders id o found = (o, found, stay o.status)

update_row-Reach :
    (now id : ℕ) (s t : OrderStatus) (o : Order)
    → is_valid s t ≡ true
    → Reach o.status (update_row now id s t o).status
unfolding update_row
update_row-Reach now id s t o legal = elim (Bool-cases ((o.id == id) && status_eq o.status s)) [
  | inl hit ↦
      let same = status_eq_iff o.status s (ground arith) in
      rw (hit, stamp-status now t o) (move o.status t t (rw same legal) (stay t))
  | inr miss ↦ rw miss (stay o.status)
]

some_injective : {A : Type 0} (x y : A) → some x ≡ some y → x ≡ y
some_injective x y h = ground arith

update-Continues :
    (now id : ℕ) (s t : OrderStatus) (orders : List Order)
    → is_valid s t ≡ true
    → Continues orders (map (update_row now id s t) orders)
update-Continues now id s t [] legal j o found = ground arith
update-Continues now id s t (p ∷ orders) legal j o found = elim (Bool-cases (p.id == j)) [
  | inl here ↦
      let it = rw here at found in
      (
        update_row now id s t p,
        rw (update_row-id now id s t p, here) refl,
        subst (λ (k : Order). Reach k.status (update_row now id s t p).status)
            (some_injective p o it) (update_row-Reach now id s t p legal),
      )
  | inr elsewhere ↦
      let (o', found', reach) =
        update-Continues now id s t orders legal j o (rw elsewhere at found) in
      (o', rw (update_row-id now id s t p, elsewhere) found', reach)
]

attempt-Continues : (a : Attempt) (db : Database) → Continues db.orders (attempt a db).orders
attempt-Continues a db = elim (attempt-Rewrites a db) [
  | inl (now, id, s, t, legal, w) ↦
      subst (Continues db.orders) (sym w) (update-Continues now id s t db.orders legal)
  | inr w ↦ subst (Continues db.orders) (sym w) (same-Continues db.orders)
]

-- After any sequence of payments, confirmations, cancellations and expiries, tried on any copies
-- of orders, stale ones included, an order is still there, in a status that valid transitions
-- lead to from the one it had.
pub attempts-Reach :
    (tries : List Attempt) (db : Database) (id : ℕ) (o : Order)
    → find_order id db.orders ≡ some o
    → (o' : Order) × (find_order id (attempts tries db).orders ≡ some o') × Reach o.status o'.status
attempts-Reach [] db id o found = (o, found, stay o.status)
attempts-Reach (a ∷ tries) db id o found =
    let (p, found', first) = attempt-Continues a db id o found in
    let (q, found'', later) = attempts-Reach tries (attempt a db) id p found' in
    (q, found'', Reach-trans o.status p.status q.status first later)

confirmed-Reach : (s t : OrderStatus) → s ≡ confirmed → Reach s t → t ≡ confirmed
confirmed-Reach s t e (stay s') = e
confirmed-Reach s t e (move s' u t' h f) = let h' = rw e at h in ground arith

after_paid : (u : OrderStatus) → is_valid paid u ≡ true → u ≡ confirmed
after_paid pending h = ground arith
after_paid paid h = ground arith
after_paid confirmed h = refl
after_paid expired h = ground arith
after_paid cancelled h = ground arith

paid-Reach : (s t : OrderStatus) → s ≡ paid → Reach s t → (t ≡ paid) ⊎ (t ≡ confirmed)
paid-Reach s t e (stay s') = inl e
paid-Reach s t e (move s' u t' h f) = inr (confirmed-Reach u t (after_paid u (rw e at h)) f)

-- A paid order is never cancelled, expired or made pending again: after any such sequence it is paid or
-- confirmed.
pub paid-stays :
    (tries : List Attempt) (db : Database) (id : ℕ) (o : Order)
    → find_order id db.orders ≡ some o
    → o.status ≡ paid
    → (o' : Order) × (find_order id (attempts tries db).orders ≡ some o')
      × ((o'.status ≡ paid) ⊎ (o'.status ≡ confirmed))
paid-stays tries db id o found is_paid =
    let (o', found', reach) = attempts-Reach tries db id o found in
    (o', found', paid-Reach o.status o'.status is_paid reach)
