-- ===== src/Orders/Updates.antt =====
-- app/crud/order.py and app/services/orders.py: what any tried transition writes, as one of two
-- forms.
use fast_api.Base.{
  List, ap, ℕ, ◌≡◌, refl, ◌∙◌, ◌⊎◌, inl, inr, true, ◌==◌, map, Bool-cases, Option-cases,
}
use fast_api.Exceptions.{OrderStatus, paid, confirmed, expired, cancelled}
use fast_api.Database.{Database, Order, SeatHold}
use fast_api.Orders.{
  is_valid, update_row, row_count, transition_order_status, transition_owing_release, freeze,
  freeze_holds, mark_paid, mark_confirmed, cancel_order, expire_order, is_applied,
}
use fast_api.Orders.Owed.{Attempt, pay, confirm, cancel, expire, attempt}

-- A valid transition is stamped on the rows that it finds, or no row changes.
abbrev pub Rewrites : List Order → List Order → Type 0
Rewrites orders orders' =
    ((now : ℕ) × (id : ℕ) × (s : OrderStatus) × (t : OrderStatus) × (is_valid s t ≡ true)
      × (orders' ≡ map (update_row now id s t) orders))
    ⊎ (orders' ≡ orders)

-- The open holds of an order are confirmed, or no hold changes.
abbrev pub Freezes : List SeatHold → List SeatHold → Type 0
Freezes holds holds' =
    ((now : ℕ) × (id : ℕ) × (holds' ≡ map (freeze now id) holds)) ⊎ (holds' ≡ holds)

transition-Rewrites :
    (now : ℕ) (o : Order) (t : OrderStatus) (db : Database)
    → Rewrites db.orders (transition_order_status now o t db).2.orders
unfolding transition_order_status
transition-Rewrites now o t db = elim (Bool-cases (is_valid o.status t)) [
  | inr illegal ↦ rw illegal (inr refl)
  | inl legal ↦ elim (Bool-cases (row_count o.id o.status db.orders == 1)) [
    | inl won ↦ rw (legal, won) (inl (now, o.id, o.status, t, legal, refl))
    | inr lost ↦ rw (legal, lost) (inl (now, o.id, o.status, t, legal, refl))
  ]
]

transition-holds :
    (now : ℕ) (o : Order) (t : OrderStatus) (db : Database)
    → (transition_order_status now o t db).2.holds ≡ db.holds
unfolding transition_order_status
transition-holds now o t db = elim (Bool-cases (is_valid o.status t)) [
  | inr illegal ↦ rw illegal refl
  | inl legal ↦ elim (Bool-cases (row_count o.id o.status db.orders == 1)) [
    | inl won ↦ rw (legal, won) refl
    | inr lost ↦ rw (legal, lost) refl
  ]
]

same-Rewrites : (db db' db'' : List Order) → db'' ≡ db' → Rewrites db db' → Rewrites db db''
same-Rewrites db db' db'' e (inl (now, id, s, t, legal, w)) = inl (now, id, s, t, legal, e ∙ w)
same-Rewrites db db' db'' e (inr w) = inr (e ∙ w)

owing-orders :
    (now : ℕ) (o : Order) (t : OrderStatus) (db : Database)
    → ((transition_owing_release now o t db).2.orders
        ≡ (transition_order_status now o t db).2.orders)
      × ((transition_owing_release now o t db).2.holds
          ≡ (transition_order_status now o t db).2.holds)
unfolding transition_owing_release
owing-orders now o t db = elim (Bool-cases (is_applied (transition_order_status now o t db).0)) [
  | inl applied ↦ rw applied (refl, refl)
  | inr not_applied ↦ rw not_applied (refl, refl)
]

freeze_holds-Freezes :
    (now : ℕ) (o : Order) (db : Database)
    → ((freeze_holds now o db).orders ≡ db.orders) × Freezes db.holds (freeze_holds now o db).holds
unfolding freeze_holds
freeze_holds-Freezes now o db = elim (Option-cases (o.zone_id)) [
  | inl plain ↦ rw plain (refl, inr refl)
  | inr (zone, seated) ↦ rw seated (refl, inl (now, o.id, refl))
]

pub confirmed-Freezes :
    (now : ℕ) (o : Order) (db : Database)
    → ((mark_confirmed now o db).2.orders ≡ (transition_order_status now o confirmed db).2.orders)
      × Freezes
          (transition_order_status now o confirmed db).2.holds
          (mark_confirmed now o db).2.holds
unfolding mark_confirmed
confirmed-Freezes now o db =
    let moved = transition_order_status now o confirmed db in
    elim (Bool-cases (is_applied moved.0)) [
      | inl applied ↦ rw applied (freeze_holds-Freezes now moved.1 moved.2)
      | inr not_applied ↦ rw not_applied (refl, inr refl)
    ]

pub attempt-Rewrites : (a : Attempt) (db : Database) → Rewrites db.orders (attempt a db).orders
unfolding attempt mark_paid cancel_order expire_order
attempt-Rewrites (pay now o) db = transition-Rewrites now o paid db
attempt-Rewrites (confirm now o) db =
    same-Rewrites db.orders _ _ (confirmed-Freezes now o db).0
      (transition-Rewrites now o confirmed db)
attempt-Rewrites (cancel now o) db =
    same-Rewrites db.orders _ _ (owing-orders now o cancelled db).0
      (transition-Rewrites now o cancelled db)
attempt-Rewrites (expire now o) db =
    same-Rewrites db.orders _ _ (owing-orders now o expired db).0
      (transition-Rewrites now o expired db)

same-Freezes : (db db' db'' : List SeatHold) → db' ≡ db → Freezes db' db'' → Freezes db db''
same-Freezes db db' db'' e (inl (now, id, w)) =
    inl (now, id, w ∙ ap (λ (l : List SeatHold). map (freeze now id) l) e)
same-Freezes db db' db'' e (inr w) = inr (w ∙ e)

pub attempt-Freezes : (a : Attempt) (db : Database) → Freezes db.holds (attempt a db).holds
unfolding attempt mark_paid cancel_order expire_order
attempt-Freezes (pay now o) db = inr (transition-holds now o paid db)
attempt-Freezes (confirm now o) db =
    same-Freezes db.holds _ _ (transition-holds now o confirmed db) (confirmed-Freezes now o db).1
attempt-Freezes (cancel now o) db =
    inr ((owing-orders now o cancelled db).1 ∙ transition-holds now o cancelled db)
attempt-Freezes (expire now o) db =
    inr ((owing-orders now o expired db).1 ∙ transition-holds now o expired db)
