-- ===== src/Orders/Owed.antt =====
-- app/services/orders.py: the transitions that owe a release, and the entries of the outbox.
use fast_api.Base.{
  ℕ, ◌≤◌, ◌≡◌, refl, sym, ◌∙◌, inl, inr, true, false, ◌==◌, List, [], ◌∷◌, map, arith, Bool-cases,
  Option-cases,
}
use fast_api.Exceptions.{OrderStatus, paid, confirmed, expired, cancelled}
use fast_api.Database.{Database, Order}
use fast_api.Orders.{
  is_valid, transition_order_status, transition_owing_release, freeze_holds, mark_paid,
  mark_confirmed, cancel_order, expire_order, row_count, update_row, is_applied,
}
use fast_api.Orders.Rows.{
  owes, rows, owing, entries, rows-update, owing-update, owes-valid, row_count-rows,
}

-- One transition, tried by a caller on a copy of the order that may be stale.
pub data Attempt : Type 0 where
  pay confirm cancel expire : ℕ → Order → Attempt

unfoldable pub attempt : Attempt → Database → Database
unfolding mark_paid mark_confirmed cancel_order expire_order
attempt (pay now o) db = (mark_paid now o db).2
attempt (confirm now o) db = (mark_confirmed now o db).2
attempt (cancel now o) db = (cancel_order now o db).2
attempt (expire now o) db = (expire_order now o db).2

abbrev pub attempts : List Attempt → Database → Database
attempts [] db = db
attempts (a ∷ rest) db = attempts rest (attempt a db)

-- Ids are a primary key; and the entries about an order are as many as its rows that owe.
pub record IsOwed (db : Database) : Type 0 where
  pub keyed : (id : ℕ) → rows id db.orders ≤ 1
  pub one_entry : (id : ℕ) → entries id db.outbox ≡ owing id db.orders

abbrev updated : ℕ → Order → OrderStatus → Database → Database
updated now o t db = record db { orders = map (update_row now o.id o.status t) db.orders }

transition-IsOwed :
    (now : ℕ) (o : Order) (t : OrderStatus) (db : Database)
    → owes t ≡ false
    → IsOwed db
    → IsOwed (transition_order_status now o t db).2
unfolding transition_order_status
transition-IsOwed now o t db h i = elim (Bool-cases (is_valid o.status t)) [
  | inr illegal ↦ rw illegal i
  | inl legal ↦
      let after : IsOwed (updated now o t db) = record {
        keyed = λ id. rw (rows-update id now o.id o.status t db.orders) (i.keyed id);
        one_entry = λ id.
            i.one_entry id
            ∙ sym (
                owing-update id now o.id o.status t db.orders (owes-valid o.status t legal)
                ∙ rw h (ground arith));
      } in
      elim (Bool-cases (row_count o.id o.status db.orders == 1)) [
        | inl won ↦ rw (legal, won) after
        | inr lost ↦ rw (legal, lost) after
      ]
]

freeze-IsOwed : (now : ℕ) (o : Order) (db : Database) → IsOwed db → IsOwed (freeze_holds now o db)
unfolding freeze_holds
freeze-IsOwed now o db i = elim (Option-cases (o.zone_id)) [
  | inl plain ↦ rw plain i
  | inr (zone, seated) ↦ rw seated (record { keyed = i.keyed; one_entry = i.one_entry })
]

owing-IsOwed :
    (now : ℕ) (o : Order) (t : OrderStatus) (db : Database)
    → owes t ≡ true
    → IsOwed db
    → IsOwed (transition_owing_release now o t db).2
unfolding transition_owing_release transition_order_status
owing-IsOwed now o t db h i = elim (Bool-cases (is_valid o.status t)) [
  | inr illegal ↦ rw illegal i
  | inl legal ↦
      let keyed : (id : ℕ) → rows id (updated now o t db).orders ≤ 1 =
        λ id. rw (rows-update id now o.id o.status t db.orders) (i.keyed id) in
      let few = row_count-rows o.id o.status db.orders in
      let one = i.keyed o.id in
      elim (Bool-cases (row_count o.id o.status db.orders == 1)) [
        | inl won ↦
            rw (legal, won)
              (record {
                keyed = keyed;
                one_entry = λ id.
                    let e = i.one_entry id in
                    let u =
                      owing-update id now o.id o.status t db.orders (owes-valid o.status t legal) in
                    ground arith;
              })
        | inr lost ↦
            rw (legal, lost)
              (record {
                keyed = keyed;
                one_entry = λ id.
                    let e = i.one_entry id in
                    let u =
                      owing-update id now o.id o.status t db.orders (owes-valid o.status t legal) in
                    ground arith;
              })
      ]
]

attempt-IsOwed : (a : Attempt) (db : Database) → IsOwed db → IsOwed (attempt a db)
unfolding attempt mark_paid mark_confirmed cancel_order expire_order
attempt-IsOwed (pay now o) db i = transition-IsOwed now o paid db refl i
attempt-IsOwed (confirm now o) db i =
    let (answer, o', db') = transition_order_status now o confirmed db in
    let after = transition-IsOwed now o confirmed db refl i in
    elim (Bool-cases (is_applied answer)) [
      | inl applied ↦ rw applied (freeze-IsOwed now o' db' after)
      | inr not_applied ↦ rw not_applied after
    ]
attempt-IsOwed (cancel now o) db i = owing-IsOwed now o cancelled db refl i
attempt-IsOwed (expire now o) db i = owing-IsOwed now o expired db refl i

-- Where the ids of the orders are distinct and the entries of the outbox about each order are as
-- many as its rows that owe a release (are expired or cancelled), it is so again after any
-- sequence of payments, confirmations, cancellations and expiries, tried on any copies of orders,
-- stale ones included: every release that is owed is recorded, once.
pub attempts-IsOwed :
    (tries : List Attempt) (db : Database) → IsOwed db → IsOwed (attempts tries db)
attempts-IsOwed [] db i = i
attempts-IsOwed (a ∷ tries) db i = attempts-IsOwed tries (attempt a db) (attempt-IsOwed a db i)
