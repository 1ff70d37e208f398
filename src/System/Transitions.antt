-- ===== src/System/Transitions.antt =====
-- app/crud/order.py, `transition_order_status`, as a step of the system.
use fast_api.Base.{
  ℕ, ◌≡◌, refl, ap, sym, ◌∙◌, subst, inl, inr, Bool, true, ◌&&◌, ◌||◌, ◌==◌, is_some, List, [], ◌∷◌,
  map, All, arith, Bool-cases,
}
use fast_api.Exceptions.{OrderStatus}
use fast_api.Redis.{Redis, Intent}
use fast_api.Database.{Database, Order, status_eq}
use fast_api.Orders.{is_valid, update_row}
use fast_api.Orders.Owed.{Attempt, attempt}
use fast_api.Orders.Rows.{owes, owes-valid, status_eq_iff}
use fast_api.Orders.Updates.{attempt-Rewrites}
use fast_api.Worker.Intents.{find_key}
use fast_api.Worker.Intents.Holds.{update_row-SameBooking}
use fast_api.Worker.Stream.{Worker}
use fast_api.System.{move, transition}
use fast_api.System.Tally.{tally, tally_ext, Distinct}
use fast_api.System.Books.{
  entry_key, entry_seats, order_id, order_seats, is_waiting, is_kept, waiting, kept,
}
use fast_api.System.Consumes.{Good, GoodWorker, all_true}

module _ (now id : ℕ) (s t : OrderStatus) where
  abbrev next : Order → Order
  next = update_row now id s t

  All-next :
      (P : Order → Type 0) (Q : Order → Type 0) (orders : List Order)
      → ((o : Order) → P o → Q (next o))
      → All P orders
      → All Q (map next orders)
  All-next P Q [] f a = tt
  All-next P Q (o ∷ orders) f a = (f o a.0, All-next P Q orders f a.1)

  find_key-next :
      (key : ℕ) (orders : List Order)
      → is_some (find_key key (map next orders)) ≡ is_some (find_key key orders)
  find_key-next key [] = refl
  find_key-next key (o ∷ orders) =
      rw (update_row-SameBooking now id s t o).key
        (let rest = find_key-next key orders in ground arith)

  tally-next :
      (e : ℕ) (due : ℕ → Bool) (orders : List Order)
      → tally order_id (order_seats e) due (map next orders)
        ≡ tally order_id (order_seats e) due orders
  tally-next e due [] = refl
  tally-next e due (o ∷ orders) =
      let same = update_row-SameBooking now id s t o in
      rw (same.id, same.event, same.quantity, tally-next e due orders) refl

  Distinct-next :
      (orders : List Order) → Distinct order_id orders → Distinct order_id (map next orders)
  Distinct-next [] d = tt
  Distinct-next (o ∷ orders) d = (
    All-next _ _ orders
        (λ (p : Order) ne.
          rw ((update_row-SameBooking now id s t p).id, (update_row-SameBooking now id s t o).id)
            ne)
        d.0,
    Distinct-next orders d.1,
  )

  -- A row that owes is left alone by a valid transition.
  owes-next :
      (o : Order) (kept : Bool)
      → is_valid s t ≡ true
      → (kept || owes o.status) ≡ true
      → (kept || owes (next o).status) ≡ true
  unfolding update_row
  owes-next o kept legal h = elim (Bool-cases ((o.id == id) && status_eq o.status s)) [
    | inl hit ↦
        let same = status_eq_iff o.status s (ground arith) in
        let settled = ap owes same ∙ owes-valid s t legal in rw hit (ground arith)
    | inr miss ↦ rw miss h
  ]

module _ {F : Type 0} where
  rewritten-Good :
      (e total now id : ℕ) (s t : OrderStatus) (db : Database) (r : Redis F)
      → is_valid s t ≡ true
      → Good e total db r
      → Good e total (record db { orders = map (update_row now id s t) db.orders }) r
  rewritten-Good e total now id s t db r legal (b, o) =
      let db' : Database = record db { orders = map (update_row now id s t) db.orders } in
      let same = update_row-SameBooking now id s t in
      let waits : waiting e db' r ≡ waiting e db r =
        tally_ext entry_key (entry_seats e) (is_waiting db' r) (is_waiting db r) r.stream (
          all_true _ r.stream
            (λ (p : ℕ × Intent). rw (find_key-next now id s t (entry_key p) db.orders) refl)) in
      let keeps = tally-next now id s t e (is_kept r) db.orders in
      let before = b.sum in
      (
        record { left = b.left; counter = b.counter; sum = ground arith },
        record {
          keys = o.keys;
          ids = o.ids;
          rows = Distinct-next now id s t db.orders o.rows;
          claimed_entries = o.claimed_entries;
          claimed_orders =
              All-next now id s t _ _ db.orders (λ (p : Order) h. rw (same p).key h)
                o.claimed_orders;
          claimed_markers = o.claimed_markers;
          owing =
              All-next now id s t _ _ db.orders
                (λ (p : Order) h. rw (same p).id (owes-next now id s t p (is_kept r p.id) legal h))
                o.owing;
          not_given_up =
              All-next now id s t _ _ db.orders (λ (p : Order) h. rw (same p).key h) o.not_given_up;
          plain_entries = o.plain_entries;
          plain_orders =
              All-next now id s t _ _ db.orders (λ (p : Order) h. rw (same p).zone h)
                o.plain_orders;
        },
      )

  -- Only the orders of a database matter.
  orders-Good :
      (e total : ℕ) (db db' : Database) (r : Redis F)
      → db'.orders ≡ db.orders
      → Good e total db r
      → Good e total db' r
  orders-Good e total db db' r same (b, o) =
      subst (λ (l : List Order). Good e total (record db' { orders = l }) r) (sym same)
        (
          record { left = b.left; counter = b.counter; sum = b.sum },
          record {
            keys = o.keys;
            ids = o.ids;
            rows = o.rows;
            claimed_entries = o.claimed_entries;
            claimed_orders = o.claimed_orders;
            claimed_markers = o.claimed_markers;
            owing = o.owing;
            not_given_up = o.not_given_up;
            plain_entries = o.plain_entries;
            plain_orders = o.plain_orders;
          },
        )

  pub transition-Good :
      (e total : ℕ) (a : Attempt) (w : Worker F)
      → GoodWorker e total w
      → GoodWorker e total (move (transition a) w)
  unfolding move
  transition-Good e total a w g = elim (attempt-Rewrites a w.db) [
    | inl (now, id, s, t, legal, written) ↦
        orders-Good e total (record (w.db) { orders = map (update_row now id s t) w.db.orders })
          (attempt a w.db) w.redis written (rewritten-Good e total now id s t w.db w.redis legal g)
    | inr same ↦ orders-Good e total w.db (attempt a w.db) w.redis same g
  ]
