-- ===== src/System/OrderReturns.antt =====
-- app/services/orders.py, `release_order_seat`, as a step of the system.
use fast_api.Base.{
  Has, Has-All, ℕ, ◌+◌, ◌≡◌, ◌≢◌, ap, sym, subst, inl, inr, Bool, true, ◌||◌, not, ◌==◌,
  if◌then◌else◌, List, [], ◌∷◌, All, All-mono, All-both, arith,
}
use fast_api.Exceptions.{Result}
use fast_api.Redis.{Redis, Intent}
use fast_api.Database.{Database, Order}
use fast_api.Inventory.{release}
use fast_api.Orders.Rows.{owes}
use fast_api.Orders.Release.{plain_args, without_zone}
use fast_api.Worker.Stream.{Worker}
use fast_api.System.{move, give_back}
use fast_api.System.Tally.{tally, close, tally-close, tally_ext, Distinct}
use fast_api.System.Books.{
  entry_key, entry_id, entry_seats, order_id, order_seats, is_waiting, is_kept, waiting, kept,
}
use fast_api.System.Consumes.{Good, GoodWorker, all_true}
use fast_api.System.Returns.{Marks, release-Effect, release-counter}

-- Only the row itself has its id.
row_owes :
    (o : Order) (orders : List Order)
    → Distinct order_id orders
    → Has o orders
    → owes o.status ≡ true
    → All (λ (p : Order). (not (p.id == o.id) || owes p.status) ≡ true) orders
row_owes o [] d has h = tt
row_owes o (p ∷ orders) d (inl e) h = (
  subst (λ (q : Order). (not (q.id == o.id) || owes q.status) ≡ true) (sym e) (ground arith),
  All-mono _ _ orders (λ (q : Order) ne. let i = ap order_id e in ground arith) d.0,
)
row_owes o (p ∷ orders) d (inr has) h =
    let differs = Has-All (λ (q : Order). order_id q ≢ order_id p) o orders d.0 has in
    (ground arith, row_owes o orders d.1 has h)

module _ {F : Type 0} where
  returned-Good :
      (e total : ℕ) (o : Order) (db : Database) (r : Redis F)
      → Has o db.orders
      → owes o.status ≡ true
      → (release (plain_args o) r).0 ≡ true
      → Marks (plain_args o) r (release (plain_args o) r).1
      → Good e total db r
      → Good e total db (release (plain_args o) r).1
  returned-Good e total o db r has owed done m (b, g) =
      let r' = (release (plain_args o) r).1 in
      let fresh = m.unmarked in
      let waits : tally entry_key (entry_seats e) (is_waiting db r') r.stream ≡ waiting e db r =
        tally_ext entry_key (entry_seats e) (is_waiting db r') (is_waiting db r) r.stream
          (all_true _ r.stream (λ (p : ℕ × Intent). rw m.released (ground arith))) in
      let closed : kept e db r'
          ≡ tally order_id (order_seats e) (close order_id (order_seats e) o.id (is_kept r))
              db.orders =
        tally_ext order_id (order_seats e) (is_kept r')
          (close order_id (order_seats e) o.id (is_kept r)) db.orders
          (all_true _ db.orders (λ (p : Order). rw m.released (ground arith))) in
      let keeps = tally-close order_id (order_seats e) o (is_kept r) db.orders g.rows has in
      let before = b.sum in
      (
        record {
          left = b.left + (if o.event_id == e then o.quantity else 0);
          counter = release-counter e (plain_args o) r b.left done b.counter;
          sum = rw m.stream (ground arith);
        },
        record {
          keys = subst (Distinct entry_key) (sym m.stream) g.keys;
          ids = subst (Distinct entry_id) (sym m.stream) g.ids;
          rows = g.rows;
          claimed_entries = rw (m.stream, m.claim) g.claimed_entries;
          claimed_orders = rw m.claim g.claimed_orders;
          claimed_markers =
              λ key. rw (m.released, m.claim) (let h = g.claimed_markers key in ground arith);
          owing = rw m.released (
              All-mono _ _ db.orders (λ (p : Order) h. let (x, y) = h in ground arith)
                (All-both _ (λ (p : Order). (not (p.id == o.id) || owes p.status) ≡ true) db.orders
                  g.owing (row_owes o db.orders g.rows has owed)));
          not_given_up =
              rw m.released (All-mono _ _ db.orders (λ (p : Order) h. ground arith) g.not_given_up);
          plain_entries = rw m.stream g.plain_entries;
          plain_orders = g.plain_orders;
        },
      )

  pub give_back-Good :
      (e total : ℕ) (o : Order) (w : Worker F)
      → Has o w.db.orders
      → owes o.status ≡ true
      → GoodWorker e total w
      → GoodWorker e total (move (give_back o) w)
  unfolding move
  give_back-Good e total o w has owed g =
      let plain = Has-All _ o w.db.orders g.1.plain_orders has in
      subst (λ (p : Result Bool × Database × Redis F). Good e total p.1 p.2)
        (sym (without_zone o w.db w.redis plain))
        (elim (release-Effect (plain_args o) w.redis) [
          | inl (again, marked) ↦
              subst (λ (p : Bool × Redis F). Good e total w.db p.1) (sym again) g
          | inr (done, m) ↦ returned-Good e total o w.db w.redis has owed done m g
        ])
