-- ===== src/System/Consumes.antt =====
-- app/worker.py, `_persist_intent` and `_consume_batch`, as a step of the system.
use fast_api.Base.{
  Has, Has-All, ℕ, ◌+◌, ◌≡◌, ◌≢◌, refl, sym, subst, inl, inr, true, false, ◌==◌, if◌then◌else◌,
  none, is_some, List, [], ◌∷◌, All, arith,
}
use fast_api.Exceptions.{Result, ok, err}
use fast_api.Redis.{Redis, Intent, Marker}
use fast_api.Database.{Database, Order}
use fast_api.Worker.Intents.{Catalogue, Outcome, persisted, duplicate, failed, find_key, new_order}
use fast_api.Worker.Intents.Persist.{Persisted, persist_intent-Persisted}
use fast_api.Worker.Stream.Drain.{Persisted-known}
use fast_api.Worker.Stream.{
  Worker, Pass, Fault, no_fault, before_commit, before_ack, ack_and_remove, settle, acknowledge,
  deliver,
}
use fast_api.System.Tally.{tally, close, tally-close, tally_ext}
use fast_api.System.Books.{entry_key, entry_seats, is_waiting, waiting, Balanced, Orderly}
use fast_api.System.Acks.{ack-Balanced, ack-Orderly}

abbrev with_order : Order → Database → Database
with_order o db = record db { orders = o ∷ db.orders }

pub all_true : {A : Type 0} (P : A → Type 0) (xs : List A) → ((a : A) → P a) → All P xs
all_true P [] h = tt
all_true P (x ∷ xs) h = (h x, all_true P xs h)

module _ {F : Type 0} where
  -- What a try may assume: the entry is there, was not given up, and the new id is new.
  pub record Ready (id entry : ℕ) (i : Intent) (db : Database) (r : Redis F) : Type 0 where
    pub there : Has (entry, i) r.stream
    pub alive : r.released (Marker.dead_letter i.idempotency_key) ≡ false
    pub fresh : All (λ (o : Order). o.id ≢ id) db.orders
    pub unmarked : r.released (Marker.order id) ≡ false

  -- The state that a step leaves.
  abbrev pub Good : ℕ → ℕ → Database → Redis F → Type 0
  Good e total db r = Balanced e total db r × Orderly db r

  inserted-waiting :
      (e id entry : ℕ) (i : Intent) (db : Database) (r : Redis F)
      → Ready id entry i db r
      → find_key i.idempotency_key db.orders ≡ none
      → Orderly db r
      → waiting e (with_order (new_order id i none) db) r
          + (if i.event_id == e then i.quantity else 0)
        ≡ waiting e db r
  inserted-waiting e id entry i db r g new o =
      let db' = with_order (new_order id i none) db in
      let due = is_waiting db r in
      let on : due i.idempotency_key ≡ true = rw (new, g.alive) refl in
      let closed : waiting e db' r
          ≡ tally entry_key (entry_seats e) (close entry_key (entry_seats e) i.idempotency_key due)
              r.stream =
        tally_ext entry_key (entry_seats e) (is_waiting db' r)
          (close entry_key (entry_seats e) i.idempotency_key due) r.stream
          (all_true _ r.stream (λ (p : ℕ × Intent). ground arith)) in
      let sum = tally-close entry_key (entry_seats e) (entry, i) due r.stream o.keys g.there in
      ground arith

  inserted-Good :
      (e total id entry : ℕ) (i : Intent) (db : Database) (r : Redis F)
      → Ready id entry i db r
      → find_key i.idempotency_key db.orders ≡ none
      → Good e total db r
      → Good e total (with_order (new_order id i none) db) r
  inserted-Good e total id entry i db r g new (b, o) =
      let moved = inserted-waiting e id entry i db r g new o in
      let before = b.sum in
      (
        record { left = b.left; counter = b.counter; sum = rw g.unmarked (ground arith) },
        record {
          keys = o.keys;
          ids = o.ids;
          rows = (g.fresh, o.rows);
          claimed_entries = o.claimed_entries;
          claimed_orders =
              (Has-All _ (entry, i) r.stream o.claimed_entries g.there, o.claimed_orders);
          claimed_markers = o.claimed_markers;
          owing = (rw g.unmarked refl, o.owing);
          not_given_up = (g.alive, o.not_given_up);
          plain_entries = o.plain_entries;
          plain_orders = (refl, o.plain_orders);
        },
      )

  Persisted-Good :
      (e total id entry : ℕ) (i : Intent) (db db' : Database) (r : Redis F)
      (answer : Result Outcome)
      → Ready id entry i db r
      → i.block_id ≡ none
      → Persisted id i db answer db'
      → Good e total db r
      → Good e total db' r
  Persisted-Good e total id entry i db db' r (ok duplicate) g b (same, _) s =
      subst (λ (d : Database). Good e total d r) (sym same) s
  Persisted-Good e total id entry i db db' r (ok failed) g b (same, _) s =
      subst (λ (d : Database). Good e total d r) (sym same) s
  Persisted-Good e total id entry i db db' r (err f) g b (same, _, _) s =
      subst (λ (d : Database). Good e total d r) (sym same) s
  Persisted-Good e total id entry i db db' r (ok persisted) g b (full, new, inl (z, b', at)) s =
      subst (λ (d : Database). Good e total d r) (sym at)
        (inserted-Good e total id entry i db r g new s)
  Persisted-Good e total id entry i db db' r (ok persisted) g b
        (full, new, inr (zone, block, start, z, b', apart, at)) s =
      cc

  pub known-idle :
      (db : Database) (r : Redis F) (key : ℕ)
      → is_some (find_key key db.orders) ≡ true
      → is_waiting db r key ≡ false
  known-idle db r key known = rw known refl

  abbrev pub GoodWorker : ℕ → ℕ → Worker F → Type 0
  GoodWorker e total w = Good e total w.db w.redis

  pub acked-Good :
      (e total entry : ℕ) (i : Intent) (w : Worker F)
      → Has (entry, i) w.redis.stream
      → is_waiting w.db w.redis i.idempotency_key ≡ false
      → GoodWorker e total w
      → GoodWorker e total (ack_and_remove entry w)
  unfolding ack_and_remove
  acked-Good e total entry i w has off (b, o) =
      (ack-Balanced e total entry i w.db w.redis has off o b, ack-Orderly entry w.db w.redis o)

  settle-Good :
      (e total id entry : ℕ) (i : Intent) (db : Database) (answer : Result Outcome) (w : Worker F)
      → Has (entry, i) w.redis.stream
      → Persisted id i db answer w.db
      → GoodWorker e total w
      → GoodWorker e total (settle entry answer w)
  unfolding settle
  settle-Good e total id entry i db (ok persisted) w has p s =
      acked-Good e total entry i w has
        (known-idle w.db w.redis i.idempotency_key (Persisted-known id i db w.db p)) s
  settle-Good e total id entry i db (ok duplicate) w has (same, known) s =
      acked-Good e total entry i w has
        (known-idle w.db w.redis i.idempotency_key (
          subst (λ (d : Database). is_some (find_key i.idempotency_key d.orders) ≡ true) (sym same)
            known))
        s
  settle-Good e total id entry i db (ok failed) w has p s = s
  settle-Good e total id entry i db (err f) w has p s = s

  acknowledge-Good :
      (f : Fault) (e total id entry : ℕ) (i : Intent) (answer : Result Outcome) (db : Database)
      (w : Worker F)
      → Ready id entry i w.db w.redis
      → i.block_id ≡ none
      → Persisted id i w.db answer db
      → GoodWorker e total w
      → GoodWorker e total (acknowledge f entry answer db w)
  unfolding acknowledge
  acknowledge-Good no_fault e total id entry i answer db w g b p s =
      settle-Good e total id entry i w.db answer (record w { db = db }) g.there p
        (Persisted-Good e total id entry i w.db db w.redis answer g b p s)
  acknowledge-Good before_commit e total id entry i answer db w g b p s = s
  acknowledge-Good before_ack e total id entry i answer db w g b p s =
      Persisted-Good e total id entry i w.db db w.redis answer g b p s

  pub deliver-Good :
      (e total : ℕ) (c : Catalogue) (p : Pass) (entry : ℕ) (i : Intent) (w : Worker F)
      → Ready (p.order_id entry) entry i w.db w.redis
      → GoodWorker e total w
      → GoodWorker e total (deliver c p entry i w)
  unfolding deliver
  deliver-Good e total c p entry i w g s =
      let plain = Has-All _ (entry, i) w.redis.stream s.1.plain_entries g.there in
      acknowledge-Good (p.fault entry) e total (p.order_id entry) entry i _ _ w g plain.1
        (persist_intent-Persisted c (p.order_id entry) i w.db) s
