-- ===== src/System/GiveUps.antt =====
-- app/worker.py, `_dead_letter_intent`, as a step of the system.
use fast_api.Base.{
  Has, Has-All, ℕ, ◌+◌, ◌≡◌, ◌≢◌, refl, ap, sym, ◌∙◌, subst, inl, inr, Bool, true, false, ◌==◌,
  if◌then◌else◌, none, is_some, List, [], ◌∷◌, All, All-mono, All-both, arith, Bool-cases,
}
use fast_api.Exceptions.{Result}
use fast_api.Redis.{Redis, Intent, Marker, Claim, at_marker}
use fast_api.Database.{Database, Order}
use fast_api.Inventory.{release}
use fast_api.Worker.Intents.{find_key}
use fast_api.Worker.Stream.{Worker, plain_return, park, mark_claim_failed, dead_letter_intent}
use fast_api.Worker.Stream.Drain.{refund-plain}
use fast_api.System.Tally.{Distinct}
use fast_api.System.Books.{entry_key, entry_id, is_waiting}
use fast_api.System.{move, give_up}
use fast_api.System.Requests.{claimed_after}
use fast_api.System.Consumes.{Good, GoodWorker, acked-Good, known-idle}
use fast_api.System.Returns.{Marks, release-Effect, release-counter, dead-waiting}

other_keys :
    (key : ℕ) (orders : List Order)
    → is_some (find_key key orders) ≡ false
    → All (λ (o : Order). o.idempotency_key ≢ key) orders
other_keys key [] h = tt
other_keys key (o ∷ orders) h = ground (arith, other_keys key orders)

module _ {F : Type 0} where
  given_up_known :
      (entry : ℕ) (i : Intent) (db : Database) (r : Redis F)
      → is_some (find_key i.idempotency_key db.orders) ≡ true
      → (dead_letter_intent (λ s. s) entry i db r).1
        ≡ mark_claim_failed i.idempotency_key (park entry i r)
  unfolding dead_letter_intent
  given_up_known entry i db r known = rw known refl

  given_up_unknown :
      (entry : ℕ) (i : Intent) (db : Database) (r : Redis F)
      → is_some (find_key i.idempotency_key db.orders) ≡ false
      → i.block_id ≡ none
      → (dead_letter_intent (λ s. s) entry i db r).1
        ≡ mark_claim_failed i.idempotency_key (release (plain_return i) (park entry i r)).1
  unfolding dead_letter_intent
  given_up_unknown entry i db r unknown plain =
      let e = refund-plain i i.block_id (park entry i r) plain in
      rw (unknown, ap (λ (p : Result (Unit {0}) × Redis F). p.0) e)
        (ap (λ (p : Result (Unit {0}) × Redis F). mark_claim_failed i.idempotency_key p.1) e)

  -- The claim fails, and no seats move.
  failed-Good :
      (e total key : ℕ) (db : Database) (r : Redis F)
      → Good e total db r
      → Good e total db (mark_claim_failed key r)
  unfolding mark_claim_failed
  failed-Good e total key db r (b, o) =
      let claims = claimed_after key Claim.failed r.claim in
      (
        record { left = b.left; counter = b.counter; sum = b.sum },
        record {
          keys = o.keys;
          ids = o.ids;
          rows = o.rows;
          claimed_entries = All-mono _ _ r.stream (λ q. claims (entry_key q)) o.claimed_entries;
          claimed_orders = All-mono _ _ db.orders (λ q. claims q.idempotency_key) o.claimed_orders;
          claimed_markers = λ j. let h = o.claimed_markers j in ground arith;
          owing = o.owing;
          not_given_up = o.not_given_up;
          plain_entries = o.plain_entries;
          plain_orders = o.plain_orders;
        },
      )

  still_false :
      (key : ℕ) (r : Redis F) (o : Order)
      → (r.released (Marker.dead_letter o.idempotency_key) ≡ false) × (o.idempotency_key ≢ key)
      → at_marker (Marker.dead_letter key) true r.released (Marker.dead_letter o.idempotency_key)
        ≡ false
  still_false key r o (h, ne) = ground arith

  -- The seats go back under the marker of the key.
  marked-Good :
      (e total entry : ℕ) (i : Intent) (db : Database) (r : Redis F)
      → Has (entry, i) r.stream
      → is_some (find_key i.idempotency_key db.orders) ≡ false
      → ((release (plain_return i) r).0 ≡ true)
      → Marks (plain_return i) r (release (plain_return i) r).1
      → Good e total db r
      → Good e total db (release (plain_return i) r).1
  marked-Good e total entry i db r has unknown done m (b, o) =
      let r' = (release (plain_return i) r).1 in
      let (waits, keeps) = dead-waiting e entry i (plain_return i) db r r' refl has unknown o m in
      let claimed =
        Has-All (λ p. is_some (r.claim (entry_key p)) ≡ true) (entry, i) r.stream o.claimed_entries
          has in
      let before = b.sum in
      (
        record {
          left = b.left + (if i.event_id == e then i.quantity else 0);
          counter = release-counter e (plain_return i) r b.left done b.counter;
          sum = ground arith;
        },
        record {
          keys = subst (Distinct entry_key) (sym m.stream) o.keys;
          ids = subst (Distinct entry_id) (sym m.stream) o.ids;
          rows = o.rows;
          claimed_entries = rw (m.stream, m.claim) o.claimed_entries;
          claimed_orders = rw m.claim o.claimed_orders;
          claimed_markers =
              λ j. rw (m.released, m.claim) (let h = o.claimed_markers j in ground arith);
          owing = rw m.released o.owing;
          not_given_up = rw m.released (
              All-mono _ _ db.orders (still_false i.idempotency_key r) (
                All-both _ (λ (p : Order). p.idempotency_key ≢ i.idempotency_key) db.orders
                  o.not_given_up (other_keys i.idempotency_key db.orders unknown)));
          plain_entries = rw m.stream o.plain_entries;
          plain_orders = o.plain_orders;
        },
      )

  parked-Good :
      (e total entry : ℕ) (i : Intent) (db : Database) (r : Redis F)
      → Good e total db r
      → Good e total db (park entry i r)
  parked-Good e total entry i db r (b, o) = (
    record { left = b.left; counter = b.counter; sum = b.sum },
    record {
      keys = o.keys;
      ids = o.ids;
      rows = o.rows;
      claimed_entries = o.claimed_entries;
      claimed_orders = o.claimed_orders;
      claimed_markers = o.claimed_markers;
      owing = o.owing;
      not_given_up = o.not_given_up;
      plain_entries = o.plain_entries;
      plain_orders = o.plain_orders;
    },
  )

  failed-stream : (key : ℕ) (r : Redis F) → (mark_claim_failed key r).stream ≡ r.stream
  unfolding mark_claim_failed
  failed-stream key r = refl

  marked-idle :
      (db : Database) (key : ℕ) (r : Redis F)
      → r.released (Marker.dead_letter key) ≡ true
      → is_waiting db (mark_claim_failed key r) key ≡ false
  unfolding mark_claim_failed
  marked-idle db key r marked = rw marked (ground arith)

  -- After giving up: all is well, the key no longer waits, and the stream is the same.
  abbrev Given : ℕ → ℕ → Intent → Database → Redis F → Redis F → Type 0
  Given e total i db r r' =
      Good e total db r' × (is_waiting db r' i.idempotency_key ≡ false) × (r'.stream ≡ r.stream)

  given_up-Good :
      (e total entry : ℕ) (i : Intent) (db : Database) (r : Redis F)
      → Has (entry, i) r.stream
      → i.block_id ≡ none
      → Good e total db r
      → Good e total db (dead_letter_intent (λ s. s) entry i db r).1
        × (is_waiting db (dead_letter_intent (λ s. s) entry i db r).1 i.idempotency_key ≡ false)
        × ((dead_letter_intent (λ s. s) entry i db r).1.stream ≡ r.stream)
  given_up-Good e total entry i db r has plain s =
      let key = i.idempotency_key in
      let parked = park entry i r in
      let s' = parked-Good e total entry i db r s in
      elim (Bool-cases (is_some (find_key key db.orders))) [
        | inl known ↦ subst (Given e total i db r) (sym (given_up_known entry i db r known)) (
          failed-Good e total key db parked s',
          known-idle db (mark_claim_failed key parked) key known,
          failed-stream key parked,
        )
        | inr unknown ↦
            subst (Given e total i db r) (sym (given_up_unknown entry i db r unknown plain))
              (elim (release-Effect (plain_return i) parked) [
                | inl (again, marked) ↦
                    subst (λ (p : Bool × Redis F). Given e total i db r (mark_claim_failed key p.1))
                      (sym again)
                      (
                        failed-Good e total key db parked s',
                        marked-idle db key parked marked,
                        failed-stream key parked,
                      )
                | inr (done, m) ↦
                    let r' = (release (plain_return i) parked).1 in
                    let now : r'.released (Marker.dead_letter key) ≡ true =
                      rw m.released (ground arith) in
                    (
                      failed-Good e total key db r'
                          (marked-Good e total entry i db parked has unknown done m s'),
                      marked-idle db key r' now,
                      failed-stream key r' ∙ m.stream,
                    )
              ])
      ]

  pub give_up-Good :
      (e total entry : ℕ) (i : Intent) (acked : Bool) (w : Worker F)
      → Has (entry, i) w.redis.stream
      → GoodWorker e total w
      → GoodWorker e total (move (give_up acked entry i) w)
  unfolding move
  give_up-Good e total entry i false w has s =
      let plain = Has-All _ (entry, i) w.redis.stream s.1.plain_entries has in
      (given_up-Good e total entry i w.db w.redis has plain.1 s).0
  give_up-Good e total entry i true w has s =
      let plain = Has-All _ (entry, i) w.redis.stream s.1.plain_entries has in
      let (good, idle, same) = given_up-Good e total entry i w.db w.redis has plain.1 s in
      let given_up = record w { redis = (dead_letter_intent (λ s. s) entry i w.db w.redis).1 } in
      acked-Good e total entry i given_up (subst (Has (entry, i)) (sym same) has) idle good
