-- ===== src/System/Returns.antt =====
-- app/services/inventory.py, `release`, under the marker of a dead letter and under that of an order,
-- as part of a step of the system.
use fast_api.Base.{
  Has, ℕ, ◌+◌, ◌≡◌, ◌⊎◌, refl, ap, ◌∙◌, subst, inl, inr, true, false, ◌&&◌, ◌==◌, if◌then◌else◌,
  some, is_some, arith, Bool-cases,
}
use fast_api.Redis.{Redis, Intent, Marker, at_marker}
use fast_api.Database.{Database, Order}
use fast_api.Base.Int.{ℤ, pos, ◌-ℤ◌, leb_ℤ, ltb_ℤ}
use fast_api.Inventory.Repeats.{release-again}
use fast_api.System.Consumes.{all_true}
use fast_api.Inventory.{ReleaseReply, ReleaseArgs, release_script, after_release, release}
use fast_api.Inventory.Trace.{returned, step, Counts, release-conserves}
use fast_api.Worker.Intents.{find_key}
use fast_api.System.Tally.{tally, close, tally-close, tally_ext}
use fast_api.System.Books.{
  entry_key, entry_seats, order_id, order_seats, is_waiting, is_kept, waiting, kept, Orderly,
}

module _ {F : Type 0} where
  -- A release that returns seats sets its marker, which was not set.
  pub record Marks (a : ReleaseArgs) (r r' : Redis F) : Type 0 where
    pub unmarked : r.released a.marker ≡ false
    pub released : r'.released ≡ at_marker a.marker true r.released
    pub stream : r'.stream ≡ r.stream
    pub claim : r'.claim ≡ r.claim

  poked-Marks :
      (a : ReleaseArgs) (n : ℤ) (r r' : Redis F)
      → Marks a r r'
      → Marks a r (after_release a (ReleaseReply.ok n) r').1
  unfolding after_release
  poked-Marks a n r r' m =
      elim (Bool-cases (leb_ℤ (n -ℤ pos a.quantity) (pos 0) && ltb_ℤ (pos 0) n)) [
        | inl crossed ↦ rw crossed (record {
          unmarked = m.unmarked;
          released = m.released;
          stream = m.stream;
          claim = m.claim;
        })
        | inr stays ↦ rw stays m
      ]

  first-Marks :
      (a : ReleaseArgs) (r : Redis F)
      → r.released a.marker ≡ false
      → ((release a r).0 ≡ true) × Marks a r (release a r).1
  unfolding release release_script after_release
  first-Marks a r fresh = rw fresh (
    refl,
    poked-Marks a _ r _ (record { unmarked = fresh; released = refl; stream = refl; claim = refl }),
  )

  -- A release finds its marker, or returns the seats and sets it.
  pub release-Effect :
      (a : ReleaseArgs) (r : Redis F)
      → ((release a r ≡ (false, r)) × (r.released a.marker ≡ true))
        ⊎ (((release a r).0 ≡ true) × Marks a r (release a r).1)
  release-Effect a r = elim (Bool-cases (r.released a.marker)) [
    | inl again ↦ inl (release-again a r again, again)
    | inr fresh ↦ inr (first-Marks a r fresh)
  ]

  -- What the counter of an event gains.
  pub release-counter :
      (e : ℕ) (a : ReleaseArgs) (r : Redis F) (n : ℕ)
      → (release a r).0 ≡ true
      → Counts e r n
      → Counts e (release a r).1 (n + (if a.event_id == e then a.quantity else 0))
  unfolding step returned
  release-counter e a r n done c =
      release-conserves e a r n c ∙ ap (λ (k : ℕ). some (pos (n + k))) (rw done (ground arith))

  -- Under the marker of a dead letter, a key stops waiting, and orders keep their seats.
  pub dead-waiting :
      (e entry : ℕ) (i : Intent) (a : ReleaseArgs) (db : Database) (r r' : Redis F)
      → a.marker ≡ Marker.dead_letter i.idempotency_key
      → Has (entry, i) r.stream
      → is_some (find_key i.idempotency_key db.orders) ≡ false
      → Orderly db r
      → Marks a r r'
      → (waiting e db r' + (if i.event_id == e then i.quantity else 0) ≡ waiting e db r)
        × (kept e db r' ≡ kept e db r)
  dead-waiting e entry i a db r r' named has unknown o m =
      let due = is_waiting db r in
      let fresh = m.unmarked in
      let at_key = subst (λ (k : Marker). r.released k ≡ false) named m.unmarked in
      let on : due i.idempotency_key ≡ true = rw (unknown, at_key) refl in
      let closed : tally entry_key (entry_seats e) (is_waiting db r') r.stream
          ≡ tally entry_key (entry_seats e) (close entry_key (entry_seats e) i.idempotency_key due)
              r.stream =
        tally_ext entry_key (entry_seats e) (is_waiting db r')
          (close entry_key (entry_seats e) i.idempotency_key due) r.stream
          (all_true _ r.stream (λ (p : ℕ × Intent). rw (m.released, named) (ground arith))) in
      let sum = tally-close entry_key (entry_seats e) (entry, i) due r.stream o.keys has in
      (
        rw m.stream (ground arith),
        tally_ext order_id (order_seats e) (is_kept r') (is_kept r) db.orders
            (all_true _ db.orders (λ (p : Order). rw (m.released, named) (ground arith))),
      )
