-- ===== src/Worker/Stream/DeadLetter.antt =====
-- app/worker.py, `_dead_letter_intent`: what comes back to the counters, and how often.
use fast_api.Base.{
  ℕ, ◌≡◌, refl, ap, sym, ◌∙◌, subst, inl, inr, Bool, true, false, Option, none, some, is_some,
  Bool-cases,
}
use fast_api.Exceptions.{Result, ok, err, Result-cases, ◌>>=◌}
use fast_api.Redis.{Redis, Intent, Marker}
use fast_api.Database.{Database}
use fast_api.Inventory.Repeats.{release-again, release-marks}
use fast_api.SeatRuns.Release.{Args, release_seats}
use fast_api.SeatRuns.Release.Once.{release_seats-again, release_seats-marks}
use fast_api.Worker.Intents.{find_key}
use fast_api.Worker.Stream.{
  plain_return, seat_return, mark_claim_failed, return_seats, refund, park, dead_letter_intent,
}

module _ {F : Type 0} where
  -- The counters, the quotas, the runs and the markers are the same.
  pub record SameStock (r r' : Redis F) : Type 0 where
    pub event : r'.event ≡ r.event
    pub zone : r'.zone ≡ r.zone
    pub released : r'.released ≡ r.released

  -- The call ended, and moved nothing.
  abbrev pub NoMore : Redis F → Result (Unit {0}) → Redis F → Type 0
  NoMore r answer r' = (answer ≡ ok tt) × SameStock r r'

  -- A stock that is the same at the parked intent is the same.
  park-NoMore :
      (entry : ℕ) (i : Intent) (r : Redis F) (answer : Result (Unit {0})) (r' : Redis F)
      → NoMore (park entry i r) answer r'
      → NoMore r answer r'
  park-NoMore entry i r answer r' (e, same) =
      (e, record { event = same.event; zone = same.zone; released = same.released })

  released_seats :
      (a : Args) (r : Redis F) (answer : Result Bool)
      → (release_seats a r).0 ≡ answer
      → (answer >>= λ done. ok (tt {0})) ≡ ok (tt {0})
      → (release_seats a r).1.released a.marker ≡ true
  released_seats a r (ok b) e h = release_seats-marks a r b e
  released_seats a r (err f) e h = cc

  return_seats-again :
      (i : Intent) (zone : Option ℕ) (block : ℕ) (start : Option ℕ) (r s : Redis F)
      → (return_seats i zone block start r).0 ≡ ok tt
      → s.released (Marker.dead_letter i.idempotency_key)
        ≡ (return_seats i zone block start r).1.released (Marker.dead_letter i.idempotency_key)
      → NoMore s (return_seats i zone block start s).0 (return_seats i zone block start s).1
  unfolding return_seats
  return_seats-again i none block start r s e m =
      (refl, record { event = refl; zone = refl; released = refl })
  return_seats-again i (some zone) block none r s e m = cc
  return_seats-again i (some zone) block (some start) r s e m =
      let a = seat_return i zone block start in
      let again = release_seats-again a s (m ∙ released_seats a r _ refl e) in
      subst (λ (p : Result Bool × Redis F). NoMore s (p.0 >>= λ done. ok tt) p.1) (sym again)
        (refl, record { event = refl; zone = refl; released = refl })

  refund-again :
      (i : Intent) (block : Option ℕ) (r s : Redis F)
      → (refund i block r).0 ≡ ok tt
      → s.released (Marker.dead_letter i.idempotency_key)
        ≡ (refund i block r).1.released (Marker.dead_letter i.idempotency_key)
      → NoMore s (refund i block s).0 (refund i block s).1
  unfolding refund
  refund-again i none r s e m =
      let a = plain_return i in
      subst (λ (p : Bool × Redis F). NoMore s (ok tt) p.1)
        (sym (release-again a s (m ∙ release-marks a r)))
        (refl, record { event = refl; zone = refl; released = refl })
  refund-again i (some block) r s e m = return_seats-again i i.zone_id block i.start_pos r s e m

  failed-NoMore : (key : ℕ) (r s : Redis F) → SameStock r s → SameStock r (mark_claim_failed key s)
  unfolding mark_claim_failed
  failed-NoMore key r s same = record {
    event = same.event;
    zone = same.zone;
    released = same.released;
  }

  refunded :
      (others : Redis F → Redis F) (entry : ℕ) (i : Intent) (db : Database) (r : Redis F)
      → is_some (find_key i.idempotency_key db.orders) ≡ false
      → (dead_letter_intent others entry i db r).0 ≡ ok tt
      → ((refund i i.block_id (others (park entry i r))).0 ≡ ok tt)
        × ((dead_letter_intent others entry i db r).1.released
            ≡ (refund i i.block_id (others (park entry i r))).1.released)
  unfolding dead_letter_intent mark_claim_failed
  refunded others entry i db r absent e =
      elim (Result-cases ((refund i i.block_id (others (park entry i r))).0)) [
        | inl (f, raised) ↦ let e' = rw (absent, raised) at e in cc
        | inr (u, done) ↦ (done, rw (absent, done) refl)
      ]

  -- Seats come back at most once: where an intent without an order was dead-lettered, whatever
  -- happened in Redis meanwhile, and the call ended, another dead-lettering of it, at any later time
  -- at which the marker is as it was left, ends too, and, where nothing else happens in Redis
  -- during it, the counters, quotas, runs and markers are the same.
  pub dead_letter_intent-once :
      (others : Redis F → Redis F) (entry again : ℕ) (i : Intent) (db later : Database)
      (r s : Redis F)
      → is_some (find_key i.idempotency_key db.orders) ≡ false
      → (dead_letter_intent others entry i db r).0 ≡ ok tt
      → s.released (Marker.dead_letter i.idempotency_key)
        ≡ (dead_letter_intent others entry i db r).1.released (Marker.dead_letter i.idempotency_key)
      → NoMore s
          (dead_letter_intent (λ t. t) again i later s).0
          (dead_letter_intent (λ t. t) again i later s).1
  unfolding dead_letter_intent mark_claim_failed
  dead_letter_intent-once others entry again i db later r s absent e m =
      let m' = Marker.dead_letter i.idempotency_key in
      let (done, marks) = refunded others entry i db r absent e in
      let (ends, same) = park-NoMore again i s _ _ (
        refund-again i i.block_id (others (park entry i r)) (park again i s) done
          (m ∙ ap (λ (f : Marker → Bool). f m') marks)) in
      elim (Bool-cases (is_some (find_key i.idempotency_key later.orders))) [
        | inl known ↦ rw known (refl, record { event = refl; zone = refl; released = refl })
        | inr unknown ↦
            rw (unknown, ends)
              (refl, record { event = same.event; zone = same.zone; released = same.released })
      ]
