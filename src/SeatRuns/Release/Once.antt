-- ===== src/SeatRuns/Release/Once.antt =====
-- app/services/seat_runs.py, `release_seats`: the marker of a release.
use fast_api.Base.{
  ◌+◌, ◌≡◌, refl, ap, ◌∙◌, inl, inr, Bool, true, false, ◌&&◌, hget, nat_eq, Bool-cases,
  Option-cases,
}
use fast_api.Base.Int.{pos, ◌-ℤ◌, ltb_ℤ, leb_ℤ}
use fast_api.Exceptions.{ok}
use fast_api.Redis.{Redis, at_marker_self}
use fast_api.SeatRuns.Release.{
  Args, Reply, beyond, overlapping, give_back, release_script, after_release, release_seats,
}

module _ {F : Type 0} where
  pub release_seats-again :
      (a : Args) (r : Redis F) → r.released a.marker ≡ true → release_seats a r ≡ (ok false, r)
  unfolding release_seats release_script after_release
  release_seats-again a r marked = rw marked refl

  after_release-released :
      (a : Args) (reply : Reply) (r : Redis F) → (after_release a reply r).1.released ≡ r.released
  unfolding after_release
  after_release-released a Reply.dup r = refl
  after_release-released a (Reply.oob capacity) r = refl
  after_release-released a (Reply.overlap lo length) r = refl
  after_release-released a (Reply.ok lo length n) r =
      elim (Bool-cases (leb_ℤ (n -ℤ pos a.length) (pos 0) && ltb_ℤ (pos 0) n)) [
        | inl crossed ↦ rw crossed refl
        | inr stays ↦ rw stays refl
      ]

  give_back-marks : (a : Args) (r : Redis F) → (give_back a r).1.released a.marker ≡ true
  unfolding give_back
  give_back-marks a r = at_marker_self a.marker true r.released

  -- A release that ends without an exception leaves its marker.
  pub release_seats-marks :
      (a : Args) (r : Redis F) (b : Bool)
      → (release_seats a r).0 ≡ ok b
      → (release_seats a r).1.released a.marker ≡ true
  unfolding release_seats release_script after_release
  release_seats-marks a r b e = elim (Bool-cases (r.released a.marker)) [
    | inl again ↦ rw again again
    | inr fresh ↦
        elim (Option-cases
          (beyond (hget a.block (r.zone a.event_id a.zone_id).geom) (a.start + a.length))) [
            | inr (capacity, out) ↦ let e' = rw (fresh, out) at e in cc
            | inl fits ↦
                elim (Option-cases (
                  overlapping a.block a.start (a.start + a.length)
                    (r.zone a.event_id a.zone_id).runs)) [
                      | inr (at, meets) ↦ let e' = rw (fresh, fits, meets) at e in cc
                      | inl occupied ↦
                          rw (fresh, fits, occupied)
                            (ap (λ f. f a.marker)
                                (after_release-released a (give_back a r).0 (give_back a r).1)
                              ∙ give_back-marks a r)
                    ]
          ]
  ]
