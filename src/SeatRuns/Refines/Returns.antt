-- ===== src/SeatRuns/Refines/Returns.antt =====
-- app/services/seat_runs.py, `_RELEASE_SEATS_LUA`, against app/services/seating.py, `release`.
use fast_api.Base.{
  is_some, ℕ, ◌+◌, ◌<◌, ◌≡◌, refl, ap, ◌∙◌, inl, inr, ◌⊎◌, true, false, Option, none, some, List,
  [], ◌∷◌, Hash, Field, hget, nat_eq, arith, Option-cases, Bool-cases, field_eq,
}
use fast_api.Exceptions.{Result, err, value_error}
use fast_api.Redis.{Redis, ZoneKeys, PackedGeometry}
use fast_api.Seating.Geometry.{Run}
use fast_api.Seating.Runs.{release, sort_runs, exceeds}
use fast_api.Seating.Runs.Release.{hits, Released, release-Released, release-sorted}
use fast_api.SeatRuns.Snapshot.{runs_of}
use fast_api.SeatRuns.Index.{IsConsistent}
use fast_api.SeatRuns.Claim.{field}
use fast_api.SeatRuns.Release.{
  release_script, give_back, beyond, overlapping, Args as ReleaseArgs, Reply as ReleaseReply,
}
use fast_api.SeatRuns.Release.Script.{give_back-GivesBack, overlapping-found}
use fast_api.Seating.Runs.Sorted.{released-sorted, occupied-hits}

Released-refused :
    (runs : List Run) (block start length : ℕ) (capacity : Option ℕ) (r : Result (List Run))
    → Released runs block start length capacity r
    → (exceeds capacity (start + length) ≡ true) ⊎ (hits runs block start (start + length) ≡ true)
    → r ≡ err value_error
Released-refused runs block start length capacity (Result.ok out) o bad = ground arith
Released-refused runs block start length capacity (err e) o bad = ap err (o.0)

field-hits :
    (h : Hash Field ℕ) (block run_lo run_length lo hi : ℕ)
    → hget (field block run_lo) h ≡ some run_length
    → run_lo < hi
    → lo < run_lo + run_length
    → hits (runs_of h) block lo hi ≡ true
field-hits [] block run_lo run_length lo hi e p q = cc
field-hits ((at, length) ∷ h) block run_lo run_length lo hi e p q =
    ground (arith, field-hits h block run_lo run_length lo hi)

module _ {F : Type 0} where
  abbrev pub zone_at : ReleaseArgs → Redis F → ZoneKeys F
  zone_at a r = r.zone a.event_id a.zone_id

  -- The block's capacity, where its geometry is known.
  abbrev pub capacity_of : ReleaseArgs → Redis F → Option ℕ
  capacity_of a r = elim (hget a.block (zone_at a r).geom) [
    | none ↦ none
    | some g ↦ some (g.capacity)
  ]

  abbrev pub oracle : ReleaseArgs → Redis F → Result (List Run)
  oracle a r = release (runs_of (zone_at a r).runs) a.block a.start a.length (capacity_of a r)

  -- What `release` answers where the script gives the reply.
  abbrev pub Agrees : ReleaseArgs → Redis F → ReleaseReply → Redis F → Type 0
  Agrees a r ReleaseReply.dup r' = r.released a.marker ≡ true
  Agrees a r (ReleaseReply.oob capacity) r' = oracle a r ≡ err value_error
  Agrees a r (ReleaseReply.overlap run_lo run_length) r' = oracle a r ≡ err value_error
  Agrees a r (ReleaseReply.ok lo length left) r' =
      oracle a r ≡ Result.ok (sort_runs (runs_of (zone_at a r').runs))

  beyond-exceeds :
      (g : Option (PackedGeometry F)) (hi : ℕ)
      → exceeds (elim g [ none ↦ none | some p ↦ some (p.capacity) ]) hi ≡ is_some (beyond g hi)
  beyond-exceeds none hi = refl
  beyond-exceeds (some g) hi = ground arith

  release_ok-Agrees :
      (a : ReleaseArgs) (r : Redis F)
      → IsConsistent (zone_at a r)
      → 0 < a.length
      → r.released a.marker ≡ false
      → beyond (hget a.block (zone_at a r).geom) (a.start + a.length) ≡ none
      → overlapping a.block a.start (a.start + a.length) (zone_at a r).runs ≡ none
      → oracle a r ≡ Result.ok (sort_runs (runs_of (zone_at a (give_back a r).1).runs))
  release_ok-Agrees a r c full fresh fits occupied =
      let (left, lo, length, reply, gives) = give_back-GivesBack a r c full fresh occupied in
      let runs = runs_of (zone_at a r).runs in
      let capacity = capacity_of a r in
      released-sorted runs _ a.block a.start a.length capacity _
        (release-Released runs a.block a.start a.length capacity c.zone.maximal)
        gives.consistent.zone.maximal
        (λ out. release-sorted runs a.block a.start a.length capacity out c.zone.maximal)
        gives.only_these full
        (beyond-exceeds (hget a.block (zone_at a r).geom) (a.start + a.length) ∙ ap is_some fits)
        (occupied-hits runs a.block a.start a.length c.zone.maximal full
          (gives.were_occupied a.block))

  -- On a consistent zone, and for at least one seat, the release script and `release` agree, unless
  -- the marker is there: where the script answers OK, `release` returns the runs after, sorted;
  -- where it answers OOB or OVERLAP, `release` raises `ValueError`.
  pub release_script-Agrees :
      (a : ReleaseArgs) (r : Redis F)
      → IsConsistent (zone_at a r)
      → 0 < a.length
      → Agrees a r (release_script a r).0 (release_script a r).1
  unfolding release_script
  release_script-Agrees a r c full =
      let z = zone_at a r in
      let hi = a.start + a.length in
      let refused =
        Released-refused (runs_of z.runs) a.block a.start a.length (capacity_of a r) (oracle a r) (
          release-Released (runs_of z.runs) a.block a.start a.length (capacity_of a r)
            c.zone.maximal) in
      elim (Bool-cases (r.released a.marker)) [
        | inl again ↦ rw again again
        | inr fresh ↦ elim (Option-cases (beyond (hget a.block z.geom) hi)) [
          | inr (capacity, out) ↦
              rw (fresh, out)
                (refused (inl (beyond-exceeds (hget a.block z.geom) hi ∙ ap is_some out)))
          | inl fits ↦ elim (Option-cases (overlapping a.block a.start hi z.runs)) [
            | inl occupied ↦
                rw (fresh, fits, occupied) (release_ok-Agrees a r c full fresh fits occupied)
            | inr ((run_lo, run_length), meets) ↦
                let (found, below, above) =
                  overlapping-found a.block a.start hi run_lo run_length z.runs c.zone.maximal
                    meets in
                rw (fresh, fits, meets)
                  (refused (
                    inr (field-hits z.runs a.block run_lo run_length a.start hi found below above)))
          ]
        ]
      ]
