-- ===== src/SeatRuns/Refines.antt =====
-- app/services/seat_runs.py against app/services/seating.py: the Lua scripts and the pure functions
-- that the program names as their oracle.
pub mod Returns
use fast_api.Base.{
  is_some, ℕ, ◌+◌, ◌<◌, ◌≤◌, ◌≡◌, ◌≢◌, refl, ap, sym, ◌∙◌, subst, inl, inr, ◌⊎◌, Bool, true, false,
  ◌&&◌, ◌||◌, not, ltb, leb, Option, none, some, List, [], ◌∷◌, All, Hash, Field, hget, nat_eq,
  arith, Option-cases, Bool-cases, field_eq,
}
use fast_api.Base.Int.{ℤ}
use fast_api.Exceptions.{Result, Result-cases, Error, err, value_error}
use fast_api.Redis.{Redis, ZoneKeys, PackedGeometry}
use fast_api.Seating.Geometry.{Run, Placement}
use fast_api.Seating.Runs.{occupy, occupy_loop, release, release_loop, sort_runs, contains, exceeds}
use fast_api.Seating.Runs.Free.{Apart, free, inside, IsRuns}
use fast_api.Seating.Runs.Occupy.{in_interval, Occupied, occupy-Occupied, occupy-sorted}
use fast_api.Seating.Runs.Release.{hits, Released, release-Released, release-sorted}
use fast_api.Seating.Runs.Canonical.{sort_runs_unique}
use fast_api.Seating.Runs.Sorted.{same-sorted}
use fast_api.SeatRuns.Snapshot.{runs_of}
use fast_api.SeatRuns.Index.{IsConsistent}
use fast_api.SeatRuns.Index.Entries.{entry}
use fast_api.SeatRuns.Claim.{claim_seats, field, Reply, Args}
use fast_api.SeatRuns.Claim.Script.{TakesSeats, Claimed, claim_seats-Claimed, zone_of}
use fast_api.SeatRuns.Release.{
  release_script, give_back, beyond, overlapping, Args as ReleaseArgs, Reply as ReleaseReply,
}
use fast_api.SeatRuns.Release.Script.{GivesBack, give_back-GivesBack, overlapping-found}

-- The run of the list that holds a free seat; the seat behind it is occupied.
record Host (rs : List Run) (block seat : ℕ) : Type 1 where
  run : Run
  held : inside run block seat ≡ true
  of_list : (P : Run → Type 0) → All P rs → P run
  behind : free rs block (run.start + run.length) ≡ false

free-behind :
    (r : Run) (rs : List Run) → All (Apart r) rs → free rs r.block_id (r.start + r.length) ≡ false
free-behind r [] a = refl
free-behind r (s ∷ rs) a = ground (arith, free-behind r rs a.1)

free-Host :
    (rs : List Run) (block seat : ℕ) → IsRuns rs → free rs block seat ≡ true → Host rs block seat
free-Host [] block seat h f = cc
free-Host (r ∷ rs) block seat h f = elim (Bool-cases (inside r block seat)) [
  | inl here ↦ record {
    run = r;
    held = here;
    of_list = λ P a. a.0;
    behind = ground (arith, free-behind r rs h.1);
  }
  | inr elsewhere ↦
      let there = free-Host rs block seat h.2 (rw elsewhere at f) in
      let apart = there.of_list (Apart r) h.1 in
      record {
        run = there.run;
        held = there.held;
        of_list = λ P a. there.of_list P a.1;
        behind = ground (arith, there.behind, there.held);
      }
]

-- Free neighbouring seats are in one run.
free-hosted :
    (rs : List Run) (block start length : ℕ)
    → IsRuns rs
    → 0 < length
    → ((seat : ℕ) → in_interval block start length block seat ≡ true → free rs block seat ≡ true)
    → ¬ All (λ run. contains run block start length ≡ false) rs
unfolding contains
free-hosted rs block start length h full seats unhosted =
    let host = free-Host rs block start h (seats start (ground arith)) in
    let short = host.of_list (λ run. contains run block start length ≡ false) unhosted in
    let e = seats (host.run.start + host.run.length) in ground (arith, host.held, host.behind)

Occupied-sorted :
    {F : Type 0} (runs after : List Run) (p : Placement F) (r : Result (List Run))
    → Occupied runs p r
    → IsRuns after
    → ((out : List Run) → r ≡ Result.ok out → (rs : List Run) × IsRuns rs × (sort_runs rs ≡ out))
    → ((block seat : ℕ)
        → free after block seat
          ≡ (free runs block seat && not (in_interval p.block_id p.start p.length block seat)))
    → ¬ All (λ run. contains run p.block_id p.start p.length ≡ false) runs
    → r ≡ Result.ok (sort_runs after)
Occupied-sorted runs after p (Result.ok out) o k sorted seats hosted =
    let (rs, h, e) = sorted out refl in
    ap Result.ok
      (same-sorted rs out after h e k (λ block seat. o.1 block seat ∙ sym (seats block seat)))
Occupied-sorted runs after p (err e) o k sorted seats hosted = elim (hosted o.1) [ ]

module _ {F : Type 0} where
  abbrev pub taken : Args → F → Placement F
  taken a score = record { block_id = a.block; start = a.start; length = a.length; score = score }

  -- On a consistent zone, where the claim script answers OK, `occupy` takes the same seats from the
  -- runs before, and returns the runs after, sorted.
  pub claim_seats-occupy :
      (stream_id : ℕ) (a : Args) (r : Redis F) (score : F) (id : ℕ) (left : ℤ)
      → IsConsistent (zone_of a r)
      → 0 < a.length
      → (claim_seats stream_id a r).0 ≡ Reply.ok id left
      → occupy (runs_of (zone_of a r).runs) (taken a score)
        ≡ Result.ok (sort_runs (runs_of (zone_of a (claim_seats stream_id a r).1).runs))
  claim_seats-occupy stream_id a r score id left c full answer =
      let takes =
        (subst (λ p. Claimed a r p (claim_seats stream_id a r).1) answer
          (claim_seats-Claimed stream_id a r c full)).0 in
      let runs = runs_of (zone_of a r).runs in
      Occupied-sorted runs _ (taken a score) _
        (occupy-Occupied runs (taken a score) c.zone.maximal full) takes.consistent.zone.maximal
        (λ out. occupy-sorted runs (taken a score) out c.zone.maximal full) takes.only_these
        (free-hosted runs a.block a.start a.length c.zone.maximal full (takes.were_free a.block))
