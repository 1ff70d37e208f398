-- ===== src/Seating/Candidates.antt =====
-- app/services/seating.py, `placement_at`, `candidates` and `feasible_quantities`: which cuts of a
-- run are legal. A generator is the list of what it yields.
pub mod Legal
pub mod Feasible
use fast_api.Base.{
  ℕ, zero, suc, ◌+◌, ◌-◌, Bool, true, false, ◌&&◌, ◌||◌, not, ltb, leb, ◌==◌, if◌then◌else◌, Option,
  none, some, List, [], ◌∷◌, ◌++◌, Hash, hget, nat_eq,
}
use fast_api.Base.Int.{ℤ, pos, pos_part, ◌-ℤ◌, ltb_ℤ}
use fast_api.Floats.{FloatOps}
use fast_api.Exceptions.{Result, ok, err, key_error, ◌>>=◌}
use fast_api.Seating.Geometry.{
  Policy, BlockGeometry, Run, Placement, mid_lo, window_quality, ideal_start, cut_cost,
}

-- `min(max(ideal, lo), hi)`, where `lo` and `hi` are not negative
unfoldable pub clamp : ℤ → ℕ → ℕ → ℕ
clamp ideal lo hi =
    let raised = if ltb_ℤ ideal (pos lo) then lo else pos_part ideal in
    if ltb hi raised then hi else raised

module _ {F : Type 0} ⦃fl : FloatOps F⦄ where
  unfoldable pub placement_at : Run → ℕ → ℕ → BlockGeometry F → Policy F → Placement F
  placement_at run offset quantity geo policy =
      let start = run.start + offset in
      record {
        block_id = run.block_id;
        start = start;
        length = quantity;
        score = fl.sub (window_quality geo start quantity) (
            fl.mul policy.fragmentation_weight
              (cut_cost policy run.length offset (run.length - quantity - offset) quantity));
      }

  -- The cuts at the two ends, of a run that leaves `tail` seats.
  unfoldable pub end_cuts : Run → ℕ → ℕ → BlockGeometry F → Policy F → List (Placement F)
  end_cuts run tail quantity geo policy =
      if tail == 0 || leb policy.min_run tail
      then placement_at run 0 quantity geo policy
        ∷ (if ltb 0 tail then placement_at run tail quantity geo policy ∷ [] else [])
      else []

  -- The cut in the middle. `hi = tail - lo` is an integer: `lo <= hi` is `lo + lo <= tail`.
  unfoldable pub mid_cuts : Run → ℕ → ℕ → BlockGeometry F → Policy F → List (Placement F)
  mid_cuts run tail quantity geo policy =
      let lo = mid_lo policy in
      if policy.allow_mid_cut && leb (lo + lo) tail
      then placement_at run (clamp (ideal_start geo quantity -ℤ pos run.start) lo (tail - lo))
          quantity geo policy
        ∷ []
      else []

  unfoldable pub candidates : Run → ℕ → BlockGeometry F → Policy F → List (Placement F)
  unfolding end_cuts mid_cuts
  candidates run quantity geo policy =
      let tail = run.length - quantity in
      if ltb quantity 1 || ltb run.length quantity
      then []
      else end_cuts run tail quantity geo policy ++ mid_cuts run tail quantity geo policy

  -- `next(candidates(...), None) is not None`
  abbrev pub has_candidate : Run → ℕ → BlockGeometry F → Policy F → Bool
  has_candidate run n geo policy = elim (candidates run n geo policy) [ [] ↦ false | c ∷ cs ↦ true ]

  -- `any(...)` over the runs: it stops at the first run that fits.
  unfoldable pub any_fits : List Run → ℕ → Hash ℕ (BlockGeometry F) → Policy F → Result Bool
  any_fits [] n geometry policy = ok false
  any_fits (run ∷ runs) n geometry policy =
      let rest = any_fits runs n geometry policy in
      elim (hget run.block_id geometry) [
        | none ↦ err key_error
        | some geo ↦ if has_candidate run n geo policy then ok true else rest
      ]

  -- The comprehension over `range(n, n + count)`.
  unfoldable pub feasible_from :
      ℕ → ℕ → List Run → Hash ℕ (BlockGeometry F) → Policy F → Result (List ℕ)
  feasible_from n zero runs geometry policy = ok []
  feasible_from n (suc count) runs geometry policy = do
    fits ← any_fits runs n geometry policy
    rest ← feasible_from (n + 1) count runs geometry policy
    ok (if fits then n ∷ rest else rest)

  -- `range(1, max_order + 1)`
  unfoldable pub feasible_quantities :
      List Run → Hash ℕ (BlockGeometry F) → ℕ → Policy F → Result (List ℕ)
  unfolding feasible_from
  feasible_quantities runs geometry max_order policy =
      feasible_from 1 max_order runs geometry policy
