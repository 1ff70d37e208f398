-- ===== src/Seating/Candidates/Feasible.antt =====
-- app/services/seating.py, `feasible_quantities`, against the rule that the program documents for a
-- free run of length L: the quantities {L} ∪ [1, L - 2].
use fast_api.Base.{
  ℕ, zero, suc, ◌+◌, ◌≡◌, refl, Bool, true, false, ◌||◌, ◌&&◌, leb, ◌==◌, if◌then◌else◌, List, [],
  ◌∷◌, All, Hash, hget, nat_eq, is_some, arith, Option-cases, inl, inr,
}
use fast_api.Floats.{FloatOps}
use fast_api.Exceptions.{ok}
use fast_api.Seating.Geometry.{Policy, BlockGeometry, Run}
use fast_api.Seating.Candidates.{
  candidates, end_cuts, mid_cuts, has_candidate, any_fits, feasible_from, feasible_quantities,
}

-- The documented rule, for a policy that cuts at the ends only.
abbrev pub serves : ℕ → ℕ → Run → Bool
serves min_run n run = leb 1 n && (n == run.length || leb (n + min_run) run.length)

abbrev pub some_run_serves : ℕ → ℕ → List Run → Bool
some_run_serves min_run n [] = false
some_run_serves min_run n (run ∷ runs) = serves min_run n run || some_run_serves min_run n runs

-- The numbers of `[n, n + count)` that some run serves, in order.
abbrev pub served_from : ℕ → ℕ → ℕ → List Run → List ℕ
served_from min_run n zero runs = []
served_from min_run n (suc count) runs =
    let rest = served_from min_run (n + 1) count runs in
    if some_run_serves min_run n runs then n ∷ rest else rest

-- Every block of the runs has its geometry.
abbrev pub IsMapped : {F : Type 0} → Hash ℕ (BlockGeometry F) → List Run → Type 0
IsMapped geometry = All (λ run. is_some (hget run.block_id geometry) ≡ true)

module _ {F : Type 0} ⦃fl : FloatOps F⦄ where
  has_candidate-serves :
      (run : Run) (n : ℕ) (geo : BlockGeometry F) (policy : Policy F)
      → policy.allow_mid_cut ≡ false
      → has_candidate run n geo policy ≡ serves policy.min_run n run
  unfolding candidates end_cuts mid_cuts
  has_candidate-serves run n geo policy shut_cut = ground arith

  any_fits-serves :
      (runs : List Run) (n : ℕ) (geometry : Hash ℕ (BlockGeometry F)) (policy : Policy F)
      → policy.allow_mid_cut ≡ false
      → IsMapped geometry runs
      → any_fits runs n geometry policy ≡ ok (some_run_serves policy.min_run n runs)
  unfolding any_fits
  any_fits-serves [] n geometry policy shut_cut mapped = refl
  any_fits-serves (run ∷ runs) n geometry policy shut_cut mapped =
      elim (Option-cases (hget run.block_id geometry)) [
        | inl missing ↦ ground arith
        | inr (geo, found) ↦ ground (
          arith,
          has_candidate-serves run n geo policy shut_cut,
          any_fits-serves runs n geometry policy shut_cut mapped.1,
        )
      ]

  feasible_from-served :
      (count n : ℕ) (runs : List Run) (geometry : Hash ℕ (BlockGeometry F)) (policy : Policy F)
      → policy.allow_mid_cut ≡ false
      → IsMapped geometry runs
      → feasible_from n count runs geometry policy ≡ ok (served_from policy.min_run n count runs)
  unfolding feasible_from
  feasible_from-served zero n runs geometry policy shut_cut mapped = refl
  feasible_from-served (suc count) n runs geometry policy shut_cut mapped = rw (
    any_fits-serves runs n geometry policy shut_cut mapped,
    feasible_from-served count (n + 1) runs geometry policy shut_cut mapped,
  )

  -- Where the policy does not cut in the middle and every run's block has a geometry, the
  -- quantities reported as feasible are, in order, those numbers from 1 to `max_order` that some
  -- run serves: the whole run, or a part that leaves at least `min_run` seats of it.
  pub feasible_quantities-served :
      (runs : List Run) (geometry : Hash ℕ (BlockGeometry F)) (max_order : ℕ) (policy : Policy F)
      → policy.allow_mid_cut ≡ false
      → IsMapped geometry runs
      → feasible_quantities runs geometry max_order policy
        ≡ ok (served_from policy.min_run 1 max_order runs)
  unfolding feasible_quantities
  feasible_quantities-served runs geometry max_order policy shut_cut mapped =
      feasible_from-served max_order 1 runs geometry policy shut_cut mapped
