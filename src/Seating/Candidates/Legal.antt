-- ===== src/Seating/Candidates/Legal.antt =====
-- app/services/seating.py, `candidates`: what it yields, and when.
use fast_api.Base.{
  ℕ, ◌+◌, ◌-◌, ◌≤◌, ◌≡◌, refl, ◌⊎◌, inl, inr, ◌↔◌, true, All, All-append, arith, subst, Bool-cases,
  ◌&&◌, ◌||◌, leb, ltb,
}
use fast_api.Base.Int.{ℤ}
use fast_api.Floats.{FloatOps}
use fast_api.Seating.Geometry.{Policy, BlockGeometry, Run, Placement, mid_lo}
use fast_api.Seating.Candidates.{clamp, placement_at, end_cuts, mid_cuts, candidates, has_candidate}

-- A cut at an end leaves nothing on one side, and nothing or at least `min_run` on the other.
abbrev pub IsEndCut : {F : Type 0} → Policy F → ℕ → ℕ → Type 0
IsEndCut policy left right =
    ((left ≡ 0) × ((right ≡ 0) ⊎ (policy.min_run ≤ right)))
    ⊎ ((right ≡ 0) × (policy.min_run ≤ left))

-- A cut in the middle, where the policy allows one, leaves two seats and the guard on both sides.
abbrev pub IsMidCut : {F : Type 0} → Policy F → ℕ → ℕ → Type 0
IsMidCut policy left right =
    (policy.allow_mid_cut ≡ true)
    × (2 ≤ left)
    × (policy.mid_cut_guard ≤ left)
    × (2 ≤ right)
    × (policy.mid_cut_guard ≤ right)

-- The remainders that the policy allows on the two sides of a cut.
abbrev pub AreSellable : {F : Type 0} → Policy F → ℕ → ℕ → Type 0
AreSellable policy left right = IsEndCut policy left right ⊎ IsMidCut policy left right

-- The placement holds `quantity` seats of the run, with sellable remainders on the two sides.
abbrev pub IsLegal : {F : Type 0} → Run → ℕ → Policy F → Placement F → Type 0
IsLegal run quantity policy c =
    (c.block_id ≡ run.block_id)
    × (c.length ≡ quantity)
    × (run.start ≤ c.start)
    × (c.start + c.length ≤ run.start + run.length)
    × AreSellable policy (c.start - run.start) (run.start + run.length - (c.start + c.length))

pub clamp_bounds :
    (ideal : ℤ) (lo hi : ℕ) → lo ≤ hi → (lo ≤ clamp ideal lo hi) × (clamp ideal lo hi ≤ hi)
unfolding clamp
clamp_bounds ideal lo hi h = ground arith

module _ {F : Type 0} ⦃fl : FloatOps F⦄ where
  placement_at-IsLegal :
      (run : Run) (offset quantity : ℕ) (geo : BlockGeometry F) (policy : Policy F)
      → offset + quantity ≤ run.length
      → AreSellable policy offset (run.length - quantity - offset)
      → IsLegal run quantity policy (placement_at run offset quantity geo policy)
  unfolding placement_at
  placement_at-IsLegal run offset quantity geo policy fits sellable = (
    refl,
    refl,
    omega arith,
    omega arith,
    subst
        (λ (n : ℕ). AreSellable policy n (run.start + run.length - (run.start + offset + quantity)))
        (omega arith) (subst (AreSellable policy offset) (omega arith) sellable),
  )

  mid_cut-IsLegal :
      (run : Run) (quantity : ℕ) (geo : BlockGeometry F) (policy : Policy F) (ideal : ℤ)
      → quantity ≤ run.length
      → policy.allow_mid_cut ≡ true
      → mid_lo policy + mid_lo policy ≤ run.length - quantity
      → IsLegal run quantity policy (
          placement_at run
            (clamp ideal (mid_lo policy) (run.length - quantity - mid_lo policy))
            quantity
            geo
            policy)
  unfolding mid_lo
  mid_cut-IsLegal run quantity geo policy ideal fits allowed wide =
      let lo = mid_lo policy in
      let tail = run.length - quantity in
      let (above, below) = clamp_bounds ideal lo (tail - lo) (omega arith) in
      placement_at-IsLegal run (clamp ideal lo (tail - lo)) quantity geo policy (omega arith)
        (inr (allowed, omega arith, omega arith, omega arith, omega arith))

  end_cuts-IsLegal :
      (run : Run) (quantity : ℕ) (geo : BlockGeometry F) (policy : Policy F)
      → quantity ≤ run.length
      → All (IsLegal run quantity policy) (end_cuts run (run.length - quantity) quantity geo policy)
  unfolding end_cuts
  end_cuts-IsLegal run quantity geo policy fits = ground (
    arith,
    placement_at-IsLegal run 0 quantity geo policy,
    placement_at-IsLegal run (run.length - quantity) quantity geo policy,
  )

  mid_cuts-IsLegal :
      (run : Run) (quantity : ℕ) (geo : BlockGeometry F) (policy : Policy F)
      → quantity ≤ run.length
      → All (IsLegal run quantity policy) (mid_cuts run (run.length - quantity) quantity geo policy)
  unfolding mid_cuts
  mid_cuts-IsLegal run quantity geo policy fits =
      elim (Bool-cases
        (policy.allow_mid_cut && leb (mid_lo policy + mid_lo policy) (run.length - quantity))) [
          | inl open_cut ↦
              rw open_cut
                (mid_cut-IsLegal run quantity geo policy _ fits (ground arith) (ground arith), tt)
          | inr shut_cut ↦ rw shut_cut tt
        ]

  -- Every candidate lies in the run, has the quantity asked for, and is one of two kinds of cut: at
  -- an end, it leaves nothing on one side, and nothing or at least `min_run` seats on the other; in
  -- the middle, which the policy must allow, it leaves at least two and at least `mid_cut_guard`
  -- seats on both.
  pub candidates-IsLegal :
      (run : Run) (quantity : ℕ) (geo : BlockGeometry F) (policy : Policy F)
      → All (IsLegal run quantity policy) (candidates run quantity geo policy)
  unfolding candidates
  candidates-IsLegal run quantity geo policy =
      elim (Bool-cases (ltb quantity 1 || ltb run.length quantity)) [
        | inl refused ↦ rw refused tt
        | inr open_case ↦ rw open_case (
            All-append (IsLegal run quantity policy) _ _
              (end_cuts-IsLegal run quantity geo policy (ground arith))
              (mid_cuts-IsLegal run quantity geo policy (ground arith)))
      ]

  -- When `candidates` yields anything: an exact fit, a wide enough remainder, or room for a cut in
  -- the middle where the policy allows one.
  abbrev pub Fits : Policy F → ℕ → ℕ → Type 0
  Fits policy quantity run_length =
      (1 ≤ quantity)
      × (quantity ≤ run_length)
      × ((quantity ≡ run_length)
          ⊎ (policy.min_run + quantity ≤ run_length)
          ⊎ ((policy.allow_mid_cut ≡ true)
              × (mid_lo policy + mid_lo policy + quantity ≤ run_length)))

  -- A run has a candidate exactly when the quantity fits it.
  pub has_candidate_iff :
      (run : Run) (quantity : ℕ) (geo : BlockGeometry F) (policy : Policy F)
      → (has_candidate run quantity geo policy ≡ true) ↔ Fits policy quantity run.length
  unfolding candidates end_cuts mid_cuts
  has_candidate_iff run quantity geo policy = (λ h. ground arith, λ h. ground arith)
