-- ===== src/Seating/Geometry.antt =====
-- app/services/seating.py, `Policy`, `BlockGeometry`, `Run`, `Placement` and `cut_cost`: what a
-- placement is scored by. The operations of `float` are those of `FloatOps`.
use Prim.Native.Nat.{max}
use fast_api.Base.{ℕ, zero, suc, ◌+◌, Bool, false, ◌||◌, not, ltb, ◌==◌, if◌then◌else◌}
use fast_api.Base.Int.{ℤ, pos, ◌-ℤ◌}
use fast_api.Floats.{FloatOps}
use fast_api.Exceptions.{Result, ok, value_error, ◌>>◌, raise_if}

pub record Policy (F : Type 0) : Type 0 where
  pub min_run : ℕ
  pub allow_mid_cut : Bool
  pub mid_cut_guard : ℕ
  pub orphan_value : F
  pub fragmentation_weight : F

pub record BlockGeometry (F : Type 0) : Type 0 where
  pub block_id : ℕ
  pub capacity : ℕ
  pub base : F
  pub decay : F

-- A maximal free interval `[start, start + length)` of a block.
pub record Run : Type 0 where
  pub block_id : ℕ
  pub start : ℕ
  pub length : ℕ

pub record Placement (F : Type 0) : Type 0 where
  pub block_id : ℕ
  pub start : ℕ
  pub length : ℕ
  pub score : F

-- `Policy.mid_lo`: each side of a middle cut keeps at least this many seats.
unfoldable pub mid_lo : {F : Type 0} → Policy F → ℕ
mid_lo policy = max 2 policy.mid_cut_guard

module _ {F : Type 0} ⦃fl : FloatOps F⦄ where
  abbrev pub int : ℕ → F
  int n = fl.of_int (pos n)

  -- `a <= b`
  at_most : F → F → Bool
  at_most a b = fl.lt a b || fl.eq a b

  -- `Policy.__post_init__`
  unfoldable pub check_policy : Policy F → Result (Policy F)
  unfolding at_most
  check_policy p = do
    raise_if (ltb p.min_run 1) value_error
    raise_if (ltb p.mid_cut_guard 1) value_error
    raise_if (not (at_most (int 0) p.orphan_value)) value_error
    raise_if (not (at_most p.orphan_value (int 1))) value_error
    raise_if (fl.lt p.fragmentation_weight (int 0)) value_error
    ok p

  abbrev pub normal_policy : Policy F
  normal_policy = record {
    min_run = 2;
    allow_mid_cut = false;
    mid_cut_guard = 4;
    orphan_value = fl.literal 3 10;
    fragmentation_weight = fl.literal 15 10;
  }

  abbrev pub endgame_policy : Policy F
  endgame_policy = record normal_policy { min_run = 1 }

  -- `Policy.phi`
  unfoldable pub phi : Policy F → ℕ → F
  phi p length = if length == 0 then int 0 else if length == 1 then p.orphan_value else int length

  -- `BlockGeometry.__post_init__`
  unfoldable pub check_geometry : BlockGeometry F → Result (BlockGeometry F)
  check_geometry g = do
    raise_if (ltb g.capacity 1) value_error
    raise_if (fl.lt g.decay (int 0)) value_error
    ok g

  -- `(capacity - 1) / 2.0`
  unfoldable pub center_of : ℕ → F
  center_of capacity = fl.div (fl.of_int (pos capacity -ℤ pos 1)) (int 2)

  -- `BlockGeometry.calibrated`
  unfoldable pub calibrated : ℕ → ℕ → F → F → Result (BlockGeometry F)
  unfolding check_geometry center_of
  calibrated block_id capacity base edge =
      let center = center_of capacity in
      let nearest = fl.fraction center in
      let span = fl.sub center nearest in
      let decay = if fl.eq span (int 0) then int 0 else fl.div (fl.sub base edge) span in
      check_geometry (record {
        block_id = block_id;
        capacity = capacity;
        base = fl.add base (fl.mul decay nearest);
        decay = decay;
      })

  unfoldable pub seat_quality : BlockGeometry F → ℕ → F
  unfolding center_of
  seat_quality g at =
      fl.sub g.base (fl.mul g.decay (fl.abs (fl.sub (int at) (center_of g.capacity))))

  -- The sum over `range(at, at + n)`, added to `total`.
  quality_from : BlockGeometry F → F → ℕ → ℕ → F
  unfolding seat_quality
  quality_from g total at zero = total
  quality_from g total at (suc n) = quality_from g (fl.add total (seat_quality g at)) (at + 1) n

  unfoldable pub window_quality : BlockGeometry F → ℕ → ℕ → F
  unfolding quality_from
  window_quality g start length = quality_from g (int 0) start length

  unfoldable pub ideal_start : BlockGeometry F → ℕ → ℤ
  unfolding center_of
  ideal_start g length =
      fl.round (fl.sub (center_of g.capacity) (fl.div (fl.of_int (pos length -ℤ pos 1)) (int 2)))

  -- `cut_cost`, of the run's length, the two remainders and the seats taken
  unfoldable pub cut_cost : Policy F → ℕ → ℕ → ℕ → ℕ → F
  unfolding phi
  cut_cost p run_length left right taken =
      fl.sub (fl.sub (fl.sub (phi p run_length) (phi p left)) (phi p right)) (int taken)
