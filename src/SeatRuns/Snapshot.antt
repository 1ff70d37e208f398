-- ===== src/SeatRuns/Snapshot.antt =====
-- app/services/seat_runs.py, `ZoneState` and `_parse_state`: what one atomic read of a zone yields.
use fast_api.Base.{ℕ, ◌+◌, List, [], ◌∷◌, Hash, Field}
use fast_api.Floats.{FloatOps}
use fast_api.Exceptions.{Result, ok, ◌>>=◌}
use fast_api.Seating.Geometry.{Run, BlockGeometry, calibrated}
use fast_api.Redis.{Redis, PackedGeometry}

pub record ZoneState (F : Type 0) : Type 0 where
  pub runs : List Run
  pub geometry : Hash ℕ (BlockGeometry F)

-- The property `ZoneState.remaining`
abbrev pub remaining : List Run → ℕ
remaining [] = 0
remaining (run ∷ runs) = run.length + remaining runs

abbrev pub run_at : ℕ → ℕ → ℕ → Run
run_at block start length = record { block_id = block; start = start; length = length }

-- `Run(int(block_id), int(start), int(length))` for each field
abbrev pub runs_of : Hash Field ℕ → List Run
runs_of [] = []
runs_of ((at, length) ∷ h) = run_at at.block at.pos length ∷ runs_of h

module _ {F : Type 0} ⦃fl : FloatOps F⦄ where
  unfoldable pub geometry_of : Hash ℕ (PackedGeometry F) → Result (Hash ℕ (BlockGeometry F))
  geometry_of [] = ok []
  geometry_of ((block_id, packed) ∷ raw) = do
    geo ← calibrated block_id packed.capacity packed.quality_base packed.quality_edge
    rest ← geometry_of raw
    ok ((block_id, geo) ∷ rest)

  unfoldable pub parse_state : Hash Field ℕ → Hash ℕ (PackedGeometry F) → Result (ZoneState F)
  unfolding geometry_of
  parse_state raw_runs raw_geom = do
    geometry ← geometry_of raw_geom
    ok (record { runs = runs_of raw_runs; geometry = geometry })

  unfoldable pub read_zone_state : Redis F → ℕ → ℕ → Result (ZoneState F)
  unfolding parse_state
  read_zone_state r event_id zone_id =
      parse_state (r.zone event_id zone_id).runs (r.zone event_id zone_id).geom
