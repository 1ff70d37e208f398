-- ===== src/SeatRuns/Index.antt =====
-- The two hashes of a zone. `runs` lists the maximal free runs; `ends` is their reverse index.
pub mod Entries
pub mod Update
use fast_api.Base.{ℕ, ◌+◌, ◌-◌, ◌≤◌, ◌≡◌, some, Hash, hget, nat_eq, Field, field_eq}
use fast_api.Seating.Runs.Free.{IsRuns}
use fast_api.SeatRuns.Claim.{field}
use fast_api.Base.Int.{pos}
use fast_api.Redis.{ZoneKeys}
use fast_api.SeatRuns.Snapshot.{runs_of, remaining}

-- Each run is found by its end, and each end leads to a run.
pub record IsIndex (runs : Hash Field ℕ) (ends : Hash Field ℕ) : Type 0 where
  pub forward :
      (block start length : ℕ)
      → hget (field block start) runs ≡ some length
      → hget (field block (start + length)) ends ≡ some start
  pub backward :
      (block end start : ℕ)
      → hget (field block end) ends ≡ some start
      → (start ≤ end) × (hget (field block start) runs ≡ some (end - start))

pub record IsZone (runs : Hash Field ℕ) (ends : Hash Field ℕ) : Type 0 where
  pub maximal : IsRuns (runs_of runs)
  pub indexed : IsIndex runs ends

-- The keys of a zone agree: the runs are maximal and indexed, and the counter counts their seats.
pub record IsConsistent {F : Type 0} (z : ZoneKeys F) : Type 0 where
  pub zone : IsZone z.runs z.ends
  pub counted : z.available ≡ some (pos (remaining (runs_of z.runs)))
