-- ===== src/Examples/Oracle.antt =====
-- The theorems that compare the scripts with the pure functions, at the example zone.
use fast_api.Base.{◌≡◌, refl, some, List, [], ◌∷◌, arith}
use fast_api.Base.Int.{ℤ, pos, ◌+ℤ◌, ◌-ℤ◌}
use fast_api.Exceptions.{ok}
use fast_api.Seating.Geometry.{Run, Placement}
use fast_api.Seating.Runs.{occupy, occupy_loop, contains, remainders, release, sort_runs, precedes}
use fast_api.Seating.Runs.Sorted.{occupy-release}
use fast_api.SeatRuns.Snapshot.{runs_of}
use fast_api.SeatRuns.Claim.{Reply, claim_seats, take_seats, cut_runs, cut_ends}
use fast_api.SeatRuns.Release.{release_script}
use fast_api.SeatRuns.Refines.{taken, claim_seats-occupy}
use fast_api.SeatRuns.Refines.Returns.{Agrees, release_script-Agrees}
use fast_api.Examples.{redis, open_zone}
use fast_api.Examples.Seats.{claim_args, release_args, open_zone-IsConsistent}

claimed_ok : (claim_seats 3 claim_args redis).0 ≡ Reply.ok 3 (pos 8)
unfolding claim_seats take_seats cut_runs cut_ends ◌+ℤ◌ ◌-ℤ◌
claimed_ok = refl

claim_seats-occupy_example :
    occupy (runs_of open_zone.runs) (taken claim_args (pos 7))
    ≡ ok (sort_runs (runs_of ((claim_seats 3 claim_args redis).1.zone 5 2).runs))
claim_seats-occupy_example =
    claim_seats-occupy 3 claim_args redis (pos 7) 3 (pos 8) open_zone-IsConsistent (omega arith)
      claimed_ok

release_script-Agrees_example :
    Agrees release_args redis
      (release_script release_args redis).0
      (release_script release_args redis).1
release_script-Agrees_example =
    release_script-Agrees release_args redis open_zone-IsConsistent (omega arith)

abbrev free_runs : List Run
free_runs =
    (record { block_id = 1; start = 0; length = 3 })
    ∷ (record { block_id = 1; start = 5; length = 4 })
    ∷ []

abbrev sold : Placement ℤ
sold = record { block_id = 1; start = 6; length = 2; score = pos 7 }

abbrev left_runs : List Run
left_runs =
    (record { block_id = 1; start = 0; length = 3 })
    ∷ (record { block_id = 1; start = 5; length = 1 })
    ∷ (record { block_id = 1; start = 8; length = 1 })
    ∷ []

sold_ok : occupy free_runs sold ≡ ok left_runs
unfolding occupy occupy_loop contains remainders sort_runs precedes
sold_ok = refl

occupy-release_example : release left_runs 1 6 2 (some 12) ≡ ok (sort_runs free_runs)
occupy-release_example =
    occupy-release free_runs sold (some 12) left_runs
      (omega arith, (ground arith, tt), (omega arith, tt, tt)) (omega arith) refl sold_ok
