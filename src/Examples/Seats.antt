-- ===== src/Examples/Seats.antt =====
-- The theorems on seats, at the example zone.
use fast_api.Base.{
  ℕ, ◌≡◌, refl, ◌↔◌, true, false, some, List, [], ◌∷◌, All, Hash, nat_eq, field_eq, arith,
  get_elem?,
}
use fast_api.Base.Int.{ℤ, pos, ◌+ℤ◌, ◌-ℤ◌}
use fast_api.Exceptions.{ok, ◌>>=◌}
use fast_api.Redis.{Marker}
use fast_api.Seating.Geometry.{
  BlockGeometry, Run, Placement, normal_policy, mid_lo, cut_cost, window_quality, seat_quality,
  center_of, phi, ideal_start,
}
use fast_api.Seating.Candidates.{
  candidates, has_candidate, feasible_quantities, end_cuts, mid_cuts, placement_at, clamp,
}
use fast_api.Seating.Candidates.Legal.{IsLegal, Fits, candidates-IsLegal, has_candidate_iff}
use fast_api.Seating.Candidates.Feasible.{served_from, feasible_quantities-served}
use fast_api.Seating.Choice.{allocate, legal_anchors, all_candidates, sorted, insert, sorts_before}
use fast_api.Seating.Choice.First.{first, allocate-legal_anchors}
use fast_api.Seating.Runs.{occupy, release}
use fast_api.Seating.Runs.Occupy.{Occupied, occupy-Occupied}
use fast_api.Seating.Runs.Release.{Released, release-Released}
use fast_api.SeatRuns.Index.{IsConsistent}
use fast_api.SeatRuns.Claim.{Args, claim_seats}
use fast_api.SeatRuns.Claim.Script.{Claimed, claim_seats-Claimed}
use fast_api.SeatRuns.Release.{release_script, Args as ReleaseArgs}
use fast_api.SeatRuns.Release.Script.{release_script-Released, Released as ScriptReleased}
use fast_api.SeatRuns.Reserve.{World, Request, claim_anchor}
use fast_api.SeatRuns.Reserve.Anchors.{is_misplaced, claim_anchor-inside}
use fast_api.Examples.{whole, whole-IsOrdered, open_zone, redis}

abbrev pub claim_args : Args
claim_args = record {
  event_id = 5;
  zone_id = 2;
  block = 1;
  run_start = 0;
  run_length = 10;
  start = 4;
  length = 2;
  user_id = 8;
  total_price_cents = 500;
  idempotency_key = 77;
  limit = 4;
}

abbrev pub release_args : ReleaseArgs
release_args = record {
  event_id = 5;
  zone_id = 2;
  user_id = 8;
  block = 1;
  start = 10;
  length = 2;
  marker = Marker.order 1;
}

abbrev runs : List Run
runs =
    (record { block_id = 1; start = 0; length = 3 })
    ∷ (record { block_id = 1; start = 5; length = 4 })
    ∷ []

abbrev placement : Placement ℤ
placement = record { block_id = 1; start = 5; length = 2; score = pos 7 }

abbrev geometry : BlockGeometry ℤ
geometry = record { block_id = 1; capacity = 12; base = pos 100; decay = pos 5 }

abbrev mapped : Hash ℕ (BlockGeometry ℤ)
mapped = (1, geometry) ∷ []

pub open_zone-IsConsistent : IsConsistent open_zone
open_zone-IsConsistent = record {
  zone = record {
    maximal = (omega arith, tt, tt);
    indexed = record {
      forward = λ block start length h. ground arith;
      backward = λ block end start h. ground arith;
    };
  };
  counted = refl;
}

claim_seats-Claimed_example :
    Claimed claim_args redis (claim_seats 3 claim_args redis).0 (claim_seats 3 claim_args redis).1
claim_seats-Claimed_example =
    claim_seats-Claimed 3 claim_args redis open_zone-IsConsistent (omega arith)

release_script-Released_example :
    ScriptReleased release_args redis
      (release_script release_args redis).0
      (release_script release_args redis).1
release_script-Released_example =
    release_script-Released release_args redis open_zone-IsConsistent (omega arith)

occupy-Occupied_example : Occupied runs placement (occupy runs placement)
occupy-Occupied_example =
    occupy-Occupied runs placement (omega arith, (ground arith, tt), (omega arith, tt, tt))
      (omega arith)

release-Released_example : Released runs 1 3 2 (some 12) (release runs 1 3 2 (some 12))
release-Released_example =
    release-Released runs 1 3 2 (some 12) (omega arith, (ground arith, tt), (omega arith, tt, tt))

abbrev run : Run
run = record { block_id = 1; start = 0; length = 10 }

candidates-IsLegal_example :
    All (IsLegal run 2 normal_policy) (candidates run 2 geometry normal_policy)
candidates-IsLegal_example = candidates-IsLegal run 2 geometry normal_policy

has_candidate_iff_example :
    (has_candidate run 2 geometry normal_policy ≡ true) ↔ Fits {F = ℤ} normal_policy 2 10
has_candidate_iff_example = has_candidate_iff run 2 geometry normal_policy

feasible_quantities-served_example :
    feasible_quantities runs mapped 4 normal_policy ≡ ok (served_from 2 1 4 runs)
feasible_quantities-served_example =
    feasible_quantities-served runs mapped 4 normal_policy refl (refl, (refl, tt))

allocate-legal_anchors_example :
    allocate runs 2 mapped normal_policy
    ≡ (legal_anchors runs 2 mapped normal_policy >>= λ anchors. ok (first anchors))
allocate-legal_anchors_example = allocate-legal_anchors whole-IsOrdered runs 2 mapped normal_policy

-- Another client takes nothing; the first anchor is chosen.
abbrev world : World ℤ
world = record {
  randrange = λ attempt n. 0;
  randrange-lt = λ attempt n h. h;
  stream_id = λ attempt. 3;
  before_read = λ attempt r. r;
  before_claim = λ attempt r. r;
}

abbrev request : Request
request = record {
  event_id = 5;
  zone_id = 2;
  user_id = 8;
  quantity = 4;
  total_price_cents = 500;
  idempotency_key = 77;
  top_k = 16;
  max_per_user = 6;
  max_purchasable = 6;
}

abbrev anchors : List (Placement ℤ)
anchors = (record { block_id = 1; start = 5; length = 4; score = pos 365 }) ∷ []

runs-anchors : legal_anchors runs 4 mapped normal_policy ≡ ok anchors
unfolding legal_anchors all_candidates sorted insert sorts_before candidates end_cuts mid_cuts
    placement_at cut_cost window_quality seat_quality center_of phi mid_lo clamp ideal_start ◌+ℤ◌
    ◌-ℤ◌
runs-anchors = refl

claim_anchor-inside_example :
    is_misplaced (claim_anchor world request normal_policy 1 runs (get_elem? anchors 0) redis).0
    ≡ false
claim_anchor-inside_example =
    claim_anchor-inside world request normal_policy 1 runs 4 mapped anchors 0 redis runs-anchors
      (omega arith)
