-- ===== src/SeatRuns/Release.antt =====
-- app/services/seat_runs.py, `_RELEASE_SEATS_LUA` and `release_seats`: give an interval back, merge
-- it with the runs that touch it, and return the buyer's quota, at most once for a marker.
pub mod Merging
pub mod Script
pub mod Once
use fast_api.Base.{
  ℕ, ◌+◌, ◌-◌, Bool, true, false, ◌&&◌, ltb, ◌==◌, if◌then◌else◌, Option, none, some, List, [], ◌∷◌,
  Hash, hget, hset, hdel, nat_eq, Field, field_eq,
}
use fast_api.Base.Int.{ℤ, pos, ◌+ℤ◌, ◌-ℤ◌, ltb_ℤ, leb_ℤ}
use fast_api.Exceptions.{
  Result, err, seat_release_overlap, out_of_block_bounds, intersects_a_free_run,
}
use fast_api.Redis.{
  Redis, ZoneKeys, EventKeys, PackedGeometry, Marker, incrby, at, at_zone, at_marker,
}
use fast_api.SeatRuns.Claim.{field}

pub record Args : Type 0 where
  pub event_id : ℕ
  pub zone_id : ℕ
  pub user_id : ℕ
  pub block : ℕ
  pub start : ℕ
  pub length : ℕ
  pub marker : Marker

pub data Reply : Type 0 where
  dup : Reply
  oob : ℕ → Reply
  overlap : ℕ → ℕ → Reply
  ok : ℕ → ℕ → ℤ → Reply

-- Step 2b, over `HGETALL`: the first free run of the block that shares a seat with `[lo, hi)`.
unfoldable pub overlapping : ℕ → ℕ → ℕ → Hash Field ℕ → Option (ℕ × ℕ)
overlapping block lo hi [] = none
overlapping block lo hi ((at, length) ∷ runs) =
    let rest = overlapping block lo hi runs in
    if (at.block == block) && (ltb at.pos hi && ltb lo (at.pos + length))
    then some (at.pos, length)
    else rest

-- The interval and the two hashes between the steps of the merge.
pub record Merge : Type 0 where
  pub lo : ℕ
  pub hi : ℕ
  pub runs : Hash Field ℕ
  pub ends : Hash Field ℕ

-- The left neighbour ends where the interval starts.
unfoldable pub merge_left : ℕ → Merge → Merge
merge_left block m = elim (hget (field block m.lo) m.ends) [
  | none ↦ m
  | some left_start ↦ record m {
    lo = left_start;
    runs = hdel (field block left_start) m.runs;
    ends = hdel (field block m.lo) m.ends;
  }
]

-- The right neighbour starts where the interval ends.
unfoldable pub merge_right : ℕ → Merge → Merge
merge_right block m = elim (hget (field block m.hi) m.runs) [
  | none ↦ m
  | some right_length ↦ record m {
    hi = m.hi + right_length;
    runs = hdel (field block m.hi) m.runs;
    ends = hdel (field block (m.hi + right_length)) m.ends;
  }
]

unfoldable pub merge : ℕ → Merge → Merge
unfolding merge_left merge_right
merge block m =
    let n = merge_right block (merge_left block m) in
    record n {
      runs = hset (field block n.lo) (n.hi - n.lo) n.runs;
      ends = hset (field block n.hi) n.lo n.ends;
    }

-- `HINCRBY` by the negative quantity, and `HDEL` where nothing is left.
unfoldable pub return_quota : ℕ → ℕ → Hash ℕ ℤ → Hash ℕ ℤ
return_quota user_id quantity purchased =
    let left = incrby (hget user_id purchased) (pos 0 -ℤ pos quantity) in
    if leb_ℤ left (pos 0) then hdel user_id purchased else hset user_id left purchased

module _ {F : Type 0} where
  abbrev pub beyond : Option (PackedGeometry F) → ℕ → Option ℕ
  beyond none hi = none
  beyond (some g) hi = if ltb g.capacity hi then some g.capacity else none

  -- Steps 3 on.
  unfoldable pub give_back : Args → Redis F → Reply × Redis F
  unfolding merge return_quota
  give_back a r =
      let z = r.zone a.event_id a.zone_id in
      let e = r.event a.event_id in
      let m =
        merge a.block
          (record { lo = a.start; hi = a.start + a.length; runs = z.runs; ends = z.ends }) in
      let zone_remaining = incrby z.available (pos a.length) in
      (
        ok m.lo (m.hi - m.lo) zone_remaining,
        record r {
          released = at_marker a.marker true r.released;
          zone =
              at_zone a.event_id a.zone_id
                (record z { runs = m.runs; ends = m.ends; available = some zone_remaining }) r.zone;
          event =
              at a.event_id
                (record e {
                  available = some (incrby e.available (pos a.length));
                  purchased = return_quota a.user_id a.length e.purchased;
                })
                r.event;
        },
      )

  -- The script. Positions are natural numbers, so `lo < 0` cannot be.
  unfoldable pub release_script : Args → Redis F → Reply × Redis F
  unfolding overlapping give_back
  release_script a r =
      let z = r.zone a.event_id a.zone_id in
      let hi = a.start + a.length in
      if r.released a.marker then (dup, r) else elim (beyond (hget a.block z.geom) hi) [
        | some capacity ↦ (oob capacity, r)
        | none ↦ elim (overlapping a.block a.start hi z.runs) [
          | some (run_lo, run_length) ↦ (overlap run_lo run_length, r)
          | none ↦ give_back a r
        ]
      ]

  -- `release_seats`: the reply as a result, and a poke where the zone comes back from sold out.
  after_release : Args → Reply → Redis F → Result Bool × Redis F
  after_release a dup r = (Result.ok false, r)
  after_release a (oob capacity) r = (
    err (seat_release_overlap a.event_id a.zone_id a.block a.start a.length out_of_block_bounds),
    r,
  )
  after_release a (overlap run_lo run_length) r = (
    err (seat_release_overlap a.event_id a.zone_id a.block a.start a.length intersects_a_free_run),
    r,
  )
  after_release a (ok lo length zone_remaining) r =
      let crossed =
        leb_ℤ (zone_remaining -ℤ pos a.length) (pos 0) && ltb_ℤ (pos 0) zone_remaining in
      (Result.ok true, if crossed then record r { pokes = a.event_id ∷ r.pokes } else r)

  pub release_seats : Args → Redis F → Result Bool × Redis F
  unfolding release_script after_release
  release_seats a r = let (reply, r') = release_script a r in after_release a reply r'
