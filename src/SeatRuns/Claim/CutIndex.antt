-- ===== src/SeatRuns/Claim/CutIndex.antt =====
-- app/services/seat_runs.py, `_CLAIM_SEATS_LUA`, step 3: the reverse index under `cut_ends`.
use fast_api.Base.{
  ℕ, ◌+◌, ◌-◌, ◌≤◌, ◌<◌, ◌≡◌, ◌&&◌, none, some, Hash, hget, hset, hdel, hget-hdel, hget-hset, Field,
  field_eq, arith, if◌then◌else◌, ltb,
}
use fast_api.SeatRuns.Claim.{field, cut_runs, cut_ends}
use fast_api.SeatRuns.Index.{IsIndex, IsZone}
use fast_api.SeatRuns.Index.Entries.{entries-Apart}

module _ (block run_start run_length start length : ℕ) where
  abbrev left : ℕ
  left = start - run_start

  abbrev right : ℕ
  right = run_start + run_length - (start + length)

  -- A field of `runs` after the cut.
  hget-cut_runs :
      (b s : ℕ) (h : Hash Field ℕ)
      → hget (field b s) (cut_runs block run_start run_length start length h) ≡ (
          if ltb 0 right && field_eq.beq (field b s) (field block (start + length))
          then some right
          else if field_eq.beq (field b s) (field block run_start)
          then (if ltb 0 left then some left else none)
          else hget (field b s) h)
  unfolding cut_runs
  hget-cut_runs b s h =
      let removed = hdel (field block run_start) h in
      ground (
        arith,
        hget-hset (field b s) (field block (start + length)) right
            (if ltb 0 left then hset (field block run_start) left removed else removed),
        hget-hset (field b s) (field block run_start) left removed,
        hget-hdel (field b s) (field block run_start) h,
      )

  -- A field of `ends` after the cut.
  hget-cut_ends :
      (b e : ℕ) (h : Hash Field ℕ)
      → hget (field b e) (cut_ends block run_start run_length start length h) ≡ (
          if ltb 0 right && field_eq.beq (field b e) (field block (run_start + run_length))
          then some (start + length)
          else if ltb 0 left && field_eq.beq (field b e) (field block start)
          then some run_start
          else if field_eq.beq (field b e) (field block (run_start + run_length))
          then none
          else hget (field b e) h)
  unfolding cut_ends
  hget-cut_ends b e h =
      let removed = hdel (field block (run_start + run_length)) h in
      ground (
        arith,
        hget-hset (field b e) (field block (run_start + run_length)) (start + length)
            (if ltb 0 left then hset (field block start) run_start removed else removed),
        hget-hset (field b e) (field block start) run_start removed,
        hget-hdel (field b e) (field block (run_start + run_length)) h,
      )

  module _ (below : run_start ≤ start) (above : start + length ≤ run_start + run_length)
      (full : 0 < length) (runs ends : Hash Field ℕ) (zone : IsZone runs ends)
      (host : hget (field block run_start) runs ≡ some run_length) where
    cut-forward :
        (b s l : ℕ)
        → hget (field b s) (cut_runs block run_start run_length start length runs) ≡ some l
        → hget (field b (s + l)) (cut_ends block run_start run_length start length ends) ≡ some s
    cut-forward b s l e = rw (hget-cut_ends b (s + l) ends) (
        let e' = rw (hget-cut_runs b s runs) at e in
        ground (
          arith,
          zone.indexed.forward b s l,
          entries-Apart block run_start run_length b s l runs zone.maximal host,
        ))

    cut-backward :
        (b e s : ℕ)
        → hget (field b e) (cut_ends block run_start run_length start length ends) ≡ some s
        → (s ≤ e)
          × (hget (field b s) (cut_runs block run_start run_length start length runs)
              ≡ some (e - s))
    cut-backward b e s found = rw (hget-cut_runs b s runs) (
        let found' = rw (hget-cut_ends b e ends) at found in
        ground (
          arith,
          zone.indexed.backward b e s,
          entries-Apart block run_start run_length b s (e - s) runs zone.maximal host,
        ))

    pub cut-IsIndex :
        IsIndex
          (cut_runs block run_start run_length start length runs)
          (cut_ends block run_start run_length start length ends)
    cut-IsIndex = record { forward = cut-forward; backward = cut-backward }
