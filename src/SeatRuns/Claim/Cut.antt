-- ===== src/SeatRuns/Claim/Cut.antt =====
-- app/services/seat_runs.py, `_CLAIM_SEATS_LUA`, step 3: the runs of a zone under `cut_runs`.
use fast_api.Base.{
  ℕ, ◌+◌, ◌-◌, ◌≤◌, ◌<◌, ◌≡◌, refl, true, false, ◌||◌, ◌&&◌, not, List, [], ◌∷◌, All, Hash, hset,
  hdel, ap, ◌∙◌, nat_eq, Field, field_eq, arith, if◌then◌else◌, Bool-cases, inl, inr, ltb,
}
use fast_api.Seating.Geometry.{Run}
use fast_api.Seating.Runs.Free.{inside, free, Apart, IsRuns}
use fast_api.Seating.Runs.Occupy.{in_interval, part-Apart}
use fast_api.SeatRuns.Claim.{field, cut_runs}
use fast_api.SeatRuns.Snapshot.{run_at, runs_of, remaining}
use fast_api.SeatRuns.Index.Entries.{Entry, hset_new}

-- A run put in front of a hash, unless it holds no seat.
abbrev with_run : ℕ → ℕ → ℕ → Hash Field ℕ → Hash Field ℕ
with_run block start length h = if ltb 0 length then (field block start, length) ∷ h else h

set_run :
    (block start length : ℕ) (h : Hash Field ℕ)
    → All (Apart (run_at block start length)) (runs_of h)
    → (if ltb 0 length then hset (field block start) length h else h)
      ≡ with_run block start length h
set_run block start length h a = elim (Bool-cases (ltb 0 length)) [
  | inl some_seats ↦ rw some_seats (hset_new block start length h a)
  | inr no_seats ↦ rw no_seats
]

with_run-All :
    (P : Run → Type 0) (block start length : ℕ) (h : Hash Field ℕ)
    → (0 < length → P (run_at block start length))
    → All P (runs_of h)
    → All P (runs_of (with_run block start length h))
with_run-All P block start length h p a = elim (Bool-cases (ltb 0 length)) [
  | inl some_seats ↦ rw some_seats (p (ground arith), a)
  | inr no_seats ↦ rw no_seats a
]

with_run-IsRuns :
    (block start length : ℕ) (h : Hash Field ℕ)
    → All (Apart (run_at block start length)) (runs_of h)
    → IsRuns (runs_of h)
    → IsRuns (runs_of (with_run block start length h))
with_run-IsRuns block start length h a w = elim (Bool-cases (ltb 0 length)) [
  | inl some_seats ↦ rw some_seats (ground arith, a, w)
  | inr no_seats ↦ rw no_seats w
]

free-with_run :
    (block start length : ℕ) (h : Hash Field ℕ) (b seat : ℕ)
    → free (runs_of (with_run block start length h)) b seat
      ≡ (inside (run_at block start length) b seat || free (runs_of h) b seat)
free-with_run block start length h b seat = ground arith

-- `[start, start + length)` is cut out of the run `[run_start, run_start + run_length)`.
module _ (block run_start run_length start length : ℕ) (below : run_start ≤ start)
    (above : start + length ≤ run_start + run_length) (full : 0 < length) (h : Hash Field ℕ)
    (host : Entry block run_start run_length h) where
  abbrev rest : Hash Field ℕ
  rest = hdel (field block run_start) h

  abbrev left : ℕ
  left = start - run_start

  abbrev right : ℕ
  right = run_start + run_length - (start + length)

  left-Apart : All (Apart (run_at block run_start left)) (runs_of rest)
  left-Apart =
      part-Apart (run_at block run_start run_length) (run_at block run_start left) (runs_of rest)
        refl (omega arith) (omega arith) host.rest_apart

  right-Apart :
      All
        (Apart (run_at block (start + length) right))
        (runs_of (with_run block run_start left rest))
  right-Apart =
      with_run-All (Apart (run_at block (start + length) right)) block run_start left rest
        (λ some_seats. omega arith)
        (part-Apart (run_at block run_start run_length) (run_at block (start + length) right)
          (runs_of rest) refl (omega arith) (omega arith) host.rest_apart)

  cut_runs-parts :
      cut_runs block run_start run_length start length h
      ≡ with_run block (start + length) right (with_run block run_start left rest)
  unfolding cut_runs
  cut_runs-parts =
      ap
        (λ (t : Hash Field ℕ).
          if ltb 0 right then hset (field block (start + length)) right t else t)
        (set_run block run_start left rest left-Apart)
      ∙ set_run block (start + length) right (with_run block run_start left rest) right-Apart

  -- After the cut the runs are maximal.
  pub cut_runs-IsRuns : IsRuns (runs_of (cut_runs block run_start run_length start length h))
  cut_runs-IsRuns = rw cut_runs-parts (
      with_run-IsRuns block (start + length) right _ right-Apart
        (with_run-IsRuns block run_start left rest left-Apart host.rest_runs))

  -- A seat apart from the run is not in the cut.
  pub Apart-seat :
      (rs : List Run) (b seat : ℕ)
      → All (Apart (run_at block run_start run_length)) rs
      → in_interval block start length b seat ≡ true
      → free rs b seat ≡ false
  Apart-seat [] b seat a i = refl
  Apart-seat (r ∷ rs) b seat a i = ground (arith, Apart-seat rs b seat a.1 i)

  -- The cut takes exactly its seats.
  pub free-cut_runs :
      (b seat : ℕ)
      → free (runs_of (cut_runs block run_start run_length start length h)) b seat
        ≡ (free (runs_of h) b seat && not (in_interval block start length b seat))
  free-cut_runs b seat = rw cut_runs-parts (
      ground (
        arith,
        free-with_run block (start + length) right (with_run block run_start left rest) b seat,
        free-with_run block run_start left rest b seat,
        host.parts b seat,
        Apart-seat (runs_of rest) b seat host.rest_apart,
      ))

  -- And it takes as many.
  pub remaining-cut_runs :
      remaining (runs_of (cut_runs block run_start run_length start length h)) + length
      ≡ remaining (runs_of h)
  remaining-cut_runs = rw (cut_runs-parts, host.counted) (ground arith)
