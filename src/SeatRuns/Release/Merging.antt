-- ===== src/SeatRuns/Release/Merging.antt =====
-- app/services/seat_runs.py, `_RELEASE_SEATS_LUA`: an interval merged with the runs that touch it.
use fast_api.Base.{
  ℕ, ◌+◌, ◌-◌, ◌≤◌, ◌<◌, ◌≡◌, subst, sym, ap, ◌∙◌, ◌≢◌, ◌⊎◌, ◌||◌, none, List, [], ◌∷◌, All, Hash,
  hget, hset, hdel, Field, field_eq, arith, Option-cases, inl, inr,
}
use fast_api.Seating.Geometry.{Run}
use fast_api.Seating.Runs.Free.{inside, free, Apart}
use fast_api.Seating.Runs.Occupy.{in_interval}
use fast_api.SeatRuns.Snapshot.{run_at, runs_of, remaining}
use fast_api.SeatRuns.Claim.{field}
use fast_api.SeatRuns.Index.{IsZone}
use fast_api.SeatRuns.Index.Entries.{entry, All-hdel, hset_new}
use fast_api.SeatRuns.Index.Update.{All-entries, remove-IsZone, add-IsZone}
use fast_api.SeatRuns.Release.{Merge, overlapping, merge_left, merge_right, merge}

-- The run shares no seat with the interval; it does not touch its left end; nor either end.
abbrev pub Clear : ℕ → ℕ → ℕ → Run → Type 0
Clear block lo hi r = (r.block_id ≢ block) ⊎ (r.start + r.length ≤ lo) ⊎ (hi ≤ r.start)

abbrev ClearLeft : ℕ → ℕ → ℕ → Run → Type 0
ClearLeft block lo hi r = (r.block_id ≢ block) ⊎ (r.start + r.length < lo) ⊎ (hi ≤ r.start)

pub overlapping-Clear :
    (block lo hi : ℕ) (runs : Hash Field ℕ)
    → overlapping block lo hi runs ≡ none
    → All (Clear block lo hi) (runs_of runs)
unfolding overlapping
overlapping-Clear block lo hi [] e = tt
overlapping-Clear block lo hi ((j, v) ∷ runs) e = ground (arith, overlapping-Clear block lo hi runs)

All-both :
    (P Q R : Run → Type 0) (rs : List Run)
    → ((r : Run) → P r → Q r → R r)
    → All P rs
    → All Q rs
    → All R rs
All-both P Q R [] f p q = tt
All-both P Q R (r ∷ rs) f p q = (f r p.0 q.0, All-both P Q R rs f p.1 q.1)

-- The progress of a merge that began with `[lo, hi)` on the runs `before`.
record Holds (block lo hi : ℕ) (before : Hash Field ℕ) (m : Merge) : Type 0 where
  nonempty : m.lo < m.hi
  zone : IsZone m.runs m.ends
  seats :
      (b seat : ℕ)
      → (free (runs_of before) b seat || in_interval block lo (hi - lo) b seat)
        ≡ (inside (run_at block m.lo (m.hi - m.lo)) b seat || free (runs_of m.runs) b seat)
  counted : remaining (runs_of before) + (hi - lo) ≡ (m.hi - m.lo) + remaining (runs_of m.runs)

module _ (block lo hi : ℕ) (before : Hash Field ℕ) where
  left-Holds :
      (m : Merge)
      → Holds block lo hi before m
      → All (Clear block m.lo m.hi) (runs_of m.runs)
      → let n = merge_left block m in
        Holds block lo hi before n × All (ClearLeft block n.lo n.hi) (runs_of n.runs)
  unfolding merge_left
  left-Holds m h c = elim (Option-cases (hget (field block m.lo) m.ends)) [
    | inl nothing ↦
        rw (nothing, merge_left)
          (
            h,
            All-both (Clear block m.lo m.hi)
                (λ r. (r.block_id ≢ block) ⊎ (r.start + r.length ≢ m.lo))
                (ClearLeft block m.lo m.hi) (runs_of m.runs) (λ r p q. ground arith) c
                (All-entries _ m.runs h.zone.maximal
                  (λ b s l e. ground (arith, h.zone.indexed.forward b s l e))),
          )
    | inr (left_start, e) ↦
        let (ordered, here) = h.zone.indexed.backward block m.lo left_start e in
        let run = entry block left_start (m.lo - left_start) m.runs h.zone.maximal here in
        rw (e, merge_left)
          (
            record {
              nonempty = ground (arith, h.nonempty);
              zone =
                  subst
                    (λ k.
                      IsZone (hdel (field block left_start) m.runs) (hdel (field block k) m.ends))
                    (omega arith)
                    (remove-IsZone m.runs m.ends h.zone block left_start (m.lo - left_start) here);
              seats = λ b seat. ground (arith, h.seats b seat, run.parts b seat, h.nonempty);
              counted = omega (arith, h.counted, run.counted, h.nonempty);
            },
            All-both (Clear block m.lo m.hi) (Apart (run_at block left_start (m.lo - left_start)))
                (ClearLeft block left_start m.hi) (runs_of (hdel (field block left_start) m.runs))
                (λ r p q. ground arith) (All-hdel _ (field block left_start) m.runs c)
                run.rest_apart,
          )
  ]

  right-Holds :
      (m : Merge)
      → Holds block lo hi before m
      → All (ClearLeft block m.lo m.hi) (runs_of m.runs)
      → let n = merge_right block m in
        Holds block lo hi before n × All (Apart (run_at block n.lo (n.hi - n.lo))) (runs_of n.runs)
  unfolding merge_right
  right-Holds m h c = elim (Option-cases (hget (field block m.hi) m.runs)) [
    | inl nothing ↦
        rw (nothing, merge_right)
          (
            h,
            All-both (ClearLeft block m.lo m.hi) (λ r. (r.block_id ≢ block) ⊎ (r.start ≢ m.hi))
                (Apart (run_at block m.lo (m.hi - m.lo))) (runs_of m.runs)
                (λ r p q. ground (arith, h.nonempty)) c
                (All-entries _ m.runs h.zone.maximal (λ b s l e. ground arith)),
          )
    | inr (length, here) ↦
        let run = entry block m.hi length m.runs h.zone.maximal here in
        rw (here, merge_right)
          (
            record {
              nonempty = ground (arith, h.nonempty);
              zone = remove-IsZone m.runs m.ends h.zone block m.hi length here;
              seats = λ b seat. ground (arith, h.seats b seat, run.parts b seat, h.nonempty);
              counted = omega (arith, h.counted, run.counted, h.nonempty);
            },
            All-both (ClearLeft block m.lo m.hi) (Apart (run_at block m.hi length))
                (Apart (run_at block m.lo (m.hi + length - m.lo)))
                (runs_of (hdel (field block m.hi) m.runs)) (λ r p q. ground (arith, h.nonempty))
                (All-hdel _ (field block m.hi) m.runs c) run.rest_apart,
          )
  ]

-- What a merge of `[lo, hi)` into a zone yields.
pub record IsMerged (block lo hi : ℕ) (before : Hash Field ℕ) (m : Merge) : Type 0 where
  pub zone : IsZone m.runs m.ends
  pub seats :
      (b seat : ℕ)
      → free (runs_of m.runs) b seat
        ≡ (free (runs_of before) b seat || in_interval block lo (hi - lo) b seat)
  pub counted : remaining (runs_of m.runs) ≡ remaining (runs_of before) + (hi - lo)

pub merge-IsMerged :
    (block lo hi : ℕ) (runs ends : Hash Field ℕ)
    → lo < hi
    → IsZone runs ends
    → overlapping block lo hi runs ≡ none
    → IsMerged block lo hi runs
        (merge block (record { lo = lo; hi = hi; runs = runs; ends = ends }))
unfolding merge
merge-IsMerged block lo hi runs ends full zone occupied =
    let m : Merge = record { lo = lo; hi = hi; runs = runs; ends = ends } in
    let start : Holds block lo hi runs m = record {
      nonempty = full;
      zone = zone;
      seats = λ b seat. ground arith;
      counted = omega arith;
    } in
    let (l, clear_left) =
      left-Holds block lo hi runs m start (overlapping-Clear block lo hi runs occupied) in
    let (n, apart) = right-Holds block lo hi runs (merge_left block m) l clear_left in
    let done = merge_right block (merge_left block m) in
    let new = hset_new block done.lo (done.hi - done.lo) done.runs apart in
    record {
      zone =
          subst
            (λ k.
              IsZone (hset (field block done.lo) (done.hi - done.lo) done.runs)
                (hset (field block k) done.lo done.ends))
            (omega (arith, n.nonempty))
            (add-IsZone done.runs done.ends n.zone block done.lo (done.hi - done.lo)
              (omega (arith, n.nonempty)) apart);
      seats =
          λ b seat. ap (λ (h : Hash Field ℕ). free (runs_of h) b seat) new ∙ sym (n.seats b seat);
      counted = ap (λ (h : Hash Field ℕ). remaining (runs_of h)) new ∙ sym n.counted;
    }
