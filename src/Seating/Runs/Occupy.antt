-- ===== src/Seating/Runs/Occupy.antt =====
-- app/services/seating.py, `occupy`: the free seats before and after.
use fast_api.Base.{
  ℕ, ◌+◌, ◌-◌, ◌≤◌, ◌<◌, ◌≡◌, refl, Bool, true, false, ◌&&◌, not, ltb, leb, ◌==◌, List, [], ◌∷◌,
  ◌++◌, All, All-append, arith, Bool-cases, inl, inr, ◌∙◌,
}
use fast_api.Exceptions.{Result, ok, err, value_error, ok_injective}
use fast_api.Seating.Geometry.{Run, Placement}
use fast_api.Seating.Runs.{sort_runs, contains, remainders, occupy_loop, occupy}
use fast_api.Seating.Runs.Free.{
  inside, free, Apart, IsRuns, free-append, free-sort_runs, sort_runs-IsRuns,
}

-- The seat lies in the interval `[start, start + length)` of the block.
abbrev pub in_interval : ℕ → ℕ → ℕ → ℕ → ℕ → Bool
in_interval block_id start length block seat =
    (block_id == block) && (leb start seat && ltb seat (start + length))

-- A part of a run is apart from all that the run is apart from.
pub part-Apart :
    (run part : Run) (rs : List Run)
    → part.block_id ≡ run.block_id
    → run.start ≤ part.start
    → part.start + part.length ≤ run.start + run.length
    → All (Apart run) rs
    → All (Apart part) rs
part-Apart run part [] same left right h = tt
part-Apart run part (s ∷ rs) same left right h =
    (ground arith, part-Apart run part rs same left right h.1)

module _ (block_id start length : ℕ) (taken : 0 < length) where
  remainders-Apart :
      (s run : Run)
      → Apart s run
      → contains run block_id start length ≡ true
      → All (Apart s) (remainders run start length)
  unfolding contains remainders
  remainders-Apart s run a c = ground arith

  remainders-IsRuns :
      (run : Run) (rs : List Run)
      → contains run block_id start length ≡ true
      → All (Apart run) rs
      → IsRuns rs
      → IsRuns (remainders run start length ++ rs)
  unfolding contains remainders
  remainders-IsRuns run rs c a h =
      let left : Run = record {
        block_id = run.block_id;
        start = run.start;
        length = start - run.start;
      } in
      let right : Run = record {
        block_id = run.block_id;
        start = start + length;
        length = run.start + run.length - (start + length);
      } in
      ground (arith, part-Apart run left rs, part-Apart run right rs)

  free-remainders :
      (run : Run) (block seat : ℕ)
      → contains run block_id start length ≡ true
      → free (remainders run start length) block seat
        ≡ (inside run block seat && not (in_interval block_id start length block seat))
  unfolding contains remainders
  free-remainders run block seat c = ground arith

  -- A run apart from the host holds no seat of the interval.
  not_hosted :
      (run : Run) (rs : List Run)
      → contains run block_id start length ≡ true
      → All (Apart run) rs
      → occupy_loop rs block_id start length ≡ (rs, false)
  unfolding contains occupy_loop
  not_hosted run [] c a = refl
  not_hosted run (s ∷ rs) c a = ground (arith, not_hosted run rs c a.1)

  Apart-free :
      (run : Run) (rs : List Run) (block seat : ℕ)
      → contains run block_id start length ≡ true
      → All (Apart run) rs
      → in_interval block_id start length block seat ≡ true
      → free rs block seat ≡ false
  unfolding contains
  Apart-free run [] block seat c a i = refl
  Apart-free run (s ∷ rs) block seat c a i = ground (arith, Apart-free run rs block seat c a.1 i)

  hosted-Apart :
      (run : Run) (rs : List Run) (block seat : ℕ)
      → (occupy_loop rs block_id start length).1 ≡ true
      → All (Apart run) rs
      → in_interval block_id start length block seat ≡ true
      → inside run block seat ≡ false
  unfolding occupy_loop contains
  hosted-Apart run [] block seat c a i = cc
  hosted-Apart run (s ∷ rs) block seat c a i = ground (arith, hosted-Apart run rs block seat)

  occupy_loop-Apart :
      (s : Run) (rs : List Run)
      → All (Apart s) rs
      → All (Apart s) (occupy_loop rs block_id start length).0
  unfolding occupy_loop
  occupy_loop-Apart s [] a = tt
  occupy_loop-Apart s (run ∷ rs) a = elim (Bool-cases (contains run block_id start length)) [
    | inl c ↦ rw c (
        All-append (Apart s) (remainders run start length) _ (remainders-Apart s run a.0 c)
          (occupy_loop-Apart s rs a.1))
    | inr c ↦ rw c (a.0, occupy_loop-Apart s rs a.1)
  ]

  occupy_loop-IsRuns : (rs : List Run) → IsRuns rs → IsRuns (occupy_loop rs block_id start length).0
  unfolding occupy_loop
  occupy_loop-IsRuns [] h = tt
  occupy_loop-IsRuns (run ∷ rs) h = elim (Bool-cases (contains run block_id start length)) [
    | inl c ↦ rw (c, not_hosted run rs c h.1, occupy_loop) (remainders-IsRuns run rs c h.1 h.2)
    | inr c ↦ rw c (h.0, occupy_loop-Apart run rs h.1, occupy_loop-IsRuns rs h.2)
  ]

  free-occupy_loop :
      (rs : List Run) (block seat : ℕ)
      → IsRuns rs
      → (occupy_loop rs block_id start length).1 ≡ true
      → free (occupy_loop rs block_id start length).0 block seat
        ≡ (free rs block seat && not (in_interval block_id start length block seat))
  unfolding occupy_loop
  free-occupy_loop [] block seat h hosted = cc
  free-occupy_loop (run ∷ rs) block seat h hosted =
      elim (Bool-cases (contains run block_id start length)) [
        | inl c ↦
            rw (c, not_hosted run rs c h.1, free-append)
              (ground (arith, free-remainders run block seat c, Apart-free run rs block seat c h.1))
        | inr c ↦ rw c (
            ground (
              arith,
              free-occupy_loop rs block seat h.2 (rw (c, occupy_loop) at hosted),
              hosted-Apart run rs block seat (rw (c, occupy_loop) at hosted) h.1,
            ))
      ]

  hosted_free :
      (rs : List Run) (block seat : ℕ)
      → (occupy_loop rs block_id start length).1 ≡ true
      → in_interval block_id start length block seat ≡ true
      → free rs block seat ≡ true
  unfolding occupy_loop contains
  hosted_free [] block seat hosted i = cc
  hosted_free (run ∷ rs) block seat hosted i = ground (arith, hosted_free rs block seat)

  unhosted :
      (rs : List Run)
      → (occupy_loop rs block_id start length).1 ≡ false
      → All (λ run. contains run block_id start length ≡ false) rs
  unfolding occupy_loop
  unhosted [] none_hosts = tt
  unhosted (run ∷ rs) none_hosts = ground (arith, unhosted rs)

-- What `occupy` owes: on success the seats were free, they are no longer, no other seat changes,
-- and the runs are again the maximal ones; it fails exactly when no run holds the interval.
abbrev pub Occupied : {F : Type 0} → List Run → Placement F → Result (List Run) → Type 0
Occupied runs p (ok out) =
    IsRuns out
    × ((block seat : ℕ)
        → free out block seat
          ≡ (free runs block seat && not (in_interval p.block_id p.start p.length block seat)))
    × ((block seat : ℕ)
        → in_interval p.block_id p.start p.length block seat ≡ true
        → free runs block seat ≡ true)
Occupied runs p (err e) =
    (e ≡ value_error) × All (λ run. contains run p.block_id p.start p.length ≡ false) runs

module _ {F : Type 0} where
  -- On maximal free runs, and for a placement of at least one seat, `occupy` either takes exactly
  -- the placement's seats, all of them free before, and leaves maximal free runs, or raises
  -- `ValueError` because no run holds the placement.
  pub occupy-Occupied :
      (runs : List Run) (p : Placement F)
      → IsRuns runs
      → 0 < p.length
      → Occupied runs p (occupy runs p)
  unfolding occupy
  occupy-Occupied runs p h taken =
      elim (Bool-cases (occupy_loop runs p.block_id p.start p.length).1) [
        | inl hosted ↦ rw hosted (
          sort_runs-IsRuns _ (occupy_loop-IsRuns p.block_id p.start p.length taken runs h),
          λ block seat.
              free-sort_runs _ block seat
              ∙ free-occupy_loop p.block_id p.start p.length taken runs block seat h hosted,
          λ block seat. hosted_free p.block_id p.start p.length taken runs block seat hosted,
        )
        | inr none_hosts ↦
            rw none_hosts (refl, unhosted p.block_id p.start p.length taken runs none_hosts)
      ]

  -- What `occupy` returns is sorted.
  pub occupy-sorted :
      (runs : List Run) (p : Placement F) (out : List Run)
      → IsRuns runs
      → 0 < p.length
      → occupy runs p ≡ ok out
      → (rs : List Run) × IsRuns rs × (sort_runs rs ≡ out)
  unfolding occupy
  occupy-sorted runs p out h full e =
      elim (Bool-cases (occupy_loop runs p.block_id p.start p.length).1) [
        | inl hosted ↦ (
          (occupy_loop runs p.block_id p.start p.length).0,
          occupy_loop-IsRuns p.block_id p.start p.length full runs h,
          ok_injective _ out (rw hosted at e),
        )
        | inr none_hosts ↦ let e' = rw none_hosts at e in cc
      ]
