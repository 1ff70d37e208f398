-- ===== src/Seating/Runs/Free.antt =====
-- The seats that a list of runs leaves free, and the lists that are exactly the maximal free
-- intervals: every run holds a seat, and two runs of a block have an occupied seat between them.
use fast_api.Base.{
  ℕ, ◌+◌, ◌<◌, ◌≡◌, refl, ◌≢◌, ◌⊎◌, Bool, false, ◌&&◌, ◌||◌, ltb, leb, ◌==◌, List, [], ◌∷◌, ◌++◌,
  All, arith, Bool-cases, inl, inr,
}
use fast_api.Seating.Geometry.{Run}
use fast_api.Seating.Runs.{precedes, insert_run, sort_runs}

abbrev pub inside : Run → ℕ → ℕ → Bool
inside r block seat = (r.block_id == block) && (leb r.start seat && ltb seat (r.start + r.length))

abbrev pub free : List Run → ℕ → ℕ → Bool
free [] block seat = false
free (r ∷ rs) block seat = inside r block seat || free rs block seat

abbrev pub Apart : Run → Run → Type 0
Apart r s =
    (r.block_id ≢ s.block_id) ⊎ (r.start + r.length < s.start) ⊎ (s.start + s.length < r.start)

abbrev pub IsRuns : List Run → Type 0
IsRuns [] = Unit
IsRuns (r ∷ rs) = (0 < r.length) × All (Apart r) rs × IsRuns rs

pub Apart-symm : (r s : Run) → Apart r s → Apart s r
Apart-symm r s h = ground arith

pub free-append :
    (rs ss : List Run) (block seat : ℕ)
    → free (rs ++ ss) block seat ≡ (free rs block seat || free ss block seat)
free-append [] ss block seat = refl
free-append (r ∷ rs) ss block seat = ground (arith, free-append rs ss block seat)

free-insert_run :
    (r : Run) (rs : List Run) (block seat : ℕ)
    → free (insert_run r rs) block seat ≡ (inside r block seat || free rs block seat)
unfolding insert_run
free-insert_run r [] block seat = refl
free-insert_run r (s ∷ rs) block seat = ground (arith, free-insert_run r rs block seat)

pub free-sort_runs :
    (rs : List Run) (block seat : ℕ) → free (sort_runs rs) block seat ≡ free rs block seat
unfolding sort_runs
free-sort_runs [] block seat = refl
free-sort_runs (r ∷ rs) block seat =
    rw (free-insert_run r (sort_runs rs) block seat, free-sort_runs rs block seat)

module _ (P : Run → Type 0) where
  pub All-insert_run : (r : Run) (rs : List Run) → P r → All P rs → All P (insert_run r rs)
  unfolding insert_run
  All-insert_run r [] p h = (p, tt)
  All-insert_run r (s ∷ rs) p h = elim (Bool-cases (precedes s r)) [
    | inl e ↦ rw e (h.0, All-insert_run r rs p h.1)
    | inr e ↦ rw e (p, h)
  ]

  pub All-sort_runs : (rs : List Run) → All P rs → All P (sort_runs rs)
  unfolding sort_runs
  All-sort_runs [] h = tt
  All-sort_runs (r ∷ rs) h = All-insert_run r (sort_runs rs) h.0 (All-sort_runs rs h.1)

insert_run-IsRuns :
    (r : Run) (rs : List Run)
    → 0 < r.length
    → All (Apart r) rs
    → IsRuns rs
    → IsRuns (insert_run r rs)
unfolding insert_run
insert_run-IsRuns r [] p a h = (p, tt, tt)
insert_run-IsRuns r (s ∷ rs) p a h = elim (Bool-cases (precedes s r)) [
  | inl e ↦ rw e (
    h.0,
    All-insert_run (Apart s) r rs (Apart-symm r s a.0) h.1,
    insert_run-IsRuns r rs p a.1 h.2,
  )
  | inr e ↦ rw e (p, a, h)
]

pub sort_runs-IsRuns : (rs : List Run) → IsRuns rs → IsRuns (sort_runs rs)
unfolding sort_runs
sort_runs-IsRuns [] h = tt
sort_runs-IsRuns (r ∷ rs) h =
    insert_run-IsRuns r (sort_runs rs) h.0 (All-sort_runs (Apart r) rs h.1)
      (sort_runs-IsRuns rs h.2)
