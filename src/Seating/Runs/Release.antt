-- ===== src/Seating/Runs/Release.antt =====
-- app/services/seating.py, `release`: the free seats before and after.
use Prim.Native.Nat.{min, max}
use fast_api.Base.{
  ℕ, ◌+◌, ◌-◌, ◌<◌, ◌≡◌, refl, Bool, true, false, ◌&&◌, ◌||◌, ltb, ◌==◌, Option, List, [], ◌∷◌, All,
  arith, Bool-cases, inl, inr, ◌∙◌, ◌⊎◌, zero, suc,
}
use fast_api.Exceptions.{Result, ok, err, value_error, ok_injective, ◌>>=◌}
use fast_api.Seating.Geometry.{Run}
use fast_api.Seating.Runs.{release_loop, release, sort_runs, exceeds}
use fast_api.Seating.Runs.Free.{free, Apart, IsRuns, free-sort_runs, sort_runs-IsRuns}
use fast_api.Seating.Runs.Occupy.{in_interval}

-- Some run shares a seat with `[lo, hi)` of the block.
abbrev pub hits : List Run → ℕ → ℕ → ℕ → Bool
hits [] block_id lo hi = false
hits (run ∷ runs) block_id lo hi =
    ((run.block_id == block_id) && (ltb run.start hi && ltb lo (run.start + run.length)))
    || hits runs block_id lo hi

abbrev OnOk : (List Run → Type 0) → Result (List Run) → Type 0
OnOk P (ok out) = P out
OnOk P (err e) = Unit

abbrev seats : ℕ → ℕ → ℕ → Run
seats block_id lo hi = record { block_id = block_id; start = lo; length = hi - lo }

-- The run touches the interval and does not meet it.
abbrev Touches : Run → ℕ → ℕ → Type 0
Touches run lo hi = (run.start + run.length ≡ lo) ⊎ (run.start ≡ hi)

-- Growing the interval by a run that touches it meets no further run.
hits-grow :
    (run : Run) (rs : List Run) (lo hi : ℕ)
    → lo < hi
    → 0 < run.length
    → Touches run lo hi
    → All (Apart run) rs
    → IsRuns rs
    → hits rs run.block_id (min lo run.start) (max hi (run.start + run.length))
      ≡ hits rs run.block_id lo hi
hits-grow run [] lo hi full p t a h = refl
hits-grow run (s ∷ rs) lo hi full p t a h = ground (arith, hits-grow run rs lo hi full p t a.1 h.2)

release_loop-Apart :
    (s : Run) (rs : List Run) (block_id lo hi : ℕ)
    → lo < hi
    → 0 < s.length
    → Apart s (seats block_id lo hi)
    → All (Apart s) rs
    → IsRuns rs
    → OnOk (All (Apart s)) (release_loop rs block_id lo hi)
unfolding release_loop
release_loop-Apart s [] block_id lo hi full p a b h = (a, tt)
release_loop-Apart s (run ∷ rs) block_id lo hi full p a b h = ground (
  arith,
  release_loop-Apart s rs block_id lo hi full p a b.1 h.2,
  release_loop-Apart s rs block_id (min lo run.start) (max hi (run.start + run.length)),
)

-- What `release` owes, by how it ends: the interval is free besides what was, on maximal runs, and
-- it met no free seat; or it met one.
abbrev Merged : List Run → ℕ → ℕ → ℕ → Result (List Run) → Type 0
Merged runs block_id lo hi (ok out) =
    IsRuns out
    × ((block seat : ℕ)
        → free out block seat
          ≡ (free runs block seat || in_interval block_id lo (hi - lo) block seat))
    × (hits runs block_id lo hi ≡ false)
Merged runs block_id lo hi (err e) = (e ≡ value_error) × (hits runs block_id lo hi ≡ true)

-- A run that is kept: it neither meets nor touches the interval.
keep-Merged :
    (run : Run) (rs : List Run) (block_id lo hi : ℕ) (r : Result (List Run))
    → 0 < run.length
    → lo < hi
    → Apart run (seats block_id lo hi)
    → OnOk (All (Apart run)) r
    → Merged rs block_id lo hi r
    → Merged (run ∷ rs) block_id lo hi (r >>= λ out. ok (run ∷ out))
keep-Merged run rs block_id lo hi (ok out) p full a b m =
    ((p, b, m.0), λ block seat. ground (arith, m.1 block seat), ground arith)
keep-Merged run rs block_id lo hi (err e) p full a b m = ground arith

-- A run that is absorbed: it touches the interval.
absorb-Merged :
    (run : Run) (rs : List Run) (lo hi : ℕ) (r : Result (List Run))
    → 0 < run.length
    → lo < hi
    → Touches run lo hi
    → hits rs run.block_id (min lo run.start) (max hi (run.start + run.length))
      ≡ hits rs run.block_id lo hi
    → Merged rs run.block_id (min lo run.start) (max hi (run.start + run.length)) r
    → Merged (run ∷ rs) run.block_id lo hi r
absorb-Merged run rs lo hi (ok out) p full t same m =
    (m.0, λ block seat. ground (arith, m.1 block seat), ground arith)
absorb-Merged run rs lo hi (err e) p full t same m = ground arith

release_loop-Merged :
    (rs : List Run) (block_id lo hi : ℕ)
    → lo < hi
    → IsRuns rs
    → Merged rs block_id lo hi (release_loop rs block_id lo hi)
unfolding release_loop
release_loop-Merged [] block_id lo hi full h =
    ((omega arith, tt, tt), λ block seat. ground arith, refl)
release_loop-Merged (run ∷ rs) block_id lo hi full h =
    let end = run.start + run.length in
    let kept = λ (a : Apart run (seats block_id lo hi)).
      keep-Merged run rs block_id lo hi (release_loop rs block_id lo hi) h.0 full a
        (release_loop-Apart run rs block_id lo hi full h.0 a h.1 h.2)
        (release_loop-Merged rs block_id lo hi full h.2) in
    elim (Bool-cases (run.block_id == block_id)) [
      | inr other ↦ rw other (kept (ground arith))
      | inl same ↦ elim (Bool-cases (ltb end lo || ltb hi run.start)) [
        | inl away ↦ rw (same, away) (kept (ground arith))
        | inr near ↦ elim (Bool-cases (ltb run.start hi && ltb lo end)) [
          | inl meets ↦ rw (same, near, meets) (ground arith)
          | inr touches ↦
              rw (same, near, touches)
                (let e : block_id ≡ run.block_id = ground arith in
                  rw e (
                    absorb-Merged run rs lo hi _ h.0 full (ground arith)
                      (hits-grow run rs lo hi full h.0 (ground arith) h.1 h.2)
                      (release_loop-Merged rs run.block_id (min lo run.start) (max hi end)
                        (omega arith) h.2)))
        ]
      ]
    ]

-- What `release` owes: the seats come back and nothing else changes, on maximal runs; or the call
-- is refused, for no seat, for seats outside the block, or because one of them was free already.
abbrev pub Released : List Run → ℕ → ℕ → ℕ → Option ℕ → Result (List Run) → Type 0
Released runs block_id start length capacity (ok out) =
    Merged runs block_id start (start + length) (ok out)
    × (0 < length)
    × (exceeds capacity (start + length) ≡ false)
Released runs block_id start length capacity (err e) =
    (e ≡ value_error)
    × ((length ≡ 0)
        ⊎ (exceeds capacity (start + length) ≡ true)
        ⊎ (hits runs block_id start (start + length) ≡ true))

sort-Merged :
    (runs : List Run) (block_id lo hi : ℕ) (r : Result (List Run))
    → Merged runs block_id lo hi r
    → Merged runs block_id lo hi (r >>= λ out. ok (sort_runs out))
sort-Merged runs block_id lo hi (ok out) m =
    (sort_runs-IsRuns out m.0, λ block seat. free-sort_runs out block seat ∙ m.1 block seat, m.2)
sort-Merged runs block_id lo hi (err e) m = m

released :
    (runs : List Run) (block_id start length : ℕ) (capacity : Option ℕ) (r : Result (List Run))
    → 0 < length
    → exceeds capacity (start + length) ≡ false
    → Merged runs block_id start (start + length) r
    → Released runs block_id start length capacity r
released runs block_id start length capacity (ok out) full fits m = (m, full, fits)
released runs block_id start length capacity (err e) full fits m = ground arith

-- On maximal free runs `release` either frees exactly the interval, of at least one seat, inside
-- the block and all occupied before, and leaves maximal free runs, or raises `ValueError` because
-- the interval is empty, leaves the block, or meets a free run.
pub release-Released :
    (runs : List Run) (block_id start length : ℕ) (capacity : Option ℕ)
    → IsRuns runs
    → Released runs block_id start length capacity (release runs block_id start length capacity)
unfolding release
release-Released runs block_id start zero capacity h = (refl, inl refl)
release-Released runs block_id start (suc n) capacity h =
    let seated : ltb (suc n) 1 ≡ false = ground arith in
    elim (Bool-cases (exceeds capacity (start + suc n))) [
      | inl beyond ↦ rw (seated, beyond) (refl, inr (inl beyond))
      | inr fits ↦
          rw (seated, fits)
            (released runs block_id start (suc n) capacity _ (omega arith) fits (
              sort-Merged runs block_id start (start + suc n) _
                (release_loop-Merged runs block_id start (start + suc n) (omega arith) h)))
    ]

sorted_ok :
    (runs : List Run) (block_id lo hi : ℕ) (r : Result (List Run)) (out : List Run)
    → Merged runs block_id lo hi r
    → (r >>= λ rs. ok (sort_runs rs)) ≡ ok out
    → (rs : List Run) × IsRuns rs × (sort_runs rs ≡ out)
sorted_ok runs block_id lo hi (ok rs) out m e = (rs, m.0, ok_injective (sort_runs rs) out e)
sorted_ok runs block_id lo hi (err f) out m e = cc

-- What `release` returns is sorted.
pub release-sorted :
    (runs : List Run) (block_id start length : ℕ) (capacity : Option ℕ) (out : List Run)
    → IsRuns runs
    → release runs block_id start length capacity ≡ ok out
    → (rs : List Run) × IsRuns rs × (sort_runs rs ≡ out)
unfolding release
release-sorted runs block_id start zero capacity out h e = cc
release-sorted runs block_id start (suc n) capacity out h e =
    let seated : ltb (suc n) 1 ≡ false = ground arith in
    elim (Bool-cases (exceeds capacity (start + suc n))) [
      | inl beyond ↦ let e' = rw (seated, beyond) at e in cc
      | inr fits ↦
          sorted_ok runs block_id start (start + suc n) _ out
            (release_loop-Merged runs block_id start (start + suc n) (omega arith) h)
            (rw (seated, fits) at e)
    ]
