-- ===== src/Seating/Runs/Canonical.antt =====
-- app/services/seating.py, `sorted(out, key=...)`: maximal free runs in order are determined by the
-- seats that they leave free.
use fast_api.Base.{
  ℕ, ◌+◌, ◌<◌, ◌≤◌, ◌≡◌, refl, sym, ◌∙◌, ◌⊎◌, inl, inr, true, false, List, [], ◌∷◌, All, All-mono,
  arith, Bool-cases, subst,
}
use fast_api.Seating.Geometry.{Run}
use fast_api.Seating.Runs.{precedes, insert_run, sort_runs}
use fast_api.Seating.Runs.Free.{
  free, Apart, IsRuns, Apart-symm, All-sort_runs, All-insert_run, free-sort_runs,
}

-- `r` ends before `s` starts, with a seat between them where they share a block.
abbrev pub Before : Run → Run → Type 0
Before r s =
    (r.block_id < s.block_id) ⊎ ((r.block_id ≡ s.block_id) × (r.start + r.length < s.start))

abbrev pub IsChain : List Run → Type 0
IsChain [] = Unit
IsChain (r ∷ rs) = (0 < r.length) × All (Before r) rs × IsChain rs

Before-trans : (r s t : Run) → Before r s → Before s t → Before r t
Before-trans r s t h k = ground arith

precedes-Before : (r s : Run) → Apart r s → precedes r s ≡ true → Before r s
unfolding precedes
precedes-Before r s a h = ground arith

follows-Before :
    (r s : Run) → Apart r s → precedes s r ≡ false → 0 < r.length → 0 < s.length → Before r s
unfolding precedes
follows-Before r s a h p q = ground arith

insert_run-IsChain :
    (r : Run) (rs : List Run)
    → 0 < r.length
    → All (Apart r) rs
    → IsChain rs
    → IsChain (insert_run r rs)
unfolding insert_run
insert_run-IsChain r [] p a c = (p, tt, tt)
insert_run-IsChain r (s ∷ rs) p a c = elim (Bool-cases (precedes s r)) [
  | inl first ↦ rw first (
    c.0,
    All-insert_run (Before s) r rs (precedes-Before s r (Apart-symm r s a.0) first) c.1,
    insert_run-IsChain r rs p a.1 c.2,
  )
  | inr later ↦
      let next = follows-Before r s a.0 later p c.0 in
      rw later
        (p, (next, All-mono (Before s) (Before r) rs (λ t h. Before-trans r s t next h) c.1), c)
]

pub sort_runs-IsChain : (rs : List Run) → IsRuns rs → IsChain (sort_runs rs)
unfolding sort_runs
sort_runs-IsChain [] h = tt
sort_runs-IsChain (r ∷ rs) h =
    insert_run-IsChain r (sort_runs rs) h.0 (All-sort_runs (Apart r) rs h.1)
      (sort_runs-IsChain rs h.2)

-- A free seat of the runs behind `r` lies behind `r`.
free-Before :
    (r : Run) (rs : List Run) (block seat : ℕ)
    → All (Before r) rs
    → free rs block seat ≡ true
    → (r.block_id < block) ⊎ ((r.block_id ≡ block) × (r.start + r.length < seat))
free-Before r [] block seat b h = cc
free-Before r (s ∷ rs) block seat b h = ground (arith, free-Before r rs block seat b.1)

-- The first free seat, and the first occupied one behind it.
chain-first :
    (r : Run) (rs : List Run) (block seat : ℕ)
    → IsChain (r ∷ rs)
    → free (r ∷ rs) block seat ≡ true
    → (r.block_id < block) ⊎ ((r.block_id ≡ block) × (r.start ≤ seat))
chain-first r rs block seat c h = ground (arith, free-Before r rs block seat c.1)

chain-gap :
    (r : Run) (rs : List Run)
    → IsChain (r ∷ rs)
    → free (r ∷ rs) r.block_id (r.start + r.length) ≡ false
chain-gap r rs c = ground (arith, free-Before r rs r.block_id (r.start + r.length) c.1)

chain-starts :
    (r : Run) (rs : List Run) → IsChain (r ∷ rs) → free (r ∷ rs) r.block_id r.start ≡ true
chain-starts r rs c = ground arith

-- Runs that leave the same seats free.
abbrev pub SameSeats : List Run → List Run → Type 0
SameSeats rs ss = (block seat : ℕ) → free rs block seat ≡ free ss block seat

same-first :
    (r s : Run) (rs ss : List Run)
    → IsChain (r ∷ rs)
    → IsChain (s ∷ ss)
    → SameSeats (r ∷ rs) (s ∷ ss)
    → (r.block_id ≡ s.block_id) × (r.start ≡ s.start)
same-first r s rs ss c d e =
    let p = chain-first r rs s.block_id s.start c (e s.block_id s.start ∙ chain-starts s ss d) in
    let q =
      chain-first s ss r.block_id r.start d (sym (e r.block_id r.start) ∙ chain-starts r rs c) in
    ground arith

same-end :
    (r s : Run) (rs ss : List Run)
    → IsChain (r ∷ rs)
    → IsChain (s ∷ ss)
    → r.block_id ≡ s.block_id
    → r.start ≡ s.start
    → SameSeats (r ∷ rs) (s ∷ ss)
    → s.length ≤ r.length
same-end r s rs ss c d b i e =
    let gap = sym (e r.block_id (r.start + r.length)) ∙ chain-gap r rs c in ground arith

same-rest :
    (r : Run) (rs ss : List Run)
    → IsChain (r ∷ rs)
    → IsChain (r ∷ ss)
    → SameSeats (r ∷ rs) (r ∷ ss)
    → SameSeats rs ss
same-rest r rs ss c d e block seat =
    let h = e block seat in
    ground (arith, free-Before r rs block seat c.1, free-Before r ss block seat d.1)

chain_unique : (rs ss : List Run) → IsChain rs → IsChain ss → SameSeats rs ss → rs ≡ ss
chain_unique [] [] c d e = refl
chain_unique [] (s ∷ ss) c d e = let h = e s.block_id s.start ∙ chain-starts s ss d in ground arith
chain_unique (r ∷ rs) [] c d e =
    let h = sym (e r.block_id r.start) ∙ chain-starts r rs c in ground arith
chain_unique (r ∷ rs) (s ∷ ss) c d e =
    let (b, i) = same-first r s rs ss c d e in
    let le = same-end r s rs ss c d b i e in
    let ge = same-end s r ss rs d c (sym b) (sym i) (λ block seat. sym (e block seat)) in
    let same : r ≡ s = ground arith in
    let d' = subst (λ (k : Run). IsChain (k ∷ ss)) (sym same) d in
    let e' = subst (λ (k : Run). SameSeats (r ∷ rs) (k ∷ ss)) (sym same) e in
    let rest = chain_unique rs ss c.2 d.2 (same-rest r rs ss c d' e') in cc (same, rest)

-- Maximal free runs that leave the same seats free are the same once sorted.
pub sort_runs-canonical :
    (rs ss : List Run) → IsRuns rs → IsRuns ss → SameSeats rs ss → sort_runs rs ≡ sort_runs ss
sort_runs-canonical rs ss h k e =
    chain_unique (sort_runs rs) (sort_runs ss) (sort_runs-IsChain rs h) (sort_runs-IsChain ss k)
      (λ block seat.
        free-sort_runs rs block seat ∙ e block seat ∙ sym (free-sort_runs ss block seat))

-- A sorted list of maximal runs is the only one that leaves its seats free.
pub sort_runs_unique :
    (rs ss : List Run)
    → IsRuns rs
    → IsRuns ss
    → SameSeats (sort_runs rs) ss
    → sort_runs rs ≡ sort_runs ss
sort_runs_unique rs ss h k e =
    sort_runs-canonical rs ss h k (λ block seat. sym (free-sort_runs rs block seat) ∙ e block seat)
