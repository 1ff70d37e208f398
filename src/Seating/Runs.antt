-- ===== src/Seating/Runs.antt =====
-- app/services/seating.py, `occupy` and `release`: the free runs after a sale and after a return.
pub mod Free
pub mod Occupy
pub mod Release
pub mod Canonical
pub mod Sorted
use Prim.Native.Nat.{min, max}
use fast_api.Base.{
  ℕ, ◌+◌, ◌-◌, Bool, true, false, ◌&&◌, ◌||◌, ltb, leb, ◌==◌, if◌then◌else◌, Option, none, some,
  List, [], ◌∷◌, ◌++◌,
}
use fast_api.Exceptions.{Result, ok, err, value_error, ◌>>◌, ◌>>=◌, raise_if}
use fast_api.Seating.Geometry.{Run, Placement}

-- `key=lambda r: (r.block_id, r.start)`
unfoldable pub precedes : Run → Run → Bool
precedes r s = if r.block_id == s.block_id then ltb r.start s.start else ltb r.block_id s.block_id

pub insert_run : Run → List Run → List Run
unfolding precedes
insert_run r [] = r ∷ []
insert_run r (s ∷ rs) = if precedes s r then s ∷ insert_run r rs else r ∷ s ∷ rs

-- `sorted`, which is stable
unfoldable pub sort_runs : List Run → List Run
unfolding insert_run
sort_runs [] = []
sort_runs (r ∷ rs) = insert_run r (sort_runs rs)

-- The run holds the whole interval `[start, start + length)` of the block.
unfoldable pub contains : Run → ℕ → ℕ → ℕ → Bool
contains run block_id start length =
    (run.block_id == block_id)
    && (leb run.start start && leb (start + length) (run.start + run.length))

-- What is left of a run on either side of `[start, start + length)`.
unfoldable pub remainders : Run → ℕ → ℕ → List Run
remainders run start length =
    let end = start + length in
    (if ltb run.start start
      then record { block_id = run.block_id; start = run.start; length = start - run.start } ∷ []
      else [])
    ++ (if ltb end (run.start + run.length)
        then record { block_id = run.block_id; start = end; length = run.start + run.length - end }
          ∷ []
        else [])

-- The loop of `occupy`: the runs, and whether a host was met.
unfoldable pub occupy_loop : List Run → ℕ → ℕ → ℕ → List Run × Bool
unfolding contains remainders
occupy_loop [] block_id start length = ([], false)
occupy_loop (run ∷ runs) block_id start length =
    let (out, hosted) = occupy_loop runs block_id start length in
    if contains run block_id start length
    then (remainders run start length ++ out, true)
    else (run ∷ out, hosted)

unfoldable pub occupy : {F : Type 0} → List Run → Placement F → Result (List Run)
unfolding occupy_loop sort_runs
occupy runs p =
    let (out, hosted) = occupy_loop runs p.block_id p.start p.length in
    if hosted then ok (sort_runs out) else err value_error

-- The loop of `release`: `[lo, hi)` grows by the runs that touch it.
unfoldable pub release_loop : List Run → ℕ → ℕ → ℕ → Result (List Run)
release_loop [] block_id lo hi =
    ok (record { block_id = block_id; start = lo; length = hi - lo } ∷ [])
release_loop (run ∷ runs) block_id lo hi =
    let end = run.start + run.length in
    let keep : Result (List Run) = (release_loop runs block_id lo hi >>= λ out. ok (run ∷ out)) in
    let absorb = release_loop runs block_id (min lo run.start) (max hi end) in
    if run.block_id == block_id
    then (if ltb end lo || ltb hi run.start
        then keep
        else if ltb run.start hi && ltb lo end
        then err value_error
        else absorb)
    else keep

abbrev pub exceeds : Option ℕ → ℕ → Bool
exceeds none hi = false
exceeds (some capacity) hi = ltb capacity hi

-- `start < 0` cannot be: positions are natural numbers here.
unfoldable pub release : List Run → ℕ → ℕ → ℕ → Option ℕ → Result (List Run)
unfolding release_loop sort_runs
release runs block_id start length capacity = do
  raise_if (ltb length 1) value_error
  raise_if (exceeds capacity (start + length)) value_error
  out ← release_loop runs block_id start (start + length)
  ok (sort_runs out)
