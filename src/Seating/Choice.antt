-- ===== src/Seating/Choice.antt =====
-- app/services/seating.py, `allocate` and `legal_anchors`: the best placement, and all of them
-- sorted by how advisable they are.
pub mod Order
pub mod First
use fast_api.Base.{
  ℕ, ◌+◌, Bool, true, false, ltb, ◌==◌, if◌then◌else◌, Option, none, some, List, [], ◌∷◌, ◌++◌,
  Hash, hget, nat_eq,
}
use fast_api.Floats.{FloatOps}
use fast_api.Exceptions.{Result, ok, err, key_error, ◌>>=◌}
use fast_api.Seating.Geometry.{Policy, BlockGeometry, Run, Placement}
use fast_api.Seating.Candidates.{candidates}

module _ {F : Type 0} ⦃fl : FloatOps F⦄ where
  -- `key > best_key` of `(score, -block_id, -start)`
  unfoldable pub beats : Placement F → Placement F → Bool
  beats a b =
      if fl.eq a.score b.score
      then (if a.block_id == b.block_id then ltb a.start b.start else ltb a.block_id b.block_id)
      else fl.lt b.score a.score

  -- `key(a) < key(b)` of `(-score, block_id, start)`
  unfoldable pub sorts_before : Placement F → Placement F → Bool
  sorts_before a b =
      if fl.eq (fl.neg a.score) (fl.neg b.score)
      then (if a.block_id == b.block_id then ltb a.start b.start else ltb a.block_id b.block_id)
      else fl.lt (fl.neg a.score) (fl.neg b.score)

  -- The inner loop of `allocate`, over the candidates of one run.
  best_of : List (Placement F) → Option (Placement F) → Option (Placement F)
  unfolding beats
  best_of [] best = best
  best_of (c ∷ cs) none = best_of cs (some c)
  best_of (c ∷ cs) (some b) = best_of cs (some (if beats c b then c else b))

  allocate_from :
      List Run
      → ℕ
      → Hash ℕ (BlockGeometry F)
      → Policy F
      → Option (Placement F)
      → Result (Option (Placement F))
  unfolding best_of
  allocate_from [] quantity geometry policy best = ok best
  allocate_from (run ∷ runs) quantity geometry policy best = elim (hget run.block_id geometry) [
    | none ↦ err key_error
    | some geo ↦
        allocate_from runs quantity geometry policy
          (best_of (candidates run quantity geo policy) best)
  ]

  pub allocate : List Run → ℕ → Hash ℕ (BlockGeometry F) → Policy F → Result (Option (Placement F))
  unfolding allocate_from
  allocate runs quantity geometry policy = allocate_from runs quantity geometry policy none

  -- The candidates of all runs, in order.
  unfoldable pub all_candidates :
      List Run → ℕ → Hash ℕ (BlockGeometry F) → Policy F → Result (List (Placement F))
  all_candidates [] quantity geometry policy = ok []
  all_candidates (run ∷ runs) quantity geometry policy = elim (hget run.block_id geometry) [
    | none ↦ err key_error
    | some geo ↦ do
      rest ← all_candidates runs quantity geometry policy
      ok (candidates run quantity geo policy ++ rest)
  ]

  -- `sorted` is stable: an element goes behind those that it does not precede.
  unfoldable pub insert : Placement F → List (Placement F) → List (Placement F)
  unfolding sorts_before
  insert c [] = c ∷ []
  insert c (d ∷ ds) = if sorts_before d c then d ∷ insert c ds else c ∷ d ∷ ds

  unfoldable pub sorted : List (Placement F) → List (Placement F)
  unfolding insert
  sorted [] = []
  sorted (c ∷ cs) = insert c (sorted cs)

  unfoldable pub legal_anchors :
      List Run → ℕ → Hash ℕ (BlockGeometry F) → Policy F → Result (List (Placement F))
  unfolding all_candidates sorted
  legal_anchors runs quantity geometry policy = do
    found ← all_candidates runs quantity geometry policy
    ok (sorted found)
