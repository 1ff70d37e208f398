-- ===== src/Seating/Choice/First.antt =====
-- app/services/seating.py, `allocate` against `legal_anchors`.
use fast_api.Base.{
  ℕ, ◌≡◌, refl, sym, ◌∙◌, ap, if◌then◌else◌, Option, none, some, List, [], ◌∷◌, ◌++◌, Hash, hget,
  nat_eq, arith, Option-cases, inl, inr,
}
use fast_api.Floats.{FloatOps, IsOrdered}
use fast_api.Exceptions.{Result, ok, err, ◌>>=◌}
use fast_api.Seating.Geometry.{Policy, BlockGeometry, Run, Placement}
use fast_api.Seating.Candidates.{candidates}
use fast_api.Seating.Choice.{
  beats, insert, sorted, best_of, allocate_from, allocate, all_candidates, legal_anchors,
}
use fast_api.Seating.Choice.Order.{sorts_before-beats, beats_trans, not_beats_trans}

abbrev pub first : {A : Type 0} → List A → Option A
first [] = none
first (x ∷ xs) = some x

module _ {F : Type 0} ⦃fl : FloatOps F⦄ where
  -- The better of two, the earlier on a tie.
  better : Placement F → Placement F → Placement F
  better b c = if beats c b then c else b

  or_better : Placement F → Option (Placement F) → Placement F
  unfolding better
  or_better b none = b
  or_better b (some c) = better b c

  best_of-append :
      (xs ys : List (Placement F)) (best : Option (Placement F))
      → best_of (xs ++ ys) best ≡ best_of ys (best_of xs best)
  unfolding best_of
  best_of-append [] ys best = refl
  best_of-append (x ∷ xs) ys none = best_of-append xs ys (some x)
  best_of-append (x ∷ xs) ys (some b) = best_of-append xs ys (some (if beats x b then x else b))

  best_of-bind :
      (found : Result (List (Placement F))) (cs : List (Placement F)) (best : Option (Placement F))
      → (found >>= (λ rest. ok (cs ++ rest)) >>= (λ ds. ok (best_of ds best)))
        ≡ (found >>= λ ds. ok (best_of ds (best_of cs best)))
  best_of-bind (ok rest) cs best = ap ok (best_of-append cs rest best)
  best_of-bind (err e) cs best = refl

  -- `allocate` looks up the geometries in the order of `legal_anchors`, and so fails with it.
  allocate_from-all :
      (runs : List Run) (quantity : ℕ) (geometry : Hash ℕ (BlockGeometry F)) (policy : Policy F)
      (best : Option (Placement F))
      → allocate_from runs quantity geometry policy best
        ≡ (all_candidates runs quantity geometry policy >>= λ cs. ok (best_of cs best))
  unfolding allocate_from all_candidates best_of
  allocate_from-all [] quantity geometry policy best = refl
  allocate_from-all (run ∷ runs) quantity geometry policy best =
      elim (Option-cases (hget run.block_id geometry)) [
        | inl missing ↦ ground arith
        | inr (geo, found) ↦
            rw (found, allocate_from, all_candidates)
              (allocate_from-all runs quantity geometry policy
                  (best_of (candidates run quantity geo policy) best)
                ∙ sym (best_of-bind (all_candidates runs quantity geometry policy) _ best))
      ]

  module _ (o : IsOrdered F fl) where
    better_assoc : (a b c : Placement F) → better (better a b) c ≡ better a (better b c)
    unfolding better
    better_assoc a b c = ground (arith, beats_trans o c b a, not_beats_trans o c b a)

    first-insert :
        (c : Placement F) (ds : List (Placement F))
        → first (insert c ds) ≡ some (or_better c (first ds))
    unfolding insert or_better
    first-insert c [] = refl
    first-insert c (d ∷ ds) = rw (sorts_before-beats o d c) (ground arith)

    or_better_assoc :
        (a b : Placement F) (c : Option (Placement F))
        → or_better (better a b) c ≡ or_better a (some (or_better b c))
    unfolding or_better
    or_better_assoc a b none = refl
    or_better_assoc a b (some c) = better_assoc a b c

    best_of-first :
        (cs : List (Placement F)) (b : Placement F)
        → best_of cs (some b) ≡ some (or_better b (first (sorted cs)))
    unfolding best_of sorted
    best_of-first [] b = unfold or_better in refl
    best_of-first (c ∷ cs) b = rw (first-insert c (sorted cs)) (
        best_of-first cs (if beats c b then c else b)
        ∙ ap some (unfold better in or_better_assoc b c (first (sorted cs))))

    best_of-sorted : (cs : List (Placement F)) → best_of cs none ≡ first (sorted cs)
    unfolding best_of sorted
    best_of-sorted [] = refl
    best_of-sorted (c ∷ cs) = rw (first-insert c (sorted cs)) (best_of-first cs c)

    best_of-found :
        (found : Result (List (Placement F)))
        → (found >>= λ cs. ok (best_of cs none))
          ≡ (found >>= (λ cs. ok (sorted cs)) >>= λ anchors. ok (first anchors))
    best_of-found (ok cs) = ap ok (best_of-sorted cs)
    best_of-found (err e) = refl

    -- Where the scores are ordered, `allocate` returns the first of `legal_anchors`, none where the
    -- list is empty, and fails where `legal_anchors` fails.
    pub allocate-legal_anchors :
        (runs : List Run) (quantity : ℕ) (geometry : Hash ℕ (BlockGeometry F)) (policy : Policy F)
        → allocate runs quantity geometry policy
          ≡ (legal_anchors runs quantity geometry policy >>= λ anchors. ok (first anchors))
    unfolding allocate legal_anchors
    allocate-legal_anchors runs quantity geometry policy =
        allocate_from-all runs quantity geometry policy none
        ∙ best_of-found (all_candidates runs quantity geometry policy)
