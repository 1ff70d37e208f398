-- ===== src/Seating/Choice/Order.antt =====
-- The order of the placements: where scores are ordered, both keys compare alike, strictly and
-- without gaps, and `sorted` keeps what holds of every element.
use fast_api.Base.{◌≡◌, true, false, List, [], ◌∷◌, All, arith, Bool-cases, inl, inr}
use fast_api.Floats.{FloatOps, IsOrdered}
use fast_api.Seating.Geometry.{Placement}
use fast_api.Seating.Choice.{beats, sorts_before, insert, sorted}

module _ {F : Type 0} ⦃fl : FloatOps F⦄ where
  module _ (P : Placement F → Type 0) where
    insert-All : (c : Placement F) (ds : List (Placement F)) → P c → All P ds → All P (insert c ds)
    unfolding insert
    insert-All c [] pc h = (pc, tt)
    insert-All c (d ∷ ds) pc h = elim (Bool-cases (sorts_before d c)) [
      | inl e ↦ rw e (h.0, insert-All c ds pc h.1)
      | inr e ↦ rw e (pc, h)
    ]

    pub sorted-All : (cs : List (Placement F)) → All P cs → All P (sorted cs)
    unfolding sorted
    sorted-All [] h = tt
    sorted-All (c ∷ cs) h = insert-All c (sorted cs) h.0 (sorted-All cs h.1)

  module _ (o : IsOrdered F fl) where
    pub sorts_before-beats : (a b : Placement F) → sorts_before a b ≡ beats a b
    unfolding sorts_before beats
    sorts_before-beats a b = rw (o.lt_neg a.score b.score, o.eq_neg a.score b.score)

    pub beats_trans : (a b c : Placement F) → beats a b ≡ true → beats b c ≡ true → beats a c ≡ true
    unfolding beats
    beats_trans a b c h k =
        grind (arith, o.eq_sym, o.eq_trans, o.lt_trans, o.lt_eq, o.eq_lt, o.lt_ne)

    pub not_beats_trans :
        (a b c : Placement F) → beats a b ≡ false → beats b c ≡ false → beats a c ≡ false
    unfolding beats
    not_beats_trans a b c h k =
        grind (
          arith, o.eq_sym, o.eq_trans, o.lt_trans, o.lt_eq, o.eq_lt, o.lt_ne, o.lt_asym, o.lt_total,
        )
