-- ===== src/Base/Members.antt =====
-- Membership in a list, by recursion.
use mathlib.Core.Path.{◌≡◌, subst}
use mathlib.Core.Logic.{◌⊎◌, inl, inr}
use mathlib.Core.List.{List, [], ◌∷◌}
use fast_api.Base.Lists.{All}

module _ {A : Type 0} where
  -- `a` is a row of the list.
  abbrev pub Has : A → List A → Type 0
  Has a [] = ⊥
  Has a (x ∷ xs) = (x ≡ a) ⊎ Has a xs

  pub Has-All : (P : A → Type 0) (a : A) (xs : List A) → All P xs → Has a xs → P a
  Has-All P a [] p h = elim h [ ]
  Has-All P a (x ∷ xs) p (inl e) = subst P e p.0
  Has-All P a (x ∷ xs) p (inr h) = Has-All P a xs p.1 h
