-- ===== src/Floats.antt =====
-- Python's `float`, which the program uses for seat quality and scores and does not implement.
-- The model takes the type and its operations; what the choice of a seat relies on is the order.
use fast_api.Base.{ℕ, Bool, true, false, ◌≡◌}
use fast_api.Base.Int.{ℤ}

pub record FloatOps (F : Type 0) : Type 0 where
  -- `float(n)`
  pub of_int : ℤ → F
  -- the float nearest to a decimal fraction, numerator and denominator
  pub literal : ℕ → ℕ → F
  pub add : F → F → F
  pub sub : F → F → F
  pub mul : F → F → F
  pub div : F → F → F
  pub neg : F → F
  pub abs : F → F
  -- `x % 1.0`
  pub fraction : F → F
  -- `round(x)`
  pub round : F → ℤ
  -- `int(x)`
  pub trunc : F → ℤ
  pub lt : F → F → Bool
  pub eq : F → F → Bool

-- The comparisons of scores: the order of the floats without NaN.
pub record IsOrdered (F : Type 0) (fl : FloatOps F) : Type 0 where
  pub eq_refl : (a : F) → fl.eq a a ≡ true
  pub eq_sym : (a b : F) → fl.eq a b ≡ true → fl.eq b a ≡ true
  pub eq_trans : (a b c : F) → fl.eq a b ≡ true → fl.eq b c ≡ true → fl.eq a c ≡ true
  pub lt_ne : (a b : F) → fl.lt a b ≡ true → fl.eq a b ≡ false
  pub lt_asym : (a b : F) → fl.lt a b ≡ true → fl.lt b a ≡ false
  pub lt_trans : (a b c : F) → fl.lt a b ≡ true → fl.lt b c ≡ true → fl.lt a c ≡ true
  pub lt_total : (a b : F) → fl.lt a b ≡ false → fl.lt b a ≡ false → fl.eq a b ≡ true
  pub lt_eq : (a b c : F) → fl.lt a b ≡ true → fl.eq b c ≡ true → fl.lt a c ≡ true
  pub eq_lt : (a b c : F) → fl.eq a b ≡ true → fl.lt b c ≡ true → fl.lt a c ≡ true
  pub lt_neg : (a b : F) → fl.lt (fl.neg a) (fl.neg b) ≡ fl.lt b a
  pub eq_neg : (a b : F) → fl.eq (fl.neg a) (fl.neg b) ≡ fl.eq a b
