-- ===== src/System/Tally.antt =====
-- Sums over the rows whose key is due; used for the entries of the order stream, by idempotency key,
-- and for the orders, by id.
use fast_api.Base.{
  Has, Has-All, ℕ, ◌+◌, ◌≡◌, ◌≢◌, refl, inl, inr, Bool, ◌&&◌, not, ◌==◌, if◌then◌else◌, List, [],
  ◌∷◌, ◌++◌, All, All-append, arith, subst, sym,
}

module _ {A : Type 0} (key : A → ℕ) where
  abbrev pub Distinct : List A → Type 0
  Distinct [] = Unit
  Distinct (x ∷ xs) = All (λ y. key y ≢ key x) xs × Distinct xs

  pub Distinct-snoc :
      (xs : List A) (a : A) → Distinct xs → All (λ y. key y ≢ key a) xs → Distinct (xs ++ a ∷ [])
  Distinct-snoc [] a d h = (tt, tt)
  Distinct-snoc (x ∷ xs) a d h = (
    All-append (λ y. key y ≢ key x) xs (a ∷ []) d.0 (λ e. h.0 (sym e), tt),
    Distinct-snoc xs a d.1 h.1,
  )

module _ {A : Type 0} (key : A → ℕ) (weight : A → ℕ) where
  abbrev pub tally : (ℕ → Bool) → List A → ℕ
  tally due [] = 0
  tally due (x ∷ xs) = (if due (key x) then weight x else 0) + tally due xs

  -- The key closes.
  abbrev pub close : ℕ → (ℕ → Bool) → ℕ → Bool
  close k due j = due j && not (j == k)

  pub tally_ext :
      (due due' : ℕ → Bool) (xs : List A)
      → All (λ x. due (key x) ≡ due' (key x)) xs
      → tally due xs ≡ tally due' xs
  tally_ext due due' [] e = refl
  tally_ext due due' (x ∷ xs) e = rw (e.0, tally_ext due due' xs e.1) refl

  pub tally_absent :
      (k : ℕ) (due : ℕ → Bool) (xs : List A)
      → All (λ y. key y ≢ k) xs
      → tally (close k due) xs ≡ tally due xs
  tally_absent k due [] h = refl
  tally_absent k due (x ∷ xs) h = ground (arith, tally_absent k due xs h.1)

  pub tally-close :
      (a : A) (due : ℕ → Bool) (xs : List A)
      → Distinct key xs
      → Has a xs
      → tally (close (key a) due) xs + (if due (key a) then weight a else 0) ≡ tally due xs
  tally-close a due [] d h = elim h [ ]
  tally-close a due (x ∷ xs) d (inl e) =
      subst
        (λ (b : A).
          tally (close (key b) due) (x ∷ xs) + (if due (key b) then weight b else 0)
          ≡ tally due (x ∷ xs))
        e (let rest = tally_absent (key x) due xs d.0 in ground arith)
  tally-close a due (x ∷ xs) d (inr h) =
      let rest = tally-close a due xs d.1 h in
      let other = Has-All (λ y. key y ≢ key x) a xs d.0 h in ground arith

  pub tally-append :
      (due : ℕ → Bool) (xs ys : List A) → tally due (xs ++ ys) ≡ tally due xs + tally due ys
  tally-append due [] ys = omega arith
  tally-append due (x ∷ xs) ys = omega (arith, tally-append due xs ys)
