-- ===== src/Base/Hashes.antt =====
-- A Redis hash, or a Python dict: an association list. Redis promises no order of the fields, so
-- a write puts its field in front.
use Prim.Native.Nat.{ℕ}
use mathlib.Core.Path.{◌≡◌, refl}
use mathlib.Core.Logic.{◌↔◌}
use mathlib.Core.Bool.{Bool, true, ◌&&◌}
use mathlib.Core.Option.{Option, none, some}
use mathlib.Core.List.{List, [], ◌∷◌}
use native.Mathlib.Omega.{arith}
use fast_api.Base.Tests.{◌==◌, if◌then◌else◌}

-- A decided equality of keys.
pub record Eq {ℓ} (A : Type ℓ) : Type ℓ where
  pub beq : A → A → Bool
  pub beq_iff : (a b : A) → (beq a b ≡ true) ↔ (a ≡ b)

pub nat_beq_iff : (a b : ℕ) → ((a == b) ≡ true) ↔ (a ≡ b)
nat_beq_iff a b = ground arith

instance abbrev pub nat_eq : Eq ℕ
nat_eq = record { beq = ◌==◌; beq_iff = nat_beq_iff }

-- A field named `"{block}:{position}"`: the two numbers determine the text.
pub record Field : Type 0 where
  pub block : ℕ
  pub pos : ℕ

abbrev pub field_beq : Field → Field → Bool
field_beq a b = (a.block == b.block) && (a.pos == b.pos)

pub field_beq_iff : (a b : Field) → (field_beq a b ≡ true) ↔ (a ≡ b)
field_beq_iff a b = (λ h. ground arith, λ h. ground arith)

instance abbrev pub field_eq : Eq Field
field_eq = record { beq = field_beq; beq_iff = field_beq_iff }

abbrev pub Hash : Type 0 → Type 0 → Type 0
Hash K V = List (K × V)

module _ {K V : Type 0} ⦃e : Eq K⦄ where
  abbrev pub hget : K → Hash K V → Option V
  hget k [] = none
  hget k ((j, v) ∷ h) = if e.beq k j then some v else hget k h

  abbrev pub hdel : K → Hash K V → Hash K V
  hdel k [] = []
  hdel k ((j, v) ∷ h) = let rest = hdel k h in if e.beq k j then rest else (j, v) ∷ rest

  abbrev pub hset : K → V → Hash K V → Hash K V
  hset k v h = (k, v) ∷ hdel k h

  pub hget-hdel :
      (j k : K) (h : Hash K V) → hget j (hdel k h) ≡ (if e.beq j k then none else hget j h)
  hget-hdel j k [] = ground arith
  hget-hdel j k ((i, v) ∷ h) =
      ground (arith, hget-hdel j k h, e.beq_iff k i, e.beq_iff j i, e.beq_iff j k)

  pub hget-hset :
      (j k : K) (v : V) (h : Hash K V)
      → hget j (hset k v h) ≡ (if e.beq j k then some v else hget j h)
  hget-hset j k v h = ground (arith, hget-hdel j k h)

  pub hdel_absent : (k : K) (h : Hash K V) → hget k h ≡ none → hdel k h ≡ h
  hdel_absent k [] h0 = refl
  hdel_absent k ((i, v) ∷ h) h0 = ground (arith, hdel_absent k h)
