-- ===== src/Exceptions.antt =====
-- app/core/exceptions.py: the domain errors that the modelled code raises, with what they carry,
-- and the built-in exceptions of pure functions (`ValueError`, `KeyError`, `RuntimeError`).
use fast_api.Base.{ℕ, Bool, true, false, List, ◌≡◌, refl, ap, ◌⊎◌, inl, inr}
use fast_api.Base.Int.{ℤ}

pub data OrderStatus : Type 0 where
  pending paid confirmed expired cancelled : OrderStatus

pub data OverlapReason : Type 0 where
  out_of_block_bounds intersects_a_free_run : OverlapReason

pub data DeniedReason : Type 0 where
  invalid_or_expired wrong_type wrong_event wrong_user already_used : DeniedReason

pub data Error : Type 0 where
  value_error key_error runtime_error stop_iteration : Error
  concurrent_modification : ℕ → ℕ → Error
  event_not_found event_not_on_sale event_cancelled zone_required : ℕ → Error
  zone_not_for_event : ℕ → ℕ → Error
  invalid_order_transition : ℕ → OrderStatus → OrderStatus → Error
  inventory_not_reconcilable : ℕ → ℕ → ℕ → Error
  insufficient_inventory : ℕ → ℕ → ℤ → Error
  purchase_limit_exceeded : ℕ → ℕ → ℕ → ℤ → ℤ → Error
  no_seats_available : ℕ → ℕ → ℕ → List ℕ → Error
  seat_contention : ℕ → ℕ → ℕ → Error
  seat_placement_out_of_run : ℕ → ℕ → ℕ → ℕ → ℕ → Error
  seat_release_overlap : ℕ → ℕ → ℕ → ℕ → ℕ → OverlapReason → Error
  admission_denied : DeniedReason → Error
  rate_limited : ℕ → Error

-- A call that returns, or raises.
pub data Result {ℓ} (A : Type ℓ) : Type ℓ where
  err : Error → Result A
  ok : A → Result A

-- `if condition: raise e`
abbrev pub raise_if : Bool → Error → Result (Unit {0})
raise_if true e = err e
raise_if false e = ok tt

infixl 5 ◌>>=◌ ◌>>◌
abbrev pub ◌>>=◌ {κ ℓ} : {A : Type κ} {B : Type ℓ} → Result A → (A → Result B) → Result B
err e >>= next = err e
ok a >>= next = next a

abbrev pub ◌>>◌ {ℓ} : {B : Type ℓ} → Result (Unit {0}) → Result B → Result B
err e >> next = err e
ok a >> next = next

pub Result-cases {ℓ} :
    {A : Type ℓ} (m : Result A) → ((e : Error) × (m ≡ err e)) ⊎ ((a : A) × (m ≡ ok a))
Result-cases (err e) = inl (e, refl)
Result-cases (ok a) = inr (a, refl)

abbrev value_or {ℓ} : {A : Type ℓ} → A → Result A → A
value_or x (ok a) = a
value_or x (err e) = x

pub ok_injective {ℓ} : {A : Type ℓ} (x y : A) → ok x ≡ ok y → x ≡ y
ok_injective x y h = ap (value_or x) h
