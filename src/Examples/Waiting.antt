-- ===== src/Examples/Waiting.antt =====
-- The theorems on the waiting room, at a draw of two users.
use fast_api.Base.{
  leb, ltb, ℕ, ◌+◌, ◌≡◌, ◌≢◌, refl, true, false, Option, none, some, List, [], ◌∷◌, nat_eq, arith,
}
use fast_api.Base.Int.{ℤ, sub_ℕ, ◌-ℤ◌}
use fast_api.Exceptions.{ok}
use fast_api.WaitingRoom.{
  Queue, Settings, Payload, verify_admission, status, status_of, admitted_count, admit_start,
  effective_window, zrank,
}
use fast_api.Inventory.{get_available}
use fast_api.Examples.{whole, redis}
use fast_api.Examples.Sales.{meta}
use fast_api.WaitingRoom.Admission.{KeepsOrder, status-stays}
use fast_api.WaitingRoom.Pass.{
  Visit, enter, verify, refund, visits, Passed, verify_admission-Passed, verify_admission-once,
}

abbrev queue : Queue
queue = record {
  salt = λ e. some 9;
  draw = λ e. (8, 31) ∷ (4, 17) ∷ [];
  paused = false;
  used = λ j. none;
  pokes = 0;
}

abbrev decode : ℕ → ℕ → Option Payload
decode now token =
    some (record { exp = 900; is_admission = true; event_id = 5; user_id = 8; jti = token })

abbrev digest : ℕ → ℕ → ℕ → ℕ
digest event_id user_id salt = user_id + salt

passes : (verify_admission sub_ℕ decode 6 70 8 5 queue).0 ≡ ok 70
unfolding verify_admission
passes = refl

verify_admission-Passed_example :
    Passed sub_ℕ decode digest 6 70 8 5 70 queue (verify_admission sub_ℕ decode 6 70 8 5 queue).1
verify_admission-Passed_example =
    verify_admission-Passed sub_ℕ decode digest 6 70 8 5 70 queue passes

-- Another user enters and is verified, and that token is refunded.
abbrev others : List Visit
others = enter 3 5 6 ∷ verify 7 71 8 5 ∷ refund 71 ∷ []

verify_admission-once_example :
    (verify_admission sub_ℕ decode 1000 70 8 5
      (visits sub_ℕ decode digest others (verify_admission sub_ℕ decode 6 70 8 5 queue).1)).0
    ≢ ok 70
verify_admission-once_example =
    verify_admission-once sub_ℕ decode digest 6 1000 70 70 8 8 5 5 70
      (record { exp = 900; is_admission = true; event_id = 5; user_id = 8; jti = 70 }) others queue
      (ground arith, tt) refl (omega arith) passes

abbrev settings : Settings
settings = record { lead_time = 60; admission_buffer = 40; admission_rate = 500 }

whole-KeepsOrder : KeepsOrder ℤ whole
unfolding ◌-ℤ◌
whole-KeepsOrder = record {
  time_le = λ n m h. ground arith;
  sub_le = λ a b c h. ground arith;
  mul_le = λ a b n h. h;
  trunc_le = λ a b h. ground arith;
  lt_le = λ a b c h k. ground arith;
}

open_stock : leb (get_available 5 redis) 0 ≡ false
unfolding get_available
open_stock = refl

is_in : (status ltb settings (λ e. some meta) redis queue 4060 5 8).admitted ≡ true
unfolding status status_of admitted_count admit_start effective_window zrank get_available ◌-ℤ◌
is_in = refl

status-stays_example : (status ltb settings (λ e. some meta) redis queue 4070 5 8).admitted ≡ true
status-stays_example =
    status-stays ltb settings (λ e. some meta) redis redis queue queue 4060 4070 5 8
      whole-KeepsOrder (omega arith) refl open_stock refl is_in
