-- ===== src/Examples.antt =====
-- Concrete data for the examples: a zone of one block with ten seats, an event with a counter,
-- orders, and integers in place of floats.
mod Seats
mod Oracle
mod Counter
mod Sales
mod Waiting
mod Money
mod Relaying
mod Pipeline
use fast_api.Base.{
  ℕ, zero, suc, ◌+◌, ◌<◌, Bool, true, false, Option, none, some, List, [], ◌∷◌, arith, ltb,
  if◌then◌else◌,
}
use fast_api.Base.Int.{ℤ, pos, ◌+ℤ◌, ◌-ℤ◌, ltb_ℤ, eqb_ℤ, neg_part}
use fast_api.Floats.{FloatOps, IsOrdered}
use fast_api.Exceptions.{pending, paid, expired, cancelled, confirmed}
use fast_api.Redis.{Redis, ZoneKeys, EventKeys, Marker, at}
use fast_api.Database.{Database, Order, SeatHold, new_entry}

abbrev pub pos_or_neg : ℤ → ℕ
pos_or_neg (pos n) = n
pos_or_neg a = neg_part a

abbrev pub abs_ℤ : ℤ → ℤ
abs_ℤ a = pos (pos_or_neg a)

-- Whole numbers as scores: a fraction is cut off.
instance abbrev pub whole : FloatOps ℤ
whole = record {
  of_int = λ n. n;
  literal = λ n d. pos n;
  add = λ a b. a +ℤ b;
  sub = λ a b. a -ℤ b;
  mul = λ a b. a;
  div = λ a b. a;
  neg = λ a. pos 0 -ℤ a;
  abs = abs_ℤ;
  fraction = λ a. pos 0;
  round = λ a. a;
  trunc = λ a. a;
  lt = ltb_ℤ;
  eq = eqb_ℤ;
}

pub whole-IsOrdered : IsOrdered ℤ whole
unfolding ◌-ℤ◌
whole-IsOrdered = record {
  eq_refl = λ a. ground arith;
  eq_sym = λ a b h. ground arith;
  eq_trans = λ a b c h k. ground arith;
  lt_ne = λ a b h. ground arith;
  lt_asym = λ a b h. ground arith;
  lt_trans = λ a b c h k. ground arith;
  lt_total = λ a b h k. ground arith;
  lt_eq = λ a b c h k. ground arith;
  eq_lt = λ a b c h k. ground arith;
  lt_neg = λ a b. ground arith;
  eq_neg = λ a b. ground arith;
}

-- Block 1, seats 0 to 9, all free.
abbrev pub open_zone : ZoneKeys ℤ
open_zone = record {
  runs = (record { block = 1; pos = 0 }, 10) ∷ [];
  ends = (record { block = 1; pos = 10 }, 0) ∷ [];
  geom = (1, record { capacity = 12; quality_base = pos 100; quality_edge = pos 50 }) ∷ [];
  available = some (pos 10);
  strict_misses = 0;
  relaxed = false;
}

-- Event 5 has ten seats left; buyer 8 holds two.
abbrev pub open_event : EventKeys
open_event = record { available = some (pos 10); purchased = (8, pos 2) ∷ [] }

abbrev pub redis : Redis ℤ
redis = record {
  event = λ e. open_event;
  zone = λ e z. open_zone;
  claim = λ k. none;
  released = λ m. false;
  stream = [];
  dead = [];
  pokes = [];
}

abbrev pub pending_order : Order
pending_order = record {
  id = 1;
  user_id = 8;
  event_id = 5;
  quantity = 2;
  total_price_cents = 500;
  status = pending;
  idempotency_key = 77;
  zone_id = some 2;
  paid_at = none;
  confirmed_at = none;
  expired_at = none;
  cancelled_at = none;
}

abbrev pub paid_order : Order
paid_order = record pending_order { id = 2; status = paid; zone_id = none }

abbrev pub expired_order : Order
expired_order = record pending_order { id = 3; status = expired }

abbrev pub hold : SeatHold
hold = record {
  order_id = 1;
  event_id = 5;
  zone_id = 2;
  block_id = 1;
  start_pos = 10;
  length = 2;
  confirmed_at = none;
}

abbrev pub database : Database
database = record {
  events = at 5 (some 12) (λ e. none);
  orders = pending_order ∷ paid_order ∷ expired_order ∷ [];
  holds = hold ∷ [];
  outbox = new_entry 5 0 3 ∷ [];
  outbox_id = 1;
}
