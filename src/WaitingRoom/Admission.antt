-- ===== src/WaitingRoom/Admission.antt =====
-- app/services/waiting_room.py, `status`: who was let in stays in.
use Prim.Native.Nat.{min}
use fast_api.Base.{
  ℕ, ◌≤◌, ◌<◌, ◌≡◌, refl, sym, ◌∙◌, inl, inr, Bool, true, false, ltb, leb, Option, none, some,
  length, arith, Bool-cases,
}
use fast_api.Base.Int.{pos, pos_part}
use fast_api.Floats.{FloatOps}
use fast_api.Redis.{Redis}
use fast_api.Pricing.{EventMeta}
use fast_api.Inventory.{get_available}
use fast_api.WaitingRoom.{
  Queue, Settings, timestamp, admit_start, admitted_count, zrank, status_of, status,
}

-- What the count of the admitted relies on: rounding keeps the order of finite floats.
pub record KeepsOrder (F : Type 0) (fl : FloatOps F) : Type 0 where
  pub time_le :
      (n m : ℕ) → n ≤ m → fl.lt (timestamp ⦃fl = fl⦄ (pos m)) (timestamp ⦃fl = fl⦄ (pos n)) ≡ false
  pub sub_le : (a b c : F) → fl.lt b a ≡ false → fl.lt (fl.sub b c) (fl.sub a c) ≡ false
  pub mul_le :
      (a b : F) (n : ℕ)
      → fl.lt b a ≡ false
      → fl.lt (fl.mul b (fl.of_int (pos n))) (fl.mul a (fl.of_int (pos n))) ≡ false
  pub trunc_le : (a b : F) → fl.lt b a ≡ false → pos_part (fl.trunc a) ≤ pos_part (fl.trunc b)
  pub lt_le : (a b c : F) → fl.lt a b ≡ true → fl.lt c b ≡ false → fl.lt a c ≡ true

status_of-admitted :
    (rank count : ℕ) → (status_of false false (some rank) count).admitted ≡ ltb rank count
unfolding status_of
status_of-admitted rank count = elim (Bool-cases (ltb rank count)) [
  | inl inside ↦ rw inside refl
  | inr outside ↦ rw outside refl
]

-- Who is admitted has a rank below the count.
status_of-inv :
    (sold_out paused : Bool) (place : Option ℕ) (count : ℕ)
    → (status_of sold_out paused place count).admitted ≡ true
    → (rank : ℕ) × (place ≡ some rank) × (rank < count)
unfolding status_of
status_of-inv sold_out paused none count h = ground arith
status_of-inv true paused (some rank) count h = ground arith
status_of-inv false true (some rank) count h = ground arith
status_of-inv false false (some rank) count h =
    (rank, refl, (let inside = sym (status_of-admitted rank count) ∙ h in ground arith))

capped : (x y total : ℕ) → x ≤ y → min x total ≤ min y total
capped x y total h = ground arith

module _ {F : Type 0} ⦃fl : FloatOps F⦄ where
  -- The count grows with the clock.
  count_le :
      (s : Settings) (start : Option F) (now later total : ℕ)
      → KeepsOrder F fl
      → now ≤ later
      → admitted_count s start now total ≤ admitted_count s start later total
  unfolding admitted_count
  count_le s none now later total k h = ground arith
  count_le s (some start) now later total k h =
      let elapsed = fl.sub (timestamp (pos now)) start in
      let elapsed' = fl.sub (timestamp (pos later)) start in
      let grows = k.sub_le _ _ start (k.time_le now later h) in
      elim (Bool-cases (fl.lt (fl.of_int (pos 0)) elapsed)) [
        | inr early ↦ rw early (ground arith)
        | inl started ↦
            rw (started, k.lt_le (fl.of_int (pos 0)) elapsed elapsed' started grows)
              (capped _ _ total (k.trunc_le _ _ (k.mul_le elapsed elapsed' s.admission_rate grows)))
      ]

  -- Once admitted, always admitted: a user whose status was admitted is admitted at any later time,
  -- whatever happens to the stock and the pause in between, as long as then there is stock and no
  -- pause, and the draw and the window of the event are the same. Rounding keeps the order of floats.
  pub status-stays :
      (name_before : ℕ → ℕ → Bool) (s : Settings) (get_event_meta : ℕ → Option EventMeta)
      (r r' : Redis F) (q q' : Queue) (now later event_id user_id : ℕ)
      → KeepsOrder F fl
      → now ≤ later
      → q'.draw event_id ≡ q.draw event_id
      → leb (get_available event_id r') 0 ≡ false
      → q'.paused ≡ false
      → (status name_before s get_event_meta r q now event_id user_id).admitted ≡ true
      → (status name_before s get_event_meta r' q' later event_id user_id).admitted ≡ true
  unfolding status
  status-stays name_before s get_event_meta r r' q q' now later event_id user_id k h same stock
        running admitted =
      let start = admit_start s (get_event_meta event_id) in
      let total = length (q.draw event_id) in
      let (rank, ranked, below) =
        status_of-inv (leb (get_available event_id r) 0) q.paused
          (zrank name_before user_id (q.draw event_id)) (admitted_count s start now total)
          admitted in
      let grows = count_le s start now later total k h in
      rw (stock, running, same, ranked)
        (status_of-admitted rank (admitted_count s start later total) ∙ ground arith)
