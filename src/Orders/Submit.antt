-- ===== src/Orders/Submit.antt =====
-- app/services/orders.py, `submit_order`: the checks before a reservation, and its outcome.
use fast_api.Base.{ℕ, ◌&&◌, leb, if◌then◌else◌, Option, none, some}
use fast_api.Base.Int.{ℤ, pos}
use fast_api.Exceptions.{
  Result, err, ok, event_not_found, event_not_on_sale, event_cancelled, zone_required,
  insufficient_inventory, purchase_limit_exceeded, ◌>>=◌,
}
use fast_api.Floats.{FloatOps}
use fast_api.Redis.{Redis}
use fast_api.Pricing.{EventMeta, EventStatus, total_for}
use fast_api.Inventory.{Args, ReserveOutcome, ReserveResult, reserve_and_enqueue}
use fast_api.SeatRuns.Reserve.{World, Request, default_top_k, reserve_seats_and_enqueue}
use fast_api.Seating.Geometry.{normal_policy}

-- The arguments of `submit_order`, and the settings it reads.
pub record Submission : Type 0 where
  pub user_id : ℕ
  pub event_id : ℕ
  pub quantity : ℕ
  pub idempotency_key : ℕ
  pub zone_id : Option ℕ
  pub now : ℕ
  pub max_per_user : ℕ
  pub max_purchasable : ℕ

abbrev pub counter_args : Submission → ℕ → Args
counter_args s total = record {
  event_id = s.event_id;
  user_id = s.user_id;
  quantity = s.quantity;
  total_price_cents = total;
  idempotency_key = s.idempotency_key;
  zone_id = s.zone_id;
  limit = s.max_per_user;
}

abbrev pub seat_request : Submission → ℕ → ℕ → Request
seat_request s zone total = record {
  event_id = s.event_id;
  zone_id = zone;
  user_id = s.user_id;
  quantity = s.quantity;
  total_price_cents = total;
  idempotency_key = s.idempotency_key;
  top_k = default_top_k;
  max_per_user = s.max_per_user;
  max_purchasable = s.max_purchasable;
}

abbrev pub outcome_only : ReserveOutcome → Option ℕ → ReserveResult
outcome_only outcome id = record {
  outcome = outcome;
  stream_id = id;
  available = none;
  held = none;
  limit = none;
}

abbrev pub or_zero_ℤ : Option ℤ → ℤ
or_zero_ℤ none = pos 0
or_zero_ℤ (some n) = n

abbrev pub limit_ℤ : Option ℕ → ℤ
limit_ℤ none = pos 0
limit_ℤ (some n) = pos n

-- The two refusals of the plain counter, as errors.
unfoldable pub raise_refusal : Submission → ReserveResult → Result ReserveResult
raise_refusal s result = elim (result.outcome) [
  | ReserveOutcome.sold_out ↦
      err (insufficient_inventory s.event_id s.quantity (or_zero_ℤ result.available))
  | ReserveOutcome.over_limit ↦ err (
      purchase_limit_exceeded s.event_id s.user_id s.quantity (or_zero_ℤ result.held)
        (limit_ℤ result.limit))
  | ReserveOutcome.ok ↦ ok result
  | ReserveOutcome.dup ↦ ok result
]

unfoldable pub on_sale : Submission → EventMeta → Result (Unit {0})
on_sale s meta = elim (meta.status) [
  | EventStatus.cancelled ↦ err (event_cancelled s.event_id)
  | EventStatus.draft ↦ err (event_not_on_sale s.event_id)
  | EventStatus.published ↦
      if leb meta.sale_starts_at s.now && leb s.now meta.sale_ends_at
      then ok tt
      else err (event_not_on_sale s.event_id)
]

module _ {F : Type 0} where
  unfoldable pub submit_counted : ℕ → Submission → ℕ → Redis F → Result ReserveResult × Redis F
  unfolding raise_refusal
  submit_counted stream_id s total r =
      let (result, r') = reserve_and_enqueue stream_id (counter_args s total) r in
      (raise_refusal s result, r')

module _ {F : Type 0} ⦃fl : FloatOps F⦄ (w : World F) where
  unfoldable pub submit_seats : Submission → ℕ → Option ℕ → Redis F → Result ReserveResult × Redis F
  submit_seats s total none r = (err (zone_required s.event_id), r)
  submit_seats s total (some zone) r =
      let (result, r') = reserve_seats_and_enqueue w (seat_request s zone total) normal_policy r in
      (
        result >>= λ reservation. ok (elim reservation [
          | none ↦ outcome_only ReserveOutcome.dup none
          | some seats ↦ outcome_only ReserveOutcome.ok (some (seats.stream_id))
        ]),
        r',
      )

  unfoldable pub submit_priced :
      ℕ → Submission → EventMeta → Result ℕ → Redis F → Result ReserveResult × Redis F
  unfolding submit_seats submit_counted
  submit_priced stream_id s meta (err e) r = (err e, r)
  submit_priced stream_id s meta (ok total) r = elim (meta.venue_id) [
    | some venue ↦ submit_seats s total s.zone_id r
    | none ↦ submit_counted stream_id s total r
  ]

  -- `get_event_meta`, a cached read of the database, gives the metadata.
  unfoldable pub submit_order :
      (ℕ → Option EventMeta) → ℕ → Submission → Redis F → Result ReserveResult × Redis F
  unfolding on_sale submit_priced
  submit_order get_event_meta stream_id s r = elim (get_event_meta s.event_id) [
    | none ↦ (err (event_not_found s.event_id), r)
    | some meta ↦ elim (on_sale s meta) [
      | err e ↦ (err e, r)
      | ok _ ↦ submit_priced stream_id s meta (total_for meta s.zone_id s.quantity) r
    ]
  ]
