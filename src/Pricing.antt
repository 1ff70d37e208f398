-- ===== src/Pricing.antt =====
-- app/services/pricing.py: the price of a ticket and the total of an order, from the cached
-- metadata of the event (services/event_cache.py, `EventMeta`).
pub mod Total
use fast_api.Base.{ℕ, ◌*◌, ltb, if◌then◌else◌, Option, none, some, Hash, hget, nat_eq}
use fast_api.Exceptions.{
  Result, err, ok, ◌>>=◌, ◌>>◌, raise_if, value_error, runtime_error, zone_required,
  zone_not_for_event,
}

-- models/event.py
pub data EventStatus : Type 0 where
  draft published cancelled : EventStatus

pub record EventMeta : Type 0 where
  pub event_id : ℕ
  pub status : EventStatus
  pub sale_starts_at : ℕ
  pub sale_ends_at : ℕ
  pub price_cents : Option ℕ
  pub venue_id : Option ℕ
  pub zone_prices : Hash ℕ ℕ
  pub queue_opens_at : Option ℕ
  pub queue_closes_at : Option ℕ

unfoldable pub unit_price : ℕ → Option ℕ → Hash ℕ ℕ → Option ℕ → Option ℕ → Result ℕ
unit_price event_id none zone_prices fallback (some zone) = err (zone_not_for_event event_id zone)
unit_price event_id none zone_prices none none = err runtime_error
unit_price event_id none zone_prices (some price) none = ok price
unit_price event_id (some venue) zone_prices fallback none = err (zone_required event_id)
unit_price event_id (some venue) zone_prices fallback (some zone) = elim (hget zone zone_prices) [
  | none ↦ err (zone_not_for_event event_id zone)
  | some price ↦ ok price
]

unfoldable pub order_total : ℕ → Option ℕ → Hash ℕ ℕ → Option ℕ → Option ℕ → ℕ → Result ℕ
unfolding unit_price
order_total event_id venue_id zone_prices fallback zone_id quantity =
    raise_if (ltb quantity 1) value_error
    >> (unit_price event_id venue_id zone_prices fallback zone_id >>= λ price.
        ok (quantity * price))

pub price_for : EventMeta → Option ℕ → Result ℕ
unfolding unit_price
price_for meta zone_id =
    unit_price meta.event_id meta.venue_id meta.zone_prices meta.price_cents zone_id

unfoldable pub total_for : EventMeta → Option ℕ → ℕ → Result ℕ
unfolding order_total
total_for meta zone_id quantity =
    order_total meta.event_id meta.venue_id meta.zone_prices meta.price_cents zone_id quantity
