-- ===== src/Pricing/Total.antt =====
-- When a total exists, and what it is.
use fast_api.Base.{
  ◌∙◌, sym, ℕ, ◌*◌, ◌≤◌, ◌≡◌, refl, ap, ◌↔◌, inl, inr, ltb, Bool-cases, Option, none, some,
  Option-cases, hget, nat_eq, arith, false,
}
use fast_api.Exceptions.{ok, Result-cases, ok_injective}
use fast_api.Pricing.{EventMeta, unit_price, order_total, total_for}

-- The price list of an event: with a seat map, the zone's own price and no other; without one, the
-- single price, and no zone is named.
pub data Priced (meta : EventMeta) : Option ℕ → ℕ → Type 0 where
  zone_price :
      (venue zone price : ℕ)
      → meta.venue_id ≡ some venue
      → hget zone meta.zone_prices ≡ some price
      → Priced meta (some zone) price
  single_price :
      (price : ℕ) → meta.venue_id ≡ none → meta.price_cents ≡ some price → Priced meta none price

Priced-of :
    (meta : EventMeta) (venue : Option ℕ) (fallback zone_id : Option ℕ) (price : ℕ)
    → meta.venue_id ≡ venue
    → meta.price_cents ≡ fallback
    → unit_price meta.event_id venue meta.zone_prices fallback zone_id ≡ ok price
    → Priced meta zone_id price
unfolding unit_price
Priced-of meta none fallback (some zone) price v f h = ground arith
Priced-of meta none none none price v f h = ground arith
Priced-of meta none (some p) none price v f h =
    single_price price v (f ∙ ap some (ok_injective p price h))
Priced-of meta (some venue) fallback none price v f h = ground arith
Priced-of meta (some venue) fallback (some zone) price v f h =
    elim (Option-cases (hget zone meta.zone_prices)) [
      | inl missing ↦ let refused = rw (missing, unit_price) at h in ground arith
      | inr (p, found) ↦
          let priced = rw (found, unit_price) at h in
          zone_price venue zone price v (found ∙ ap some (ok_injective p price priced))
    ]

unit_of :
    (meta : EventMeta) (zone_id : Option ℕ) (price : ℕ)
    → Priced meta zone_id price
    → unit_price meta.event_id meta.venue_id meta.zone_prices meta.price_cents zone_id ≡ ok price
unfolding unit_price
unit_of meta none price (single_price p v f) = rw (v, f) refl
unit_of meta (some z) price (zone_price venue zone p v found) = rw v (rw (found, unit_price) refl)

below_one : (quantity : ℕ) → 1 ≤ quantity → ltb quantity 1 ≡ false
below_one quantity h = ground arith

-- An order has a total exactly where it is for at least one ticket that the event prices: on an
-- event with a seat map, the price of the named zone; on one without, the single price, no zone
-- being named. The total is the quantity times that price.
pub total_for_iff :
    (meta : EventMeta) (zone_id : Option ℕ) (quantity total : ℕ)
    → (total_for meta zone_id quantity ≡ ok total)
      ↔ ((1 ≤ quantity) × (price : ℕ) × Priced meta zone_id price × (total ≡ quantity * price))
unfolding total_for order_total
total_for_iff meta zone_id quantity total =
    let unit = unit_price meta.event_id meta.venue_id meta.zone_prices meta.price_cents zone_id in
    (
      λ h. elim (Bool-cases (ltb quantity 1)) [
        | inl too_few ↦ let refused = rw too_few at h in ground arith
        | inr enough ↦ elim (Result-cases unit) [
          | inl (e, refused) ↦ let impossible = rw (enough, refused) at h in ground arith
          | inr (price, priced) ↦
              let total_is = rw (enough, priced) at h in
              (
                ground arith,
                price,
                Priced-of meta meta.venue_id meta.price_cents zone_id price refl refl priced,
                sym (ok_injective (quantity * price) total total_is),
              )
        ]
      ],
      λ (some_, price, priced, sum).
          rw (unit_of meta zone_id price priced) (rw (sum, below_one quantity some_) refl),
    )
