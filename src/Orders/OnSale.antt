-- ===== src/Orders/OnSale.antt =====
-- app/services/orders.py, `submit_order`: what an answer without an error shows of the event.
use fast_api.Base.{
  ℕ, ◌*◌, ◌≤◌, ◌≡◌, ◌⊎◌, refl, ap, sym, subst, inl, inr, Option, none, some, arith, Option-cases,
}
use fast_api.Exceptions.{Result-cases, ok, ok_injective}
use fast_api.Floats.{FloatOps}
use fast_api.Redis.{Redis}
use fast_api.Pricing.{EventMeta, EventStatus, total_for}
use fast_api.Pricing.Total.{Priced, total_for_iff}
use fast_api.Inventory.{ReserveOutcome, ReserveResult}
use fast_api.SeatRuns.Reserve.{World, reserve_seats_and_enqueue}
use fast_api.Seating.Geometry.{normal_policy}
use fast_api.Orders.Enqueued.{Enqueued, Sells, counted-Sells, reserve_seats_and_enqueue-Seated}
use fast_api.Orders.Submit.{
  Submission, seat_request, on_sale, submit_seats, submit_priced, submit_order,
}

-- The answer is DUP; or it is OK, and the entry is in the stream, at this total.
abbrev pub Accepted : {F : Type 0} → Submission → ℕ → ReserveResult → Redis F → Type 0
Accepted s total result r =
    (result.outcome ≡ ReserveOutcome.dup) ⊎ ((result.outcome ≡ ReserveOutcome.ok) × Sells s total r)

-- What an accepted submission shows of the event.
pub record Sold {F : Type 0} (get_event_meta : ℕ → Option EventMeta) (s : Submission)
    (result : ReserveResult) (r : Redis F) : Type 0 where
  pub meta : EventMeta
  pub known : get_event_meta s.event_id ≡ some meta
  pub published : meta.status ≡ EventStatus.published
  pub started : meta.sale_starts_at ≤ s.now
  pub not_ended : s.now ≤ meta.sale_ends_at
  pub some_tickets : 1 ≤ s.quantity
  pub price : ℕ
  pub priced : Priced meta s.zone_id price
  pub accepted : Accepted s (s.quantity * price) result r

on_sale-open :
    (s : Submission) (meta : EventMeta) (status : EventStatus) (u : Unit {0})
    → meta.status ≡ status
    → on_sale s meta ≡ ok u
    → (meta.status ≡ EventStatus.published)
      × (meta.sale_starts_at ≤ s.now)
      × (s.now ≤ meta.sale_ends_at)
unfolding on_sale
on_sale-open s meta EventStatus.cancelled u e h = let h' = rw (e, on_sale) at h in ground arith
on_sale-open s meta EventStatus.draft u e h = let h' = rw (e, on_sale) at h in ground arith
on_sale-open s meta EventStatus.published u e h = let h' = rw (e, on_sale) at h in ground arith

module _ {F : Type 0} ⦃fl : FloatOps F⦄ (w : World F) where
  seats-Accepted :
      (s : Submission) (total : ℕ) (zone : Option ℕ) (r : Redis F) (result : ReserveResult)
      → s.zone_id ≡ zone
      → (submit_seats w s total zone r).0 ≡ ok result
      → Accepted s total result (submit_seats w s total zone r).1
  unfolding submit_seats
  seats-Accepted s total none r result named h = ground arith
  seats-Accepted s total (some zone) r result named h =
      let q = seat_request s zone total in
      let answer = (reserve_seats_and_enqueue w q normal_policy r).0 in
      elim (Result-cases answer) [
        | inl (e, failed) ↦ let h' = rw failed at h in ground arith
        | inr (none, found) ↦
            let h' = rw found at h in
            inl (sym (ap (λ (x : ReserveResult). x.outcome) (ok_injective _ result h')))
        | inr (some seats, found) ↦
            let h' = rw found at h in
            inr (
              sym (ap (λ (x : ReserveResult). x.outcome) (ok_injective _ result h')),
              subst
                  (λ (z : Option ℕ).
                    Enqueued s.user_id s.event_id s.idempotency_key total z
                      (reserve_seats_and_enqueue w q normal_policy r).1)
                  (sym named) (reserve_seats_and_enqueue-Seated w q normal_policy r seats found),
            )
      ]

  priced-Accepted :
      (stream_id : ℕ) (s : Submission) (meta : EventMeta) (total : ℕ) (r : Redis F)
      (result : ReserveResult)
      → (submit_priced w stream_id s meta (ok total) r).0 ≡ ok result
      → Accepted s total result (submit_priced w stream_id s meta (ok total) r).1
  unfolding submit_priced
  priced-Accepted stream_id s meta total r result h = elim (Option-cases (meta.venue_id)) [
    | inl plain ↦
        let h' = rw (plain, submit_priced) at h in
        rw (plain, submit_priced) (counted-Sells stream_id s total r result h')
    | inr (venue, seated) ↦
        let h' = rw (seated, submit_priced) at h in
        rw (seated, submit_priced) (seats-Accepted s total s.zone_id r result refl h')
  ]

  -- A submission that is answered, and not refused by an error, is for at least one ticket of a
  -- published event, within its sale period, and the event has a price for the zone named. The answer
  -- is DUP; or it is OK, and the last entry of the stream is for this buyer, event, zone and key, at
  -- that price times the number of tickets.
  pub submit_order-Sold :
      (get_event_meta : ℕ → Option EventMeta) (stream_id : ℕ) (s : Submission) (r : Redis F)
      (result : ReserveResult)
      → (submit_order w get_event_meta stream_id s r).0 ≡ ok result
      → Sold get_event_meta s result (submit_order w get_event_meta stream_id s r).1
  unfolding submit_order
  submit_order-Sold get_event_meta stream_id s r result h =
      elim (Option-cases (get_event_meta s.event_id)) [
        | inl unknown ↦ let h' = rw (unknown, submit_order) at h in ground arith
        | inr (meta, known) ↦
            let h' = rw (known, submit_order) at h in
            elim (Result-cases (on_sale s meta)) [
              | inl (e, closed) ↦ let h'' = rw (closed, submit_order) at h' in ground arith
              | inr (u, open_) ↦
                  let h'' = rw (open_, submit_order) at h' in
                  elim (Result-cases (total_for meta s.zone_id s.quantity)) [
                    | inl (e, unpriced) ↦
                        let h3 = rw (unpriced, submit_priced) at h'' in ground arith
                    | inr (total, priced) ↦
                        let h3 = rw priced at h'' in
                        let (published, started, not_ended) =
                          on_sale-open s meta meta.status u refl open_ in
                        let (some_tickets, price, has_price, sum) =
                          (total_for_iff meta s.zone_id s.quantity total).0 priced in
                        record {
                          meta = meta;
                          known = known;
                          published = published;
                          started = started;
                          not_ended = not_ended;
                          some_tickets = some_tickets;
                          price = price;
                          priced = has_price;
                          accepted =
                              rw (known, open_, priced, submit_order)
                                (subst
                                  (λ (n : ℕ).
                                    Accepted s n result
                                      (submit_priced w stream_id s meta (ok total) r).1)
                                  sum (priced-Accepted stream_id s meta total r result h3));
                        }
                  ]
            ]
      ]
