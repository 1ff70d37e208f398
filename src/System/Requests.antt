-- ===== src/System/Requests.antt =====
-- app/services/inventory.py, `reserve_and_enqueue`, as a step of the system.
use fast_api.Base.{
  ℕ, ◌+◌, ◌≡◌, ◌⊎◌, refl, ap, ◌∙◌, subst, inl, inr, Bool, true, false, ◌&&◌, not, ◌==◌,
  if◌then◌else◌, Option, none, some, is_some, List, [], ◌∷◌, ◌++◌, All, hget, nat_eq, arith,
  Bool-cases,
}
use fast_api.Base.Int.{ℤ, pos, ◌+ℤ◌, ◌-ℤ◌, ltb_ℤ, eqb_ℤ}
use fast_api.Redis.{Redis, Intent, Claim, Marker, at}
use fast_api.Database.{Database, Order}
use fast_api.SeatRuns.Claim.{or_zero}
use fast_api.Inventory.{Args, short_of, take, reserve_script, after_reserve, reserve_and_enqueue}
use fast_api.Inventory.Trace.{is_ok, sold, step, reserve-conserves}
use fast_api.Worker.Intents.{find_key}
use fast_api.System.Tally.{tally, tally-append}
use fast_api.System.Books.{
  entry_key, entry_seats, order_id, order_seats, is_waiting, waiting, kept, Balanced, Orderly,
}

abbrev pub intent_of : Args → Intent
intent_of a = record {
  user_id = a.user_id;
  event_id = a.event_id;
  quantity = a.quantity;
  total_price_cents = a.total_price_cents;
  idempotency_key = a.idempotency_key;
  zone_id = a.zone_id;
  block_id = none;
  start_pos = none;
}

-- The entries and the orders as functions of what they read.
waits_in : ℕ → Database → (Marker → Bool) → List (ℕ × Intent) → ℕ
waits_in e db released stream =
    tally entry_key (entry_seats e)
      (λ key. not (is_some (find_key key db.orders)) && not (released (Marker.dead_letter key)))
      stream

pub claimed_after :
    (key : ℕ) (v : Claim) (f : ℕ → Option Claim) (j : ℕ)
    → is_some (f j) ≡ true
    → is_some (at key (some v) f j) ≡ true
claimed_after key v f j h = ground arith

module _ {F : Type 0} where
  -- A request that sells writes the entry and the claim.
  pub record Writes (s : ℕ) (a : Args) (r r' : Redis F) : Type 0 where
    pub unclaimed : is_some (r.claim a.idempotency_key) ≡ false
    pub stream : r'.stream ≡ r.stream ++ (s, intent_of a) ∷ []
    pub claim : r'.claim ≡ at a.idempotency_key (some Claim.pending) r.claim
    pub released : r'.released ≡ r.released

  pub record Leaves (r r' : Redis F) : Type 0 where
    pub stream : r'.stream ≡ r.stream
    pub claim : r'.claim ≡ r.claim
    pub released : r'.released ≡ r.released

  taken-Writes :
      (s : ℕ) (n : ℤ) (a : Args) (r : Redis F)
      → is_some (r.claim a.idempotency_key) ≡ false
      → (is_ok ((after_reserve a (take s n a r).0 (take s n a r).1).0.outcome) ≡ true)
        × Writes s a r (after_reserve a (take s n a r).0 (take s n a r).1).1
  unfolding take after_reserve
  taken-Writes s n a r new = elim (Bool-cases (eqb_ℤ (n -ℤ pos a.quantity) (pos 0))) [
    | inl out ↦
        rw out (refl, record { unclaimed = new; stream = refl; claim = refl; released = refl })
    | inr left ↦
        rw left (refl, record { unclaimed = new; stream = refl; claim = refl; released = refl })
  ]

  pub reserve-Effect :
      (s : ℕ) (a : Args) (r : Redis F)
      → ((is_ok ((reserve_and_enqueue s a r).0.outcome) ≡ false)
          × Leaves r (reserve_and_enqueue s a r).1)
        ⊎ ((is_ok ((reserve_and_enqueue s a r).0.outcome) ≡ true)
            × Writes s a r (reserve_and_enqueue s a r).1)
  unfolding reserve_and_enqueue reserve_script after_reserve
  reserve-Effect s a r =
      let e = r.event a.event_id in
      let same : Leaves r r = record { stream = refl; claim = refl; released = refl } in
      elim (Bool-cases (is_some (r.claim a.idempotency_key))) [
        | inl seen ↦ rw seen (inl (refl, same))
        | inr new ↦ elim (Bool-cases (short_of e.available a.quantity)) [
          | inl short ↦ rw (new, short) (inl (refl, same))
          | inr enough ↦
              elim (Bool-cases
                (ltb_ℤ (pos a.limit) (or_zero (hget a.user_id e.purchased) +ℤ pos a.quantity))) [
                  | inl over ↦ rw (new, enough, over) (inl (refl, same))
                  | inr within ↦
                      rw (new, enough, within) (inr (taken-Writes s (or_zero e.available) a r new))
                ]
        ]
      ]

  -- Where the stream and the markers are the same, so is what waits and what is kept.
  pub same-waiting :
      (e : ℕ) (db : Database) (r r' : Redis F)
      → r'.stream ≡ r.stream
      → r'.released ≡ r.released
      → waiting e db r' ≡ waiting e db r
  unfolding waits_in
  same-waiting e db r r' s m =
      ap (λ (f : Marker → Bool). waits_in e db f r'.stream) m
      ∙ ap (λ (l : List (ℕ × Intent)). waits_in e db r.released l) s

  pub same-kept :
      (e : ℕ) (db : Database) (r r' : Redis F)
      → r'.released ≡ r.released
      → kept e db r' ≡ kept e db r
  same-kept e db r r' m =
      ap
        (λ (f : Marker → Bool).
          tally order_id (order_seats e) (λ id. not (f (Marker.order id))) db.orders)
        m

  -- A key without a claim is new.
  unclaimed-absent :
      (key : ℕ) (r : Redis F) (orders : List Order)
      → is_some (r.claim key) ≡ false
      → All (λ (o : Order). is_some (r.claim o.idempotency_key) ≡ true) orders
      → find_key key orders ≡ none
  unclaimed-absent key r [] new c = refl
  unclaimed-absent key r (o ∷ orders) new c = elim (Bool-cases (o.idempotency_key == key)) [
    | inl same ↦
        let it : o.idempotency_key ≡ key = ground arith in
        let claimed = subst (λ (k : ℕ). is_some (r.claim k) ≡ true) it c.0 in ground arith
    | inr other ↦ rw other (unclaimed-absent key r orders new c.1)
  ]

  unclaimed-waiting :
      (key : ℕ) (db : Database) (r : Redis F)
      → is_some (r.claim key) ≡ false
      → Orderly db r
      → is_waiting db r key ≡ true
  unclaimed-waiting key db r new o =
      let absent = unclaimed-absent key r db.orders new o.claimed_orders in
      let unmarked = o.claimed_markers key in rw absent (ground arith)

  Writes-waiting :
      (e s : ℕ) (a : Args) (db : Database) (r r' : Redis F)
      → Orderly db r
      → Writes s a r r'
      → waiting e db r' ≡ waiting e db r + (if a.event_id == e then a.quantity else 0)
  Writes-waiting e s a db r r' o w =
      let due = is_waiting db r in
      let extra : tally entry_key (entry_seats e) due ((s, intent_of a) ∷ [])
          ≡ (if a.event_id == e then a.quantity else 0) =
        rw (unclaimed-waiting a.idempotency_key db r w.unclaimed o) (ground arith) in
      same-waiting e db (record r { stream = r.stream ++ (s, intent_of a) ∷ [] }) r' w.stream
        w.released
      ∙ tally-append entry_key (entry_seats e) due r.stream ((s, intent_of a) ∷ [])
      ∙ ap (λ (n : ℕ). waiting e db r + n) extra

  -- A request keeps the balance: what the counter loses waits in the stream.
  pub request-Balanced :
      (e total s : ℕ) (a : Args) (db : Database) (r : Redis F)
      → Orderly db r
      → Balanced e total db r
      → Balanced e total db (reserve_and_enqueue s a r).1
  unfolding step sold
  request-Balanced e total s a db r o b =
      let r' = (reserve_and_enqueue s a r).1 in
      let (m, counts, took) = reserve-conserves e s a r b.left b.counter in
      let before = b.sum in
      elim (reserve-Effect s a r) [
        | inl (refused, l) ↦ record {
          left = m;
          counter = counts;
          sum =
              let w = same-waiting e db r r' l.stream l.released in
              let k = same-kept e db r r' l.released in ground arith;
        }
        | inr (sells, w) ↦ record {
          left = m;
          counter = counts;
          sum =
              let more = Writes-waiting e s a db r r' o w in
              let k = same-kept e db r r' w.released in ground arith;
        }
      ]
