-- ===== src/Inventory/Reconcile.antt =====
-- app/services/inventory.py: the counters of an event rebuilt from the orders in the database.
use fast_api.Base.{
  ℕ, ◌+◌, ◌≡◌, ◌≢◌, refl, ap, sym, subst, ◌∙◌, ◌⊎◌, inl, inr, Bool, true, false, ◌&&◌, ◌==◌, not,
  if◌then◌else◌, none, some, List, [], ◌∷◌, Hash, hget, hset, hget-hset, nat_eq, length, arith,
  Bool-cases, Option-cases,
}
use fast_api.Base.Int.{ℤ, pos, ◌+ℤ◌, ◌-ℤ◌}
use fast_api.Exceptions.{
  OrderStatus, pending, paid, confirmed, expired, cancelled, Result, err, event_not_found,
  inventory_not_reconcilable,
}
use fast_api.Redis.{Redis, EventKeys, incrby, at_self}
use fast_api.Database.{Database, Order, is_held}
use fast_api.SeatRuns.Claim.{or_zero}
use fast_api.SeatRuns.Release.Script.{incrby-or_zero}
use fast_api.Inventory.{edit_event}
use fast_api.Inventory.Scripts.{counter_of, quota_of, hget-hset_other}
use fast_api.SeatRuns.Claim.Script.{pos-+}

-- `SELECT coalesce(sum(quantity), 0) WHERE event_id = ... AND status IN held`, in
-- `reconcile_inventory`.
unfoldable pub held_sum : ℕ → List Order → ℕ
held_sum event_id [] = 0
held_sum event_id (o ∷ orders) =
    (if (o.event_id == event_id) && is_held o.status then o.quantity else 0)
    + held_sum event_id orders

-- The query of `compute_expected_available`, which stands on its own in the source.
unfoldable pub expected_sum : ℕ → List Order → ℕ
expected_sum event_id [] = 0
expected_sum event_id (o ∷ orders) =
    let rest = expected_sum event_id orders in
    if (o.event_id == event_id) && is_held o.status then o.quantity + rest else rest

-- `SELECT user_id, sum(quantity) ... GROUP BY user_id`
unfoldable pub quota_rows : ℕ → List Order → Hash ℕ ℤ
quota_rows event_id [] = []
quota_rows event_id (o ∷ orders) =
    let rows = quota_rows event_id orders in
    if (o.event_id == event_id) && is_held o.status
    then hset o.user_id (incrby (hget o.user_id rows) (pos o.quantity)) rows
    else rows

pub compute_expected_quotas : Database → ℕ → Hash ℕ ℤ
unfolding quota_rows
compute_expected_quotas db event_id = quota_rows event_id db.orders

unfoldable pub compute_expected_available : Database → ℕ → Result ℤ
compute_expected_available db event_id = elim (db.events event_id) [
  | none ↦ err (event_not_found event_id)
  | some total_seats ↦ Result.ok (pos total_seats -ℤ pos (expected_sum event_id db.orders))
]

module _ {F : Type 0} where
  abbrev pub read_purchase_quotas : ℕ → Redis F → Hash ℕ ℤ
  read_purchase_quotas event_id r = (r.event event_id).purchased

  -- `DEL` and `HSET` in one transaction.
  unfoldable pub rebuild_purchase_quotas : Database → ℕ → Redis F → Redis F
  rebuild_purchase_quotas db event_id r =
      edit_event event_id (λ e. record e { purchased = quota_rows event_id db.orders }) r

  unfoldable pub reconcile_inventory : Database → ℕ → Bool → Redis F → Result ℤ × Redis F
  unfolding rebuild_purchase_quotas
  reconcile_inventory db event_id force r =
      let backlog = length r.stream in
      if not force && not (backlog == 0)
      then (err (inventory_not_reconcilable event_id backlog (length r.dead)), r)
      else elim (db.events event_id) [
        | none ↦ (err (event_not_found event_id), r)
        | some total_seats ↦
            let remaining = pos total_seats -ℤ pos (held_sum event_id db.orders) in
            (
              Result.ok remaining,
              rebuild_purchase_quotas db event_id
                  (edit_event event_id (λ e. record e { available = some remaining }) r),
            )
      ]

-- The two queries agree.
pub expected-held :
    (event_id : ℕ) (orders : List Order) → expected_sum event_id orders ≡ held_sum event_id orders
unfolding expected_sum held_sum
expected-held event_id [] = refl
expected-held event_id (o ∷ orders) =
    let rest = expected-held event_id orders in
    elim (Bool-cases ((o.event_id == event_id) && is_held o.status)) [
      | inl counts ↦ rw counts (ground arith)
      | inr not_held ↦ rw not_held (ground arith)
    ]

-- The seats of an order, unless it was given up.
abbrev pub seats_kept : OrderStatus → ℕ → ℕ
seats_kept pending quantity = quantity
seats_kept paid quantity = quantity
seats_kept confirmed quantity = quantity
seats_kept expired quantity = 0
seats_kept cancelled quantity = 0

-- What an event has sold, row by row.
abbrev pub seats_sold : ℕ → List Order → ℕ
seats_sold event_id [] = 0
seats_sold event_id (o ∷ orders) =
    (if o.event_id == event_id then seats_kept o.status o.quantity else 0)
    + seats_sold event_id orders

held-kept : (s : OrderStatus) (n : ℕ) → (if is_held s then n else 0) ≡ seats_kept s n
held-kept pending n = refl
held-kept paid n = refl
held-kept confirmed n = refl
held-kept expired n = refl
held-kept cancelled n = refl

held-sold :
    (event_id : ℕ) (orders : List Order) → held_sum event_id orders ≡ seats_sold event_id orders
unfolding held_sum
held-sold event_id [] = refl
held-sold event_id (o ∷ orders) =
    let rest = held-sold event_id orders in let own = held-kept o.status o.quantity in ground arith

back_to : (total sold : ℕ) → (pos total -ℤ pos sold) +ℤ pos sold ≡ pos total
unfolding ◌-ℤ◌ ◌+ℤ◌
back_to total sold = ground arith

-- What one buyer holds of one event, row by row.
abbrev pub user_sum : ℕ → ℕ → List Order → ℕ
user_sum event_id user [] = 0
user_sum event_id user (o ∷ orders) =
    (if (o.event_id == event_id) && is_held o.status && (o.user_id == user) then o.quantity else 0)
    + user_sum event_id user orders

charge :
    (j user k n : ℕ) (rows : Hash ℕ ℤ)
    → or_zero (hget j rows) ≡ pos n
    → or_zero (hget j (hset user (incrby (hget user rows) (pos k)) rows))
      ≡ pos ((if user == j then k else 0) + n)
charge j user k n rows h = elim (Bool-cases (j == user)) [
  | inl same ↦
      let j_is : j ≡ user = ground arith in
      ap or_zero (hget-hset j user _ rows)
      ∙ rw same (
          incrby-or_zero (hget user rows) (pos k)
          ∙ ap (λ (i : ℤ). i +ℤ pos k) (subst (λ (i : ℕ). or_zero (hget i rows) ≡ pos n) j_is h)
          ∙ pos-+ n k ((if user == j then k else 0) + n) (ground arith))
  | inr other ↦ ap or_zero (hget-hset_other j user _ rows other) ∙ h ∙ ground arith
]

not_empty : {A : Type 0} (xs : List A) → length xs ≢ 0 → xs ≢ []
not_empty xs h e = h (ap length e)

empty_of_length : {A : Type 0} (xs : List A) → length xs ≡ 0 → xs ≡ []
empty_of_length [] h = refl
empty_of_length (x ∷ xs) h = ground arith

or_zero-quota_rows :
    (event_id user : ℕ) (orders : List Order)
    → or_zero (hget user (quota_rows event_id orders)) ≡ pos (user_sum event_id user orders)
unfolding quota_rows
or_zero-quota_rows event_id user [] = refl
or_zero-quota_rows event_id user (o ∷ orders) =
    let ih = or_zero-quota_rows event_id user orders in
    elim (Bool-cases ((o.event_id == event_id) && is_held o.status)) [
      | inl counts ↦ rw counts (
          charge user o.user_id o.quantity (user_sum event_id user orders)
            (quota_rows event_id orders) ih
          ∙ ground arith)
      | inr not_held ↦ rw not_held (ih ∙ ground arith)
    ]

module _ {F : Type 0} where
  -- The counters of an event after a reconciliation.
  pub record Settled (db : Database) (event_id : ℕ) (n : ℤ) (r r' : Redis F) : Type 0 where
    pub counter : counter_of event_id r' ≡ some n
    pub total : ℕ
    pub exists : db.events event_id ≡ some total
    pub adds_up : n +ℤ pos (seats_sold event_id db.orders) ≡ pos total
    pub expected : compute_expected_available db event_id ≡ Result.ok n
    pub quotas : (user : ℕ) → quota_of event_id user r' ≡ pos (user_sum event_id user db.orders)
    pub others : (e : ℕ) → (e == event_id) ≡ false → r'.event e ≡ r.event e

  abbrev pub Reconciled : Database → ℕ → Bool → Redis F → Result ℤ → Redis F → Type 0
  Reconciled db event_id force r (err e) r' =
      (r' ≡ r)
      × (((force ≡ false)
            × (r.stream ≢ [])
            × (e ≡ inventory_not_reconcilable event_id (length r.stream) (length r.dead)))
          ⊎ ((db.events event_id ≡ none) × (e ≡ event_not_found event_id)))
  Reconciled db event_id force r (Result.ok n) r' =
      ((force ≡ true) ⊎ (r.stream ≡ [])) × Settled db event_id n r r'

  abbrev counted : Database → ℕ → ℕ → Redis F → Redis F
  counted db event_id total r =
      edit_event event_id
        (λ e. record e { available = some (pos total -ℤ pos (held_sum event_id db.orders)) }) r

  -- A reconciliation either changes nothing, since it was not forced and intents wait to be
  -- persisted, or since the event does not exist, and says which; or it sets the counter to the
  -- number that with the seats of the pending, paid and confirmed orders of the event makes up its
  -- seats, which is what the query of the drift check computes, and each buyer's quota to the sum of the quantities of
  -- his pending, paid and confirmed orders, and leaves other events alone.
  pub reconcile_inventory-Reconciled :
      (db : Database) (event_id : ℕ) (force : Bool) (r : Redis F)
      → Reconciled db event_id force r
          (reconcile_inventory db event_id force r).0
          (reconcile_inventory db event_id force r).1
  unfolding reconcile_inventory compute_expected_available rebuild_purchase_quotas
  reconcile_inventory-Reconciled db event_id force r =
      elim (Bool-cases (not force && not (length r.stream == 0))) [
        | inl blocked ↦
            rw blocked (refl, inl (ground arith, λ e. not_empty r.stream (ground arith) e, refl))
        | inr open_ ↦ elim (Option-cases (db.events event_id)) [
          | inl missing ↦ rw (open_, missing) (refl, inr (missing, refl))
          | inr (total, known) ↦
              rw (open_, known)
                (
                  elim (Bool-cases force) [
                    | inl forced ↦ inl forced
                    | inr unforced ↦ inr (empty_of_length r.stream (ground arith))
                  ],
                  record {
                    counter =
                        ap (λ (k : EventKeys). k.available)
                          (at_self event_id _ (counted db event_id total r).event)
                        ∙ ap (λ (k : EventKeys). k.available) (at_self event_id _ r.event);
                    total = total;
                    exists = known;
                    adds_up =
                        ap (λ (k : ℕ). (pos total -ℤ pos (held_sum event_id db.orders)) +ℤ pos k)
                          (sym (held-sold event_id db.orders))
                        ∙ back_to total (held_sum event_id db.orders);
                    expected =
                        rw (known, compute_expected_available)
                          (ap (λ (k : ℕ). Result.ok (pos total -ℤ pos k))
                            (expected-held event_id db.orders));
                    quotas = λ user.
                        ap (λ (k : EventKeys). or_zero (hget user k.purchased))
                          (at_self event_id _ (counted db event_id total r).event)
                        ∙ or_zero-quota_rows event_id user db.orders;
                    others = λ e h. rw h refl;
                  },
                )
        ]
      ]
