-- ===== src/Orders/Rows.antt =====
-- The rows that a compare-and-set touches, counted.
use fast_api.Base.{
  ℕ, ◌+◌, ◌≤◌, ◌≡◌, refl, ap, ◌∙◌, inl, inr, Bool, true, false, ◌&&◌, ◌==◌, if◌then◌else◌, List, [],
  ◌∷◌, map, arith, Bool-cases,
}
use fast_api.Exceptions.{OrderStatus, pending, paid, confirmed, expired, cancelled}
use fast_api.Database.{Order, OutboxEntry, status_eq}
use fast_api.Orders.{is_valid, stamp, update_row, row_count}

-- The statuses whose seats must be given back.
abbrev pub owes : OrderStatus → Bool
owes expired = true
owes cancelled = true
owes pending = false
owes paid = false
owes confirmed = false

-- The rows of an order, those that owe a release, and the entries of the outbox about it.
abbrev pub rows : ℕ → List Order → ℕ
rows id [] = 0
rows id (o ∷ orders) = (if o.id == id then 1 else 0) + rows id orders

abbrev pub owing : ℕ → List Order → ℕ
owing id [] = 0
owing id (o ∷ orders) = (if (o.id == id) && owes o.status then 1 else 0) + owing id orders

abbrev pub entries : ℕ → List OutboxEntry → ℕ
entries id [] = 0
entries id (e ∷ outbox) = (if e.aggregate_id == id then 1 else 0) + entries id outbox

pub stamp-id : (now : ℕ) (s : OrderStatus) (o : Order) → (stamp now s o).id ≡ o.id
unfolding stamp
stamp-id now pending o = refl
stamp-id now paid o = refl
stamp-id now confirmed o = refl
stamp-id now expired o = refl
stamp-id now cancelled o = refl

pub stamp-status : (now : ℕ) (s : OrderStatus) (o : Order) → (stamp now s o).status ≡ s
unfolding stamp
stamp-status now pending o = refl
stamp-status now paid o = refl
stamp-status now confirmed o = refl
stamp-status now expired o = refl
stamp-status now cancelled o = refl

-- A valid transition starts where nothing is owed.
pub owes-valid : (s t : OrderStatus) → is_valid s t ≡ true → owes s ≡ false
owes-valid pending t h = refl
owes-valid paid t h = refl
owes-valid confirmed t h = refl
owes-valid expired t h = ground arith
owes-valid cancelled t h = ground arith

pub status_eq_iff : (s t : OrderStatus) → status_eq s t ≡ true → s ≡ t
status_eq_iff pending pending h = refl
status_eq_iff paid paid h = refl
status_eq_iff confirmed confirmed h = refl
status_eq_iff expired expired h = refl
status_eq_iff cancelled cancelled h = refl
status_eq_iff s t h = ground arith

pub row_count-rows :
    (id : ℕ) (s : OrderStatus) (orders : List Order) → row_count id s orders ≤ rows id orders
unfolding row_count
row_count-rows id s [] = ground arith
row_count-rows id s (o ∷ orders) = ground (arith, row_count-rows id s orders)

pub update_row-id :
    (now id : ℕ) (s t : OrderStatus) (o : Order) → (update_row now id s t o).id ≡ o.id
unfolding update_row
update_row-id now id s t o = elim (Bool-cases ((o.id == id) && status_eq o.status s)) [
  | inl hit ↦ rw hit (stamp-id now t o)
  | inr miss ↦ rw miss refl
]

pub rows-update :
    (j now id : ℕ) (s t : OrderStatus) (orders : List Order)
    → rows j (map (update_row now id s t) orders) ≡ rows j orders
rows-update j now id s t [] = refl
rows-update j now id s t (o ∷ orders) =
    rw (update_row-id now id s t o, rows-update j now id s t orders) refl

-- What one row adds to what is owed.
owed_row : ℕ → Order → ℕ
owed_row j o = if (o.id == j) && owes o.status then 1 else 0

owed_row-update :
    (j now id : ℕ) (s t : OrderStatus) (o : Order)
    → owes s ≡ false
    → owed_row j (update_row now id s t o)
      ≡ owed_row j o
        + (if (j == id) && owes t
            then (if (o.id == id) && status_eq o.status s then 1 else 0)
            else 0)
unfolding update_row owed_row
owed_row-update j now id s t o h = elim (Bool-cases ((o.id == id) && status_eq o.status s)) [
  | inl hit ↦
      let same = status_eq_iff o.status s (ground arith) in
      let was = ap owes same ∙ h in
      rw hit (rw (stamp-id now t o, stamp-status now t o, was) (ground arith))
  | inr miss ↦ rw miss (ground arith)
]

pub owing-update :
    (j now id : ℕ) (s t : OrderStatus) (orders : List Order)
    → owes s ≡ false
    → owing j (map (update_row now id s t) orders)
      ≡ owing j orders + (if (j == id) && owes t then row_count id s orders else 0)
unfolding row_count owed_row
owing-update j now id s t [] h = ground arith
owing-update j now id s t (o ∷ orders) h =
    let row = owed_row-update j now id s t o h in
    let rest = owing-update j now id s t orders h in ground arith
