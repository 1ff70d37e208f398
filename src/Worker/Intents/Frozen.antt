-- ===== src/Worker/Intents/Frozen.antt =====
-- app/services/orders.py, `mark_confirmed` and `release_order_seat`: holds that are frozen, or deleted.
use fast_api.Base.{
  ℕ, ◌≡◌, refl, ap, sym, ◌∙◌, inl, inr, false, ◌==◌, some, List, [], ◌∷◌, map, All, arith,
  Bool-cases, Option-cases,
}
use fast_api.Database.{Order, SeatHold, find_order, delete_hold}
use fast_api.Orders.{freeze}
use fast_api.Worker.Intents.{overlaps, overlaps_any}
use fast_api.Worker.Intents.Holds.{Disjoint, Booked}

-- What a hold keeps when it is frozen.
record SameSeats (h h' : SeatHold) : Type 0 where
  order : h'.order_id ≡ h.order_id
  event : h'.event_id ≡ h.event_id
  zone : h'.zone_id ≡ h.zone_id
  block : h'.block_id ≡ h.block_id
  start : h'.start_pos ≡ h.start_pos
  length : h'.length ≡ h.length

freeze-SameSeats : (now id : ℕ) (h : SeatHold) → SameSeats h (freeze now id h)
unfolding freeze
freeze-SameSeats now id h = elim (Option-cases (h.confirmed_at)) [
  | inr (at, done) ↦ rw done (record {
    order = refl;
    event = refl;
    zone = refl;
    block = refl;
    start = refl;
    length = refl;
  })
  | inl open_ ↦ elim (Bool-cases (h.order_id == id)) [
    | inl mine ↦
        rw (open_, mine)
          (record {
            order = refl;
            event = refl;
            zone = refl;
            block = refl;
            start = refl;
            length = refl;
          })
    | inr other ↦
        rw (open_, other)
          (record {
            order = refl;
            event = refl;
            zone = refl;
            block = refl;
            start = refl;
            length = refl;
          })
  ]
]

same-overlaps :
    (h h' k k' : SeatHold) → SameSeats h h' → SameSeats k k' → overlaps h' k' ≡ overlaps h k
same-overlaps h h' k k' p q =
    rw (p.event, p.block, p.start, p.length, q.event, q.block, q.start, q.length) refl

freeze-overlaps :
    (h h' : SeatHold) (now id : ℕ) (holds : List SeatHold)
    → SameSeats h h'
    → overlaps_any h' (map (freeze now id) holds) ≡ overlaps_any h holds
freeze-overlaps h h' now id [] p = refl
freeze-overlaps h h' now id (k ∷ holds) p =
    rw (same-overlaps h h' k _ p (freeze-SameSeats now id k), freeze-overlaps h h' now id holds p)
      refl

pub freeze-Disjoint :
    (now id : ℕ) (holds : List SeatHold) → Disjoint holds → Disjoint (map (freeze now id) holds)
freeze-Disjoint now id [] d = tt
freeze-Disjoint now id (h ∷ holds) d = (
  freeze-overlaps h _ now id holds (freeze-SameSeats now id h) ∙ d.0,
  freeze-Disjoint now id holds d.1,
)

pub freeze-Booked :
    (now id : ℕ) (orders : List Order) (holds : List SeatHold)
    → All (Booked orders) holds
    → All (Booked orders) (map (freeze now id) holds)
freeze-Booked now id orders [] a = tt
freeze-Booked now id orders (h ∷ holds) ((o, found, e, z, q), a) =
    let p = freeze-SameSeats now id h in
    (
      (
        o,
        ap (λ (j : ℕ). find_order j orders) p.order ∙ found,
        e ∙ sym p.event,
        z ∙ ap some (sym p.zone),
        q ∙ sym p.length,
      ),
      freeze-Booked now id orders holds a,
    )

pub All-delete_hold :
    (P : SeatHold → Type 0) (id : ℕ) (holds : List SeatHold)
    → All P holds
    → All P (delete_hold id holds)
All-delete_hold P id [] a = tt
All-delete_hold P id (h ∷ holds) a = ground (arith, All-delete_hold P id holds a.1)

pub delete-overlaps :
    (h : SeatHold) (id : ℕ) (holds : List SeatHold)
    → overlaps_any h holds ≡ false
    → overlaps_any h (delete_hold id holds) ≡ false
delete-overlaps h id [] e = refl
delete-overlaps h id (k ∷ holds) e = ground (arith, delete-overlaps h id holds)

pub delete-Disjoint :
    (id : ℕ) (holds : List SeatHold) → Disjoint holds → Disjoint (delete_hold id holds)
delete-Disjoint id [] d = tt
delete-Disjoint id (h ∷ holds) d =
    ground (arith, delete-Disjoint id holds d.1, delete-overlaps h id holds d.0)
