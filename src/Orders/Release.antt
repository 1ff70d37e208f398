-- ===== src/Orders/Release.antt =====
-- app/services/orders.py, `release_order_seat`: the seats of an order go back.
use fast_api.Base.{
  ℕ, ◌≡◌, refl, ap, sym, subst, inl, inr, Bool, false, none, some, List, [], ◌∷◌, arith,
  Option-cases,
}
use fast_api.Exceptions.{Result, ok}
use fast_api.Redis.{Redis, Marker}
use fast_api.Database.{Database, Order, SeatHold, find_hold, delete_hold}
use fast_api.Inventory.{release, ReleaseArgs}
use fast_api.Inventory.Repeats.{release-once}
use fast_api.SeatRuns.Release.{Args, release_seats}

abbrev pub hold_args : Order → ℕ → SeatHold → Args
hold_args o zone hold = record {
  event_id = o.event_id;
  zone_id = zone;
  block = hold.block_id;
  start = hold.start_pos;
  length = hold.length;
  user_id = o.user_id;
  marker = Marker.order o.id;
}

abbrev pub plain_args : Order → ReleaseArgs
plain_args o = record {
  event_id = o.event_id;
  user_id = o.user_id;
  quantity = o.quantity;
  marker = Marker.order o.id;
}

find-delete : (id : ℕ) (holds : List SeatHold) → find_hold id (delete_hold id holds) ≡ none
find-delete id [] = refl
find-delete id (h ∷ holds) = ground (arith, find-delete id holds)

module _ {F : Type 0} where
  -- The hold is deleted and committed before Redis is told.
  unfoldable pub release_order_seat : Order → Database → Redis F → Result Bool × Database × Redis F
  release_order_seat o db r = elim (o.zone_id) [
    | none ↦ let (answer, r') = release (plain_args o) r in (ok answer, db, r')
    | some zone ↦ elim (find_hold o.id db.holds) [
      | none ↦ (ok false, db, r)
      | some hold ↦
          let (answer, r') = release_seats (hold_args o zone hold) r in
          (answer, record db { holds = delete_hold o.id db.holds }, r')
    ]
  ]

  pub without_zone :
      (o : Order) (db : Database) (r : Redis F)
      → o.zone_id ≡ none
      → release_order_seat o db r
        ≡ (ok (release (plain_args o) r).0, db, (release (plain_args o) r).1)
  unfolding release_order_seat
  without_zone o db r plain = rw (plain, release_order_seat) refl

  pub without_hold :
      (o : Order) (zone : ℕ) (db : Database) (r : Redis F)
      → o.zone_id ≡ some zone
      → find_hold o.id db.holds ≡ none
      → release_order_seat o db r ≡ (ok false, db, r)
  unfolding release_order_seat
  without_hold o zone db r seated gone = rw (seated, gone, release_order_seat) refl

  pub with_hold :
      (o : Order) (zone : ℕ) (hold : SeatHold) (db : Database) (r : Redis F)
      → o.zone_id ≡ some zone
      → find_hold o.id db.holds ≡ some hold
      → release_order_seat o db r ≡ (
        (release_seats (hold_args o zone hold) r).0,
        record db { holds = delete_hold o.id db.holds },
        (release_seats (hold_args o zone hold) r).1,
      )
  unfolding release_order_seat
  with_hold o zone hold db r seated held = rw (seated, held, release_order_seat) refl

  -- Seats go back once: a second release of an order, right after a first that returned them, found
  -- them returned or failed, answers False and changes neither the database nor Redis.
  pub release_order_seat-once :
      (o : Order) (db : Database) (r : Redis F)
      → release_order_seat o (release_order_seat o db r).1 (release_order_seat o db r).2
        ≡ (ok false, (release_order_seat o db r).1, (release_order_seat o db r).2)
  unfolding release_order_seat
  release_order_seat-once o db r = elim (Option-cases (o.zone_id)) [
    | inl plain ↦ rw plain (
        ap (λ (p : Bool × Redis F). (Result.ok p.0, db, p.1))
          (release-once (plain_args o) (plain_args o) [] r refl))
    | inr (zone, seated) ↦ elim (Option-cases (find_hold o.id db.holds)) [
      | inl gone ↦
          subst
            (λ (p : Result Bool × Database × Redis F).
              release_order_seat o p.1 p.2 ≡ (ok false, p.1, p.2))
            (sym (without_hold o zone db r seated gone)) (without_hold o zone db r seated gone)
      | inr (hold, held) ↦
          subst
            (λ (p : Result Bool × Database × Redis F).
              release_order_seat o p.1 p.2 ≡ (ok false, p.1, p.2))
            (sym (with_hold o zone hold db r seated held))
            (without_hold o zone _ _ seated (find-delete o.id db.holds))
    ]
  ]
