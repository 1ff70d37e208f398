-- ===== src/Inventory.antt =====
-- app/services/inventory.py: the counter of an event without a seat map, its two Lua scripts and
-- the calls around them.
pub mod Scripts
pub mod Trace
pub mod Repeats
pub mod Reconcile
use fast_api.Base.{
  ℕ, ◌+◌, ◌-◌, Bool, true, false, ◌&&◌, ltb, leb, ◌==◌, if◌then◌else◌, Option, none, some, is_some,
  List, [], ◌∷◌, ◌++◌, Hash, hget, hset, hdel, nat_eq, length,
}
use fast_api.Base.Int.{ℤ, pos, negsuc, ◌+ℤ◌, ◌-ℤ◌, ltb_ℤ, leb_ℤ, eqb_ℤ}
use fast_api.Exceptions.{Result, Error, err, insufficient_inventory}
use fast_api.Redis.{Redis, EventKeys, Intent, Claim, Marker, incrby, at, at_marker}
use fast_api.SeatRuns.Claim.{or_zero}
use fast_api.SeatRuns.Release.{return_quota}

-- KEYS and ARGV of `_RESERVE_AND_ENQUEUE_LUA`.
pub record Args : Type 0 where
  pub event_id : ℕ
  pub user_id : ℕ
  pub quantity : ℕ
  pub total_price_cents : ℕ
  pub idempotency_key : ℕ
  pub zone_id : Option ℕ
  pub limit : ℕ

pub data Reply : Type 0 where
  dup : Reply
  sold_out : ℤ → Reply
  over_limit : ℤ → ℕ → Reply
  ok : ℕ → ℤ → Reply

-- KEYS and ARGV of `_RELEASE_LUA`.
pub record ReleaseArgs : Type 0 where
  pub event_id : ℕ
  pub user_id : ℕ
  pub quantity : ℕ
  pub marker : Marker

pub data ReleaseReply : Type 0 where
  dup : ReleaseReply
  ok : ℤ → ReleaseReply

pub data ReserveOutcome : Type 0 where
  ok dup sold_out over_limit : ReserveOutcome

pub record ReserveResult : Type 0 where
  pub outcome : ReserveOutcome
  pub stream_id : Option ℕ
  pub available : Option ℤ
  pub held : Option ℤ
  pub limit : Option ℕ

-- `avail == nil or avail < qty`
abbrev pub short_of : Option ℤ → ℕ → Bool
short_of none quantity = true
short_of (some available) quantity = ltb_ℤ available (pos quantity)

-- `max(0, n)`
abbrev pub at_least_zero : ℤ → ℕ
at_least_zero (pos n) = n
at_least_zero (negsuc n) = 0

module _ {F : Type 0} where
  abbrev pub edit_event : ℕ → (EventKeys → EventKeys) → Redis F → Redis F
  edit_event e f r = record r { event = at e (f (r.event e)) r.event }

  abbrev pub poke : ℕ → Redis F → Redis F
  poke e r = record r { pokes = e ∷ r.pokes }

  pub queue_depth : Redis F → ℕ × ℕ
  queue_depth r = (length r.stream, length r.dead)

  -- `SET ... NX`
  pub set_initial_stock : ℕ → ℕ → Redis F → Redis F
  set_initial_stock event_id total_seats r = elim ((r.event event_id).available) [
    | some n ↦ r
    | none ↦ edit_event event_id (λ e. record e { available = some (pos total_seats) }) r
  ]

  unfoldable pub read_available : ℕ → Redis F → Option ℤ
  read_available event_id r = (r.event event_id).available

  unfoldable pub get_available : ℕ → Redis F → ℕ
  get_available event_id r = at_least_zero (or_zero ((r.event event_id).available))

  -- Steps 4 to 6 of the reserve script, under the stream id that Redis gives to the entry.
  unfoldable pub take : ℕ → ℤ → Args → Redis F → Reply × Redis F
  take stream_id available a r =
      let e = r.event a.event_id in
      let intent : Intent = record {
        user_id = a.user_id;
        event_id = a.event_id;
        quantity = a.quantity;
        total_price_cents = a.total_price_cents;
        idempotency_key = a.idempotency_key;
        zone_id = a.zone_id;
        block_id = none;
        start_pos = none;
      } in
      (
        Reply.ok stream_id (available -ℤ pos a.quantity),
        record r {
          event =
              at a.event_id
                (record e {
                  available = some (incrby e.available (pos 0 -ℤ pos a.quantity));
                  purchased =
                      hset a.user_id (incrby (hget a.user_id e.purchased) (pos a.quantity))
                        e.purchased;
                })
                r.event;
          stream = r.stream ++ (stream_id, intent) ∷ [];
          claim = at a.idempotency_key (some Claim.pending) r.claim;
        },
      )

  unfoldable pub reserve_script : ℕ → Args → Redis F → Reply × Redis F
  unfolding take
  reserve_script stream_id a r =
      let e = r.event a.event_id in
      let held = or_zero (hget a.user_id e.purchased) in
      if is_some (r.claim a.idempotency_key)
      then (Reply.dup, r)
      else if short_of e.available a.quantity
      then (Reply.sold_out (or_zero e.available), r)
      else if ltb_ℤ (pos a.limit) (held +ℤ pos a.quantity)
      then (Reply.over_limit held a.limit, r)
      else take stream_id (or_zero e.available) a r

  -- The reply as a `ReserveResult`, and a poke where the last seats went.
  unfoldable pub after_reserve : Args → Reply → Redis F → ReserveResult × Redis F
  after_reserve a Reply.dup r = (
    record {
      outcome = ReserveOutcome.dup;
      stream_id = none;
      available = none;
      held = none;
      limit = none;
    },
    r,
  )
  after_reserve a (Reply.sold_out n) r = (
    record {
      outcome = ReserveOutcome.sold_out;
      stream_id = none;
      available = some n;
      held = none;
      limit = none;
    },
    r,
  )
  after_reserve a (Reply.over_limit h l) r = (
    record {
      outcome = ReserveOutcome.over_limit;
      stream_id = none;
      available = none;
      held = some h;
      limit = some l;
    },
    r,
  )
  after_reserve a (Reply.ok s n) r = (
    record {
      outcome = ReserveOutcome.ok;
      stream_id = some s;
      available = none;
      held = none;
      limit = none;
    },
    if eqb_ℤ n (pos 0) then poke a.event_id r else r,
  )

  unfoldable pub reserve_and_enqueue : ℕ → Args → Redis F → ReserveResult × Redis F
  unfolding reserve_script after_reserve
  reserve_and_enqueue stream_id a r =
      let (reply, r') = reserve_script stream_id a r in after_reserve a reply r'

  -- `reserve`: `DECRBY`, and `INCRBY` to undo it where the counter fell below zero.
  unfoldable pub reserve : ℕ → ℕ → Redis F → Result (Unit {0}) × Redis F
  reserve event_id quantity r =
      let left = incrby ((r.event event_id).available) (pos 0 -ℤ pos quantity) in
      let counted = edit_event event_id (λ e. record e { available = some left }) r in
      if ltb_ℤ left (pos 0)
      then (
        err (insufficient_inventory event_id quantity (left +ℤ pos quantity)),
        edit_event event_id (λ e. record e { available = some (left +ℤ pos quantity) }) counted,
      )
      else if eqb_ℤ left (pos 0)
      then (Result.ok tt, poke event_id counted)
      else (Result.ok tt, counted)

  unfoldable pub release_script : ReleaseArgs → Redis F → ReleaseReply × Redis F
  unfolding return_quota
  release_script a r =
      let e = r.event a.event_id in
      let new_available = incrby e.available (pos a.quantity) in
      if r.released a.marker then (ReleaseReply.dup, r) else (
        ReleaseReply.ok new_available,
        record r {
          released = at_marker a.marker true r.released;
          event =
              at a.event_id
                (record e {
                  available = some new_available;
                  purchased = return_quota a.user_id a.quantity e.purchased;
                })
                r.event;
        },
      )

  -- `False` for a replay; a poke where the event comes back from sold out.
  unfoldable pub after_release : ReleaseArgs → ReleaseReply → Redis F → Bool × Redis F
  after_release a ReleaseReply.dup r = (false, r)
  after_release a (ReleaseReply.ok n) r = (
    true,
    if leb_ℤ (n -ℤ pos a.quantity) (pos 0) && ltb_ℤ (pos 0) n then poke a.event_id r else r,
  )

  unfoldable pub release : ReleaseArgs → Redis F → Bool × Redis F
  unfolding release_script after_release
  release a r = let (reply, r') = release_script a r in after_release a reply r'
