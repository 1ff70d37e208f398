-- ===== src/SeatRuns/Claim.antt =====
-- app/services/seat_runs.py, `_CLAIM_SEATS_LUA`: compare-and-set on a free run, then cut it, charge
-- the counters and the buyer's quota, enqueue the intent and write the claim.
pub mod Cut
pub mod CutIndex
pub mod Script
use fast_api.Base.{
  ℕ, ◌+◌, ◌-◌, Bool, true, false, ◌||◌, not, ltb, ◌==◌, if◌then◌else◌, Option, none, some, is_some,
  List, [], ◌∷◌, ◌++◌, Hash, hget, hset, hdel, nat_eq, Field, field_eq,
}
use fast_api.Base.Int.{ℤ, pos, ◌+ℤ◌, ◌-ℤ◌, ltb_ℤ}
use fast_api.Redis.{Redis, ZoneKeys, EventKeys, Intent, Claim, incrby, at, at_zone}

-- KEYS and ARGV of the script.
pub record Args : Type 0 where
  pub event_id : ℕ
  pub zone_id : ℕ
  pub block : ℕ
  pub run_start : ℕ
  pub run_length : ℕ
  pub start : ℕ
  pub length : ℕ
  pub user_id : ℕ
  pub total_price_cents : ℕ
  pub idempotency_key : ℕ
  pub limit : ℕ

pub data Reply : Type 0 where
  dup retry bounds : Reply
  over_limit : ℤ → ℕ → Reply
  ok : ℕ → ℤ → Reply

-- `f(block, pos)`
abbrev pub field : ℕ → ℕ → Field
field block at = record { block = block; pos = at }

-- `tonumber(redis.call('HGET', ...)) or 0`
abbrev pub or_zero : Option ℤ → ℤ
or_zero none = pos 0
or_zero (some n) = n

-- Step 3: the run is removed, and what is left of it on either side is written back.
unfoldable pub cut_runs : ℕ → ℕ → ℕ → ℕ → ℕ → Hash Field ℕ → Hash Field ℕ
cut_runs block run_start run_length start length runs =
    let left = start - run_start in
    let right = run_start + run_length - (start + length) in
    let removed = hdel (field block run_start) runs in
    let with_left = if ltb 0 left then hset (field block run_start) left removed else removed in
    if ltb 0 right then hset (field block (start + length)) right with_left else with_left

unfoldable pub cut_ends : ℕ → ℕ → ℕ → ℕ → ℕ → Hash Field ℕ → Hash Field ℕ
cut_ends block run_start run_length start length ends =
    let run_end = run_start + run_length in
    let left = start - run_start in
    let right = run_end - (start + length) in
    let removed = hdel (field block run_end) ends in
    let with_left = if ltb 0 left then hset (field block start) run_start removed else removed in
    if ltb 0 right then hset (field block run_end) (start + length) with_left else with_left

-- `not current or tonumber(current) ~= run_len`
abbrev pub stale : Option ℕ → ℕ → Bool
stale none run_length = true
stale (some current) run_length = not (current == run_length)

module _ {F : Type 0} where
  -- Steps 3 to 5, under the stream id that Redis gives to the entry.
  unfoldable pub take_seats : ℕ → Args → Redis F → Reply × Redis F
  unfolding cut_runs cut_ends
  take_seats stream_id a r =
      let z = r.zone a.event_id a.zone_id in
      let e = r.event a.event_id in
      let taken = pos 0 -ℤ pos a.length in
      let zone_remaining = incrby z.available taken in
      let intent : Intent = record {
        user_id = a.user_id;
        event_id = a.event_id;
        quantity = a.length;
        total_price_cents = a.total_price_cents;
        idempotency_key = a.idempotency_key;
        zone_id = some a.zone_id;
        block_id = some a.block;
        start_pos = some a.start;
      } in
      (
        ok stream_id zone_remaining,
        record r {
          zone =
              at_zone a.event_id a.zone_id
                (record z {
                  runs = cut_runs a.block a.run_start a.run_length a.start a.length z.runs;
                  ends = cut_ends a.block a.run_start a.run_length a.start a.length z.ends;
                  available = some zone_remaining;
                })
                r.zone;
          event =
              at a.event_id
                (record e {
                  available = some (incrby e.available taken);
                  purchased =
                      hset a.user_id (incrby (hget a.user_id e.purchased) (pos a.length))
                        e.purchased;
                })
                r.event;
          stream = r.stream ++ (stream_id, intent) ∷ [];
          claim = at a.idempotency_key (some Claim.pending) r.claim;
        },
      )

  unfoldable pub claim_seats : ℕ → Args → Redis F → Reply × Redis F
  unfolding take_seats
  claim_seats stream_id a r =
      let z = r.zone a.event_id a.zone_id in
      let held = or_zero (hget a.user_id (r.event a.event_id).purchased) in
      if is_some (r.claim a.idempotency_key)
      then (dup, r)
      else if ltb_ℤ (pos a.limit) (held +ℤ pos a.length)
      then (over_limit held a.limit, r)
      else if stale (hget (field a.block a.run_start) z.runs) a.run_length
      then (retry, r)
      else if ltb a.start a.run_start || ltb (a.run_start + a.run_length) (a.start + a.length)
      then (bounds, r)
      else take_seats stream_id a r
