-- ===== src/SeatRuns/Reserve.antt =====
-- app/services/seat_runs.py, `reserve_seats_and_enqueue`: read a snapshot, compute a placement,
-- claim it by the script, at most five times. Other clients act on Redis between the steps.
pub mod Anchors
use Prim.Native.Nat.{min}
use fast_api.Base.{
  ℕ, zero, suc, ◌+◌, ◌<◌, Bool, true, false, not, ltb, leb, ◌==◌, if◌then◌else◌, Option, none, some,
  List, [], ◌∷◌, length, get_elem?,
}
use fast_api.Base.Int.{ℤ, pos, pos_part, eqb_ℤ}
use fast_api.Floats.{FloatOps}
use fast_api.Exceptions.{
  Result, Error, err, insufficient_inventory, no_seats_available, seat_contention, stop_iteration,
  seat_placement_out_of_run, purchase_limit_exceeded,
}
use fast_api.Redis.{Redis, ZoneKeys, at_zone}
use fast_api.Seating.Geometry.{Policy, Run, Placement, endgame_policy, normal_policy}
use fast_api.Seating.Candidates.{feasible_quantities}
use fast_api.Seating.Choice.{legal_anchors}
use fast_api.Seating.Runs.{contains}
use fast_api.SeatRuns.Snapshot.{ZoneState, remaining, read_zone_state}
use fast_api.SeatRuns.Claim.{Args, Reply, claim_seats}

abbrev pub max_cas_attempts : ℕ
max_cas_attempts = 5

abbrev pub default_top_k : ℕ
default_top_k = 16

abbrev pub strict_miss_threshold : ℕ
strict_miss_threshold = 3

-- What the call does not decide: the random choice, the ids that Redis gives out, and what other
-- clients do before each read and between a read and its claim.
pub record World (F : Type 0) : Type 0 where
  pub randrange : ℕ → ℕ → ℕ
  pub randrange-lt : (attempt n : ℕ) → 0 < n → randrange attempt n < n
  pub stream_id : ℕ → ℕ
  pub before_read : ℕ → Redis F → Redis F
  pub before_claim : ℕ → Redis F → Redis F

-- The arguments of `reserve_seats_and_enqueue`, and the settings it reads.
pub record Request : Type 0 where
  pub event_id : ℕ
  pub zone_id : ℕ
  pub user_id : ℕ
  pub quantity : ℕ
  pub total_price_cents : ℕ
  pub idempotency_key : ℕ
  pub top_k : ℕ
  pub max_per_user : ℕ
  pub max_purchasable : ℕ

pub record SeatReservation : Type 0 where
  pub block_id : ℕ
  pub start_pos : ℕ
  pub length : ℕ
  pub stream_id : ℕ
  pub zone_remaining : ℤ

-- `next(run for run in state.runs if ...)`
unfoldable pub find_host : List Run → ℕ → ℕ → ℕ → Option Run
unfolding contains
find_host [] block_id start length = none
find_host (run ∷ runs) block_id start length =
    let rest = find_host runs block_id start length in
    if contains run block_id start length then some run else rest

-- How a claim goes on: a result, or another attempt.
pub data Next : Type 0 where
  finished : Result (Option SeatReservation) → Next
  again : Next

module _ {F : Type 0} where
  abbrev pub edit_zone : ℕ → ℕ → (ZoneKeys F → ZoneKeys F) → Redis F → Redis F
  edit_zone e z f r = record r { zone = at_zone e z (f (r.zone e z)) r.zone }

  -- `_record_strict_miss`
  unfoldable pub record_strict_miss : ℕ → ℕ → Redis F → Bool × Redis F
  record_strict_miss event_id zone_id r =
      let misses = (r.zone event_id zone_id).strict_misses + 1 in
      if ltb misses strict_miss_threshold
      then (false, edit_zone event_id zone_id (λ z. record z { strict_misses = misses }) r)
      else (
        true,
        edit_zone event_id zone_id (λ z. record z { relaxed = true; strict_misses = 0 }) r,
      )

  abbrev pub claim_args : Request → Placement F → Run → Args
  claim_args q p host = record {
    event_id = q.event_id;
    zone_id = q.zone_id;
    block = p.block_id;
    run_start = host.start;
    run_length = host.length;
    start = p.start;
    length = p.length;
    user_id = q.user_id;
    total_price_cents = q.total_price_cents;
    idempotency_key = q.idempotency_key;
    limit = q.max_per_user;
  }

  -- The branches on the reply. A success clears the misses and pokes where the zone sold out.
  unfoldable pub after_claim : Request → Placement F → Reply → Redis F → Next × Redis F
  after_claim q p Reply.dup r = (finished (Result.ok none), r)
  after_claim q p (Reply.over_limit held limit) r =
      (finished (err (purchase_limit_exceeded q.event_id q.user_id q.quantity held (pos limit))), r)
  after_claim q p Reply.bounds r = (
    finished (err (seat_placement_out_of_run q.event_id q.zone_id p.block_id p.start p.length)),
    r,
  )
  after_claim q p Reply.retry r = (again, r)
  after_claim q p (Reply.ok stream_id zone_remaining) r =
      let cleared = edit_zone q.event_id q.zone_id (λ z. record z { strict_misses = 0 }) r in
      (
        finished (
            Result.ok (
              some (record {
                block_id = p.block_id;
                start_pos = p.start;
                length = p.length;
                stream_id = stream_id;
                zone_remaining = zone_remaining;
              }))),
        if eqb_ℤ zone_remaining (pos 0)
            then record cleared { pokes = q.event_id ∷ cleared.pokes }
            else cleared,
      )

module _ {F : Type 0} ⦃fl : FloatOps F⦄ (w : World F) (q : Request) (policy : Policy F) where
  -- The claim of the chosen anchor, in the run of the snapshot that holds it.
  unfoldable pub claim_anchor : ℕ → List Run → Option (Placement F) → Redis F → Next × Redis F
  unfolding find_host after_claim claim_seats
  claim_anchor attempt runs none r = (finished (err stop_iteration), r)
  claim_anchor attempt runs (some p) r = elim (find_host runs p.block_id p.start p.length) [
    | none ↦ (finished (err stop_iteration), r)
    | some host ↦
        let (reply, r') =
          claim_seats (w.stream_id attempt) (claim_args q p host) (w.before_claim attempt r) in
        after_claim q p reply r'
  ]

  abbrev pub feasible_or : Result (List ℕ) → Error
  feasible_or (Result.ok feasible) = no_seats_available q.event_id q.zone_id q.quantity feasible
  feasible_or (err e) = e

  -- No anchor: sold out, or a strict miss that may switch the zone to the endgame policy, or no fit.
  unfoldable pub no_anchor : ZoneState F → Bool → Policy F → Redis F → Next × Redis F
  unfolding record_strict_miss
  no_anchor state relaxed effective r =
      let refused =
        Result.err (
          feasible_or
            (feasible_quantities state.runs state.geometry q.max_purchasable effective)) in
      if ltb (remaining state.runs) q.quantity
      then (
        finished (err (insufficient_inventory q.event_id q.quantity (pos (remaining state.runs)))),
        r,
      )
      else if relaxed
      then (finished refused, r)
      else (let (switch, r') = record_strict_miss q.event_id q.zone_id r in
          (if switch then again else finished refused, r'))

  abbrev pub effective : Bool → Policy F
  effective relaxed = if relaxed then endgame_policy else policy

  unfoldable pub with_anchors :
      ℕ → Bool → ZoneState F → Result (List (Placement F)) → Redis F → Next × Bool × Redis F
  unfolding claim_anchor no_anchor
  with_anchors attempt relaxed state (err e) r = (finished (err e), relaxed, r)
  with_anchors attempt relaxed state (Result.ok []) r =
      let (next, r') = no_anchor state relaxed (effective relaxed) r in (next, true, r')
  with_anchors attempt relaxed state (Result.ok (a ∷ anchors)) r =
      let choice = w.randrange attempt (min q.top_k (length (a ∷ anchors))) in
      let (next, r') = claim_anchor attempt state.runs (get_elem? (a ∷ anchors) choice) r in
      (next, relaxed, r')

  -- One pass of the loop: what it decides, and whether the zone is relaxed from now on.
  unfoldable pub attempt_once : ℕ → Bool → Redis F → Next × Bool × Redis F
  unfolding with_anchors
  attempt_once attempt relaxed r =
      let seen = w.before_read attempt r in
      elim (read_zone_state seen q.event_id q.zone_id) [
        | err e ↦ (finished (err e), relaxed, seen)
        | Result.ok state ↦
            with_anchors attempt relaxed state
              (legal_anchors state.runs q.quantity state.geometry (effective relaxed)) seen
      ]

  unfoldable pub reserve_loop : ℕ → ℕ → Bool → Redis F → Result (Option SeatReservation) × Redis F
  unfolding attempt_once
  reserve_loop zero attempt relaxed r =
      (err (seat_contention q.event_id q.zone_id max_cas_attempts), r)
  reserve_loop (suc left) attempt relaxed r =
      let (next, relaxed', r') = attempt_once attempt relaxed r in
      let later = reserve_loop left (attempt + 1) relaxed' r' in
      elim next [ finished result ↦ (result, r') | again ↦ later ]

  unfoldable pub reserve_seats_and_enqueue : Redis F → Result (Option SeatReservation) × Redis F
  unfolding reserve_loop
  reserve_seats_and_enqueue r =
      reserve_loop max_cas_attempts 1 (r.zone q.event_id q.zone_id).relaxed r
