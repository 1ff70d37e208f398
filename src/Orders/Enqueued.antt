-- ===== src/Orders/Enqueued.antt =====
-- app/services/orders.py, `submit_order`: the entry that an accepted submission leaves in the stream.
use fast_api.Base.{
  ℕ, zero, suc, ◌+◌, ◌≡◌, ◌⊎◌, refl, ap, sym, subst, ◌∙◌, inl, inr, Bool, ◌||◌, ltb, Option, none,
  some, is_some, List, [], ◌∷◌, ◌++◌, hget, nat_eq, field_eq, arith, Bool-cases, Option-cases,
}
use fast_api.Base.Int.{ℤ, pos, ◌+ℤ◌, ◌-ℤ◌, ltb_ℤ, eqb_ℤ}
use fast_api.Exceptions.{Result, err, ok, ok_injective, Result-cases}
use fast_api.Floats.{FloatOps}
use fast_api.Redis.{Redis, Intent}
use fast_api.Inventory.{
  ReserveOutcome, ReserveResult, short_of, take, reserve_script, after_reserve, reserve_and_enqueue,
}
use fast_api.Seating.Geometry.{Policy, Placement, Run}
use fast_api.SeatRuns.Claim.{Reply, field, or_zero, stale, take_seats, claim_seats}
use fast_api.SeatRuns.Snapshot.{ZoneState, read_zone_state}
use fast_api.SeatRuns.Reserve.{
  max_cas_attempts, World, Request, Next, finished, again, SeatReservation, claim_args, after_claim,
  find_host, claim_anchor, no_anchor, with_anchors, attempt_once, reserve_loop,
  reserve_seats_and_enqueue,
}
use fast_api.Orders.Submit.{Submission, counter_args, raise_refusal, submit_counted}

-- The last entry of the stream is for this buyer, event, key and zone, at this total.
pub record Enqueued {F : Type 0} (user event key total : ℕ) (zone : Option ℕ) (r : Redis F)
    : Type 0 where
  pub before : List (ℕ × Intent)
  pub stream_id : ℕ
  pub intent : Intent
  pub last : r.stream ≡ before ++ (stream_id, intent) ∷ []
  pub for_user : intent.user_id ≡ user
  pub for_event : intent.event_id ≡ event
  pub with_key : intent.idempotency_key ≡ key
  pub in_zone : intent.zone_id ≡ zone
  pub at_total : intent.total_price_cents ≡ total

module _ {F : Type 0} where
  abbrev pub Sells : Submission → ℕ → Redis F → Type 0
  Sells s total r = Enqueued s.user_id s.event_id s.idempotency_key total s.zone_id r

  took-Sells :
      (stream_id : ℕ) (s : Submission) (total : ℕ) (n : ℤ) (r : Redis F)
      → Sells s total
          (after_reserve
            (counter_args s total)
            (take stream_id n (counter_args s total) r).0
            (take stream_id n (counter_args s total) r).1).1
  unfolding take after_reserve
  took-Sells stream_id s total n r = elim (Bool-cases (eqb_ℤ (n -ℤ pos s.quantity) (pos 0))) [
    | inl out ↦ rw out (record {
      before = r.stream;
      stream_id = stream_id;
      intent = _;
      last = refl;
      for_user = refl;
      for_event = refl;
      with_key = refl;
      in_zone = refl;
      at_total = refl;
    })
    | inr left ↦ rw left (record {
      before = r.stream;
      stream_id = stream_id;
      intent = _;
      last = refl;
      for_user = refl;
      for_event = refl;
      with_key = refl;
      in_zone = refl;
      at_total = refl;
    })
  ]

  -- The plain counter: DUP, or a new entry.
  pub counted-Sells :
      (stream_id : ℕ) (s : Submission) (total : ℕ) (r : Redis F) (result : ReserveResult)
      → (submit_counted stream_id s total r).0 ≡ ok result
      → (result.outcome ≡ ReserveOutcome.dup)
        ⊎ ((result.outcome ≡ ReserveOutcome.ok)
            × Sells s total (submit_counted stream_id s total r).1)
  unfolding submit_counted reserve_and_enqueue reserve_script raise_refusal after_reserve take
  counted-Sells stream_id s total r result h =
      let e = r.event s.event_id in
      let is_it = λ (x : ReserveResult) (g : ok x ≡ ok result).
        sym (ap (λ (y : ReserveResult). y.outcome) (ok_injective x result g)) in
      elim (Bool-cases (is_some (r.claim s.idempotency_key))) [
        | inl seen ↦ let h1 = rw seen at h in rw seen (inl (is_it _ h1))
        | inr new ↦ elim (Bool-cases (short_of e.available s.quantity)) [
          | inl short ↦ let h1 = rw (new, short) at h in ground arith
          | inr enough ↦
              elim (Bool-cases (
                ltb_ℤ (pos s.max_per_user)
                  (or_zero (hget s.user_id e.purchased) +ℤ pos s.quantity))) [
                    | inl over ↦ let h1 = rw (new, enough, over) at h in ground arith
                    | inr within ↦
                        let h1 = rw (new, enough, within) at h in
                        rw (new, enough, within)
                          (inr (is_it _ h1, took-Sells stream_id s total (or_zero e.available) r))
                  ]
        ]
      ]

  abbrev pub Seated : Request → Redis F → Type 0
  Seated q r =
      Enqueued q.user_id q.event_id q.idempotency_key q.total_price_cents (some q.zone_id) r

  -- The entry is there as long as the stream is the same.
  carry : (q : Request) (r r' : Redis F) → r'.stream ≡ r.stream → Seated q r → Seated q r'
  carry q r r' same h = record {
    before = h.before;
    stream_id = h.stream_id;
    intent = h.intent;
    last = same ∙ h.last;
    for_user = h.for_user;
    for_event = h.for_event;
    with_key = h.with_key;
    in_zone = h.in_zone;
    at_total = h.at_total;
  }

  -- A reply that sells comes with the entry.
  abbrev Writes : Request → Reply → Redis F → Type 0
  Writes q (Reply.ok stream_id n) r = Seated q r
  Writes q Reply.dup r = Unit
  Writes q Reply.retry r = Unit
  Writes q Reply.bounds r = Unit
  Writes q (Reply.over_limit held limit) r = Unit

  claim_seats-Writes :
      (stream_id : ℕ) (q : Request) (p : Placement F) (host : Run) (r : Redis F)
      → Writes q
          (claim_seats stream_id (claim_args q p host) r).0
          (claim_seats stream_id (claim_args q p host) r).1
  unfolding claim_seats take_seats
  claim_seats-Writes stream_id q p host r =
      let a = claim_args q p host in
      elim (Bool-cases (is_some (r.claim a.idempotency_key))) [
        | inl seen ↦ rw seen tt
        | inr unseen ↦
            elim (Bool-cases (
              ltb_ℤ (pos a.limit)
                (or_zero (hget a.user_id (r.event a.event_id).purchased) +ℤ pos a.length))) [
                  | inl over ↦ rw (unseen, over) tt
                  | inr within ↦
                      elim (Bool-cases (
                        stale (hget (field a.block a.run_start) (r.zone a.event_id a.zone_id).runs)
                          a.run_length)) [
                            | inl moved ↦ rw (unseen, within, moved) tt
                            | inr current ↦
                                elim (Bool-cases (
                                  ltb a.start a.run_start
                                  || ltb (a.run_start + a.run_length) (a.start + a.length))) [
                                    | inl outside ↦ rw (unseen, within, current, outside) tt
                                    | inr inside ↦
                                        rw (unseen, within, current, inside)
                                          (record {
                                            before = r.stream;
                                            stream_id = stream_id;
                                            intent = _;
                                            last = refl;
                                            for_user = refl;
                                            for_event = refl;
                                            with_key = refl;
                                            in_zone = refl;
                                            at_total = refl;
                                          })
                                  ]
                          ]
                ]
      ]

  -- The end of an attempt that sells comes with the entry.
  abbrev Ends : Request → Next → Redis F → Type 0
  Ends q again r = Unit
  Ends q (finished (err e)) r = Unit
  Ends q (finished (ok none)) r = Unit
  Ends q (finished (ok (some seats))) r = Seated q r

  after_claim-Ends :
      (q : Request) (p : Placement F) (reply : Reply) (r : Redis F)
      → Writes q reply r
      → Ends q (after_claim q p reply r).0 (after_claim q p reply r).1
  unfolding after_claim
  after_claim-Ends q p Reply.dup r h = tt
  after_claim-Ends q p Reply.retry r h = tt
  after_claim-Ends q p Reply.bounds r h = tt
  after_claim-Ends q p (Reply.over_limit held limit) r h = tt
  after_claim-Ends q p (Reply.ok s n) r h = elim (Bool-cases (eqb_ℤ n (pos 0))) [
    | inl out ↦ rw out (carry q r _ refl h)
    | inr left ↦ rw left (carry q r _ refl h)
  ]

  -- The loop ends with the attempt, or goes on.
  abbrev goes_on :
      Next
      → Redis F
      → Result (Option SeatReservation) × Redis F
      → Result (Option SeatReservation) × Redis F
  goes_on n r later = elim n [ finished result ↦ (result, r) | again ↦ later ]

  after_attempt :
      (q : Request) (n : Next) (r : Redis F) (later : Result (Option SeatReservation) × Redis F)
      (seats : SeatReservation)
      → Ends q n r
      → (later.0 ≡ ok (some seats) → Seated q later.1)
      → (goes_on n r later).0 ≡ ok (some seats)
      → Seated q (goes_on n r later).1
  after_attempt q again r later seats e rest h = rest h
  after_attempt q (finished result) r later seats e rest h =
      subst (λ (a : Result (Option SeatReservation)). Ends q (finished a) r) h e

module _ {F : Type 0} ⦃fl : FloatOps F⦄ (w : World F) (q : Request) (policy : Policy F) where
  claim_anchor-Ends :
      (attempt : ℕ) (runs : List Run) (chosen : Option (Placement F)) (r : Redis F)
      → Ends q
          (claim_anchor w q policy attempt runs chosen r).0
          (claim_anchor w q policy attempt runs chosen r).1
  unfolding claim_anchor
  claim_anchor-Ends attempt runs none r = tt
  claim_anchor-Ends attempt runs (some p) r =
      elim (Option-cases (find_host runs p.block_id p.start p.length)) [
        | inl lost ↦ rw (lost, claim_anchor) tt
        | inr (host, found) ↦
            rw (found, claim_anchor)
              (after_claim-Ends q p _ _
                (claim_seats-Writes (w.stream_id attempt) q p host (w.before_claim attempt r)))
      ]

  no_anchor-Ends :
      (state : ZoneState F) (relaxed : Bool) (effective : Policy F) (r : Redis F)
      → Ends q
          (no_anchor w q policy state relaxed effective r).0
          (no_anchor w q policy state relaxed effective r).1
  unfolding no_anchor
  no_anchor-Ends state relaxed effective r = ground arith

  with_anchors-Ends :
      (attempt : ℕ) (relaxed : Bool) (state : ZoneState F) (anchors : Result (List (Placement F)))
      (r : Redis F)
      → Ends q
          (with_anchors w q policy attempt relaxed state anchors r).0
          (with_anchors w q policy attempt relaxed state anchors r).2
  unfolding with_anchors
  with_anchors-Ends attempt relaxed state (err e) r = tt
  with_anchors-Ends attempt relaxed state (ok []) r = no_anchor-Ends state relaxed _ r
  with_anchors-Ends attempt relaxed state (ok (a ∷ anchors)) r =
      claim_anchor-Ends attempt state.runs _ r

  attempt_once-Ends :
      (attempt : ℕ) (relaxed : Bool) (r : Redis F)
      → Ends q
          (attempt_once w q policy attempt relaxed r).0
          (attempt_once w q policy attempt relaxed r).2
  unfolding attempt_once
  attempt_once-Ends attempt relaxed r =
      let seen = w.before_read attempt r in
      elim (Result-cases (read_zone_state seen q.event_id q.zone_id)) [
        | inl (e, failed) ↦ rw (failed, attempt_once) tt
        | inr (state, read) ↦
            rw (read, attempt_once) (with_anchors-Ends attempt relaxed state _ seen)
      ]

  -- After the loop: a reservation comes with its entry.
  reserve_loop-Seated :
      (left attempt : ℕ) (relaxed : Bool) (r : Redis F) (seats : SeatReservation)
      → (reserve_loop w q policy left attempt relaxed r).0 ≡ ok (some seats)
      → Seated q (reserve_loop w q policy left attempt relaxed r).1
  unfolding reserve_loop
  reserve_loop-Seated zero attempt relaxed r seats h = ground arith
  reserve_loop-Seated (suc left) attempt relaxed r seats h =
      after_attempt q (attempt_once w q policy attempt relaxed r).0
        (attempt_once w q policy attempt relaxed r).2
        (reserve_loop w q policy left (attempt + 1) (attempt_once w q policy attempt relaxed r).1
          (attempt_once w q policy attempt relaxed r).2)
        seats (attempt_once-Ends attempt relaxed r)
        (reserve_loop-Seated left (attempt + 1) (attempt_once w q policy attempt relaxed r).1
          (attempt_once w q policy attempt relaxed r).2 seats)
        h

  pub reserve_seats_and_enqueue-Seated :
      (r : Redis F) (seats : SeatReservation)
      → (reserve_seats_and_enqueue w q policy r).0 ≡ ok (some seats)
      → Seated q (reserve_seats_and_enqueue w q policy r).1
  unfolding reserve_seats_and_enqueue
  reserve_seats_and_enqueue-Seated r seats h =
      reserve_loop-Seated max_cas_attempts 1 (r.zone q.event_id q.zone_id).relaxed r seats h
