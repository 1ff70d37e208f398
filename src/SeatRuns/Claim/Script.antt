-- ===== src/SeatRuns/Claim/Script.antt =====
-- app/services/seat_runs.py, `_CLAIM_SEATS_LUA` as a whole: what each reply promises.
use fast_api.Base.{
  ℕ, ◌+◌, ◌≤◌, ◌<◌, ◌≡◌, refl, ◌≢◌, ◌⊎◌, inl, inr, Bool, true, false, ◌&&◌, ◌||◌, not, Option, none,
  some, is_some, Hash, hget, hset, hget-hset, nat_eq, field_eq, ◌++◌, [], ◌∷◌, ◌==◌, arith, ap,
  subst, sym, ◌∙◌, Bool-cases, ltb,
}
use fast_api.Base.Int.{ℤ, pos, ◌+ℤ◌, ◌-ℤ◌, ◌≤ℤ◌, ltb_ℤ}
use fast_api.Redis.{Redis, ZoneKeys, EventKeys, Claim, Intent, incrby, at_self, at_zone_self}
use fast_api.Seating.Runs.Free.{free}
use fast_api.Seating.Runs.Occupy.{in_interval}
use fast_api.SeatRuns.Snapshot.{runs_of, remaining}
use fast_api.SeatRuns.Index.{IsConsistent}
use fast_api.SeatRuns.Index.Entries.{entry}
use fast_api.SeatRuns.Claim.{
  Args, Reply, dup, retry, bounds, over_limit, ok, field, or_zero, stale, take_seats, claim_seats,
}
use fast_api.SeatRuns.Claim.Cut.{cut_runs-IsRuns, free-cut_runs, remaining-cut_runs}
use fast_api.SeatRuns.Claim.CutIndex.{cut-IsIndex}

-- A counter of `m` seats, down by `k`, counts the `n` that are left.
pub counted_down :
    (counter : Option ℤ) (k n m : ℕ)
    → counter ≡ some (pos m)
    → n + k ≡ m
    → incrby counter (pos 0 -ℤ pos k) ≡ pos n
unfolding ◌+ℤ◌ ◌-ℤ◌
counted_down counter k n m e s = rw e (ground arith)

pub pos-+ : (n k m : ℕ) → n + k ≡ m → pos n +ℤ pos k ≡ pos m
unfolding ◌+ℤ◌
pos-+ n k m e = ground arith

-- Charging a quota adds to what is read back.
pub quota_up :
    (user quantity : ℕ) (h : Hash ℕ ℤ)
    → or_zero (hget user (hset user (incrby (hget user h) (pos quantity)) h))
      ≡ or_zero (hget user h) +ℤ pos quantity
unfolding ◌+ℤ◌
quota_up user quantity h =
    rw (hget-hset user user (incrby (hget user h) (pos quantity)) h) (ground arith)

-- What a counter is down by, and up by again.
taken_back :
    (counter : Option ℤ) (k : ℕ) → incrby counter (pos 0 -ℤ pos k) +ℤ pos k ≡ or_zero counter
unfolding ◌+ℤ◌ ◌-ℤ◌
taken_back none k = ground arith
taken_back (some n) k = ground arith

-- The entry that a claim writes to the stream.
abbrev pub intent_of : Args → Intent
intent_of a = record {
  user_id = a.user_id;
  event_id = a.event_id;
  quantity = a.length;
  total_price_cents = a.total_price_cents;
  idempotency_key = a.idempotency_key;
  zone_id = some a.zone_id;
  block_id = some a.block;
  start_pos = some a.start;
}

module _ {F : Type 0} where
  abbrev pub zone_of : Args → Redis F → ZoneKeys F
  zone_of a r = r.zone a.event_id a.zone_id

  abbrev pub free_in : Args → Redis F → ℕ → ℕ → Bool
  free_in a r = free (runs_of (zone_of a r).runs)

  abbrev pub held_by : Args → Redis F → ℤ
  held_by a r = or_zero (hget a.user_id (r.event a.event_id).purchased)

  abbrev pub event_left : Args → Redis F → ℤ
  event_left a r = or_zero (r.event a.event_id).available

  -- The seats of a successful claim: free before, and alone taken.
  pub record TakesSeats (a : Args) (r r' : Redis F) : Type 0 where
    pub consistent : IsConsistent (zone_of a r')
    pub were_free :
        (block seat : ℕ)
        → in_interval a.block a.start a.length block seat ≡ true
        → free_in a r block seat ≡ true
    pub only_these :
        (block seat : ℕ)
        → free_in a r' block seat
          ≡ (free_in a r block seat && not (in_interval a.block a.start a.length block seat))

  -- The counters of the zone and of the event move with the seats: the buyer's quota is charged and
  -- stays within the limit. The intent is enqueued.
  pub record Charges (stream_id : ℕ) (a : Args) (zone_remaining : ℤ) (r r' : Redis F) : Type 0 where
    pub zone_counter : zone_remaining ≡ pos (remaining (runs_of (zone_of a r').runs))
    pub event_counter : event_left a r' +ℤ pos a.length ≡ event_left a r
    pub seats_left : zone_remaining +ℤ pos a.length ≡ pos (remaining (runs_of (zone_of a r).runs))
    pub quota : held_by a r' ≡ held_by a r +ℤ pos a.length
    pub within_limit : held_by a r' ≤ℤ pos a.limit
    pub claimed : is_some (r.claim a.idempotency_key) ≡ false
    pub now_claimed : r'.claim a.idempotency_key ≡ some Claim.pending
    pub enqueued : r'.stream ≡ r.stream ++ (stream_id, intent_of a) ∷ []
    pub other_events : (e : ℕ) → (e == a.event_id) ≡ false → r'.event e ≡ r.event e

  abbrev pub Claimed : Args → Redis F → Reply → Redis F → Type 0
  Claimed a r dup r' = (r' ≡ r) × (is_some (r.claim a.idempotency_key) ≡ true)
  Claimed a r (over_limit held limit) r' =
      (r' ≡ r) × (held ≡ held_by a r) × (limit ≡ a.limit) × ¬ (held +ℤ pos a.length ≤ℤ pos limit)
  Claimed a r retry r' =
      (r' ≡ r) × (hget (field a.block a.run_start) (zone_of a r).runs ≢ some a.run_length)
  Claimed a r bounds r' =
      (r' ≡ r) × ((a.start < a.run_start) ⊎ (a.run_start + a.run_length < a.start + a.length))
  Claimed a r (ok stream_id zone_remaining) r' =
      TakesSeats a r r' × Charges stream_id a zone_remaining r r'

  take_seats-TakesSeats :
      (stream_id : ℕ) (a : Args) (r : Redis F)
      → IsConsistent (zone_of a r)
      → 0 < a.length
      → hget (field a.block a.run_start) (zone_of a r).runs ≡ some a.run_length
      → a.run_start ≤ a.start
      → a.start + a.length ≤ a.run_start + a.run_length
      → TakesSeats a r (take_seats stream_id a r).1
  unfolding take_seats
  take_seats-TakesSeats stream_id a r c full host below above =
      let z = zone_of a r in
      let e = entry a.block a.run_start a.run_length z.runs c.zone.maximal host in
      record {
        consistent = rw (at_zone_self {A = ZoneKeys F} a.event_id a.zone_id) (record {
          zone = record {
            maximal =
                cut_runs-IsRuns a.block a.run_start a.run_length a.start a.length below above full
                  z.runs e;
            indexed =
                cut-IsIndex a.block a.run_start a.run_length a.start a.length below above full
                  z.runs z.ends c.zone host;
          };
          counted = ap some (
              counted_down z.available a.length _ _ c.counted (
                remaining-cut_runs a.block a.run_start a.run_length a.start a.length below above
                  full z.runs e));
        });
        were_free = λ block seat i. ground (arith, e.parts block seat);
        only_these = λ block seat.
            ap (λ (k : ZoneKeys F). free (runs_of k.runs) block seat)
              (at_zone_self a.event_id a.zone_id _ r.zone)
            ∙ free-cut_runs a.block a.run_start a.run_length a.start a.length below above full
                z.runs e block seat;
      }

  take_seats-Charges :
      (stream_id : ℕ) (a : Args) (r : Redis F)
      → IsConsistent (zone_of a r)
      → 0 < a.length
      → hget (field a.block a.run_start) (zone_of a r).runs ≡ some a.run_length
      → a.run_start ≤ a.start
      → a.start + a.length ≤ a.run_start + a.run_length
      → held_by a r +ℤ pos a.length ≤ℤ pos a.limit
      → is_some (r.claim a.idempotency_key) ≡ false
      → (zone_remaining : ℤ) × (take_seats stream_id a r
          ≡ (ok stream_id zone_remaining, (take_seats stream_id a r).1))
        × Charges stream_id a zone_remaining r (take_seats stream_id a r).1
  unfolding take_seats
  take_seats-Charges stream_id a r c full host below above within unclaimed =
      let z = zone_of a r in
      let e = entry a.block a.run_start a.run_length z.runs c.zone.maximal host in
      let cut =
        remaining-cut_runs a.block a.run_start a.run_length a.start a.length below above full z.runs
          e in
      let counter = counted_down z.available a.length _ _ c.counted cut in
      let quota : held_by a (take_seats stream_id a r).1 ≡ held_by a r +ℤ pos a.length =
        ap (λ (k : EventKeys). or_zero (hget a.user_id k.purchased)) (at_self a.event_id _ r.event)
        ∙ quota_up a.user_id a.length (r.event a.event_id).purchased in
      (
        incrby z.available (pos 0 -ℤ pos a.length),
        refl,
        record {
          zone_counter =
              counter
              ∙ ap (λ (k : ZoneKeys F). pos (remaining (runs_of k.runs)))
                  (sym (at_zone_self a.event_id a.zone_id _ r.zone));
          event_counter =
              ap (λ (k : EventKeys). or_zero k.available +ℤ pos a.length)
                (at_self a.event_id _ r.event)
              ∙ taken_back (r.event a.event_id).available a.length;
          seats_left = rw counter (pos-+ _ a.length _ cut);
          quota = quota;
          within_limit = rw quota within;
          claimed = unclaimed;
          now_claimed = at_self a.idempotency_key _ r.claim;
          enqueued = refl;
          other_events = λ e h. rw h refl;
        },
      )

  ok-Claimed :
      (stream_id : ℕ) (a : Args) (r : Redis F)
      → IsConsistent (zone_of a r)
      → 0 < a.length
      → hget (field a.block a.run_start) (zone_of a r).runs ≡ some a.run_length
      → a.run_start ≤ a.start
      → a.start + a.length ≤ a.run_start + a.run_length
      → held_by a r +ℤ pos a.length ≤ℤ pos a.limit
      → is_some (r.claim a.idempotency_key) ≡ false
      → Claimed a r (take_seats stream_id a r).0 (take_seats stream_id a r).1
  ok-Claimed stream_id a r c full host below above within unclaimed =
      let (zone_remaining, reply, charges) =
        take_seats-Charges stream_id a r c full host below above within unclaimed in
      subst (λ p. Claimed a r p (take_seats stream_id a r).1)
        (sym (ap (λ (p : Reply × Redis F). p.0) reply))
        (take_seats-TakesSeats stream_id a r c full host below above, charges)

  -- On a consistent zone, and for at least one seat, each reply of the claim script keeps its
  -- promise. DUP: nothing changes, the key has a claim. OVER_LIMIT: nothing changes, the buyer would
  -- hold more than the limit. RETRY: nothing changes, the run is no longer what it was. BOUNDS:
  -- nothing changes, the interval leaves the run. OK: the seats were free, they alone are taken,
  -- the zone stays consistent; its counter goes down by their number to what the reply says, the
  -- counter of the event goes down by it, the quota goes up by it within the limit; the intent is
  -- enqueued, the key, new, is claimed, and other events keep their counters.
  pub claim_seats-Claimed :
      (stream_id : ℕ) (a : Args) (r : Redis F)
      → IsConsistent (zone_of a r)
      → 0 < a.length
      → Claimed a r (claim_seats stream_id a r).0 (claim_seats stream_id a r).1
  unfolding claim_seats
  claim_seats-Claimed stream_id a r c full =
      let z = zone_of a r in
      elim (Bool-cases (is_some (r.claim a.idempotency_key))) [
        | inl seen ↦ rw seen (refl, seen)
        | inr unseen ↦ elim (Bool-cases (ltb_ℤ (pos a.limit) (held_by a r +ℤ pos a.length))) [
          | inl over ↦ rw (unseen, over) (refl, refl, refl, ground arith)
          | inr within ↦
              elim (Bool-cases (stale (hget (field a.block a.run_start) z.runs) a.run_length)) [
                | inl moved ↦ rw (unseen, within, moved) (refl, ground arith)
                | inr current ↦
                    elim (Bool-cases (
                      ltb a.start a.run_start
                      || ltb (a.run_start + a.run_length) (a.start + a.length))) [
                        | inl outside ↦ rw (unseen, within, current, outside) (refl, ground arith)
                        | inr inside ↦
                            rw (unseen, within, current, inside)
                              (ok-Claimed stream_id a r c full (ground arith) (ground arith)
                                (ground arith) (ground arith) unseen)
                      ]
              ]
        ]
      ]
