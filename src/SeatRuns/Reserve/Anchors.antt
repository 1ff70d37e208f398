-- ===== src/SeatRuns/Reserve/Anchors.antt =====
-- app/services/seat_runs.py, `reserve_seats_and_enqueue`: the anchor that is claimed and the run of
-- the snapshot that holds it.
use fast_api.Base.{
  ℕ, zero, suc, ◌+◌, ◌≤◌, ◌<◌, ◌≡◌, refl, subst, inl, inr, Bool, true, false, ◌||◌, ltb, some,
  is_some, List, [], ◌∷◌, length, get_elem?, All, All-append, All-mono, Hash, hget, nat_eq,
  field_eq, arith, Bool-cases, Option-cases,
}
use fast_api.Base.Int.{pos, ◌+ℤ◌, ltb_ℤ}
use fast_api.Floats.{FloatOps}
use fast_api.Exceptions.{
  Result, Result-cases, ok_injective, err, ok, stop_iteration, seat_placement_out_of_run,
}
use fast_api.Redis.{Redis}
use fast_api.Seating.Geometry.{Policy, BlockGeometry, Run, Placement}
use fast_api.Seating.Candidates.{candidates}
use fast_api.Seating.Candidates.Legal.{IsLegal, candidates-IsLegal}
use fast_api.Seating.Choice.{all_candidates, legal_anchors, sorted}
use fast_api.Seating.Choice.Order.{sorted-All}
use fast_api.Seating.Runs.{contains}
use fast_api.SeatRuns.Claim.{Args, Reply, claim_seats, take_seats, stale, or_zero, field}
use fast_api.SeatRuns.Reserve.{
  World, Request, Next, finished, again, find_host, claim_args, after_claim, claim_anchor,
}

-- The run of a placement is found.
abbrev HasHost : {F : Type 0} → List Run → Placement F → Type 0
HasHost runs p = is_some (find_host runs p.block_id p.start p.length) ≡ true

-- An outcome that only a placement outside its run could have.
abbrev pub is_misplaced : Next → Bool
is_misplaced again = false
is_misplaced (finished (Result.ok reservation)) = false
is_misplaced (finished (err e)) = elim e [
  | stop_iteration ↦ true
  | seat_placement_out_of_run event zone block start length ↦ true
  | _ ↦ false
]

abbrev is_bounds : Reply → Bool
is_bounds Reply.bounds = true
is_bounds Reply.dup = false
is_bounds Reply.retry = false
is_bounds (Reply.over_limit held limit) = false
is_bounds (Reply.ok s n) = false

find_host-inside :
    (runs : List Run) (block start length : ℕ) (host : Run)
    → find_host runs block start length ≡ some host
    → (host.start ≤ start) × (start + length ≤ host.start + host.length)
unfolding find_host contains
find_host-inside [] block start length host h = ground arith
find_host-inside (run ∷ runs) block start length host h =
    elim (Bool-cases (contains run block start length)) [
      | inl here ↦ let it = rw here at h in ground arith
      | inr elsewhere ↦ find_host-inside runs block start length host (rw elsewhere at h)
    ]

module _ {F : Type 0} ⦃fl : FloatOps F⦄ where
  candidate-HasHost :
      (run : Run) (runs : List Run) (quantity : ℕ) (policy : Policy F) (p : Placement F)
      → IsLegal run quantity policy p
      → HasHost (run ∷ runs) p
  unfolding find_host contains
  candidate-HasHost run runs quantity policy p legal = ground arith

  later-HasHost :
      (run : Run) (runs : List Run) (p : Placement F) → HasHost runs p → HasHost (run ∷ runs) p
  unfolding find_host
  later-HasHost run runs p h = ground arith

  all_candidates-HasHost :
      (runs : List Run) (quantity : ℕ) (geometry : Hash ℕ (BlockGeometry F)) (policy : Policy F)
      (found : List (Placement F))
      → all_candidates runs quantity geometry policy ≡ ok found
      → All (HasHost runs) found
  unfolding all_candidates
  all_candidates-HasHost [] quantity geometry policy [] h = tt
  all_candidates-HasHost [] quantity geometry policy (p ∷ ps) h = ground arith
  all_candidates-HasHost (run ∷ runs) quantity geometry policy found h =
      elim (Option-cases (hget run.block_id geometry)) [
        | inl missing ↦ let h' = rw (missing, all_candidates) at h in ground arith
        | inr (geo, mapped) ↦
            let h' = rw (mapped, all_candidates) at h in
            elim (Result-cases (all_candidates runs quantity geometry policy)) [
              | inl (e, failed) ↦ let h'' = rw failed at h' in ground arith
              | inr (rest, later) ↦
                  subst (All (HasHost (run ∷ runs))) (ok_injective _ found (rw later at h')) (
                    All-append (HasHost (run ∷ runs)) (candidates run quantity geo policy) rest
                      (All-mono (IsLegal run quantity policy) (HasHost (run ∷ runs))
                        (candidates run quantity geo policy)
                        (candidate-HasHost run runs quantity policy)
                        (candidates-IsLegal run quantity geo policy))
                      (All-mono (HasHost runs) (HasHost (run ∷ runs)) rest (later-HasHost run runs)
                        (all_candidates-HasHost runs quantity geometry policy rest later)))
            ]
      ]

  claim_seats-inside :
      (stream_id : ℕ) (a : Args) (r : Redis F)
      → a.run_start ≤ a.start
      → a.start + a.length ≤ a.run_start + a.run_length
      → is_bounds (claim_seats stream_id a r).0 ≡ false
  unfolding claim_seats take_seats
  claim_seats-inside stream_id a r low high =
      let inside : (ltb a.start a.run_start
            || ltb (a.run_start + a.run_length) (a.start + a.length))
          ≡ false =
        ground arith in
      elim (Bool-cases (is_some (r.claim a.idempotency_key))) [
        | inl seen ↦ rw seen refl
        | inr unseen ↦
            elim (Bool-cases (
              ltb_ℤ (pos a.limit)
                (or_zero (hget a.user_id (r.event a.event_id).purchased) +ℤ pos a.length))) [
                  | inl over ↦ rw (unseen, over) refl
                  | inr within ↦
                      elim (Bool-cases (
                        stale (hget (field a.block a.run_start) (r.zone a.event_id a.zone_id).runs)
                          a.run_length)) [
                            | inl moved ↦ rw (unseen, within, moved) refl
                            | inr current ↦ rw (unseen, within, current, inside) refl
                          ]
                ]
      ]

  after_claim-placed :
      (q : Request) (p : Placement F) (reply : Reply) (r : Redis F)
      → is_bounds reply ≡ false
      → is_misplaced (after_claim q p reply r).0 ≡ false
  unfolding after_claim
  after_claim-placed q p Reply.dup r h = refl
  after_claim-placed q p Reply.retry r h = refl
  after_claim-placed q p (Reply.over_limit held limit) r h = refl
  after_claim-placed q p (Reply.ok s n) r h = refl
  after_claim-placed q p Reply.bounds r h = ground arith

  claim_anchor-placed :
      (w : World F) (q : Request) (policy : Policy F) (attempt : ℕ) (runs : List Run)
      (p : Placement F) (r : Redis F)
      → HasHost runs p
      → is_misplaced (claim_anchor w q policy attempt runs (some p) r).0 ≡ false
  unfolding claim_anchor
  claim_anchor-placed w q policy attempt runs p r hosted =
      elim (Option-cases (find_host runs p.block_id p.start p.length)) [
        | inl lost ↦ let h = rw lost at hosted in ground arith
        | inr (host, found) ↦
            let (low, high) = find_host-inside runs p.block_id p.start p.length host found in
            let now = w.before_claim attempt r in
            let result = claim_seats (w.stream_id attempt) (claim_args q p host) now in
            rw (found, claim_anchor)
              (after_claim-placed q p result.0 result.1
                (claim_seats-inside (w.stream_id attempt) (claim_args q p host) now low high))
      ]

  get_hosted :
      (runs : List Run) (anchors : List (Placement F)) (i : ℕ)
      → All (HasHost runs) anchors
      → i < length anchors
      → (p : Placement F) × (get_elem? anchors i ≡ some p) × HasHost runs p
  get_hosted runs [] i h l = ground arith
  get_hosted runs (p ∷ anchors) zero h l = (p, refl, h.0)
  get_hosted runs (p ∷ anchors) (suc i) h l = get_hosted runs anchors i h.1 (ground arith)

  -- Whatever other clients do between the read and the claim: where the anchors of a snapshot are
  -- computed and one of them is chosen, its claim is not refused as lying outside the run, and its
  -- run is found.
  pub claim_anchor-inside :
      (w : World F) (q : Request) (policy : Policy F) (attempt : ℕ) (runs : List Run) (quantity : ℕ)
      (geometry : Hash ℕ (BlockGeometry F)) (anchors : List (Placement F)) (i : ℕ) (r : Redis F)
      → legal_anchors runs quantity geometry policy ≡ ok anchors
      → i < length anchors
      → is_misplaced (claim_anchor w q policy attempt runs (get_elem? anchors i) r).0 ≡ false
  unfolding legal_anchors
  claim_anchor-inside w q policy attempt runs quantity geometry anchors i r h l =
      elim (Result-cases (all_candidates runs quantity geometry policy)) [
        | inl (e, failed) ↦ let h' = rw (failed, legal_anchors) at h in ground arith
        | inr (found, all) ↦
            let h' = rw (all, legal_anchors) at h in
            let hosted = subst (All (HasHost runs)) (ok_injective (sorted found) anchors h') (
              sorted-All (HasHost runs) found
                (all_candidates-HasHost runs quantity geometry policy found all)) in
            let (p, chosen, host) = get_hosted runs anchors i hosted l in
            rw chosen (claim_anchor-placed w q policy attempt runs p r host)
      ]
