-- ===== src/Worker/Stream/Drain.antt =====
-- app/worker.py, `reclaim_stale_order_intents`: the tries that one entry lives through.
use fast_api.Base.{
  ℕ, suc, ◌+◌, ◌<◌, ◌≤◌, ◌≡◌, ◌⊎◌, refl, sym, subst, inl, inr, true, leb, Option, none, some,
  is_some, List, [], ◌∷◌, All, length, Hash, hget, hset, hdel, hget-hset, hget-hdel, nat_eq, arith,
  Bool-cases,
}
use fast_api.Exceptions.{Result, ok, err}
use fast_api.Redis.{Redis, Intent, Claim, at_self}
use fast_api.Database.{Database}
use fast_api.Inventory.{release}
use fast_api.Worker.Intents.{Catalogue, Outcome, persisted, duplicate, failed, find_key}
use fast_api.Worker.Intents.Persist.{Persisted, persist_intent-Persisted}
use fast_api.Worker.Stream.{
  Worker, Pass, Sweep, Fault, no_fault, before_commit, before_ack, plain_return, park,
  mark_claim_failed, refund, dead_letter_intent, ack_and_remove, settle, acknowledge, deliver,
  retry, reclaim_entry,
}

hget-hdel_self : {V : Type 0} (k : ℕ) (h : Hash ℕ V) → hget k (hdel k h) ≡ none
hget-hdel_self k h = rw (hget-hdel k k h) (ground arith)

hget-hset_self : {V : Type 0} (k : ℕ) (v : V) (h : Hash ℕ V) → hget k (hset k v h) ≡ some v
hget-hset_self k v h = rw (hget-hset k k v h) (ground arith)

pub Persisted-known :
    (id : ℕ) (i : Intent) (db db' : Database)
    → Persisted id i db (ok persisted) db'
    → is_some (find_key i.idempotency_key db'.orders) ≡ true
Persisted-known id i db db' (full, new, inl (z, b, e)) =
    subst (λ (d : Database). is_some (find_key i.idempotency_key d.orders) ≡ true) (sym e)
      (ground arith)
Persisted-known id i db db' (full, new, inr (zone, block, start, z, b, apart, e)) =
    subst (λ (d : Database). is_some (find_key i.idempotency_key d.orders) ≡ true) (sym e)
      (ground arith)

module _ {F : Type 0} where
  -- The entry waits, delivered `times` times.
  abbrev pub Waits : ℕ → Intent → ℕ → Worker F → Type 0
  Waits entry i times w = (hget entry w.pending ≡ some times) × (hget entry w.redis.stream ≡ some i)

  -- The entry is gone, and its intent has an order or a failed claim.
  pub record Settled (entry : ℕ) (i : Intent) (w : Worker F) : Type 0 where
    pub not_pending : hget entry w.pending ≡ none
    pub removed : hget entry w.redis.stream ≡ none
    pub answered :
        (is_some (find_key i.idempotency_key w.db.orders) ≡ true)
        ⊎ (w.redis.claim i.idempotency_key ≡ some Claim.failed)

  acked-Settled :
      (entry : ℕ) (i : Intent) (w : Worker F)
      → (is_some (find_key i.idempotency_key w.db.orders) ≡ true)
        ⊎ (w.redis.claim i.idempotency_key ≡ some Claim.failed)
      → Settled entry i (ack_and_remove entry w)
  unfolding ack_and_remove
  acked-Settled entry i w known = record {
    not_pending = hget-hdel_self entry w.pending;
    removed = hget-hdel_self entry w.redis.stream;
    answered = known;
  }

  settle-ends :
      (id entry : ℕ) (i : Intent) (times : ℕ) (db : Database) (answer : Result Outcome)
      (w : Worker F)
      → Persisted id i db answer w.db
      → Waits entry i times w
      → Settled entry i (settle entry answer w) ⊎ Waits entry i times (settle entry answer w)
  unfolding settle
  settle-ends id entry i times db (ok persisted) w p q =
      inl (acked-Settled entry i w (inl (Persisted-known id i db w.db p)))
  settle-ends id entry i times db (ok duplicate) w (e, known) q = inl (
      acked-Settled entry i w (
        inl (
          subst (λ (d : Database). is_some (find_key i.idempotency_key d.orders) ≡ true) (sym e)
            known)))
  settle-ends id entry i times db (ok failed) w p q = inr q
  settle-ends id entry i times db (err e) w p q = inr q

  acknowledge-ends :
      (f : Fault) (id entry : ℕ) (i : Intent) (times : ℕ) (answer : Result Outcome) (db : Database)
      (w : Worker F)
      → Persisted id i w.db answer db
      → Waits entry i times w
      → Settled entry i (acknowledge f entry answer db w)
        ⊎ Waits entry i times (acknowledge f entry answer db w)
  unfolding acknowledge
  acknowledge-ends no_fault id entry i times answer db w p q =
      settle-ends id entry i times w.db answer (record w { db = db }) p q
  acknowledge-ends before_commit id entry i times answer db w p q = inr q
  acknowledge-ends before_ack id entry i times answer db w p q = inr q

  deliver-ends :
      (c : Catalogue) (p : Pass) (entry : ℕ) (i : Intent) (times : ℕ) (w : Worker F)
      → Waits entry i times w
      → Settled entry i (deliver c p entry i w) ⊎ Waits entry i times (deliver c p entry i w)
  unfolding deliver
  deliver-ends c p entry i times w q =
      acknowledge-ends (p.fault entry) (p.order_id entry) entry i times _ _ w
        (persist_intent-Persisted c (p.order_id entry) i w.db) q

  pub refund-plain :
      (i : Intent) (block : Option ℕ) (r : Redis F)
      → block ≡ none
      → refund i block r ≡ (ok tt, (release (plain_return i) r).1)
  unfolding refund
  refund-plain i none r b = refl
  refund-plain i (some block) r b = cc

  -- The dead-letter path of an intent without a block.
  dead_letter_plain :
      (others : Redis F → Redis F) (entry : ℕ) (i : Intent) (db : Database) (r : Redis F)
      → i.block_id ≡ none
      → ((dead_letter_intent others entry i db r).0 ≡ ok tt)
        × ((dead_letter_intent others entry i db r).1.claim i.idempotency_key ≡ some Claim.failed)
  unfolding dead_letter_intent mark_claim_failed
  dead_letter_plain others entry i db r b =
      elim (Bool-cases (is_some (find_key i.idempotency_key db.orders))) [
        | inl known ↦
            rw known
              (refl, at_self i.idempotency_key (some Claim.failed) (others (park entry i r)).claim)
        | inr unknown ↦
            rw (unknown, refund-plain i i.block_id (others (park entry i r)) b)
              (
                refl,
                at_self i.idempotency_key (some Claim.failed)
                    (refund i i.block_id (others (park entry i r))).1.claim,
              )
      ]

  gone-Settled :
      (c : Catalogue) (v : Sweep F) (max_deliveries entry : ℕ) (i : Intent) (w : Worker F)
      → Settled entry i w
      → Settled entry i (reclaim_entry c v max_deliveries entry w).1
  unfolding reclaim_entry
  gone-Settled c v max_deliveries entry i w s = rw (s.not_pending, reclaim_entry) s

  retry-ends :
      (c : Catalogue) (v : Sweep F) (max_deliveries times entry : ℕ) (i : Intent) (w : Worker F)
      → i.block_id ≡ none
      → Waits entry i (suc times) w
      → Settled entry i (retry c v max_deliveries times entry i w).1
        ⊎ ((times < max_deliveries)
            × Waits entry i (suc times) (retry c v max_deliveries times entry i w).1)
  unfolding retry
  retry-ends c v max_deliveries times entry i w b q = elim (Bool-cases (leb max_deliveries times)) [
    | inl exhausted ↦
        let (ends, claimed) = dead_letter_plain (v.others entry) entry i w.db w.redis b in
        rw (exhausted, ends)
          (inl (
            acked-Settled entry i
              (record w { redis = (dead_letter_intent (v.others entry) entry i w.db w.redis).1 })
              (inr claimed)))
    | inr again ↦ rw again (elim (deliver-ends c v.pass entry i (suc times) w q) [
      | inl done ↦ inl done
      | inr waits ↦ inr (ground arith, waits)
    ])
  ]

  reclaim-ends :
      (c : Catalogue) (v : Sweep F) (max_deliveries times entry : ℕ) (i : Intent) (w : Worker F)
      → i.block_id ≡ none
      → v.pass.idle entry ≡ true
      → Waits entry i times w
      → Settled entry i (reclaim_entry c v max_deliveries entry w).1
        ⊎ ((times < max_deliveries)
            × Waits entry i (suc times) (reclaim_entry c v max_deliveries entry w).1)
  unfolding reclaim_entry
  reclaim-ends c v max_deliveries times entry i w b idle (known, there) =
      rw (known, idle, there, reclaim_entry)
        (retry-ends c v max_deliveries times entry i
          (record w { pending = hset entry (suc times) w.pending }) b
          (hget-hset_self entry (suc times) w.pending, there))

  -- One entry, each time that the loop of a pass comes to it.
  abbrev pub reclaims : Catalogue → List (Sweep F) → ℕ → ℕ → Worker F → Worker F
  reclaims c [] max_deliveries entry w = w
  reclaims c (v ∷ sweeps) max_deliveries entry w =
      reclaims c sweeps max_deliveries entry (reclaim_entry c v max_deliveries entry w).1

  reclaims-Settled :
      (c : Catalogue) (sweeps : List (Sweep F)) (max_deliveries entry : ℕ) (i : Intent)
      (w : Worker F)
      → Settled entry i w
      → Settled entry i (reclaims c sweeps max_deliveries entry w)
  reclaims-Settled c [] max_deliveries entry i w s = s
  reclaims-Settled c (v ∷ sweeps) max_deliveries entry i w s =
      reclaims-Settled c sweeps max_deliveries entry i _
        (gone-Settled c v max_deliveries entry i w s)

  -- No intent without a block waits for ever, if the reclaim reaches it: an entry that waits,
  -- delivered `times` times, no more than the maximum, is settled once the loop of the reclaim has
  -- come to it and found it idle more often than deliveries are left, whatever faults cut the tries
  -- to persist it short, and whatever happens in Redis while its dead-letter path, which no failure
  -- cuts short, waits for the database. It is neither pending nor in the stream, and its key has an
  -- order or a failed claim. A pass that ends before it comes to the entry is not counted.
  pub reclaims-settle :
      (c : Catalogue) (sweeps : List (Sweep F)) (max_deliveries times entry : ℕ) (i : Intent)
      (w : Worker F)
      → i.block_id ≡ none
      → All (λ (v : Sweep F). v.pass.idle entry ≡ true) sweeps
      → times ≤ max_deliveries
      → max_deliveries < times + length sweeps
      → Waits entry i times w
      → Settled entry i (reclaims c sweeps max_deliveries entry w)
  reclaims-settle c [] max_deliveries times entry i w b idle below enough q = ground arith
  reclaims-settle c (v ∷ sweeps) max_deliveries times entry i w b idle below enough q =
      elim (reclaim-ends c v max_deliveries times entry i w b idle.0 q) [
        | inl done ↦ reclaims-Settled c sweeps max_deliveries entry i _ done
        | inr (few, waits) ↦
            reclaims-settle c sweeps max_deliveries (suc times) entry i _ b idle.1 (omega arith)
              (omega arith) waits
      ]
