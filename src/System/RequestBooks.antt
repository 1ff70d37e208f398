-- ===== src/System/RequestBooks.antt =====
-- app/services/inventory.py, `reserve_and_enqueue`: the keys and claims after a request.
use fast_api.Base.{
  ℕ, ◌≡◌, ◌≢◌, refl, sym, subst, inl, inr, true, false, none, is_some, [], ◌∷◌, All, All-mono,
  All-append, nat_eq, arith,
}
use fast_api.Redis.{Redis, Intent, Claim}
use fast_api.Database.{Database}
use fast_api.Inventory.{Args, reserve_and_enqueue}
use fast_api.System.Tally.{Distinct, Distinct-snoc}
use fast_api.System.Books.{entry_key, entry_id, Orderly}
use fast_api.System.Requests.{intent_of, claimed_after, Writes, Leaves, reserve-Effect}

module _ {F : Type 0} where
  Leaves-Orderly : (db : Database) (r r' : Redis F) → Leaves r r' → Orderly db r → Orderly db r'
  Leaves-Orderly db r r' l o = record {
    keys = subst (Distinct entry_key) (sym l.stream) o.keys;
    ids = subst (Distinct entry_id) (sym l.stream) o.ids;
    rows = o.rows;
    claimed_entries = rw (l.stream, l.claim) o.claimed_entries;
    claimed_orders = rw l.claim o.claimed_orders;
    claimed_markers = λ key. rw (l.released, l.claim) (o.claimed_markers key);
    owing = rw l.released o.owing;
    not_given_up = rw l.released o.not_given_up;
    plain_entries = rw l.stream o.plain_entries;
    plain_orders = o.plain_orders;
  }

  new_key :
      (j key : ℕ) (r : Redis F)
      → is_some (r.claim j) ≡ true
      → j ≡ key
      → is_some (r.claim key) ≡ false
      → ⊥
  new_key j key r h same new = let h' = subst (λ (k : ℕ). is_some (r.claim k) ≡ true) same h in cc

  Writes-Orderly :
      (s : ℕ) (a : Args) (db : Database) (r r' : Redis F)
      → a.zone_id ≡ none
      → All (λ (p : ℕ × Intent). p.0 ≢ s) r.stream
      → Writes s a r r'
      → Orderly db r
      → Orderly db r'
  Writes-Orderly s a db r r' plain fresh w o =
      let p : ℕ × Intent = (s, intent_of a) in
      let claims = claimed_after a.idempotency_key Claim.pending r.claim in
      record {
        keys = subst (Distinct entry_key) (sym w.stream) (
            Distinct-snoc entry_key r.stream p o.keys (
              All-mono _ _ r.stream
                (λ q h same. new_key (entry_key q) a.idempotency_key r h same w.unclaimed)
                o.claimed_entries));
        ids =
            subst (Distinct entry_id) (sym w.stream)
              (Distinct-snoc entry_id r.stream p o.ids fresh);
        rows = o.rows;
        claimed_entries =
            rw (w.stream, w.claim)
              (All-append _ r.stream (p ∷ [])
                (All-mono _ _ r.stream (λ q. claims (entry_key q)) o.claimed_entries)
                (ground arith, tt));
        claimed_orders =
            rw w.claim (All-mono _ _ db.orders (λ q. claims q.idempotency_key) o.claimed_orders);
        claimed_markers =
            λ key. rw (w.released, w.claim) (let h = o.claimed_markers key in ground arith);
        owing = rw w.released o.owing;
        not_given_up = rw w.released o.not_given_up;
        plain_entries =
            rw w.stream (All-append _ r.stream (p ∷ []) o.plain_entries ((plain, refl), tt));
        plain_orders = o.plain_orders;
      }

  pub request-Orderly :
      (s : ℕ) (a : Args) (db : Database) (r : Redis F)
      → a.zone_id ≡ none
      → All (λ (p : ℕ × Intent). p.0 ≢ s) r.stream
      → Orderly db r
      → Orderly db (reserve_and_enqueue s a r).1
  request-Orderly s a db r plain fresh o = elim (reserve-Effect s a r) [
    | inl (refused, l) ↦ Leaves-Orderly db r _ l o
    | inr (sells, w) ↦ Writes-Orderly s a db r _ plain fresh w o
  ]
