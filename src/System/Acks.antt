-- ===== src/System/Acks.antt =====
-- app/worker.py, `_ack_and_remove`, as part of a step of the system.
use fast_api.Base.{
  Has, Has-All, ℕ, ◌+◌, ◌≡◌, ◌≢◌, refl, ap, sym, ◌∙◌, subst, inl, inr, Bool, false, ◌&&◌, ◌==◌,
  List, [], ◌∷◌, All, All-mono, hdel, nat_eq, arith, Bool-cases,
}
use fast_api.Redis.{Redis, Intent}
use fast_api.Database.{Database}
use fast_api.System.Tally.{tally, Distinct}
use fast_api.System.Books.{entry_key, entry_id, entry_seats, is_waiting, kept, Balanced, Orderly}

All-hdel : (P : ℕ × Intent → Type 0) (k : ℕ) (h : List (ℕ × Intent)) → All P h → All P (hdel k h)
All-hdel P k [] a = tt
All-hdel P k ((j, v) ∷ h) a = ground (arith, All-hdel P k h a.1)

Distinct-hdel :
    (key : ℕ × Intent → ℕ) (k : ℕ) (h : List (ℕ × Intent))
    → Distinct key h
    → Distinct key (hdel k h)
Distinct-hdel key k [] d = tt
Distinct-hdel key k ((j, v) ∷ h) d = elim (Bool-cases (k == j)) [
  | inl here ↦ rw here (Distinct-hdel key k h d.1)
  | inr there ↦ rw there (All-hdel (λ q. key q ≢ key (j, v)) k h d.0, Distinct-hdel key k h d.1)
]

-- The entries under the id are not due.
abbrev Idle : ℕ → (ℕ → Bool) → ℕ × Intent → Type 0
Idle entry due p = ((p.0 == entry) && due (entry_key p)) ≡ false

elsewhere-Idle :
    (entry : ℕ) (due : ℕ → Bool) (h : List (ℕ × Intent))
    → All (λ q. entry_id q ≢ entry) h
    → All (Idle entry due) h
elsewhere-Idle entry due h a = All-mono _ (Idle entry due) h (λ q ne. ground arith) a

all-Idle :
    (entry : ℕ) (i : Intent) (due : ℕ → Bool) (h : List (ℕ × Intent))
    → Distinct entry_id h
    → Has (entry, i) h
    → due i.idempotency_key ≡ false
    → All (Idle entry due) h
all-Idle entry i due [] d has off = tt
all-Idle entry i due (p ∷ h) d (inl e) off = (
  subst (Idle entry due) (sym e) (ground arith),
  elsewhere-Idle entry due h
      (subst (λ (q : ℕ × Intent). All (λ s. entry_id s ≢ entry_id q) h) e d.0),
)
all-Idle entry i due (p ∷ h) d (inr has) off =
    let differs = Has-All (λ q. entry_id q ≢ entry_id p) (entry, i) h d.0 has in
    (ground arith, all-Idle entry i due h d.1 has off)

tally-hdel :
    (e entry : ℕ) (due : ℕ → Bool) (h : List (ℕ × Intent))
    → All (Idle entry due) h
    → tally entry_key (entry_seats e) due (hdel entry h) ≡ tally entry_key (entry_seats e) due h
tally-hdel e entry due [] a = refl
tally-hdel e entry due (p ∷ h) a = ground (arith, tally-hdel e entry due h a.1)

module _ {F : Type 0} where
  abbrev pub removed : ℕ → Redis F → Redis F
  removed entry r = record r { stream = hdel entry r.stream }

  -- An entry that does not wait can go.
  pub ack-Balanced :
      (e total entry : ℕ) (i : Intent) (db : Database) (r : Redis F)
      → Has (entry, i) r.stream
      → is_waiting db r i.idempotency_key ≡ false
      → Orderly db r
      → Balanced e total db r
      → Balanced e total db (removed entry r)
  ack-Balanced e total entry i db r has off o b = record {
    left = b.left;
    counter = b.counter;
    sum =
        ap (λ (n : ℕ). b.left + (n + kept e db r))
          (tally-hdel e entry (is_waiting db r) r.stream
            (all-Idle entry i (is_waiting db r) r.stream o.ids has off))
        ∙ b.sum;
  }

  pub ack-Orderly :
      (entry : ℕ) (db : Database) (r : Redis F) → Orderly db r → Orderly db (removed entry r)
  ack-Orderly entry db r o = record {
    keys = Distinct-hdel entry_key entry r.stream o.keys;
    ids = Distinct-hdel entry_id entry r.stream o.ids;
    rows = o.rows;
    claimed_entries = All-hdel _ entry r.stream o.claimed_entries;
    claimed_orders = o.claimed_orders;
    claimed_markers = o.claimed_markers;
    owing = o.owing;
    not_given_up = o.not_given_up;
    plain_entries = All-hdel _ entry r.stream o.plain_entries;
    plain_orders = o.plain_orders;
  }
