-- ===== src/Worker/Outbox/Attempts.antt =====
-- app/worker.py, `_OUTBOX_CLAIM_SQL`: the attempts that the rows of the outbox use.
use fast_api.Base.{
  ℕ, ◌+◌, ◌*◌, ◌≤◌, ◌≡◌, refl, inl, inr, Bool, ◌&&◌, ◌==◌, if◌then◌else◌, List, [], ◌∷◌, map, All,
  arith, Bool-cases,
}
use fast_api.Database.{OutboxEntry}
use fast_api.Worker.Outbox.{outbox_max_attempts, is_selected, lease, mark_processed}

-- The attempts that the rows under an id have used, and how often a run handles them.
abbrev pub attempts_of : ℕ → List OutboxEntry → ℕ
attempts_of id [] = 0
attempts_of id (e ∷ rows) = (if e.id == id then e.attempts else 0) + attempts_of id rows

abbrev pub entries_of : ℕ → List OutboxEntry → ℕ
entries_of id [] = 0
entries_of id (e ∷ rows) = (if e.id == id then 1 else 0) + entries_of id rows

abbrev pub claims_of : ℕ → (OutboxEntry → Bool) → List OutboxEntry → ℕ
claims_of id p [] = 0
claims_of id p (e ∷ rows) = (if p e && (e.id == id) then 1 else 0) + claims_of id p rows

-- No row has used up more attempts than it has.
abbrev pub Limited : List OutboxEntry → Type 0
Limited rows = All (λ (e : OutboxEntry). e.attempts ≤ outbox_max_attempts) rows

-- The whole table is an argument of the lease of each row.
pub lease-attempts :
    (id now : ℕ) (locked : ℕ → Bool) (all rows : List OutboxEntry)
    → attempts_of id (map (lease now locked all) rows)
      ≡ attempts_of id rows + claims_of id (is_selected now locked all) rows
unfolding lease
lease-attempts id now locked all [] = refl
lease-attempts id now locked all (e ∷ rows) =
    let rest = lease-attempts id now locked all rows in
    elim (Bool-cases (is_selected now locked all e)) [
      | inl taken ↦ rw taken (ground arith)
      | inr left ↦ rw left (ground arith)
    ]

pub lease-entries :
    (id now : ℕ) (locked : ℕ → Bool) (all rows : List OutboxEntry)
    → entries_of id (map (lease now locked all) rows) ≡ entries_of id rows
unfolding lease
lease-entries id now locked all [] = refl
lease-entries id now locked all (e ∷ rows) =
    let rest = lease-entries id now locked all rows in
    elim (Bool-cases (is_selected now locked all e)) [
      | inl taken ↦ rw taken (ground arith)
      | inr left ↦ rw left (ground arith)
    ]

pub lease-Limited :
    (now : ℕ) (locked : ℕ → Bool) (all rows : List OutboxEntry)
    → Limited rows
    → Limited (map (lease now locked all) rows)
unfolding lease
lease-Limited now locked all [] h = tt
lease-Limited now locked all (e ∷ rows) h =
    let rest = lease-Limited now locked all rows h.1 in
    elim (Bool-cases (is_selected now locked all e)) [
      | inl taken ↦ rw taken (ground arith, rest)
      | inr left ↦ rw left (h.0, rest)
    ]

-- Two tables with the same attempts.
pub record SameAttempts (rows rows' : List OutboxEntry) : Type 0 where
  pub attempts : (id : ℕ) → attempts_of id rows' ≡ attempts_of id rows
  pub entries : (id : ℕ) → entries_of id rows' ≡ entries_of id rows
  pub limited : Limited rows → Limited rows'

pub mark-SameAttempts :
    (now j : ℕ) (rows : List OutboxEntry) → SameAttempts rows (map (mark_processed now j) rows)
unfolding mark_processed
mark-SameAttempts now j [] = record {
  attempts = λ id. refl;
  entries = λ id. refl;
  limited = λ h. h;
}
mark-SameAttempts now j (e ∷ rows) =
    let rest = mark-SameAttempts now j rows in
    elim (Bool-cases (e.id == j)) [
      | inl here ↦ rw here (record {
        attempts = λ id. let r = rest.attempts id in ground arith;
        entries = λ id. let r = rest.entries id in ground arith;
        limited = λ h. (h.0, rest.limited h.1);
      })
      | inr there ↦ rw there (record {
        attempts = λ id. let r = rest.attempts id in ground arith;
        entries = λ id. let r = rest.entries id in ground arith;
        limited = λ h. (h.0, rest.limited h.1);
      })
    ]

pub within_limit :
    (id : ℕ) (rows : List OutboxEntry)
    → Limited rows
    → attempts_of id rows ≤ outbox_max_attempts * entries_of id rows
within_limit id [] h = omega arith
within_limit id (e ∷ rows) h = let rest = within_limit id rows h.1 in ground arith
