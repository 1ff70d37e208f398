-- ===== src/SeatRuns/Index/Entries.antt =====
-- A hash of runs as the list of its runs, and what a field of it says.
use fast_api.Base.{
  ℕ, ◌+◌, ◌<◌, ◌≡◌, refl, ◌||◌, none, some, [], ◌∷◌, All, Hash, hget, hset, hdel, hdel_absent,
  hget-hdel, nat_eq, Field, field_eq, arith, Bool-cases, inl, inr, subst, sym, true, false, ◌⊎◌,
}
use fast_api.Seating.Geometry.{Run}
use fast_api.Seating.Runs.Free.{inside, free, Apart, Apart-symm, IsRuns}
use fast_api.SeatRuns.Snapshot.{run_at, runs_of, remaining}
use fast_api.SeatRuns.Claim.{field}

pub All-hdel :
    (P : Run → Type 0) (k : Field) (h : Hash Field ℕ)
    → All P (runs_of h)
    → All P (runs_of (hdel k h))
All-hdel P k [] a = tt
All-hdel P k ((j, v) ∷ h) a = ground (arith, All-hdel P k h a.1)

-- A field that a run is apart from is not there.
pub absent_of_Apart :
    (block start length : ℕ) (h : Hash Field ℕ)
    → All (Apart (run_at block start length)) (runs_of h)
    → hget (field block start) h ≡ none
absent_of_Apart block start length [] a = refl
absent_of_Apart block start length ((j, v) ∷ h) a =
    ground (arith, absent_of_Apart block start length h a.1)

-- What the value of a field says of the hash.
pub record Entry (block start length : ℕ) (h : Hash Field ℕ) : Type 0 where
  pub nonempty : 0 < length
  pub rest_apart : All (Apart (run_at block start length)) (runs_of (hdel (field block start) h))
  pub rest_runs : IsRuns (runs_of (hdel (field block start) h))
  pub parts :
      (b seat : ℕ)
      → free (runs_of h) b seat ≡ (
          inside (run_at block start length) b seat
          || free (runs_of (hdel (field block start) h)) b seat)
  pub counted : remaining (runs_of h) ≡ length + remaining (runs_of (hdel (field block start) h))

pub Apart-from_entry :
    (r : Run) (block start length : ℕ) (h : Hash Field ℕ)
    → All (Apart r) (runs_of h)
    → hget (field block start) h ≡ some length
    → Apart r (run_at block start length)
Apart-from_entry r block start length [] a e = cc
Apart-from_entry r block start length ((j, v) ∷ h) a e =
    ground (arith, Apart-from_entry r block start length h a.1)

Entry-here :
    (block start length : ℕ) (h : Hash Field ℕ)
    → IsRuns (runs_of ((field block start, length) ∷ h))
    → Entry block start length ((field block start, length) ∷ h)
Entry-here block start length h w =
    let k = field block start in
    let here : field_eq.beq k k ≡ true = ground arith in
    let gone = hdel_absent k h (absent_of_Apart block start length h w.1) in
    record {
      nonempty = w.0;
      rest_apart = rw (here, gone) w.1;
      rest_runs = rw (here, gone) w.2;
      parts = λ b seat. rw (here, gone);
      counted = rw (here, gone);
    }

Entry-there :
    (block start length : ℕ) (j : Field) (v : ℕ) (h : Hash Field ℕ)
    → field_eq.beq (field block start) j ≡ false
    → IsRuns (runs_of ((j, v) ∷ h))
    → hget (field block start) h ≡ some length
    → Entry block start length h
    → Entry block start length ((j, v) ∷ h)
Entry-there block start length j v h other w e rest = record {
  nonempty = rest.nonempty;
  rest_apart = rw other (
    Apart-symm _ _ (Apart-from_entry (run_at j.block j.pos v) block start length h w.1 e),
    rest.rest_apart,
  );
  rest_runs =
      rw other
        (w.0, All-hdel (Apart (run_at j.block j.pos v)) (field block start) h w.1, rest.rest_runs);
  parts = λ b seat. rw other (ground (arith, rest.parts b seat));
  counted = rw other (ground (arith, rest.counted));
}

pub entry :
    (block start length : ℕ) (h : Hash Field ℕ)
    → IsRuns (runs_of h)
    → hget (field block start) h ≡ some length
    → Entry block start length h
entry block start length [] w e = cc
entry block start length ((j, v) ∷ h) w e = elim (Bool-cases (field_eq.beq (field block start) j)) [
  | inl here ↦
      let same : ◌≡◌ {A = Field × ℕ} (field block start, length) (j, v) = ground arith in
      subst (λ (p : Field × ℕ). Entry block start length (p ∷ h)) same
        (Entry-here block start length h
          (subst (λ (p : Field × ℕ). IsRuns (runs_of (p ∷ h))) (sym same) w))
  | inr other ↦
      let later = rw other at e in
      Entry-there block start length j v h other w later (entry block start length h w.2 later)
]

-- Two fields of a hash of maximal runs hold the same run or runs that are apart.
pub entries-Apart :
    (block start length block' start' length' : ℕ) (h : Hash Field ℕ)
    → IsRuns (runs_of h)
    → hget (field block start) h ≡ some length
    → hget (field block' start') h ≡ some length'
    → (0 < length)
      × (0 < length')
      × (((block ≡ block') × (start ≡ start'))
          ⊎ Apart (run_at block start length) (run_at block' start' length'))
entries-Apart block start length block' start' length' h w e e' =
    let here = entry block start length h w e in
    let there = entry block' start' length' h w e' in
    (
      here.nonempty,
      there.nonempty,
      elim (Bool-cases (field_eq.beq (field block' start') (field block start))) [
        | inl same ↦ inl (ground arith)
        | inr other ↦ inr (
            Apart-from_entry (run_at block start length) block' start' length'
              (hdel (field block start) h) here.rest_apart (rw (hget-hdel, other) e'))
      ],
    )

-- A new run, apart from all others, goes in front.
pub hset_new :
    (block start length : ℕ) (h : Hash Field ℕ)
    → All (Apart (run_at block start length)) (runs_of h)
    → hset (field block start) length h ≡ (field block start, length) ∷ h
hset_new block start length h a = rw (hdel_absent _ h (absent_of_Apart block start length h a))
