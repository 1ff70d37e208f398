-- ===== src/Seating/Runs/Sorted.antt =====
-- app/services/seating.py, `occupy` and `release`: results as the sorted list of the free runs that
-- they describe, and one function after the other.
use fast_api.Base.{
  subst, ℕ, ◌+◌, ◌<◌, ◌≡◌, refl, ap, sym, ◌∙◌, true, false, ◌||◌, Option, List, [], ◌∷◌, arith,
  Bool-cases, inl, inr,
}
use fast_api.Exceptions.{Result, ok, err}
use fast_api.Seating.Geometry.{Run, Placement}
use fast_api.Seating.Runs.{occupy, release, sort_runs, exceeds}
use fast_api.Seating.Runs.Free.{free, IsRuns}
use fast_api.Seating.Runs.Occupy.{in_interval, Occupied, occupy-Occupied}
use fast_api.Seating.Runs.Release.{hits, Released, release-Released, release-sorted}
use fast_api.Seating.Runs.Canonical.{sort_runs_unique}

-- A pure result and a zone with the same free seats: the result is the zone's runs, sorted.
pub same-sorted :
    (rs out after : List Run)
    → IsRuns rs
    → sort_runs rs ≡ out
    → IsRuns after
    → ((block seat : ℕ) → free out block seat ≡ free after block seat)
    → out ≡ sort_runs after
same-sorted rs out after h e k same =
    sym e
    ∙ sort_runs_unique rs after h k
        (λ block seat. ap (λ (l : List Run). free l block seat) e ∙ same block seat)

pub released-sorted :
    (runs after : List Run) (block start length : ℕ) (capacity : Option ℕ) (r : Result (List Run))
    → Released runs block start length capacity r
    → IsRuns after
    → ((out : List Run) → r ≡ Result.ok out → (rs : List Run) × IsRuns rs × (sort_runs rs ≡ out))
    → ((block' seat : ℕ)
        → free after block' seat
          ≡ (free runs block' seat || in_interval block start length block' seat))
    → 0 < length
    → exceeds capacity (start + length) ≡ false
    → hits runs block start (start + length) ≡ false
    → r ≡ Result.ok (sort_runs after)
released-sorted runs after block start length capacity (Result.ok out) o k sorted seats p q c =
    let (rs, h, e) = sorted out refl in
    ap Result.ok (
      same-sorted rs out after h e k (λ block' seat.
        o.0.1 block' seat
        ∙ ap (λ (n : ℕ). free runs block' seat || in_interval block start n block' seat)
            (omega arith)
        ∙ sym (seats block' seat)))
released-sorted runs after block start length capacity (err e) o k sorted seats p q c = ground arith

-- Runs that share no seat with an interval of occupied seats.
pub occupied-hits :
    (rs : List Run) (block start length : ℕ)
    → IsRuns rs
    → 0 < length
    → ((seat : ℕ) → in_interval block start length block seat ≡ true → free rs block seat ≡ false)
    → hits rs block start (start + length) ≡ false
occupied-hits [] block start length h full seats = refl
occupied-hits (r ∷ rs) block start length h full seats =
    let rest =
      occupied-hits rs block start length h.2 full (λ seat i. ground (arith, seats seat i)) in
    let first = seats r.start in let second = seats start in ground arith

module _ {F : Type 0} where
  taken-Released :
      (runs : List Run) (p : Placement F) (capacity : Option ℕ) (out : List Run)
      (r : Result (List Run))
      → Occupied runs p (ok out)
      → IsRuns runs
      → 0 < p.length
      → exceeds capacity (p.start + p.length) ≡ false
      → Released out p.block_id p.start p.length capacity r
      → ((back : List Run) → r ≡ ok back → (rs : List Run) × IsRuns rs × (sort_runs rs ≡ back))
      → r ≡ ok (sort_runs runs)
  taken-Released runs p capacity out r (maximal, seats, were_free) h full fits answer sorted =
      released-sorted out runs p.block_id p.start p.length capacity r answer h sorted
        (λ block seat. elim (Bool-cases (in_interval p.block_id p.start p.length block seat)) [
          | inl i ↦ let f = were_free block seat i in let s = seats block seat in ground arith
          | inr o ↦ let s = seats block seat in ground arith
        ])
        full fits
        (occupied-hits out p.block_id p.start p.length maximal full
          (λ seat i. seats p.block_id seat ∙ rw i (ground arith)))

  -- Selling seats and giving them back is nothing: on maximal free runs, where `occupy` takes a
  -- placement of at least one seat that ends within the block, `release` of the same seats returns
  -- the runs before, sorted.
  pub occupy-release :
      (runs : List Run) (p : Placement F) (capacity : Option ℕ) (out : List Run)
      → IsRuns runs
      → 0 < p.length
      → exceeds capacity (p.start + p.length) ≡ false
      → occupy runs p ≡ ok out
      → release out p.block_id p.start p.length capacity ≡ ok (sort_runs runs)
  occupy-release runs p capacity out h full fits e =
      let took = subst (Occupied runs p) e (occupy-Occupied runs p h full) in
      taken-Released runs p capacity out _ took h full fits
        (release-Released out p.block_id p.start p.length capacity took.0)
        (λ back. release-sorted out p.block_id p.start p.length capacity back took.0)
