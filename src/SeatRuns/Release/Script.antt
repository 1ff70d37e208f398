-- ===== src/SeatRuns/Release/Script.antt =====
-- app/services/seat_runs.py, `_RELEASE_SEATS_LUA` as a whole: what each reply promises.
use fast_api.Base.{
  ℕ, ◌+◌, ◌-◌, ◌≤◌, ◌<◌, ◌==◌, hget-hset, hget-hdel, ◌≡◌, refl, ap, subst, sym, ◌∙◌, Bool, true,
  false, ◌||◌, Option, none, some, List, [], ◌∷◌, All, Hash, Field, field_eq, hget, nat_eq, arith,
  Bool-cases, Option-cases, inl, inr,
}
use fast_api.Base.Int.{ℤ, pos, pos_part, ◌+ℤ◌, ◌-ℤ◌, leb_ℤ}
use fast_api.Redis.{
  Redis, ZoneKeys, EventKeys, PackedGeometry, incrby, at_self, at_zone_self, at_marker_self,
}
use fast_api.Seating.Runs.Free.{free, IsRuns}
use fast_api.Seating.Runs.Occupy.{in_interval}
use fast_api.SeatRuns.Snapshot.{run_at, runs_of, remaining}
use fast_api.SeatRuns.Index.{IsConsistent}
use fast_api.Seating.Geometry.{Run}
use fast_api.SeatRuns.Index.Entries.{Apart-from_entry}
use fast_api.SeatRuns.Claim.{field, or_zero}
use fast_api.SeatRuns.Release.{
  Args, Reply, dup, oob, overlap, ok, overlapping, merge, beyond, give_back, return_quota,
  release_script,
}
use fast_api.SeatRuns.Release.Merging.{merge-IsMerged, Clear, overlapping-Clear}

-- A counter of `n` seats, up by `k`, counts `m`.
pub counted_up :
    (counter : Option ℤ) (k n m : ℕ)
    → counter ≡ some (pos n)
    → m ≡ n + k
    → incrby counter (pos k) ≡ pos m
unfolding ◌+ℤ◌
counted_up counter k n m e s = rw e (ground arith)

pub incrby-or_zero : (n : Option ℤ) (k : ℤ) → incrby n k ≡ or_zero n +ℤ k
unfolding ◌+ℤ◌
incrby-or_zero none k = ground arith
incrby-or_zero (some n) k = refl

-- A returned quota goes down to zero at the lowest.
pub or_zero-return_quota :
    (user quantity : ℕ) (h : Hash ℕ ℤ)
    → or_zero (hget user (return_quota user quantity h))
      ≡ pos (pos_part (or_zero (hget user h) -ℤ pos quantity))
unfolding return_quota ◌+ℤ◌ ◌-ℤ◌
or_zero-return_quota user quantity h =
    let left = incrby (hget user h) (pos 0 -ℤ pos quantity) in
    elim (Bool-cases (leb_ℤ left (pos 0))) [
      | inl nothing ↦ rw nothing (rw (hget-hdel user user h) (ground arith))
      | inr some_left ↦ rw some_left (rw (hget-hset user user left h) (ground arith))
    ]

Clear-free :
    (block start length b seat : ℕ) (rs : List Run)
    → All (Clear block start (start + length)) rs
    → in_interval block start length b seat ≡ true
    → free rs b seat ≡ false
Clear-free block start length b seat [] c i = refl
Clear-free block start length b seat (r ∷ rs) c i =
    ground (arith, Clear-free block start length b seat rs c.1)

beyond-found :
    {F : Type 0} (packed : Option (PackedGeometry F)) (hi capacity : ℕ)
    → beyond packed hi ≡ some capacity
    → (g : PackedGeometry F) × (packed ≡ some g) × (g.capacity ≡ capacity) × (capacity < hi)
beyond-found none hi capacity e = cc
beyond-found (some g) hi capacity e = (g, refl, ground arith, ground arith)

beyond-fits :
    {F : Type 0} (packed : Option (PackedGeometry F)) (hi : ℕ) (g : PackedGeometry F)
    → beyond packed hi ≡ none
    → packed ≡ some g
    → hi ≤ g.capacity
beyond-fits packed hi g e found = let inside = rw found at e in ground arith

pub overlapping-found :
    (block lo hi run_lo run_length : ℕ) (h : Hash Field ℕ)
    → IsRuns (runs_of h)
    → overlapping block lo hi h ≡ some (run_lo, run_length)
    → (hget (field block run_lo) h ≡ some run_length) × (run_lo < hi) × (lo < run_lo + run_length)
unfolding overlapping
overlapping-found block lo hi run_lo run_length [] w e = cc
overlapping-found block lo hi run_lo run_length ((j, v) ∷ h) w e = ground (
  arith,
  overlapping-found block lo hi run_lo run_length h w.2,
  Apart-from_entry (run_at j.block j.pos v) block run_lo run_length h w.1,
)

module _ {F : Type 0} where
  abbrev pub zone_of : Args → Redis F → ZoneKeys F
  zone_of a r = r.zone a.event_id a.zone_id

  abbrev pub free_in : Args → Redis F → ℕ → ℕ → Bool
  free_in a r = free (runs_of (zone_of a r).runs)

  abbrev pub event_left : Args → Redis F → ℤ
  event_left a r = or_zero (r.event a.event_id).available

  abbrev pub held_by : Args → Redis F → ℤ
  held_by a r = or_zero (hget a.user_id (r.event a.event_id).purchased)

  -- The interval lies in the block, where the block has a capacity.
  abbrev pub Fits : Args → Redis F → Type 0
  Fits a r =
      (g : PackedGeometry F)
      → hget a.block (zone_of a r).geom ≡ some g
      → a.start + a.length ≤ g.capacity

  -- The interval ends beyond the capacity of its block, which is this.
  abbrev pub Exceeds : Args → ℕ → Redis F → Type 0
  Exceeds a capacity r =
      (g : PackedGeometry F) × (hget a.block (zone_of a r).geom ≡ some g)
      × (g.capacity ≡ capacity)
      × (capacity < a.start + a.length)

  -- The seats of a successful release: occupied before, and alone given back.
  pub record GivesBack (a : Args) (zone_remaining : ℤ) (r r' : Redis F) : Type 0 where
    pub consistent : IsConsistent (zone_of a r')
    pub first_time : r.released a.marker ≡ false
    pub marked : r'.released a.marker ≡ true
    pub only_these :
        (block seat : ℕ)
        → free_in a r' block seat
          ≡ (free_in a r block seat || in_interval a.block a.start a.length block seat)
    pub were_occupied :
        (block seat : ℕ)
        → in_interval a.block a.start a.length block seat ≡ true
        → free_in a r block seat ≡ false
    pub zone_counter : zone_remaining ≡ pos (remaining (runs_of (zone_of a r).runs) + a.length)
    pub event_counter : event_left a r' ≡ event_left a r +ℤ pos a.length
    pub quota : held_by a r' ≡ pos (pos_part (held_by a r -ℤ pos a.length))
    pub other_events : (e : ℕ) → (e == a.event_id) ≡ false → r'.event e ≡ r.event e

  abbrev pub Released : Args → Redis F → Reply → Redis F → Type 0
  Released a r dup r' = (r' ≡ r) × (r.released a.marker ≡ true)
  Released a r (oob capacity) r' = (r' ≡ r) × Exceeds a capacity r
  Released a r (overlap run_lo run_length) r' =
      (r' ≡ r)
      × (hget (field a.block run_lo) (zone_of a r).runs ≡ some run_length)
      × (run_lo < a.start + a.length)
      × (a.start < run_lo + run_length)
  Released a r (ok lo length zone_remaining) r' = Fits a r × GivesBack a zone_remaining r r'

  pub give_back-GivesBack :
      (a : Args) (r : Redis F)
      → IsConsistent (zone_of a r)
      → 0 < a.length
      → r.released a.marker ≡ false
      → overlapping a.block a.start (a.start + a.length) (zone_of a r).runs ≡ none
      → (zone_remaining : ℤ) × (lo : ℕ) × (length : ℕ) × (give_back a r
          ≡ (ok lo length zone_remaining, (give_back a r).1))
        × GivesBack a zone_remaining r (give_back a r).1
  unfolding give_back
  give_back-GivesBack a r c full fresh occupied =
      let z = zone_of a r in
      let hi = a.start + a.length in
      let m = merge a.block (record { lo = a.start; hi = hi; runs = z.runs; ends = z.ends }) in
      let done = merge-IsMerged a.block a.start hi z.runs z.ends (omega arith) c.zone occupied in
      let total : remaining (runs_of m.runs) ≡ remaining (runs_of z.runs) + a.length =
        omega (arith, done.counted) in
      let counter = counted_up z.available a.length _ _ c.counted total in
      (
        incrby z.available (pos a.length),
        m.lo,
        m.hi - m.lo,
        refl,
        record {
          consistent =
              rw (at_zone_self {A = ZoneKeys F} a.event_id a.zone_id)
                (record { zone = done.zone; counted = ap some counter });
          first_time = fresh;
          marked = at_marker_self a.marker true r.released;
          only_these = λ block seat.
              ap (λ (k : ZoneKeys F). free (runs_of k.runs) block seat)
                (at_zone_self a.event_id a.zone_id _ r.zone)
              ∙ done.seats block seat
              ∙ ap
                  (λ (n : ℕ).
                    free (runs_of z.runs) block seat || in_interval a.block a.start n block seat)
                  (omega arith);
          were_occupied = λ block seat i.
              Clear-free a.block a.start a.length block seat (runs_of z.runs)
                (overlapping-Clear a.block a.start hi z.runs occupied) i;
          zone_counter = counter ∙ ap pos total;
          event_counter =
              ap (λ (k : EventKeys). or_zero k.available) (at_self a.event_id _ r.event)
              ∙ incrby-or_zero (r.event a.event_id).available (pos a.length);
          quota =
              ap (λ (k : EventKeys). or_zero (hget a.user_id k.purchased))
                (at_self a.event_id _ r.event)
              ∙ or_zero-return_quota a.user_id a.length (r.event a.event_id).purchased;
          other_events = λ e h. rw h refl;
        },
      )

  ok-Released :
      (a : Args) (r : Redis F)
      → IsConsistent (zone_of a r)
      → 0 < a.length
      → r.released a.marker ≡ false
      → beyond (hget a.block (zone_of a r).geom) (a.start + a.length) ≡ none
      → overlapping a.block a.start (a.start + a.length) (zone_of a r).runs ≡ none
      → Released a r (give_back a r).0 (give_back a r).1
  ok-Released a r c full fresh fits occupied =
      let (zone_remaining, lo, length, reply, gives) =
        give_back-GivesBack a r c full fresh occupied in
      subst (λ p. Released a r p (give_back a r).1) (sym (ap (λ (p : Reply × Redis F). p.0) reply))
        (λ g. beyond-fits (hget a.block (zone_of a r).geom) (a.start + a.length) g fits, gives)

  -- On a consistent zone, and for at least one seat, each reply of the release script keeps its
  -- promise. DUP: nothing changes, the marker was there. OOB: nothing changes, the interval ends
  -- beyond the capacity of its block, which is what the reply says. OVERLAP: nothing changes, the run named is free and shares a seat. OK: the
  -- marker, new, is set, the interval lies in its block where that has a capacity, the seats were
  -- occupied, they alone are freed, and the zone stays consistent; its counter and the event's are
  -- up by their number, the quota is down by it, to zero at the lowest, and other events keep theirs.
  pub release_script-Released :
      (a : Args) (r : Redis F)
      → IsConsistent (zone_of a r)
      → 0 < a.length
      → Released a r (release_script a r).0 (release_script a r).1
  unfolding release_script
  release_script-Released a r c full =
      let z = zone_of a r in
      let hi = a.start + a.length in
      elim (Bool-cases (r.released a.marker)) [
        | inl again ↦ rw again (refl, again)
        | inr fresh ↦ elim (Option-cases (beyond (hget a.block z.geom) hi)) [
          | inr (capacity, out) ↦
              rw (fresh, out) (refl, beyond-found (hget a.block z.geom) hi capacity out)
          | inl fits ↦ elim (Option-cases (overlapping a.block a.start hi z.runs)) [
            | inl occupied ↦ rw (fresh, fits, occupied) (ok-Released a r c full fresh fits occupied)
            | inr ((run_lo, run_length), meets) ↦
                let (found, below, above) =
                  overlapping-found a.block a.start hi run_lo run_length z.runs c.zone.maximal
                    meets in
                rw (fresh, fits, meets) (refl, found, below, above)
          ]
        ]
      ]
