-- ===== src/SeatRuns/Index/Update.antt =====
-- A zone without one of its runs, and with a new run that is apart from all others.
use fast_api.Base.{
  ℕ, ◌+◌, ◌-◌, ◌≤◌, ◌<◌, ◌≡◌, sym, subst, some, [], ◌∷◌, All, Hash, hget, hset, hdel, hget-hdel,
  hget-hset, Field, field_eq, arith, Bool-cases, inl, inr,
}
use fast_api.Seating.Geometry.{Run}
use fast_api.Seating.Runs.Free.{Apart, IsRuns}
use fast_api.SeatRuns.Snapshot.{run_at, runs_of}
use fast_api.SeatRuns.Claim.{field}
use fast_api.SeatRuns.Index.{IsZone}
use fast_api.SeatRuns.Index.Entries.{entry, entries-Apart, hset_new, Apart-from_entry}

-- What holds of every field that can be read holds of every run.
pub All-entries :
    (P : Run → Type 0) (h : Hash Field ℕ)
    → IsRuns (runs_of h)
    → ((block start length : ℕ)
        → hget (field block start) h ≡ some length
        → P (run_at block start length))
    → All P (runs_of h)
All-entries P [] w f = tt
All-entries P ((j, v) ∷ h) w f = (
  f j.block j.pos v (ground arith),
  All-entries P h w.2 (λ block start length e. f block start length (
      let apart = Apart-from_entry (run_at j.block j.pos v) block start length h w.1 e in
      ground arith)),
)

module _ (runs ends : Hash Field ℕ) (zone : IsZone runs ends) where
  module _ (block start length : ℕ) (here : hget (field block start) runs ≡ some length) where
    remove-forward :
        (b s l : ℕ)
        → hget (field b s) (hdel (field block start) runs) ≡ some l
        → hget (field b (s + l)) (hdel (field block (start + length)) ends) ≡ some s
    remove-forward b s l e = ground (
      arith,
      hget-hdel (field b s) (field block start) runs,
      hget-hdel (field b (s + l)) (field block (start + length)) ends,
      zone.indexed.forward b s l,
      entries-Apart block start length b s l runs zone.maximal here,
    )

    remove-backward :
        (b e s : ℕ)
        → hget (field b e) (hdel (field block (start + length)) ends) ≡ some s
        → (s ≤ e) × (hget (field b s) (hdel (field block start) runs) ≡ some (e - s))
    remove-backward b e s found = ground (
      arith,
      hget-hdel (field b s) (field block start) runs,
      hget-hdel (field b e) (field block (start + length)) ends,
      zone.indexed.backward b e s,
    )

    pub remove-IsZone :
        IsZone (hdel (field block start) runs) (hdel (field block (start + length)) ends)
    remove-IsZone = record {
      maximal = (entry block start length runs zone.maximal here).rest_runs;
      indexed = record { forward = remove-forward; backward = remove-backward };
    }

  module _ (block start length : ℕ) (full : 0 < length)
      (apart : All (Apart (run_at block start length)) (runs_of runs)) where
    add-forward :
        (b s l : ℕ)
        → hget (field b s) (hset (field block start) length runs) ≡ some l
        → hget (field b (s + l)) (hset (field block (start + length)) start ends) ≡ some s
    add-forward b s l e = elim (Bool-cases (field_eq.beq (field b s) (field block start))) [
      | inl same ↦ ground (
        arith,
        hget-hset (field b s) (field block start) length runs,
        hget-hset (field b (s + l)) (field block (start + length)) start ends,
      )
      | inr other ↦
          let found : hget (field b s) runs ≡ some l =
            ground (arith, hget-hset (field b s) (field block start) length runs) in
          ground (
            arith,
            hget-hset (field b (s + l)) (field block (start + length)) start ends,
            zone.indexed.forward b s l found,
            Apart-from_entry (run_at block start length) b s l runs apart found,
            (entry b s l runs zone.maximal found).nonempty,
          )
    ]

    add-backward :
        (b e s : ℕ)
        → hget (field b e) (hset (field block (start + length)) start ends) ≡ some s
        → (s ≤ e) × (hget (field b s) (hset (field block start) length runs) ≡ some (e - s))
    add-backward b e s found =
        elim (Bool-cases (field_eq.beq (field b e) (field block (start + length)))) [
          | inl same ↦ ground (
            arith,
            hget-hset (field b s) (field block start) length runs,
            hget-hset (field b e) (field block (start + length)) start ends,
          )
          | inr other ↦
              let old : hget (field b e) ends ≡ some s =
                ground (arith, hget-hset (field b e) (field block (start + length)) start ends) in
              let (ordered, run) = zone.indexed.backward b e s old in
              ground (
                arith,
                hget-hset (field b s) (field block start) length runs,
                Apart-from_entry (run_at block start length) b s (e - s) runs apart run,
              )
        ]

    pub add-IsZone :
        IsZone
          (hset (field block start) length runs)
          (hset (field block (start + length)) start ends)
    add-IsZone = record {
      maximal =
          subst (λ h. IsRuns (runs_of h)) (sym (hset_new block start length runs apart))
            (full, apart, zone.maximal);
      indexed = record { forward = add-forward; backward = add-backward };
    }
