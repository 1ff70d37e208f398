-- ===== src/Inventory/Repeats.antt =====
-- app/services/inventory.py: the limit on a buyer, a claimed key and a set marker, over sequences of
-- calls.
use fast_api.Base.{
  ℕ, ◌≤◌, ◌≡◌, refl, sym, subst, inl, inr, true, false, ◌==◌, is_some, List, [], ◌∷◌, All, arith,
  Bool-cases,
}
use fast_api.Base.Int.{ℤ, pos, ◌-ℤ◌, ◌≤ℤ◌}
use fast_api.Redis.{Redis, EventKeys, Marker, marker_eq_refl}
use fast_api.Inventory.{
  Args, Reply, ReleaseArgs, ReleaseReply, ReserveOutcome, at_least_zero, take, reserve_script,
  after_reserve, reserve_and_enqueue, release_script, after_release, release,
}
use fast_api.Inventory.Scripts.{
  Reserved, Released, quota_of, reserve_script-Reserved, release_script-Returns,
}
use fast_api.Inventory.Trace.{
  Op, is_ok, reserve, give_back, step, run, after_reserve-event, after_release-event,
}

-- The calls charge quotas against a limit of at most `limit`.
abbrev pub IsLimited : ℕ → Op → Type 0
IsLimited limit (reserve s a) = a.limit ≤ limit
IsLimited limit (give_back a) = Unit

below : (q : ℤ) (k limit : ℕ) → q ≤ℤ pos limit → pos (at_least_zero (q -ℤ pos k)) ≤ℤ pos limit
unfolding ◌-ℤ◌
below q k limit h = ground arith

module _ {F : Type 0} where
  abbrev Within : ℕ → ℕ → ℕ → Redis F → Type 0
  Within e user limit r = quota_of e user r ≤ℤ pos limit

  Reserved-Within :
      (e user limit : ℕ) (a : Args) (reply : Reply) (r r' : Redis F)
      → a.limit ≤ limit
      → Reserved a r reply r'
      → Within e user limit r
      → Within e user limit r'
  Reserved-Within e user limit a Reply.dup r r' l (same, _) w = rw same w
  Reserved-Within e user limit a (Reply.sold_out k) r r' l (same, _, _) w = rw same w
  Reserved-Within e user limit a (Reply.over_limit h k) r r' l (same, _, _, _, _) w = rw same w
  Reserved-Within e user limit a (Reply.ok s k) r r' l p w = elim (Bool-cases (e == a.event_id)) [
    | inr elsewhere ↦ rw (p.others e elsewhere) w
    | inl here ↦
        let there : e ≡ a.event_id = ground arith in
        subst (λ (i : ℕ). Within i user limit r') (sym there)
          (elim (Bool-cases (user == a.user_id)) [
            | inr another ↦
                rw (p.buyers user another) (subst (λ (i : ℕ). Within i user limit r) there w)
            | inl buyer ↦
                let same : user ≡ a.user_id = ground arith in
                subst (λ (i : ℕ). Within a.event_id i limit r') (sym same)
                  (let q = p.within_limit in omega arith)
          ])
  ]

  Released-Within :
      (e user limit : ℕ) (a : ReleaseArgs) (reply : ReleaseReply) (r r' : Redis F)
      → Released a r reply r'
      → Within e user limit r
      → Within e user limit r'
  Released-Within e user limit a ReleaseReply.dup r r' (same, _) w = rw same w
  Released-Within e user limit a (ReleaseReply.ok k) r r' p w =
      elim (Bool-cases (e == a.event_id)) [
        | inr elsewhere ↦ rw (p.others e elsewhere) w
        | inl here ↦
            let there : e ≡ a.event_id = ground arith in
            subst (λ (i : ℕ). Within i user limit r') (sym there)
              (elim (Bool-cases (user == a.user_id)) [
                | inr another ↦
                    rw (p.buyers user another) (subst (λ (i : ℕ). Within i user limit r) there w)
                | inl buyer ↦
                    let same : user ≡ a.user_id = ground arith in
                    subst (λ (i : ℕ). Within a.event_id i limit r') (sym same)
                      (rw p.quota (
                        below (quota_of a.event_id a.user_id r) a.quantity limit (
                          subst (λ (i : ℕ). Within a.event_id i limit r) same
                            (subst (λ (i : ℕ). Within i user limit r) there w))))
              ])
      ]

  step-Within :
      (e user limit : ℕ) (op : Op) (r : Redis F)
      → IsLimited limit op
      → Within e user limit r
      → Within e user limit (step op r)
  unfolding step reserve_and_enqueue release
  step-Within e user limit (reserve s a) r l w =
      let (reply, r') = reserve_script s a r in
      subst (λ (k : ℕ → EventKeys). Within e user limit (record r { event = k }))
        (sym (after_reserve-event a reply r'))
        (Reserved-Within e user limit a reply r r' l (reserve_script-Reserved s a r) w)
  step-Within e user limit (give_back a) r l w =
      let (reply, r') = release_script a r in
      subst (λ (k : ℕ → EventKeys). Within e user limit (record r { event = k }))
        (sym (after_release-event a reply r'))
        (Released-Within e user limit a reply r r' (release_script-Returns a r) w)

  -- Where every reservation is made against a limit of at most `limit`, a buyer who holds no more
  -- than it of an event holds no more after any sequence of reservations and releases.
  pub run-within_limit :
      (e user limit : ℕ) (ops : List Op) (r : Redis F)
      → All (IsLimited limit) ops
      → quota_of e user r ≤ℤ pos limit
      → quota_of e user (run ops r) ≤ℤ pos limit
  run-within_limit e user limit [] r l w = w
  run-within_limit e user limit (op ∷ ops) r l w =
      run-within_limit e user limit ops (step op r) l.1 (step-Within e user limit op r l.0 w)

  step-marked :
      (m : Marker) (op : Op) (r : Redis F) → r.released m ≡ true → (step op r).released m ≡ true
  unfolding step reserve_and_enqueue reserve_script take after_reserve release release_script
      after_release
  step-marked m (reserve s a) r h = ground arith
  step-marked m (give_back a) r h = ground arith

  step-claimed :
      (k : ℕ) (op : Op) (r : Redis F)
      → is_some (r.claim k) ≡ true
      → is_some ((step op r).claim k) ≡ true
  unfolding step reserve_and_enqueue reserve_script take after_reserve release release_script
      after_release
  step-claimed k (reserve s a) r h = ground arith
  step-claimed k (give_back a) r h = ground arith

  run-marked :
      (m : Marker) (ops : List Op) (r : Redis F)
      → r.released m ≡ true
      → (run ops r).released m ≡ true
  run-marked m [] r h = h
  run-marked m (op ∷ ops) r h = run-marked m ops (step op r) (step-marked m op r h)

  run-claimed :
      (k : ℕ) (ops : List Op) (r : Redis F)
      → is_some (r.claim k) ≡ true
      → is_some ((run ops r).claim k) ≡ true
  run-claimed k [] r h = h
  run-claimed k (op ∷ ops) r h = run-claimed k ops (step op r) (step-claimed k op r h)

  pub release-marks : (a : ReleaseArgs) (r : Redis F) → (release a r).1.released a.marker ≡ true
  unfolding release release_script after_release
  release-marks a r = ground (arith, marker_eq_refl a.marker)

  pub release-again :
      (a : ReleaseArgs) (r : Redis F) → r.released a.marker ≡ true → release a r ≡ (false, r)
  unfolding release release_script after_release
  release-again a r marked = rw marked refl

  reserve-claims :
      (s : ℕ) (a : Args) (r : Redis F)
      → is_ok ((reserve_and_enqueue s a r).0.outcome) ≡ true
      → is_some ((reserve_and_enqueue s a r).1.claim a.idempotency_key) ≡ true
  unfolding reserve_and_enqueue reserve_script take after_reserve
  reserve-claims s a r h = ground arith

  -- Seats are returned at most once per marker: after a release, and any sequence of calls, a
  -- release under the same marker, whatever its other arguments, answers False and changes nothing.
  pub release-once :
      (a b : ReleaseArgs) (ops : List Op) (r : Redis F)
      → b.marker ≡ a.marker
      → release b (run ops (release a r).1) ≡ (false, run ops (release a r).1)
  unfolding release release_script after_release
  release-once a b ops r same =
      rw (same, run-marked a.marker ops (release a r).1 (release-marks a r)) refl

  -- A key sells at most once: after a reservation that answered OK, and any sequence of calls, a
  -- reservation under the same key, whatever its other arguments, sells nothing: it answers DUP and
  -- changes nothing.
  pub reserve-once :
      (s t : ℕ) (a b : Args) (ops : List Op) (r : Redis F)
      → is_ok ((reserve_and_enqueue s a r).0.outcome) ≡ true
      → b.idempotency_key ≡ a.idempotency_key
      → ((reserve_and_enqueue t b (run ops (reserve_and_enqueue s a r).1)).0.outcome
          ≡ ReserveOutcome.dup)
        × ((reserve_and_enqueue t b (run ops (reserve_and_enqueue s a r).1)).1
            ≡ run ops (reserve_and_enqueue s a r).1)
  unfolding reserve_and_enqueue reserve_script after_reserve
  reserve-once s t a b ops r sold same =
      rw
        (
          same,
          run-claimed a.idempotency_key ops (reserve_and_enqueue s a r).1
              (reserve-claims s a r sold),
        )
        (refl, refl)
