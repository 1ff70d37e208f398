-- ===== src/Inventory/Trace.antt =====
-- Sequences of reservations and releases, in the order in which Redis runs their scripts.
use fast_api.Base.{
  ℕ, ◌+◌, ◌≡◌, refl, ap, sym, ◌∙◌, inl, inr, Bool, true, false, ◌&&◌, ◌==◌, if◌then◌else◌, Option,
  some, List, [], ◌∷◌, nat_eq, arith, Bool-cases, subst,
}
use fast_api.Base.Int.{ℤ, pos, negsuc, ◌≤ℤ◌, eqb_ℤ, leb_ℤ, ◌+ℤ◌, ◌-ℤ◌, ltb_ℤ}
use fast_api.Redis.{Redis, EventKeys}
use fast_api.SeatRuns.Claim.{or_zero}
use fast_api.SeatRuns.Claim.Script.{pos-+}
use fast_api.Inventory.Scripts.{
  Reserved, Released, release_script-Returns, counter_of, reserve_script-Reserved,
}
use fast_api.Inventory.{
  Args, Reply, ReleaseArgs, ReleaseReply, ReserveOutcome, reserve_script, after_reserve,
  reserve_and_enqueue, release_script, after_release, release,
}

-- One call, as the scripts of Redis interleave them.
pub data Op : Type 0 where
  reserve : ℕ → Args → Op
  give_back : ReleaseArgs → Op

abbrev pub is_ok : ReserveOutcome → Bool
is_ok ReserveOutcome.ok = true
is_ok ReserveOutcome.dup = false
is_ok ReserveOutcome.sold_out = false
is_ok ReserveOutcome.over_limit = false

-- What one reply of the reserve script sells.
abbrev sold_by : ℕ → Args → Reply → ℕ
sold_by e a Reply.dup = 0
sold_by e a (Reply.sold_out n) = 0
sold_by e a (Reply.over_limit h l) = 0
sold_by e a (Reply.ok s n) = if e == a.event_id then a.quantity else 0

abbrev returned_by : ℕ → ReleaseArgs → ReleaseReply → ℕ
returned_by e a ReleaseReply.dup = 0
returned_by e a (ReleaseReply.ok n) = if e == a.event_id then a.quantity else 0

natural : (k : ℤ) → pos 0 ≤ℤ k → (m : ℕ) × (k ≡ pos m)
natural (pos m) h = (m, refl)
natural (negsuc m) h = ground arith

pos_sum : (m k n : ℕ) → pos m +ℤ pos k ≡ pos n → m + k ≡ n
unfolding ◌+ℤ◌
pos_sum m k n h = ground arith

module _ {F : Type 0} where
  unfoldable pub step : Op → Redis F → Redis F
  step (reserve s a) r = (reserve_and_enqueue s a r).1
  step (give_back a) r = (release a r).1

  -- The seats of event `e` that one call sells, and those that it returns, by what it answers.
  unfoldable pub sold : ℕ → Op → Redis F → ℕ
  sold e (reserve s a) r =
      if (e == a.event_id) && is_ok ((reserve_and_enqueue s a r).0.outcome) then a.quantity else 0
  sold e (give_back a) r = 0

  unfoldable pub returned : ℕ → Op → Redis F → ℕ
  returned e (reserve s a) r = 0
  returned e (give_back a) r = if (e == a.event_id) && (release a r).0 then a.quantity else 0

  abbrev pub run : List Op → Redis F → Redis F
  run [] r = r
  run (op ∷ ops) r = run ops (step op r)

  abbrev pub total_sold : ℕ → List Op → Redis F → ℕ
  total_sold e [] r = 0
  total_sold e (op ∷ ops) r = sold e op r + total_sold e ops (step op r)

  abbrev pub total_returned : ℕ → List Op → Redis F → ℕ
  total_returned e [] r = 0
  total_returned e (op ∷ ops) r = returned e op r + total_returned e ops (step op r)

  pub after_reserve-event :
      (a : Args) (reply : Reply) (r : Redis F) → (after_reserve a reply r).1.event ≡ r.event
  unfolding after_reserve
  after_reserve-event a Reply.dup r = refl
  after_reserve-event a (Reply.sold_out n) r = refl
  after_reserve-event a (Reply.over_limit h l) r = refl
  after_reserve-event a (Reply.ok s n) r = elim (Bool-cases (eqb_ℤ n (pos 0))) [
    | inl zero ↦ rw zero refl
    | inr some_left ↦ rw some_left refl
  ]

  pub after_release-event :
      (a : ReleaseArgs) (reply : ReleaseReply) (r : Redis F)
      → (after_release a reply r).1.event ≡ r.event
  unfolding after_release
  after_release-event a ReleaseReply.dup r = refl
  after_release-event a (ReleaseReply.ok n) r =
      elim (Bool-cases (leb_ℤ (n -ℤ pos a.quantity) (pos 0) && ltb_ℤ (pos 0) n)) [
        | inl crossed ↦ rw crossed refl
        | inr stays ↦ rw stays refl
      ]

  abbrev pub Counts : ℕ → Redis F → ℕ → Type 0
  Counts e r n = counter_of e r ≡ some (pos n)

  sold_by-outcome :
      (e : ℕ) (a : Args) (reply : Reply) (r : Redis F)
      → (if (e == a.event_id) && is_ok ((after_reserve a reply r).0.outcome) then a.quantity else 0)
        ≡ sold_by e a reply
  unfolding after_reserve
  sold_by-outcome e a Reply.dup r = ground arith
  sold_by-outcome e a (Reply.sold_out n) r = ground arith
  sold_by-outcome e a (Reply.over_limit h l) r = ground arith
  sold_by-outcome e a (Reply.ok s n) r = ground arith

  Reserved-conserves :
      (e : ℕ) (a : Args) (reply : Reply) (r r' : Redis F) (n : ℕ)
      → Reserved a r reply r'
      → Counts e r n
      → (m : ℕ) × Counts e r' m × (m + sold_by e a reply ≡ n)
  unfolding ◌+ℤ◌
  Reserved-conserves e a Reply.dup r r' n (same, _) c = (n, rw same c, ground arith)
  Reserved-conserves e a (Reply.sold_out k) r r' n (same, _, _) c = (n, rw same c, ground arith)
  Reserved-conserves e a (Reply.over_limit h l) r r' n (same, _, _, _, _) c =
      (n, rw same c, ground arith)
  Reserved-conserves e a (Reply.ok s k) r r' n p c = elim (Bool-cases (e == a.event_id)) [
    | inl here ↦
        let (m, value) = natural k p.not_negative in
        let there : e ≡ a.event_id = ground arith in
        (
          m,
          subst (λ (i : ℕ). Counts i r' m) (sym there) (p.counter ∙ ap some value),
          rw here (
              pos_sum m a.quantity n (
                subst (λ (i : ℤ). i +ℤ pos a.quantity ≡ pos n) value
                  (p.left ∙ ap or_zero (subst (λ (i : ℕ). Counts i r n) there c)))),
        )
    | inr elsewhere ↦ (
      n,
      ap (λ (k : EventKeys). k.available) (p.others e elsewhere) ∙ c,
      rw elsewhere (ground arith),
    )
  ]

  pub reserve-conserves :
      (e s : ℕ) (a : Args) (r : Redis F) (n : ℕ)
      → Counts e r n
      → (m : ℕ) × Counts e (step (reserve s a) r) m × (m + sold e (reserve s a) r ≡ n)
  unfolding step sold reserve_and_enqueue
  reserve-conserves e s a r n c =
      let (reply, r') = reserve_script s a r in
      let (m, counts, sum) =
        Reserved-conserves e a reply r r' n (reserve_script-Reserved s a r) c in
      (
        m,
        ap (λ (k : ℕ → EventKeys). (k e).available) (after_reserve-event a reply r') ∙ counts,
        ap (λ (k : ℕ). m + k) (sold_by-outcome e a reply r') ∙ sum,
      )

  returned_by-reply :
      (e : ℕ) (a : ReleaseArgs) (reply : ReleaseReply) (r : Redis F)
      → (if (e == a.event_id) && (after_release a reply r).0 then a.quantity else 0)
        ≡ returned_by e a reply
  unfolding after_release
  returned_by-reply e a ReleaseReply.dup r = ground arith
  returned_by-reply e a (ReleaseReply.ok n) r = ground arith

  Released-conserves :
      (e : ℕ) (a : ReleaseArgs) (reply : ReleaseReply) (r r' : Redis F) (n : ℕ)
      → Released a r reply r'
      → Counts e r n
      → Counts e r' (n + returned_by e a reply)
  Released-conserves e a ReleaseReply.dup r r' n (same, _) c = rw same (c ∙ ground arith)
  Released-conserves e a (ReleaseReply.ok k) r r' n p c = elim (Bool-cases (e == a.event_id)) [
    | inl here ↦
        let there : e ≡ a.event_id = ground arith in
        rw here (
          subst (λ (i : ℕ). Counts i r' (n + a.quantity)) (sym there)
            (p.counter
              ∙ ap some (
                  p.more
                  ∙ ap (λ (i : Option ℤ). or_zero i +ℤ pos a.quantity)
                      (subst (λ (i : ℕ). Counts i r n) there c)
                  ∙ pos-+ n a.quantity _ refl)))
    | inr elsewhere ↦
        rw elsewhere (ap (λ (i : EventKeys). i.available) (p.others e elsewhere) ∙ c ∙ ground arith)
  ]

  pub release-conserves :
      (e : ℕ) (a : ReleaseArgs) (r : Redis F) (n : ℕ)
      → Counts e r n
      → Counts e (step (give_back a) r) (n + returned e (give_back a) r)
  unfolding step returned release
  release-conserves e a r n c =
      let (reply, r') = release_script a r in
      ap (λ (k : ℕ → EventKeys). (k e).available) (after_release-event a reply r')
      ∙ Released-conserves e a reply r r' n (release_script-Returns a r) c
      ∙ ap (λ (k : ℕ). some (pos (n + k))) (sym (returned_by-reply e a reply r'))

  step-conserves :
      (e : ℕ) (op : Op) (r : Redis F) (n : ℕ)
      → Counts e r n
      → (m : ℕ) × Counts e (step op r) m × (m + sold e op r ≡ n + returned e op r)
  unfolding sold returned
  step-conserves e (reserve s a) r n c =
      let (m, counts, sum) = reserve-conserves e s a r n c in (m, counts, ground arith)
  step-conserves e (give_back a) r n c =
      (n + returned e (give_back a) r, release-conserves e a r n c, ground arith)

  -- Conservation, and with it no overselling: where the counter of an event holds a number of
  -- seats, then after any sequence of reservations and releases, of any events, it again holds a
  -- number of seats, which with what was sold is what there was and what was returned.
  pub run-conserves :
      (e : ℕ) (ops : List Op) (r : Redis F) (n : ℕ)
      → Counts e r n
      → (m : ℕ) × Counts e (run ops r) m × (m + total_sold e ops r ≡ n + total_returned e ops r)
  run-conserves e [] r n c = (n, c, refl)
  run-conserves e (op ∷ ops) r n c =
      let (m, counts, sum) = step-conserves e op r n c in
      let (m', counts', sum') = run-conserves e ops (step op r) m counts in
      (m', counts', ground arith)
