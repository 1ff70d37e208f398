-- ===== src/WaitingRoom/Pass.antt =====
-- app/services/waiting_room.py, `verify_admission` and `refund_admission`, among other visits.
use fast_api.Base.{
  ℕ, ◌+◌, ◌*◌, ◌<◌, ◌≡◌, ◌≢◌, refl, ap, sym, subst, ◌∙◌, inl, inr, Bool, true, false, ◌==◌, Option,
  some, List, [], ◌∷◌, nat_eq, arith, Bool-cases, Option-cases,
}
use fast_api.Exceptions.{ok, ok_injective}
use fast_api.Base.Int.{ℤ}
use fast_api.Redis.{at, at_self}
use fast_api.WaitingRoom.{
  Queue, Payload, second, stands, used_ttl, verify_admission, refund_admission, register,
  set_admission_paused,
}

some_injective : {A : Type 0} (x y : A) → some x ≡ some y → x ≡ y
some_injective x y h = ground arith

-- What other requests do to the keys of the waiting room. A refund is for an order that did not
-- come about.
pub data Visit : Type 0 where
  enter : (fresh event_id user_id : ℕ) → Visit
  verify : (now token user_id event_id : ℕ) → Visit
  refund : (jti : ℕ) → Visit
  pause : Bool → Visit

-- No visit refunds the token with this id.
abbrev pub Keeps : ℕ → List Visit → Type 0
Keeps jti [] = Unit
Keeps jti (refund j ∷ visits) = (j ≢ jti) × Keeps jti visits
Keeps jti (enter fresh event_id user_id ∷ visits) = Keeps jti visits
Keeps jti (verify now token user_id event_id ∷ visits) = Keeps jti visits
Keeps jti (pause b ∷ visits) = Keeps jti visits

module _ (whole_seconds : ℕ → ℕ → ℤ) (decode : ℕ → ℕ → Option Payload)
    (digest : ℕ → ℕ → ℕ → ℕ) where
  abbrev pub visit : Visit → Queue → Queue
  visit (enter fresh event_id user_id) q = register digest fresh event_id user_id q
  visit (verify now token user_id event_id) q =
      (verify_admission whole_seconds decode now token user_id event_id q).1
  visit (refund jti) q = refund_admission jti q
  visit (pause b) q = set_admission_paused b q

  abbrev pub visits : List Visit → Queue → Queue
  visits [] q = q
  visits (v ∷ vs) q = visits vs (visit v q)

  verify-used :
      (now token user_id event_id later jti : ℕ) (q : Queue)
      → stands later (q.used jti) ≡ true
      → stands later
          ((verify_admission whole_seconds decode now token user_id event_id q).1.used jti)
        ≡ true
  unfolding verify_admission
  verify-used now token user_id event_id later jti q h = elim (Option-cases (decode now token)) [
    | inl bad ↦ rw (bad, verify_admission) h
    | inr (payload, good) ↦ rw (good, verify_admission) (ground arith)
  ]

  register-used :
      (fresh event_id user_id : ℕ) (q : Queue)
      → (register digest fresh event_id user_id q).used ≡ q.used
  unfolding register
  register-used fresh event_id user_id q = elim (Option-cases (q.salt event_id)) [
    | inl unsalted ↦ rw (unsalted, register) refl
    | inr (salt, salted) ↦ rw (salted, register) refl
  ]

  visits-used :
      (later jti : ℕ) (vs : List Visit) (q : Queue)
      → Keeps jti vs
      → stands later (q.used jti) ≡ true
      → stands later ((visits vs q).used jti) ≡ true
  unfolding refund_admission
  visits-used later jti [] q k h = h
  visits-used later jti (refund j ∷ vs) q k h =
      visits-used later jti vs _ k.1 (let other = k.0 in ground arith)
  visits-used later jti (enter fresh event_id user_id ∷ vs) q k h =
      visits-used later jti vs _ k (
        ap (λ (f : ℕ → Option ℕ). stands later (f jti)) (register-used fresh event_id user_id q)
        ∙ h)
  visits-used later jti (verify now token user_id event_id ∷ vs) q k h =
      visits-used later jti vs _ k (verify-used now token user_id event_id later jti q h)
  visits-used later jti (pause b ∷ vs) q k h = visits-used later jti vs _ k h

  -- A token that is returned decodes to an admission for this event and this user, not used
  -- before; its marker stands until its time to live is over.
  pub record Passed (now token user_id event_id jti : ℕ) (q q' : Queue) : Type 0 where
    pub payload : Payload
    pub decoded : decode now token ≡ some payload
    pub admission : payload.is_admission ≡ true
    pub for_event : payload.event_id ≡ event_id
    pub for_user : payload.user_id ≡ user_id
    pub same_id : payload.jti ≡ jti
    pub unused : stands now (q.used jti) ≡ false
    pub now_used : q'.used jti ≡ some (now + used_ttl whole_seconds payload now * second)

  -- A verification that returns an id was for a token that decodes, of the admission type, for this
  -- event and this user, with that id, which had no marker that stands, and has one now, for the
  -- seconds that the token is valid, rounded down, and at least one.
  pub verify_admission-Passed :
      (now token user_id event_id jti : ℕ) (q : Queue)
      → (verify_admission whole_seconds decode now token user_id event_id q).0 ≡ ok jti
      → Passed now token user_id event_id jti q
          (verify_admission whole_seconds decode now token user_id event_id q).1
  unfolding verify_admission
  verify_admission-Passed now token user_id event_id jti q h =
      elim (Option-cases (decode now token)) [
        | inl bad ↦ let h' = rw (bad, verify_admission) at h in ground arith
        | inr (payload, good) ↦
            let h1 = rw (good, verify_admission) at h in
            elim (Bool-cases (payload.is_admission)) [
              | inr not_one ↦ let h2 = rw not_one at h1 in ground arith
              | inl one ↦
                  let h2 = rw one at h1 in
                  elim (Bool-cases (payload.event_id == event_id)) [
                    | inr elsewhere ↦ let h3 = rw elsewhere at h2 in ground arith
                    | inl here ↦
                        let h3 = rw here at h2 in
                        elim (Bool-cases (payload.user_id == user_id)) [
                          | inr another ↦ let h4 = rw another at h3 in ground arith
                          | inl owner ↦
                              let h4 = rw owner at h3 in
                              elim (Bool-cases (stands now (q.used payload.jti))) [
                                | inl used ↦ let h5 = rw used at h4 in ground arith
                                | inr fresh ↦
                                    let same : payload.jti ≡ jti =
                                      ok_injective payload.jti jti (rw fresh at h4) in
                                    let until =
                                      some (now + used_ttl whole_seconds payload now * second) in
                                    record {
                                      payload = payload;
                                      decoded = good;
                                      admission = one;
                                      for_event = ground arith;
                                      for_user = ground arith;
                                      same_id = same;
                                      unused =
                                          subst (λ (i : ℕ). stands now (q.used i) ≡ false) same
                                            fresh;
                                      now_used =
                                          rw (good, verify_admission, one, here, owner, fresh)
                                            (subst (λ (i : ℕ). at i until q.used jti ≡ until)
                                              (sym same) (at_self jti until q.used));
                                    }
                              ]
                        ]
                  ]
            ]
      ]

  refused-used :
      (now token user_id event_id jti : ℕ) (q : Queue)
      → stands now (q.used jti) ≡ true
      → (verify_admission whole_seconds decode now token user_id event_id q).0 ≢ ok jti
  refused-used now token user_id event_id jti q h returned =
      let unused = (verify_admission-Passed now token user_id event_id jti q returned).unused in
      ground arith

  -- A token is good for one order while its marker stands: after a verification that returned its
  -- id, and any visits at any times that do not refund that id, no verification earlier than the
  -- time to live of the marker, the seconds that the token was still valid, rounded down, and at
  -- least one, returns the id again, whatever token carries it.
  pub verify_admission-once :
      (now later token other user_id other_user event_id other_event jti : ℕ) (payload : Payload)
      (vs : List Visit) (q : Queue)
      → Keeps jti vs
      → decode now token ≡ some payload
      → later < now + used_ttl whole_seconds payload now * second
      → (verify_admission whole_seconds decode now token user_id event_id q).0 ≡ ok jti
      → (verify_admission whole_seconds decode later other other_user other_event
          (visits vs (verify_admission whole_seconds decode now token user_id event_id q).1)).0
        ≢ ok jti
  verify_admission-once now later token other user_id other_user event_id other_event jti payload vs
        q k decoded soon verified =
      let p = verify_admission-Passed now token user_id event_id jti q verified in
      let same : p.payload ≡ payload = some_injective _ _ (sym p.decoded ∙ decoded) in
      refused-used later other other_user other_event jti _ (
        visits-used later jti vs
          (verify_admission whole_seconds decode now token user_id event_id q).1 k
          (ap (stands later) p.now_used
            ∙ subst
                (λ (y : Payload).
                  stands later (some (now + used_ttl whole_seconds y now * second)) ≡ true)
                (sym same) (ground arith)))
