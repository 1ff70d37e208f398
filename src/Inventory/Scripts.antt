-- ===== src/Inventory/Scripts.antt =====
-- The two scripts of the plain counter: what each reply promises.
use fast_api.Base.{
  ℕ, ◌+◌, ◌≡◌, refl, ap, ◌∙◌, inl, inr, true, false, ◌==◌, Option, none, some, is_some, List, [],
  ◌∷◌, ◌++◌, length, Hash, hget, hset, hget-hset, hget-hdel, nat_eq, arith, Bool-cases,
}
use fast_api.Base.Int.{ℤ, pos, ◌+ℤ◌, ◌-ℤ◌, ◌≤ℤ◌, ltb_ℤ, leb_ℤ}
use fast_api.Redis.{Redis, EventKeys, Claim, incrby, at_self, at_marker_self}
use fast_api.SeatRuns.Claim.{or_zero}
use fast_api.SeatRuns.Claim.Script.{quota_up}
use fast_api.SeatRuns.Release.{return_quota}
use fast_api.SeatRuns.Release.Script.{incrby-or_zero, or_zero-return_quota}
use fast_api.Inventory.{
  at_least_zero, Args, Reply, ReleaseArgs, ReleaseReply, short_of, take, reserve_script,
  release_script,
}

-- The counter has not been set up, or holds fewer seats than asked for.
abbrev pub IsShort : Option ℤ → ℕ → Type 0
IsShort none quantity = Unit
IsShort (some n) quantity = ¬ (pos quantity ≤ℤ n)

-- The counter holds the seats asked for.
abbrev pub HoldsEnough : Option ℤ → ℕ → Type 0
HoldsEnough none quantity = ⊥
HoldsEnough (some n) quantity = pos quantity ≤ℤ n

short_of-IsShort :
    (available : Option ℤ) (quantity : ℕ)
    → short_of available quantity ≡ true
    → IsShort available quantity
short_of-IsShort none quantity h = tt
short_of-IsShort (some n) quantity h = ground arith

short_of-HoldsEnough :
    (available : Option ℤ) (quantity : ℕ)
    → short_of available quantity ≡ false
    → HoldsEnough available quantity
short_of-HoldsEnough none quantity h = ground arith
short_of-HoldsEnough (some n) quantity h = ground arith

-- Taking from a counter that holds enough.
pub take_down :
    (available : Option ℤ) (quantity : ℕ)
    → short_of available quantity ≡ false
    → incrby available (pos 0 -ℤ pos quantity) ≡ or_zero available -ℤ pos quantity
unfolding ◌+ℤ◌ ◌-ℤ◌
take_down none quantity h = ground arith
take_down (some n) quantity h = ground arith

pub not_below :
    (available : Option ℤ) (quantity : ℕ)
    → short_of available quantity ≡ false
    → pos 0 ≤ℤ (or_zero available -ℤ pos quantity)
unfolding ◌-ℤ◌
not_below none quantity h = ground arith
not_below (some n) quantity h = ground arith

pub sub_add : (n : ℤ) (q : ℕ) → (n -ℤ pos q) +ℤ pos q ≡ n
unfolding ◌+ℤ◌ ◌-ℤ◌
sub_add n q = ground arith

pub hget-hset_other :
    (j k : ℕ) (v : ℤ) (h : Hash ℕ ℤ) → (j == k) ≡ false → hget j (hset k v h) ≡ hget j h
hget-hset_other j k v h ne = rw (hget-hset j k v h, ne) refl

hget-return_quota :
    (j user quantity : ℕ) (h : Hash ℕ ℤ)
    → (j == user) ≡ false
    → hget j (return_quota user quantity h) ≡ hget j h
unfolding return_quota
hget-return_quota j user quantity h ne =
    let left = incrby (hget user h) (pos 0 -ℤ pos quantity) in
    elim (Bool-cases (leb_ℤ left (pos 0))) [
      | inl nothing ↦ rw nothing (rw (hget-hdel j user h, ne) refl)
      | inr some_left ↦ rw some_left (hget-hset_other j user left h ne)
    ]

length-snoc : {A : Type 0} (xs : List A) (x : A) → length (xs ++ x ∷ []) ≡ length xs + 1
length-snoc [] x = refl
length-snoc (y ∷ xs) x = ground (arith, length-snoc xs x)

module _ {F : Type 0} where
  abbrev pub counter_of : ℕ → Redis F → Option ℤ
  counter_of e r = (r.event e).available

  abbrev pub quota_of : ℕ → ℕ → Redis F → ℤ
  quota_of e user r = or_zero (hget user (r.event e).purchased)

  -- A sale: the counter goes down by the quantity and stays at zero or above, the quota goes up
  -- by it and stays within the limit, one intent is enqueued, and the key is claimed. Other
  -- events and other buyers keep what they have.
  pub record Sells (a : Args) (n : ℤ) (r r' : Redis F) : Type 0 where
    pub counter : counter_of a.event_id r' ≡ some n
    pub left : n +ℤ pos a.quantity ≡ or_zero (counter_of a.event_id r)
    pub not_negative : pos 0 ≤ℤ n
    pub quota : quota_of a.event_id a.user_id r' ≡ quota_of a.event_id a.user_id r +ℤ pos a.quantity
    pub within_limit : quota_of a.event_id a.user_id r' ≤ℤ pos a.limit
    pub claimed : is_some (r.claim a.idempotency_key) ≡ false
    pub now_claimed : r'.claim a.idempotency_key ≡ some Claim.pending
    pub others : (e : ℕ) → (e == a.event_id) ≡ false → r'.event e ≡ r.event e
    pub buyers :
        (user : ℕ)
        → (user == a.user_id) ≡ false
        → quota_of a.event_id user r' ≡ quota_of a.event_id user r
    pub enqueued : length r'.stream ≡ length r.stream + 1

  abbrev pub Reserved : Args → Redis F → Reply → Redis F → Type 0
  Reserved a r Reply.dup r' = (r' ≡ r) × (is_some (r.claim a.idempotency_key) ≡ true)
  Reserved a r (Reply.sold_out n) r' =
      (r' ≡ r)
      × (n ≡ or_zero (counter_of a.event_id r))
      × IsShort (counter_of a.event_id r) a.quantity
  Reserved a r (Reply.over_limit held limit) r' =
      (r' ≡ r)
      × (held ≡ quota_of a.event_id a.user_id r)
      × (limit ≡ a.limit)
      × HoldsEnough (counter_of a.event_id r) a.quantity
      × ¬ (held +ℤ pos a.quantity ≤ℤ pos limit)
  Reserved a r (Reply.ok s n) r' = Sells a n r r'

  take-Reserved :
      (s : ℕ) (a : Args) (r : Redis F)
      → is_some (r.claim a.idempotency_key) ≡ false
      → short_of (counter_of a.event_id r) a.quantity ≡ false
      → quota_of a.event_id a.user_id r +ℤ pos a.quantity ≤ℤ pos a.limit
      → Sells a
          (or_zero (counter_of a.event_id r) -ℤ pos a.quantity)
          r
          (take s (or_zero (counter_of a.event_id r)) a r).1
  unfolding take
  take-Reserved s a r unclaimed enough within =
      let e = r.event a.event_id in
      let after = (take s (or_zero e.available) a r).1 in
      let quota : quota_of a.event_id a.user_id after
          ≡ quota_of a.event_id a.user_id r +ℤ pos a.quantity =
        ap (λ (k : EventKeys). or_zero (hget a.user_id k.purchased)) (at_self a.event_id _ r.event)
        ∙ quota_up a.user_id a.quantity e.purchased in
      record {
        counter =
            ap (λ (k : EventKeys). k.available) (at_self a.event_id _ r.event)
            ∙ ap some (take_down e.available a.quantity enough);
        left = sub_add (or_zero e.available) a.quantity;
        not_negative = not_below e.available a.quantity enough;
        quota = quota;
        within_limit = rw quota within;
        claimed = unclaimed;
        now_claimed = at_self a.idempotency_key _ r.claim;
        others = λ e h. rw h refl;
        buyers = λ user h.
            ap (λ (k : EventKeys). or_zero (hget user k.purchased)) (at_self a.event_id _ r.event)
            ∙ ap or_zero (hget-hset_other user a.user_id _ e.purchased h);
        enqueued = length-snoc r.stream _;
      }

  -- Each reply of the reserve script keeps its promise. DUP: nothing changes, the key has a claim.
  -- SOLD_OUT: nothing changes, the counter is missing or holds less than the quantity, and is what
  -- the reply says. OVER_LIMIT: nothing changes, there is enough, and the buyer would hold more than the
  -- limit. OK: the counter goes down by the quantity to what the reply says, not below zero; the
  -- quota goes up by it within the limit; the key, new, is claimed; one intent is enqueued; other
  -- events and buyers keep what they have.
  pub reserve_script-Reserved :
      (s : ℕ) (a : Args) (r : Redis F)
      → Reserved a r (reserve_script s a r).0 (reserve_script s a r).1
  unfolding reserve_script take
  reserve_script-Reserved s a r = elim (Bool-cases (is_some (r.claim a.idempotency_key))) [
    | inl seen ↦ rw seen (refl, seen)
    | inr unseen ↦ elim (Bool-cases (short_of (counter_of a.event_id r) a.quantity)) [
      | inl short ↦
          rw (unseen, short)
            (refl, refl, short_of-IsShort (counter_of a.event_id r) a.quantity short)
      | inr enough ↦
          elim (Bool-cases
            (ltb_ℤ (pos a.limit) (quota_of a.event_id a.user_id r +ℤ pos a.quantity))) [
              | inl over ↦
                  rw (unseen, enough, over)
                    (
                      refl,
                      refl,
                      refl,
                      short_of-HoldsEnough (counter_of a.event_id r) a.quantity enough,
                      ground arith,
                    )
              | inr within ↦
                  rw (unseen, enough, within) (take-Reserved s a r unseen enough (ground arith))
            ]
    ]
  ]

  -- A first release: the counter goes up by the quantity, the quota down by it, to zero at the
  -- lowest, and the marker is set. Other events and buyers keep what they have.
  pub record Returns (a : ReleaseArgs) (n : ℤ) (r r' : Redis F) : Type 0 where
    pub counter : counter_of a.event_id r' ≡ some n
    pub more : n ≡ or_zero (counter_of a.event_id r) +ℤ pos a.quantity
    pub quota :
        quota_of a.event_id a.user_id r'
        ≡ pos (at_least_zero (quota_of a.event_id a.user_id r -ℤ pos a.quantity))
    pub first : r.released a.marker ≡ false
    pub marked : r'.released a.marker ≡ true
    pub others : (e : ℕ) → (e == a.event_id) ≡ false → r'.event e ≡ r.event e
    pub buyers :
        (user : ℕ)
        → (user == a.user_id) ≡ false
        → quota_of a.event_id user r' ≡ quota_of a.event_id user r

  abbrev pub Released : ReleaseArgs → Redis F → ReleaseReply → Redis F → Type 0
  Released a r ReleaseReply.dup r' = (r' ≡ r) × (r.released a.marker ≡ true)
  Released a r (ReleaseReply.ok n) r' = Returns a n r r'

  -- Each reply of the release script keeps its promise. DUP: nothing changes, the marker was set.
  -- OK: the marker was not set and is now; the counter goes up by the quantity to what the reply
  -- says; the buyer's quota goes down by it, to zero at the lowest; other events and
  -- buyers keep what they have.
  pub release_script-Returns :
      (a : ReleaseArgs) (r : Redis F) → Released a r (release_script a r).0 (release_script a r).1
  unfolding release_script
  release_script-Returns a r = elim (Bool-cases (r.released a.marker)) [
    | inl replayed ↦ rw replayed (refl, replayed)
    | inr first ↦ rw first (record {
      counter = ap (λ (k : EventKeys). k.available) (at_self a.event_id _ r.event);
      more = incrby-or_zero (counter_of a.event_id r) (pos a.quantity);
      quota =
          ap (λ (k : EventKeys). or_zero (hget a.user_id k.purchased))
            (at_self a.event_id _ r.event)
          ∙ or_zero-return_quota a.user_id a.quantity (r.event a.event_id).purchased;
      first = first;
      marked = at_marker_self a.marker true r.released;
      others = λ e h. rw h refl;
      buyers = λ user h.
          ap (λ (k : EventKeys). or_zero (hget user k.purchased)) (at_self a.event_id _ r.event)
          ∙ ap or_zero
              (hget-return_quota user a.user_id a.quantity (r.event a.event_id).purchased h);
    })
  ]
