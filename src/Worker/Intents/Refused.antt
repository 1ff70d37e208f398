-- ===== src/Worker/Intents/Refused.antt =====
-- app/worker.py, `_persist_intent`: why an intent is refused.
use fast_api.Base.{
  ℕ, ◌+◌, ◌-◌, ◌≡◌, ◌≢◌, ◌⊎◌, refl, inl, inr, true, false, Option, none, some, is_some, arith,
  Bool-cases, Option-cases,
}
use fast_api.Exceptions.{Result, ok, err}
use fast_api.Redis.{Intent}
use fast_api.Database.{Database, find_hold}
use fast_api.Worker.Intents.{
  Catalogue, Outcome, persisted, duplicate, failed, find_key, new_order, new_hold, accepts_order,
  accepts_hold, overlaps_any, after_integrity_error, persist_plain, persist_seated, persist_in,
  persist_intent,
}
use fast_api.Worker.Intents.Persist.{Persisted, persist_intent-Persisted}

-- No tickets are asked for, the buyer or the event is unknown, or the zone has no price there.
abbrev pub OrderRefused : Catalogue → Intent → Option ℕ → Database → Type 0
OrderRefused c i zone_id db =
    (i.quantity ≡ 0)
    ⊎ (c.users i.user_id ≡ false)
    ⊎ (db.events i.event_id ≡ none)
    ⊎ ((zone : ℕ) × (zone_id ≡ some zone) × (c.zone_prices i.event_id zone ≡ false))

-- The order has a hold, the last seat is not in the block, the block not in the zone, the zone has
-- no price, or another hold shares a seat.
abbrev pub HoldRefused : Catalogue → ℕ → Intent → ℕ → ℕ → ℕ → Database → Type 0
HoldRefused c id i zone block start db =
    (is_some (find_hold id db.holds) ≡ true)
    ⊎ (c.seats block (start + i.quantity - 1) ≡ false)
    ⊎ (c.zone_blocks zone block ≡ false)
    ⊎ (c.zone_prices i.event_id zone ≡ false)
    ⊎ (overlaps_any (new_hold id i zone block start) db.holds ≡ true)

-- Why the answer is 'failed'.
abbrev pub Reason : Catalogue → ℕ → Intent → Option ℕ → Option ℕ → Option ℕ → Database → Type 0
Reason c id i zone_id block_id start_pos db =
    (is_some zone_id ≢ is_some block_id)
    ⊎ ((find_key i.idempotency_key db.orders ≡ none)
        × (OrderRefused c i zone_id db
            ⊎ ((zone : ℕ) × (block : ℕ) × (start : ℕ) × (zone_id ≡ some zone)
                × (block_id ≡ some block)
                × (start_pos ≡ some start)
                × HoldRefused c id i zone block start db)))

abbrev pub Justified :
    Catalogue → ℕ → Intent → Option ℕ → Option ℕ → Option ℕ → Database → Result Outcome → Type 0
Justified c id i zone_id block start db (ok persisted) = Unit
Justified c id i zone_id block start db (ok duplicate) = Unit
Justified c id i zone_id block start db (ok failed) = Reason c id i zone_id block start db
Justified c id i zone_id block start db (err e) = Unit

order-refused :
    (c : Catalogue) (id : ℕ) (i : Intent) (zone : Option ℕ) (db : Database)
    → accepts_order c db (new_order id i zone) ≡ false
    → find_key i.idempotency_key db.orders ≡ none
    → OrderRefused c i zone db
unfolding accepts_order
order-refused c id i none db h new = elim (Option-cases (db.events i.event_id)) [
  | inl unknown ↦ inr (inr (inl unknown))
  | inr (total, known) ↦ let h' = rw (new, known) at h in ground arith
]
order-refused c id i (some zone) db h new = elim (Option-cases (db.events i.event_id)) [
  | inl unknown ↦ inr (inr (inl unknown))
  | inr (total, known) ↦
      let h' = rw (new, known) at h in
      elim (Bool-cases (c.zone_prices i.event_id zone)) [
        | inl priced ↦ let h2 = rw priced at h' in ground arith
        | inr unpriced ↦ inr (inr (inr (zone, refl, unpriced)))
      ]
]

full_order :
    (c : Catalogue) (id : ℕ) (i : Intent) (zone : Option ℕ) (db : Database)
    → accepts_order c db (new_order id i zone) ≡ true
    → i.quantity ≢ 0
unfolding accepts_order
full_order c id i zone_id db h e = ground arith

hold-refused :
    (c : Catalogue) (id : ℕ) (i : Intent) (zone block start : ℕ) (db : Database)
    → (i.quantity ≢ 0)
    → accepts_hold c db (new_hold id i zone block start) ≡ false
    → HoldRefused c id i zone block start db
unfolding accepts_hold
hold-refused c id i zone block start db full h = ground arith

-- After a refusal, the key decides between 'duplicate' and 'failed'.
refusal-Justified :
    (c : Catalogue) (id : ℕ) (i : Intent) (zone_id block start : Option ℕ) (db : Database)
    → (find_key i.idempotency_key db.orders ≡ none → Reason c id i zone_id block start db)
    → Justified c id i zone_id block start db (ok (after_integrity_error i db))
unfolding after_integrity_error
refusal-Justified c id i zone_id block start db reason =
    elim (Option-cases (find_key i.idempotency_key db.orders)) [
      | inl absent ↦ rw absent (reason absent)
      | inr (o, found) ↦ rw found tt
    ]

in-Justified :
    (c : Catalogue) (id : ℕ) (i : Intent) (zone block start : Option ℕ) (db : Database)
    → i.start_pos ≡ start
    → Justified c id i zone block start db (persist_in c id i zone block db).0
unfolding persist_in persist_plain persist_seated
in-Justified c id i none none start db e =
    elim (Bool-cases (accepts_order c db (new_order id i none))) [
      | inl taken ↦ rw taken tt
      | inr refused ↦ rw refused (
          refusal-Justified c id i none none start db
            (λ new. inr (new, inl (order-refused c id i none db refused new))))
    ]
in-Justified c id i none (some block) start db e = inl (λ h. ground arith)
in-Justified c id i (some zone) none start db e = inl (λ h. ground arith)
in-Justified c id i (some zone) (some block) none db e =
    rw e (elim (Bool-cases (accepts_order c db (new_order id i (some zone)))) [
      | inl taken ↦ rw taken tt
      | inr refused ↦ rw refused (
          refusal-Justified c id i (some zone) (some block) none db
            (λ new. inr (new, inl (order-refused c id i (some zone) db refused new))))
    ])
in-Justified c id i (some zone) (some block) (some start) db e =
    rw e (elim (Bool-cases (accepts_order c db (new_order id i (some zone)))) [
      | inr refused ↦ rw refused (
          refusal-Justified c id i (some zone) (some block) (some start) db
            (λ new. inr (new, inl (order-refused c id i (some zone) db refused new))))
      | inl taken ↦ elim (Bool-cases (accepts_hold c db (new_hold id i zone block start))) [
        | inl held ↦ rw (taken, held) tt
        | inr refused ↦
            rw (taken, refused)
              (refusal-Justified c id i (some zone) (some block) (some start) db (λ new. inr (
                new,
                inr (
                  zone,
                  block,
                  start,
                  refl,
                  refl,
                  refl,
                  hold-refused c id i zone block start db (full_order c id i (some zone) db taken)
                      refused,
                ),
              )))
      ]
    ])

-- Each answer of the persist step keeps its promise. 'ok': the intent asks for tickets, its key was
-- new, and its order is inserted, alone where it names neither zone nor block, with a hold that
-- overlaps none where it names both. 'duplicate': nothing changes, the key has an order. 'failed':
-- nothing changes, and either the intent names one of zone and block alone, or the key has no order
-- and a constraint is violated: no tickets are asked for, the buyer or the event is unknown, the
-- zone has no price at the event, the order has a hold, the last seat is not in the block, the block
-- is not in the zone, or another hold shares a seat. An exception: nothing changes, and the position
-- is missing.
pub persist_intent-Answered :
    (c : Catalogue) (id : ℕ) (i : Intent) (db : Database)
    → Persisted id i db (persist_intent c id i db).0 (persist_intent c id i db).1
      × Justified c id i i.zone_id i.block_id i.start_pos db (persist_intent c id i db).0
unfolding persist_intent
persist_intent-Answered c id i db = (
  persist_intent-Persisted c id i db,
  in-Justified c id i i.zone_id i.block_id i.start_pos db refl,
)
