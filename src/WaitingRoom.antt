-- ===== src/WaitingRoom.antt =====
-- app/services/waiting_room.py: the draw of an event, who is admitted when, and the single use of an
-- admission token. Times are whole microseconds since the epoch, and their conversion to
-- floats is as in the source; the digest of the draw, the order of Redis on member names and the decoding of tokens are parameters.
pub mod Admission
pub mod Pass
use Prim.Native.Nat.{min, max}
use fast_api.Base.{
  ℕ, suc, ◌+◌, ◌-◌, ◌*◌, ◌/◌, Bool, true, false, ◌&&◌, ◌||◌, not, ltb, leb, ◌==◌, if◌then◌else◌,
  Option, none, some, is_some, List, [], ◌∷◌, length, Hash, hget, nat_eq,
}
use fast_api.Base.Int.{ℤ, pos, pos_part, sub_ℕ, ◌-ℤ◌, leb_ℤ}
use fast_api.Exceptions.{
  Result, err, ok, admission_denied, DeniedReason, invalid_or_expired, wrong_type, wrong_event,
  wrong_user, already_used,
}
use fast_api.Floats.{FloatOps}
use fast_api.Redis.{Redis, at}
use fast_api.Pricing.{EventMeta, EventStatus}
use fast_api.Inventory.{get_available}

-- The keys of the waiting room. A draw is a sorted set: members with their scores.
pub record Queue : Type 0 where
  pub salt : ℕ → Option ℕ
  pub draw : ℕ → Hash ℕ ℕ
  pub paused : Bool
  -- until when the single-use marker of a token stands
  pub used : ℕ → Option ℕ
  -- how often every waiting connection was told to read its status again
  pub pokes : ℕ

-- The settings that this module reads, in microseconds and users per second.
pub record Settings : Type 0 where
  pub lead_time : ℕ
  pub admission_buffer : ℕ
  pub admission_rate : ℕ

pub record QueueState : Type 0 where
  pub admitted : Bool
  pub people_ahead : Option ℕ
  pub sold_out : Bool
  pub paused : Bool

abbrev pub second : ℕ
second = 1000000

-- The key is set or deleted, and the connections are poked.
abbrev pub set_admission_paused : Bool → Queue → Queue
set_admission_paused paused q = record q { paused = paused; pokes = q.pokes + 1 }

abbrev pub or_before : Option ℕ → ℕ → ℕ → ℤ
or_before none start lead = sub_ℕ start lead
or_before (some at) start lead = pos at

unfoldable pub effective_window : Settings → ℕ → Option ℕ → Option ℕ → ℤ × ℤ
effective_window s sale_starts_at queue_opens_at queue_closes_at = (
  or_before queue_opens_at sale_starts_at s.lead_time,
  or_before queue_closes_at sale_starts_at s.admission_buffer,
)

-- `_admit_start`
module _ {F : Type 0} ⦃fl : FloatOps F⦄ where
  -- `datetime.timestamp()`
  abbrev pub timestamp : ℤ → F
  timestamp at = fl.div (fl.of_int at) (fl.of_int (pos second))

  unfoldable pub admit_start : Settings → Option EventMeta → Option F
  unfolding effective_window
  admit_start s none = none
  admit_start s (some meta) = elim (meta.status) [
    | EventStatus.published ↦ some (
        timestamp
          (effective_window s meta.sale_starts_at meta.queue_opens_at meta.queue_closes_at).1)
    | EventStatus.draft ↦ none
    | EventStatus.cancelled ↦ none
  ]

  -- `_admitted_count`: the start of the admission, the time, and the size of the draw.
  unfoldable pub admitted_count : Settings → Option F → ℕ → ℕ → ℕ
  admitted_count s none now total = 0
  admitted_count s (some start) now total =
      let elapsed = fl.sub (timestamp (pos now)) start in
      if not (fl.lt (fl.of_int (pos 0)) elapsed)
      then 0
      else min (pos_part (fl.trunc (fl.mul elapsed (fl.of_int (pos s.admission_rate))))) total

-- `ZADD NX`: a member keeps the score that it has.
abbrev pub zadd_nx : ℕ → ℕ → Hash ℕ ℕ → Hash ℕ ℕ
zadd_nx member score draw = if is_some (hget member draw) then draw else (member, score) ∷ draw

-- `register`, with `_ensure_salt`: the first writer's salt stays. `fresh` is the random salt.
unfoldable pub register : (ℕ → ℕ → ℕ → ℕ) → ℕ → ℕ → ℕ → Queue → Queue
register digest fresh event_id user_id q = elim (q.salt event_id) [
  | none ↦ record q {
    salt = at event_id (some fresh) q.salt;
    draw = at event_id (zadd_nx user_id (digest event_id user_id fresh) (q.draw event_id)) q.draw;
  }
  | some salt ↦ record q {
    draw = at event_id (zadd_nx user_id (digest event_id user_id salt) (q.draw event_id)) q.draw;
  }
]

-- `ZRANK`: the members with a lower score, or the same score and a name that sorts before.
abbrev pub members_before : (ℕ → ℕ → Bool) → ℕ → ℕ → Hash ℕ ℕ → ℕ
members_before name_before member score [] = 0
members_before name_before member score ((m, s) ∷ draw) =
    (if ltb s score || ((s == score) && name_before m member) then 1 else 0)
    + members_before name_before member score draw

unfoldable pub zrank : (ℕ → ℕ → Bool) → ℕ → Hash ℕ ℕ → Option ℕ
zrank name_before member draw = elim (hget member draw) [
  | none ↦ none
  | some score ↦ some (members_before name_before member score draw)
]

abbrev pub state_of : Bool → Option ℕ → Bool → Bool → QueueState
state_of admitted ahead sold_out paused = record {
  admitted = admitted;
  people_ahead = ahead;
  sold_out = sold_out;
  paused = paused;
}

unfoldable pub status_of : Bool → Bool → Option ℕ → ℕ → QueueState
status_of sold_out paused none count = state_of false none sold_out paused
status_of sold_out paused (some rank) count =
    if sold_out
    then state_of false none true paused
    else if paused
    then state_of false (some (rank - count)) false true
    else if ltb rank count
    then state_of true none false false
    else state_of false (some (rank - count)) false false

module _ {F : Type 0} ⦃fl : FloatOps F⦄ where
  unfoldable pub status :
      (ℕ → ℕ → Bool) → Settings → (ℕ → Option EventMeta) → Redis F → Queue → ℕ → ℕ → ℕ → QueueState
  unfolding status_of
  status name_before s get_event_meta r q now event_id user_id =
      status_of (leb (get_available event_id r) 0) q.paused
        (zrank name_before user_id (q.draw event_id))
        (admitted_count {F = F} s (admit_start s (get_event_meta event_id)) now
          (length (q.draw event_id)))

  unfoldable pub admit_deadline :
      (ℕ → ℕ → Bool) → Settings → (ℕ → Option EventMeta) → Queue → ℕ → ℕ → Option F
  admit_deadline name_before s get_event_meta q event_id user_id =
      elim (admit_start s (get_event_meta event_id)) [
        | none ↦ none
        | some start ↦ elim (zrank name_before user_id (q.draw event_id)) [
          | none ↦ none
          | some rank ↦ some (
              fl.add start (fl.div (fl.of_int (pos (rank + 1))) (fl.of_int (pos s.admission_rate))))
        ]
      ]

-- What a token decodes to.
pub record Payload : Type 0 where
  pub is_admission : Bool
  pub event_id : ℕ
  pub user_id : ℕ
  pub jti : ℕ
  -- in seconds
  pub exp : ℕ

-- A marker that Redis has not dropped yet.
abbrev pub stands : ℕ → Option ℕ → Bool
stands now none = false
stands now (some until) = ltb now until

-- `max(1, int(payload["exp"] - now))`, in seconds; the difference, a float, cut to an integer, is a
-- parameter.
abbrev pub used_ttl : (ℕ → ℕ → ℤ) → Payload → ℕ → ℕ
used_ttl whole_seconds payload now = max 1 (pos_part (whole_seconds payload.exp now))

-- `verify_admission`; `decode` is `jwt.decode` at a time, which fails on a bad signature or an
-- expired token. `SET ... NX EX` marks the id until its time to live is over.
unfoldable pub verify_admission :
    (ℕ → ℕ → ℤ) → (ℕ → ℕ → Option Payload) → ℕ → ℕ → ℕ → ℕ → Queue → Result ℕ × Queue
verify_admission whole_seconds decode now token user_id event_id q = elim (decode now token) [
  | none ↦ (err (admission_denied invalid_or_expired), q)
  | some payload ↦
      if not payload.is_admission
      then (err (admission_denied wrong_type), q)
      else if not (payload.event_id == event_id)
      then (err (admission_denied wrong_event), q)
      else if not (payload.user_id == user_id)
      then (err (admission_denied wrong_user), q)
      else if stands now (q.used payload.jti)
      then (err (admission_denied already_used), q)
      else (
        ok payload.jti,
        record q {
          used = at payload.jti (some (now + used_ttl whole_seconds payload now * second)) q.used;
        },
      )
]

unfoldable pub refund_admission : ℕ → Queue → Queue
refund_admission jti q = record q { used = at jti none q.used }
