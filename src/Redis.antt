-- ===== src/Redis.antt =====
-- The keys that the services keep in Redis, typed by what the code stores in them. A Lua script is
-- atomic, so it is a function on this record. Values that Redis itself chooses (a stream id) are
-- arguments. A key with a time to live stands for as long as it has not expired.
use fast_api.Base.{
  ℕ, ◌≡◌, ◌==◌, ◌&&◌, Bool, true, false, if◌then◌else◌, Option, none, some, List, Hash, Field,
  arith,
}
use fast_api.Base.Int.{ℤ, ◌+ℤ◌}

-- The value of a claim key: services/idempotency.py, `CLAIM_PENDING` and `CLAIM_FAILED`.
pub data Claim : Type 0 where
  pending failed : Claim

-- The marker of a release: `order:{id}`, or `dl:{idempotency_key}` for a dead letter.
pub data Marker : Type 0 where
  order dead_letter : ℕ → Marker

-- The fields of an entry of `orders:stream`. An empty text is `none`.
pub record Intent : Type 0 where
  pub user_id : ℕ
  pub event_id : ℕ
  pub quantity : ℕ
  pub total_price_cents : ℕ
  pub idempotency_key : ℕ
  pub zone_id : Option ℕ
  pub block_id : Option ℕ
  pub start_pos : Option ℕ

-- `"{capacity}:{quality_base}:{quality_edge}"`
pub record PackedGeometry (F : Type 0) : Type 0 where
  pub capacity : ℕ
  pub quality_base : F
  pub quality_edge : F

-- The keys of one zone of one event: services/seat_runs.py.
pub record ZoneKeys (F : Type 0) : Type 0 where
  pub runs : Hash Field ℕ
  pub ends : Hash Field ℕ
  pub geom : Hash ℕ (PackedGeometry F)
  pub available : Option ℤ
  pub strict_misses : ℕ
  pub relaxed : Bool

-- The keys of one event: services/inventory.py.
pub record EventKeys : Type 0 where
  pub available : Option ℤ
  pub purchased : Hash ℕ ℤ

pub record Redis (F : Type 0) : Type 0 where
  pub event : ℕ → EventKeys
  pub zone : ℕ → ℕ → ZoneKeys F
  pub claim : ℕ → Option Claim
  pub released : Marker → Bool
  pub stream : List (ℕ × Intent)
  pub dead : List (ℕ × Intent)
  -- the events that were poked, latest first: services/queue_events.py, `publish_event_poke`
  pub pokes : List ℕ

-- `INCRBY`: a missing key counts as 0.
abbrev pub incrby : Option ℤ → ℤ → ℤ
incrby none n = n
incrby (some a) n = a +ℤ n

abbrev pub marker_eq : Marker → Marker → Bool
marker_eq (Marker.order a) (Marker.order b) = a == b
marker_eq (dead_letter a) (dead_letter b) = a == b
marker_eq (Marker.order a) (dead_letter b) = false
marker_eq (dead_letter a) (Marker.order b) = false

-- Writes to one key.
abbrev pub at : {A : Type 0} → ℕ → A → (ℕ → A) → ℕ → A
at k v f j = if j == k then v else f j

abbrev pub at_zone : {A : Type 0} → ℕ → ℕ → A → (ℕ → ℕ → A) → ℕ → ℕ → A
at_zone e z v f i j = if (i == e) && (j == z) then v else f i j

abbrev pub at_marker : {A : Type 0} → Marker → A → (Marker → A) → Marker → A
at_marker k v f j = if marker_eq j k then v else f j

-- A write is read back, and other keys keep their values.
pub at_self : {A : Type 0} (k : ℕ) (v : A) (f : ℕ → A) → at k v f k ≡ v
at_self k v f = ground arith

pub at_zone_self : {A : Type 0} (e z : ℕ) (v : A) (f : ℕ → ℕ → A) → at_zone e z v f e z ≡ v
at_zone_self e z v f = ground arith

pub marker_eq_refl : (m : Marker) → marker_eq m m ≡ true
marker_eq_refl (Marker.order a) = ground arith
marker_eq_refl (dead_letter a) = ground arith

pub at_marker_self : {A : Type 0} (m : Marker) (v : A) (f : Marker → A) → at_marker m v f m ≡ v
at_marker_self m v f = rw (marker_eq_refl m)
