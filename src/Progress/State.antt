-- ===== src/Progress/State.antt =====
-- The state of go_backend/progress.go, and what of an item the app sees (its bridge state).
-- `float64` is the parameter `Floats`; no law of it is used. `int64` counters do not wrap here.
use musi_flac.Prelude.{
  ℕ, suc, ◌-◌, ◌*◌, ◌/◌, ◌≡◌, ◌↔◌, Bool, true, false, ◌&&◌, ◌||◌, List, [], arith, ◌==◌,
  if◌then◌else◌, Bytes, codes, ◌=ₛ◌, =ₛ_iff, ℤ, pos, negsuc,
}

-- What the file uses of float64: `rounded x k` is `int64(math.Round(x * k))`, `ratio a b` is
-- `float64(a) / float64(b)`, and `at_most` is `<=`, false where an operand is NaN.
pub record Floats : Type 1 where
  pub Float : Type 0
  pub zero_float : Float
  pub one_float : Float
  pub is_nan : Float → Bool
  pub at_most : Float → Float → Bool
  pub ratio : ℤ → ℤ → Float
  pub rounded : Float → ℕ → ℤ

pub record ItemProgress (F : Type 0) : Type 0 where
  pub item_id : Bytes
  pub bytes_total : ℤ
  pub bytes_received : ℤ
  pub progress : F
  pub speed_mbps : F
  pub is_downloading : Bool
  pub status : Bytes
  pub stage : Bytes
  pub revision : ℕ

abbrev pub preparing : Bytes
preparing = codes "preparing"

abbrev pub downloading : Bytes
downloading = codes "downloading"

abbrev pub completed : Bytes
completed = codes "completed"

abbrev pub finalizing : Bytes
finalizing = codes "finalizing"

-- `progressBridgeState`
pub record Bridge : Type 0 where
  pub bytes_bucket : ℤ
  pub bytes_total : ℤ
  pub progress_pct : ℤ
  pub speed_deci_mbps : ℤ
  pub downloading : Bool
  pub status : Bytes
  pub stage : Bytes

abbrev pub progress_update_threshold : ℕ
progress_update_threshold = 128 * 1024

-- Go's `/` of an int64 by a positive constant: towards zero.
unfoldable pub quot : ℤ → ℕ → ℤ
quot (pos n) k = pos (n / k)
quot (negsuc n) k = let q = suc n / k in if q == 0 then pos 0 else negsuc (q - 1)

-- The registry: the package's variables, `notify` left out (it wakes the waiters).
pub record Registry (F : Type 0) : Type 0 where
  pub items : List (Bytes × ItemProgress F)
  pub dirty : Bool
  pub cached : Bytes
  pub seq : ℕ
  pub reset : ℕ
  pub removed : List (Bytes × ℕ)

abbrev pub empty_json : Bytes
empty_json = codes "{\"items\":{}}"

abbrev pub initial_registry : (F : Type 0) → Registry F
initial_registry F = record {
  items = [];
  dirty = true;
  cached = empty_json;
  seq = 0;
  reset = 0;
  removed = [];
}

infix 50 ◌==ℤ◌
unfoldable pub ◌==ℤ◌ : ℤ → ℤ → Bool
pos a ==ℤ pos b = a == b
negsuc a ==ℤ negsuc b = a == b
_ ==ℤ _ = false

pub ==ℤ_iff : (a b : ℤ) → ((a ==ℤ b) ≡ true) ↔ (a ≡ b)
unfolding ◌==ℤ◌
==ℤ_iff (pos a) b = elim b [ pos c ↦ ground arith | negsuc c ↦ ground arith ]
==ℤ_iff (negsuc a) b = elim b [ pos c ↦ ground arith | negsuc c ↦ ground arith ]

unfoldable pub same_bool : Bool → Bool → Bool
same_bool true b = b
same_bool false true = false
same_bool false false = true

-- `==` of two structs.
unfoldable pub same_bridge : Bridge → Bridge → Bool
unfolding same_bool
same_bridge a b =
    a.bytes_bucket ==ℤ b.bytes_bucket
    && a.bytes_total ==ℤ b.bytes_total
    && a.progress_pct ==ℤ b.progress_pct
    && a.speed_deci_mbps ==ℤ b.speed_deci_mbps
    && same_bool a.downloading b.downloading
    && a.status =ₛ b.status
    && a.stage =ₛ b.stage

pub same_bridge→eq : (a b : Bridge) → same_bridge a b ≡ true → a ≡ b
unfolding same_bridge
same_bridge→eq a b h = ground (
  arith,
  ==ℤ_iff a.bytes_bucket b.bytes_bucket,
  ==ℤ_iff a.bytes_total b.bytes_total,
  ==ℤ_iff a.progress_pct b.progress_pct,
  ==ℤ_iff a.speed_deci_mbps b.speed_deci_mbps,
  =ₛ_iff a.status b.status,
  =ₛ_iff a.stage b.stage,
)

module _ (fl : Floats) where
  open fl use {Float, zero_float, one_float, is_nan, at_most, rounded}

  unfoldable pub clamp_progress : Float → Float
  clamp_progress p =
      if is_nan p || at_most p zero_float
      then zero_float
      else if at_most one_float p
      then one_float
      else p

  unfoldable pub clamp_speed : Float → Float
  clamp_speed s = if is_nan s || at_most s zero_float then zero_float else s

  -- `itemProgressBridgeState`
  unfoldable pub bridge_of : ItemProgress Float → Bridge
  unfolding clamp_progress clamp_speed
  bridge_of item = record {
    bytes_bucket = quot item.bytes_received progress_update_threshold;
    bytes_total = item.bytes_total;
    progress_pct = rounded (clamp_progress item.progress) 100;
    speed_deci_mbps = rounded (clamp_speed item.speed_mbps) 10;
    downloading = item.is_downloading;
    status = item.status;
    stage = item.stage;
  }
