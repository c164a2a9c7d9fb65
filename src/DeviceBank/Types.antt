-- ===== src/DeviceBank/Types.antt =====
-- The records of internal/atelierd/devicebank/state.go, journal.go and physical.go.
-- A time is a number of nanoseconds, and 0 is Go's zero time. A pointer to a string is an `Option`,
-- and a map of strings to Booleans is the list of the keys that it holds.
use homebrew_tools.Prelude.{
  ℕ, String, Bool, true, false, not, Option, List, ◌==◌, str_eq, if◌then◌else◌, [], ◌∷◌, ◌||◌,
  decimal,
}
use Prim.Native.String.{◌++◌ as ◌<>◌}

pub data Platform : Type 0 where
  ios android : Platform

abbrev pub platform_eq : Platform → Platform → Bool
platform_eq ios ios = true
platform_eq ios android = false
platform_eq android ios = false
platform_eq android android = true

-- The last two are the states of atelierd 0.20.
pub data DeviceState : Type 0 where
  off on recycling broken legacy_free legacy_leased : DeviceState

abbrev pub is_off : DeviceState → Bool
is_off off = true
is_off _ = false

abbrev pub is_on : DeviceState → Bool
is_on on = true
is_on _ = false

abbrev pub is_recycling : DeviceState → Bool
is_recycling recycling = true
is_recycling _ = false

abbrev pub is_broken : DeviceState → Bool
is_broken broken = true
is_broken _ = false

abbrev pub second : ℕ
second = 1000000000

abbrev pub minute : ℕ
minute = 60000000000

abbrev pub ttl : ℕ
ttl = 3600000000000

abbrev pub recycle_bound : ℕ
recycle_bound = 300000000000

abbrev pub queue_grace : ℕ
queue_grace = 120000000000

abbrev pub notify_after : ℕ
notify_after = 600000000000

abbrev pub default_max_on : ℕ
default_max_on = 1

pub record Config : Type 0 where
  pub ios : ℕ
  pub android : ℕ
  pub max_on : ℕ

pub record Device : Type 0 where
  pub name : String
  pub platform : Platform
  pub udid : String
  pub avd : String
  pub port : ℕ
  pub state : DeviceState
  pub last_used_at : ℕ
  pub powered_on_at : ℕ
  pub booting : Bool
  pub recycle_started_at : ℕ
  pub power_off_confirmed : Bool
  pub power_off_failed_at : ℕ
  pub recycle_failures : ℕ
  pub broken_reason : String
  pub wipe_pending : Bool

unfoldable pub target_id : Device → String
target_id d = elim d.platform [ ios ↦ d.udid | android ↦ "emulator-" <> decimal d.port ]

-- What the ignition limit counts, by the state and the confirmation.
abbrev pub state_may_be_on : DeviceState → Bool → Bool
state_may_be_on on confirmed = true
state_may_be_on recycling confirmed = not confirmed
state_may_be_on broken confirmed = not confirmed
state_may_be_on _ confirmed = false

abbrev pub may_be_on : Device → Bool
may_be_on d = state_may_be_on d.state d.power_off_confirmed

pub record PhysicalSnapshot : Type 0 where
  pub taken_at : ℕ
  pub stay_on_before : Option String
  pub apps_before : List String

pub record Lease : Type 0 where
  pub session_id : String
  pub platform : Platform
  pub device_name : String
  pub device_id : String
  pub physical : Bool
  pub serial_text : String
  pub app_id : String
  pub snapshot : Option PhysicalSnapshot
  pub workdir : String
  pub acquired_at : ℕ
  pub renewed_at : ℕ
  pub suspended_at : ℕ
  pub device_died : Bool

unfoldable pub serial : Lease → String
serial l = if str_eq l.serial_text "" then l.device_id else l.serial_text

abbrev pub suspended : Lease → Bool
suspended l = not (l.suspended_at == 0)

pub record PendingRestore : Type 0 where
  pub device_id : String
  pub serial : String
  pub name : String
  pub platform : Platform
  pub app_id : String
  pub snapshot : Option PhysicalSnapshot
  pub ended_at : ℕ
  pub reason : String
  pub started_at : ℕ
  pub last_attempt_at : ℕ
  pub last_error : String

pub record Waiter : Type 0 where
  pub session_id : String
  pub platform : Platform
  pub enqueued_at : ℕ
  pub expires_at : ℕ
  pub notified_at : ℕ

pub data SpawnJob : Type 0 where
  recycle_job : String → SpawnJob
  restore_job : String → SpawnJob

-- The line's own time stamp, a second reading of the clock, is left out.
pub record Transition : Type 0 where
  pub device : String
  pub platform : Platform
  pub from : DeviceState
  pub to : DeviceState
  pub session : String
  pub reason : String
  pub on : Bool
  pub leased : Bool

pub record State : Type 0 where
  pub config : Config
  pub devices : List Device
  pub leases : List Lease
  pub queue : List Waiter
  pub restores : List PendingRestore
  pub transitions : List Transition
  pub spawns : List SpawnJob

pub record PhysicalDevice : Type 0 where
  pub id : String
  pub serial : String
  pub name : String
  pub platform : Platform
  pub wired : Bool

-- A set of strings: the keys of a `map[string]bool`.
unfoldable pub contains : List String → String → Bool
contains [] s = false
contains (x ∷ xs) s = str_eq x s || contains xs s
