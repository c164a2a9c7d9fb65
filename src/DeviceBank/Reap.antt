-- ===== src/DeviceBank/Reap.antt =====
-- The lifecycle pass of internal/atelierd/devicebank/ops.go: `reapLocked` and `reconcile`.
use homebrew_tools.Prelude.{
  ℕ, ◌-◌, String, Bool, true, false, not, Option, none, some, List, ◌&&◌, ◌||◌, ltb, ◌==◌,
  if◌then◌else◌, find, is_some,
}
use homebrew_tools.DeviceBank.Types.{
  Platform, ios, android, platform_eq, DeviceState, off, on, broken, is_broken, Device, target_id,
  Lease, State, contains,
}
use homebrew_tools.DeviceBank.State.{
  lease_for_device, journal, put_device, put_lease, Verdict, changed_or_not,
}
use homebrew_tools.DeviceBank.Queue.{drop_expired_waiters}
use homebrew_tools.DeviceBank.Lease.{reap_expired, each_device, reap_stuck_recycles}
use homebrew_tools.DeviceBank.Physical.{reap_restores}

-- What the toolchains answer in one pass: the ids that are on, or an error, for the platforms asked
-- for, and the error of a power-off, if it fails.
pub record Toolchain : Type 0 where
  pub powered_on : Bool → Bool → Option (List String)
  pub power_off : Device → Option String

abbrev pub power_off_retry_after : ℕ
power_off_retry_after = 300000000000

abbrev pub boot_timeout : ℕ
boot_timeout = 180000000000

-- The device, whether it is off now, and whether its record changed.
unfoldable pub reap_power_off : Toolchain → Device → ℕ → Device × Bool × Bool
reap_power_off tools d now =
    if not (d.power_off_failed_at == 0) && ltb (now - d.power_off_failed_at) power_off_retry_after
    then (d, false, false)
    else elim (tools.power_off d) [
      | some e ↦ (record d { power_off_failed_at = now }, false, true)
      | none ↦ (record d { power_off_failed_at = 0 }, true, true)
    ]

abbrev pub mark_off : Device → Device
mark_off d = record d { state = off; powered_on_at = 0; booting = false }

-- An on device that nobody leases.
unfoldable pub reconcile_unleased_on : Toolchain → ℕ → ℕ → Device → State → State × Bool
reconcile_unleased_on tools now i d s =
    let (d', turned_off, attempted) = reap_power_off tools d now in
    if turned_off
    then (
      journal (mark_off d') on none "reap-unleased-on" (put_device i (mark_off d') s),
      attempted,
    )
    else (put_device i d' s, attempted)

unfoldable pub reconcile_leased_on : Bool → Bool → ℕ → ℕ → Lease → ℕ → Device → State → State × Bool
reconcile_leased_on probed really_on now j l i d s =
    if probed && not really_on && not (d.booting && ltb (now - d.powered_on_at) boot_timeout)
    then (
      journal (mark_off d) on (some died) "died" (put_lease j died (put_device i (mark_off d) s)),
      true,
    )
    else (s, false)
  where
    died : Lease
    died = record l { device_died = true }

reap_reason : Option Lease → String
reap_reason none = "reap-unleased-on"
reap_reason (some l) = "reap-off"

-- An off or broken device.
unfoldable pub reconcile_idle :
    Toolchain → Bool → Bool → ℕ → Option Lease → ℕ → Device → State → State × Bool
unfolding reap_reason
reconcile_idle tools probed really_on now l i d s =
    if not really_on
    then (if probed && is_broken d.state && not d.power_off_confirmed
        then (put_device i (record d { power_off_confirmed = true }) s, true)
        else (s, false))
    else (let (d', turned_off, attempted) = reap_power_off tools d now in
        if not turned_off then (put_device i d' s, attempted) else (
          journal (confirmed d') on l (reap_reason l) (put_device i (confirmed d') s),
          attempted,
        ))
  where
    confirmed : Device → Device
    confirmed e = if is_broken e.state then record e { power_off_confirmed = true } else e

drop_position : Option (ℕ × Lease) → Option Lease
drop_position none = none
drop_position (some (_, l)) = some l

unfoldable pub reconcile_on :
    Toolchain → Bool → Bool → ℕ → Option (ℕ × Lease) → ℕ → Device → State → State × Bool
reconcile_on tools probed really_on now none i d s = reconcile_unleased_on tools now i d s
reconcile_on tools probed really_on now (some (j, l)) i d s =
    reconcile_leased_on probed really_on now j l i d s

-- The switch on the recorded state.
unfoldable pub reconcile_as :
    DeviceState
    → Toolchain
    → Bool
    → Bool
    → ℕ
    → Option (ℕ × Lease)
    → ℕ
    → Device
    → State
    → State × Bool
unfolding drop_position
reconcile_as on tools probed really_on now l i d s = reconcile_on tools probed really_on now l i d s
reconcile_as off tools probed really_on now l i d s =
    reconcile_idle tools probed really_on now (drop_position l) i d s
reconcile_as broken tools probed really_on now l i d s =
    reconcile_idle tools probed really_on now (drop_position l) i d s
reconcile_as _ tools probed really_on now l i d s = (s, false)

abbrev pub sees : Option (List String) → Device → Bool
sees none d = false
sees (some ids) d = contains ids (target_id d)

unfoldable pub reconcile_device :
    Toolchain → Option (List String) → ℕ → ℕ → Device → State → State × Bool
reconcile_device tools real now i d s =
    reconcile_as d.state tools (is_some real) (sees real d) now (lease_for_device d.name s) i d s

abbrev pub on_platform : Platform → Device → Bool
on_platform p d = platform_eq d.platform p

unfoldable pub reconcile : Toolchain → State → ℕ → State × Bool
reconcile tools s now =
    if not has_ios && not has_android
    then (s, false)
    else each_device (reconcile_device tools (tools.powered_on has_ios has_android) now) s.devices 0
        s
  where
    has_ios : Bool
    has_ios = is_some (find (on_platform ios) s.devices)

    has_android : Bool
    has_android = is_some (find (on_platform android) s.devices)

unfoldable pub reap_locked : Toolchain → State → ℕ → State × Bool
reap_locked tools s now =
    let (s1, expired) = reap_expired s now in
    let (s2, stuck) = reap_stuck_recycles s1 now in
    let (s3, due) = reap_restores s2 now in
    let (s4, reconciled) = reconcile tools s3 now in (s4, reconciled || due || stuck || expired)

-- `Reap`: the function that it runs under the lock.
unfoldable pub reap : Toolchain → ℕ → State → State × Verdict String
reap tools now s =
    let (s1, changed) = reap_locked tools s now in
    let (s2, dropped) = drop_expired_waiters now s1 in (s2, changed_or_not (dropped || changed))
