-- ===== src/DeviceBank/Physical.antt =====
-- internal/atelierd/devicebank/physical_lease.go: which physical device a lease takes, when a held
-- one ends, and the restores that a returned one waits for.
use homebrew_tools.Prelude.{
  ℕ, suc, ◌+◌, ◌-◌, ◌*◌, String, Bool, true, false, not, Option, none, some, List, [], ◌∷◌, ◌&&◌,
  ◌||◌, ltb, str_eq, if◌then◌else◌, find, set, keep, is_some,
}
use homebrew_tools.DeviceBank.Types.{
  Platform, platform_eq, second, minute, recycle_bound, Device, PhysicalSnapshot, Lease, serial,
  suspended, PendingRestore, State, PhysicalDevice, contains,
}
use homebrew_tools.DeviceBank.State.{lease_for_physical, restore_for_physical, spawn_restore}
use Prim.Native.String.{compare}
use text.Mathlib.Text.{is_lt}

pub data Requirement : Type 0 where
  require_virtual require_any require_physical : Requirement

abbrev pub admits_physical : Requirement → Bool
admits_physical require_virtual = false
admits_physical _ = true

abbrev pub admits_virtual : Requirement → Bool
admits_virtual require_physical = false
admits_virtual _ = true

abbrev pub admits : Requirement → Lease → Bool
admits r l = if l.physical then admits_physical r else admits_virtual r

pub record LeaseRequest : Type 0 where
  pub session : String
  pub workdir : String
  pub platform : Platform
  pub requirement : Requirement
  pub app_id : String
  pub wait : ℕ

-- One pass of the physical probe.
pub record PhysicalProbe : Type 0 where
  pub worked : Bool
  pub devices : List PhysicalDevice

abbrev pub plugs : Lease → PhysicalDevice → Bool
plugs l p = p.wired && (str_eq p.id l.device_id || str_eq p.serial (serial l))

unfoldable pub wired : PhysicalProbe → Lease → Option PhysicalDevice
wired probe l = elim (find (plugs l) probe.devices) [ none ↦ none | some (_, p) ↦ some p ]

abbrev pub restore_reap_after : ℕ
restore_reap_after = recycle_bound + 30 * second

abbrev pub restore_retry_after : ℕ
restore_retry_after = minute

pub data HoldDecision : Type 0 where
  hold_keep hold_drop hold_retake hold_wait : HoldDecision

pub record Hold : Type 0 where
  pub decision : HoldDecision
  pub device : Option PhysicalDevice
  pub resume_stay_on : Bool
  pub lease : Lease

abbrev pub has_stay_on : Option PhysicalSnapshot → Bool
has_stay_on none = false
has_stay_on (some snap) = is_some snap.stay_on_before

-- The part of `holdPhysical` behind the test of the probe.
unfoldable pub hold_plugged : Lease → Option PhysicalDevice → Hold
hold_plugged l dev =
    if not (str_eq l.app_id "") && not (is_some l.snapshot)
    then (elim dev [
      | none ↦ record { decision = hold_wait; device = none; resume_stay_on = false; lease = l }
      | some p ↦ record {
        decision = hold_retake;
        device = some p;
        resume_stay_on = false;
        lease = resumed;
      }
    ])
    else if not (suspended l)
    then record { decision = hold_keep; device = none; resume_stay_on = false; lease = l }
    else record {
      decision = hold_keep;
      device = none;
      resume_stay_on = has_stay_on l.snapshot;
      lease = resumed;
    }
  where
    resumed : Lease
    resumed = record l { suspended_at = 0 }

unfoldable pub hold_physical : Lease → PhysicalProbe → Hold
hold_physical l probe =
    if probe.worked
    then (elim (wired probe l) [
      | none ↦ record { decision = hold_drop; device = none; resume_stay_on = false; lease = l }
      | some p ↦ hold_plugged l (some p)
    ])
    else hold_plugged l none

-- Why a physical device is skipped, and what else a grant prints.
pub data Why : Type 0 where
  no_cable : Why
  leased_by : String → Why
  restore_pending : ℕ → Why

pub data Note : Type 0 where
  skipped : PhysicalDevice → Why → Note
  type_ends : Requirement → Lease → Note
  unplugged : Lease → Note
  no_app_id : Note
  yields : PhysicalDevice → Device → Note

unfoldable pub str_lt : String → String → Bool
str_lt a b = is_lt (compare a b)

-- `sort.Slice` by id.
unfoldable pub insert_device : PhysicalDevice → List PhysicalDevice → List PhysicalDevice
insert_device p [] = p ∷ []
insert_device p (q ∷ qs) = if str_lt q.id p.id then q ∷ insert_device p qs else p ∷ (q ∷ qs)

unfoldable pub sort_devices : List PhysicalDevice → List PhysicalDevice
sort_devices [] = []
sort_devices (p ∷ ps) = insert_device p (sort_devices ps)

-- The cases of the switch, in its order; no reason means that the device is picked.
unfoldable pub why_skipped : State → PhysicalDevice → Option Why
why_skipped s p = if not p.wired then some no_cable else elim (lease_for_physical p s) [
  | some (_, l) ↦ some (leased_by l.session_id)
  | none ↦ elim (restore_for_physical p s) [
    | some (_, r) ↦ some (restore_pending r.ended_at)
    | none ↦ none
  ]
]

unfoldable pub pick_from :
    State → List String → List PhysicalDevice → Option PhysicalDevice × List Note
pick_from s excluded [] = (none, [])
pick_from s excluded (p ∷ ps) =
    let (picked, notes) = pick_from s excluded ps in
    if contains excluded p.serial
    then (picked, notes)
    else elim (why_skipped s p) [ none ↦ (some p, []) | some why ↦ (picked, skipped p why ∷ notes) ]

-- The device picked, and the notes to print.
unfoldable pub pick_physical :
    State → Platform → List PhysicalDevice → List String → Option PhysicalDevice × List Note
pick_physical s platform devices excluded =
    pick_from s excluded (sort_devices (keep (λ p. platform_eq p.platform platform) devices))

unfoldable pub put_restore : ℕ → PendingRestore → State → State
put_restore i r s = record s { restores = set s.restores i r }

abbrev pub is_due : ℕ → PendingRestore → Bool
is_due now r =
    ltb restore_reap_after (now - r.started_at) && ltb restore_retry_after (now - r.last_attempt_at)

unfoldable pub reap_restores_from : ℕ → List PendingRestore → ℕ → State → State × Bool
reap_restores_from now [] i s = (s, false)
reap_restores_from now (r ∷ rs) i s = elim (is_due now r) [
  | true ↦
      let restamped : PendingRestore = record r { started_at = now } in
      let s' = spawn_restore r.device_id (put_restore i restamped s) in
      ((reap_restores_from now rs (suc i) s').0, true)
  | false ↦ reap_restores_from now rs (suc i) s
]

unfoldable pub reap_restores : State → ℕ → State × Bool
unfolding reap_restores_from
reap_restores s now = reap_restores_from now s.restores 0 s

unfoldable pub fresh_install : Lease → Bool
fresh_install l =
    l.physical
    && not (str_eq l.app_id "")
    && (elim l.snapshot [ none ↦ false | some snap ↦ not (contains snap.apps_before l.app_id) ])
