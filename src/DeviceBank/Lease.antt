-- ===== src/DeviceBank/Lease.antt =====
-- internal/atelierd/devicebank/lease.go: leases taken, renewed, dropped and reaped.
use homebrew_tools.Prelude.{
  ℕ, suc, ◌+◌, ◌-◌, ◌*◌, String, Bool, true, false, Option, none, some, List, [], ◌∷◌, ◌++◌, ◌&&◌,
  ◌||◌, ltb, leb, str_eq, if◌then◌else◌, get_elem?, count, remove_at, map,
}
use homebrew_tools.DeviceBank.Types.{
  Platform, on, recycling, broken, is_off, is_on, is_recycling, is_broken, second, ttl,
  recycle_bound, Device, target_id, Lease, serial, PendingRestore, State, PhysicalDevice,
}
use homebrew_tools.DeviceBank.State.{find_device, spawn_recycle, spawn_restore, journal, put_device}
use homebrew_tools.DeviceBank.Queue.{of_platform, remove_waiters}

pub data Candidate : Type 0 where
  virtual : ℕ → Device → Candidate
  plugged : PhysicalDevice → Candidate

abbrev pub recycle_reap_after : ℕ
recycle_reap_after = recycle_bound + 30 * second

abbrev pub max_recycle_failures : ℕ
max_recycle_failures = 2

abbrev pub stuck_recycle_reason : String
stuck_recycle_reason = "recycle worker did not finish within 5m0s"

-- The lease is not yet, or no longer, read from the list: its new value is handed back.
unfoldable pub power_up : ℕ → Device → Lease → ℕ → String → State → State × Device × Lease
power_up i d l now reason s = (journal d' d.state (some l') reason (put_device i d' s), d', l')
  where
    d' : Device
    d' = record d { state = on; powered_on_at = now; last_used_at = now; booting = true }

    l' : Lease
    l' = record l { suspended_at = 0; device_died = false }

new_lease : String → String → Platform → ℕ → Lease
new_lease session workdir platform now = record {
  session_id = session;
  platform = platform;
  device_name = "";
  device_id = "";
  physical = false;
  serial_text = "";
  app_id = "";
  snapshot = none;
  workdir = workdir;
  acquired_at = now;
  renewed_at = now;
  suspended_at = 0;
  device_died = false;
}

unfoldable pub append_lease : Lease → State → State
append_lease l s = record s { leases = s.leases ++ (l ∷ []) }

-- The new lease is the last of the list.
unfoldable pub commit_lease : State → Candidate → String → String → Platform → ℕ → State × Lease
unfolding new_lease
commit_lease s (virtual i d) session workdir platform now =
    let l = new_lease session workdir platform now in
    let (s', _, l') =
      power_up i d (record l { device_name = d.name; device_id = target_id d }) now "lease" s in
    (append_lease l' s', l')
commit_lease s (plugged p) session workdir platform now =
    let fresh = new_lease session workdir platform now in
    let l : Lease = record fresh {
      device_id = p.id;
      device_name = p.name;
      serial_text = p.serial;
      physical = true;
    } in
    (append_lease l s, l)

abbrev pub renew : String → ℕ → Lease → Lease
renew session now l = if str_eq l.session_id session then record l { renewed_at = now } else l

-- The state, and the number of leases renewed.
unfoldable pub touch_session : String → ℕ → State → State × ℕ
touch_session session now s = (
  record s { leases = map (renew session now) s.leases },
  count (λ l. str_eq l.session_id session) s.leases,
)

unfoldable pub remove_lease : ℕ → State → State
remove_lease j s = record s { leases = remove_at s.leases j }

abbrev pub restore_of : Lease → ℕ → String → PendingRestore
restore_of l now reason = record {
  device_id = l.device_id;
  serial = serial l;
  name = l.device_name;
  platform = l.platform;
  app_id = l.app_id;
  snapshot = l.snapshot;
  ended_at = now;
  reason = reason;
  started_at = now;
  last_attempt_at = 0;
  last_error = "";
}

unfoldable pub add_restore : PendingRestore → State → State
add_restore r s = record s { restores = s.restores ++ (r ∷ []) }

unfoldable pub send_to_recycling : ℕ → Device → ℕ → String → State → State
send_to_recycling i d now reason s =
    spawn_recycle d'.name (journal d' d.state none reason (put_device i d' s))
  where
    d' : Device
    d' = record d {
      state = recycling;
      recycle_started_at = now;
      power_off_confirmed = is_off d.state;
      booting = false;
      last_used_at = now;
    }

-- The virtual half of `dropLease`: what becomes of the device of that name.
unfoldable pub recycle_device : String → ℕ → String → State → State
recycle_device name now reason s = elim (find_device name s) [
  | none ↦ s
  | some (i, d) ↦
      if is_recycling d.state || is_broken d.state then s else send_to_recycling i d now reason s
]

unfoldable pub drop_lease : ℕ → Lease → ℕ → String → State → State
drop_lease j l now reason s =
    if l.physical
    then spawn_restore l.device_id (add_restore (restore_of l now reason) (remove_lease j s))
    else recycle_device l.device_name now reason (remove_lease j s)

-- The loops of `releaseSession` and `reapExpired` over a copy of the leases. The lease at hand
-- stands at position j of the state's own list: a drop moves the next one there.
unfoldable pub drop_where : (Lease → Bool) → ℕ → String → List Lease → ℕ → State → State × Bool
drop_where p now reason [] j s = (s, false)
drop_where p now reason (l ∷ ls) j s = elim (p l) [
  | true ↦ ((drop_where p now reason ls j (drop_lease j l now reason s)).0, true)
  | false ↦ drop_where p now reason ls (suc j) s
]

abbrev pub released_by : String → Option Platform → Lease → Bool
released_by session platform l = str_eq l.session_id session && of_platform platform l.platform

unfoldable pub release_session : State → String → Option Platform → ℕ → String → State × Bool
release_session s session platform now reason =
    let (s', dropped) = drop_where (released_by session platform) now reason s.leases 0 s in
    let (s'', removed) = remove_waiters session platform s' in (s'', removed || dropped)

abbrev pub expired_at : ℕ → Lease → Bool
expired_at now l = ltb ttl (now - l.renewed_at)

unfoldable pub reap_expired : State → ℕ → State × Bool
reap_expired s now = drop_where (expired_at now) now "ttl" s.leases 0 s

unfoldable pub record_failure : ℕ → Device → String → String → ℕ → State → State
record_failure i d cause reason now s =
    if leb max_recycle_failures failed.recycle_failures
    then journal broke d.state none "broken" (put_device i broke s)
    else spawn_recycle again.name (journal again d.state none reason (put_device i again s))
  where
    failed : Device
    failed = record d {
      recycle_failures = d.recycle_failures + 1;
      booting = false;
      power_off_confirmed = if is_on d.state then false else d.power_off_confirmed;
    }

    broke : Device
    broke = record failed { state = broken; broken_reason = cause; recycle_started_at = 0 }

    again : Device
    again = record failed { state = recycling; recycle_started_at = now }

-- A loop over the devices, whose body changes the state and says whether it did. The device is
-- read through its pointer when its turn comes.
unfoldable pub each_device :
    (ℕ → Device → State → State × Bool) → List Device → ℕ → State → State × Bool
each_device body [] i s = (s, false)
each_device body (_ ∷ ds) i s = elim (get_elem? s.devices i) [
  | none ↦ each_device body ds (suc i) s
  | some d ↦
      let (s', changed) = body i d s in
      let (s'', later) = each_device body ds (suc i) s' in (s'', changed || later)
]

unfoldable pub reap_stuck_device : ℕ → ℕ → Device → State → State × Bool
reap_stuck_device now i d s =
    if is_recycling d.state && ltb recycle_reap_after (now - d.recycle_started_at)
    then (record_failure i d stuck_recycle_reason "recycle-failed" now s, true)
    else (s, false)

unfoldable pub reap_stuck_recycles : State → ℕ → State × Bool
reap_stuck_recycles s now = each_device (reap_stuck_device now) s.devices 0 s
