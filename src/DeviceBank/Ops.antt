-- ===== src/DeviceBank/Ops.antt =====
-- The commands of internal/atelierd/devicebank/ops.go: the function that each runs under the lock.
use homebrew_tools.Prelude.{
  ℕ, suc, String, Bool, true, false, not, Option, none, some, List, [], ◌∷◌, ◌++◌, ◌&&◌, ◌||◌, ltb,
  ◌==◌, str_eq, if◌then◌else◌, get_elem?, is_some,
}
use homebrew_tools.DeviceBank.Types.{
  Platform, ios, android, platform_eq, off, on, recycling, is_off, is_on, is_recycling, Device,
  Lease, suspended, State,
}
use homebrew_tools.DeviceBank.State.{
  initialized, find_device, find_lease, journal, put_device, put_lease, Verdict, commit, no_change,
  fail, changed_or_not,
}
use homebrew_tools.DeviceBank.Queue.{drop_expired_waiters, of_platform, remove_waiters}
use homebrew_tools.DeviceBank.Lease.{touch_session, remove_lease, release_session, record_failure}
use homebrew_tools.DeviceBank.Physical.{LeaseRequest, PhysicalProbe}
use homebrew_tools.DeviceBank.Reap.{Toolchain, mark_off, reap_locked}
use homebrew_tools.DeviceBank.Grant.{Grant, no_grant, grant_locked}
use Prim.Native.Char.{code}
use Prim.Native.String.{◌++◌ as ◌<>◌}

unfoldable pub first_line : String → String
first_line String.[] = String.[]
first_line (String.◌∷◌ c s) = if code c == 10 then String.[] else String.◌∷◌ c (first_line s)

pub data AcquireError : Type 0 where
  exhausted not_initialized lease_lost : AcquireError

grant_outcome : Grant → Option AcquireError
grant_outcome g = if is_some g.lease || is_some g.vet then none else some exhausted

-- What one attempt of `acquire` does under the lock.
unfoldable pub acquire_locked :
    Toolchain
    → LeaseRequest
    → PhysicalProbe
    → List String
    → List String
    → ℕ
    → ℕ
    → State
    → State × Verdict String × Grant × Option AcquireError
unfolding grant_outcome
acquire_locked tools req probe excluded vetted now deadline s =
    let (s1, reaped) = reap_locked tools s now in
    let (s2, touched) = touch_session req.session now s1 in
    let (s3, dropped) = drop_expired_waiters now s2 in
    let before = dropped || ltb 0 touched || reaped in
    if not (initialized s3)
    then (s3, changed_or_not before, no_grant, some not_initialized)
    else (let (s4, g, granted) = grant_locked s3 req probe excluded vetted now deadline in
        (s4, changed_or_not (granted || before), g, grant_outcome g))

-- `settleBoot`: the state, the verdict, and whether the lease is still the caller's.
unfoldable pub settle_boot :
    String → Platform → String → ℕ → Option String → ℕ → State → State × Verdict String × Bool
settle_boot session platform name powered_on_at boot_err now s = elim (find_device name s) [
  | none ↦ (s, no_change, false)
  | some (i, d) ↦
      if not (is_on d.state) || not (d.powered_on_at == powered_on_at)
      then (s, no_change, false)
      else settle i d boot_err
]
  where
    mine : Option (ℕ × Lease) → Bool
    mine none = false
    mine (some (_, l)) = str_eq l.device_name name

    without : Option (ℕ × Lease) → State
    without none = s
    without (some (j, l)) = if str_eq l.device_name name then remove_lease j s else s

    settle : ℕ → Device → Option String → State × Verdict String × Bool
    settle i d none = (
      put_device i (record d { booting = false; recycle_failures = 0 }) s,
      commit,
      mine (find_lease session platform s),
    )
    settle i d (some e) = (
      record_failure i d (first_line e) "boot-failed" now (without (find_lease session platform s)),
      commit,
      mine (find_lease session platform s),
    )

unfoldable pub leave_queue : String → Platform → State → State × Verdict String
leave_queue session platform s =
    let (s', removed) = remove_waiters session (some platform) s in (s', changed_or_not removed)

abbrev pub suspend : ℕ → Lease → Lease
suspend now l = record l { suspended_at = now; device_died = false }

-- A device that is on, by the answer to its power-off.
unfoldable pub pause_on :
    Option String → ℕ → ℕ → Device → ℕ → Lease → State → State × Bool × List String
pause_on (some e) now i d j l s = (s, false, ("pause " <> d.name <> ": " <> e) ∷ [])
pause_on none now i d j l s = (
  journal (mark_off d) on (some (suspend now l)) "pause"
      (put_lease j (suspend now l) (put_device i (mark_off d) s)),
  true,
  [],
)

-- The body of the loop of `Pause` that is about a virtual lease.
unfoldable pub pause_virtual : Toolchain → ℕ → ℕ → Lease → State → State × Bool × List String
pause_virtual tools now j l s = elim (find_device l.device_name s) [
  | none ↦ (s, false, [])
  | some (i, d) ↦
      if is_on d.state
      then pause_on (tools.power_off d) now i d j l s
      else if is_off d.state
      then (journal d off (some (suspend now l)) "pause" (put_lease j (suspend now l) s), true, [])
      else (s, false, [])
]

unfoldable pub pause_lease :
    Toolchain → String → Option Platform → ℕ → ℕ → Lease → State → State × Bool × List String
pause_lease tools session platform now j l s =
    if not (str_eq l.session_id session) || suspended l || not (of_platform platform l.platform)
    then (s, false, [])
    else if l.physical
    then (put_lease j (record l { suspended_at = now }) s, true, [])
    else pause_virtual tools now j l s

unfoldable pub pause_leases :
    Toolchain → String → Option Platform → ℕ → List Lease → ℕ → State → State × Bool × List String
pause_leases tools session platform now [] j s = (s, false, [])
pause_leases tools session platform now (_ ∷ ls) j s = elim (get_elem? s.leases j) [
  | none ↦ pause_leases tools session platform now ls (suc j) s
  | some l ↦
      let (s', changed, failed) = pause_lease tools session platform now j l s in
      let (s'', later, failures) = pause_leases tools session platform now ls (suc j) s' in
      (s'', changed || later, failed ++ failures)
]

unfoldable pub pause :
    Toolchain → String → Option Platform → ℕ → State → State × Verdict String × List String
pause tools session platform now s =
    let (s1, reaped) = reap_locked tools s now in
    let (s2, touched) = touch_session session now s1 in
    let (s3, changed, failures) = pause_leases tools session platform now s2.leases 0 s2 in
    (s3, changed_or_not (changed || ltb 0 touched || reaped), failures)

unfoldable pub release : Toolchain → String → Option Platform → ℕ → State → State × Verdict String
release tools session platform now s =
    let (s1, reaped) = reap_locked tools s now in
    let (s2, touched) = touch_session session now s1 in
    let (s3, released) = release_session s2 session platform now "release" in
    (s3, changed_or_not (released || ltb 0 touched || reaped))

-- The hook of `atelierd emit`, for a session that is named, where the bank's file exists.
unfoldable pub on_emit : String → Bool → ℕ → State → State × Verdict String
on_emit session session_end now s =
    let (s1, touched) = touch_session session now s in
    if session_end
    then (let (s2, released) = release_session s1 session none now "session-end" in
        (s2, changed_or_not (released || ltb 0 touched)))
    else (s1, changed_or_not (ltb 0 touched))

abbrev pub is_current : ℕ → Device → Bool
is_current started_at d = is_recycling d.state && d.recycle_started_at == started_at

-- The first lock of `runRecycle`: a stale worker stops; else the device as it was found, and the
-- error of its power-off.
pub data RecycleCheck : Type 0 where
  stale : RecycleCheck
  current : Device → Option String → RecycleCheck

unfoldable pub recycle_attempt :
    Option String → ℕ → Device → State → State × Verdict String × RecycleCheck
recycle_attempt (some e) i d s = (s, no_change, current d (some e))
recycle_attempt none i d s =
    let d' : Device = record d { power_off_confirmed = true } in
    (journal d' recycling none "recycle-off" (put_device i d' s), commit, current d none)

unfoldable pub recycle_off : Toolchain → String → ℕ → State → State × Verdict String × RecycleCheck
recycle_off tools name started_at s = elim (find_device name s) [
  | none ↦ (s, no_change, stale)
  | some (i, d) ↦
      if not (is_current started_at d)
      then (s, no_change, stale)
      else if d.power_off_confirmed
      then (s, no_change, current d none)
      else recycle_attempt (tools.power_off d) i d s
]

-- The error of a recycle: an iOS device is erased where its power-off succeeded.
unfoldable pub recycle_error : (String → Option String) → Device → Option String → Option String
recycle_error erase_ios d (some e) = some e
recycle_error erase_ios d none = elim d.platform [ ios ↦ erase_ios d.udid | android ↦ none ]

abbrev pub recycled : ℕ → Device → Device
recycled now d = record d {
  state = off;
  powered_on_at = 0;
  booting = false;
  recycle_started_at = 0;
  power_off_confirmed = false;
  last_used_at = now;
  wipe_pending = platform_eq d.platform android;
}

unfoldable pub settle_recycle : Option String → ℕ → ℕ → Device → State → State
settle_recycle (some e) now i d s = record_failure i d (first_line e) "recycle-failed" now s
settle_recycle none now i d s =
    journal (recycled now d) recycling none "recycle-done" (put_device i (recycled now d) s)

-- The second lock of `runRecycle`.
unfoldable pub recycle_settle : String → ℕ → Option String → ℕ → State → State × Verdict String
recycle_settle name started_at recycle_err now s = elim (find_device name s) [
  | none ↦ (s, no_change)
  | some (i, d) ↦
      if is_current started_at d
      then (settle_recycle recycle_err now i d s, commit)
      else (s, no_change)
]

-- The function under the lock of `SetMaxOn`, which refuses a limit of 0 before.
unfoldable pub set_max_on : ℕ → State → State × Verdict String
set_max_on n s =
    if n == 0
    then (s, fail "ignition limit must be at least 1")
    else if s.config.max_on == n
    then (s, no_change)
    else (
      record s { config = record { ios = s.config.ios; android = s.config.android; max_on = n } },
      commit,
    )
