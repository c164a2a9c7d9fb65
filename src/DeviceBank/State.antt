-- ===== src/DeviceBank/State.antt =====
-- The methods of State in internal/atelierd/devicebank/state.go and journal.go, and WithLock.
-- A pointer to a device or a lease is its position in the state's list.
use homebrew_tools.Prelude.{
  ℕ, suc, String, Bool, true, false, not, Option, none, some, List, [], ◌∷◌, ◌++◌, ◌&&◌, ◌||◌, ltb,
  str_eq, if◌then◌else◌, find, set, remove_at, count, is_some,
}
use homebrew_tools.DeviceBank.Types.{
  Platform, platform_eq, DeviceState, on, legacy_free, legacy_leased, default_max_on, Device,
  may_be_on, Lease, PendingRestore, serial, SpawnJob, recycle_job, restore_job, Transition, State,
  PhysicalDevice,
}

unfoldable pub initialized : State → Bool
initialized s =
    ltb 0 s.config.ios || ltb 0 s.config.android || (elim s.devices [ [] ↦ false | _ ↦ true ])

unfoldable pub find_device : String → State → Option (ℕ × Device)
find_device name s = find (λ d. str_eq d.name name) s.devices

abbrev pub held_by : String → Platform → Lease → Bool
held_by session platform l = str_eq l.session_id session && platform_eq l.platform platform

unfoldable pub find_lease : String → Platform → State → Option (ℕ × Lease)
find_lease session platform s = find (held_by session platform) s.leases

unfoldable pub lease_for_device_id : String → State → Option (ℕ × Lease)
lease_for_device_id id s = find (λ l. str_eq l.device_id id) s.leases

abbrev pub leases_physical : PhysicalDevice → Lease → Bool
leases_physical p l = l.physical && (str_eq l.device_id p.id || str_eq (serial l) p.serial)

unfoldable pub lease_for_physical : PhysicalDevice → State → Option (ℕ × Lease)
lease_for_physical p s = find (leases_physical p) s.leases

unfoldable pub find_restore : String → State → Option (ℕ × PendingRestore)
find_restore device_id s = find (λ r. str_eq r.device_id device_id) s.restores

abbrev pub restores_physical : PhysicalDevice → PendingRestore → Bool
restores_physical p r = str_eq r.device_id p.id || str_eq r.serial p.serial

unfoldable pub restore_for_physical : PhysicalDevice → State → Option (ℕ × PendingRestore)
restore_for_physical p s = find (restores_physical p) s.restores

unfoldable pub remove_restore : ℕ → State → State
remove_restore i s = record s { restores = remove_at s.restores i }

abbrev pub leases_device : String → Lease → Bool
leases_device name l = not l.physical && str_eq l.device_name name

unfoldable pub lease_for_device : String → State → Option (ℕ × Lease)
lease_for_device name s = find (leases_device name) s.leases

unfoldable pub max_on : State → ℕ
max_on s = if ltb 0 s.config.max_on then s.config.max_on else default_max_on

unfoldable pub powered_on_count : State → ℕ
powered_on_count s = count may_be_on s.devices

unfoldable pub spawn_recycle : String → State → State
spawn_recycle name s = record s { spawns = s.spawns ++ (recycle_job name ∷ []) }

unfoldable pub spawn_restore : String → State → State
spawn_restore device_id s = record s { spawns = s.spawns ++ (restore_job device_id ∷ []) }

session_of : Option Lease → String
session_of none = ""
session_of (some l) = l.session_id

-- `d` is the device after the transition.
unfoldable pub journal : Device → DeviceState → Option Lease → String → State → State
unfolding session_of
journal d from l reason s = record s { transitions = s.transitions ++ (entry ∷ []) }
  where
    entry : Transition
    entry = record {
      device = d.name;
      platform = d.platform;
      from = from;
      to = d.state;
      session = session_of l;
      reason = reason;
      on = may_be_on d;
      leased = is_some l;
    }

-- Writes through the pointer to a device, and through the pointer to a lease.
unfoldable pub put_device : ℕ → Device → State → State
put_device i d s = record s { devices = set s.devices i d }

unfoldable pub put_lease : ℕ → Lease → State → State
put_lease j l s = record s { leases = set s.leases j l }

-- The loop of `migrate`, from position i.
migrate_device : ℕ → Device → State → State
migrate_device i d s = elim d.state [
  | legacy_leased ↦
      let turned : Device = record d { state = on } in
      let dated : Device = elim (lease_for_device d.name s) [
        | none ↦ turned
        | some (_, l) ↦ record turned { powered_on_at = l.acquired_at }
      ] in
      put_device i dated s
  | legacy_free ↦
      let turned : Device = record d { state = on; powered_on_at = d.last_used_at } in
      journal turned legacy_free none "migrate" (put_device i turned s)
  | _ ↦ s
]

migrate_from : List Device → ℕ → State → State
migrate_from [] i s = s
migrate_from (d ∷ ds) i s = migrate_from ds (suc i) (migrate_device i d s)

unfoldable pub migrate : State → State
unfolding migrate_from migrate_device
migrate s = migrate_from s.devices 0 s

-- What a function under the lock answers: nil, errNoChange, or another error.
pub data Verdict (E : Type 0) : Type 0 where
  commit : Verdict E
  no_change : Verdict E
  fail : E → Verdict E

-- What `WithLock` leaves: the file, the lines added to the journal, the workers started, the error.
pub record Locked (E : Type 0) : Type 0 where
  pub file : State
  pub journaled : List Transition
  pub spawned : List SpawnJob
  pub error : Option E

-- The file holds neither transitions nor spawns.
abbrev pub on_disk : State → State
on_disk s = record s { transitions = []; spawns = [] }

-- A file that cannot be written is the argument `saved`: the error of the save, if it fails.
unfoldable pub with_lock : {E : Type 0} → Option E → (State → State × Verdict E) → State → Locked E
with_lock {E} saved fn file = settle (fn (migrate (on_disk file)))
  where
    kept : Option E → Locked E
    kept e = record { file = file; journaled = []; spawned = []; error = e }

    settle : State × Verdict E → Locked E
    settle (s, no_change) = kept none
    settle (s, fail e) = kept (some e)
    settle (s, commit) = elim saved [
      | some e ↦ kept (some e)
      | none ↦ record {
        file = on_disk s;
        journaled = s.transitions;
        spawned = s.spawns;
        error = none;
      }
    ]

abbrev pub changed_or_not : {E : Type 0} → Bool → Verdict E
changed_or_not true = commit
changed_or_not false = no_change
