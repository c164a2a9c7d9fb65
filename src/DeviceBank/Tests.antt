-- ===== src/DeviceBank/Tests.antt =====
-- Runs of the device bank on a bank of two emulators under an ignition limit of one.
use homebrew_tools.Prelude.{
  ℕ, ◌+◌, ◌-◌, not, keep, ltb, ◌≤◌, ◌<◌, String, true, false, Option, none, some, List, [], ◌∷◌,
  ◌≡◌, refl, arith, find, length, str_eq,
}
use homebrew_tools.DeviceBank.Types.{
  Lease, Waiter, ttl, android, off, Device, State, minute, contains,
}
use homebrew_tools.DeviceBank.State.{max_on, powered_on_count, find_lease, lease_for_device}
use homebrew_tools.DeviceBank.Ending.{release_session_lem, reap_expired_lem}
use homebrew_tools.DeviceBank.Lease.{release_session, reap_expired, released_by}
use homebrew_tools.DeviceBank.Queue.{
  waits_as, fair_reservation, reserve, walk_queue, ordered_queue, sort_waiters, insert_waiter,
  device_to_power_on,
}
use homebrew_tools.DeviceBank.Physical.{LeaseRequest, PhysicalProbe, require_virtual}
use homebrew_tools.DeviceBank.Reap.{Toolchain}
use homebrew_tools.DeviceBank.Grant.{grant_locked}
use homebrew_tools.DeviceBank.Ops.{acquire_locked, release}
use homebrew_tools.DeviceBank.Fair.Sound.{MayTurnOn}
use homebrew_tools.DeviceBank.Fair.Share.{Share, fair_reservation-Share}
use homebrew_tools.DeviceBank.Limit.Steady.{Modern}
use homebrew_tools.DeviceBank.Limit.Granting.{Within, grant_locked-Within}
use homebrew_tools.DeviceBank.Limit.Runs.{Run, start, next, attempts, releases, Run-ignition_limit}
use homebrew_tools.DeviceBank.Exclusive.Keys.{Exclusive}
use homebrew_tools.DeviceBank.Exclusive.Runs.{Run-Exclusive}

abbrev emulator : String → ℕ → Device
emulator name port = record {
  name = name;
  platform = android;
  udid = "";
  avd = name;
  port = port;
  state = off;
  last_used_at = 0;
  powered_on_at = 0;
  booting = false;
  recycle_started_at = 0;
  power_off_confirmed = false;
  power_off_failed_at = 0;
  recycle_failures = 0;
  broken_reason = "";
  wipe_pending = false;
}

abbrev bank : State
bank = record {
  config = record { ios = 0; android = 2; max_on = 1 };
  devices = emulator "a" 5584 ∷ (emulator "b" 5586 ∷ []);
  leases = [];
  queue = [];
  restores = [];
  transitions = [];
  spawns = [];
}

-- Every power-off succeeds, and nothing is seen to run.
abbrev tools : Toolchain
tools = record { powered_on = λ ios android. some []; power_off = λ d. none }

abbrev request : String → LeaseRequest
request session = record {
  session = session;
  workdir = "w";
  platform = android;
  requirement = require_virtual;
  app_id = "";
  wait = minute;
}

abbrev no_probe : PhysicalProbe
no_probe = record { worked = true; devices = [] }

abbrev first_try : State
first_try = (acquire_locked tools (request "first") no_probe [] [] 1 minute bank).0

abbrev second_try : State
second_try = (acquire_locked tools (request "second") no_probe [] [] 2 minute first_try).0

abbrev released : State
released = (release tools "first" none 3 second_try).0

bank-Modern : Modern bank
bank-Modern = (refl, (refl, tt))

two_sessions : Run bank released
two_sessions =
    next
      (next (next start (attempts tools (request "first") no_probe [] [] 1 minute bank))
        (attempts tools (request "second") no_probe [] [] 2 minute first_try))
      (releases tools "first" none 3 second_try)

bank-count : powered_on_count bank ≤ max_on bank
unfolding powered_on_count max_on
bank-count = omega arith

Run-ignition_limit_example : powered_on_count released ≤ max_on bank
Run-ignition_limit_example = Run-ignition_limit bank-Modern bank-count two_sessions

bank-Exclusive : Exclusive bank
bank-Exclusive = record { apart = tt }

Run-Exclusive_example : Exclusive released
Run-Exclusive_example = Run-Exclusive bank-Exclusive two_sessions

bank-Within : Within 1 bank
unfolding powered_on_count max_on
bank-Within = record { modern = bank-Modern; bound = omega arith; limit = omega arith }

grant_locked-Within_example :
    Within 1 (grant_locked bank (request "first") no_probe [] [] 1 minute).0
grant_locked-Within_example =
    grant_locked-Within bank (request "first") no_probe [] [] 1 minute bank-Within

-- The bank with room for two devices, and a waiter of another session.
abbrev crowded : State
crowded = record bank {
  config = record { ios = 0; android = 2; max_on = 2 };
  queue =
      (record {
        session_id = "other";
        platform = android;
        enqueued_at = 0;
        expires_at = minute;
        notified_at = 0;
      })
      ∷ [];
}

abbrev reserved : Option (ℕ × Device)
reserved = some (1, emulator "b" 5586)

crowded_reserves : fair_reservation crowded "first" android ≡ reserved
unfolding fair_reservation reserve walk_queue ordered_queue sort_waiters insert_waiter max_on
    powered_on_count device_to_power_on find_lease find contains lease_for_device str_eq
crowded_reserves = refl

fair_reservation-Share_example :
    (taken : List String) × Share crowded "first" android (ordered_queue crowded) [] taken
    × MayTurnOn crowded "first" android taken 1 (emulator "b" 5586)
    × (powered_on_count crowded + length taken < max_on crowded)
fair_reservation-Share_example = fair_reservation-Share crowded "first" android crowded_reserves

abbrev lease_of : String → String → ℕ → Lease
lease_of session device renewed = record {
  session_id = session;
  platform = android;
  device_name = device;
  device_id = device;
  physical = false;
  serial_text = "";
  app_id = "";
  snapshot = none;
  workdir = "w";
  acquired_at = 0;
  renewed_at = renewed;
  suspended_at = 0;
  device_died = false;
}

abbrev waiter_of : String → ℕ → Waiter
waiter_of session arrival = record {
  session_id = session;
  platform = android;
  enqueued_at = 5;
  expires_at = 900;
  notified_at = 0;
}

-- Two sessions hold a device each, and each waits as well.
abbrev leased : State
leased = record bank {
  leases = lease_of "first" "a" 0 ∷ (lease_of "second" "b" minute ∷ []);
  queue = waiter_of "second" 8 ∷ (waiter_of "first" 5 ∷ []);
}

abbrev first_released : State
first_released = (release_session leased "first" none 7 "release").0

release_session_lem_example :
    (first_released.leases ≡ keep (λ l. not (released_by "first" none l)) leased.leases)
    × (first_released.queue ≡ keep (λ w. not (waits_as "first" none w)) leased.queue)
release_session_lem_example = release_session_lem leased "first" none 7 "release"

-- A minute after the hour of the first lease's renewal.
abbrev hour_later : State
hour_later = (reap_expired leased (ttl + minute)).0

reap_expired_lem_example :
    (hour_later.leases ≡ keep (λ l. not (ltb ttl ((ttl + minute) - l.renewed_at))) leased.leases)
    × (hour_later.queue ≡ leased.queue)
reap_expired_lem_example = reap_expired_lem leased (ttl + minute)
