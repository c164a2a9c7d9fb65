-- ===== src/DeviceBank/BankTests.antt =====
-- Tests of the bank's names, ports and plans.
use homebrew_tools.Prelude.{
  ℕ, ◌≤◌, ◌<◌, ◌%◌, String, true, false, none, [], ◌∷◌, All, Memᴰ, ◌≡◌, refl, ◌⊎◌, arith, decimal,
  decimal_from, digit, atoi, signed, digits, parse_from, has_prefix, trim_prefix, str_eq, find,
}
use homebrew_tools.DeviceBank.Types.{ios, android, Device, off, Lease, State}
use homebrew_tools.DeviceBank.State.{lease_for_device}
use homebrew_tools.DeviceBank.Bank.{
  bank_name, bank_index, emulator_port, existing, to_create, insert_index, excess, plan_excess,
  plan_resize,
}
use homebrew_tools.DeviceBank.Bank.Naming.{bank_index-bank_name, emulator_port-InRange}
use homebrew_tools.DeviceBank.Bank.Planning.{Excess, Holds, plan_resize-Safe}

abbrev simulator : String → Device
simulator name = record {
  name = name;
  platform = ios;
  udid = name;
  avd = "";
  port = 0;
  state = off;
  last_used_at = 0;
  powered_on_at = 0;
  booting = false;
  recycle_started_at = 0;
  power_off_confirmed = false;
  power_off_failed_at = 0;
  recycle_failures = 0;
  broken_reason = "";
  wipe_pending = false;
}

abbrev lease : Lease
lease = record {
  session_id = "s";
  platform = ios;
  device_name = "atelier-ios-4";
  device_id = "u4";
  physical = false;
  serial_text = "";
  app_id = "";
  snapshot = none;
  workdir = "";
  acquired_at = 1;
  renewed_at = 1;
  suspended_at = 0;
  device_died = false;
}

abbrev bank : State
bank = record {
  config = record { ios = 4; android = 0; max_on = 1 };
  devices =
      simulator "atelier-ios-1" ∷ (simulator "atelier-ios-3" ∷ (simulator "atelier-ios-4" ∷ []));
  leases = lease ∷ [];
  queue = [];
  restores = [];
  transitions = [];
  spawns = [];
}

plan_run : plan_resize bank ios 2 ≡ record {
  create = "atelier-ios-2" ∷ [];
  delete = "atelier-ios-3" ∷ [];
  keep = "atelier-ios-4" ∷ [];
}
unfolding plan_resize plan_excess excess to_create insert_index existing bank_index bank_name
    lease_for_device find atoi signed digits parse_from has_prefix trim_prefix decimal decimal_from
    digit str_eq
plan_run = refl

-- A name with leading zeros, or a sign, counts as a bank name too.
index_run : (bank_index ios "atelier-ios-007" ≡ 7) × (bank_index ios "atelier-ios-+3" ≡ 3)
unfolding bank_index atoi signed digits parse_from has_prefix trim_prefix
index_run = (refl, refl)

bank_index-bank_name_example : bank_index android (bank_name android 12) ≡ 12
bank_index-bank_name_example = bank_index-bank_name android 12 (omega arith) (omega arith)

abbrev highest : ℕ
highest = 16

emulator_port-InRange_example :
    ((5554 ≤ emulator_port 1) × (emulator_port 1 ≤ 5584))
    × ((emulator_port 1 % 2 ≡ 0) × (emulator_port 1 ≡ emulator_port highest → 1 ≡ highest))
emulator_port-InRange_example =
    emulator_port-InRange 1 highest (omega arith) (omega arith) (omega arith) (omega arith)

plan_resize-Safe_example :
    (All (Excess ios bank 2 false) (plan_resize bank ios 2).delete
      × All (Excess ios bank 2 true) (plan_resize bank ios 2).keep)
    × ((i : ℕ)
        → 0 < i
        → i ≤ 2
        → Memᴰ (bank_name ios i) (plan_resize bank ios 2).create
          ⊎ ((d : Device) × Holds ios bank.devices i d))
plan_resize-Safe_example = plan_resize-Safe bank ios 2
