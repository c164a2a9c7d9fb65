-- ===== src/DeviceBank/ResizeTests.antt =====
-- Tests of the resizes of the bank.
use homebrew_tools.Prelude.{
  String, true, false, none, some, List, [], ◌∷◌, ◌≡◌, refl, is_some, decimal, decimal_from, digit,
  atoi, signed, digits, parse_from, has_prefix, trim_prefix, str_eq, find, map,
}
use homebrew_tools.DeviceBank.Types.{Platform, ios, android, Lease, State}
use homebrew_tools.DeviceBank.State.{lease_for_device, find_device, put_device, journal}
use homebrew_tools.DeviceBank.Bank.{
  bank_name, bank_index, emulator_port, existing, to_create, insert_index, excess, plan_excess,
  plan_resize,
}
use homebrew_tools.DeviceBank.Resize.{
  Sim, BankTools, without, remove_device, repair, repair_at, repair_from, bank_sims, adopt_sims,
  drop_missing, create_sims, delete_sims, has_sim, reconcile_sims, resize_ios, new_device,
}
use homebrew_tools.DeviceBank.InitBank.{
  bank_avds, adopt_avds, to_recreate, create_avds, recreate_at, recreate_avds, delete_avds, has_avd,
  reconcile_avds, resize_android,
}
use homebrew_tools.DeviceBank.Keeping.{Keeps}
use homebrew_tools.DeviceBank.Keeping.Simulators.{resize_ios-Keeps}
use homebrew_tools.DeviceBank.Keeping.Emulators.{resize_android-Keeps}

abbrev sim : String → Sim
sim name = record { name = name; udid = name; state = "Shutdown" }

abbrev sims : List Sim
sims = sim "atelier-ios-1" ∷ (sim "atelier-ios-3" ∷ (sim "atelier-ios-4" ∷ (sim "iPhone 15" ∷ [])))

abbrev avds : List String
avds = "atelier-android-1" ∷ ("atelier-android-2" ∷ [])

abbrev tools : BankTools
tools = record {
  sims = some sims;
  create_sim = λ name. some name;
  delete_sim = λ udid. true;
  avds = some avds;
  create_avd = λ name. true;
  delete_avd = λ name. true;
}

abbrev lease : String → Platform → Lease
lease name platform = record {
  session_id = "s";
  platform = platform;
  device_name = name;
  device_id = "u";
  physical = false;
  serial_text = "";
  app_id = "";
  snapshot = none;
  workdir = "";
  acquired_at = 1;
  renewed_at = 1;
  suspended_at = 0;
  device_died = false;
}

abbrev bank : State
bank = record {
  config = record { ios = 4; android = 2; max_on = 1 };
  devices =
      new_device "atelier-ios-4" ios 1
      ∷ (new_device "atelier-android-2" android 1 ∷ (new_device "atelier-ios-9" ios 1 ∷ []));
  leases = lease "atelier-ios-4" ios ∷ (lease "atelier-android-2" android ∷ []);
  queue = [];
  restores = [];
  transitions = [];
  spawns = [];
}

resize_ios_run :
    map (λ d. d.name) (resize_ios tools 2 9 bank).state.devices
    ≡ "atelier-ios-4" ∷ ("atelier-android-2" ∷ ("atelier-ios-1" ∷ ("atelier-ios-2" ∷ [])))
unfolding resize_ios reconcile_sims repair_from repair_at repair journal put_device drop_missing
    adopt_sims bank_sims create_sims delete_sims remove_device without find_device plan_resize
    plan_excess excess to_create insert_index existing bank_index bank_name lease_for_device find
    atoi signed digits parse_from has_prefix trim_prefix decimal decimal_from digit str_eq
resize_ios_run = refl

resize_android_run :
    map (λ d. d.port) (resize_android tools 1 9 bank).state.devices ≡ 0 ∷ (5582 ∷ (0 ∷ (5584 ∷ [])))
unfolding resize_android reconcile_avds bank_avds adopt_avds to_recreate create_avds recreate_at
    recreate_avds delete_avds emulator_port repair journal put_device drop_missing remove_device
    without find_device plan_resize plan_excess excess to_create insert_index existing bank_index
    bank_name lease_for_device find atoi signed digits parse_from has_prefix trim_prefix decimal
    decimal_from digit str_eq
resize_android_run = refl

leased_run :
    (is_some (lease_for_device "atelier-ios-4" bank) ≡ true)
    × (is_some (lease_for_device "atelier-android-2" bank) ≡ true)
unfolding lease_for_device find str_eq
leased_run = (refl, refl)

listed_run :
    (has_sim (bank_sims sims) "atelier-ios-4" ≡ true)
    × (has_avd (bank_avds avds) "atelier-android-2" ≡ true)
unfolding bank_sims bank_avds bank_index atoi signed digits parse_from has_prefix trim_prefix str_eq
listed_run = (refl, refl)

resize_ios-Keeps_example : Keeps ios "atelier-ios-4" bank (resize_ios tools 2 9 bank).state
resize_ios-Keeps_example =
    resize_ios-Keeps "atelier-ios-4" tools 2 9 sims bank leased_run.0 refl listed_run.0

resize_android-Keeps_example :
    Keeps android "atelier-android-2" bank (resize_android tools 2 9 bank).state
resize_android-Keeps_example =
    resize_android-Keeps "atelier-android-2" tools 2 9 avds bank leased_run.1 refl listed_run.1
