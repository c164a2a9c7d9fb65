-- ===== src/DeviceBank/InitBank.antt =====
-- internal/atelierd/devicebank/ops.go: resizeAndroid, and InitBank with both resizes under the lock.
use homebrew_tools.Prelude.{
  ℕ, suc, String, Bool, true, false, not, none, some, List, [], ◌∷◌, ◌&&◌, ltb, leb, str_eq,
  if◌then◌else◌, any, get_elem?,
}
use homebrew_tools.DeviceBank.Types.{android, platform_eq, Device, State}
use homebrew_tools.DeviceBank.State.{find_device, put_device}
use homebrew_tools.DeviceBank.Reap.{Toolchain, mark_off, reap_locked}
use homebrew_tools.DeviceBank.Bank.{
  bank_index, emulator_port, max_android_bank, plan_resize, in_use,
}
use homebrew_tools.DeviceBank.Resize.{
  BankTools, Resized, remove_device, repair, new_device, append_device, drop_missing, then_resize,
  resize_ios,
}

-- The names of the bank among the AVDs.
unfoldable pub bank_avds : List String → List String
bank_avds [] = []
bank_avds (x ∷ xs) =
    let rest = bank_avds xs in
    if ltb 0 (bank_index android x) && not (any (λ y. str_eq y x) rest) then x ∷ rest else rest

abbrev pub new_emulator : String → ℕ → Device
new_emulator name now = record (new_device name android now) {
  avd = name;
  port = emulator_port (bank_index android name);
}

-- The AVDs of the bank: those that the state lost are added, and the others get their port.
unfoldable pub adopt_avds : ℕ → List String → State → State
adopt_avds now [] s = s
adopt_avds now (x ∷ xs) s = elim (find_device x s) [
  | none ↦ adopt_avds now xs (append_device (new_emulator x now) s)
  | some (i, d) ↦
      adopt_avds now xs (put_device i (record d { port = emulator_port (bank_index android x) }) s)
]

-- The positions of the devices to recreate, from position i.
unfoldable pub to_recreate : State → ℕ → List Device → ℕ → List ℕ
to_recreate s n [] i = []
to_recreate s n (d ∷ ds) i =
    let rest = to_recreate s n ds (suc i) in
    if platform_eq d.platform android
      && ltb 0 (bank_index android d.name)
      && leb (bank_index android d.name) n
      && not (in_use s d)
    then i ∷ rest
    else rest

unfoldable pub create_avds : BankTools → ℕ → List String → State → Resized
create_avds tools now [] s = record { state = s; failed = false }
create_avds tools now (name ∷ names) s =
    if tools.create_avd name
    then create_avds tools now names (append_device (new_emulator name now) s)
    else record { state = s; failed = true }

-- A recreated device, after its repair.
abbrev pub recreated : ℕ → Device → Device
recreated now d = record (mark_off d) { wipe_pending = false; last_used_at = now }

unfoldable pub recreate_at : ℕ → ℕ → State → State
recreate_at now i s = elim (get_elem? s.devices i) [
  | none ↦ s
  | some d ↦ put_device i (recreated now d) s
]

unfoldable pub recreate_avds : BankTools → ℕ → List ℕ → State → Resized
recreate_avds tools now [] s = record { state = s; failed = false }
recreate_avds tools now (i ∷ is) s = elim (get_elem? s.devices i) [
  | none ↦ recreate_avds tools now is s
  | some d ↦
      if tools.delete_avd d.name && tools.create_avd d.name
      then recreate_avds tools now is (recreate_at now i (repair i d s))
      else record { state = s; failed = true }
]

unfoldable pub delete_avds : BankTools → List String → State → Resized
delete_avds tools [] s = record { state = s; failed = false }
delete_avds tools (name ∷ names) s = elim (find_device name s) [
  | none ↦ record { state = s; failed = true }
  | some (i, d) ↦
      if tools.delete_avd name
      then delete_avds tools names (remove_device name s)
      else record { state = s; failed = true }
]

abbrev pub has_avd : List String → String → Bool
has_avd avds name = any (λ x. str_eq x name) avds

unfoldable pub reconcile_avds : ℕ → List String → State → State
reconcile_avds now avds s =
    let a = adopt_avds now (bank_avds avds) s in
    drop_missing android (has_avd (bank_avds avds)) a.devices a

-- `resizeAndroid`
unfoldable pub resize_android : BankTools → ℕ → ℕ → State → Resized
resize_android tools n now s = elim tools.avds [
  | none ↦ record { state = s; failed = true }
  | some avds ↦
      let r = reconcile_avds now avds s in
      let plan = plan_resize r android n in
      then_resize
        (then_resize (create_avds tools now plan.create r)
          (recreate_avds tools now (to_recreate r n r.devices 0)))
        (delete_avds tools plan.delete)
]

-- The section of `InitBank` under the lock, which is not written back where it failed.
unfoldable pub init_bank : Toolchain → BankTools → Bool → Bool → ℕ → ℕ → ℕ → State → Resized
init_bank tools bank has_xcode has_android n_ios n_android now s =
    let r = (reap_locked tools s now).0 in
    let c = record r {
      config = record { ios = n_ios; android = n_android; max_on = r.config.max_on };
    } in
    then_resize
      (if has_xcode then resize_ios bank n_ios now c else record { state = c; failed = false })
      (λ x.
        if has_android
        then resize_android bank n_android now x
        else record { state = x; failed = false })

-- The refusal of a bank that the ports of adb do not hold, before the lock is taken.
unfoldable pub refuses_bank : Bool → ℕ → Bool
refuses_bank has_android n_android = has_android && ltb max_android_bank n_android
