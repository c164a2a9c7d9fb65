-- ===== src/DeviceBank/Resize.antt =====
-- internal/atelierd/devicebank/ops.go: removeDevice, repair, resizeIOS, resizeAndroid and the section of
-- InitBank. What simctl and avdmanager answer is a record of functions; a map of simulators or names is a
-- list in the order of one iteration, and what is printed is left out.

use homebrew_tools.Prelude.{
  ℕ, zero, suc, String, Bool, true, false, not, Option, none, some, List, [], ◌∷◌, ◌++◌, ◌&&◌, ltb,
  str_eq, if◌then◌else◌, is_some, any, get_elem?, length,
}
use homebrew_tools.DeviceBank.Types.{
  Platform, ios, platform_eq, on, off, broken, is_broken, Device, State,
}
use homebrew_tools.DeviceBank.State.{find_device, put_device, journal}
use homebrew_tools.DeviceBank.Bank.{bank_index, plan_resize}

pub record Sim : Type 0 where
  pub name : String
  pub udid : String
  pub state : String

-- The answers of the tools: `none` and false are errors.
pub record BankTools : Type 0 where
  pub sims : Option (List Sim)
  pub create_sim : String → Option String
  pub delete_sim : String → Bool
  pub avds : Option (List String)
  pub create_avd : String → Bool
  pub delete_avd : String → Bool

-- A state, and whether the work on it ended with an error.
pub record Resized : Type 0 where
  pub state : State
  pub failed : Bool

-- `removeDevice`
unfoldable pub without : String → List Device → List Device
without name [] = []
without name (d ∷ ds) = let rest = without name ds in if str_eq d.name name then ds else d ∷ rest

unfoldable pub remove_device : String → State → State
remove_device name s = record s { devices = without name s.devices }

-- What `repair` makes of a broken device.
abbrev pub repaired : Device → Device
repaired d = record d {
  state = off;
  powered_on_at = 0;
  booting = false;
  recycle_failures = 0;
  broken_reason = "";
  recycle_started_at = 0;
  power_off_confirmed = false;
}

-- `repair` through a pointer.
unfoldable pub repair : ℕ → Device → State → State
repair i d s =
    if is_broken d.state
    then journal (repaired d) broken none "repair" (put_device i (repaired d) s)
    else s

abbrev pub new_device : String → Platform → ℕ → Device
new_device name platform now = record {
  name = name;
  platform = platform;
  udid = "";
  avd = "";
  port = 0;
  state = off;
  last_used_at = now;
  powered_on_at = 0;
  booting = false;
  recycle_started_at = 0;
  power_off_confirmed = false;
  power_off_failed_at = 0;
  recycle_failures = 0;
  broken_reason = "";
  wipe_pending = false;
}

abbrev pub append_device : Device → State → State
append_device d s = record s { devices = s.devices ++ (d ∷ []) }

-- The simulators of the bank, the last of those with one name.
unfoldable pub bank_sims : List Sim → List Sim
bank_sims [] = []
bank_sims (x ∷ xs) =
    let rest = bank_sims xs in
    if ltb 0 (bank_index ios x.name) && not (any (λ y. str_eq y.name x.name) rest)
    then x ∷ rest
    else rest

unfoldable pub adopt_sims : ℕ → List Sim → State → State
adopt_sims now [] s = s
adopt_sims now (x ∷ xs) s =
    if is_some (find_device x.name s)
    then adopt_sims now xs s
    else adopt_sims now xs (
        append_device
          (record (new_device x.name ios now) {
            udid = x.udid;
            state = if str_eq x.state "Booted" then on else off;
          })
          s)

-- The loop over a copy of the devices, that drops those that no tool lists.
unfoldable pub drop_missing : Platform → (String → Bool) → List Device → State → State
drop_missing platform listed [] s = s
drop_missing platform listed (d ∷ ds) s =
    if platform_eq d.platform platform && not (listed d.name)
    then drop_missing platform listed ds (remove_device d.name s)
    else drop_missing platform listed ds s

-- The loop over the devices, by their positions from i.
unfoldable pub repair_at : ℕ → State → State
repair_at i s = elim (get_elem? s.devices i) [
  | none ↦ s
  | some d ↦ if platform_eq d.platform ios then repair i d s else s
]

unfoldable pub repair_from : ℕ → ℕ → State → State
repair_from zero i s = s
repair_from (suc n) i s = repair_from n (suc i) (repair_at i s)

unfoldable pub create_sims : BankTools → ℕ → List String → State → Resized
create_sims tools now [] s = record { state = s; failed = false }
create_sims tools now (name ∷ names) s = elim (tools.create_sim name) [
  | none ↦ record { state = s; failed = true }
  | some udid ↦
      create_sims tools now names
        (append_device (record (new_device name ios now) { udid = udid }) s)
]

-- A device of the plan that is not there, which Go would not survive, is an error.
unfoldable pub delete_sims : BankTools → List String → State → Resized
delete_sims tools [] s = record { state = s; failed = false }
delete_sims tools (name ∷ names) s = elim (find_device name s) [
  | none ↦ record { state = s; failed = true }
  | some (i, d) ↦
      if tools.delete_sim d.udid
      then delete_sims tools names (remove_device name s)
      else record { state = s; failed = true }
]

abbrev pub then_resize : Resized → (State → Resized) → Resized
then_resize r next = if r.failed then r else next r.state

abbrev pub has_sim : List Sim → String → Bool
has_sim sims name = any (λ x. str_eq x.name name) sims

-- `resizeIOS` up to the plan.
unfoldable pub reconcile_sims : ℕ → List Sim → State → State
reconcile_sims now sims s =
    let a = adopt_sims now (bank_sims sims) s in
    let d = drop_missing ios (has_sim (bank_sims sims)) a.devices a in
    repair_from (length d.devices) 0 d

-- `resizeIOS`
unfoldable pub resize_ios : BankTools → ℕ → ℕ → State → Resized
resize_ios tools n now s = elim tools.sims [
  | none ↦ record { state = s; failed = true }
  | some sims ↦
      let r = reconcile_sims now sims s in
      let plan = plan_resize r ios n in
      then_resize (create_sims tools now plan.create r) (delete_sims tools plan.delete)
]
