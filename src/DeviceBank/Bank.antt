-- ===== src/DeviceBank/Bank.antt =====
-- internal/atelierd/devicebank/bank.go: the names and ports of the bank's devices, and the plan of a
-- resize. A port below 0, of an index past 2793, is 0 here.
pub mod Naming
pub mod Planning
use homebrew_tools.Prelude.{
  ℕ, zero, suc, atoi, ◌+◌, ◌-◌, ◌*◌, String, Bool, true, false, not, Option, none, some, List, [],
  ◌∷◌, ◌++◌, ◌&&◌, ◌||◌, ltb, leb, ◌==◌, str_eq, if◌then◌else◌, is_some, decimal, has_prefix,
  trim_prefix, ℤ, pos, negsuc,
}
use homebrew_tools.DeviceBank.Types.{
  Platform, ios, android, platform_eq, is_recycling, Device, State,
}
use homebrew_tools.DeviceBank.State.{lease_for_device}
use Prim.Native.String.{◌++◌ as ◌<>◌}

abbrev pub name_prefix : String
name_prefix = "atelier-"

abbrev pub emulator_top_port : ℕ
emulator_top_port = 5584

abbrev pub max_android_bank : ℕ
max_android_bank = 16

abbrev pub platform_text : Platform → String
platform_text ios = "ios"
platform_text android = "android"

abbrev pub bank_prefix : Platform → String
bank_prefix platform = name_prefix <> (platform_text platform <> "-")

unfoldable pub bank_name : Platform → ℕ → String
bank_name platform index = bank_prefix platform <> decimal index

unfoldable pub emulator_port : ℕ → ℕ
emulator_port index = emulator_top_port - 2 * (index - 1)

abbrev pub index_or_zero : Option ℤ → ℕ
index_or_zero none = 0
index_or_zero (some (pos n)) = n
index_or_zero (some (negsuc n)) = 0

unfoldable pub bank_index : Platform → String → ℕ
bank_index platform name =
    if has_prefix name (bank_prefix platform)
    then index_or_zero (atoi (trim_prefix name (bank_prefix platform)))
    else 0

pub record ResizePlan : Type 0 where
  pub create : List String
  pub delete : List String
  pub keep : List String

-- The device that the map `existing` has at an index: of several, the last.
unfoldable pub existing : Platform → List Device → ℕ → Option Device
existing platform [] index = none
existing platform (d ∷ ds) index = elim (existing platform ds index) [
  | some e ↦ some e
  | none ↦
      if platform_eq d.platform platform
        && ltb 0 (bank_index platform d.name)
        && bank_index platform d.name == index
      then some d
      else none
]

-- The names to create, from an index, for a number of indexes.
unfoldable pub to_create : Platform → List Device → ℕ → ℕ → List String
to_create platform devices index zero = []
to_create platform devices index (suc n) =
    let rest = to_create platform devices (suc index) n in
    if is_some (existing platform devices index) then rest else bank_name platform index ∷ rest

-- An index, added to a sorted list of different indexes.
unfoldable pub insert_index : ℕ → List ℕ → List ℕ
insert_index i [] = i ∷ []
insert_index i (j ∷ js) =
    let rest = insert_index i js in
    if i == j then j ∷ js else (if ltb i j then i ∷ (j ∷ js) else j ∷ rest)

-- The keys of `existing` above n, sorted.
unfoldable pub excess : Platform → ℕ → List Device → List ℕ
excess platform n [] = []
excess platform n (d ∷ ds) =
    let rest = excess platform n ds in
    if platform_eq d.platform platform && ltb n (bank_index platform d.name)
    then insert_index (bank_index platform d.name) rest
    else rest

abbrev pub in_use : State → Device → Bool
in_use s d = is_some (lease_for_device d.name s) || is_recycling d.state

abbrev pub plan_device : State → Option Device → ResizePlan → ResizePlan
plan_device s none plan = plan
plan_device s (some d) plan =
    if in_use s d
    then record plan { keep = d.name ∷ plan.keep }
    else record plan { delete = d.name ∷ plan.delete }

-- The loop over the excess indexes.
unfoldable pub plan_excess : Platform → State → List ℕ → List String → ResizePlan
plan_excess platform s [] created = record { create = created; delete = []; keep = [] }
plan_excess platform s (i ∷ is) created =
    plan_device s (existing platform s.devices i) (plan_excess platform s is created)

unfoldable pub plan_resize : State → Platform → ℕ → ResizePlan
plan_resize s platform n =
    plan_excess platform s (excess platform n s.devices) (to_create platform s.devices 1 n)
