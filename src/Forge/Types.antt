-- ===== src/Forge/Types.antt =====
-- internal/atelierd/forge/types.go: the records of a run, its campaign and its ledger.
-- A kind, a status, a severity and an access are the texts that the files hold. The times, the ULIDs
-- and the schema versions, on which `File` below depends, are left out; a whole number is natural.
use homebrew_tools.Prelude.{ℕ, String, Bool, Option, List, ◌∷◌}

abbrev pub max_auxiliary_passes : ℕ
max_auxiliary_passes = 32

abbrev pub max_axes : ℕ
max_axes = 32

abbrev pub max_scenarios_per_axis : ℕ
max_scenarios_per_axis = 64

abbrev pub max_scenarios : ℕ
max_scenarios = 512

abbrev pub max_steps : ℕ
max_steps = 32

abbrev pub max_outcomes : ℕ
max_outcomes = 512

abbrev pub max_text_bytes : ℕ
max_text_bytes = 4096

abbrev pub max_id_bytes : ℕ
max_id_bytes = 128

abbrev pub max_waves : ℕ
max_waves = 64

-- `MaxWaves + 2*MaxAuxiliaryPasses`
abbrev pub max_passes : ℕ
max_passes = 128

abbrev pub max_pending_events : ℕ
max_pending_events = 256

abbrev pub bitten_axis_append_budget : ℕ
bitten_axis_append_budget = 6

abbrev pub shared_append_budget : ℕ
shared_append_budget = 2

abbrev pub pass_wave : String
pass_wave = "wave"

abbrev pub pass_review : String
pass_review = "review"

abbrev pub pass_repair : String
pass_repair = "repair"

-- The sentinels that callers tell apart; `other` is an error without one.
pub data Error : Type 0 where
  unknown_run invalid_pass campaign_invalid wave_cap invalid_staging other : Error

pub data Result (A : Type 0) : Type 0 where
  ok : A → Result A
  err : Error → Result A

pub record Refs : Type 0 where
  pub report : String
  pub testplan : String

pub record Wave : Type 0 where
  pub number : ℕ
  pub is_open : Bool
  pub findings : Option ℕ
  pub fixed : Option ℕ

pub record Pass : Type 0 where
  pub id : String
  pub kind : String
  pub wave : ℕ

pub record Counts : Type 0 where
  pub pass : ℕ
  pub finding : ℕ
  pub not_exercised : ℕ

-- The queued events with their payloads.
pub data Event : Type 0 where
  run_start : String → ℕ → Event
  wave_opened : ℕ → Event
  wave_closed : ℕ → ℕ → ℕ → String → Event
  pass_created : Pass → Event
  campaign_saved : ℕ → ℕ → Event
  outcome_recorded : Pass → Counts → Event
  report_linked testplan_linked : String → Event

pub record RunState : Type 0 where
  pub run_id : String
  pub ticket : String
  pub session : String
  pub cap : ℕ
  pub wave : ℕ
  pub wave_open : Bool
  pub open_pass : String
  pub campaign_required : Bool
  pub waves : List Wave
  pub passes : List Pass
  pub next_review : ℕ
  pub next_repair : ℕ
  pub refs : Refs
  pub pending_events : List Event

pub record Scenario : Type 0 where
  pub title : String
  pub steps : List String
  pub expected : String
  pub rank : ℕ
  pub access : String
  pub wave : ℕ

pub record Axis : Type 0 where
  pub title : String
  pub scenarios : List Scenario

pub record Campaign : Type 0 where
  pub axes : List Axis

pub record Outcome : Type 0 where
  pub axis : String
  pub scenario : String
  pub status : String
  pub severity : String
  pub reason : String

pub record LedgerPass : Type 0 where
  pub pass_id : String
  pub kind : String
  pub wave : ℕ
  pub outcomes : List Outcome
  pub counts : Counts

pub record Ledger : Type 0 where
  pub passes : List LedgerPass

-- What reading a file gives: nothing there, a value of schema version 1, bytes that are refused, or
-- the decoded value.
pub data File (A : Type 0) : Type 0 where
  missing predates broken : File A
  decoded : A → File A

-- The directory of a run.
pub record Disk : Type 0 where
  pub run : File RunState
  pub campaign : File Campaign
  pub ledger : File Ledger
  pub captures : List String

-- One atomic change of the directory: a file replaced, or a capture directory made.
pub data Write : Type 0 where
  write_run : RunState → Write
  write_campaign : Campaign → Write
  write_ledger : Ledger → Write
  make_capture : String → Write

unfoldable pub apply : Disk → Write → Disk
apply d (write_run s) = record d { run = decoded s }
apply d (write_campaign c) = record d { campaign = decoded c }
apply d (write_ledger l) = record d { ledger = decoded l }
apply d (make_capture id) = record d { captures = id ∷ d.captures }

-- What a command does: its writes, in order, and its answer when they all succeed.
pub record Reply (A : Type 0) : Type 0 where
  pub writes : List Write
  pub answer : Result A
