-- ===== src/Forge/Tests.antt =====
-- Runs of forge's commands on a run with a campaign of one scenario.
use homebrew_tools.Prelude.{
  has_char, false, ℕ, zero, suc, none, some, ◌++◌, Bool, true, false, List, [], ◌∷◌, ◌≡◌, refl,
  str_eq, find, pos,
}
use homebrew_tools.Forge.Counting.Named.{Tells, validate_outcomes-Tells}
use homebrew_tools.Forge.Limits.{open_next_overfull}
use homebrew_tools.Forge.Types.{
  Wave, wave_opened, err, other, Counts, RunState, Campaign, Outcome, Ledger, missing, decoded,
  Disk, run_start, outcome_recorded, write_run, write_ledger, ok, apply, Pass,
}
use homebrew_tools.Forge.Validate.{
  valid_axis, too_long, valid_axes, validate_campaign, are_counts, axis_keys, blank, count_known,
  count_outcome, count_recorded, counts_eq, has, is_space, known_keys, known_kind, outcome_key,
  outcome_too_long, tally, valid_ledger_pass, valid_ledger_passes, valid_scenario, valid_scenarios,
  valid_severity, valid_steps, validate_ledger, validate_outcomes, with_counts,
}
use homebrew_tools.Forge.Store.{
  and_then, reply, refuse, read_run, checked_run, within_limits, read_campaign, required,
  read_campaign_if_present, checked_campaign, read_ledger, checked_ledger, queue_event,
}
use homebrew_tools.Forge.Waves.{open_next, start, new_run, open_wave, trim_right, trim_left}
use homebrew_tools.Forge.Passes.{
  record_outcome, read_staging, record_target, close_outcome, entry, settle, settle_new, next_pass,
}
use homebrew_tools.Forge.Retry.{record_outcome-retry}
use homebrew_tools.Forge.Invariant.{SoundDisk}
use homebrew_tools.Forge.Runs.{starts, goes_on, opens_wave, takes_pass, apply_first, Reached-Sound}

abbrev no_fit : Campaign → Bool
no_fit c = false

abbrev fresh : Disk
fresh = record {
  run =
      decoded
        (record (new_run "01J" "VAL-1" "s" 10) { pending_events = run_start "VAL-1" 10 ∷ [] });
  campaign = missing;
  ledger = missing;
  captures = [];
}

fresh_start : start "01J" " VAL-1" "s" (pos 10) ≡ ok fresh
unfolding start str_eq trim_right trim_left is_space queue_event
fresh_start = refl

abbrev in_wave : Disk
in_wave = apply_first 1 (open_wave "01J" fresh).writes fresh

-- The second pass command is cut short between its two writes.
abbrev cut_short : Disk
cut_short = apply_first 1 (next_pass "01J" "wave" in_wave).writes in_wave

Reached-Sound_example : SoundDisk cut_short
Reached-Sound_example =
    Reached-Sound no_fit "01J" " VAL-1" "s" (pos 10) cut_short
      (goes_on 1 (goes_on 1 (starts fresh_start) opens_wave) (takes_pass "wave"))

abbrev campaign : Campaign
campaign = record {
  axes =
      record {
        title = "login";
        scenarios =
            record {
              title = "wrong password";
              steps = "type it" ∷ [];
              expected = "refused";
              rank = 1;
              access = "readonly";
              wave = 0;
            }
            ∷ [];
      }
      ∷ [];
}

abbrev batch : List Outcome
batch =
    record {
      axis = "login";
      scenario = "wrong password";
      status = "finding";
      severity = "cosmetic";
      reason = "";
    }
    ∷ []

abbrev target : Pass
target = record { id = "wave-1"; kind = "wave"; wave = 1 }

abbrev awaiting : RunState
awaiting = record (new_run "01J" "VAL-1" "s" 10) {
  open_pass = "wave-1";
  campaign_required = true;
  passes = target ∷ [];
}

abbrev found : Counts
found = record { pass = 0; finding = 1; not_exercised = 0 }

abbrev disk : Disk
disk = record {
  run = decoded awaiting;
  campaign = decoded campaign;
  ledger = missing;
  captures = "wave-1" ∷ [];
}

abbrev grown : Ledger
grown = record { passes = entry target batch found ∷ [] }

abbrev closed : RunState
closed = record awaiting { open_pass = ""; pending_events = outcome_recorded target found ∷ [] }

batch_recorded :
    (record_outcome "01J" "wave-1" (decoded batch) disk).writes
    ≡ write_ledger grown ∷ (write_run closed ∷ [])
unfolding record_outcome read_staging record_target close_outcome entry settle settle_new and_then
    reply refuse read_run checked_run within_limits read_campaign required read_campaign_if_present
    checked_campaign read_ledger checked_ledger queue_event valid_axis too_long valid_axes
    validate_campaign are_counts axis_keys blank count_known count_outcome count_recorded counts_eq
    has is_space known_keys known_kind outcome_key outcome_too_long tally valid_ledger_pass
    valid_ledger_passes valid_scenario valid_scenarios valid_severity valid_steps validate_ledger
    validate_outcomes with_counts find str_eq
batch_recorded = refl

grown_valid : validate_ledger grown ≡ true
unfolding too_long are_counts blank count_outcome count_recorded counts_eq has is_space known_kind
    outcome_key outcome_too_long tally valid_ledger_pass valid_ledger_passes valid_severity
    validate_ledger with_counts entry str_eq
grown_valid = refl

record_outcome-retry_example :
    record_outcome "01J" "wave-1" (decoded batch) (apply disk (write_ledger grown))
    ≡ reply (write_run closed ∷ []) tt
record_outcome-retry_example =
    record_outcome-retry "01J" "wave-1" batch disk grown closed batch_recorded grown_valid

abbrev waves : ℕ → ℕ → List Wave
waves first zero = []
waves first (suc n) =
    record { number = first; is_open = false; findings = some 0; fixed = some 1 }
    ∷ waves (suc first) n

-- A run under a cap of 100 after 64 waves.
abbrev long_run : RunState
long_run = record (new_run "01J" "VAL-1" "s" 100) { wave = 64; waves = waves 1 64 }

abbrev too_long_run : RunState
too_long_run = queue_event (wave_opened 65) (record long_run {
  wave = 65;
  wave_open = true;
  waves =
      long_run.waves
      ++ ((record { number = 65; is_open = true; findings = none; fixed = none }) ∷ []);
})

long_run_opens : (open_next long_run).writes ≡ write_run too_long_run ∷ []
unfolding open_next reply
long_run_opens = refl

open_next_overfull_example : read_run "01J" (decoded too_long_run) ≡ err other
open_next_overfull_example = open_next_overfull "01J" long_run refl long_run_opens

batch_counted : validate_outcomes batch campaign ≡ some found
unfolding validate_outcomes count_known known_keys axis_keys has outcome_key outcome_too_long
    too_long count_outcome valid_severity blank tally with_counts str_eq
batch_counted = refl

login_run : has_char 0 "login" ≡ false
unfolding has_char
login_run = refl

validate_outcomes-Tells_example : Tells campaign.axes batch found
validate_outcomes-Tells_example =
    validate_outcomes-Tells batch campaign (login_run, tt) (login_run, tt) batch_counted

-- A key of a scenario with NUL in its title is also that of an axis that the campaign does not have.
abbrev joined : Campaign
joined = record {
  axes =
      record {
        title = "a";
        scenarios =
            record {
              title = "b\0c";
              steps = [];
              expected = "";
              rank = 1;
              access = "readonly";
              wave = 0;
            }
            ∷ [];
      }
      ∷ [];
}

abbrev misplaced : List Outcome
misplaced =
    record { axis = "a\0b"; scenario = "c"; status = "finding"; severity = "cosmetic"; reason = "" }
    ∷ []

misplaced_run : validate_outcomes misplaced joined ≡ some found
unfolding validate_outcomes count_known known_keys axis_keys has outcome_key outcome_too_long
    too_long count_outcome valid_severity blank tally with_counts str_eq
misplaced_run = refl
