-- ===== src/Forge/AppendTests.antt =====
-- A run of `AppendCampaign` in the second wave of a campaign of one scenario.
use homebrew_tools.Prelude.{ℕ, String, Bool, true, [], ◌∷◌, ◌≡◌, refl, str_eq, find}
use homebrew_tools.Forge.Types.{
  RunState, Scenario, Campaign, Ledger, Pass, write_run, write_campaign, campaign_saved,
}
use homebrew_tools.Forge.Validate.{
  valid_axis, too_long, valid_axes, validate_campaign, axis_keys, blank, has, is_space, known_keys,
  outcome_key, valid_scenario, valid_scenarios, valid_steps,
}
use homebrew_tools.Forge.Store.{
  reply, refuse, queue_event, validate_persisted_data, passes_agree, matches, allocated,
  outcomes_known,
}
use homebrew_tools.Forge.Waves.{new_run}
use homebrew_tools.Forge.Campaigns.{
  append_to, append_grown, add_axes, add_axis, add_scenarios, has_title, place_axis, scenarios_of,
  with_axes, any_recorded, recorded_in, check_append_budget, count_additions, count_appended,
  appended_before, bump, total, bitten, bitten_by, within_budgets, queue_campaign_saved,
  count_scenarios,
}
use homebrew_tools.Forge.Appending.Budget.{Settled, append_to-Settled}

abbrev small : Campaign → Bool
small c = true

abbrev scenario : String → ℕ → Scenario
scenario title wave = record {
  title = title;
  steps = "type it" ∷ [];
  expected = "refused";
  rank = 1;
  access = "readonly";
  wave = wave;
}

abbrev campaign : Campaign
campaign = record {
  axes = record { title = "login"; scenarios = scenario "wrong password" 0 ∷ [] } ∷ [];
}

abbrev additions : Campaign
additions = record {
  axes = record { title = "login"; scenarios = scenario "no password" 0 ∷ [] } ∷ [];
}

abbrev grown : Campaign
grown = record {
  axes =
      record {
        title = "login";
        scenarios = scenario "wrong password" 0 ∷ (scenario "no password" 2 ∷ []);
      }
      ∷ [];
}

abbrev first_pass : Pass
first_pass = record { id = "wave-1"; kind = "wave"; wave = 1 }

abbrev recorded : Ledger
recorded = record {
  passes =
      record {
        pass_id = "wave-1";
        kind = "wave";
        wave = 1;
        outcomes =
            record {
              axis = "login";
              scenario = "wrong password";
              status = "finding";
              severity = "cosmetic";
              reason = "";
            }
            ∷ [];
        counts = record { pass = 0; finding = 1; not_exercised = 0 };
      }
      ∷ [];
}

abbrev second_wave : RunState
second_wave = record (new_run "01J" "VAL-1" "s" 10) {
  wave = 2;
  wave_open = true;
  campaign_required = true;
  passes = first_pass ∷ [];
}

abbrev saved : RunState
saved = record second_wave { pending_events = campaign_saved 1 2 ∷ [] }

one_appended :
    (append_to small 2 additions second_wave campaign recorded).writes
    ≡ write_campaign grown ∷ (write_run saved ∷ [])
unfolding append_to append_grown add_axes add_axis add_scenarios has_title place_axis scenarios_of
    with_axes any_recorded recorded_in check_append_budget count_additions count_appended
    appended_before bump total bitten bitten_by within_budgets queue_campaign_saved count_scenarios
    valid_axis too_long valid_axes validate_campaign axis_keys blank has is_space known_keys
    outcome_key valid_scenario valid_scenarios valid_steps reply refuse queue_event
    validate_persisted_data passes_agree matches allocated outcomes_known find str_eq
one_appended = refl

append_to-Settled_example : Settled small 2 campaign recorded saved grown
append_to-Settled_example =
    append_to-Settled small 2 additions second_wave campaign recorded one_appended
