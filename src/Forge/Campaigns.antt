-- ===== src/Forge/Campaigns.antt =====
-- internal/atelierd/forge/ops.go: `SaveCampaign` and `AppendCampaign`.
-- `fits` stands for the size of the campaign's JSON against `MaxCampaignFileBytes`. A staging file
-- with the wrong schema version is one that is broken.
use homebrew_tools.Prelude.{
  ℕ, ◌+◌, String, Bool, true, false, not, Option, none, some, List, [], ◌∷◌, ◌++◌, ◌&&◌, ◌||◌, ltb,
  leb, ◌==◌, str_eq, if◌then◌else◌, length, find, set,
}
use homebrew_tools.Forge.Types.{
  bitten_axis_append_budget, shared_append_budget, pass_wave, invalid_staging, other, Result, ok,
  err, campaign_saved, RunState, Scenario, Axis, Campaign, Outcome, LedgerPass, Ledger, File, Disk,
  write_run, write_campaign, Reply,
}
use homebrew_tools.Forge.Validate.{has, validate_campaign}
use homebrew_tools.Forge.Store.{
  and_then, refuse, reply, read_run, read_campaign, read_ledger, validate_persisted_data,
  queue_event,
}
use homebrew_tools.Forge.Passes.{read_staging}

unfoldable pub no_wave : List Scenario → Bool
no_wave [] = true
no_wave (s ∷ ss) = (s.wave == 0) && no_wave ss

unfoldable pub no_waves : List Axis → Bool
no_waves [] = true
no_waves (a ∷ axes) = no_wave a.scenarios && no_waves axes

unfoldable pub checked_staging : Campaign → Result Campaign
checked_staging c = if no_waves c.axes && validate_campaign c then ok c else err invalid_staging

unfoldable pub staged : Result Campaign → Result Campaign
staged (err e) = err e
staged (ok c) = checked_staging c

-- `readCampaignStaging`
unfoldable pub read_campaign_staging : File Campaign → Result Campaign
read_campaign_staging f = staged (read_staging f)

unfoldable pub count_scenarios : List Axis → ℕ
count_scenarios [] = 0
count_scenarios (a ∷ axes) = length a.scenarios + count_scenarios axes

unfoldable pub queue_campaign_saved : Campaign → RunState → RunState
queue_campaign_saved c s = queue_event (campaign_saved (length c.axes) (count_scenarios c.axes)) s

unfoldable pub save_over : (Campaign → Bool) → Campaign → RunState → Ledger → Reply Unit
save_over fits c s l =
    let next = queue_campaign_saved c (record s { campaign_required = true }) in
    if ltb 0 (length l.passes)
    then refuse invalid_staging
    else if ltb 0 (length s.passes) && not s.campaign_required
    then refuse invalid_staging
    else if not (fits c)
    then refuse invalid_staging
    else reply (write_campaign c ∷ (write_run next ∷ [])) tt

-- `SaveCampaign`
unfoldable pub save_campaign : (Campaign → Bool) → String → File Campaign → Disk → Reply Unit
save_campaign fits run_id staging d = and_then (read_campaign_staging staging) (λ c.
    and_then (read_run run_id d.run)
      (λ s. and_then (read_ledger d.ledger) (λ l. save_over fits c s l)))

-- The map `appended` from axis titles to numbers; no property reads its order.
unfoldable pub bump : String → ℕ → List (String × ℕ) → List (String × ℕ)
bump title n [] = (title, n) ∷ []
bump title n ((t, m) ∷ rest) =
    if str_eq t title then (t, m + n) ∷ rest else (t, m) ∷ bump title n rest

unfoldable pub appended_before : ℕ → String → List Scenario → List (String × ℕ) → List (String × ℕ)
appended_before n title [] counts = counts
appended_before n title (s ∷ ss) counts =
    appended_before n title ss (if s.wave == n then bump title 1 counts else counts)

unfoldable pub count_appended : ℕ → List Axis → List (String × ℕ) → List (String × ℕ)
count_appended n [] counts = counts
count_appended n (a ∷ axes) counts =
    count_appended n axes (appended_before n a.title a.scenarios counts)

unfoldable pub count_additions : List Axis → List (String × ℕ) → List (String × ℕ)
count_additions [] counts = counts
count_additions (a ∷ axes) counts = count_additions axes (bump a.title (length a.scenarios) counts)

unfoldable pub total : List (String × ℕ) → ℕ
total [] = 0
total ((t, n) ∷ rest) = n + total rest

unfoldable pub bitten_by : List Outcome → List String
bitten_by [] = []
bitten_by (o ∷ os) = if str_eq o.status "finding" then o.axis ∷ bitten_by os else bitten_by os

-- The axes with a finding in wave 1.
unfoldable pub bitten : List LedgerPass → List String
bitten [] = []
bitten (r ∷ rs) =
    if str_eq r.kind pass_wave && (r.wave == 1)
    then bitten_by r.outcomes ++ bitten rs
    else bitten rs

-- The last loop: no bitten axis is over its budget, and the others share one.
unfoldable pub within_budgets : List String → ℕ → List (String × ℕ) → Bool
within_budgets hit shared [] = leb shared shared_append_budget
within_budgets hit shared ((t, n) ∷ rest) =
    if has t hit
    then leb n bitten_axis_append_budget && within_budgets hit shared rest
    else within_budgets hit (shared + n) rest

-- `checkAppendBudget`
unfoldable pub check_append_budget : Campaign → Ledger → Campaign → ℕ → Bool
check_append_budget c l additions n =
    let counts = count_additions additions.axes (count_appended n c.axes []) in
    if ltb 2 n
    then leb (total counts) shared_append_budget
    else within_budgets (bitten l.passes) 0 counts

unfoldable pub has_title : String → List Scenario → Bool
has_title title [] = false
has_title title (s ∷ ss) = str_eq s.title title || has_title title ss

-- The additions to an axis, none where one is there already.
unfoldable pub add_scenarios : ℕ → List Scenario → List Scenario → Option (List Scenario)
add_scenarios n old [] = some old
add_scenarios n old (s ∷ ss) =
    let grown = add_scenarios n (old ++ (record s { wave = n } ∷ [])) ss in
    if has_title s.title old then none else grown

unfoldable pub place_axis :
    List Axis → Option (ℕ × Axis) → String → Option (List Scenario) → Option (List Axis)
place_axis axes at title none = none
place_axis axes none title (some ss) =
    some (axes ++ ((record { title = title; scenarios = ss }) ∷ []))
place_axis axes (some (i, a)) title (some ss) = some (set axes i (record a { scenarios = ss }))

unfoldable pub scenarios_of : Option (ℕ × Axis) → List Scenario
scenarios_of none = []
scenarios_of (some (i, a)) = a.scenarios

unfoldable pub add_axis : ℕ → List Axis → Axis → Option (List Axis)
add_axis n axes addition =
    let at = find (λ a. str_eq a.title addition.title) axes in
    place_axis axes at addition.title (add_scenarios n (scenarios_of at) addition.scenarios)

unfoldable pub with_axes :
    Option (List Axis) → (List Axis → Option (List Axis)) → Option (List Axis)
with_axes none next = none
with_axes (some axes) next = next axes

unfoldable pub add_axes : ℕ → List Axis → List Axis → Option (List Axis)
add_axes n axes [] = some axes
add_axes n axes (a ∷ rest) = with_axes (add_axis n axes a) (λ grown. add_axes n grown rest)

unfoldable pub append_grown : (Campaign → Bool) → RunState → Option (List Axis) → Reply Unit
append_grown fits s none = refuse invalid_staging
append_grown fits s (some axes) =
    let c : Campaign = record { axes = axes } in
    if validate_campaign c && fits c
    then reply (write_campaign c ∷ (write_run (queue_campaign_saved c s) ∷ [])) tt
    else refuse invalid_staging

unfoldable pub recorded_in : ℕ → LedgerPass → Bool
recorded_in n r = str_eq r.kind pass_wave && (r.wave == n)

unfoldable pub any_recorded : ℕ → List LedgerPass → Bool
any_recorded n [] = false
any_recorded n (r ∷ rs) = recorded_in n r || any_recorded n rs

unfoldable pub append_to :
    (Campaign → Bool) → ℕ → Campaign → RunState → Campaign → Ledger → Reply Unit
append_to fits n additions s c l =
    if not (validate_persisted_data s c l)
    then refuse other
    else if not s.wave_open || not (s.wave == n)
    then refuse invalid_staging
    else if any_recorded n l.passes
    then refuse invalid_staging
    else if not (check_append_budget c l additions n)
    then refuse invalid_staging
    else append_grown fits s (add_axes n c.axes additions.axes)

-- `AppendCampaign`
unfoldable pub append_campaign : (Campaign → Bool) → String → ℕ → File Campaign → Disk → Reply Unit
append_campaign fits run_id n staging d =
    if ltb n 2
    then refuse invalid_staging
    else and_then (read_campaign_staging staging) (λ additions.
      and_then (read_run run_id d.run) (λ s.
        and_then (read_campaign d.campaign)
          (λ c. and_then (read_ledger d.ledger) (λ l. append_to fits n additions s c l))))
