-- ===== src/Forge/Validate.antt =====
-- The validation in internal/atelierd/forge/types.go. The texts of the errors are not modelled, so a
-- validation that returns only an error is a test.
use homebrew_tools.Prelude.{
  ℕ, ◌+◌, String, Bool, true, false, not, Option, none, some, List, [], ◌∷◌, ◌++◌, ◌&&◌, ◌||◌, ltb,
  leb, ◌==◌, str_eq, if◌then◌else◌, length,
}
use homebrew_tools.Forge.Types.{
  max_axes, max_scenarios_per_axis, max_scenarios, max_steps, max_outcomes, max_text_bytes,
  max_id_bytes, max_waves, max_passes, pass_wave, pass_review, pass_repair, Counts, Scenario, Axis,
  Campaign, Outcome, LedgerPass, Ledger,
}
use Prim.Native.Char.{code}
use Prim.Native.String.{len, ◌++◌ as append_text, [] as empty_text, ◌∷◌ as ◌∺◌}

-- `unicode.IsSpace` on a character's number.
unfoldable pub is_space : ℕ → Bool
is_space c =
    (leb 9 c && leb c 13)
    || (c == 32)
    || (c == 133)
    || (c == 160)
    || (c == 5760)
    || (leb 8192 c && leb c 8202)
    || (c == 8232)
    || (c == 8233)
    || (c == 8239)
    || (c == 8287)
    || (c == 12288)

-- `strings.TrimSpace(s) == ""`
unfoldable pub blank : String → Bool
blank empty_text = true
blank (c ∺ s) = is_space (code c) && blank s

unfoldable pub too_long : String → Bool
too_long s = ltb max_text_bytes (len s)

-- Membership in a map that is used as a set of texts.
unfoldable pub has : String → List String → Bool
has s [] = false
has s (t ∷ ts) = str_eq t s || has s ts

unfoldable pub outcome_key : String → String → String
outcome_key axis scenario = append_text axis (append_text "\0" scenario)

unfoldable pub known_kind : String → Bool
known_kind kind = str_eq kind pass_wave || str_eq kind pass_review || str_eq kind pass_repair

unfoldable pub valid_steps : List String → Bool
valid_steps [] = true
valid_steps (step ∷ steps) = not (too_long step) && not (blank step) && valid_steps steps

-- One turn of the inner loop of `validateCampaign`, after the titles seen.
unfoldable pub valid_scenario : List String → Scenario → Bool
valid_scenario seen s =
    not (too_long s.title || too_long s.expected)
    && not (blank s.title)
    && not (has s.title seen)
    && ltb 0 (length s.steps)
    && leb (length s.steps) max_steps
    && valid_steps s.steps
    && not (blank s.expected)
    && (leb 1 s.rank && leb s.rank 9)
    && (str_eq s.access "readonly" || str_eq s.access "mutating")
    && ((s.wave == 0) || (leb 2 s.wave && leb s.wave max_waves))

unfoldable pub valid_scenarios : List String → List Scenario → Bool
valid_scenarios seen [] = true
valid_scenarios seen (s ∷ ss) = valid_scenario seen s && valid_scenarios (s.title ∷ seen) ss

-- One turn of the outer loop, after the titles seen; total counts the scenarios before.
unfoldable pub valid_axis : List String → ℕ → Axis → Bool
valid_axis seen total a =
    not (too_long a.title)
    && not (blank a.title)
    && not (has a.title seen)
    && ltb 0 (length a.scenarios)
    && leb (length a.scenarios) max_scenarios_per_axis
    && leb (total + length a.scenarios) max_scenarios
    && valid_scenarios [] a.scenarios

unfoldable pub valid_axes : List String → ℕ → List Axis → Bool
valid_axes seen total [] = true
valid_axes seen total (a ∷ axes) =
    valid_axis seen total a && valid_axes (a.title ∷ seen) (total + length a.scenarios) axes

unfoldable pub validate_campaign : Campaign → Bool
validate_campaign c =
    ltb 0 (length c.axes) && leb (length c.axes) max_axes && valid_axes [] 0 c.axes

unfoldable pub valid_severity : Outcome → Bool
valid_severity o =
    if str_eq o.status "finding"
    then str_eq o.severity "blocking"
      || str_eq o.severity "degraded"
      || str_eq o.severity "cosmetic"
    else str_eq o.severity ""

unfoldable pub tally : Counts → String → Option Counts
tally total status =
    if str_eq status "pass"
    then some (record total { pass = total.pass + 1 })
    else if str_eq status "finding"
    then some (record total { finding = total.finding + 1 })
    else if str_eq status "not_exercised"
    then some (record total { not_exercised = total.not_exercised + 1 })
    else none

-- The counts with the outcome, where it is valid.
unfoldable pub count_outcome : Counts → Outcome → Option Counts
count_outcome total o =
    if valid_severity o && not (str_eq o.status "not_exercised" && blank o.reason)
    then tally total o.status
    else none

unfoldable pub outcome_too_long : Outcome → Bool
outcome_too_long o =
    too_long o.axis
    || too_long o.scenario
    || too_long o.status
    || too_long o.severity
    || too_long o.reason

unfoldable pub axis_keys : String → List Scenario → List String
axis_keys axis [] = []
axis_keys axis (s ∷ ss) = outcome_key axis s.title ∷ axis_keys axis ss

-- The set `known` of the scenarios' keys.
unfoldable pub known_keys : List Axis → List String
known_keys [] = []
known_keys (a ∷ axes) = axis_keys a.title a.scenarios ++ known_keys axes

abbrev pub no_counts : Counts
no_counts = record { pass = 0; finding = 0; not_exercised = 0 }

-- Goes on with the value, where there is one.
unfoldable pub with_counts : Option Counts → (Counts → Option Counts) → Option Counts
with_counts none next = none
with_counts (some c) next = next c

-- The loop of `validateOutcomes` after the keys seen.
unfoldable pub count_known : List String → List String → Counts → List Outcome → Option Counts
count_known known seen total [] = some total
count_known known seen total (o ∷ os) =
    let key = outcome_key o.axis o.scenario in
    if not (outcome_too_long o) && has key known && not (has key seen)
    then with_counts (count_outcome total o) (λ c. count_known known (key ∷ seen) c os)
    else none

unfoldable pub validate_outcomes : List Outcome → Campaign → Option Counts
validate_outcomes batch campaign =
    if ltb 0 (length batch) && leb (length batch) max_outcomes
    then count_known (known_keys campaign.axes) [] no_counts batch
    else none

-- The inner loop of `validateLedger`.
unfoldable pub count_recorded : List String → Counts → List Outcome → Option Counts
count_recorded seen total [] = some total
count_recorded seen total (o ∷ os) =
    let key = outcome_key o.axis o.scenario in
    if not (outcome_too_long o)
      && not (str_eq o.axis "" || str_eq o.scenario "")
      && not (has key seen)
    then with_counts (count_outcome total o) (λ c. count_recorded (key ∷ seen) c os)
    else none

unfoldable pub counts_eq : Counts → Counts → Bool
counts_eq a b =
    (a.pass == b.pass) && (a.finding == b.finding) && (a.not_exercised == b.not_exercised)

unfoldable pub are_counts : Counts → Option Counts → Bool
are_counts c none = false
are_counts c (some d) = counts_eq d c

unfoldable pub valid_ledger_pass : List String → LedgerPass → Bool
valid_ledger_pass seen p =
    leb (len p.pass_id) max_id_bytes
    && not (str_eq p.pass_id "")
    && not (has p.pass_id seen)
    && known_kind p.kind
    && not (str_eq p.kind pass_wave && (p.wave == 0))
    && ltb 0 (length p.outcomes)
    && leb (length p.outcomes) max_outcomes
    && are_counts p.counts (count_recorded [] no_counts p.outcomes)

unfoldable pub valid_ledger_passes : List String → List LedgerPass → Bool
valid_ledger_passes seen [] = true
valid_ledger_passes seen (p ∷ ps) =
    valid_ledger_pass seen p && valid_ledger_passes (p.pass_id ∷ seen) ps

unfoldable pub validate_ledger : Ledger → Bool
validate_ledger l = leb (length l.passes) max_passes && valid_ledger_passes [] l.passes
