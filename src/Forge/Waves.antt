-- ===== src/Forge/Waves.antt =====
-- internal/atelierd/forge/ops.go: a run's start, its waves, its passes and its references.
use homebrew_tools.Prelude.{
  ℕ, ◌+◌, String, Bool, true, false, not, Option, none, some, List, [], ◌∷◌, ◌++◌, ◌&&◌, ◌||◌, ltb,
  leb, ◌==◌, str_eq, if◌then◌else◌, length, find, ℤ, pos, negsuc,
}
use homebrew_tools.Forge.Types.{
  max_text_bytes, max_id_bytes, pass_wave, invalid_pass, wave_cap, other, Result, ok, err, Wave,
  Pass, run_start, wave_opened, wave_closed, report_linked, testplan_linked, RunState, Campaign,
  LedgerPass, Ledger, missing, decoded, Disk, Write, write_run, Reply,
}
use homebrew_tools.Forge.Validate.{is_space}
use homebrew_tools.Forge.Store.{
  and_then, refuse, reply, read_run, read_campaign_if_present, read_ledger,
  validate_campaign_and_ledger, queue_event,
}
use Prim.Native.Char.{code}
use Prim.Native.String.{len, [] as empty_text, ◌∷◌ as ◌∺◌}

unfoldable pub trim_left : String → String
trim_left empty_text = empty_text
trim_left (c ∺ s) = let rest = trim_left s in if is_space (code c) then rest else c ∺ s

unfoldable pub trim_right : String → String
trim_right empty_text = empty_text
trim_right (c ∺ s) =
    let rest = trim_right s in if is_space (code c) && str_eq rest "" then empty_text else c ∺ rest

-- The state of a new run.
abbrev pub new_run : String → String → String → ℕ → RunState
new_run run_id ticket session cap = record {
  run_id = run_id;
  ticket = ticket;
  session = session;
  cap = cap;
  wave = 0;
  wave_open = false;
  open_pass = "";
  campaign_required = false;
  waves = [];
  passes = [];
  next_review = 1;
  next_repair = 1;
  refs = record { report = ""; testplan = "" };
  pending_events = [];
}

-- `Start`: the run's directory, made under the ID that `ulid.New` gives.
unfoldable pub start : String → String → String → ℤ → Result Disk
start run_id ticket session (negsuc n) = err other
start run_id ticket session (pos cap) =
    let clean = trim_right (trim_left ticket) in
    if str_eq clean ""
      || ltb max_text_bytes (len clean)
      || str_eq session ""
      || ltb max_id_bytes (len session)
      || (cap == 0)
    then err other
    else ok (record {
      run = decoded (queue_event (run_start clean cap) (new_run run_id clean session cap));
      campaign = missing;
      ledger = missing;
      captures = [];
    })

-- `OpenWave` on the state read: one branch for each return.
unfoldable pub open_next : RunState → Reply ℕ
open_next s =
    let n = s.wave + 1 in
    let opened : Wave = record { number = n; is_open = true; findings = none; fixed = none } in
    let next : RunState = record s {
      wave = n;
      wave_open = true;
      waves = s.waves ++ (opened ∷ []);
    } in
    if s.wave_open
    then refuse invalid_pass
    else if leb s.cap s.wave
    then refuse wave_cap
    else reply (write_run (queue_event (wave_opened n) next) ∷ []) n

unfoldable pub open_wave : String → Disk → Reply ℕ
open_wave run_id d = and_then (read_run run_id d.run) open_next

-- What `CloseWave` and `NextPass` read before they test anything.
unfoldable pub read_all :
    {A : Type 0} → String → (RunState → Option Campaign → Ledger → Reply A) → Disk → Reply A
read_all run_id next d = and_then (read_run run_id d.run) (λ s.
    and_then (read_campaign_if_present d.campaign) (λ c.
      and_then (read_ledger d.ledger)
        (λ l. and_then (validate_campaign_and_ledger s c l) (λ u. next s c l))))

-- A campaign found on a run that does not say so is noted in the run's state, at once.
unfoldable pub adopt : Option Campaign → RunState → RunState
adopt none s = s
adopt (some c) s = record s { campaign_required = true }

unfoldable pub adopt_writes : Option Campaign → RunState → List Write
adopt_writes none s = []
adopt_writes (some c) s =
    if s.campaign_required then [] else write_run (record s { campaign_required = true }) ∷ []

unfoldable pub prefix_writes : {A : Type 0} → List Write → Reply A → Reply A
prefix_writes ws r = record r { writes = ws ++ r.writes }

unfoldable pub wave_pass : ℕ → Pass → Bool
wave_pass n p = str_eq p.kind pass_wave && (p.wave == n)

unfoldable pub recorded_findings : ℕ → Option (ℕ × LedgerPass) → Result ℕ
recorded_findings n none = err invalid_pass
recorded_findings n (some (i, r)) =
    if str_eq r.kind pass_wave && (r.wave == n) then ok r.counts.finding else err invalid_pass

unfoldable pub wave_findings : Option Campaign → Ledger → ℕ → Pass → Result ℕ
wave_findings none l n p = ok 0
wave_findings (some c) l n p = recorded_findings n (find (λ r. str_eq r.pass_id p.id) l.passes)

-- The writes through `state.Waves[len(state.Waves)-1]`.
unfoldable pub close_last : ℕ → ℕ → List Wave → List Wave
close_last findings fixed [] = []
close_last findings fixed (w ∷ []) =
    record w { is_open = false; findings = some findings; fixed = some fixed } ∷ []
close_last findings fixed (w ∷ (v ∷ ws)) = w ∷ close_last findings fixed (v ∷ ws)

unfoldable pub decide : ℕ → RunState → String
decide fixed s = if fixed == 0 then "dry" else if leb s.cap s.wave then "cap" else "continue"

unfoldable pub close_with : ℕ → RunState → ℕ → Reply String
close_with fixed s findings =
    let decision = decide fixed s in
    let closed : RunState = record s {
      wave_open = false;
      waves = close_last findings fixed s.waves;
    } in
    reply (write_run (queue_event (wave_closed s.wave findings fixed decision) closed) ∷ [])
      decision

unfoldable pub close_pass :
    ℕ → RunState → Option Campaign → Ledger → Option (ℕ × Pass) → Reply String
close_pass fixed s c l none = refuse invalid_pass
close_pass fixed s c l (some (i, p)) = and_then (wave_findings c l s.wave p) (close_with fixed s)

unfoldable pub close_current : ℕ → RunState → Option Campaign → Ledger → Reply String
close_current fixed s c l =
    if not s.wave_open || (length s.waves == 0)
    then refuse invalid_pass
    else if not (str_eq s.open_pass "")
    then refuse invalid_pass
    else close_pass fixed s c l (find (wave_pass s.wave) s.passes)

-- `CloseWave`
unfoldable pub close_wave : String → ℤ → Disk → Reply String
close_wave run_id (negsuc n) d = refuse invalid_pass
close_wave run_id (pos fixed) d =
    read_all run_id
      (λ s c l. prefix_writes (adopt_writes c s) (close_current fixed (adopt c s) c l)) d

unfoldable pub set_report : String → RunState → RunState
set_report value s =
    queue_event (report_linked value) (record s { refs = record s.refs { report = value } })

unfoldable pub set_testplan : String → RunState → RunState
set_testplan value s =
    queue_event (testplan_linked value) (record s { refs = record s.refs { testplan = value } })

-- `SetRef`
unfoldable pub set_ref : String → String → String → Disk → Reply Unit
set_ref run_id key value d =
    if not (str_eq key "report" || str_eq key "testplan")
    then refuse other
    else if str_eq value "" || ltb max_text_bytes (len value)
    then refuse other
    else and_then (read_run run_id d.run) (λ s.
      reply
        (write_run (if str_eq key "report" then set_report value s else set_testplan value s) ∷ [])
        tt)

-- `GetRef`
unfoldable pub get_ref : String → String → Disk → Reply String
get_ref run_id key d =
    if not (str_eq key "report" || str_eq key "testplan")
    then refuse other
    else and_then (read_run run_id d.run)
        (λ s. reply [] (if str_eq key "report" then s.refs.report else s.refs.testplan))
