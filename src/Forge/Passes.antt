-- ===== src/Forge/Passes.antt =====
-- internal/atelierd/forge/ops.go: `NextPass` and `RecordOutcome`.
use homebrew_tools.Prelude.{
  ℕ, ◌+◌, String, Bool, true, false, not, Option, none, some, List, [], ◌∷◌, ◌++◌, ◌&&◌, ltb, leb,
  ◌==◌, str_eq, if◌then◌else◌, length, find, decimal, is_some,
}
use homebrew_tools.Forge.Types.{
  max_auxiliary_passes, max_passes, pass_wave, pass_review, invalid_pass, invalid_staging, other,
  Result, ok, err, Pass, Counts, pass_created, outcome_recorded, RunState, Campaign, Outcome,
  LedgerPass, Ledger, File, missing, predates, broken, decoded, Disk, Write, write_run,
  write_ledger, make_capture, Reply,
}
use homebrew_tools.Forge.Validate.{has, known_kind, validate_outcomes, counts_eq}
use homebrew_tools.Forge.Store.{
  and_then, refuse, reply, read_run, read_campaign, read_ledger, queue_event,
}
use homebrew_tools.Forge.Waves.{read_all, adopt, adopt_writes, prefix_writes, wave_pass}
use Prim.Native.String.{◌++◌ as append_text}

abbrev pub is_wave : String → Bool
is_wave kind = str_eq kind pass_wave

-- The number of the next pass of a kind.
unfoldable pub sequence_of : String → RunState → Result ℕ
sequence_of kind s =
    if is_wave kind
    then (if not s.wave_open
        then err invalid_pass
        else if is_some (find (wave_pass s.wave) s.passes)
        then err invalid_pass
        else ok s.wave)
    else if str_eq kind pass_review
    then ok s.next_review
    else ok s.next_repair

-- The pass with the kind and the number.
unfoldable pub created : String → RunState → ℕ → Pass
created kind s sequence = record {
  id = append_text kind (append_text "-" (decimal sequence));
  kind = kind;
  wave = if is_wave kind then s.wave else 0;
}

-- The counters after the pass.
unfoldable pub advance : String → ℕ → RunState → RunState
advance kind sequence s =
    if is_wave kind
    then s
    else if str_eq kind pass_review
    then record s { next_review = sequence + 1 }
    else record s { next_repair = sequence + 1 }

-- With a campaign, the pass waits for its outcome.
unfoldable pub await : Option Campaign → Pass → RunState → RunState
await none p s = s
await (some c) p s = record s { open_pass = p.id }

unfoldable pub with_pass : String → Option Campaign → RunState → ℕ → RunState
with_pass kind c s sequence =
    let p = created kind s sequence in
    queue_event (pass_created p)
      (await c p (advance kind sequence (record s { passes = s.passes ++ (p ∷ []) })))

unfoldable pub create_pass : String → List String → Option Campaign → RunState → ℕ → Reply Pass
create_pass kind captures c s sequence =
    let p = created kind s sequence in
    if not (is_wave kind) && ltb max_auxiliary_passes sequence
    then refuse invalid_pass
    else if leb max_passes (length s.passes)
    then refuse invalid_pass
    else if has p.id captures
    then refuse other
    else reply (make_capture p.id ∷ (write_run (with_pass kind c s sequence) ∷ [])) p

unfoldable pub allocate_pass : String → List String → RunState → Option Campaign → Reply Pass
allocate_pass kind captures s c =
    if not (str_eq s.open_pass "")
    then refuse invalid_pass
    else and_then (sequence_of kind s) (create_pass kind captures c s)

-- `NextPass`. Where the state's write fails the source also removes the new capture directory.
unfoldable pub next_pass : String → String → Disk → Reply Pass
next_pass run_id kind d =
    if known_kind kind
    then read_all run_id
        (λ s c l. prefix_writes (adopt_writes c s) (allocate_pass kind d.captures (adopt c s) c)) d
    else refuse invalid_pass

unfoldable pub outcome_eq : Outcome → Outcome → Bool
outcome_eq a b =
    str_eq a.axis b.axis
    && str_eq a.scenario b.scenario
    && str_eq a.status b.status
    && str_eq a.severity b.severity
    && str_eq a.reason b.reason

-- `reflect.DeepEqual` on the outcomes.
unfoldable pub outcomes_eq : List Outcome → List Outcome → Bool
outcomes_eq [] [] = true
outcomes_eq [] (b ∷ bs) = false
outcomes_eq (a ∷ rest) [] = false
outcomes_eq (a ∷ rest) (b ∷ bs) = outcome_eq a b && outcomes_eq rest bs

unfoldable pub close_outcome : RunState → Pass → Counts → Write
close_outcome s target total =
    write_run (queue_event (outcome_recorded target total) (record s { open_pass = "" }))

-- An outcome that the ledger already holds, which is what a failure between the two writes leaves.
unfoldable pub settle_stale :
    RunState → Pass → List Outcome → LedgerPass → Option Counts → Reply Unit
settle_stale s target batch r none = refuse invalid_pass
settle_stale s target batch r (some total) =
    if str_eq r.kind target.kind
      && (r.wave == target.wave)
      && outcomes_eq r.outcomes batch
      && counts_eq r.counts total
    then reply (close_outcome s target total ∷ []) tt
    else refuse invalid_pass

-- The ledger's entry for a pass.
unfoldable pub entry : Pass → List Outcome → Counts → LedgerPass
entry target batch total = record {
  pass_id = target.id;
  kind = target.kind;
  wave = target.wave;
  outcomes = batch;
  counts = total;
}

unfoldable pub settle_new : RunState → Pass → List Outcome → Ledger → Option Counts → Reply Unit
settle_new s target batch l none = refuse invalid_staging
settle_new s target batch l (some total) =
    let grown : Ledger = record { passes = l.passes ++ (entry target batch total ∷ []) } in
    reply (write_ledger grown ∷ (close_outcome s target total ∷ [])) tt

unfoldable pub settle :
    RunState → Pass → List Outcome → Campaign → Ledger → Option (ℕ × LedgerPass) → Reply Unit
settle s target batch c l (some (i, r)) = settle_stale s target batch r (validate_outcomes batch c)
settle s target batch c l none = settle_new s target batch l (validate_outcomes batch c)

unfoldable pub record_target : List Outcome → Disk → RunState → Option (ℕ × Pass) → Reply Unit
record_target batch d s none = refuse invalid_pass
record_target batch d s (some (i, target)) =
    if str_eq s.open_pass target.id
    then and_then (read_campaign d.campaign) (λ c.
      and_then (read_ledger d.ledger)
        (λ l. settle s target batch c l (find (λ r. str_eq r.pass_id target.id) l.passes)))
    else refuse invalid_pass

-- `readStaging`
unfoldable pub read_staging : {A : Type 0} → File A → Result A
read_staging missing = err invalid_staging
read_staging predates = err invalid_staging
read_staging broken = err invalid_staging
read_staging (decoded a) = ok a

-- `RecordOutcome`. The pass found has the ID that is asked for, so the later tests read the pass's.
unfoldable pub record_outcome : String → String → File (List Outcome) → Disk → Reply Unit
record_outcome run_id pass_id staging d = and_then (read_staging staging) (λ batch.
    and_then (read_run run_id d.run)
      (λ s. record_target batch d s (find (λ p. str_eq p.id pass_id) s.passes)))
