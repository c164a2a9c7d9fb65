-- ===== src/Forge/Store.antt =====
-- internal/atelierd/forge/store.go: reading the files of a run, their agreement, and the queue of
-- events. The reading and the writing of bytes are not modelled.
use homebrew_tools.Prelude.{
  ◌+◌, String, Bool, true, false, not, Option, none, some, List, [], ◌∷◌, ◌++◌, ◌&&◌, ◌||◌, ltb,
  leb, ◌==◌, str_eq, if◌then◌else◌, length,
}
use homebrew_tools.Forge.Types.{
  max_auxiliary_passes, max_id_bytes, max_waves, max_passes, max_pending_events, Error, unknown_run,
  campaign_invalid, other, Result, ok, err, Pass, Event, RunState, Campaign, Outcome, LedgerPass,
  Ledger, File, missing, predates, broken, decoded, Disk, Write, write_run, Reply,
}
use homebrew_tools.Forge.Validate.{
  too_long, has, outcome_key, known_keys, validate_campaign, validate_ledger,
}
use Prim.Native.String.{len}

-- `if err != nil { return err }`
unfoldable pub and_then : {A B : Type 0} → Result A → (A → Reply B) → Reply B
and_then (err e) next = record { writes = []; answer = err e }
and_then (ok a) next = next a

unfoldable pub refuse : {A : Type 0} → Error → Reply A
refuse e = record { writes = []; answer = err e }

unfoldable pub reply : {A : Type 0} → List Write → A → Reply A
reply ws a = record { writes = ws; answer = ok a }

unfoldable pub within_limits : RunState → Bool
within_limits s =
    not (
      too_long s.ticket
      || ltb max_id_bytes (len s.session)
      || ltb max_id_bytes (len s.open_pass)
      || too_long s.refs.report
      || too_long s.refs.testplan)
    && not (
        ltb max_waves (length s.waves)
        || ltb max_passes (length s.passes)
        || ltb max_pending_events (length s.pending_events))
    && (leb 1 s.next_review && leb s.next_review (max_auxiliary_passes + 1))
    && (leb 1 s.next_repair && leb s.next_repair (max_auxiliary_passes + 1))

unfoldable pub checked_run : String → RunState → Result RunState
checked_run run_id s = if str_eq s.run_id run_id && within_limits s then ok s else err other

unfoldable pub read_run : String → File RunState → Result RunState
read_run run_id missing = err unknown_run
read_run run_id predates = err other
read_run run_id broken = err other
read_run run_id (decoded s) = checked_run run_id s

unfoldable pub checked_campaign : Campaign → Result (Option Campaign)
checked_campaign c = if validate_campaign c then ok (some c) else err campaign_invalid

unfoldable pub read_campaign_if_present : File Campaign → Result (Option Campaign)
read_campaign_if_present missing = ok none
read_campaign_if_present predates = err campaign_invalid
read_campaign_if_present broken = err campaign_invalid
read_campaign_if_present (decoded c) = checked_campaign c

unfoldable pub required : Result (Option Campaign) → Result Campaign
required (err e) = err e
required (ok none) = err campaign_invalid
required (ok (some c)) = ok c

unfoldable pub read_campaign : File Campaign → Result Campaign
read_campaign f = required (read_campaign_if_present f)

unfoldable pub checked_ledger : Ledger → Result Ledger
checked_ledger l = if validate_ledger l then ok l else err other

unfoldable pub read_ledger : File Ledger → Result Ledger
read_ledger missing = ok (record { passes = [] })
read_ledger predates = err campaign_invalid
read_ledger broken = err other
read_ledger (decoded l) = checked_ledger l

-- The map `allocated`: of passes with the same ID, the last one.
unfoldable pub allocated : String → List Pass → Option Pass
allocated id [] = none
allocated id (p ∷ ps) = elim (allocated id ps) [
  | some q ↦ some q
  | none ↦ if str_eq p.id id then some p else none
]

unfoldable pub matches : LedgerPass → Option Pass → Bool
matches r none = false
matches r (some p) = str_eq r.kind p.kind && (r.wave == p.wave)

unfoldable pub outcomes_known : List String → List Outcome → Bool
outcomes_known known [] = true
outcomes_known known (o ∷ os) = has (outcome_key o.axis o.scenario) known && outcomes_known known os

unfoldable pub passes_agree : List Pass → List String → List LedgerPass → Bool
passes_agree passes known [] = true
passes_agree passes known (r ∷ rs) =
    matches r (allocated r.pass_id passes)
    && outcomes_known known r.outcomes
    && passes_agree passes known rs

unfoldable pub validate_persisted_data : RunState → Campaign → Ledger → Bool
validate_persisted_data s c l = passes_agree s.passes (known_keys c.axes) l.passes

unfoldable pub validate_campaign_and_ledger : RunState → Option Campaign → Ledger → Result Unit
validate_campaign_and_ledger s none l =
    if s.campaign_required || ltb 0 (length l.passes) then err campaign_invalid else ok tt
validate_campaign_and_ledger s (some c) l =
    if validate_persisted_data s c l then ok tt else err other

unfoldable pub queue_event : Event → RunState → RunState
queue_event e s = record s { pending_events = s.pending_events ++ (e ∷ []) }

-- The loop of `flushPending`: the states written and the events delivered, where the list holds the
-- outbox's answers.
unfoldable pub flush_events : List Bool → RunState → List Event → List Write × List Event
flush_events answers s [] = ([], [])
flush_events [] s (e ∷ es) = ([], [])
flush_events (false ∷ answers) s (e ∷ es) = ([], [])
flush_events (true ∷ answers) s (e ∷ es) =
    let left : RunState = record s { pending_events = es } in
    let rest = flush_events answers left es in (write_run left ∷ rest.0, e ∷ rest.1)

unfoldable pub flush_run : List Bool → Result RunState → List Write × List Event
flush_run answers (err e) = ([], [])
flush_run answers (ok s) = flush_events answers s s.pending_events

unfoldable pub flush_pending : List Bool → String → Disk → List Write × List Event
flush_pending answers run_id d = flush_run answers (read_run run_id d.run)
