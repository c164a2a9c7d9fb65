-- ===== src/Forge/Retry.antt =====
-- internal/atelierd/forge/ops.go: an outcome recorded again after a failure between its two writes.
use homebrew_tools.Prelude.{
  ℕ, ◌≤◌, String, Bool, true, Option, none, some, List, [], ◌∷◌, ◌++◌, ◌==◌, str_eq, str_eq_refl,
  if◌then◌else◌, length, find, find-none, find-append, ◌≡◌, sym, ◌∙◌, refl, inl, inr, Bool-cases,
  Option-cases, arith, ap,
}
use homebrew_tools.Forge.Types.{
  invalid_pass, Result, ok, err, Pass, Counts, RunState, Campaign, Outcome, LedgerPass, Ledger,
  decoded, Disk, Write, write_run, write_ledger, Reply, apply,
}
use homebrew_tools.Forge.Validate.{validate_outcomes, counts_eq, validate_ledger}
use homebrew_tools.Forge.Store.{
  and_then, refuse, reply, read_run, read_campaign, read_ledger, checked_ledger,
}
use homebrew_tools.Forge.Passes.{
  outcome_eq, outcomes_eq, settle, settle_new, settle_stale, record_target, record_outcome,
  read_staging, entry, close_outcome,
}

counts_eq_refl : (c : Counts) → counts_eq c c ≡ true
unfolding counts_eq
counts_eq_refl c = ground arith

outcome_eq_refl : (o : Outcome) → outcome_eq o o ≡ true
unfolding outcome_eq
outcome_eq_refl o = rw (
  str_eq_refl o.axis,
  str_eq_refl o.scenario,
  str_eq_refl o.status,
  str_eq_refl o.severity,
  str_eq_refl o.reason,
)

outcomes_eq_refl : (os : List Outcome) → outcomes_eq os os ≡ true
unfolding outcomes_eq
outcomes_eq_refl [] = refl
outcomes_eq_refl (o ∷ os) = rw (outcome_eq_refl o, outcomes_eq_refl os)

eq_refl : (n : ℕ) → (n == n) ≡ true
eq_refl n = ground arith

settle_stale-length-le :
    (s : RunState) (target : Pass) (batch : List Outcome) (r : LedgerPass) (o : Option Counts)
    → length (settle_stale s target batch r o).writes ≤ 1
unfolding settle_stale reply refuse
settle_stale-length-le s target batch r none = omega arith
settle_stale-length-le s target batch r (some total) = ground arith

-- The answer with the batch that the ledger now ends in.
settle_again :
    (s : RunState) (target : Pass) (batch : List Outcome) (c : Campaign) (l : Ledger)
    (total : Counts)
    → validate_outcomes batch c ≡ some total
    → find (λ r. str_eq r.pass_id target.id) l.passes ≡ none
    → let grown : Ledger = record { passes = l.passes ++ (entry target batch total ∷ []) } in
      settle s target batch c grown (find (λ r. str_eq r.pass_id target.id) grown.passes)
      ≡ reply (close_outcome s target total ∷ []) tt
unfolding settle settle_stale entry
settle_again s target batch c l total v f = rw (
  find-append (λ r. str_eq r.pass_id target.id) l.passes (entry target batch total)
      (find-none (λ r. str_eq r.pass_id target.id) l.passes f) (str_eq_refl target.id),
  v,
  settle,
  settle_stale,
  entry,
  str_eq_refl target.kind,
  eq_refl target.wave,
  outcomes_eq_refl batch,
  counts_eq_refl total,
)

settle-retry :
    (s : RunState) (target : Pass) (batch : List Outcome) (c : Campaign) (l l' : Ledger)
    (s' : RunState)
    → (settle s target batch c l (find (λ r. str_eq r.pass_id target.id) l.passes)).writes
      ≡ write_ledger l' ∷ (write_run s' ∷ [])
    → settle s target batch c l' (find (λ r. str_eq r.pass_id target.id) l'.passes)
      ≡ reply (write_run s' ∷ []) tt
unfolding settle settle_new entry settle_stale reply refuse
settle-retry s target batch c l l' s' h =
    elim (Option-cases (find (λ r. str_eq r.pass_id target.id) l.passes)) [
      | inr ((i, r), f) ↦ absurd (
          omega (
            arith,
            settle_stale-length-le s target batch r (validate_outcomes batch c),
            (ap (λ x. length (settle s target batch c l x).writes) (sym f) ∙ ap length h),
          ))
      | inl f ↦ elim (Option-cases (validate_outcomes batch c)) [
        | inl v ↦ absurd (ground (arith, h, f, v))
        | inr (total, v) ↦
            let h2 : write_ledger (record { passes = l.passes ++ (entry target batch total ∷ []) })
                  ∷ (close_outcome s target total ∷ [])
                ≡ write_ledger l' ∷ (write_run s' ∷ []) =
              sym (ap (λ o. (settle_new s target batch l o).writes) v)
              ∙ (sym (ap (λ x. (settle s target batch c l x).writes) f) ∙ h) in
            cc (settle_again s target batch c l total v f, h2)
      ]
    ]

if_true : {A : Type 0} (b : Bool) (x y : A) → b ≡ true → (if b then x else y) ≡ x
if_true b x y e = rw e

-- A step that went on to write was given a value.
and_then-writes :
    {A B : Type 0} (r : Result A) (next : A → Reply B) {w : Write} {ws : List Write}
    → (and_then r next).writes ≡ w ∷ ws
    → (a : A) × (r ≡ ok a) × ((next a).writes ≡ w ∷ ws)
unfolding and_then
and_then-writes (err e) next h = absurd (ground arith)
and_then-writes (ok a) next h = (a, refl, h)

read_ledger_written : (l : Ledger) → validate_ledger l ≡ true → read_ledger (decoded l) ≡ ok l
unfolding read_ledger checked_ledger
read_ledger_written l k = rw k

go_on :
    {A B : Type 0} (r : Result A) (next : A → Reply B) {a : A} → r ≡ ok a → and_then r next ≡ next a
unfolding and_then
go_on r next e = rw e

target-retry :
    (batch : List Outcome) (d : Disk) (s : RunState) (at : Option (ℕ × Pass)) (l' : Ledger)
    (s' : RunState)
    → (record_target batch d s at).writes ≡ write_ledger l' ∷ (write_run s' ∷ [])
    → validate_ledger l' ≡ true
    → record_target batch (apply d (write_ledger l')) s at ≡ reply (write_run s' ∷ []) tt
unfolding record_target apply refuse
target-retry batch d s none l' s' h k = absurd (ground arith)
target-retry batch d s (some (i, target)) l' s' h k =
    elim (Bool-cases (str_eq s.open_pass target.id)) [
      | inr e ↦ absurd (ground arith)
      | inl e ↦
          let next : Campaign → Ledger → Reply Unit =
            λ c l. settle s target batch c l (find (λ r. str_eq r.pass_id target.id) l.passes) in
          let opened : List Write =
            (and_then (read_campaign d.campaign)
              (λ c. and_then (read_ledger d.ledger) (next c))).writes in
          let h1 : opened ≡ write_ledger l' ∷ (write_run s' ∷ []) =
            sym (
              ap (λ r. r.writes) (if_true (str_eq s.open_pass target.id) _ (refuse invalid_pass) e))
            ∙ h in
          let (c, ec, h2) =
            and_then-writes (read_campaign d.campaign)
              (λ c. and_then (read_ledger d.ledger) (next c)) h1 in
          let (l, el, h3) = and_then-writes (read_ledger d.ledger) (next c) h2 in
          if_true (str_eq s.open_pass target.id) _ (refuse invalid_pass) e
          ∙ (go_on (read_campaign d.campaign) (λ c. and_then (read_ledger (decoded l')) (next c)) ec
              ∙ (go_on (read_ledger (decoded l')) (next c) (read_ledger_written l' k)
                  ∙ settle-retry s target batch c l l' s' h3))
    ]

-- An outcome whose ledger was written, and whose run's state was not, is recorded by the same command
-- again, which now writes only the state that it would have written: given that the ledger written
-- reads back.
pub record_outcome-retry :
    (run_id pass_id : String) (batch : List Outcome) (d : Disk) (l' : Ledger) (s' : RunState)
    → (record_outcome run_id pass_id (decoded batch) d).writes
      ≡ write_ledger l' ∷ (write_run s' ∷ [])
    → validate_ledger l' ≡ true
    → record_outcome run_id pass_id (decoded batch) (apply d (write_ledger l'))
      ≡ reply (write_run s' ∷ []) tt
unfolding record_outcome read_staging and_then apply
record_outcome-retry run_id pass_id batch d l' s' h k =
    let (s, es, h1) =
      and_then-writes (read_run run_id d.run)
        (λ s. record_target batch d s (find (λ p. str_eq p.id pass_id) s.passes)) h in
    go_on (read_run run_id d.run)
      (λ s.
        record_target batch (apply d (write_ledger l')) s
          (find (λ p. str_eq p.id pass_id) s.passes))
      es
    ∙ target-retry batch d s (find (λ p. str_eq p.id pass_id) s.passes) l' s' h1 k
