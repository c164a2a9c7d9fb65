-- ===== src/Forge/OutcomeSteps.antt =====
-- internal/atelierd/forge/ops.go: the writes of the commands on outcomes and campaigns keep a run's
-- directory sound.
use homebrew_tools.Prelude.{
  ℕ, String, Bool, not, Option, none, some, List, [], ◌∷◌, ◌&&◌, ◌||◌, ltb, ◌==◌, str_eq, length,
  sym, subst, inl, inr, Option-cases,
}
use homebrew_tools.Forge.Types.{
  invalid_pass, invalid_staging, Pass, Counts, RunState, Campaign, Outcome, LedgerPass, Ledger,
  File, Disk, write_run, write_campaign, apply, Axis,
}
use homebrew_tools.Forge.Validate.{validate_outcomes, validate_campaign, counts_eq}
use homebrew_tools.Forge.Store.{
  refuse, reply, read_run, read_campaign, read_ledger, queue_event, validate_persisted_data,
}
use homebrew_tools.Forge.Passes.{
  close_outcome, outcomes_eq, settle_stale, settle_new, settle, record_target, read_staging,
  record_outcome,
}
use homebrew_tools.Forge.Campaigns.{
  read_campaign_staging, queue_campaign_saved, save_over, save_campaign, append_grown, append_to,
  append_campaign, any_recorded, check_append_budget, add_axes,
}
use homebrew_tools.Forge.Invariant.{
  SoundState, SoundDisk, SoundWrites, read_run-Sound, and_then-SoundWrites, either-SoundWrites,
}

settle_stale-SoundWrites :
    (d : Disk) (s : RunState) (p : Pass) (batch : List Outcome) (r : LedgerPass) (o : Option Counts)
    → SoundState d.captures s
    → SoundWrites d (settle_stale s p batch r o).writes
unfolding settle_stale refuse reply close_outcome queue_event apply
settle_stale-SoundWrites d s p batch r none h = tt
settle_stale-SoundWrites d s p batch r (some t) h =
    either-SoundWrites d
      (str_eq r.kind p.kind
        && (r.wave == p.wave)
        && outcomes_eq r.outcomes batch
        && counts_eq r.counts t)
      (reply (close_outcome s p t ∷ []) tt) (refuse invalid_pass) (λ _. (h, tt)) (λ _. tt)

settle-SoundWrites :
    (d : Disk) (s : RunState) (p : Pass) (batch : List Outcome) (c : Campaign) (l : Ledger)
    (at : Option (ℕ × LedgerPass))
    → SoundDisk d
    → SoundState d.captures s
    → SoundWrites d (settle s p batch c l at).writes
unfolding settle settle_new refuse reply close_outcome queue_event apply
settle-SoundWrites d s p batch c l (some (i, r)) g h =
    settle_stale-SoundWrites d s p batch r (validate_outcomes batch c) h
settle-SoundWrites d s p batch c l none g h = elim (Option-cases (validate_outcomes batch c)) [
  | inl e ↦ subst (λ o. SoundWrites d (settle_new s p batch l o).writes) (sym e) tt
  | inr (t, e) ↦ subst (λ o. SoundWrites d (settle_new s p batch l o).writes) (sym e) (g, (h, tt))
]

record_target-SoundWrites :
    (batch : List Outcome) (d : Disk) (s : RunState) (at : Option (ℕ × Pass))
    → SoundDisk d
    → SoundState d.captures s
    → SoundWrites d (record_target batch d s at).writes
unfolding record_target refuse
record_target-SoundWrites batch d s none g h = tt
record_target-SoundWrites batch d s (some (i, p)) g h =
    either-SoundWrites d (str_eq s.open_pass p.id) _ _
      (λ _. and_then-SoundWrites d (read_campaign d.campaign) _ (λ c _.
        and_then-SoundWrites d (read_ledger d.ledger) _
          (λ l _. settle-SoundWrites d s p batch c l _ g h)))
      (λ _. tt)

pub record_outcome-SoundWrites :
    (run_id pass_id : String) (staging : File (List Outcome)) (d : Disk)
    → SoundDisk d
    → SoundWrites d (record_outcome run_id pass_id staging d).writes
unfolding record_outcome
record_outcome-SoundWrites run_id pass_id staging d g =
    and_then-SoundWrites d (read_staging staging) _ (λ batch _.
      and_then-SoundWrites d (read_run run_id d.run) _ (λ s e.
        record_target-SoundWrites batch d s _ g (read_run-Sound run_id d.captures d.run g e)))

pub save_campaign-SoundWrites :
    (fits : Campaign → Bool) (run_id : String) (staging : File Campaign) (d : Disk)
    → SoundDisk d
    → SoundWrites d (save_campaign fits run_id staging d).writes
unfolding save_campaign save_over refuse reply queue_campaign_saved queue_event apply
save_campaign-SoundWrites fits run_id staging d g =
    and_then-SoundWrites d (read_campaign_staging staging) _ (λ c _.
      and_then-SoundWrites d (read_run run_id d.run) _ (λ s e.
        and_then-SoundWrites d (read_ledger d.ledger) _ (λ l _.
          either-SoundWrites d (ltb 0 (length l.passes)) _ _ (λ _. tt)
            (λ _.
              either-SoundWrites d (ltb 0 (length s.passes) && not s.campaign_required) _ _
                (λ _. tt)
                (λ _.
                  either-SoundWrites d (not (fits c)) _ _ (λ _. tt)
                    (λ _. (g, (read_run-Sound run_id d.captures d.run g e, tt))))))))

append_grown-SoundWrites :
    (fits : Campaign → Bool) (d : Disk) (s : RunState) (o : Option (List Axis))
    → SoundDisk d
    → SoundState d.captures s
    → SoundWrites d (append_grown fits s o).writes
unfolding append_grown refuse reply queue_campaign_saved queue_event apply
append_grown-SoundWrites fits d s none g h = tt
append_grown-SoundWrites fits d s (some axes) g h =
    let c : Campaign = record { axes = axes } in
    either-SoundWrites d (validate_campaign c && fits c)
      (reply (write_campaign c ∷ (write_run (queue_campaign_saved c s) ∷ [])) tt)
      (refuse invalid_staging) (λ _. (g, (h, tt))) (λ _. tt)

pub append_campaign-SoundWrites :
    (fits : Campaign → Bool) (run_id : String) (n : ℕ) (staging : File Campaign) (d : Disk)
    → SoundDisk d
    → SoundWrites d (append_campaign fits run_id n staging d).writes
unfolding append_campaign append_to refuse
append_campaign-SoundWrites fits run_id n staging d g =
    either-SoundWrites d (ltb n 2) _ _ (λ _. tt)
      (λ _. and_then-SoundWrites d (read_campaign_staging staging) _ (λ a _.
        and_then-SoundWrites d (read_run run_id d.run) _ (λ s e.
          and_then-SoundWrites d (read_campaign d.campaign) _ (λ c _.
            and_then-SoundWrites d (read_ledger d.ledger) _ (λ l _.
              either-SoundWrites d (not (validate_persisted_data s c l)) _ _ (λ _. tt)
                (λ _.
                  either-SoundWrites d (not s.wave_open || not (s.wave == n)) _ _ (λ _. tt)
                    (λ _.
                      either-SoundWrites d (any_recorded n l.passes) _ _ (λ _. tt)
                        (λ _.
                          either-SoundWrites d (not (check_append_budget c l a n)) _ _ (λ _. tt)
                            (λ _.
                              append_grown-SoundWrites fits d s (add_axes n c.axes a.axes) g
                                (read_run-Sound run_id d.captures d.run g e))))))))))
