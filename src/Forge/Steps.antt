-- ===== src/Forge/Steps.antt =====
-- internal/atelierd/forge/ops.go: each command's writes keep a run's directory sound.
use homebrew_tools.Prelude.{
  ℕ, suc, String, Bool, false, not, Option, none, some, List, [], ◌∷◌, ◌++◌, ◌||◌, ltb, leb, ◌==◌,
  str_eq, length, length-append, ◌≡◌, sym, ◌∙◌, subst, refl, arith, ap, if_elim, find, ℤ, pos,
  negsuc,
}
use Prim.Native.String.{len}
use homebrew_tools.Forge.Types.{
  max_text_bytes, Wave, Pass, RunState, Campaign, Ledger, Disk, Reply, apply,
}
use homebrew_tools.Forge.Store.{
  refuse, reply, read_run, read_campaign_if_present, read_ledger, validate_campaign_and_ledger,
  queue_event,
}
use homebrew_tools.Forge.Waves.{
  open_next, open_wave, read_all, adopt, adopt_writes, prefix_writes, close_last, close_with,
  close_pass, close_current, close_wave, set_report, set_testplan, set_ref, wave_findings,
  wave_pass,
}
use homebrew_tools.Forge.Invariant.{
  Flags, Numbered, SoundState, SoundDisk, SoundWrites, Numbered-append, Flags-append,
  read_run-Sound, and_then-SoundWrites, either-SoundWrites,
}

open_next-SoundWrites :
    (d : Disk) (s : RunState) → SoundState d.captures s → SoundWrites d (open_next s).writes
unfolding open_next reply refuse queue_event apply
open_next-SoundWrites d s h =
    either-SoundWrites d s.wave_open _ _ (λ e. tt)
      (λ e.
        either-SoundWrites d (leb s.cap s.wave) _ _ (λ f. tt)
          (λ f. (
            record {
              capped = ground arith;
              counted = length-append s.waves _ ∙ omega (arith, h.counted);
              numbered = Numbered-append 0 s.waves _ h.numbered (omega (arith, h.counted));
              flags = Flags-append s.waves _ (subst (λ b. Flags b s.waves) e h.flags);
              captured = h.captured;
              distinct = h.distinct;
            },
            tt,
          )))

close_last-length : (n m : ℕ) (ws : List Wave) → length (close_last n m ws) ≡ length ws
unfolding close_last
close_last-length n m [] = refl
close_last-length n m (w ∷ []) = refl
close_last-length n m (w ∷ (v ∷ ws)) = ap suc (close_last-length n m (v ∷ ws))

close_last-Numbered : (n m k : ℕ) (ws : List Wave) → Numbered k ws → Numbered k (close_last n m ws)
unfolding close_last
close_last-Numbered n m k [] h = tt
close_last-Numbered n m k (w ∷ []) h = h
close_last-Numbered n m k (w ∷ (v ∷ ws)) h = (h.0, close_last-Numbered n m (suc k) (v ∷ ws) h.1)

close_last-Flags :
    (n m : ℕ) (b : Bool) (ws : List Wave) → Flags b ws → Flags false (close_last n m ws)
unfolding close_last
close_last-Flags n m b [] h = refl
close_last-Flags n m b (w ∷ []) h = refl
close_last-Flags n m b (w ∷ (v ∷ [])) h = (h.0, refl)
close_last-Flags n m b (w ∷ (v ∷ (u ∷ ws))) h = (h.0, close_last-Flags n m b (v ∷ (u ∷ ws)) h.1)

pub adopt-Sound :
    (captures : List String) (c : Option Campaign) (s : RunState)
    → SoundState captures s
    → SoundState captures (adopt c s)
unfolding adopt
adopt-Sound captures none s h = h
adopt-Sound captures (some c) s h = h

close_with-SoundWrites :
    (d : Disk) (fixed : ℕ) (s : RunState) (findings : ℕ)
    → SoundState d.captures s
    → SoundWrites d (close_with fixed s findings).writes
unfolding close_with reply queue_event apply
close_with-SoundWrites d fixed s findings h = (
  record {
    capped = h.capped;
    counted = close_last-length findings fixed s.waves ∙ h.counted;
    numbered = close_last-Numbered findings fixed 0 s.waves h.numbered;
    flags = close_last-Flags findings fixed s.wave_open s.waves h.flags;
    captured = h.captured;
    distinct = h.distinct;
  },
  tt,
)

close_pass-SoundWrites :
    (d : Disk) (fixed : ℕ) (s : RunState) (c : Option Campaign) (l : Ledger)
    (at : Option (ℕ × Pass))
    → SoundState d.captures s
    → SoundWrites d (close_pass fixed s c l at).writes
unfolding close_pass refuse
close_pass-SoundWrites d fixed s c l none h = tt
close_pass-SoundWrites d fixed s c l (some (i, p)) h =
    and_then-SoundWrites d (wave_findings c l s.wave p) (close_with fixed s)
      (λ n e. close_with-SoundWrites d fixed s n h)

close_current-SoundWrites :
    (d : Disk) (fixed : ℕ) (s : RunState) (c : Option Campaign) (l : Ledger)
    → SoundState d.captures s
    → SoundWrites d (close_current fixed s c l).writes
unfolding close_current refuse
close_current-SoundWrites d fixed s c l h =
    either-SoundWrites d (not s.wave_open || (length s.waves == 0)) _ _ (λ e. tt)
      (λ e.
        either-SoundWrites d (not (str_eq s.open_pass "")) _ _ (λ f. tt)
          (λ f. close_pass-SoundWrites d fixed s c l (find (wave_pass s.wave) s.passes) h))

-- The note of a campaign, and then the command's own writes.
pub adopted-SoundWrites :
    {A : Type 0} (d : Disk) (c : Option Campaign) (s : RunState) (r : Reply A)
    → SoundDisk d
    → SoundState d.captures s
    → ((e : Disk) → e.captures ≡ d.captures → SoundDisk e → SoundWrites e r.writes)
    → SoundWrites d (prefix_writes (adopt_writes c s) r).writes
unfolding adopt_writes prefix_writes apply
adopted-SoundWrites d none s r g h k = k d refl g
adopted-SoundWrites d (some c) s r g h k =
    if_elim (λ ws. SoundWrites d (ws ++ r.writes)) s.campaign_required [] _ (λ e. k d refl g)
      (λ e. (h, k _ refl h))

pub read_all-SoundWrites :
    {A : Type 0} (d : Disk) (run_id : String) (next : RunState → Option Campaign → Ledger → Reply A)
    → SoundDisk d
    → ((s : RunState) (c : Option Campaign) (l : Ledger)
        → SoundState d.captures s
        → SoundWrites d (next s c l).writes)
    → SoundWrites d (read_all run_id next d).writes
unfolding read_all
read_all-SoundWrites d run_id next g k = and_then-SoundWrites d (read_run run_id d.run) _ (λ s e.
    and_then-SoundWrites d (read_campaign_if_present d.campaign) _ (λ c _.
      and_then-SoundWrites d (read_ledger d.ledger) _ (λ l _.
        and_then-SoundWrites d (validate_campaign_and_ledger s c l) _
          (λ _ _. k s c l (read_run-Sound run_id d.captures d.run g e)))))

pub open_wave-SoundWrites :
    (run_id : String) (d : Disk) → SoundDisk d → SoundWrites d (open_wave run_id d).writes
unfolding open_wave
open_wave-SoundWrites run_id d g =
    and_then-SoundWrites d (read_run run_id d.run) open_next
      (λ s e. open_next-SoundWrites d s (read_run-Sound run_id d.captures d.run g e))

pub close_wave-SoundWrites :
    (run_id : String) (fixed : ℤ) (d : Disk)
    → SoundDisk d
    → SoundWrites d (close_wave run_id fixed d).writes
unfolding close_wave refuse
close_wave-SoundWrites run_id (negsuc n) d g = tt
close_wave-SoundWrites run_id (pos fixed) d g = read_all-SoundWrites d run_id _ g (λ s c l h.
    adopted-SoundWrites d c s _ g h (λ e q _.
      close_current-SoundWrites e fixed (adopt c s) c l
        (subst (λ x. SoundState x (adopt c s)) (sym q) (adopt-Sound d.captures c s h))))

pub set_ref-SoundWrites :
    (run_id key value : String) (d : Disk)
    → SoundDisk d
    → SoundWrites d (set_ref run_id key value d).writes
unfolding set_ref refuse reply apply set_report set_testplan queue_event
set_ref-SoundWrites run_id key value d g =
    either-SoundWrites d (not (str_eq key "report" || str_eq key "testplan")) _ _ (λ _. tt)
      (λ _.
        either-SoundWrites d (str_eq value "" || ltb max_text_bytes (len value)) _ _ (λ _. tt)
          (λ _. and_then-SoundWrites d (read_run run_id d.run) _ (λ s e. (
            if_elim (SoundState d.captures) (str_eq key "report") _ _
                (λ _. read_run-Sound run_id d.captures d.run g e)
                (λ _. read_run-Sound run_id d.captures d.run g e),
            tt,
          ))))
