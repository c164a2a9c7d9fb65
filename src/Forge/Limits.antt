-- ===== src/Forge/Limits.antt =====
-- internal/atelierd/forge: the limits that reading a run applies, against what the commands write.
use homebrew_tools.Prelude.{
  ℕ, suc, ◌+◌, ◌<◌, String, true, ◌&&◌, [], ◌∷◌, ◌++◌, lt→ltb, leb, str_eq, length, length-append,
  ◌≡◌, none, subst, ◌∙◌, inl, inr, arith, Bool-cases, if_elim,
}
use homebrew_tools.Forge.Types.{
  max_waves, err, other, RunState, decoded, write_run, Reply, wave_opened, Wave, wave_cap,
  invalid_pass,
}
use homebrew_tools.Forge.Store.{within_limits, checked_run, read_run, queue_event, refuse, reply}
use homebrew_tools.Forge.Waves.{open_next}

-- A state with too many waves is refused.
overfull :
    (run_id : String) (s : RunState)
    → max_waves < length s.waves
    → read_run run_id (decoded s) ≡ err other
unfolding read_run checked_run within_limits
overfull run_id s h = elim (Bool-cases (str_eq s.run_id run_id && within_limits s)) [
  | inr e ↦ rw e
  | inl e ↦ absurd (ground (arith, e, h, lt→ltb max_waves (length s.waves) h))
]

open_next-length :
    (s : RunState) {s' : RunState}
    → (open_next s).writes ≡ write_run s' ∷ []
    → length s'.waves ≡ suc (length s.waves)
unfolding open_next reply refuse queue_event
open_next-length s {s' = s'} h =
    let n = s.wave + 1 in
    let opened : Wave = record { number = n; is_open = true; findings = none; fixed = none } in
    let grown : RunState = record s {
      wave = n;
      wave_open = true;
      waves = s.waves ++ (opened ∷ []);
    } in
    let Goal : Reply ℕ → Type 0 =
      λ r. r.writes ≡ write_run s' ∷ [] → length s'.waves ≡ suc (length s.waves) in
    if_elim Goal s.wave_open (refuse invalid_pass) _ (λ _ k. absurd (ground (arith, k)))
      (λ _.
        if_elim Goal (leb s.cap s.wave) (refuse wave_cap) _ (λ _ k. absurd (ground (arith, k)))
          (λ _ k.
            let q : queue_event (wave_opened n) grown ≡ s' = cc k in
            subst (λ (t : RunState). length t.waves ≡ suc (length s.waves)) q
              (length-append s.waves (opened ∷ []) ∙ omega arith)))
      h

-- Once a run has opened its 64 waves, opening one more, which a cap over 64 allows, writes a state that
-- every later command refuses to read.
pub open_next_overfull :
    (run_id : String) (s : RunState) {s' : RunState}
    → length s.waves ≡ max_waves
    → (open_next s).writes ≡ write_run s' ∷ []
    → read_run run_id (decoded s') ≡ err other
open_next_overfull run_id s {s' = s'} full h =
    overfull run_id s' (omega (arith, open_next-length s h, full))
