-- ===== src/Forge/Runs.antt =====
-- internal/atelierd/forge: the directories that a run can have, after any commands, each cut short
-- after any number of its writes, and after any deliveries of its events.
use homebrew_tools.Prelude.{
  ℕ, zero, suc, String, Bool, true, false, List, [], ◌∷◌, ◌≡◌, refl, subst, arith, if_elim, str_eq,
  ltb, ◌||◌, ◌==◌, ℤ, pos, negsuc,
}
use homebrew_tools.Forge.Types.{
  Result, ok, err, other, max_text_bytes, max_id_bytes, Event, RunState, Campaign, Outcome, File,
  missing, decoded, Disk, Write, write_run, apply, run_start,
}
use homebrew_tools.Forge.Store.{read_run, flush_events, flush_run, flush_pending, queue_event}
use homebrew_tools.Forge.Waves.{
  start, new_run, open_wave, close_wave, set_ref, trim_left, trim_right,
}
use homebrew_tools.Forge.Passes.{next_pass, record_outcome}
use homebrew_tools.Forge.Campaigns.{save_campaign, append_campaign}
use homebrew_tools.Forge.Invariant.{SoundState, SoundDisk, SoundWrites, read_run-Sound}
use homebrew_tools.Forge.Steps.{open_wave-SoundWrites, close_wave-SoundWrites, set_ref-SoundWrites}
use homebrew_tools.Forge.PassSteps.{next_pass-SoundWrites}
use homebrew_tools.Forge.OutcomeSteps.{
  record_outcome-SoundWrites, save_campaign-SoundWrites, append_campaign-SoundWrites,
}
use Prim.Native.String.{len}

-- The first n writes of a sequence, done.
abbrev pub apply_first : ℕ → List Write → Disk → Disk
apply_first zero ws d = d
apply_first (suc n) [] d = d
apply_first (suc n) (w ∷ ws) d = apply_first n ws (apply d w)

-- The writes that a command, or the delivery behind it, can do.
pub data Command (fits : Campaign → Bool) (run_id : String) (d : Disk) : List Write → Type 0 where
  opens_wave : Command fits run_id d (open_wave run_id d).writes
  closes_wave : (fixed : ℤ) → Command fits run_id d (close_wave run_id fixed d).writes
  takes_pass : (kind : String) → Command fits run_id d (next_pass run_id kind d).writes
  records :
      (pass_id : String) (staging : File (List Outcome))
      → Command fits run_id d (record_outcome run_id pass_id staging d).writes
  saves :
      (staging : File Campaign) → Command fits run_id d (save_campaign fits run_id staging d).writes
  appends :
      (n : ℕ) (staging : File Campaign)
      → Command fits run_id d (append_campaign fits run_id n staging d).writes
  sets_ref : (key value : String) → Command fits run_id d (set_ref run_id key value d).writes
  delivers : (answers : List Bool) → Command fits run_id d (flush_pending answers run_id d).0

-- The directories that the run started so can have.
pub data Reached (fits : Campaign → Bool) (run_id ticket session : String) (cap : ℤ)
    : Disk → Type 0 where
  starts :
      {d : Disk} → start run_id ticket session cap ≡ ok d → Reached fits run_id ticket session cap d
  goes_on :
      {d : Disk} {ws : List Write} (n : ℕ)
      → Reached fits run_id ticket session cap d
      → Command fits run_id d ws
      → Reached fits run_id ticket session cap (apply_first n ws d)

apply_first-Sound :
    (n : ℕ) (ws : List Write) (d : Disk)
    → SoundDisk d
    → SoundWrites d ws
    → SoundDisk (apply_first n ws d)
apply_first-Sound zero ws d g h = g
apply_first-Sound (suc n) [] d g h = g
apply_first-Sound (suc n) (w ∷ ws) d g h = apply_first-Sound n ws (apply d w) h.0 h.1

flush_events-SoundWrites :
    (answers : List Bool) (d : Disk) (s : RunState) (es : List Event)
    → SoundState d.captures s
    → SoundWrites d (flush_events answers s es).0
unfolding flush_events apply
flush_events-SoundWrites answers d s [] h = tt
flush_events-SoundWrites [] d s (e ∷ es) h = tt
flush_events-SoundWrites (false ∷ answers) d s (e ∷ es) h = tt
flush_events-SoundWrites (true ∷ answers) d s (e ∷ es) h =
    let left : RunState = record s { pending_events = es } in
    (h, flush_events-SoundWrites answers (apply d (write_run left)) left es h)

flush_run-SoundWrites :
    (answers : List Bool) (d : Disk) (r : Result RunState)
    → ((s : RunState) → r ≡ ok s → SoundState d.captures s)
    → SoundWrites d (flush_run answers r).0
unfolding flush_run
flush_run-SoundWrites answers d (err e) h = tt
flush_run-SoundWrites answers d (ok s) h =
    flush_events-SoundWrites answers d s s.pending_events (h s refl)

Command-SoundWrites :
    (fits : Campaign → Bool) (run_id : String) (d : Disk) (ws : List Write)
    → Command fits run_id d ws
    → SoundDisk d
    → SoundWrites d ws
unfolding flush_pending
Command-SoundWrites fits run_id d _ opens_wave g = open_wave-SoundWrites run_id d g
Command-SoundWrites fits run_id d _ (closes_wave fixed) g = close_wave-SoundWrites run_id fixed d g
Command-SoundWrites fits run_id d _ (takes_pass kind) g = next_pass-SoundWrites run_id kind d g
Command-SoundWrites fits run_id d _ (records pass_id staging) g =
    record_outcome-SoundWrites run_id pass_id staging d g
Command-SoundWrites fits run_id d _ (saves staging) g =
    save_campaign-SoundWrites fits run_id staging d g
Command-SoundWrites fits run_id d _ (appends n staging) g =
    append_campaign-SoundWrites fits run_id n staging d g
Command-SoundWrites fits run_id d _ (sets_ref key value) g =
    set_ref-SoundWrites run_id key value d g
Command-SoundWrites fits run_id d _ (delivers answers) g =
    flush_run-SoundWrites answers d (read_run run_id d.run)
      (λ s e. read_run-Sound run_id d.captures d.run g e)

new_run-Sound :
    (run_id ticket session : String) (cap : ℕ) → SoundState [] (new_run run_id ticket session cap)
new_run-Sound run_id ticket session cap = record {
  capped = omega arith;
  counted = refl;
  numbered = tt;
  flags = refl;
  captured = tt;
  distinct = tt;
}

start-Sound :
    (run_id ticket session : String) (cap : ℤ) {d : Disk}
    → start run_id ticket session cap ≡ ok d
    → SoundDisk d
unfolding start queue_event
start-Sound run_id ticket session (negsuc n) h = cc
start-Sound run_id ticket session (pos cap) {d = d} h =
    let clean = trim_right (trim_left ticket) in
    let made : Disk = record {
      run = decoded (queue_event (run_start clean cap) (new_run run_id clean session cap));
      campaign = missing;
      ledger = missing;
      captures = [];
    } in
    if_elim (λ r. r ≡ ok d → SoundDisk d)
      (str_eq clean ""
        || ltb max_text_bytes (len clean)
        || str_eq session ""
        || ltb max_id_bytes (len session)
        || (cap == 0))
      (err other) (ok made) (λ _ k. absurd (ground (arith, k)))
      (λ _ k. let q : made ≡ d = cc k in subst SoundDisk q (new_run-Sound run_id clean session cap))
      h

-- In every directory that a run can have, wherever its commands were cut short: the waves are at most
-- the cap, they are numbered from 1 and the state's number is the last one's, no wave is open but the
-- last, which is when the state says so, every pass has its capture directory, and no two passes have
-- the same ID.
pub Reached-Sound :
    (fits : Campaign → Bool) (run_id ticket session : String) (cap : ℤ) (d : Disk)
    → Reached fits run_id ticket session cap d
    → SoundDisk d
Reached-Sound fits run_id ticket session cap d (starts e) = start-Sound run_id ticket session cap e
Reached-Sound fits run_id ticket session cap _ (goes_on {d = d} {ws = ws} n r c) =
    let g = Reached-Sound fits run_id ticket session cap d r in
    apply_first-Sound n ws d g (Command-SoundWrites fits run_id d ws c g)
