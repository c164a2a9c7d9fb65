-- ===== src/Lanes/StackTests.antt =====
-- Tests of the stacks that lanesd watches.
use homebrew_tools.Prelude.{
  ℕ, ◌+◌, ◌<◌, true, false, [], ◌∷◌, Memᴰ, ◌≡◌, refl, ◌⊎◌, arith, str_eq, base, trim_prefix,
  has_prefix,
}
use homebrew_tools.Lanes.Procs.{Proc, named_as, goes_by, names, names_of, under}
use homebrew_tools.Lanes.Stacks.{
  Stack, Seen, stays, session_ended, grace_over, is_stays, sessions_in, set_running, verdict_for,
  verdict, adjust_running, tick_stack, ask_teardown, notify_stack,
}
use homebrew_tools.Lanes.Stacks.Grace.{Observed, observe, Reached}
use homebrew_tools.Lanes.Stacks.Grace.Reached.{added, ticked}
use homebrew_tools.Lanes.Stacks.Patience.{tick_stack-Patient}
use homebrew_tools.Lanes.Stacks.Progress.{asks, Idle, asks-Idle}

abbrev server : Proc
server = record { pid = 102; ppid = 1; pgid = 102; comm = "node"; argv = []; cwd = "/w/app" }

abbrev stack : Stack
stack = record {
  root = "/w";
  admin_dir = "/r/.git/worktrees/w";
  common_dir = "/r/.git";
  tmp = "/tmp/w";
  kept = record { sessions = "claude" ∷ []; shared = []; spare = [] };
  running = true;
  grace_until = 0;
  notify_until = 0;
  sessions = 0;
  tearing = false;
}

abbrev seen : ℕ → Seen
seen now = record { gone = false; alive = true; unlocked = true; procs = server ∷ []; now = now }

ticks_run :
    ((tick_stack 300 (seen 10) stack).reason ≡ stays)
    × (((tick_stack 300 (seen 310) (tick_stack 300 (seen 10) stack).stack).reason ≡ grace_over)
        × ((tick_stack 300 (seen 11) (notify_stack 10 "/w/app" stack)).reason ≡ session_ended))
unfolding tick_stack verdict verdict_for adjust_running set_running sessions_in notify_stack under
    named_as goes_by names names_of trim_prefix has_prefix str_eq base
ticks_run = (refl, (refl, refl))

Idle-at : (now : ℕ) → Idle stack (seen now)
unfolding sessions_in under named_as goes_by names names_of trim_prefix has_prefix str_eq base
Idle-at now = record { there = refl; answers = refl; empty = refl }

asks-Idle_example : asks 300 (seen 10 ∷ (seen 200 ∷ (seen 320 ∷ []))) stack ≡ true
asks-Idle_example =
    asks-Idle 300 (seen 10) (seen 200 ∷ (seen 320 ∷ [])) stack refl
      (Idle-at 10, (Idle-at 200, (Idle-at 320, tt))) (omega arith) (omega arith) (omega arith)

-- The tick that ends the grace period.
abbrev waiting : Stack
waiting = record stack { grace_until = 310 }

waiting_asks : is_stays (tick_stack 300 (seen 310) waiting).reason ≡ false
unfolding tick_stack verdict verdict_for adjust_running set_running sessions_in under named_as
    goes_by names names_of trim_prefix has_prefix str_eq base
waiting_asks = refl

waiting-Reached : Reached 300 7 waiting 10 (observe (seen 10) stack [])
unfolding ask_teardown tick_stack verdict verdict_for adjust_running set_running sessions_in under
    named_as goes_by names names_of trim_prefix has_prefix str_eq base
waiting-Reached = ticked stack 0 [] (seen 10) (added stack 0 refl) (omega arith)

tick_stack-Patient_example :
    (sessions_in waiting (seen 310).procs ≡ 0)
    × ((((tick_stack 300 (seen 310) waiting).reason ≡ session_ended) × (310 < waiting.notify_until))
        ⊎ ((o : Observed)
            → Memᴰ o (observe (seen 310) waiting (observe (seen 10) stack []))
            → 310 < o.at + 300
            → o.sessions ≡ 0))
tick_stack-Patient_example =
    tick_stack-Patient 300 7 waiting 10 (observe (seen 10) stack []) (seen 310) waiting-Reached
      (omega arith) waiting_asks
