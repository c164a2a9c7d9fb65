-- ===== src/Lanes/Tests.antt =====
-- Tests of the lanes modules on a small machine: a session, its shell, a server that the shell started,
-- and a helper of the session.
use homebrew_tools.Prelude.{
  true, none, some, arith, List, [], ◌∷◌, Memᴰ, ◌≡◌, refl, str_eq, base, trim_slashes, after_slash,
  has_char, trim_prefix, has_prefix, has_suffix,
}
use homebrew_tools.Lanes.Procs.{
  Proc, names_of, names, goes_by, named_as, arguments, runs_as, runs, under, by_pid, holds,
}
use homebrew_tools.Lanes.Sweep.{
  Keep, builtin_spare, pids_named, helpers_of, launches, descends, collect, visit, search, climb,
  launchers_from, launchers_of, spared, is_target, all_helpers, sweep_targets,
}
use homebrew_tools.Lanes.Sweep.Helpers.{Collects, helpers_of-Helper}
use homebrew_tools.Lanes.Sweep.Targets.{Stoppable, sweep_targets-Stoppable}
use homebrew_tools.Lanes.Sweep.Orphans.{
  passes, orphan_root, Answers, Grows-Ranked, orphan_root-Answers,
}
use homebrew_tools.Lanes.Signals.{Signal, ids, signals, signals_from, whole, has_other}
use homebrew_tools.Lanes.Signals.Exact.{Aimed, Reached, signals-Aimed}

abbrev session : Proc
session = record {
  pid = 100;
  ppid = 1;
  pgid = 100;
  comm = "claude";
  argv = "/bin/claude" ∷ [];
  cwd = "/w";
}

abbrev shell : Proc
shell = record { pid = 101; ppid = 100; pgid = 101; comm = "zsh"; argv = "-zsh" ∷ []; cwd = "/w" }

abbrev server : Proc
server = record {
  pid = 102;
  ppid = 101;
  pgid = 102;
  comm = "node";
  argv = "node" ∷ "vite" ∷ [];
  cwd = "/w/app";
}

abbrev helper : Proc
helper = record { pid = 103; ppid = 100; pgid = 100; comm = "mcp"; argv = []; cwd = "/w" }

abbrev machine : List Proc
machine = session ∷ (shell ∷ (server ∷ (helper ∷ [])))

abbrev kept : Keep
kept = record { sessions = "claude" ∷ []; shared = []; spare = [] }

helpers_of_run : helpers_of machine ("claude" ∷ []) true ≡ some (103 ∷ [])
unfolding helpers_of search visit descends launches collect pids_named named_as goes_by names
    names_of base trim_slashes after_slash has_char trim_prefix has_prefix holds str_eq
helpers_of_run = refl

sweep_targets_run : sweep_targets machine "/w" kept 7 ≡ some (server ∷ [])
unfolding sweep_targets all_helpers is_target spared builtin_spare runs runs_as arguments
    launchers_of launchers_from climb by_pid under has_suffix helpers_of search visit descends
    launches collect pids_named named_as goes_by names names_of base trim_slashes after_slash
    has_char trim_prefix has_prefix holds str_eq
sweep_targets_run = refl

signals_run :
    signals machine (session ∷ (server ∷ (helper ∷ []))) 9
    ≡ (record { pid = 100; group = true } ∷ (record { pid = 102; group = true } ∷ []))
unfolding signals signals_from whole has_other ids holds
signals_run = refl

helpers_of-Helper_example :
    Collects true machine
      (pids_named ("claude" ∷ []) machine)
      (helpers_of machine ("claude" ∷ []) true)
helpers_of-Helper_example = helpers_of-Helper machine ("claude" ∷ []) true

sweep_targets-Stoppable_example :
    (targets : List Proc) × ((sweep_targets machine "/w" kept 7 ≡ some targets)
      × ((p : Proc) → Memᴰ p targets → Stoppable machine "/w" kept 7 p))
sweep_targets-Stoppable_example = sweep_targets-Stoppable machine "/w" kept 7

signals-Aimed_example :
    ((s : Signal)
      → Memᴰ s (signals machine (server ∷ (helper ∷ [])) 9)
      → Aimed machine (ids (server ∷ (helper ∷ []))) 9 s)
    × ((t : Proc)
        → Memᴰ t (server ∷ (helper ∷ []))
        → Reached (signals machine (server ∷ (helper ∷ [])) 9) t)
signals-Aimed_example = signals-Aimed machine (server ∷ (helper ∷ [])) 9

-- The shell of a crashed stack, and the server that it started.
abbrev stray : Proc
stray = record { pid = 101; ppid = 1; pgid = 101; comm = "bash"; argv = []; cwd = "/w" }

abbrev crashed : List Proc
crashed = stray ∷ (server ∷ [])

orphan_root_run : orphan_root 3 crashed (102 ∷ []) "/w" 102 ≡ some (some stray)
unfolding orphan_root passes by_pid under holds named_as goes_by names names_of base trim_slashes
    after_slash has_char trim_prefix has_prefix str_eq
orphan_root_run = refl

-- A server whose shell still has a session above it has an owner.
owned_run : orphan_root 3 machine (102 ∷ []) "/w" 102 ≡ some none
unfolding orphan_root passes by_pid under holds named_as goes_by names names_of base trim_slashes
    after_slash has_char trim_prefix has_prefix str_eq
owned_run = refl

orphan_root-Answers_example :
    Answers crashed (102 ∷ []) "/w" 102 (orphan_root 103 crashed (102 ∷ []) "/w" 102)
orphan_root-Answers_example =
    orphan_root-Answers crashed (102 ∷ []) "/w" (λ pid. pid) 103 102
      (Grows-Ranked crashed (102 ∷ []) "/w" (omega arith, (omega arith, tt))) (omega arith)
