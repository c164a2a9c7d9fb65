-- ===== src/Lanes/Sweep.antt =====
-- internal/lanes/daemon/sweep.go: which processes a teardown stops, and the signals it sends.
-- A loop over a queue has fuel, and `none` is fuel that ran out.
pub mod Search
pub mod Helpers
pub mod Targets
pub mod Orphans
use homebrew_tools.Prelude.{
  ℕ, zero, suc, ◌+◌, String, Bool, true, false, not, ◌&&◌, ◌||◌, Option, none, some, List, [], ◌∷◌,
  ◌++◌, ◌==◌, ltb, leb, str_eq, if◌then◌else◌, any, keep, length,
}
use homebrew_tools.Lanes.Procs.{Proc, shells, named_as, runs, under, by_pid, holds}

abbrev pub editors : List String
editors =
    "vim" ∷ "nvim" ∷ "nano" ∷ "emacs" ∷ "code" ∷ "Code" ∷ "cursor" ∷ "Cursor" ∷ "Electron" ∷ "zed"
    ∷ "hx" ∷ []

abbrev pub terminals : List String
terminals = "tmux" ∷ "screen" ∷ "zellij" ∷ "herdr" ∷ "login" ∷ []

abbrev pub own : List String
own = "lanes" ∷ "lanesd" ∷ []

unfoldable pub builtin_spare : List String
builtin_spare = shells ++ (editors ++ (terminals ++ own))

pub record Keep : Type 0 where
  pub sessions : List String
  pub shared : List String
  pub spare : List String

-- What a search has collected, and what it has still to expand.
pub record Frontier : Type 0 where
  pub out : List ℕ
  pub queue : List ℕ

-- A child that the search may descend to, and the test against those already collected.
unfoldable pub launches : Bool → ℕ → Proc → Bool
launches stop_at_shells pid c = (c.ppid == pid) && not (stop_at_shells && named_as shells c)

unfoldable pub descends : Bool → ℕ → Proc → List ℕ → Bool
descends stop_at_shells pid c out = launches stop_at_shells pid c && not (holds c.pid out)

unfoldable pub collect : ℕ → Frontier → Frontier
collect pid s = record { out = pid ∷ s.out; queue = s.queue ++ (pid ∷ []) }

-- The loop over the children of a process.
unfoldable pub visit : Bool → ℕ → List Proc → Frontier → Frontier
visit stop pid [] s = s
visit stop pid (c ∷ cs) s =
    visit stop pid cs (if descends stop pid c s.out then collect c.pid s else s)

unfoldable pub search : ℕ → Bool → List Proc → List ℕ → List ℕ → Option (List ℕ)
search fuel stop procs out [] = some out
search zero stop procs out (pid ∷ queue) = none
search (suc fuel) stop procs out (pid ∷ queue) =
    let s = visit stop pid procs (record { out = out; queue = queue }) in
    search fuel stop procs s.out s.queue

unfoldable pub pids_named : List String → List Proc → List ℕ
pids_named roots [] = []
pids_named roots (p ∷ ps) =
    let rest = pids_named roots ps in if named_as roots p then p.pid ∷ rest else rest

-- `helpersOf`. Each round takes an ID off the queue, and each ID is queued at most twice.
unfoldable pub helpers_of : List Proc → List String → Bool → Option (List ℕ)
helpers_of procs roots stop =
    search (length procs + length procs) stop procs [] (pids_named roots procs)

-- The walk up from one process, `none` at a process that is not in the snapshot.
unfoldable pub climb : ℕ → List Proc → ℕ → List ℕ → Option (List ℕ)
climb zero procs pid out = none
climb (suc fuel) procs pid out =
    if leb pid 1 || holds pid out then some out else elim (by_pid procs pid) [
      | none ↦ some (pid ∷ out)
      | some parent ↦ climb fuel procs parent.ppid (pid ∷ out)
    ]

-- `launchersOf` on the processes left. Each round of a walk collects another ID.
unfoldable pub launchers_from : List String → List Proc → List Proc → List ℕ → Option (List ℕ)
launchers_from roots procs [] out = some out
launchers_from roots procs (p ∷ ps) out =
    if named_as roots p
    then elim (climb (length procs + 2) procs p.ppid out) [
      | none ↦ none
      | some more ↦ launchers_from roots procs ps more
    ]
    else launchers_from roots procs ps out

unfoldable pub launchers_of : List Proc → List String → Option (List ℕ)
launchers_of procs roots = launchers_from roots procs procs []

unfoldable pub spared : Keep → Proc → Bool
spared k p = named_as builtin_spare p || named_as k.sessions p || runs k.shared p || runs k.spare p

unfoldable pub is_target : String → Keep → ℕ → List ℕ → Proc → Bool
is_target root k self helpers p =
    not ((p.pid == self) || leb p.pid 1 || holds p.pid helpers || not (under root p))
    && not (spared k p)

-- The three sets of helpers, merged.
unfoldable pub all_helpers : List Proc → Keep → Option (List ℕ)
all_helpers procs k = elim (helpers_of procs (k.sessions ++ editors) true) [
  | none ↦ none
  | some a ↦ elim (helpers_of procs own false) [
    | none ↦ none
    | some b ↦ elim (launchers_of procs (k.sessions ++ (editors ++ own))) [
      | none ↦ none
      | some c ↦ some (a ++ (b ++ c))
    ]
  ]
]

-- `SweepTargets`
unfoldable pub sweep_targets : List Proc → String → Keep → ℕ → Option (List Proc)
sweep_targets procs root k self = elim (all_helpers procs k) [
  | none ↦ none
  | some helpers ↦ some (keep (is_target root k self helpers) procs)
]
