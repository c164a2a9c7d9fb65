-- ===== src/Lanes/Signals.antt =====
-- internal/lanes/daemon/sweep.go: the signals that a teardown sends (`Signals`, `send`), and the wait for
-- its targets to end (`End`).
pub mod Exact
use homebrew_tools.Prelude.{
  ℕ, String, Bool, true, false, not, ◌&&◌, ◌||◌, Option, none, some, List, [], ◌∷◌, ◌++◌, ◌==◌, ltb,
  str_eq, if◌then◌else◌, any, keep, map,
}
use homebrew_tools.Lanes.Procs.{Proc, holds, by_pid}

pub record Signal : Type 0 where
  pub pid : ℕ
  pub group : Bool

unfoldable pub ids : List Proc → List ℕ
ids [] = []
ids (p ∷ ps) = p.pid ∷ ids ps

-- Whether a process of the group is not a target.
unfoldable pub has_other : List Proc → List ℕ → ℕ → Bool
has_other [] targets g = false
has_other (p ∷ ps) targets g = (p.pgid == g && not (holds p.pid targets)) || has_other ps targets g

unfoldable pub whole : List Proc → List ℕ → ℕ → ℕ → Bool
whole procs targets own_group g = ltb 1 g && not (g == own_group) && not (has_other procs targets g)

-- The loop over the targets, with the groups already signalled.
unfoldable pub signals_from : List Proc → List ℕ → ℕ → List Proc → List ℕ → List Signal
signals_from procs targets own_group [] done = []
signals_from procs targets own_group (t ∷ ts) done =
    if whole procs targets own_group t.pgid
    then (if holds t.pgid done
        then signals_from procs targets own_group ts done
        else record { pid = t.pgid; group = true }
          ∷ signals_from procs targets own_group ts (t.pgid ∷ done))
    else record { pid = t.pid; group = false } ∷ signals_from procs targets own_group ts done

-- `Signals`
unfoldable pub signals : List Proc → List Proc → ℕ → List Signal
signals procs targets own_group = signals_from procs (ids targets) own_group targets []

-- The targets that a snapshot still has, under the same command.
unfoldable pub left_alive : List Proc → List Proc → List Proc
left_alive procs [] = []
left_alive procs (t ∷ ts) =
    let rest = left_alive procs ts in
    elim (by_pid procs t.pid) [
      | none ↦ rest
      | some p ↦ if str_eq p.comm t.comm then p ∷ rest else rest
    ]

-- What a round of the wait meets: the snapshot, `none` where it failed, whether the patience is over,
-- and whether the caller has given up.
pub record Round : Type 0 where
  pub snapshot : Option (List Proc)
  pub late : Bool
  pub cancelled : Bool

-- The loop of `End`: the IDs that get SIGKILL, and `none` while it waits for a further round.
unfoldable pub wait_end : List Proc → List Round → Option (List ℕ)
wait_end targets [] = none
wait_end targets (r ∷ rs) =
    let rest = wait_end targets rs in
    elim r.snapshot [
      | none ↦ some []
      | some procs ↦ elim (left_alive procs targets) [
        | [] ↦ some []
        | p ∷ ps ↦ if r.late then some (ids (p ∷ ps)) else (if r.cancelled then some [] else rest)
      ]
    ]
