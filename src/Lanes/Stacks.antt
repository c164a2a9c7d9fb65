-- ===== src/Lanes/Stacks.antt =====
-- internal/lanes/daemon/daemon.go and start of stack.go: the stacks that lanesd watches. A time is a number of
-- nanoseconds, and 0 is Go's zero time. A map of stacks is the list of its values, each with its key in
-- admin_dir, in the order of one iteration.
pub mod Grace
pub mod Patience
pub mod Progress
use homebrew_tools.Prelude.{
  ℕ, ◌+◌, String, Bool, true, false, not, ◌&&◌, ◌||◌, Option, none, some, List, [], ◌∷◌, ◌++◌, ◌==◌,
  ltb, str_eq, if◌then◌else◌, any, map, count, has_prefix,
}
use Prim.Native.String.{◌++◌ as append_text}
use homebrew_tools.Lanes.Procs.{Proc, named_as, under}
use homebrew_tools.Lanes.Sweep.{Keep, sweep_targets}

abbrev pub notify_window : ℕ
notify_window = 60000000000

pub record Stack : Type 0 where
  pub root : String
  pub admin_dir : String
  pub common_dir : String
  pub tmp : String
  pub kept : Keep
  pub running : Bool
  pub grace_until : ℕ
  pub notify_until : ℕ
  pub sessions : ℕ
  pub tearing : Bool

-- `find`
unfoldable pub find_stack : List Stack → String → Option Stack
find_stack [] root = none
find_stack (s ∷ ss) root = if str_eq s.root root then some s else find_stack ss root

-- `get`: the stack of the same worktree, or the given one, added.
unfoldable pub get_stack : List Stack → Stack → List Stack × Stack
get_stack [] s = (s ∷ [], s)
get_stack (cur ∷ ss) s =
    let rest = get_stack ss s in
    if str_eq cur.admin_dir s.admin_dir then (cur ∷ ss, cur) else (cur ∷ rest.0, rest.1)

-- One stack in `notify`, where the symbolic links of root are resolved.
unfoldable pub notify_stack : ℕ → String → Stack → Stack
notify_stack now root s =
    if s.running && (str_eq s.root root || has_prefix root (append_text s.root "/"))
    then record s { notify_until = now + notify_window }
    else s

unfoldable pub notify : ℕ → String → List Stack → List Stack
notify now root ss = map (notify_stack now root) ss

unfoldable pub notifying : ℕ → List Stack → Bool
notifying now ss = any (λ s. s.running && ltb now s.notify_until) ss

pub record StackStatus : Type 0 where
  pub admin_dir : String
  pub running : Bool
  pub sessions : ℕ
  pub grace_until : Option ℕ

-- `list`
unfoldable pub list_stacks : List Stack → List StackStatus
list_stacks ss =
    map
      (λ s. record {
        admin_dir = s.admin_dir;
        running = s.running;
        sessions = s.sessions;
        grace_until = if s.grace_until == 0 then none else some s.grace_until;
      })
      ss

unfoldable pub sessions_in : Stack → List Proc → ℕ
sessions_in s procs = count (λ p. under s.root p && named_as s.kept.sessions p) procs

unfoldable pub set_running : Bool → Stack → Stack
set_running running s =
    if running
    then record s { running = true }
    else record s { running = false; grace_until = 0; notify_until = 0; sessions = 0 }

-- The answers of `verdict`: no reason, "the last session ended", and "no session came back within the
-- grace period".
pub data Reason : Type 0 where
  stays session_ended grace_over : Reason

abbrev pub is_stays : Reason → Bool
is_stays stays = true
is_stays _ = false

-- A stack after `verdict`, its answer, and whether it touched the activity file of the worktree.
pub record Verdict : Type 0 where
  pub stack : Stack
  pub reason : Reason
  pub touched : Bool

unfoldable pub verdict_for : ℕ → ℕ → ℕ → Stack → Verdict
verdict_for grace now n s =
    if ltb 0 n
    then record {
      stack = record s {
        sessions = n;
        grace_until = 0;
        notify_until = if ltb now s.notify_until then s.notify_until else 0;
      };
      reason = stays;
      touched = true;
    }
    else (if ltb now s.notify_until
        then record { stack = record s { sessions = n }; reason = session_ended; touched = false }
        else (if s.grace_until == 0
            then record {
              stack = record s { sessions = n; grace_until = now + grace };
              reason = stays;
              touched = false;
            }
            else record {
              stack = record s { sessions = n };
              reason = if ltb now s.grace_until then stays else grace_over;
              touched = false;
            }))

-- `verdict`
unfoldable pub verdict : ℕ → ℕ → List Proc → Stack → Verdict
verdict grace now procs s = verdict_for grace now (sessions_in s procs) s

-- What a tick meets at one stack: whether its worktree is gone, whether its process-compose answers,
-- whether its lock is free, the snapshot and the time.
pub record Seen : Type 0 where
  pub gone : Bool
  pub alive : Bool
  pub unlocked : Bool
  pub procs : List Proc
  pub now : ℕ

-- The switch of `tick`.
unfoldable pub adjust_running : Seen → Stack → Stack
adjust_running e s =
    if s.running && not e.alive
    then set_running false s
    else (if not s.running && e.alive && e.unlocked then set_running true s else s)

-- A stack after the loop of `tick`, the reason of the teardown that it asks for, and whether `verdict` touched.
unfoldable pub tick_stack : ℕ → Seen → Stack → Verdict
tick_stack grace e s =
    if e.gone || s.tearing
    then record { stack = s; reason = stays; touched = false }
    else (if not e.alive
        then record { stack = adjust_running e s; reason = stays; touched = false }
        else verdict grace e.now e.procs (adjust_running e s))

-- The first half of `teardownLater`: the stack is marked, unless it already was.
unfoldable pub ask_teardown : Reason → Stack → Stack
ask_teardown stays s = s
ask_teardown session_ended s = record s { tearing = true }
ask_teardown grace_over s = record s { tearing = true }

-- What a teardown did: whether it asked process-compose to stop, and the processes that it ended, where
-- the loops of the sweep do not run out of fuel.
pub record Teardown : Type 0 where
  pub stack : Stack
  pub downed : Bool
  pub ended : Option (List Proc)

-- `sweep`, where the snapshot is `none` if it failed.
unfoldable pub sweep : Bool → ℕ → Option (List Proc) → Stack → Option (List Proc)
sweep yields self none s = some []
sweep yields self (some procs) s =
    if yields && ltb 0 (sessions_in s procs)
    then some []
    else sweep_targets procs s.root s.kept self

-- `teardownLocked`
unfoldable pub teardown_locked : Bool → ℕ → Bool → Option (List Proc) → Stack → Teardown
teardown_locked yields self alive snapshot s = record {
  stack = set_running false s;
  downed = alive;
  ended = sweep yields self snapshot s;
}

-- What the background half of `teardownLater` meets: the snapshot under the lock and the time, whether
-- process-compose answers, and the snapshot of the sweep.
pub record Later : Type 0 where
  pub first : Option (List Proc)
  pub now : ℕ
  pub alive : Bool
  pub second : Option (List Proc)

unfoldable pub has_session : Stack → Option (List Proc) → Bool
has_session s none = false
has_session s (some procs) = ltb 0 (sessions_in s procs)

unfoldable pub recheck : ℕ → ℕ → Option (List Proc) → Stack → Stack
recheck grace now none s = s
recheck grace now (some procs) s = (verdict grace now procs s).stack

unfoldable pub teardown_later : ℕ → ℕ → Later → Stack → Teardown
teardown_later grace self l s =
    if has_session s l.first
    then record {
      stack = record (recheck grace l.now l.first s) { tearing = false };
      downed = false;
      ended = some [];
    }
    else (let t = teardown_locked true self l.alive l.second s in
        record { stack = record (t.stack) { tearing = false }; downed = t.downed; ended = t.ended })

-- What a start meets: the workspace, whether process-compose answers, the outcome of the launch, and the
-- snapshot after it.
pub record Start : Type 0 where
  pub root : String
  pub common_dir : String
  pub tmp : String
  pub kept : Keep
  pub alive : Bool
  pub launched : Bool
  pub procs : Option (List Proc)
  pub now : ℕ

-- The answer of a start: `none` is an error.
pub record Started : Type 0 where
  pub stack : Stack
  pub answer : Option (Bool × Bool)

unfoldable pub begin_start : Start → Stack → Stack
begin_start r s = record s {
  root = r.root;
  common_dir = r.common_dir;
  tmp = r.tmp;
  kept = r.kept;
  notify_until = 0;
}

unfoldable pub settle_start : ℕ → ℕ → ℕ → Stack → Stack
settle_start grace now n s = record s {
  running = true;
  sessions = n;
  grace_until = if (n == 0) && (s.grace_until == 0) then now + grace else s.grace_until;
}

-- `start` under the lock of the stack; the answer has AlreadyRunning and NoSession.
unfoldable pub start_locked : ℕ → Start → Stack → Started
start_locked grace r s =
    let b = begin_start r s in
    if not r.alive && not r.launched then record { stack = b; answer = none } else elim r.procs [
      | none ↦ record { stack = b; answer = none }
      | some procs ↦ record {
        stack = settle_start grace r.now (sessions_in b procs) b;
        answer = some (r.alive, sessions_in b procs == 0);
      }
    ]
