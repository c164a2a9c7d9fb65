-- ===== src/DeviceBank/Limit/Runs.antt =====
-- The ignition limit along any interleaving of the commands of all sessions and workers.
use homebrew_tools.Prelude.{ℕ, ◌≤◌, String, Bool, Option, List, inl, inr, arith, Bool-cases}
use homebrew_tools.DeviceBank.Types.{Platform, State}
use homebrew_tools.DeviceBank.State.{initialized, max_on, powered_on_count}
use homebrew_tools.DeviceBank.Queue.{drop_expired_waiters}
use homebrew_tools.DeviceBank.Lease.{touch_session}
use homebrew_tools.DeviceBank.Physical.{LeaseRequest, PhysicalProbe}
use homebrew_tools.DeviceBank.Reap.{Toolchain, reap_locked, reap}
use homebrew_tools.DeviceBank.Ops.{
  acquire_locked, settle_boot, leave_queue, pause, release, on_emit, recycle_off, recycle_settle,
}
use homebrew_tools.DeviceBank.Edits.Basic.{Edits-trans}
use homebrew_tools.DeviceBank.Edits.Reconcile.{reap_locked-Edits}
use homebrew_tools.DeviceBank.Edits.Commands.{
  touch_session-Edits, drop_expired_waiters-Edits, reap-Edits, release-Edits, on_emit-Edits,
  leave_queue-Edits, pause-Edits, settle_boot-Edits,
}
use homebrew_tools.DeviceBank.Edits.Recycling.{recycle_off-Edits, recycle_settle-Edits}
use homebrew_tools.DeviceBank.Limit.Steady.{Modern}
use homebrew_tools.DeviceBank.Limit.Granting.{Within, Edits-Within, grant_locked-Within}

acquire_locked-Within :
    {m : ℕ} (tools : Toolchain) (req : LeaseRequest) (probe : PhysicalProbe)
    (excluded vetted : List String) (now deadline : ℕ) (s : State)
    → Within m s
    → Within m (acquire_locked tools req probe excluded vetted now deadline s).0
unfolding acquire_locked
acquire_locked-Within {m} tools req probe excluded vetted now deadline s v =
    elim (Bool-cases (initialized before)) [
      | inl t ↦ rw t (grant_locked-Within before req probe excluded vetted now deadline within)
      | inr t ↦ rw t within
    ]
  where
    before : State
    before =
        (drop_expired_waiters now (touch_session req.session now (reap_locked tools s now).0).0).0

    within : Within m before
    within =
        Edits-Within
          (Edits-trans (reap_locked-Edits tools s now) (
            Edits-trans (touch_session-Edits req.session now _) (drop_expired_waiters-Edits now _)))
          v

-- One locked section, by any session or worker, with whatever the toolchains answer.
pub data BankStep : State → State → Type 0 where
  reaps : (tools : Toolchain) (now : ℕ) (s : State) → BankStep s (reap tools now s).0
  attempts :
      (tools : Toolchain) (req : LeaseRequest) (probe : PhysicalProbe)
      (excluded vetted : List String) (now deadline : ℕ) (s : State)
      → BankStep s (acquire_locked tools req probe excluded vetted now deadline s).0
  settles_boot :
      (session : String) (p : Platform) (name : String) (at : ℕ) (err : Option String) (now : ℕ)
      (s : State)
      → BankStep s (settle_boot session p name at err now s).0
  leaves : (session : String) (p : Platform) (s : State) → BankStep s (leave_queue session p s).0
  pauses :
      (tools : Toolchain) (session : String) (p : Option Platform) (now : ℕ) (s : State)
      → BankStep s (pause tools session p now s).0
  releases :
      (tools : Toolchain) (session : String) (p : Option Platform) (now : ℕ) (s : State)
      → BankStep s (release tools session p now s).0
  emits :
      (session : String) (session_end : Bool) (now : ℕ) (s : State)
      → BankStep s (on_emit session session_end now s).0
  turns_off :
      (tools : Toolchain) (name : String) (started : ℕ) (s : State)
      → BankStep s (recycle_off tools name started s).0
  settles_recycle :
      (name : String) (started : ℕ) (err : Option String) (now : ℕ) (s : State)
      → BankStep s (recycle_settle name started err now s).0

pub data Run (s : State) : State → Type 0 where
  start : Run s s
  next : {t u : State} → Run s t → BankStep t u → Run s u

BankStep-Within : {m : ℕ} {s t : State} → BankStep s t → Within m s → Within m t
BankStep-Within (reaps tools now s) v = Edits-Within (reap-Edits tools now s) v
BankStep-Within (attempts tools req probe excluded vetted now deadline s) v =
    acquire_locked-Within tools req probe excluded vetted now deadline s v
BankStep-Within (settles_boot session p name at err now s) v =
    Edits-Within (settle_boot-Edits session p name at err now s) v
BankStep-Within (leaves session p s) v = Edits-Within (leave_queue-Edits session p s) v
BankStep-Within (pauses tools session p now s) v =
    Edits-Within (pause-Edits tools session p now s) v
BankStep-Within (releases tools session p now s) v =
    Edits-Within (release-Edits tools session p now s) v
BankStep-Within (emits session session_end now s) v =
    Edits-Within (on_emit-Edits session session_end now s) v
BankStep-Within (turns_off tools name started s) v =
    Edits-Within (recycle_off-Edits tools name started s) v
BankStep-Within (settles_recycle name started err now s) v =
    Edits-Within (recycle_settle-Edits name started err now s) v

-- From a state of today's versions with no more devices on than the ignition limit, no sequence of
-- locked sections (reaps, lease attempts, boot outcomes, pauses, releases, emits, recycles and
-- departures from the queue, of any sessions in any order) ever counts more devices on than that
-- limit.
pub Run-ignition_limit :
    {s t : State}
    → Modern s
    → powered_on_count s ≤ max_on s
    → Run s t
    → powered_on_count t ≤ max_on s
Run-ignition_limit {s} modern bound r = (within r).bound
  where
    within : {t : State} → Run s t → Within (max_on s) t
    within start = record { modern = modern; bound = bound; limit = omega arith }
    within (next r' st) = BankStep-Within st (within r')
