-- ===== src/DeviceBank/Exclusive/Runs.antt =====
-- The exclusive leases along any interleaving of commands.
use homebrew_tools.Prelude.{ℕ, String, List, inl, inr, Bool-cases}
use homebrew_tools.DeviceBank.Types.{State}
use homebrew_tools.DeviceBank.State.{initialized}
use homebrew_tools.DeviceBank.Queue.{drop_expired_waiters}
use homebrew_tools.DeviceBank.Lease.{touch_session}
use homebrew_tools.DeviceBank.Physical.{LeaseRequest, PhysicalProbe}
use homebrew_tools.DeviceBank.Reap.{Toolchain, reap_locked}
use homebrew_tools.DeviceBank.Ops.{acquire_locked}
use homebrew_tools.DeviceBank.Edits.Basic.{Edits-trans}
use homebrew_tools.DeviceBank.Edits.Reconcile.{reap_locked-Edits}
use homebrew_tools.DeviceBank.Edits.Commands.{
  touch_session-Edits, drop_expired_waiters-Edits, reap-Edits, release-Edits, on_emit-Edits,
  leave_queue-Edits, pause-Edits, settle_boot-Edits,
}
use homebrew_tools.DeviceBank.Edits.Recycling.{recycle_off-Edits, recycle_settle-Edits}
use homebrew_tools.DeviceBank.Limit.Runs.{
  BankStep, reaps, attempts, settles_boot, leaves, pauses, releases, emits, turns_off,
  settles_recycle, Run, start, next,
}
use homebrew_tools.DeviceBank.Exclusive.Keys.{Exclusive, Edits-Exclusive}
use homebrew_tools.DeviceBank.Exclusive.Held.{grant_locked-Exclusive}

acquire_locked-Exclusive :
    (tools : Toolchain) (req : LeaseRequest) (probe : PhysicalProbe) (excluded vetted : List String)
    (now deadline : ℕ) (s : State)
    → Exclusive s
    → Exclusive (acquire_locked tools req probe excluded vetted now deadline s).0
unfolding acquire_locked
acquire_locked-Exclusive tools req probe excluded vetted now deadline s v =
    elim (Bool-cases (initialized before)) [
      | inl t ↦ rw t (grant_locked-Exclusive before req probe excluded vetted now deadline apart)
      | inr t ↦ rw t apart
    ]
  where
    before : State
    before =
        (drop_expired_waiters now (touch_session req.session now (reap_locked tools s now).0).0).0

    apart : Exclusive before
    apart =
        Edits-Exclusive
          (Edits-trans (reap_locked-Edits tools s now) (
            Edits-trans (touch_session-Edits req.session now _) (drop_expired_waiters-Edits now _)))
          v

BankStep-Exclusive : {s t : State} → BankStep s t → Exclusive s → Exclusive t
BankStep-Exclusive (reaps tools now s) = Edits-Exclusive (reap-Edits tools now s)
BankStep-Exclusive (attempts tools req probe excluded vetted now deadline s) =
    acquire_locked-Exclusive tools req probe excluded vetted now deadline s
BankStep-Exclusive (settles_boot session p name at err now s) =
    Edits-Exclusive (settle_boot-Edits session p name at err now s)
BankStep-Exclusive (leaves session p s) = Edits-Exclusive (leave_queue-Edits session p s)
BankStep-Exclusive (pauses tools session p now s) =
    Edits-Exclusive (pause-Edits tools session p now s)
BankStep-Exclusive (releases tools session p now s) =
    Edits-Exclusive (release-Edits tools session p now s)
BankStep-Exclusive (emits session session_end now s) =
    Edits-Exclusive (on_emit-Edits session session_end now s)
BankStep-Exclusive (turns_off tools name started s) =
    Edits-Exclusive (recycle_off-Edits tools name started s)
BankStep-Exclusive (settles_recycle name started err now s) =
    Edits-Exclusive (recycle_settle-Edits name started err now s)

-- From a state whose leases are exclusive (one at most for each session and platform, one at most
-- on each virtual device), every sequence of locked sections of any sessions and workers ends in
-- such a state: no two sessions ever hold the same virtual device.
pub Run-Exclusive : {s t : State} → Exclusive s → Run s t → Exclusive t
Run-Exclusive v start = v
Run-Exclusive v (next r st) = BankStep-Exclusive st (Run-Exclusive v r)
