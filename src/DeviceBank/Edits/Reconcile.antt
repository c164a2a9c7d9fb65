-- ===== src/DeviceBank/Edits/Reconcile.antt =====
-- Reconciliation with the toolchains, and the whole lifecycle pass, turn no device on.
use homebrew_tools.Prelude.{
  ℕ, suc, ◌-◌, String, Bool, true, false, not, Option, none, some, List, [], ◌∷◌, ◌&&◌, ltb,
  if◌then◌else◌, find, get_elem?, is_some, ◌≡◌, refl, inl, inr, arith, Bool-cases, find_sound,
}
use homebrew_tools.DeviceBank.Types.{
  ios, android, DeviceState, off, on, broken, is_recycling, is_broken, Device, Lease,
  PendingRestore, State,
}
use homebrew_tools.DeviceBank.State.{leases_device, lease_for_device, put_device}
use homebrew_tools.DeviceBank.Lease.{
  recycle_reap_after, stuck_recycle_reason, reap_expired, reap_stuck_device, reap_stuck_recycles,
}
use homebrew_tools.DeviceBank.Physical.{is_due, reap_restores_from, reap_restores}
use homebrew_tools.DeviceBank.Reap.{
  Toolchain, boot_timeout, reap_power_off, mark_off, reconcile_unleased_on, reconcile_leased_on,
  reconcile_idle, reconcile_on, reconcile_as, reconcile_device, on_platform, reconcile, reap_locked,
}
use homebrew_tools.DeviceBank.Edits.Basic.{
  Quiet, Edits, unchanged, writes_device, writes_lease, Edits-trans, journal-Edits, respawn-Edits,
  each_device-Edits,
}
use homebrew_tools.DeviceBank.Edits.Reaping.{drop_where-Edits, record_failure-Edits}

reap_stuck_device-Edits :
    (now i : ℕ) (d : Device) (s : State)
    → get_elem? s.devices i ≡ some d
    → Edits s (reap_stuck_device now i d s).0
unfolding reap_stuck_device
reap_stuck_device-Edits now i d s e =
    elim (Bool-cases
      (is_recycling d.state && ltb recycle_reap_after (now - d.recycle_started_at))) [
        | inl t ↦
            rw t (
              record_failure-Edits i d stuck_recycle_reason "recycle-failed" now s e (ground arith))
        | inr t ↦ rw t unchanged
      ]

-- Only the record of the attempt changes.
pub reap_power_off-Quiet :
    (tools : Toolchain) (d : Device) (now : ℕ) → Quiet d (reap_power_off tools d now).0
unfolding reap_power_off
reap_power_off-Quiet tools d now = ground arith

-- Once more with the device marked off.
mark_off-Quiet : (d d' : Device) → Quiet d d' → Quiet d (mark_off d')
mark_off-Quiet d d' q = record {
  name = q.name;
  platform = q.platform;
  modern = λ m. refl;
  fewer = λ m. omega arith;
}

confirmed_Quiet :
    (d d' : Device)
    → Quiet d d'
    → Quiet d (if is_broken d'.state then record d' { power_off_confirmed = true } else d')
confirmed_Quiet d d' q = record {
  name = ground (arith, q.name);
  platform = ground (arith, q.platform);
  modern = λ m. ground (arith, q.modern m);
  fewer = λ m. ground (arith, q.modern m, q.fewer m);
}

reconcile_unleased_on-Edits :
    (tools : Toolchain) (now i : ℕ) (d : Device) (s : State)
    → get_elem? s.devices i ≡ some d
    → Edits s (reconcile_unleased_on tools now i d s).0
unfolding reconcile_unleased_on
reconcile_unleased_on-Edits tools now i d s e = elim (Bool-cases (reap_power_off tools d now).1) [
  | inl t ↦ rw t (
      journal-Edits _ _ _ _
        (writes_device i d _ unchanged e (mark_off-Quiet d _ (reap_power_off-Quiet tools d now))))
  | inr t ↦ rw t (writes_device i d _ unchanged e (reap_power_off-Quiet tools d now))
]

reconcile_leased_on-Edits :
    (probed really_on : Bool) (now j : ℕ) (l : Lease) (i : ℕ) (d : Device) (s : State)
    → get_elem? s.devices i ≡ some d
    → get_elem? s.leases j ≡ some l
    → Edits s (reconcile_leased_on probed really_on now j l i d s).0
unfolding reconcile_leased_on put_device
reconcile_leased_on-Edits probed really_on now j l i d s e f =
    elim (Bool-cases
      (probed && not really_on && not (d.booting && ltb (now - d.powered_on_at) boot_timeout))) [
        | inl t ↦ rw t (
            journal-Edits _ _ _ _
              (writes_lease j l _ (writes_device i d _ unchanged e (ground arith)) f refl))
        | inr t ↦ rw t unchanged
      ]

reconcile_idle-Edits :
    (tools : Toolchain) (probed really_on : Bool) (now : ℕ) (l : Option Lease) (i : ℕ) (d : Device)
    (s : State)
    → get_elem? s.devices i ≡ some d
    → Edits s (reconcile_idle tools probed really_on now l i d s).0
unfolding reconcile_idle
reconcile_idle-Edits tools probed false now l i d s e =
    elim (Bool-cases (probed && is_broken d.state && not d.power_off_confirmed)) [
      | inl t ↦ rw t (writes_device i d _ unchanged e (ground arith))
      | inr t ↦ rw t unchanged
    ]
reconcile_idle-Edits tools probed true now l i d s e =
    elim (Bool-cases (reap_power_off tools d now).1) [
      | inl t ↦ rw t (
          journal-Edits _ _ _ _ (
            writes_device i d _ unchanged e
              (confirmed_Quiet d _ (reap_power_off-Quiet tools d now))))
      | inr t ↦ rw t (writes_device i d _ unchanged e (reap_power_off-Quiet tools d now))
    ]

reconcile_as-Edits :
    (st : DeviceState) (tools : Toolchain) (probed really_on : Bool) (now : ℕ)
    (l : Option (ℕ × Lease)) (i : ℕ) (d : Device) (s : State)
    → get_elem? s.devices i ≡ some d
    → ((j : ℕ) (x : Lease) → l ≡ some (j, x) → get_elem? s.leases j ≡ some x)
    → Edits s (reconcile_as st tools probed really_on now l i d s).0
unfolding reconcile_as reconcile_on
reconcile_as-Edits on tools probed really_on now none i d s e f =
    reconcile_unleased_on-Edits tools now i d s e
reconcile_as-Edits on tools probed really_on now (some (j, l)) i d s e f =
    reconcile_leased_on-Edits probed really_on now j l i d s e (f j l refl)
reconcile_as-Edits off tools probed really_on now l i d s e f =
    reconcile_idle-Edits tools probed really_on now _ i d s e
reconcile_as-Edits broken tools probed really_on now l i d s e f =
    reconcile_idle-Edits tools probed really_on now _ i d s e
reconcile_as-Edits _ tools probed really_on now l i d s e f = unchanged

pub lease_for_device_sound :
    (name : String) (s : State) {j : ℕ} {l : Lease}
    → lease_for_device name s ≡ some (j, l)
    → (get_elem? s.leases j ≡ some l) × (leases_device name l ≡ true)
unfolding lease_for_device
lease_for_device_sound name s h = find_sound (leases_device name) s.leases h

pub reconcile-Edits : (tools : Toolchain) (s : State) (now : ℕ) → Edits s (reconcile tools s now).0
unfolding reconcile reconcile_device
reconcile-Edits tools s now =
    elim (Bool-cases (
      not (is_some (find (on_platform ios) s.devices))
      && not (is_some (find (on_platform android) s.devices)))) [
        | inl t ↦ rw t unchanged
        | inr t ↦ rw t (
            each_device-Edits _
              (λ i d u e.
                reconcile_as-Edits d.state tools _ _ now (lease_for_device d.name u) i d u e
                  (λ j x h. (lease_for_device_sound d.name u h).0))
              s.devices 0 s)
      ]

reap_restores_from-Edits :
    (now : ℕ) (rs : List PendingRestore) (i : ℕ) (s : State)
    → Edits s (reap_restores_from now rs i s).0
unfolding reap_restores_from
reap_restores_from-Edits now [] i s = unchanged
reap_restores_from-Edits now (r ∷ rs) i s = elim (Bool-cases (is_due now r)) [
  | inl t ↦
      rw (t, reap_restores_from)
        (Edits-trans (respawn-Edits i _ _ s) (reap_restores_from-Edits now rs (suc i) _))
  | inr t ↦ rw (t, reap_restores_from) (reap_restores_from-Edits now rs (suc i) s)
]

pub reap_locked-Edits :
    (tools : Toolchain) (s : State) (now : ℕ) → Edits s (reap_locked tools s now).0
unfolding reap_locked reap_expired reap_stuck_recycles reap_restores
reap_locked-Edits tools s now = Edits-trans (drop_where-Edits _ now "ttl" s.leases 0 s) (
    Edits-trans (each_device-Edits (reap_stuck_device now) (reap_stuck_device-Edits now) _ 0 _)
      (Edits-trans (reap_restores_from-Edits now _ 0 _) (reconcile-Edits tools _ now)))
