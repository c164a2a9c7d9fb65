-- ===== src/DeviceBank/Exclusive/New.antt =====
-- A grant of a new lease keeps the leases exclusive.
use homebrew_tools.Prelude.{
  ℕ, String, Bool, false, Option, none, some, List, [], ◌∷◌, ◌++◌, str_eq, remove_at, ◌≡◌, refl, ap,
  inl, inr, arith, Bool-cases, Option-cases, find_sound, find-none, All-get,
}
use homebrew_tools.DeviceBank.Types.{Platform, Device, Lease, State, PhysicalDevice}
use homebrew_tools.DeviceBank.State.{
  held_by, find_lease, leases_device, lease_for_device, spawn_recycle, spawn_restore, journal,
  put_device,
}
use homebrew_tools.DeviceBank.Queue.{remove_waiters, upsert_waiter, fair_reservation}
use homebrew_tools.DeviceBank.Lease.{
  virtual, plugged, power_up, append_lease, commit_lease, remove_lease, add_restore,
  send_to_recycling, recycle_device, drop_lease,
}
use homebrew_tools.DeviceBank.Physical.{
  admits_physical, admits_virtual, LeaseRequest, PhysicalProbe, Note, pick_physical,
}
use homebrew_tools.DeviceBank.Grant.{
  take_wipe, queue_caller, lease_physical, grant_virtual, grant_new, put_last_lease,
}
use homebrew_tools.DeviceBank.Edits.Basic.{key}
use homebrew_tools.DeviceBank.Fair.Sound.{MayTurnOn, fair_reservation_sound}
use homebrew_tools.DeviceBank.Exclusive.Keys.{
  keys, Exclusive, Apart-append, keys-append, Unheld, All-conflict_free,
}

-- A state with the same leases.
pub same-Exclusive : (s t : State) → t.leases ≡ s.leases → Exclusive s → Exclusive t
same-Exclusive s t e v = record { apart = rw e v.apart }

pub remove_waiters-Exclusive :
    (session : String) (p : Option Platform) (s : State)
    → Exclusive s
    → Exclusive (remove_waiters session p s).0
unfolding remove_waiters
remove_waiters-Exclusive session p s v = record { apart = v.apart }

pub take_wipe-Exclusive : (i : ℕ) (s : State) → Exclusive s → Exclusive (take_wipe i s).0
unfolding take_wipe put_device
take_wipe-Exclusive i s v = same-Exclusive s _ (ground arith) v

pub queue_caller-leases :
    (session : String) (p : Platform) (now deadline : ℕ) (s : State)
    → (queue_caller session p now deadline s).0.leases ≡ s.leases
unfolding queue_caller upsert_waiter
queue_caller-leases session p now deadline s = ground arith

pub drop_lease-leases :
    (j : ℕ) (l : Lease) (now : ℕ) (reason : String) (s : State)
    → (drop_lease j l now reason s).leases ≡ remove_at s.leases j
unfolding drop_lease recycle_device send_to_recycling spawn_restore add_restore remove_lease
    spawn_recycle journal put_device
drop_lease-leases j l now reason s = ground arith

keys-put_last :
    (ls : List Lease) (l l' : Lease)
    → key l' ≡ key l
    → keys (put_last_lease l' (ls ++ (l ∷ []))) ≡ keys ls ++ (key l ∷ [])
unfolding put_last_lease
keys-put_last [] l l' e = ap (λ k. k ∷ []) e
keys-put_last (x ∷ []) l l' e = ap (λ k. key x ∷ k ∷ []) e
keys-put_last (x ∷ y ∷ ls) l l' e = ap (◌∷◌ (key x)) (keys-put_last (y ∷ ls) l l' e)

pub lease_physical-Exclusive :
    (s : State) (req : LeaseRequest) (p : PhysicalDevice) (now : ℕ)
    → Exclusive s
    → Unheld req.session req.platform s.leases
    → Exclusive (lease_physical s req p now).0
unfolding lease_physical commit_lease append_lease remove_waiters
lease_physical-Exclusive s req p now v u =
    let l = (commit_lease s (plugged p) req.session req.workdir req.platform now).1 in
    record {
      apart = rw (keys-put_last s.leases l (record l { app_id = req.app_id }) refl) (
          Apart-append (keys s.leases) (key l) v.apart
            (All-conflict_free req.session req.platform (key l) s.leases refl refl u (inl refl)));
    }

commit_virtual-Exclusive :
    (s : State) (i : ℕ) (d : Device) (session workdir : String) (p : Platform) (now : ℕ)
    → Exclusive s
    → Unheld session p s.leases
    → lease_for_device d.name s ≡ none
    → Exclusive (commit_lease s (virtual i d) session workdir p now).0
unfolding commit_lease append_lease power_up journal put_device lease_for_device
commit_virtual-Exclusive s i d session workdir p now v u free =
    let l = (commit_lease s (virtual i d) session workdir p now).1 in
    record {
      apart = rw (keys-append s.leases (l ∷ [])) (
          Apart-append (keys s.leases) (key l) v.apart (
            All-conflict_free session p (key l) s.leases refl refl u
              (inr (find-none (leases_device d.name) s.leases free))));
    }

-- A holder without a lease is entitled only to a device that nobody leases.
Unheld-device :
    (s : State) (session : String) (p : Platform) (taken : List String) (i : ℕ) (d : Device)
    → Unheld session p s.leases
    → MayTurnOn s session p taken i d
    → lease_for_device d.name s ≡ none
unfolding find_lease
Unheld-device s session p taken i d u m = elim m.entitled [
  | inr (none_held, fits, untaken, free) ↦ free
  | inl (j, l, held, virt, named) ↦
      let (at, holds) = find_sound (held_by session p) s.leases held in
      absurd (ground (arith, All-get (λ x. held_by session p x ≡ false) s.leases j u at))
]

grant_virtual-Exclusive :
    (s : State) (req : LeaseRequest) (notes : List Note) (changed : Bool) (now deadline : ℕ)
    → Exclusive s
    → Unheld req.session req.platform s.leases
    → Exclusive (grant_virtual s req notes changed now deadline).0
unfolding grant_virtual
grant_virtual-Exclusive s req notes changed now deadline v u =
    elim (Bool-cases (admits_virtual req.requirement)) [
      | inr refused ↦ rw refused v
      | inl fits ↦ elim (Option-cases (fair_reservation s req.session req.platform)) [
        | inl f ↦
            rw (fits, f, grant_virtual)
              (same-Exclusive s _ (queue_caller-leases req.session req.platform now deadline s) v)
        | inr ((i, d), f) ↦
            let (free, (taken, may)) = fair_reservation_sound s req.session req.platform f in
            rw (fits, f, grant_virtual)
              (take_wipe-Exclusive i _ (
                remove_waiters-Exclusive req.session (some req.platform) _ (
                  commit_virtual-Exclusive s i d req.session req.workdir req.platform now v u
                    (Unheld-device s req.session req.platform taken i d u may))))
      ]
    ]

pub grant_new-Exclusive :
    (s : State) (req : LeaseRequest) (probe : PhysicalProbe) (excluded : List String)
    (notes : List Note) (changed : Bool) (now deadline : ℕ)
    → Exclusive s
    → Unheld req.session req.platform s.leases
    → Exclusive (grant_new s req probe excluded notes changed now deadline).0
unfolding grant_new
grant_new-Exclusive s req probe excluded notes changed now deadline v u =
    elim (Bool-cases (admits_physical req.requirement)) [
      | inr refused ↦ rw refused (grant_virtual-Exclusive s req _ _ now deadline v u)
      | inl fits ↦ elim (Bool-cases (str_eq req.app_id "")) [
        | inl a ↦ rw (fits, a) (grant_virtual-Exclusive s req _ _ now deadline v u)
        | inr a ↦ elim (Option-cases (pick_physical s req.platform probe.devices excluded).0) [
          | inl e ↦ rw (fits, a, e, grant_new) (grant_virtual-Exclusive s req _ _ now deadline v u)
          | inr (p, e) ↦ rw (fits, a, e, grant_new) (lease_physical-Exclusive s req p now v u)
        ]
      ]
    ]
