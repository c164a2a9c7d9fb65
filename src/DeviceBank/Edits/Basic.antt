-- ===== src/DeviceBank/Edits/Basic.antt =====
-- Operations that turn no device on: the relation, and the primitive steps.
use homebrew_tools.Prelude.{
  ℕ, suc, ◌≤◌, String, Bool, true, false, Option, some, List, [], ◌∷◌, get_elem?, bit, ◌≡◌, refl,
  inl, inr, Option-cases,
}
use homebrew_tools.DeviceBank.Types.{
  Platform, DeviceState, legacy_free, legacy_leased, Device, may_be_on, Lease, PendingRestore,
  State,
}
use homebrew_tools.DeviceBank.State.{spawn_recycle, spawn_restore, journal, put_device, put_lease}
use homebrew_tools.DeviceBank.Physical.{put_restore}
use homebrew_tools.DeviceBank.Lease.{touch_session, remove_lease, add_restore, each_device}
use homebrew_tools.DeviceBank.Physical.{put_restore}

-- A state of today's versions: `migrate` leaves no other.
abbrev pub is_modern : DeviceState → Bool
is_modern legacy_free = false
is_modern legacy_leased = false
is_modern _ = true

-- A write of a device that names the same device and counts no more against the limit.
pub record Quiet (d d' : Device) : Type 0 where
  pub name : d'.name ≡ d.name
  pub platform : d'.platform ≡ d.platform
  pub modern : is_modern d.state ≡ true → is_modern d'.state ≡ true
  pub fewer : is_modern d.state ≡ true → bit (may_be_on d') ≤ bit (may_be_on d)

-- What says whose a lease is and of which device.
pub record LeaseKey : Type 0 where
  pub session : String
  pub platform : Platform
  pub physical : Bool
  pub device : String

abbrev pub key : Lease → LeaseKey
key l = record {
  session = l.session_id;
  platform = l.platform;
  physical = l.physical;
  device = l.device_name;
}

-- The second state is reached from the first by edits that turn no device on and grant no lease.
pub data Edits (s : State) : State → Type 0 where
  unchanged : Edits s s
  writes_device :
      {t : State} (i : ℕ) (d d' : Device)
      → Edits s t
      → get_elem? t.devices i ≡ some d
      → Quiet d d'
      → Edits s (put_device i d' t)
  writes_lease :
      {t : State} (j : ℕ) (l l' : Lease)
      → Edits s t
      → get_elem? t.leases j ≡ some l
      → key l' ≡ key l
      → Edits s (put_lease j l' t)
  removes_lease : {t : State} (j : ℕ) → Edits s t → Edits s (remove_lease j t)
  renews :
      {t : State} (session : String) (now : ℕ) → Edits s t → Edits s (touch_session session now t).0
  other :
      {t : State} (u : State)
      → Edits s t
      → u.devices ≡ t.devices
      → u.leases ≡ t.leases
      → u.config ≡ t.config
      → Edits s u

pub Edits-trans : {s t u : State} → Edits s t → Edits t u → Edits s u
Edits-trans h unchanged = h
Edits-trans h (writes_device i d d' k e q) = writes_device i d d' (Edits-trans h k) e q
Edits-trans h (writes_lease j l l' k e q) = writes_lease j l l' (Edits-trans h k) e q
Edits-trans h (removes_lease j k) = removes_lease j (Edits-trans h k)
Edits-trans h (renews session now k) = renews session now (Edits-trans h k)
Edits-trans h (other u k d l c) = other u (Edits-trans h k) d l c

pub journal-Edits :
    {s : State} (d : Device) (from : DeviceState) (l : Option Lease) (reason : String) {t : State}
    → Edits s t
    → Edits s (journal d from l reason t)
unfolding journal
journal-Edits d from l reason h = other _ h refl refl refl

pub spawn_recycle-Edits :
    {s : State} (name : String) {t : State} → Edits s t → Edits s (spawn_recycle name t)
unfolding spawn_recycle
spawn_recycle-Edits name h = other _ h refl refl refl

pub respawn-Edits :
    (i : ℕ) (r : PendingRestore) (id : String) (s : State)
    → Edits s (spawn_restore id (put_restore i r s))
unfolding spawn_restore put_restore
respawn-Edits i r id s = other _ unchanged refl refl refl

pub restoring-Edits :
    (r : PendingRestore) (id : String) {s t : State}
    → Edits s t
    → Edits s (spawn_restore id (add_restore r t))
unfolding spawn_restore add_restore
restoring-Edits r id h = other _ h refl refl refl

module _ (body : ℕ → Device → State → State × Bool)
    (step : (i : ℕ) (d : Device) (s : State)
      → get_elem? s.devices i ≡ some d
      → Edits s (body i d s).0) where
  pub each_device-Edits :
      (ds : List Device) (i : ℕ) (s : State) → Edits s (each_device body ds i s).0
  unfolding each_device
  each_device-Edits [] i s = unchanged
  each_device-Edits (_ ∷ ds) i s = elim (Option-cases (get_elem? s.devices i)) [
    | inl e ↦ rw (e, each_device) (each_device-Edits ds (suc i) s)
    | inr (d, e) ↦
        rw (e, each_device)
          (Edits-trans (step i d s e) (each_device-Edits ds (suc i) (body i d s).0))
  ]
