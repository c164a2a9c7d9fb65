-- ===== src/DeviceBank/Edits/Commands.antt =====
-- The commands under the lock keep the count of devices that may be on.
use homebrew_tools.Prelude.{
  ℕ, suc, String, Bool, true, false, not, Option, none, some, List, [], ◌∷◌, ◌||◌, ◌==◌, str_eq,
  if◌then◌else◌, get_elem?, ◌≡◌, refl, inl, inr, arith, Bool-cases, Option-cases,
}
use homebrew_tools.DeviceBank.Types.{Platform, is_off, is_on, Device, Lease, suspended, State}
use homebrew_tools.DeviceBank.State.{find_device, find_lease, put_device}
use homebrew_tools.DeviceBank.Queue.{drop_expired_waiters, of_platform, remove_waiters}
use homebrew_tools.DeviceBank.Lease.{touch_session, remove_lease, release_session}
use homebrew_tools.DeviceBank.Reap.{Toolchain, reap}
use homebrew_tools.DeviceBank.Ops.{
  settle_boot, leave_queue, pause_on, pause_virtual, pause_lease, pause_leases, pause, release,
  on_emit,
}
use homebrew_tools.DeviceBank.Edits.Basic.{
  Edits, unchanged, writes_device, writes_lease, removes_lease, renews, other, Edits-trans,
  journal-Edits,
}
use homebrew_tools.DeviceBank.Edits.Reaping.{
  find_device_sound, drop_where-Edits, record_failure-Edits,
}
use homebrew_tools.DeviceBank.Edits.Reconcile.{reap_locked-Edits}

pub touch_session-Edits :
    (session : String) (now : ℕ) (s : State) → Edits s (touch_session session now s).0
unfolding touch_session
touch_session-Edits session now s = renews session now unchanged

pub remove_waiters-Edits :
    (session : String) (p : Option Platform) (s : State) → Edits s (remove_waiters session p s).0
unfolding remove_waiters
remove_waiters-Edits session p s = other _ unchanged refl refl refl

pub drop_expired_waiters-Edits : (now : ℕ) (s : State) → Edits s (drop_expired_waiters now s).0
unfolding drop_expired_waiters
drop_expired_waiters-Edits now s = other _ unchanged refl refl refl

pub release_session-Edits :
    (s : State) (session : String) (p : Option Platform) (now : ℕ) (reason : String)
    → Edits s (release_session s session p now reason).0
unfolding release_session
release_session-Edits s session p now reason =
    Edits-trans (drop_where-Edits _ now reason s.leases 0 s) (remove_waiters-Edits session p _)

pub reap-Edits : (tools : Toolchain) (now : ℕ) (s : State) → Edits s (reap tools now s).0
unfolding reap
reap-Edits tools now s =
    Edits-trans (reap_locked-Edits tools s now) (drop_expired_waiters-Edits now _)

pub release-Edits :
    (tools : Toolchain) (session : String) (p : Option Platform) (now : ℕ) (s : State)
    → Edits s (release tools session p now s).0
unfolding release
release-Edits tools session p now s = Edits-trans (reap_locked-Edits tools s now) (
    Edits-trans (touch_session-Edits session now _)
      (release_session-Edits _ session p now "release"))

pub on_emit-Edits :
    (session : String) (session_end : Bool) (now : ℕ) (s : State)
    → Edits s (on_emit session session_end now s).0
unfolding on_emit
on_emit-Edits session true now s =
    Edits-trans (touch_session-Edits session now s)
      (release_session-Edits _ session none now "session-end")
on_emit-Edits session false now s = touch_session-Edits session now s

pub leave_queue-Edits :
    (session : String) (p : Platform) (s : State) → Edits s (leave_queue session p s).0
unfolding leave_queue
leave_queue-Edits session p s = remove_waiters-Edits session (some p) s

pause_on-Edits :
    (answer : Option String) (now i : ℕ) (d : Device) (j : ℕ) (l : Lease) (s : State)
    → get_elem? s.devices i ≡ some d
    → get_elem? s.leases j ≡ some l
    → Edits s (pause_on answer now i d j l s).0
unfolding pause_on put_device
pause_on-Edits (some x) now i d j l s e f = unchanged
pause_on-Edits none now i d j l s e f =
    journal-Edits _ _ _ _
      (writes_lease j l _ (writes_device i d _ unchanged e (ground arith)) f refl)

pause_virtual-Edits :
    (tools : Toolchain) (now j : ℕ) (l : Lease) (s : State)
    → get_elem? s.leases j ≡ some l
    → Edits s (pause_virtual tools now j l s).0
unfolding pause_virtual
pause_virtual-Edits tools now j l s f = elim (Option-cases (find_device l.device_name s)) [
  | inl e ↦ rw (e, pause_virtual) unchanged
  | inr ((i, d), e) ↦ elim (Bool-cases (is_on d.state)) [
    | inl t ↦
        rw (e, pause_virtual, t)
          (pause_on-Edits _ now i d j l s (find_device_sound l.device_name s e).0 f)
    | inr t ↦ elim (Bool-cases (is_off d.state)) [
      | inl o ↦
          rw (e, pause_virtual, t, o) (journal-Edits _ _ _ _ (writes_lease j l _ unchanged f refl))
      | inr o ↦ rw (e, pause_virtual, t, o) unchanged
    ]
  ]
]

pause_lease-Edits :
    (tools : Toolchain) (session : String) (p : Option Platform) (now j : ℕ) (l : Lease) (s : State)
    → get_elem? s.leases j ≡ some l
    → Edits s (pause_lease tools session p now j l s).0
unfolding pause_lease
pause_lease-Edits tools session p now j l s f =
    elim (Bool-cases
      (not (str_eq l.session_id session) || suspended l || not (of_platform p l.platform))) [
        | inl t ↦ rw t unchanged
        | inr t ↦ rw t (
            either l.physical _ _ (writes_lease j l _ unchanged f refl)
              (pause_virtual-Edits tools now j l s f))
      ]
  where
    either :
        (b : Bool) (x y : State × Bool × List String)
        → Edits s x.0
        → Edits s y.0
        → Edits s (if b then x else y).0
    either true x y h k = h
    either false x y h k = k

pause_leases-Edits :
    (tools : Toolchain) (session : String) (p : Option Platform) (now : ℕ) (ls : List Lease) (j : ℕ)
    (s : State)
    → Edits s (pause_leases tools session p now ls j s).0
unfolding pause_leases
pause_leases-Edits tools session p now [] j s = unchanged
pause_leases-Edits tools session p now (_ ∷ ls) j s = elim (Option-cases (get_elem? s.leases j)) [
  | inl e ↦ rw (e, pause_leases) (pause_leases-Edits tools session p now ls (suc j) s)
  | inr (l, e) ↦
      rw (e, pause_leases)
        (Edits-trans (pause_lease-Edits tools session p now j l s e)
          (pause_leases-Edits tools session p now ls (suc j) _))
]

pub pause-Edits :
    (tools : Toolchain) (session : String) (p : Option Platform) (now : ℕ) (s : State)
    → Edits s (pause tools session p now s).0
unfolding pause
pause-Edits tools session p now s =
    Edits-trans (reap_locked-Edits tools s now) (
      Edits-trans (touch_session-Edits session now _)
        (pause_leases-Edits tools session p now _ 0 _))

settle_boot-Edits_on :
    (session : String) (p : Platform) (name : String) (at : ℕ) (err : Option String) (now i : ℕ)
    (d : Device) (s : State)
    → find_device name s ≡ some (i, d)
    → not (is_on d.state) || not (d.powered_on_at == at) ≡ false
    → Edits s (settle_boot session p name at err now s).0
unfolding settle_boot remove_lease
settle_boot-Edits_on session p name at none now i d s e t =
    rw (e, settle_boot, t)
      (writes_device i d _ unchanged (find_device_sound name s e).0 (ground arith))
settle_boot-Edits_on session p name at (some x) now i d s e t =
    elim (Option-cases (find_lease session p s)) [
      | inl f ↦ rw (e, settle_boot, t, f) (record_failure-Edits i d _ _ now s there running)
      | inr ((j, l), f) ↦ elim (Bool-cases (str_eq l.device_name name)) [
        | inl own ↦
            rw (e, settle_boot, t, f, own)
              (Edits-trans (removes_lease j unchanged)
                (record_failure-Edits i d _ _ now _ there running))
        | inr theirs ↦
            rw (e, settle_boot, t, f, theirs) (record_failure-Edits i d _ _ now s there running)
      ]
    ]
  where
    there : get_elem? s.devices i ≡ some d
    there = (find_device_sound name s e).0

    running : is_off d.state ≡ false
    running = ground arith

pub settle_boot-Edits :
    (session : String) (p : Platform) (name : String) (at : ℕ) (err : Option String) (now : ℕ)
    (s : State)
    → Edits s (settle_boot session p name at err now s).0
unfolding settle_boot
settle_boot-Edits session p name at err now s = elim (Option-cases (find_device name s)) [
  | inl e ↦ rw (e, settle_boot) unchanged
  | inr ((i, d), e) ↦ elim (Bool-cases (not (is_on d.state) || not (d.powered_on_at == at))) [
    | inl t ↦ rw (e, settle_boot, t) unchanged
    | inr t ↦ settle_boot-Edits_on session p name at err now i d s e t
  ]
]
