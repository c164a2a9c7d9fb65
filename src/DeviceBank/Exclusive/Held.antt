-- ===== src/DeviceBank/Exclusive/Held.antt =====
-- The answer to a session that holds a lease, and a whole attempt, keep the leases exclusive.
use homebrew_tools.Prelude.{
  ℕ, String, Bool, true, false, not, Option, none, some, List, [], ◌==◌, if◌then◌else◌, get_elem?,
  remove_at, ◌≡◌, refl, inl, inr, arith, Bool-cases, Option-cases, find_sound, find-none,
}
use homebrew_tools.DeviceBank.Types.{
  Platform, is_off, is_on, Device, Lease, State, PhysicalDevice, contains,
}
use homebrew_tools.DeviceBank.State.{
  find_device, held_by, find_lease, journal, put_device, put_lease,
}
use homebrew_tools.DeviceBank.Queue.{remove_waiters, fair_reservation}
use homebrew_tools.DeviceBank.Lease.{power_up, remove_lease, drop_lease}
use homebrew_tools.DeviceBank.Physical.{
  admits, LeaseRequest, PhysicalProbe, wired, HoldDecision, hold_keep, hold_drop, hold_retake,
  hold_wait, hold_plugged, hold_physical,
}
use homebrew_tools.DeviceBank.Grant.{
  queue_caller, Held, done, choose, grant_suspended, grant_held_virtual, grant_held_physical,
  grant_held, answer_held, grant_locked,
}
use homebrew_tools.DeviceBank.Edits.Basic.{key, Edits, unchanged, writes_lease, removes_lease}
use homebrew_tools.DeviceBank.Edits.Reaping.{drop_lease-Edits}
use homebrew_tools.DeviceBank.Exclusive.Keys.{Exclusive, Edits-Exclusive, Unheld, Unheld-remove_at}
use homebrew_tools.DeviceBank.Exclusive.New.{
  same-Exclusive, remove_waiters-Exclusive, take_wipe-Exclusive, queue_caller-leases,
  drop_lease-leases, lease_physical-Exclusive, grant_new-Exclusive,
}

abbrev pub HeldExclusive : LeaseRequest → Held → Type 0
HeldExclusive req (done s g changed) = Exclusive s
HeldExclusive req (choose s notes) = Exclusive s × Unheld req.session req.platform s.leases

-- A lease that its holder drops leaves the holder without one.
dropped :
    (s : State) (req : LeaseRequest) (j : ℕ) (l : Lease) (t : State)
    → Exclusive s
    → find_lease req.session req.platform s ≡ some (j, l)
    → Edits s t
    → t.leases ≡ remove_at s.leases j
    → Exclusive t × Unheld req.session req.platform t.leases
unfolding find_lease
dropped s req j l t v e h d =
    (Edits-Exclusive h v, rw d (Unheld-remove_at req.session req.platform s.leases v.apart e))

remove_lease-leases : (j : ℕ) (s : State) → (remove_lease j s).leases ≡ remove_at s.leases j
unfolding remove_lease
remove_lease-leases j s = refl

find_lease_sound :
    (session : String) (p : Platform) (s : State) {j : ℕ} {l : Lease}
    → find_lease session p s ≡ some (j, l)
    → get_elem? s.leases j ≡ some l
unfolding find_lease
find_lease_sound session p s e = (find_sound (held_by session p) s.leases e).0

hold_plugged-key : (l : Lease) (o : Option PhysicalDevice) → key (hold_plugged l o).lease ≡ key l
unfolding hold_plugged
hold_plugged-key l none = ground arith
hold_plugged-key l (some p) = ground arith

-- The decision on a held physical lease writes only when it was suspended.
hold_physical-key : (l : Lease) (probe : PhysicalProbe) → key (hold_physical l probe).lease ≡ key l
unfolding hold_physical
hold_physical-key l probe = elim (Option-cases (wired probe l)) [
  | inl e ↦ rw (e, hold_physical) (ground (arith, hold_plugged-key l none))
  | inr (p, e) ↦
      rw (e, hold_physical) (ground (arith, hold_plugged-key l none, hold_plugged-key l (some p)))
]

module _ (s : State) (req : LeaseRequest) (j : ℕ) (l : Lease) (v : Exclusive s)
    (held : find_lease req.session req.platform s ≡ some (j, l)) where
  dropped_lease :
      (now : ℕ) (reason : String)
      → Exclusive (drop_lease j l now reason s)
        × Unheld req.session req.platform (drop_lease j l now reason s).leases
  dropped_lease now reason =
      dropped s req j l _ v held (drop_lease-Edits j l now reason s)
        (drop_lease-leases j l now reason s)

  removed_lease :
      Exclusive (remove_lease j s) × Unheld req.session req.platform (remove_lease j s).leases
  removed_lease = dropped s req j l _ v held (removes_lease j unchanged) (remove_lease-leases j s)

  written_lease : (l' : Lease) → key l' ≡ key l → Exclusive (put_lease j l' s)
  written_lease l' p =
      Edits-Exclusive
        (writes_lease j l l' unchanged (find_lease_sound req.session req.platform s held) p) v

  -- The caller leaves the queue.
  served :
      (t : State) → Exclusive t → Exclusive (remove_waiters req.session (some req.platform) t).0
  served t w = remove_waiters-Exclusive req.session (some req.platform) t w

  waiting : (now deadline : ℕ) → Exclusive (queue_caller req.session req.platform now deadline s).0
  waiting now deadline =
      same-Exclusive s _ (queue_caller-leases req.session req.platform now deadline s) v

  resumed_lease :
      (i : ℕ) (d : Device) (now : ℕ)
      → Exclusive (put_lease j (power_up i d l now "resume" s).2 (power_up i d l now "resume" s).0)
  unfolding power_up journal put_device put_lease
  resumed_lease i d now =
      same-Exclusive (put_lease j (power_up i d l now "resume" s).2 s) _ refl (written_lease _ refl)

  grant_suspended-Exclusive :
      (i : ℕ) (d : Device) (p : Option PhysicalDevice) (vetted : List String) (now deadline : ℕ)
      → HeldExclusive req (grant_suspended s req j l i d p vetted now deadline)
  unfolding grant_suspended
  grant_suspended-Exclusive i d (some p) vetted now deadline =
      elim (Bool-cases (contains vetted p.serial)) [
        | inl t ↦
            let (w, u) = dropped_lease now "yield-physical" in
            rw t (lease_physical-Exclusive _ req p now w u)
        | inr t ↦ rw t v
      ]
  grant_suspended-Exclusive i d none vetted now deadline =
      elim (Option-cases (fair_reservation s req.session req.platform)) [
        | inl f ↦ rw (f, HeldExclusive, grant_suspended) (waiting now deadline)
        | inr ((k, x), f) ↦ elim (Bool-cases (k == i)) [
          | inl t ↦
              rw (f, HeldExclusive, grant_suspended, t)
                (take_wipe-Exclusive i _ (served _ (resumed_lease i d now)))
          | inr t ↦ rw (f, HeldExclusive, grant_suspended, t) (waiting now deadline)
        ]
      ]

  grant_held_virtual-Exclusive :
      (probe : PhysicalProbe) (excluded vetted : List String) (now deadline : ℕ)
      → HeldExclusive req (grant_held_virtual s req j l probe excluded vetted now deadline)
  unfolding grant_held_virtual
  grant_held_virtual-Exclusive probe excluded vetted now deadline =
      elim (Option-cases (find_device l.device_name s)) [
        | inl e ↦ rw (e, HeldExclusive, grant_held_virtual) removed_lease
        | inr ((i, d), e) ↦ elim (Bool-cases (is_on d.state)) [
          | inl t ↦ rw (e, HeldExclusive, grant_held_virtual, t) (served s v)
          | inr t ↦ elim (Bool-cases (is_off d.state)) [
            | inl o ↦
                rw (e, HeldExclusive, grant_held_virtual, t, o)
                  (grant_suspended-Exclusive i d _ vetted now deadline)
            | inr o ↦ rw (e, HeldExclusive, grant_held_virtual, t, o) removed_lease
          ]
        ]
      ]

  grant_held_physical-Exclusive :
      (probe : PhysicalProbe) (now : ℕ)
      → HeldExclusive req (grant_held_physical s req j l probe now)
  unfolding grant_held_physical
  grant_held_physical-Exclusive probe now = by_decision (hold_physical l probe).decision refl
    where
      held_on : Exclusive (put_lease j (hold_physical l probe).lease s)
      held_on = written_lease _ (hold_physical-key l probe)

      by_decision :
          (dec : HoldDecision)
          → (hold_physical l probe).decision ≡ dec
          → HeldExclusive req (grant_held_physical s req j l probe now)
      by_decision hold_keep e = rw (e, HeldExclusive, grant_held_physical) (served _ held_on)
      by_decision hold_retake e = rw (e, HeldExclusive, grant_held_physical) (served _ held_on)
      by_decision hold_wait e = rw (e, HeldExclusive, grant_held_physical) held_on
      by_decision hold_drop e =
          rw (e, HeldExclusive, grant_held_physical) (dropped_lease now "unplugged")

  either_held :
      (b : Bool) (x y : Held)
      → HeldExclusive req x
      → HeldExclusive req y
      → HeldExclusive req (if b then x else y)
  either_held true x y h k = h
  either_held false x y h k = k

  grant_held-Exclusive :
      (probe : PhysicalProbe) (excluded vetted : List String) (now deadline : ℕ)
      → HeldExclusive req (grant_held s req j l probe excluded vetted now deadline)
  unfolding grant_held
  grant_held-Exclusive probe excluded vetted now deadline =
      either_held (not (admits req.requirement l)) _ _ (dropped_lease now _) (
        either_held l.physical _ _ (grant_held_physical-Exclusive probe now)
          (grant_held_virtual-Exclusive probe excluded vetted now deadline))

-- One attempt to serve a request keeps the leases exclusive.
pub grant_locked-Exclusive :
    (s : State) (req : LeaseRequest) (probe : PhysicalProbe) (excluded vetted : List String)
    (now deadline : ℕ)
    → Exclusive s
    → Exclusive (grant_locked s req probe excluded vetted now deadline).0
unfolding grant_locked answer_held find_lease
grant_locked-Exclusive s req probe excluded vetted now deadline v =
    elim (Option-cases (find_lease req.session req.platform s)) [
      | inl e ↦
          rw (e, grant_locked)
            (grant_new-Exclusive s req probe excluded [] false now deadline v
              (find-none (held_by req.session req.platform) s.leases e))
      | inr ((j, l), e) ↦
          rw (e, grant_locked)
            (answered (grant_held s req j l probe excluded vetted now deadline)
              (grant_held-Exclusive s req j l v e probe excluded vetted now deadline))
    ]
  where
    answered :
        (h : Held)
        → HeldExclusive req h
        → Exclusive (answer_held req probe excluded now deadline h).0
    answered (done t g changed) w = w
    answered (choose t notes) w =
        grant_new-Exclusive t req probe excluded notes true now deadline w.0 w.1
