-- ===== src/DeviceBank/Limit/Granting.antt =====
-- A grant turns a device on only below the limit.
use homebrew_tools.Prelude.{
  ℕ, ◌≤◌, ◌<◌, String, Bool, true, false, Option, none, some, List, [], ◌==◌, str_eq, get_elem?,
  ◌≡◌, refl, inl, inr, arith, Bool-cases, Option-cases, All-set, count-set,
}
use homebrew_tools.DeviceBank.Types.{
  Platform, on, is_off, is_on, Device, may_be_on, Lease, State, PhysicalDevice, contains,
}
use homebrew_tools.DeviceBank.State.{
  find_device, find_lease, max_on, powered_on_count, journal, put_device, put_lease,
}
use homebrew_tools.DeviceBank.Queue.{remove_waiters, upsert_waiter, fair_reservation}
use homebrew_tools.DeviceBank.Lease.{power_up, append_lease, commit_lease}
use homebrew_tools.DeviceBank.Physical.{
  admits_physical, admits_virtual, admits, LeaseRequest, PhysicalProbe, HoldDecision, hold_keep,
  hold_drop, hold_retake, hold_wait, hold_physical, Note, pick_physical,
}
use homebrew_tools.DeviceBank.Grant.{
  take_wipe, queue_caller, lease_physical, Held, done, choose, grant_suspended, grant_held_virtual,
  grant_held_physical, grant_held, grant_virtual, grant_new, answer_held, grant_locked,
}
use homebrew_tools.DeviceBank.Edits.Basic.{
  is_modern, Edits, unchanged, writes_device, removes_lease,
}
use homebrew_tools.DeviceBank.Edits.Reaping.{find_device_sound, drop_lease-Edits}
use homebrew_tools.DeviceBank.Fair.Sound.{fair_reservation_sound}
use homebrew_tools.DeviceBank.Limit.Steady.{Modern, Edits-Steady}

-- At most m devices may be on, and the limit is at most m.
pub record Within (m : ℕ) (s : State) : Type 0 where
  pub modern : Modern s
  pub bound : powered_on_count s ≤ m
  pub limit : max_on s ≤ m

pub Edits-Within : {m : ℕ} {s t : State} → Edits s t → Within m s → Within m t
unfolding max_on
Edits-Within e v =
    let h = Edits-Steady e in
    record {
      modern = h.modern v.modern;
      bound = omega (arith, h.fewer v.modern, v.bound);
      limit = rw h.config v.limit;
    }

-- A power-up of an off device takes one slot.
power_up-Within :
    {m : ℕ} (i : ℕ) (d : Device) (l : Lease) (now : ℕ) (reason : String) (s : State)
    → get_elem? s.devices i ≡ some d
    → powered_on_count s < max_on s
    → Within m s
    → Within m (power_up i d l now reason s).0
unfolding power_up journal put_device powered_on_count max_on
power_up-Within i d l now reason s e free v = record {
  modern = All-set (λ x. is_modern x.state ≡ true) s.devices i _ v.modern refl;
  bound = omega (
    arith,
    count-set may_be_on s.devices i
        (record d { state = on; powered_on_at = now; last_used_at = now; booting = true }) e,
    free,
    v.limit,
  );
  limit = v.limit;
}

-- A state with the same devices and configuration as one that is within the bound.
pub same-Within :
    {m : ℕ} (s t : State) → t.devices ≡ s.devices → t.config ≡ s.config → Within m s → Within m t
unfolding powered_on_count max_on
same-Within s t d c v = record {
  modern = rw d v.modern;
  bound = rw d v.bound;
  limit = rw c v.limit;
}

take_wipe-Within : {m : ℕ} (i : ℕ) (s : State) → Within m s → Within m (take_wipe i s).0
unfolding take_wipe
take_wipe-Within i s v = elim (Option-cases (get_elem? s.devices i)) [
  | inl e ↦ rw (e, take_wipe) v
  | inr (d, e) ↦ rw (e, take_wipe) (Edits-Within (writes_device i d _ unchanged e (ground arith)) v)
]

remove_waiters-Within :
    {m : ℕ} (session : String) (p : Option Platform) (s : State)
    → Within m s
    → Within m (remove_waiters session p s).0
unfolding remove_waiters
remove_waiters-Within session p s v = same-Within s _ refl refl v

queue_caller-Within :
    {m : ℕ} (session : String) (p : Platform) (now deadline : ℕ) (s : State)
    → Within m s
    → Within m (queue_caller session p now deadline s).0
unfolding queue_caller upsert_waiter
queue_caller-Within session p now deadline s v = same-Within s _ (ground arith) (ground arith) v

lease_physical-Within :
    {m : ℕ} (s : State) (req : LeaseRequest) (p : PhysicalDevice) (now : ℕ)
    → Within m s
    → Within m (lease_physical s req p now).0
unfolding lease_physical commit_lease append_lease
lease_physical-Within s req p now v =
    remove_waiters-Within req.session (some req.platform) _ (same-Within s _ refl refl v)

abbrev HeldWithin : ℕ → Held → Type 0
HeldWithin m (done s g changed) = Within m s
HeldWithin m (choose s notes) = Within m s

grant_suspended-Within :
    {m : ℕ} (s : State) (req : LeaseRequest) (j : ℕ) (l : Lease) (i : ℕ) (d : Device)
    (p : Option PhysicalDevice) (vetted : List String) (now deadline : ℕ)
    → get_elem? s.devices i ≡ some d
    → Within m s
    → HeldWithin m (grant_suspended s req j l i d p vetted now deadline)
unfolding grant_suspended put_lease
grant_suspended-Within s req j l i d (some p) vetted now deadline e v =
    elim (Bool-cases (contains vetted p.serial)) [
      | inl t ↦ rw t (
          lease_physical-Within _ req p now
            (Edits-Within (drop_lease-Edits j l now "yield-physical" s) v))
      | inr t ↦ rw t v
    ]
grant_suspended-Within s req j l i d none vetted now deadline e v =
    elim (Option-cases (fair_reservation s req.session req.platform)) [
      | inl f ↦
          rw (f, HeldWithin, grant_suspended)
            (queue_caller-Within req.session req.platform now deadline s v)
      | inr ((k, x), f) ↦ elim (Bool-cases (k == i)) [
        | inl t ↦
            rw (f, HeldWithin, grant_suspended, t)
              (take_wipe-Within i _ (
                remove_waiters-Within req.session (some req.platform) _ (
                  same-Within (power_up i d l now "resume" s).0 _ refl refl (
                    power_up-Within i d l now "resume" s e
                      (fair_reservation_sound s req.session req.platform f).0 v))))
        | inr t ↦
            rw (f, HeldWithin, grant_suspended, t)
              (queue_caller-Within req.session req.platform now deadline s v)
      ]
    ]

grant_held_virtual-Within :
    {m : ℕ} (s : State) (req : LeaseRequest) (j : ℕ) (l : Lease) (probe : PhysicalProbe)
    (excluded vetted : List String) (now deadline : ℕ)
    → Within m s
    → HeldWithin m (grant_held_virtual s req j l probe excluded vetted now deadline)
unfolding grant_held_virtual
grant_held_virtual-Within s req j l probe excluded vetted now deadline v =
    elim (Option-cases (find_device l.device_name s)) [
      | inl e ↦ rw (e, HeldWithin, grant_held_virtual) (Edits-Within (removes_lease j unchanged) v)
      | inr ((i, d), e) ↦ elim (Bool-cases (is_on d.state)) [
        | inl t ↦
            rw (e, HeldWithin, grant_held_virtual, t)
              (remove_waiters-Within req.session (some req.platform) s v)
        | inr t ↦ elim (Bool-cases (is_off d.state)) [
          | inl o ↦
              rw (e, HeldWithin, grant_held_virtual, t, o)
                (grant_suspended-Within s req j l i d _ vetted now deadline
                  (find_device_sound l.device_name s e).0 v)
          | inr o ↦
              rw (e, HeldWithin, grant_held_virtual, t, o)
                (Edits-Within (removes_lease j unchanged) v)
        ]
      ]
    ]

held_lease-Within :
    {m : ℕ} (j : ℕ) (l : Lease) (s : State) → Within m s → Within m (put_lease j l s)
unfolding put_lease
held_lease-Within j l s v = same-Within s _ refl refl v

grant_held_physical-Within :
    {m : ℕ} (s : State) (req : LeaseRequest) (j : ℕ) (l : Lease) (probe : PhysicalProbe) (now : ℕ)
    → Within m s
    → HeldWithin m (grant_held_physical s req j l probe now)
unfolding grant_held_physical
grant_held_physical-Within {m} s req j l probe now v =
    by_decision (hold_physical l probe).decision refl
  where
    kept :
        Within m
          (remove_waiters req.session
            (some req.platform)
            (put_lease j (hold_physical l probe).lease s)).0
    kept = remove_waiters-Within req.session (some req.platform) _ (held_lease-Within j _ s v)

    by_decision :
        (dec : HoldDecision)
        → (hold_physical l probe).decision ≡ dec
        → HeldWithin m (grant_held_physical s req j l probe now)
    by_decision hold_keep e = rw (e, HeldWithin, grant_held_physical) kept
    by_decision hold_retake e = rw (e, HeldWithin, grant_held_physical) kept
    by_decision hold_wait e = rw (e, HeldWithin, grant_held_physical) (held_lease-Within j _ s v)
    by_decision hold_drop e =
        rw (e, HeldWithin, grant_held_physical)
          (Edits-Within (drop_lease-Edits j l now "unplugged" s) v)

grant_held-Within :
    {m : ℕ} (s : State) (req : LeaseRequest) (j : ℕ) (l : Lease) (probe : PhysicalProbe)
    (excluded vetted : List String) (now deadline : ℕ)
    → Within m s
    → HeldWithin m (grant_held s req j l probe excluded vetted now deadline)
unfolding grant_held
grant_held-Within s req j l probe excluded vetted now deadline v =
    elim (Bool-cases (admits req.requirement l)) [
      | inr refused ↦ rw refused (Edits-Within (drop_lease-Edits j l now _ s) v)
      | inl fits ↦ elim (Bool-cases l.physical) [
        | inl p ↦ rw fits (simp p (grant_held_physical-Within s req j l probe now v))
        | inr p ↦
            rw fits
              (simp p (grant_held_virtual-Within s req j l probe excluded vetted now deadline v))
      ]
    ]

grant_virtual-Within :
    {m : ℕ} (s : State) (req : LeaseRequest) (notes : List Note) (changed : Bool) (now deadline : ℕ)
    → Within m s
    → Within m (grant_virtual s req notes changed now deadline).0
unfolding grant_virtual commit_lease append_lease
grant_virtual-Within s req notes changed now deadline v =
    elim (Bool-cases (admits_virtual req.requirement)) [
      | inr refused ↦ rw refused v
      | inl fits ↦ elim (Option-cases (fair_reservation s req.session req.platform)) [
        | inl f ↦
            rw (fits, f, grant_virtual)
              (queue_caller-Within req.session req.platform now deadline s v)
        | inr ((i, d), f) ↦
            let (free, (taken, may)) = fair_reservation_sound s req.session req.platform f in
            rw (fits, f, grant_virtual)
              (take_wipe-Within i _ (
                remove_waiters-Within req.session (some req.platform) _ (
                  same-Within (power_up i d _ now "lease" s).0 _ refl refl
                    (power_up-Within i d _ now "lease" s may.there free v))))
      ]
    ]

grant_new-Within :
    {m : ℕ} (s : State) (req : LeaseRequest) (probe : PhysicalProbe) (excluded : List String)
    (notes : List Note) (changed : Bool) (now deadline : ℕ)
    → Within m s
    → Within m (grant_new s req probe excluded notes changed now deadline).0
unfolding grant_new
grant_new-Within s req probe excluded notes changed now deadline v =
    elim (Bool-cases (admits_physical req.requirement)) [
      | inr refused ↦ rw refused (grant_virtual-Within s req _ _ now deadline v)
      | inl fits ↦ elim (Bool-cases (str_eq req.app_id "")) [
        | inl a ↦ rw (fits, a) (grant_virtual-Within s req _ _ now deadline v)
        | inr a ↦ elim (Option-cases (pick_physical s req.platform probe.devices excluded).0) [
          | inl e ↦ rw (fits, a, e, grant_new) (grant_virtual-Within s req _ _ now deadline v)
          | inr (p, e) ↦ rw (fits, a, e, grant_new) (lease_physical-Within s req p now v)
        ]
      ]
    ]

-- An attempt to serve a request keeps the devices that may be on within any bound that the limit
-- keeps too, whatever it is asked for and whatever it grants, queues or drops.
pub grant_locked-Within :
    {m : ℕ} (s : State) (req : LeaseRequest) (probe : PhysicalProbe) (excluded vetted : List String)
    (now deadline : ℕ)
    → Within m s
    → Within m (grant_locked s req probe excluded vetted now deadline).0
unfolding grant_locked answer_held
grant_locked-Within {m} s req probe excluded vetted now deadline v =
    elim (Option-cases (find_lease req.session req.platform s)) [
      | inl e ↦ rw (e, grant_locked) (grant_new-Within s req probe excluded [] false now deadline v)
      | inr ((j, l), e) ↦
          rw (e, grant_locked)
            (answered (grant_held s req j l probe excluded vetted now deadline)
              (grant_held-Within s req j l probe excluded vetted now deadline v))
    ]
  where
    answered :
        (h : Held) → HeldWithin m h → Within m (answer_held req probe excluded now deadline h).0
    answered (done t g changed) w = w
    answered (choose t notes) w = grant_new-Within t req probe excluded notes true now deadline w
