-- ===== src/DeviceBank/Grant.antt =====
-- `grantLocked` of internal/atelierd/devicebank/ops.go: one attempt to serve a lease request.
use homebrew_tools.Prelude.{
  ℕ, ◌-◌, String, Bool, true, false, not, Option, none, some, List, [], ◌∷◌, ◌++◌, ◌&&◌, ◌||◌, leb,
  ◌==◌, str_eq, if◌then◌else◌, get_elem?, set,
}
use homebrew_tools.DeviceBank.Types.{
  Platform, is_off, is_on, notify_after, Device, Lease, suspended, Waiter, State, PhysicalDevice,
  contains,
}
use homebrew_tools.DeviceBank.State.{find_device, find_lease, put_device, put_lease}
use homebrew_tools.DeviceBank.Queue.{remove_waiters, upsert_waiter, fair_reservation}
use homebrew_tools.DeviceBank.Lease.{
  virtual, plugged, power_up, commit_lease, remove_lease, drop_lease,
}
use homebrew_tools.DeviceBank.Physical.{
  Requirement, require_virtual, require_any, require_physical, admits_physical, admits_virtual,
  admits, LeaseRequest, PhysicalProbe, hold_keep, hold_drop, hold_retake, hold_wait, Hold,
  hold_physical, Note, type_ends, unplugged, no_app_id, yields, pick_physical,
}

pub record Grant : Type 0 where
  pub lease : Option Lease
  pub boot : Option Device
  pub wipe : Bool
  pub notify : Option Waiter
  pub take : Option PhysicalDevice
  pub vet : Option PhysicalDevice
  pub resume_stay_on : Bool
  pub notes : List Note

abbrev pub no_grant : Grant
no_grant = record {
  lease = none;
  boot = none;
  wipe = false;
  notify = none;
  take = none;
  vet = none;
  resume_stay_on = false;
  notes = [];
}

-- The state, the device without its pending wipe, and whether one was pending.
unfoldable pub take_wipe : ℕ → State → State × Option Device × Bool
take_wipe i s = elim (get_elem? s.devices i) [
  | none ↦ (s, none, false)
  | some d ↦
      let d' : Device = record d { wipe_pending = false } in
      (put_device i d' s, some d', d.wipe_pending)
]

unfoldable pub queue_caller : String → Platform → ℕ → ℕ → State → State × Grant × Bool
queue_caller session platform now deadline s =
    let (s', (i, w), changed) = upsert_waiter session platform now deadline s in
    let told : Waiter = record w { notified_at = now } in
    if w.notified_at == 0 && leb notify_after (now - w.enqueued_at)
    then (record s' { queue = set s'.queue i told }, record no_grant { notify = some told }, true)
    else (s', no_grant, changed)

unfoldable pub pick_yield :
    State → LeaseRequest → PhysicalProbe → List String → Option PhysicalDevice
pick_yield s req probe excluded =
    if not (admits_physical req.requirement) || str_eq req.app_id ""
    then none
    else (pick_physical s req.platform probe.devices excluded).0

unfoldable pub put_last_lease : Lease → List Lease → List Lease
put_last_lease l [] = []
put_last_lease l (x ∷ []) = l ∷ []
put_last_lease l (x ∷ y ∷ xs) = x ∷ put_last_lease l (y ∷ xs)

unfoldable pub lease_physical : State → LeaseRequest → PhysicalDevice → ℕ → State × Lease
unfolding put_last_lease
lease_physical s req p now =
    let (s1, l) = commit_lease s (plugged p) req.session req.workdir req.platform now in
    let l' : Lease = record l { app_id = req.app_id } in
    let s2 : State = record s1 { leases = put_last_lease l' s1.leases } in
    ((remove_waiters req.session (some req.platform) s2).0, l')

-- A held lease is answered, or the caller chooses again.
pub data Held : Type 0 where
  done : State → Grant → Bool → Held
  choose : State → List Note → Held

-- A suspended lease on a device that is off: it yields to a physical device, resumes, or waits.
unfoldable pub grant_suspended :
    State
    → LeaseRequest
    → ℕ
    → Lease
    → ℕ
    → Device
    → Option PhysicalDevice
    → List String
    → ℕ
    → ℕ
    → Held
grant_suspended s req j l i d (some p) vetted now deadline =
    if not (contains vetted p.serial)
    then done s (record no_grant { vet = some p }) false
    else (let (s', l') = lease_physical (drop_lease j l now "yield-physical" s) req p now in
        done s' (record no_grant { lease = some l'; take = some p; notes = yields p d ∷ [] }) true)
grant_suspended s req j l i d none vetted now deadline =
    elim (fair_reservation s req.session req.platform) [
      | some (k, _) ↦ if k == i then resume else wait
      | none ↦ wait
    ]
  where
    resume : Held
    resume =
        let (s1, _, l') = power_up i d l now "resume" s in
        let s2 = (remove_waiters req.session (some req.platform) (put_lease j l' s1)).0 in
        let (s3, booted, wipe) = take_wipe i s2 in
        done s3 (record no_grant { lease = some l'; boot = booted; wipe = wipe }) true

    wait : Held
    wait =
        let (s', g, changed) = queue_caller req.session req.platform now deadline s in
        done s' g changed

unfoldable pub grant_held_virtual :
    State → LeaseRequest → ℕ → Lease → PhysicalProbe → List String → List String → ℕ → ℕ → Held
grant_held_virtual s req j l probe excluded vetted now deadline =
    elim (find_device l.device_name s) [
      | none ↦ gone
      | some (i, d) ↦
          if is_on d.state
          then kept
          else if is_off d.state
          then grant_suspended s req j l i d (pick_yield s req probe excluded) vetted now deadline
          else gone
    ]
  where
    gone : Held
    gone = choose (remove_lease j s) []

    kept : Held
    kept =
        let (s', removed) = remove_waiters req.session (some req.platform) s in
        done s' (record no_grant { lease = some l }) removed

unfoldable pub grant_held_physical : State → LeaseRequest → ℕ → Lease → PhysicalProbe → ℕ → Held
grant_held_physical s req j l probe now = elim hold.decision [
  | hold_keep ↦ kept
  | hold_retake ↦ kept
  | hold_wait ↦ done held no_grant woken
  | hold_drop ↦ choose (drop_lease j l now "unplugged" s) (unplugged l ∷ [])
]
  where
    hold : Hold
    hold = hold_physical l probe

    held : State
    held = put_lease j hold.lease s

    woken : Bool
    woken = not (suspended hold.lease) && suspended l

    kept : Held
    kept =
        let (s', removed) = remove_waiters req.session (some req.platform) held in
        done s'
          (record no_grant {
            lease = some hold.lease;
            take = hold.device;
            resume_stay_on = hold.resume_stay_on;
          })
          (removed || woken)

type_reason : Requirement → String
type_reason require_virtual = "type-virtual"
type_reason require_any = "type-any"
type_reason require_physical = "type-physical"

-- The switch on the lease that the session holds.
unfoldable pub grant_held :
    State → LeaseRequest → ℕ → Lease → PhysicalProbe → List String → List String → ℕ → ℕ → Held
unfolding type_reason
grant_held s req j l probe excluded vetted now deadline =
    if not (admits req.requirement l)
    then choose (drop_lease j l now (type_reason req.requirement) s)
        (type_ends req.requirement l ∷ [])
    else if l.physical
    then grant_held_physical s req j l probe now
    else grant_held_virtual s req j l probe excluded vetted now deadline

-- The virtual choice: a fair reservation, or the queue.
unfoldable pub grant_virtual :
    State → LeaseRequest → List Note → Bool → ℕ → ℕ → State × Grant × Bool
grant_virtual s req notes changed now deadline =
    if not (admits_virtual req.requirement)
    then (s, record no_grant { notes = notes }, changed)
    else elim (fair_reservation s req.session req.platform) [
      | some (i, d) ↦
          let (s1, l) = commit_lease s (virtual i d) req.session req.workdir req.platform now in
          let s2 = (remove_waiters req.session (some req.platform) s1).0 in
          let (s3, booted, wipe) = take_wipe i s2 in
          (s3, record no_grant { lease = some l; boot = booted; wipe = wipe; notes = notes }, true)
      | none ↦
          let (s', g, queued) = queue_caller req.session req.platform now deadline s in
          (s', record g { notes = notes }, queued || changed)
    ]

-- The choice of a new device: a physical one first.
unfoldable pub grant_new :
    State
    → LeaseRequest
    → PhysicalProbe
    → List String
    → List Note
    → Bool
    → ℕ
    → ℕ
    → State × Grant × Bool
grant_new s req probe excluded notes changed now deadline =
    if not (admits_physical req.requirement)
    then grant_virtual s req notes changed now deadline
    else if str_eq req.app_id ""
    then grant_virtual s req (notes ++ (no_app_id ∷ [])) changed now deadline
    else (let (picked, skips) = pick_physical s req.platform probe.devices excluded in
        elim picked [
          | some p ↦
              let (s', l) = lease_physical s req p now in
              (s', record no_grant { lease = some l; take = some p; notes = notes ++ skips }, true)
          | none ↦ grant_virtual s req (notes ++ skips) changed now deadline
        ])

unfoldable pub answer_held :
    LeaseRequest → PhysicalProbe → List String → ℕ → ℕ → Held → State × Grant × Bool
answer_held req probe excluded now deadline (done s g changed) = (s, g, changed)
answer_held req probe excluded now deadline (choose s notes) =
    grant_new s req probe excluded notes true now deadline

-- `excluded` and `vetted` are the serials of physical devices given up, and tried, by this request.
unfoldable pub grant_locked :
    State → LeaseRequest → PhysicalProbe → List String → List String → ℕ → ℕ → State × Grant × Bool
unfolding answer_held
grant_locked s req probe excluded vetted now deadline =
    elim (find_lease req.session req.platform s) [
      | none ↦ grant_new s req probe excluded [] false now deadline
      | some (j, l) ↦
          answer_held req probe excluded now deadline
            (grant_held s req j l probe excluded vetted now deadline)
    ]
