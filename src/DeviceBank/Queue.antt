-- ===== src/DeviceBank/Queue.antt =====
-- internal/atelierd/devicebank/queue.go: the waiters, and the fair reservation of a device.
use homebrew_tools.Prelude.{
  ℕ, ◌+◌, ◌-◌, String, Bool, true, false, not, Option, none, some, List, [], ◌∷◌, ◌++◌, ◌&&◌, ◌||◌,
  ltb, leb, ◌==◌, str_eq, if◌then◌else◌, find, set, keep, length, is_some,
}
use homebrew_tools.DeviceBank.Types.{
  Platform, platform_eq, is_off, is_on, queue_grace, Device, Lease, Waiter, State, contains,
  suspended,
}
use homebrew_tools.DeviceBank.State.{
  find_device, find_lease, lease_for_device, max_on, powered_on_count,
}

abbrev pub live_at : ℕ → Waiter → Bool
live_at now w = leb now w.expires_at

unfoldable pub drop_expired_waiters : ℕ → State → State × Bool
drop_expired_waiters now s = (record s { queue = kept }, not (length kept == length s.queue))
  where
    kept : List Waiter
    kept = keep (live_at now) s.queue

-- No platform stands for Go's empty platform: any.
abbrev pub of_platform : Option Platform → Platform → Bool
of_platform none q = true
of_platform (some p) q = platform_eq q p

abbrev pub waits_as : String → Option Platform → Waiter → Bool
waits_as session platform w = str_eq w.session_id session && of_platform platform w.platform

unfoldable pub remove_waiters : String → Option Platform → State → State × Bool
remove_waiters session platform s = (record s { queue = kept }, not (length kept == length s.queue))
  where
    kept : List Waiter
    kept = keep (λ w. not (waits_as session platform w)) s.queue

unfoldable pub find_waiter : String → Platform → State → Option (ℕ × Waiter)
find_waiter session platform s = find (waits_as session (some platform)) s.queue

-- The state, the position of the caller's waiter with the waiter, and whether something changed.
unfoldable pub upsert_waiter : String → Platform → ℕ → ℕ → State → State × (ℕ × Waiter) × Bool
upsert_waiter session platform now deadline s = elim (find_waiter session platform s) [
  | some (i, w) ↦
      if ltb w.expires_at expires
      then (put i (renewed w), (i, renewed w), true)
      else (s, (i, w), false)
  | none ↦ (record s { queue = s.queue ++ (fresh ∷ []) }, (length s.queue, fresh), true)
]
  where
    expires : ℕ
    expires = deadline + queue_grace

    renewed : Waiter → Waiter
    renewed w = record w { expires_at = expires }

    put : ℕ → Waiter → State
    put i w = record s { queue = set s.queue i w }

    fresh : Waiter
    fresh = record {
      session_id = session;
      platform = platform;
      enqueued_at = now;
      expires_at = expires;
      notified_at = 0;
    }

-- The stable sort by arrival: a waiter goes before those, later in the list, that arrived no earlier.
unfoldable pub insert_waiter : Waiter → List Waiter → List Waiter
insert_waiter w [] = w ∷ []
insert_waiter w (v ∷ q) =
    if leb w.enqueued_at v.enqueued_at then w ∷ (v ∷ q) else v ∷ insert_waiter w q

unfoldable pub sort_waiters : List Waiter → List Waiter
sort_waiters [] = []
sort_waiters (w ∷ q) = insert_waiter w (sort_waiters q)

unfoldable pub ordered_queue : State → List Waiter
ordered_queue s = sort_waiters s.queue

abbrev pub is_candidate : State → Platform → List String → Device → Bool
is_candidate s platform taken d =
    platform_eq d.platform platform
    && is_off d.state
    && not (contains taken d.name)
    && not (is_some (lease_for_device d.name s))

unfoldable pub device_to_power_on : State → String → Platform → List String → Option (ℕ × Device)
device_to_power_on s session platform taken = elim (find_lease session platform s) [
  | some (_, l) ↦ if l.physical then none else (elim (find_device l.device_name s) [
    | none ↦ none
    | some (i, d) ↦ if is_off d.state then some (i, d) else none
  ])
  | none ↦ find (is_candidate s platform taken) s.devices
]

-- The loop over the queue: the waiters ahead of the caller take their share of the slots. It ends
-- by a break at the caller, by a return without a device, or at the queue's end; `none` is the
-- return.
unfoldable pub walk_queue :
    State → String → Platform → List Waiter → ℕ → List String → Option (ℕ × List String)
walk_queue s session platform [] slots taken = some (slots, taken)
walk_queue s session platform (w ∷ q) slots taken =
    let served = walk_queue s session platform q in
    if waits_as session (some platform) w
    then some (slots, taken)
    else if slots == 0
    then none
    else elim (device_to_power_on s w.session_id w.platform taken) [
      | none ↦ served slots taken
      | some (_, d) ↦ served (slots - 1) (d.name ∷ taken)
    ]

unfoldable pub reserve : State → String → Platform → Option (ℕ × List String) → Option (ℕ × Device)
reserve s session platform none = none
reserve s session platform (some (slots, taken)) =
    if slots == 0 then none else device_to_power_on s session platform taken

-- Where more devices are on than the limit allows, the free slots of the source are negative; here
-- they are 0, and both tests of the source are `slots <= 0`.
unfoldable pub fair_reservation : State → String → Platform → Option (ℕ × Device)
fair_reservation s session platform =
    reserve s session platform
      (walk_queue s session platform (ordered_queue s) (max_on s - powered_on_count s) [])

abbrev pub holds_on : State → Lease → Option Device
holds_on s l = elim (find_device l.device_name s) [
  | none ↦ none
  | some (_, d) ↦ if is_on d.state then some d else none
]

held_on_from : State → String → List Lease → Option Device
held_on_from s session [] = none
held_on_from s session (l ∷ ls) =
    let rest = held_on_from s session ls in
    if not (str_eq l.session_id session) || l.physical || suspended l || l.device_died
    then rest
    else elim (holds_on s l) [ some d ↦ some d | none ↦ rest ]

unfoldable pub held_on_device : State → String → Option Device
unfolding held_on_from
held_on_device s session = held_on_from s session s.leases

unfoldable pub live_waiters : State → ℕ → String → List Waiter
live_waiters s now except =
    keep (λ w. not (str_eq w.session_id except) && live_at now w) (ordered_queue s)
