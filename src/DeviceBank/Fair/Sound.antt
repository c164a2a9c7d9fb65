-- ===== src/DeviceBank/Fair/Sound.antt =====
-- What `fairReservation` hands out.
use native.Mathlib.Nat.{le_trans}
use homebrew_tools.Prelude.{
  ℕ, ◌-◌, ◌≤◌, ◌<◌, String, true, false, Option, none, some, List, [], ◌∷◌, ◌==◌, find, get_elem?,
  ◌≡◌, refl, ◌⊎◌, inl, inr, arith, Bool-cases, Option-cases, find_sound,
}
use homebrew_tools.DeviceBank.Types.{
  Platform, platform_eq, is_off, Device, Lease, Waiter, State, contains,
}
use homebrew_tools.DeviceBank.State.{
  find_device, find_lease, lease_for_device, max_on, powered_on_count,
}
use homebrew_tools.DeviceBank.Queue.{
  waits_as, ordered_queue, is_candidate, device_to_power_on, walk_queue, reserve, fair_reservation,
}
use homebrew_tools.DeviceBank.Edits.Reaping.{find_device_sound}

-- The device that a session may have turned on: the off device of its own lease, or, where it has
-- none of the platform, an off device of the platform that nobody leases and nobody ahead takes.
pub record MayTurnOn (s : State) (session : String) (platform : Platform) (taken : List String)
    (i : ℕ) (d : Device) : Type 0 where
  pub there : get_elem? s.devices i ≡ some d
  pub is_off : is_off d.state ≡ true
  pub entitled :
      ((j : ℕ) × (l : Lease) × (find_lease session platform s ≡ some (j, l))
        × (l.physical ≡ false)
        × (find_device l.device_name s ≡ some (i, d)))
      ⊎ ((find_lease session platform s ≡ none)
          × (platform_eq d.platform platform ≡ true)
          × (contains taken d.name ≡ false)
          × (lease_for_device d.name s ≡ none))

held_device :
    (s : State) (session : String) (platform : Platform) (taken : List String) (j : ℕ) (l : Lease)
    {i : ℕ} {d : Device}
    → find_lease session platform s ≡ some (j, l)
    → device_to_power_on s session platform taken ≡ some (i, d)
    → (l.physical ≡ false) × (find_device l.device_name s ≡ some (i, d)) × (is_off d.state ≡ true)
unfolding device_to_power_on
held_device s session platform taken j l e h = ground arith

is_candidate_parts :
    (s : State) (platform : Platform) (taken : List String) (d : Device)
    → is_candidate s platform taken d ≡ true
    → (platform_eq d.platform platform ≡ true)
      × (is_off d.state ≡ true)
      × (contains taken d.name ≡ false)
      × (lease_for_device d.name s ≡ none)
is_candidate_parts s platform taken d h = ground arith

free_device :
    (s : State) (session : String) (platform : Platform) (taken : List String) {i : ℕ} {d : Device}
    → find_lease session platform s ≡ none
    → device_to_power_on s session platform taken ≡ some (i, d)
    → MayTurnOn s session platform taken i d
unfolding device_to_power_on
free_device s session platform taken {i} {d} e h =
    let found : find (is_candidate s platform taken) s.devices ≡ some (i, d) = ground arith in
    let (there, fits) = find_sound (is_candidate s platform taken) s.devices found in
    let (p, o, t, f) = is_candidate_parts s platform taken d fits in
    record { there = there; is_off = o; entitled = inr (e, p, t, f) }

pub device_to_power_on_sound :
    (s : State) (session : String) (platform : Platform) (taken : List String) {i : ℕ} {d : Device}
    → device_to_power_on s session platform taken ≡ some (i, d)
    → MayTurnOn s session platform taken i d
device_to_power_on_sound s session platform taken h =
    elim (Option-cases (find_lease session platform s)) [
      | inl e ↦ free_device s session platform taken e h
      | inr ((j, l), e) ↦
          let (p, f, o) = held_device s session platform taken j l e h in
          record {
            there = (find_device_sound l.device_name s f).0;
            is_off = o;
            entitled = inl (j, l, e, p, f);
          }
    ]

walk_queue-le :
    (s : State) (session : String) (platform : Platform) (q : List Waiter) (slots : ℕ)
    (taken : List String) {k : ℕ} {names : List String}
    → walk_queue s session platform q slots taken ≡ some (k, names)
    → k ≤ slots
unfolding walk_queue
walk_queue-le s session platform [] slots taken h = ground arith
walk_queue-le s session platform (w ∷ q) slots taken {names = names} h =
    elim (Bool-cases (waits_as session (some platform) w)) [
      | inl own ↦ ground arith
      | inr ahead ↦ elim (Bool-cases (slots == 0)) [
        | inl out ↦ absurd (ground arith)
        | inr more ↦ elim (Option-cases (device_to_power_on s w.session_id w.platform taken)) [
          | inl e ↦ walk_queue-le s session platform q slots taken {names = names} (ground arith)
          | inr ((i, d), e) ↦
              le_trans
                (walk_queue-le s session platform q (slots - 1) (d.name ∷ taken) {names = names}
                  (ground arith))
                (omega arith)
        ]
      ]
    ]

pub reserve_parts :
    (s : State) (session : String) (platform : Platform) (o : Option (ℕ × List String)) {i : ℕ}
    {d : Device}
    → reserve s session platform o ≡ some (i, d)
    → (k : ℕ) × (taken : List String) × (o ≡ some (k, taken))
      × (0 < k)
      × (device_to_power_on s session platform taken ≡ some (i, d))
unfolding reserve
reserve_parts s session platform none h = cc
reserve_parts s session platform (some (k, taken)) h = (k, taken, refl, ground arith, ground arith)

-- A fair reservation leaves a slot free, and hands out a device that the session may turn on.
pub fair_reservation_sound :
    (s : State) (session : String) (platform : Platform) {i : ℕ} {d : Device}
    → fair_reservation s session platform ≡ some (i, d)
    → (powered_on_count s < max_on s)
      × ((taken : List String) × MayTurnOn s session platform taken i d)
unfolding fair_reservation
fair_reservation_sound s session platform h =
    let (k, taken, walked, free, found) = reserve_parts s session platform _ h in
    let le = walk_queue-le s session platform (ordered_queue s) _ [] walked in
    (omega arith, (taken, device_to_power_on_sound s session platform taken found))
