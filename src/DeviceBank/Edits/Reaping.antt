-- ===== src/DeviceBank/Edits/Reaping.antt =====
-- The lifecycle pass turns no device on.
use homebrew_tools.Prelude.{
  ℕ, suc, ◌+◌, String, Bool, true, false, some, List, [], ◌∷◌, ◌||◌, leb, str_eq, get_elem?, ◌≡◌,
  inl, inr, arith, Bool-cases, Option-cases, find_sound, or-false,
}
use homebrew_tools.DeviceBank.Types.{is_off, is_recycling, is_broken, Device, Lease, State}
use homebrew_tools.DeviceBank.State.{find_device}
use homebrew_tools.DeviceBank.Lease.{
  send_to_recycling, recycle_device, drop_lease, drop_where, record_failure,
}
use homebrew_tools.DeviceBank.Edits.Basic.{
  Edits, unchanged, writes_device, removes_lease, Edits-trans, journal-Edits, spawn_recycle-Edits,
  restoring-Edits,
}

pub find_device_sound :
    (name : String) (s : State) {i : ℕ} {d : Device}
    → find_device name s ≡ some (i, d)
    → (get_elem? s.devices i ≡ some d) × (str_eq d.name name ≡ true)
unfolding find_device
find_device_sound name s h = find_sound (λ d. str_eq d.name name) s.devices h

send_to_recycling-Edits :
    (i : ℕ) (d : Device) (now : ℕ) (reason : String) (s : State)
    → get_elem? s.devices i ≡ some d
    → is_recycling d.state ≡ false
    → is_broken d.state ≡ false
    → Edits s (send_to_recycling i d now reason s)
unfolding send_to_recycling
send_to_recycling-Edits i d now reason s e r b =
    spawn_recycle-Edits _ (journal-Edits _ _ _ _ (writes_device i d _ unchanged e (ground arith)))

pub recycle_device-Edits :
    (name : String) (now : ℕ) (reason : String) (s : State)
    → Edits s (recycle_device name now reason s)
unfolding recycle_device
recycle_device-Edits name now reason s = elim (Option-cases (find_device name s)) [
  | inl e ↦ rw (e, recycle_device) unchanged
  | inr ((i, d), e) ↦ elim (Bool-cases (is_recycling d.state || is_broken d.state)) [
    | inl stays ↦ rw (e, recycle_device, stays) unchanged
    | inr goes ↦
        rw (e, recycle_device, goes)
          (send_to_recycling-Edits i d now reason s (find_device_sound name s e).0
            (or-false _ _ goes).0 (or-false _ _ goes).1)
  ]
]

pub drop_lease-Edits :
    (j : ℕ) (l : Lease) (now : ℕ) (reason : String) (s : State)
    → Edits s (drop_lease j l now reason s)
unfolding drop_lease
drop_lease-Edits j l now reason s = elim (Bool-cases l.physical) [
  | inl e ↦ simp e (restoring-Edits _ l.device_id (removes_lease j unchanged))
  | inr e ↦
      simp e
        (Edits-trans (removes_lease j unchanged) (recycle_device-Edits l.device_name now reason _))
]

pub drop_where-Edits :
    (p : Lease → Bool) (now : ℕ) (reason : String) (ls : List Lease) (j : ℕ) (s : State)
    → Edits s (drop_where p now reason ls j s).0
unfolding drop_where
drop_where-Edits p now reason [] j s = unchanged
drop_where-Edits p now reason (l ∷ ls) j s = elim (Bool-cases (p l)) [
  | inl e ↦
      rw (e, drop_where)
        (Edits-trans (drop_lease-Edits j l now reason s) (drop_where-Edits p now reason ls j _))
  | inr e ↦ rw (e, drop_where) (drop_where-Edits p now reason ls (suc j) s)
]

pub record_failure-Edits :
    (i : ℕ) (d : Device) (cause reason : String) (now : ℕ) (s : State)
    → get_elem? s.devices i ≡ some d
    → is_off d.state ≡ false
    → Edits s (record_failure i d cause reason now s)
unfolding record_failure
record_failure-Edits i d cause reason now s e h =
    elim (Bool-cases (leb 2 (d.recycle_failures + 1))) [
      | inl b ↦ rw b (journal-Edits _ _ _ _ (writes_device i d _ unchanged e (ground arith)))
      | inr b ↦ rw b (
          spawn_recycle-Edits _
            (journal-Edits _ _ _ _ (writes_device i d _ unchanged e (ground arith))))
    ]
