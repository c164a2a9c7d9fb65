-- ===== src/DeviceBank/Edits/Recycling.antt =====
-- The recycle worker's locked sections are edits too.
use homebrew_tools.Prelude.{
  ℕ, String, true, Option, none, some, get_elem?, ◌≡◌, inl, inr, arith, Bool-cases, Option-cases,
  and-true,
}
use homebrew_tools.DeviceBank.Types.{is_recycling, Device, State}
use homebrew_tools.DeviceBank.State.{find_device}
use homebrew_tools.DeviceBank.Reap.{Toolchain}
use homebrew_tools.DeviceBank.Ops.{
  is_current, recycle_attempt, recycle_off, settle_recycle, recycle_settle,
}
use homebrew_tools.DeviceBank.Edits.Basic.{Edits, unchanged, writes_device, journal-Edits}
use homebrew_tools.DeviceBank.Edits.Reaping.{find_device_sound, record_failure-Edits}

recycle_attempt-Edits :
    (answer : Option String) (i : ℕ) (d : Device) (s : State)
    → get_elem? s.devices i ≡ some d
    → Edits s (recycle_attempt answer i d s).0
unfolding recycle_attempt
recycle_attempt-Edits (some x) i d s e = unchanged
recycle_attempt-Edits none i d s e =
    journal-Edits _ _ _ _ (writes_device i d _ unchanged e (ground arith))

pub recycle_off-Edits :
    (tools : Toolchain) (name : String) (started : ℕ) (s : State)
    → Edits s (recycle_off tools name started s).0
unfolding recycle_off
recycle_off-Edits tools name started s = elim (Option-cases (find_device name s)) [
  | inl e ↦ rw (e, recycle_off) unchanged
  | inr ((i, d), e) ↦ elim (Bool-cases (is_current started d)) [
    | inr t ↦ rw (e, recycle_off, t) unchanged
    | inl t ↦ elim (Bool-cases d.power_off_confirmed) [
      | inl c ↦ rw (e, recycle_off, t) (simp c unchanged)
      | inr c ↦
          rw (e, recycle_off, t)
            (simp c (recycle_attempt-Edits _ i d s (find_device_sound name s e).0))
    ]
  ]
]

settle_recycle-Edits :
    (err : Option String) (now i : ℕ) (d : Device) (s : State)
    → get_elem? s.devices i ≡ some d
    → is_recycling d.state ≡ true
    → Edits s (settle_recycle err now i d s)
unfolding settle_recycle
settle_recycle-Edits (some x) now i d s e t = record_failure-Edits i d _ _ now s e (ground arith)
settle_recycle-Edits none now i d s e t =
    journal-Edits _ _ _ _ (writes_device i d _ unchanged e (ground arith))

pub recycle_settle-Edits :
    (name : String) (started : ℕ) (err : Option String) (now : ℕ) (s : State)
    → Edits s (recycle_settle name started err now s).0
unfolding recycle_settle
recycle_settle-Edits name started err now s = elim (Option-cases (find_device name s)) [
  | inl e ↦ rw (e, recycle_settle) unchanged
  | inr ((i, d), e) ↦ elim (Bool-cases (is_current started d)) [
    | inr t ↦ rw (e, recycle_settle, t) unchanged
    | inl t ↦
        rw (e, recycle_settle, t)
          (settle_recycle-Edits err now i d s (find_device_sound name s e).0 (and-true _ _ t).0)
  ]
]
