-- ===== src/DeviceBank/Fair/Share.antt =====
-- internal/atelierd/devicebank/queue.go: what `fairReservation` sets aside for the waiters ahead.
use homebrew_tools.Prelude.{
  ℕ, ◌+◌, ◌-◌, ◌<◌, String, true, false, none, some, List, [], ◌∷◌, ◌++◌, ◌==◌, find, find-none,
  All, All-get, ◌≡◌, refl, ap, subst, inl, inr, arith, Bool-cases, Option-cases, length,
}
use homebrew_tools.DeviceBank.Types.{Platform, Device, Waiter, State}
use homebrew_tools.DeviceBank.State.{max_on, powered_on_count}
use homebrew_tools.DeviceBank.Queue.{
  waits_as, ordered_queue, is_candidate, device_to_power_on, walk_queue, fair_reservation,
}
use homebrew_tools.DeviceBank.Fair.Sound.{MayTurnOn, device_to_power_on_sound, reserve_parts}

-- Where no device is found, there is none that the session may turn on.
device_to_power_on_complete :
    (s : State) (session : String) (platform : Platform) (taken : List String) (i : ℕ) (d : Device)
    → device_to_power_on s session platform taken ≡ none
    → ¬ MayTurnOn s session platform taken i d
unfolding device_to_power_on
device_to_power_on_complete s session platform taken i d h m = elim m.entitled [
  | inl (j, l, e, p, f) ↦ ground (arith, e, p, f, h, m.is_off)
  | inr (e, p, t, f) ↦
      let n : find (is_candidate s platform taken) s.devices ≡ none = ground (arith, e, h) in
      let c : is_candidate s platform taken d ≡ false =
        All-get (λ x. is_candidate s platform taken x ≡ false) s.devices i
          (find-none (is_candidate s platform taken) s.devices n) m.there in
      ground (arith, p, t, f, c, m.is_off)
]

-- What is set aside for waiters in their order, from the names taken before: for each a device that it
-- may turn on, given those, and nothing where there is no such device.
pub data SetAside (s : State) : List Waiter → List String → List String → Type 0 where
  all : {taken : List String} → SetAside s [] taken taken
  given :
      {w : Waiter} {q : List Waiter} {before after : List String} (i : ℕ) (d : Device)
      → MayTurnOn s w.session_id w.platform before i d
      → SetAside s q (d.name ∷ before) after
      → SetAside s (w ∷ q) before after
  unserved :
      {w : Waiter} {q : List Waiter} {before after : List String}
      → ((i : ℕ) (d : Device) → ¬ MayTurnOn s w.session_id w.platform before i d)
      → SetAside s q before after
      → SetAside s (w ∷ q) before after

abbrev pub Behind : String → Platform → List Waiter → Type 0
Behind session platform [] = Unit
Behind session platform (w ∷ q) = waits_as session (some platform) w ≡ true

-- The waiters ahead of the first of the session, and what is set aside for them.
pub record Share (s : State) (session : String) (platform : Platform) (queue : List Waiter)
    (before taken : List String) : Type 0 where
  pub ahead : List Waiter
  pub rest : List Waiter
  pub split : queue ≡ ahead ++ rest
  pub others : All (λ w. waits_as session (some platform) w ≡ false) ahead
  pub first : Behind session platform rest
  pub aside : SetAside s ahead before taken

module _ (s : State) (session : String) (platform : Platform) where
  skipped :
      (w : Waiter) (q : List Waiter) (before middle taken : List String)
      → waits_as session (some platform) w ≡ false
      → ((ahead : List Waiter)
          → SetAside s ahead middle taken
          → SetAside s (w ∷ ahead) before taken)
      → Share s session platform q middle taken
      → Share s session platform (w ∷ q) before taken
  skipped w q before middle taken e k h = record {
    ahead = w ∷ h.ahead;
    rest = h.rest;
    split = ap (◌∷◌ w) h.split;
    others = (e, h.others);
    first = h.first;
    aside = k h.ahead h.aside;
  }

  walk_queue-Share :
      (q : List Waiter) (slots : ℕ) (before : List String) {left : ℕ} {taken : List String}
      → walk_queue s session platform q slots before ≡ some (left, taken)
      → Share s session platform q before taken × (left + length taken ≡ slots + length before)
  unfolding walk_queue
  walk_queue-Share [] slots before {taken = taken} h =
      let e : before ≡ taken = cc h in
      (
        subst (λ (t : List String). Share s session platform [] before t) e
            (record {
              ahead = [];
              rest = [];
              split = refl;
              others = tt;
              first = tt;
              aside = SetAside.all;
            }),
        ground (arith, h),
      )
  walk_queue-Share (w ∷ q) slots before {left = left} {taken = taken} h =
      elim (Bool-cases (waits_as session (some platform) w)) [
        | inl own ↦
            let e : before ≡ taken = ground (arith, own, h) in
            (
              subst (λ (t : List String). Share s session platform (w ∷ q) before t) e
                  (record {
                    ahead = [];
                    rest = w ∷ q;
                    split = refl;
                    others = tt;
                    first = own;
                    aside = SetAside.all;
                  }),
              ground (arith, own, h),
            )
        | inr other ↦ elim (Bool-cases (slots == 0)) [
          | inl out ↦ absurd (ground arith)
          | inr more ↦ elim (Option-cases (device_to_power_on s w.session_id w.platform before)) [
            | inl e ↦
                let r =
                  walk_queue-Share q slots before {left = left} {taken = taken} (ground arith) in
                (
                  skipped w q before before taken other
                      (λ ahead a.
                        SetAside.unserved
                          (λ i d.
                            device_to_power_on_complete s w.session_id w.platform before i d e)
                          a)
                      r.0,
                  r.1,
                )
            | inr ((i, d), e) ↦
                let r =
                  walk_queue-Share q (slots - 1) (d.name ∷ before) {left = left} {taken = taken}
                    (ground arith) in
                (
                  skipped w q before (d.name ∷ before) taken other
                      (λ ahead a.
                        SetAside.given i d
                          (device_to_power_on_sound s w.session_id w.platform before e) a)
                      r.0,
                  ground (arith, r.1, more),
                )
          ]
        ]
      ]

-- A fair reservation sets a device aside for each waiter ahead of the session, in the order of the
-- queue, that may turn one on, that of its own lease or one not set aside before, and for no other
-- waiter. It hands out a device that the session may turn on likewise, and the limit has room for all.
pub fair_reservation-Share :
    (s : State) (session : String) (platform : Platform) {i : ℕ} {d : Device}
    → fair_reservation s session platform ≡ some (i, d)
    → (taken : List String) × Share s session platform (ordered_queue s) [] taken
      × MayTurnOn s session platform taken i d
      × (powered_on_count s + length taken < max_on s)
unfolding fair_reservation
fair_reservation-Share s session platform h =
    let (k, taken, walk, free, found) = reserve_parts s session platform _ h in
    let (share, sum) = walk_queue-Share s session platform (ordered_queue s) _ [] walk in
    (
      taken,
      share,
      device_to_power_on_sound s session platform taken found,
      omega (arith, sum, free),
    )
