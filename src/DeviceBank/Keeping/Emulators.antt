-- ===== src/DeviceBank/Keeping/Emulators.antt =====
-- internal/atelierd/devicebank/ops.go: `resizeAndroid` keeps every leased emulator that avdmanager lists.
use homebrew_tools.Prelude.{
  ℕ, ◌+◌, String, true, false, none, find, arith, some, List, [], ◌∷◌, ◌&&◌, str_eq, if◌then◌else◌,
  is_some, get_elem?, All, ◌≡◌, refl, sym, ◌∙◌, subst, if_elim, option_elim, find_sound,
}
use homebrew_tools.DeviceBank.Types.{android, broken, is_broken, Device, Lease, State}
use homebrew_tools.DeviceBank.State.{
  find_device, lease_for_device, leases_device, put_device, journal,
}
use homebrew_tools.DeviceBank.Bank.{bank_index, plan_resize}
use homebrew_tools.DeviceBank.Resize.{
  BankTools, Resized, repaired, remove_device, repair, append_device, drop_missing, then_resize,
}
use homebrew_tools.DeviceBank.Keeping.{
  Keeps, Keeps-refl, Keeps-trans, append_device-Keeps, remove_device-Keeps, repair-Keeps,
  drop_missing-Keeps, plan_resize-spares, then_resize-Keeps, put_device-Keeps,
}
use homebrew_tools.DeviceBank.Keeping.Apart.{
  Apart, All-map, Apart-ne, Apart-append, Apart-set, to_recreate-Apart,
}
use homebrew_tools.DeviceBank.InitBank.{
  bank_avds, new_emulator, adopt_avds, to_recreate, create_avds, recreated, recreate_at,
  recreate_avds, delete_avds, has_avd, reconcile_avds, resize_android,
}
use homebrew_tools.DeviceBank.Bank.{emulator_port}

module _ (name : String) where
  adopt_avds-Keeps :
      (now : ℕ) (avds : List String) (s : State) → Keeps android name s (adopt_avds now avds s)
  unfolding adopt_avds find_device
  adopt_avds-Keeps now [] s = Keeps-refl android name s
  adopt_avds-Keeps now (x ∷ xs) s =
      option_elim (Keeps android name s) (find_device x s)
        (adopt_avds now xs (append_device (new_emulator x now) s))
        (λ f.
          adopt_avds now xs
            (put_device f.0 (record (f.1) { port = emulator_port (bank_index android x) }) s))
        (λ e.
          let t = append_device (new_emulator x now) s in
          Keeps-trans android name s t (adopt_avds now xs t)
            (append_device-Keeps android name (new_emulator x now) s) (adopt_avds-Keeps now xs t))
        (λ f e.
          let v : Device = record (f.1) { port = emulator_port (bank_index android x) } in
          let t = put_device f.0 v s in
          Keeps-trans android name s t (adopt_avds now xs t)
            (put_device-Keeps android name f.0 f.1 v s
              (find_sound (λ d. str_eq d.name x) s.devices e).0 (λ n. refl))
            (adopt_avds-Keeps now xs t))

  create_avds-Keeps :
      (tools : BankTools) (now : ℕ) (names : List String) (s : State)
      → Keeps android name s (create_avds tools now names s).state
  unfolding create_avds
  create_avds-Keeps tools now [] s = Keeps-refl android name s
  create_avds-Keeps tools now (x ∷ xs) s =
      let t = append_device (new_emulator x now) s in
      if_elim (λ (r : Resized). Keeps android name s r.state) (tools.create_avd x)
        (create_avds tools now xs t) (record { state = s; failed = true })
        (λ b.
          Keeps-trans android name s t (create_avds tools now xs t).state
            (append_device-Keeps android name (new_emulator x now) s)
            (create_avds-Keeps tools now xs t))
        (λ b. Keeps-refl android name s)

  create_avds-Apart :
      (tools : BankTools) (now : ℕ) (names : List String) (s : State) (is : List ℕ)
      → All (Apart name s.devices) is
      → All (Apart name (create_avds tools now names s).state.devices) is
  unfolding create_avds
  create_avds-Apart tools now [] s is a = a
  create_avds-Apart tools now (x ∷ xs) s is a =
      let d = new_emulator x now in
      let t = append_device d s in
      if_elim (λ (r : Resized). All (Apart name r.state.devices) is) (tools.create_avd x)
        (create_avds tools now xs t) (record { state = s; failed = true })
        (λ b.
          create_avds-Apart tools now xs t is (All-map (λ i. Apart-append name d s.devices i) is a))
        (λ b. a)

  recreate_at-Keeps :
      (now i : ℕ) (s : State) → Apart name s.devices i → Keeps android name s (recreate_at now i s)
  unfolding recreate_at
  recreate_at-Keeps now i s a =
      option_elim (Keeps android name s) (get_elem? s.devices i) s
        (λ d. put_device i (recreated now d) s) (λ e. Keeps-refl android name s)
        (λ d e.
          put_device-Keeps android name i d (recreated now d) s e
            (λ n. absurd (Apart-ne name s.devices i a e n)))

  recreate_at-Apart :
      (now i j : ℕ) (s : State)
      → Apart name s.devices j
      → Apart name (recreate_at now i s).devices j
  unfolding recreate_at put_device
  recreate_at-Apart now i j s a =
      option_elim (λ (t : State). Apart name t.devices j) (get_elem? s.devices i) s
        (λ d. put_device i (recreated now d) s) (λ e. a)
        (λ d e. Apart-set name s.devices i j d (recreated now d) e refl a)

  repair-Apart :
      (i j : ℕ) (d : Device) (s : State)
      → get_elem? s.devices i ≡ some d
      → Apart name s.devices j
      → Apart name (repair i d s).devices j
  unfolding repair journal put_device
  repair-Apart i j d s e a =
      if_elim (λ (t : State). Apart name t.devices j) (is_broken d.state)
        (journal (repaired d) broken none "repair" (put_device i (repaired d) s)) s
        (λ b. Apart-set name s.devices i j d (repaired d) e refl a) (λ b. a)

  recreate_avds-Keeps :
      (tools : BankTools) (now : ℕ) (is : List ℕ) (s : State)
      → All (Apart name s.devices) is
      → Keeps android name s (recreate_avds tools now is s).state
  unfolding recreate_avds
  recreate_avds-Keeps tools now [] s a = Keeps-refl android name s
  recreate_avds-Keeps tools now (i ∷ is) s a =
      option_elim (λ (r : Resized). Keeps android name s r.state) (get_elem? s.devices i)
        (recreate_avds tools now is s)
        (λ d.
          if tools.delete_avd d.name && tools.create_avd d.name
          then recreate_avds tools now is (recreate_at now i (repair i d s))
          else record { state = s; failed = true })
        (λ e. recreate_avds-Keeps tools now is s a.1)
        (λ d e.
          let r = repair i d s in
          let t = recreate_at now i r in
          if_elim (λ (r : Resized). Keeps android name s r.state)
            (tools.delete_avd d.name && tools.create_avd d.name) (recreate_avds tools now is t)
            (record { state = s; failed = true })
            (λ b.
              Keeps-trans android name s t (recreate_avds tools now is t).state
                (Keeps-trans android name s r t
                  (repair-Keeps android name i d s e
                    (λ c n. absurd (Apart-ne name s.devices i a.0 e n)))
                  (recreate_at-Keeps now i r (repair-Apart i i d s e a.0)))
                (recreate_avds-Keeps tools now is t
                  (All-map (λ j w. recreate_at-Apart now i j r (repair-Apart i j d s e w)) is a.1)))
            (λ b. Keeps-refl android name s))

  delete_avds-Keeps :
      (tools : BankTools) (names : List String) (s : State)
      → All (λ other. str_eq other name ≡ false) names
      → Keeps android name s (delete_avds tools names s).state
  unfolding delete_avds
  delete_avds-Keeps tools [] s a = Keeps-refl android name s
  delete_avds-Keeps tools (x ∷ xs) s a =
      option_elim (λ (r : Resized). Keeps android name s r.state) (find_device x s)
        (record { state = s; failed = true })
        (λ f.
          if tools.delete_avd x
          then delete_avds tools xs (remove_device x s)
          else record { state = s; failed = true })
        (λ e. Keeps-refl android name s)
        (λ f e.
          if_elim (λ (r : Resized). Keeps android name s r.state) (tools.delete_avd x)
            (delete_avds tools xs (remove_device x s)) (record { state = s; failed = true })
            (λ b.
              Keeps-trans android name s (remove_device x s)
                (delete_avds tools xs (remove_device x s)).state
                (remove_device-Keeps android name x s a.0)
                (delete_avds-Keeps tools xs (remove_device x s) a.1))
            (λ b. Keeps-refl android name s))

  reconcile_avds-Keeps :
      (now : ℕ) (avds : List String) (s : State)
      → has_avd (bank_avds avds) name ≡ true
      → Keeps android name s (reconcile_avds now avds s)
  unfolding reconcile_avds
  reconcile_avds-Keeps now avds s l =
      let a = adopt_avds now (bank_avds avds) s in
      Keeps-trans android name s a (drop_missing android (has_avd (bank_avds avds)) a.devices a)
        (adopt_avds-Keeps now (bank_avds avds) s)
        (drop_missing-Keeps android name android (has_avd (bank_avds avds)) a.devices a l)

plus_zero : (j : ℕ) → j ≡ j + 0
plus_zero j = omega arith

still_leased :
    (name : String) (s r : State)
    → is_some (lease_for_device name s) ≡ true
    → Keeps android name s r
    → is_some (lease_for_device name r) ≡ true
unfolding lease_for_device
still_leased name s r l k =
    subst (λ (ls : List Lease). is_some (find (leases_device name) ls) ≡ true) (sym k.leases) l

-- Where avdmanager lists an AVD under a name of the bank that has a lease, a resize of the emulators,
-- whether it succeeds or fails, leaves the leases, the queue and the restores, and each device of the
-- name exactly as it is but for its port.
pub resize_android-Keeps :
    (name : String) (tools : BankTools) (n now : ℕ) (avds : List String) (s : State)
    → is_some (lease_for_device name s) ≡ true
    → tools.avds ≡ some avds
    → has_avd (bank_avds avds) name ≡ true
    → Keeps android name s (resize_android tools n now s).state
unfolding resize_android
resize_android-Keeps name tools n now avds s l e h =
    option_elim (λ (r : Resized). Keeps android name s r.state) tools.avds
      (record { state = s; failed = true })
      (λ found.
        let r = reconcile_avds now found s in
        let plan = plan_resize r android n in
        then_resize
          (then_resize (create_avds tools now plan.create r)
            (recreate_avds tools now (to_recreate r n r.devices 0)))
          (delete_avds tools plan.delete))
      (λ z. Keeps-refl android name s)
      (λ found z.
        let r = reconcile_avds now found s in
        let plan = plan_resize r android n in
        let q : avds ≡ found = cc (sym e ∙ z) in
        let k : Keeps android name s r =
          reconcile_avds-Keeps name now found s
            (subst (λ (x : List String). has_avd (bank_avds x) name ≡ true) q h) in
        let c = create_avds tools now plan.create r in
        let unused : All (Apart name r.devices) (to_recreate r n r.devices 0) =
          to_recreate-Apart name r n r.devices r.devices 0 (still_leased name s r l k)
            (λ j x g. subst (λ (i : ℕ). get_elem? r.devices i ≡ some x) (plus_zero j) g) in
        let m = then_resize c (recreate_avds tools now (to_recreate r n r.devices 0)) in
        then_resize-Keeps android name s m (delete_avds tools plan.delete)
          (then_resize-Keeps android name s c
            (recreate_avds tools now (to_recreate r n r.devices 0))
            (Keeps-trans android name s r c.state k
              (create_avds-Keeps name tools now plan.create r))
            (recreate_avds-Keeps name tools now (to_recreate r n r.devices 0) c.state (
              create_avds-Apart name tools now plan.create r (to_recreate r n r.devices 0) unused)))
          (delete_avds-Keeps name tools plan.delete m.state
            (plan_resize-spares name s r android n l k)))
