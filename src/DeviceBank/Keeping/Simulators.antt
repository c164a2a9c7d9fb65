-- ===== src/DeviceBank/Keeping/Simulators.antt =====
-- internal/atelierd/devicebank/ops.go: `resizeIOS` keeps every leased simulator that simctl lists.
use homebrew_tools.Prelude.{
  ℕ, zero, suc, String, true, false, some, List, [], ◌∷◌, str_eq, if◌then◌else◌, is_some, get_elem?,
  length, All, ◌≡◌, sym, ◌∙◌, subst, if_elim, option_elim, refl, inr,
}
use homebrew_tools.DeviceBank.Types.{ios, on, off, platform_eq, Device, State}
use homebrew_tools.DeviceBank.State.{find_device, lease_for_device}
use homebrew_tools.DeviceBank.Bank.{plan_resize}
use homebrew_tools.DeviceBank.Resize.{
  Sim, BankTools, Resized, remove_device, repair, repair_at, repair_from, append_device, bank_sims,
  adopt_sims, drop_missing, create_sims, delete_sims, then_resize, has_sim, reconcile_sims,
  resize_ios, new_device,
}
use homebrew_tools.DeviceBank.Keeping.{
  Keeps, Keeps-refl, Keeps-trans, append_device-Keeps, remove_device-Keeps, repair-Keeps,
  drop_missing-Keeps, plan_resize-spares, then_resize-Keeps,
}

module _ (name : String) where
  adopt_sims-Keeps :
      (now : ℕ) (sims : List Sim) (s : State) → Keeps ios name s (adopt_sims now sims s)
  unfolding adopt_sims
  adopt_sims-Keeps now [] s = Keeps-refl ios name s
  adopt_sims-Keeps now (x ∷ xs) s =
      let d : Device = record (new_device x.name ios now) {
        udid = x.udid;
        state = if str_eq x.state "Booted" then on else off;
      } in
      if_elim (Keeps ios name s) (is_some (find_device x.name s)) (adopt_sims now xs s)
        (adopt_sims now xs (append_device d s)) (λ b. adopt_sims-Keeps now xs s)
        (λ b.
          Keeps-trans ios name s (append_device d s) (adopt_sims now xs (append_device d s))
            (append_device-Keeps ios name d s) (adopt_sims-Keeps now xs (append_device d s)))

  repair_at-Keeps : (i : ℕ) (s : State) → Keeps ios name s (repair_at i s)
  unfolding repair_at
  repair_at-Keeps i s =
      option_elim (Keeps ios name s) (get_elem? s.devices i) s
        (λ d. if platform_eq d.platform ios then repair i d s else s) (λ e. Keeps-refl ios name s)
        (λ d e.
          if_elim (Keeps ios name s) (platform_eq d.platform ios) (repair i d s) s
            (λ b. repair-Keeps ios name i d s e (λ c n. inr (c, refl)))
            (λ b. Keeps-refl ios name s))

  repair_from-Keeps : (n i : ℕ) (s : State) → Keeps ios name s (repair_from n i s)
  unfolding repair_from
  repair_from-Keeps zero i s = Keeps-refl ios name s
  repair_from-Keeps (suc n) i s =
      Keeps-trans ios name s (repair_at i s) (repair_from n (suc i) (repair_at i s))
        (repair_at-Keeps i s) (repair_from-Keeps n (suc i) (repair_at i s))

  create_sims-Keeps :
      (tools : BankTools) (now : ℕ) (names : List String) (s : State)
      → Keeps ios name s (create_sims tools now names s).state
  unfolding create_sims
  create_sims-Keeps tools now [] s = Keeps-refl ios name s
  create_sims-Keeps tools now (x ∷ xs) s =
      option_elim (λ (r : Resized). Keeps ios name s r.state) (tools.create_sim x)
        (record { state = s; failed = true })
        (λ udid.
          create_sims tools now xs
            (append_device (record (new_device x ios now) { udid = udid }) s))
        (λ e. Keeps-refl ios name s)
        (λ udid e.
          let t = append_device (record (new_device x ios now) { udid = udid }) s in
          Keeps-trans ios name s t (create_sims tools now xs t).state
            (append_device-Keeps ios name (record (new_device x ios now) { udid = udid }) s)
            (create_sims-Keeps tools now xs t))

  delete_sims-Keeps :
      (tools : BankTools) (names : List String) (s : State)
      → All (λ other. str_eq other name ≡ false) names
      → Keeps ios name s (delete_sims tools names s).state
  unfolding delete_sims
  delete_sims-Keeps tools [] s a = Keeps-refl ios name s
  delete_sims-Keeps tools (x ∷ xs) s a =
      option_elim (λ (r : Resized). Keeps ios name s r.state) (find_device x s)
        (record { state = s; failed = true })
        (λ f.
          if tools.delete_sim f.1.udid
          then delete_sims tools xs (remove_device x s)
          else record { state = s; failed = true })
        (λ e. Keeps-refl ios name s)
        (λ f e.
          if_elim (λ (r : Resized). Keeps ios name s r.state) (tools.delete_sim f.1.udid)
            (delete_sims tools xs (remove_device x s)) (record { state = s; failed = true })
            (λ b.
              Keeps-trans ios name s (remove_device x s)
                (delete_sims tools xs (remove_device x s)).state
                (remove_device-Keeps ios name x s a.0)
                (delete_sims-Keeps tools xs (remove_device x s) a.1))
            (λ b. Keeps-refl ios name s))

  reconcile_sims-Keeps :
      (now : ℕ) (sims : List Sim) (s : State)
      → has_sim (bank_sims sims) name ≡ true
      → Keeps ios name s (reconcile_sims now sims s)
  unfolding reconcile_sims
  reconcile_sims-Keeps now sims s l =
      let a = adopt_sims now (bank_sims sims) s in
      let d = drop_missing ios (has_sim (bank_sims sims)) a.devices a in
      Keeps-trans ios name s a (repair_from (length d.devices) 0 d)
        (adopt_sims-Keeps now (bank_sims sims) s)
        (Keeps-trans ios name a d (repair_from (length d.devices) 0 d)
          (drop_missing-Keeps ios name ios (has_sim (bank_sims sims)) a.devices a l)
          (repair_from-Keeps (length d.devices) 0 d))

-- Where simctl lists a simulator under a name of the bank that has a lease, a resize of the simulators,
-- whether it succeeds or fails, leaves the leases, the queue and the restores, and each device of the
-- name exactly as it is, or, if it was broken, as it is or repaired.
pub resize_ios-Keeps :
    (name : String) (tools : BankTools) (n now : ℕ) (sims : List Sim) (s : State)
    → is_some (lease_for_device name s) ≡ true
    → tools.sims ≡ some sims
    → has_sim (bank_sims sims) name ≡ true
    → Keeps ios name s (resize_ios tools n now s).state
unfolding resize_ios
resize_ios-Keeps name tools n now sims s l e h =
    option_elim (λ (r : Resized). Keeps ios name s r.state) tools.sims
      (record { state = s; failed = true })
      (λ found.
        let r = reconcile_sims now found s in
        let plan = plan_resize r ios n in
        then_resize (create_sims tools now plan.create r) (delete_sims tools plan.delete))
      (λ z. Keeps-refl ios name s)
      (λ found z.
        let r = reconcile_sims now found s in
        let plan = plan_resize r ios n in
        let q : sims ≡ found = cc (sym e ∙ z) in
        let k : Keeps ios name s r =
          reconcile_sims-Keeps name now found s
            (subst (λ (x : List Sim). has_sim (bank_sims x) name ≡ true) q h) in
        let c = create_sims-Keeps name tools now plan.create r in
        then_resize-Keeps ios name s (create_sims tools now plan.create r)
          (delete_sims tools plan.delete)
          (Keeps-trans ios name s r (create_sims tools now plan.create r).state k c)
          (delete_sims-Keeps name tools plan.delete (create_sims tools now plan.create r).state
            (plan_resize-spares name s r ios n l k)))
