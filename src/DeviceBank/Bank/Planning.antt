-- ===== src/DeviceBank/Bank/Planning.antt =====
-- internal/atelierd/devicebank/bank.go: what the plan of a resize creates, and what it deletes.
use homebrew_tools.Prelude.{
  ℕ, zero, suc, ◌+◌, ◌≤◌, ◌<◌, String, Bool, true, false, Option, none, some, List, [], ◌∷◌, ◌&&◌,
  ltb, Memᴰ, All, ◌≡◌, refl, sym, ap, subst, arith, if◌then◌else◌, ◌==◌, if_elim, Bool-cases,
  Option-cases, is_some, ◌⊎◌, inl, inr,
}
use homebrew_tools.DeviceBank.Types.{Platform, platform_eq, Device, State}
use homebrew_tools.DeviceBank.Bank.{
  bank_name, bank_index, ResizePlan, existing, to_create, insert_index, excess, in_use, plan_device,
  plan_excess, plan_resize,
}

-- A device of the platform with the index.
pub record Holds (platform : Platform) (devices : List Device) (index : ℕ) (d : Device)
    : Type 0 where
  pub listed : Memᴰ d devices
  pub of_platform : platform_eq d.platform platform ≡ true
  pub indexed : bank_index platform d.name ≡ index

abbrev Found : Platform → List Device → ℕ → Option Device → Type 0
Found platform devices index r = (d : Device) → r ≡ some d → Holds platform devices index d

chosen-Found :
    (platform : Platform) (d : Device) (ds : List Device) (index : ℕ) (o : Option Device)
    → Found platform ds index o
    → Found platform (d ∷ ds) index (elim o [
      | some e ↦ some e
      | none ↦
          if platform_eq d.platform platform
            && ltb 0 (bank_index platform d.name)
            && bank_index platform d.name == index
          then some d
          else none
    ])
chosen-Found platform d ds index (some e) f = λ x h.
    let w = f x h in
    record { listed = Memᴰ.tail w.listed; of_platform = w.of_platform; indexed = w.indexed }
chosen-Found platform d ds index none f =
    if_elim (Found platform (d ∷ ds) index)
      (platform_eq d.platform platform
        && ltb 0 (bank_index platform d.name)
        && bank_index platform d.name == index)
      (some d) none
      (λ e x h. subst (Holds platform (d ∷ ds) index) (cc h) (record {
        listed = Memᴰ.head refl;
        of_platform = ground (arith, e);
        indexed = ground (arith, e);
      }))
      (λ e x h. absurd (cc h))

existing-Found :
    (platform : Platform) (devices : List Device) (index : ℕ)
    → Found platform devices index (existing platform devices index)
unfolding existing
existing-Found platform [] index = λ d h. absurd (cc h)
existing-Found platform (d ∷ ds) index =
    chosen-Found platform d ds index (existing platform ds index) (existing-Found platform ds index)

insert_index-above :
    (n i : ℕ) (js : List ℕ) → n < i → All (λ j. n < j) js → All (λ j. n < j) (insert_index i js)
unfolding insert_index
insert_index-above n i [] h a = (h, tt)
insert_index-above n i (j ∷ js) h a = ground (arith, insert_index-above n i js h a.1, h, a)

excess-above :
    (platform : Platform) (n : ℕ) (ds : List Device) → All (λ j. n < j) (excess platform n ds)
unfolding excess
excess-above platform n [] = tt
excess-above platform n (d ∷ ds) =
    if_elim (All (λ j. n < j))
      (platform_eq d.platform platform && ltb n (bank_index platform d.name))
      (insert_index (bank_index platform d.name) (excess platform n ds)) (excess platform n ds)
      (λ e.
        insert_index-above n (bank_index platform d.name) (excess platform n ds) (ground (arith, e))
          (excess-above platform n ds))
      (λ e. excess-above platform n ds)

-- A device of the platform above the size, by its name, in use or not.
abbrev pub Excess : Platform → State → ℕ → Bool → String → Type 0
Excess platform s n used name =
    (d : Device) × ((d.name ≡ name)
      × (Holds platform s.devices (bank_index platform d.name) d
          × ((n < bank_index platform d.name) × (in_use s d ≡ used))))

record Sorted (platform : Platform) (s : State) (n : ℕ) (created : List String) (p : ResizePlan)
    : Type 0 where
  same_create : p.create ≡ created
  free : All (Excess platform s n false) p.delete
  used : All (Excess platform s n true) p.keep

planned-Sorted :
    (platform : Platform) (s : State) (n i : ℕ) (created : List String) (o : Option Device)
    (p : ResizePlan)
    → n < i
    → Found platform s.devices i o
    → Sorted platform s n created p
    → Sorted platform s n created (plan_device s o p)
planned-Sorted platform s n i created none p l f g = g
planned-Sorted platform s n i created (some d) p l f g =
    let w = f d refl in
    let h : Holds platform s.devices (bank_index platform d.name) d =
      subst (λ (j : ℕ). Holds platform s.devices j d) (sym w.indexed) w in
    let m : n < bank_index platform d.name = omega (arith, l, w.indexed) in
    if_elim (Sorted platform s n created) (in_use s d) (record p { keep = d.name ∷ p.keep })
      (record p { delete = d.name ∷ p.delete })
      (λ e. record {
        same_create = g.same_create;
        free = g.free;
        used = ((d, (refl, (h, (m, e)))), g.used);
      })
      (λ e. record {
        same_create = g.same_create;
        free = ((d, (refl, (h, (m, e)))), g.free);
        used = g.used;
      })

plan_excess-Sorted :
    (platform : Platform) (s : State) (n : ℕ) (is : List ℕ) (created : List String)
    → All (λ j. n < j) is
    → Sorted platform s n created (plan_excess platform s is created)
unfolding plan_excess
plan_excess-Sorted platform s n [] created a = record { same_create = refl; free = tt; used = tt }
plan_excess-Sorted platform s n (i ∷ is) created a =
    planned-Sorted platform s n i created (existing platform s.devices i)
      (plan_excess platform s is created) a.0 (existing-Found platform s.devices i)
      (plan_excess-Sorted platform s n is created a.1)

-- Of the indexes of the bank, the plan creates the names that no device has.
to_create-covers :
    (platform : Platform) (ds : List Device) (index n i : ℕ)
    → index ≤ i
    → i < index + n
    → Memᴰ (bank_name platform i) (to_create platform ds index n)
      ⊎ ((d : Device) × Holds platform ds i d)
unfolding to_create
to_create-covers platform ds index zero i l h = absurd (omega (arith, l, h))
to_create-covers platform ds index (suc n) i l h = elim (Bool-cases (i == index)) [
  | inl e ↦ elim (Option-cases (existing platform ds index)) [
    | inl z ↦
        let q : i ≡ index = ground (arith, e) in
        let m : Memᴰ (bank_name platform i)
            (bank_name platform index ∷ to_create platform ds (suc index) n) =
          Memᴰ.head (ap (bank_name platform) q) in
        inl (
          subst
            (λ (o : Option Device). Memᴰ (bank_name platform i) (
              if is_some o
              then to_create platform ds (suc index) n
              else bank_name platform index ∷ to_create platform ds (suc index) n))
            (sym z) m)
    | inr w ↦
        let q : index ≡ i = ground (arith, e) in
        inr (
          w.0,
          subst (λ (j : ℕ). Holds platform ds j w.0) q (existing-Found platform ds index w.0 w.1),
        )
  ]
  | inr e ↦
      elim (to_create-covers platform ds (suc index) n i (ground (arith, l, e))
        (omega (arith, h))) [
          | inl m ↦ inl (
              if_elim (Memᴰ (bank_name platform i)) (is_some (existing platform ds index))
                (to_create platform ds (suc index) n)
                (bank_name platform index ∷ to_create platform ds (suc index) n) (λ b. m)
                (λ b. Memᴰ.tail m))
          | inr w ↦ inr w
        ]
]

-- A plan deletes only devices of the platform above the size that are neither leased nor recycling, keeps
-- only such devices that are, and, of each index of the bank, creates the name unless a device has it.
pub plan_resize-Safe :
    (s : State) (platform : Platform) (n : ℕ)
    → (All (Excess platform s n false) (plan_resize s platform n).delete
        × All (Excess platform s n true) (plan_resize s platform n).keep)
      × ((i : ℕ)
          → 0 < i
          → i ≤ n
          → Memᴰ (bank_name platform i) (plan_resize s platform n).create
            ⊎ ((d : Device) × Holds platform s.devices i d))
unfolding plan_resize
plan_resize-Safe s platform n =
    let w =
      plan_excess-Sorted platform s n (excess platform n s.devices)
        (to_create platform s.devices 1 n) (excess-above platform n s.devices) in
    (
      (w.free, w.used),
      λ i l h.
          subst
            (λ (c : List String).
              Memᴰ (bank_name platform i) c ⊎ ((d : Device) × Holds platform s.devices i d))
            (sym w.same_create)
            (to_create-covers platform s.devices 1 n i (omega (arith, l)) (omega (arith, h))),
    )
