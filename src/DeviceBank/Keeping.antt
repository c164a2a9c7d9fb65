-- ===== src/DeviceBank/Keeping.antt =====
-- internal/atelierd/devicebank/ops.go: what the resizes leave of the leases, and of the leased devices.
pub mod Simulators
pub mod Apart
pub mod Emulators
use homebrew_tools.Prelude.{
  ℕ, zero, suc, ◌+◌, ◌<◌, String, Bool, true, false, not, Option, none, some, List, [], ◌∷◌, ◌++◌,
  ◌&&◌, ◌||◌, ltb, leb, ◌==◌, str_eq, if◌then◌else◌, is_some, any, get_elem?, set, length, All,
  Memᴰ, keep, ◌≡◌, refl, sym, ap, ◌∙◌, subst, arith, if_elim, Bool-cases, Option-cases, inl, inr,
  str_eq-eq, str_eq-flip, ◌⊎◌, find, find_sound,
}
use mathlib.Core.List.Memᴰ
use homebrew_tools.DeviceBank.Types.{
  Platform, ios, android, platform_eq, broken, is_broken, is_recycling, Device, Lease, State,
}
use homebrew_tools.DeviceBank.State.{
  find_device, leases_device, lease_for_device, put_device, journal,
}
use homebrew_tools.DeviceBank.Bank.{bank_index, plan_resize, in_use}
use homebrew_tools.DeviceBank.Bank.Planning.{Excess, plan_resize-Safe}
use homebrew_tools.DeviceBank.Resize.{
  Sim, BankTools, Resized, without, remove_device, repaired, repair, repair_at, repair_from,
  append_device, bank_sims, adopt_sims, drop_missing, create_sims, delete_sims, then_resize,
  has_sim, reconcile_sims, resize_ios, new_device,
}

-- What a resize may change of a leased device: of a simulator, what a repair of a broken one does; of an
-- emulator, the port.
abbrev pub Alike : Platform → Device → Device → Type 0
Alike ios d e = (e ≡ d) ⊎ ((is_broken d.state ≡ true) × (e ≡ repaired d))
Alike android d e = e ≡ record d { port = e.port }

Alike-refl : (p : Platform) (d : Device) → Alike p d d
Alike-refl ios d = inl refl
Alike-refl android d = refl

Alike-name : (p : Platform) (d e : Device) → Alike p d e → e.name ≡ d.name
Alike-name ios d e (inl q) = ap (λ (x : Device). x.name) q
Alike-name ios d e (inr (b, q)) = ap (λ (x : Device). x.name) q
Alike-name android d e q = ap (λ (x : Device). x.name) q

Alike-trans : (p : Platform) (d e f : Device) → Alike p d e → Alike p e f → Alike p d f
Alike-trans ios d e f (inl q) k = subst (λ (x : Device). Alike ios x f) q k
Alike-trans ios d e f (inr (b, q)) (inl r) = inr (b, r ∙ q)
Alike-trans ios d e f (inr (b, q)) (inr (c, r)) =
    let off : is_broken e.state ≡ false =
      subst (λ (x : Device). is_broken x.state ≡ false) (sym q) refl in
    absurd (ground (arith, c, off))
Alike-trans android d e f q r = subst (λ (x : Device). f ≡ record x { port = f.port }) q r

-- A step that leaves the leases, the queue and the restores, and each device of the name as it is, but for
-- what a resize may change.
pub record Keeps (p : Platform) (name : String) (s t : State) : Type 0 where
  pub leases : t.leases ≡ s.leases
  pub queue : t.queue ≡ s.queue
  pub restores : t.restores ≡ s.restores
  pub kept :
      (d : Device)
      → Memᴰ d s.devices
      → d.name ≡ name
      → (e : Device) × Memᴰ e t.devices × Alike p d e

pub Keeps-refl : (p : Platform) (name : String) (s : State) → Keeps p name s s
Keeps-refl p name s = record {
  leases = refl;
  queue = refl;
  restores = refl;
  kept = λ d m n. (d, m, Alike-refl p d);
}

pub Keeps-trans :
    (p : Platform) (name : String) (s t u : State)
    → Keeps p name s t
    → Keeps p name t u
    → Keeps p name s u
Keeps-trans p name s t u a b = record {
  leases = b.leases ∙ a.leases;
  queue = b.queue ∙ a.queue;
  restores = b.restores ∙ a.restores;
  kept = λ d m n.
      let (e, k, l) = a.kept d m n in
      let (f, h, r) = b.kept e k (Alike-name p d e l ∙ n) in (f, h, Alike-trans p d e f l r);
}

Memᴰ-append : (d x : Device) (ds : List Device) → Memᴰ d ds → Memᴰ d (ds ++ (x ∷ []))
Memᴰ-append d x [] m = absurd (Memᴰ.not-nil m)
Memᴰ-append d x (y ∷ ds) m = elim (Memᴰ.cases_cons m) [
  | inl e ↦ Memᴰ.head e
  | inr t ↦ Memᴰ.tail (Memᴰ-append d x ds t)
]

Memᴰ-without :
    (d : Device) (other : String) (ds : List Device)
    → str_eq d.name other ≡ false
    → Memᴰ d ds
    → Memᴰ d (without other ds)
unfolding without
Memᴰ-without d other [] n m = m
Memᴰ-without d other (x ∷ ds) n m =
    if_elim (Memᴰ d) (str_eq x.name other) ds (x ∷ without other ds)
      (λ b. elim (Memᴰ.cases_cons m) [
        | inl e ↦
            let c : str_eq d.name other ≡ true =
              subst (λ (y : Device). str_eq y.name other ≡ true) (sym e) b in
            absurd (ground (arith, c, n))
        | inr t ↦ t
      ])
      (λ b. elim (Memᴰ.cases_cons m) [
        | inl e ↦ Memᴰ.head e
        | inr t ↦ Memᴰ.tail (Memᴰ-without d other ds n t)
      ])

-- A change of one position loses only the device that was there.
Memᴰ-set :
    (x : Device) (ds : List Device) (i : ℕ) (d v : Device)
    → get_elem? ds i ≡ some d
    → Memᴰ x ds
    → ((x ≡ d) × Memᴰ v (set ds i v)) ⊎ Memᴰ x (set ds i v)
Memᴰ-set x [] i d v g m = absurd (Memᴰ.not-nil m)
Memᴰ-set x (y ∷ ds) zero d v g m = elim (Memᴰ.cases_cons m) [
  | inl e ↦ let q : y ≡ d = cc g in inl (e ∙ q, Memᴰ.head refl)
  | inr t ↦ inr (Memᴰ.tail t)
]
Memᴰ-set x (y ∷ ds) (suc i) d v g m = elim (Memᴰ.cases_cons m) [
  | inl e ↦ inr (Memᴰ.head e)
  | inr t ↦ elim (Memᴰ-set x ds i d v g t) [
    | inl (e, w) ↦ inl (e, Memᴰ.tail w)
    | inr w ↦ inr (Memᴰ.tail w)
  ]
]

pub append_device-Keeps :
    (p : Platform) (name : String) (d : Device) (s : State) → Keeps p name s (append_device d s)
append_device-Keeps p name d s = record {
  leases = refl;
  queue = refl;
  restores = refl;
  kept = λ x m n. (x, Memᴰ-append x d s.devices m, Alike-refl p x);
}

pub remove_device-Keeps :
    (p : Platform) (name other : String) (s : State)
    → str_eq other name ≡ false
    → Keeps p name s (remove_device other s)
unfolding remove_device
remove_device-Keeps p name other s n = record {
  leases = refl;
  queue = refl;
  restores = refl;
  kept = λ x m e. (
    x,
    Memᴰ-without x other s.devices
        (subst (λ (y : String). str_eq y other ≡ false) (sym e) (str_eq-flip other name n)) m,
    Alike-refl p x,
  );
}

pub put_device-Keeps :
    (p : Platform) (name : String) (i : ℕ) (d v : Device) (s : State)
    → get_elem? s.devices i ≡ some d
    → (d.name ≡ name → Alike p d v)
    → Keeps p name s (put_device i v s)
unfolding put_device
put_device-Keeps p name i d v s h a = record {
  leases = refl;
  queue = refl;
  restores = refl;
  kept = λ x m n. elim (Memᴰ-set x s.devices i d v h m) [
    | inl (e, w) ↦ (
      v,
      w,
      subst (λ (y : Device). Alike p y v) (sym e) (a (sym (ap (λ (y : Device). y.name) e) ∙ n)),
    )
    | inr w ↦ (x, w, Alike-refl p x)
  ];
}

pub repair-Keeps :
    (p : Platform) (name : String) (i : ℕ) (d : Device) (s : State)
    → get_elem? s.devices i ≡ some d
    → (is_broken d.state ≡ true → d.name ≡ name → Alike p d (repaired d))
    → Keeps p name s (repair i d s)
unfolding repair journal
repair-Keeps p name i d s h a =
    if_elim (Keeps p name s) (is_broken d.state)
      (journal (repaired d) broken none "repair" (put_device i (repaired d) s)) s
      (λ b.
        let k = put_device-Keeps p name i d (repaired d) s h (a b) in
        record { leases = k.leases; queue = k.queue; restores = k.restores; kept = k.kept })
      (λ b. Keeps-refl p name s)

unlisted-ne :
    (name other : String) (listed : String → Bool)
    → listed name ≡ true
    → listed other ≡ false
    → str_eq other name ≡ false
unlisted-ne name other listed l u = elim (Bool-cases (str_eq other name)) [
  | inr k ↦ k
  | inl k ↦
      let f : listed name ≡ false =
        subst (λ (x : String). listed x ≡ false) (str_eq-eq other name k) u in
      absurd (ground (arith, f, l))
]

pub drop_missing-Keeps :
    (p : Platform) (name : String) (platform : Platform) (listed : String → Bool) (ds : List Device)
    (s : State)
    → listed name ≡ true
    → Keeps p name s (drop_missing platform listed ds s)
unfolding drop_missing
drop_missing-Keeps p name platform listed [] s l = Keeps-refl p name s
drop_missing-Keeps p name platform listed (d ∷ ds) s l =
    if_elim (Keeps p name s) (platform_eq d.platform platform && not (listed d.name))
      (drop_missing platform listed ds (remove_device d.name s)) (drop_missing platform listed ds s)
      (λ b.
        Keeps-trans p name s (remove_device d.name s)
          (drop_missing platform listed ds (remove_device d.name s))
          (remove_device-Keeps p name d.name s
            (unlisted-ne name d.name listed l (ground (arith, b))))
          (drop_missing-Keeps p name platform listed ds (remove_device d.name s) l))
      (λ b. drop_missing-Keeps p name platform listed ds s l)

-- A name that has a lease is not among those that the plan deletes.
unleased-ne :
    (name other : String) (s : State) (platform : Platform) (n : ℕ)
    → is_some (lease_for_device name s) ≡ true
    → Excess platform s n false other
    → str_eq other name ≡ false
unleased-ne name other s platform n l (d, (e, (h, (m, u)))) =
    elim (Bool-cases (str_eq other name)) [
      | inr k ↦ k
      | inl k ↦
          let q : d.name ≡ name = e ∙ str_eq-eq other name k in
          let f : is_some (lease_for_device name s) ≡ false =
            subst (λ (x : String). is_some (lease_for_device x s) ≡ false) q (ground (arith, u)) in
          absurd (ground (arith, f, l))
    ]

unleased-All :
    (name : String) (s : State) (platform : Platform) (n : ℕ) (names : List String)
    → is_some (lease_for_device name s) ≡ true
    → All (Excess platform s n false) names
    → All (λ other. str_eq other name ≡ false) names
unleased-All name s platform n [] l a = tt
unleased-All name s platform n (x ∷ xs) l a =
    (unleased-ne name x s platform n l a.0, unleased-All name s platform n xs l a.1)

-- The plan of a state with the same leases spares the name.
pub plan_resize-spares :
    {p : Platform} (name : String) (s r : State) (platform : Platform) (n : ℕ)
    → is_some (lease_for_device name s) ≡ true
    → Keeps p name s r
    → All (λ other. str_eq other name ≡ false) (plan_resize r platform n).delete
unfolding lease_for_device
plan_resize-spares name s r platform n l k =
    unleased-All name r platform n (plan_resize r platform n).delete
      (subst (λ (ls : List Lease). is_some (find (leases_device name) ls) ≡ true) (sym k.leases) l)
      (plan_resize-Safe r platform n).0.0

-- One resize after another.
pub then_resize-Keeps :
    (p : Platform) (name : String) (s : State) (r : Resized) (next : State → Resized)
    → Keeps p name s r.state
    → Keeps p name r.state (next r.state).state
    → Keeps p name s (then_resize r next).state
then_resize-Keeps p name s r next a b =
    if_elim (λ (x : Resized). Keeps p name s x.state) (r.failed) r (next r.state) (λ e. a)
      (λ e. Keeps-trans p name s r.state (next r.state).state a b)
