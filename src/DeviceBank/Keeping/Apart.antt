-- ===== src/DeviceBank/Keeping/Apart.antt =====
-- internal/atelierd/devicebank/ops.go: the emulators that `resizeAndroid` recreates are not the leased ones.
use homebrew_tools.Prelude.{
  ℕ, zero, suc, ◌+◌, String, true, false, not, some, List, [], ◌∷◌, ◌++◌, ◌&&◌, ltb, leb, str_eq,
  str_eq-eq, str_eq_refl, is_some, get_elem?, set, All, ◌≡◌, ◌≢◌, refl, sym, ap, ◌∙◌, subst, arith,
  if_elim, Bool-cases, inl, inr,
}
use homebrew_tools.DeviceBank.Types.{android, platform_eq, Device, State}
use homebrew_tools.DeviceBank.State.{lease_for_device}
use homebrew_tools.DeviceBank.Bank.{bank_index, in_use}
use homebrew_tools.DeviceBank.InitBank.{to_recreate}

-- A position with a device of another name.
abbrev pub Apart : String → List Device → ℕ → Type 0
Apart name ds i = (x : Device) × (get_elem? ds i ≡ some x) × (str_eq x.name name ≡ false)

pub All-map {ℓ κ} :
    {A : Type ℓ} {P Q : A → Type κ} → ((x : A) → P x → Q x) → (xs : List A) → All P xs → All Q xs
All-map f [] a = tt
All-map f (x ∷ xs) a = (f x a.0, All-map f xs a.1)

pub Apart-ne :
    (name : String) (ds : List Device) (i : ℕ) {d : Device}
    → Apart name ds i
    → get_elem? ds i ≡ some d
    → d.name ≢ name
Apart-ne name ds i {d = d} (x, g, n) e q =
    let same : x ≡ d = cc (g, e) in
    let f : str_eq d.name name ≡ false =
      subst (λ (y : Device). str_eq y.name name ≡ false) same n in
    let t : str_eq d.name name ≡ true =
      subst (λ (y : String). str_eq d.name y ≡ true) q (str_eq_refl d.name) in
    absurd (ground (arith, f, t))

pub Apart-append :
    (name : String) (d : Device) (ds : List Device) (i : ℕ)
    → Apart name ds i
    → Apart name (ds ++ (d ∷ [])) i
Apart-append name d [] i (x, g, n) = absurd (ground (arith, g))
Apart-append name d (y ∷ ds) zero a = a
Apart-append name d (y ∷ ds) (suc i) a = Apart-append name d ds i a

pub Apart-set :
    (name : String) (ds : List Device) (i j : ℕ) (d v : Device)
    → get_elem? ds i ≡ some d
    → v.name ≡ d.name
    → Apart name ds j
    → Apart name (set ds i v) j
Apart-set name [] i j d v g q (x, h, n) = absurd (ground (arith, h))
Apart-set name (y ∷ ds) zero zero d v g q (x, h, n) =
    let same : x ≡ d = cc (g, h) in
    let w : v.name ≡ x.name = q ∙ sym (ap (λ (z : Device). z.name) same) in
    (v, refl, subst (λ (z : String). str_eq z name ≡ false) (sym w) n)
Apart-set name (y ∷ ds) zero (suc j) d v g q a = a
Apart-set name (y ∷ ds) (suc i) zero d v g q a = a
Apart-set name (y ∷ ds) (suc i) (suc j) d v g q a = Apart-set name ds i j d v g q a

-- A device that is not in use has another name than one that has a lease.
unused-ne :
    (name : String) (s : State) (d : Device)
    → is_some (lease_for_device name s) ≡ true
    → in_use s d ≡ false
    → str_eq d.name name ≡ false
unused-ne name s d l u = elim (Bool-cases (str_eq d.name name)) [
  | inr e ↦ e
  | inl e ↦
      let f : is_some (lease_for_device name s) ≡ false =
        subst (λ (x : String). is_some (lease_for_device x s) ≡ false) (str_eq-eq d.name name e)
          (ground (arith, u)) in
      absurd (ground (arith, f, l))
]

suc_shift : (j i : ℕ) → suc j + i ≡ j + suc i
suc_shift j i = omega arith

at_start :
    (whole : List Device) (i : ℕ) (d : Device)
    → get_elem? whole (0 + i) ≡ some d
    → get_elem? whole i ≡ some d
at_start whole i d h = ground (arith, h)

-- The devices to recreate are not in use.
pub to_recreate-Apart :
    (name : String) (s : State) (n : ℕ) (ds whole : List Device) (i : ℕ)
    → is_some (lease_for_device name s) ≡ true
    → ((j : ℕ) (x : Device) → get_elem? ds j ≡ some x → get_elem? whole (j + i) ≡ some x)
    → All (Apart name whole) (to_recreate s n ds i)
unfolding to_recreate
to_recreate-Apart name s n [] whole i l at = tt
to_recreate-Apart name s n (d ∷ ds) whole i l at =
    let rest =
      to_recreate-Apart name s n ds whole (suc i) l
        (λ j x e. subst (λ (k : ℕ). get_elem? whole k ≡ some x) (suc_shift j i) (at (suc j) x e)) in
    if_elim (All (Apart name whole))
      (platform_eq d.platform android
        && ltb 0 (bank_index android d.name)
        && leb (bank_index android d.name) n
        && not (in_use s d))
      (i ∷ to_recreate s n ds (suc i)) (to_recreate s n ds (suc i))
      (λ b. ((d, at_start whole i d (at 0 d refl), unused-ne name s d l (ground (arith, b))), rest))
      (λ b. rest)
