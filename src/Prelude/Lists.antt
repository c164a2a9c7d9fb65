-- ===== src/Prelude/Lists.antt =====
-- Lists measured and indexed by native numbers: a slice of pointers is a list, and a pointer into it
-- is a position.
use Prim.Native.Nat.{ℕ, zero, suc, ◌+◌, ◌≤◌}
use mathlib.Core.Path.{◌≡◌, refl, ap, sym, subst}
use mathlib.Core.Logic.{◌≢◌, inl, inr}
use mathlib.Core.Bool.{Bool, true, false, ◌||◌}
use mathlib.Core.List.{List, [], ◌∷◌, ◌++◌, Memᴰ}
use mathlib.Core.List.Memᴰ
use mathlib.Core.Option.{Option, none, some}
use native.Mathlib.Omega.{arith}
use homebrew_tools.Prelude.Tests.{bit, if◌then◌else◌, if_elim}

module _ {ℓ} {A : Type ℓ} where
  abbrev pub length : List A → ℕ
  length [] = 0
  length (x ∷ xs) = suc (length xs)

  abbrev pub get_elem? : List A → ℕ → Option A
  get_elem? [] i = none
  get_elem? (x ∷ xs) zero = some x
  get_elem? (x ∷ xs) (suc i) = get_elem? xs i

  -- A write out of bounds changes nothing.
  abbrev pub set : List A → ℕ → A → List A
  set [] i v = []
  set (x ∷ xs) zero v = v ∷ xs
  set (x ∷ xs) (suc i) v = x ∷ set xs i v

  -- `append(xs[:i], xs[i+1:]...)`
  abbrev pub remove_at : List A → ℕ → List A
  remove_at [] i = []
  remove_at (x ∷ xs) zero = xs
  remove_at (x ∷ xs) (suc i) = x ∷ remove_at xs i

  -- The elements that pass the test, in order.
  abbrev pub keep : (A → Bool) → List A → List A
  keep p [] = []
  keep p (x ∷ xs) = if p x then x ∷ keep p xs else keep p xs

  abbrev pub count : (A → Bool) → List A → ℕ
  count p [] = 0
  count p (x ∷ xs) = bit (p x) + count p xs

  abbrev pub any : (A → Bool) → List A → Bool
  any p [] = false
  any p (x ∷ xs) = p x || any p xs

  abbrev pub All {κ} : (A → Type κ) → List A → Type κ
  All P [] = Unit
  All P (x ∷ xs) = P x × All P xs

module _ {ℓ} {A : Type ℓ} where
  pub length-append : (xs ys : List A) → length (xs ++ ys) ≡ length xs + length ys
  length-append [] ys = omega arith
  length-append (x ∷ xs) ys = omega (arith, length-append xs ys)

  pub length-keep-le : (p : A → Bool) (xs : List A) → length (keep p xs) ≤ length xs
  length-keep-le p [] = omega arith
  length-keep-le p (x ∷ xs) = ground (arith, length-keep-le p xs)

  -- A filter that drops no element is the identity.
  pub keep_of_length :
      (p : A → Bool) (xs : List A) → length (keep p xs) ≡ length xs → keep p xs ≡ xs
  keep_of_length p [] h = refl
  keep_of_length p (x ∷ xs) h = ground (arith, keep_of_length p xs, length-keep-le p xs)

  pub All-keep : (p : A → Bool) (xs : List A) → All (λ x. p x ≡ true) (keep p xs)
  All-keep p [] = tt
  All-keep p (x ∷ xs) = ground (arith, All-keep p xs)

  pub Memᴰ-keep :
      (p : A → Bool) (xs : List A) (x : A) → Memᴰ x (keep p xs) → Memᴰ x xs × (p x ≡ true)
  Memᴰ-keep p [] x m = absurd (Memᴰ.not-nil m)
  Memᴰ-keep p (y ∷ ys) x m =
      if_elim (λ (l : List A). Memᴰ x l → Memᴰ x (y ∷ ys) × (p x ≡ true)) (p y) (y ∷ keep p ys)
        (keep p ys)
        (λ e n. elim (Memᴰ.cases_cons n) [
          | inl q ↦ (Memᴰ.head q, subst (λ (z : A). p z ≡ true) (sym q) e)
          | inr r ↦ let w = Memᴰ-keep p ys x r in (Memᴰ.tail w.0, w.1)
        ])
        (λ e n. let w = Memᴰ-keep p ys x n in (Memᴰ.tail w.0, w.1)) m

  pub All-get {κ} :
      (P : A → Type κ) (xs : List A) (i : ℕ) {a : A} → All P xs → get_elem? xs i ≡ some a → P a
  All-get P [] i h e = cc
  All-get P (x ∷ xs) zero h e = ground (arith)
  All-get P (x ∷ xs) (suc i) h e = All-get P xs i h.1 e

  -- Counting across a write through a pointer.
  pub count-set :
      (p : A → Bool) (xs : List A) (i : ℕ) (v : A) {a : A}
      → get_elem? xs i ≡ some a
      → count p (set xs i v) + bit (p a) ≡ count p xs + bit (p v)
  count-set p [] i v h = cc
  count-set p (x ∷ xs) zero v h = ground arith
  count-set p (x ∷ xs) (suc i) v h = omega (arith, count-set p xs i v h)

  pub count-append : (p : A → Bool) (xs ys : List A) → count p (xs ++ ys) ≡ count p xs + count p ys
  count-append p [] ys = omega arith
  count-append p (x ∷ xs) ys = omega (arith, count-append p xs ys)

  pub set_id : (xs : List A) (i : ℕ) {a : A} → get_elem? xs i ≡ some a → set xs i a ≡ xs
  set_id [] i h = refl
  set_id (x ∷ xs) zero h = ground arith
  set_id (x ∷ xs) (suc i) h = ap (◌∷◌ x) (set_id xs i h)

  pub length-set : (xs : List A) (i : ℕ) (v : A) → length (set xs i v) ≡ length xs
  length-set [] i v = refl
  length-set (x ∷ xs) zero v = refl
  length-set (x ∷ xs) (suc i) v = ap suc (length-set xs i v)

  pub get_elem?-set_self :
      (xs : List A) (i : ℕ) (v : A) {a : A}
      → get_elem? xs i ≡ some a
      → get_elem? (set xs i v) i ≡ some v
  get_elem?-set_self [] i v h = cc
  get_elem?-set_self (x ∷ xs) zero v h = refl
  get_elem?-set_self (x ∷ xs) (suc i) v h = get_elem?-set_self xs i v h

  pub get_elem?-set_ne :
      (xs : List A) (i j : ℕ) (v : A) → i ≢ j → get_elem? (set xs i v) j ≡ get_elem? xs j
  get_elem?-set_ne [] i j v h = refl
  get_elem?-set_ne (x ∷ xs) zero zero v h = absurd (h refl)
  get_elem?-set_ne (x ∷ xs) zero (suc j) v h = refl
  get_elem?-set_ne (x ∷ xs) (suc i) zero v h = refl
  get_elem?-set_ne (x ∷ xs) (suc i) (suc j) v h = get_elem?-set_ne xs i j v (λ e. h (ap suc e))

  pub remove_at-length :
      (pre : List A) (x : A) (rest : List A)
      → remove_at (pre ++ (x ∷ rest)) (length pre) ≡ pre ++ rest
  remove_at-length [] x rest = refl
  remove_at-length (y ∷ pre) x rest = ap (◌∷◌ y) (remove_at-length pre x rest)

  pub get_elem?-length :
      (pre : List A) (x : A) (rest : List A) → get_elem? (pre ++ (x ∷ rest)) (length pre) ≡ some x
  get_elem?-length [] x rest = refl
  get_elem?-length (y ∷ pre) x rest = get_elem?-length pre x rest

  pub All-set {κ} :
      (P : A → Type κ) (xs : List A) (i : ℕ) (v : A) → All P xs → P v → All P (set xs i v)
  All-set P [] i v h p = tt
  All-set P (x ∷ xs) zero v h p = (p, h.1)
  All-set P (x ∷ xs) (suc i) v h p = (h.0, All-set P xs i v h.1 p)

  pub All-append {κ} : (P : A → Type κ) (xs ys : List A) → All P xs → All P ys → All P (xs ++ ys)
  All-append P [] ys h k = k
  All-append P (x ∷ xs) ys h k = (h.0, All-append P xs ys h.1 k)

  pub All-remove_at {κ} : (P : A → Type κ) (xs : List A) (i : ℕ) → All P xs → All P (remove_at xs i)
  All-remove_at P [] i h = tt
  All-remove_at P (x ∷ xs) zero h = h.1
  All-remove_at P (x ∷ xs) (suc i) h = (h.0, All-remove_at P xs i h.1)

-- Every two elements, in order, are related.
module _ {ℓ} {A : Type ℓ} where
  abbrev pub Pairs {κ} : (A → A → Type κ) → List A → Type κ
  Pairs R [] = Unit
  Pairs R (x ∷ xs) = All (R x) xs × Pairs R xs

module _ {ℓ} {A : Type ℓ} where
  pub Pairs-remove_at {κ} :
      (R : A → A → Type κ) (xs : List A) (i : ℕ) → Pairs R xs → Pairs R (remove_at xs i)
  Pairs-remove_at R [] i h = tt
  Pairs-remove_at R (x ∷ xs) zero h = h.1
  Pairs-remove_at R (x ∷ xs) (suc i) h = (All-remove_at (R x) xs i h.0, Pairs-remove_at R xs i h.1)

  pub Pairs-append {κ} :
      (R : A → A → Type κ) (xs : List A) (y : A)
      → Pairs R xs
      → All (λ x. R x y) xs
      → Pairs R (xs ++ (y ∷ []))
  Pairs-append R [] y h k = (tt, tt)
  Pairs-append R (x ∷ xs) y h k =
      (All-append (R x) xs (y ∷ []) h.0 (k.0, tt), Pairs-append R xs y h.1 k.1)
