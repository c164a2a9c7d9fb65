-- ===== src/Prelude/Find.antt =====
-- The search loops of the source: the first element that passes a test, with its position, which
-- stands for the pointer that the source returns.
use Prim.Native.Nat.{ℕ, suc}
use mathlib.Core.Path.{◌≡◌}
use mathlib.Core.Logic.{inl, inr}
use mathlib.Core.Bool.{Bool, true, false}
use mathlib.Core.List.{List, [], ◌∷◌, ◌++◌}
use mathlib.Core.Option.{Option, none, some}
use native.Mathlib.Omega.{arith}
use homebrew_tools.Prelude.Tests.{if◌then◌else◌, Bool-cases, Option-cases}
use homebrew_tools.Prelude.Lists.{get_elem?, length, All}

module _ {ℓ} {A : Type ℓ} where
  abbrev pub shift : Option (ℕ × A) → Option (ℕ × A)
  shift none = none
  shift (some (i, a)) = some (suc i, a)

  unfoldable pub find : (A → Bool) → List A → Option (ℕ × A)
  find p [] = none
  find p (x ∷ xs) = if p x then some (0, x) else shift (find p xs)

  -- What is found is at its position, and passes the test.
  pub find_sound :
      (p : A → Bool) (xs : List A) {i : ℕ} {a : A}
      → find p xs ≡ some (i, a)
      → (get_elem? xs i ≡ some a) × (p a ≡ true)
  unfolding find
  find_sound p [] h = cc
  find_sound p (x ∷ xs) h = elim (Bool-cases (p x)) [
    | inl e ↦ ground (arith, e)
    | inr e ↦ elim (Option-cases (find p xs)) [
      | inl f ↦ absurd (ground arith)
      | inr (_, f) ↦ ground (arith, find_sound p xs f)
    ]
  ]

  -- Where nothing is found, no element passes.
  pub find-none : (p : A → Bool) (xs : List A) → find p xs ≡ none → All (λ x. p x ≡ false) xs
  unfolding find
  find-none p [] h = tt
  find-none p (x ∷ xs) h = ground (arith, find-none p xs)

  -- An element that passes, behind others that do not, is found at the end.
  pub find-append :
      (p : A → Bool) (xs : List A) (y : A)
      → All (λ x. p x ≡ false) xs
      → p y ≡ true
      → find p (xs ++ (y ∷ [])) ≡ some (length xs, y)
  unfolding find
  find-append p [] y h k = rw k
  find-append p (x ∷ xs) y h k = rw (h.0, find-append p xs y h.1 k)
