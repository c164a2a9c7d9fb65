-- ===== src/Prelude/Atoi.antt =====
-- `Atoi` of strconv on 64 bits, which reads back what `%d` prints.
use Prim.Native.Nat.{ℕ, zero, suc, ◌+◌, ◌-◌, ◌*◌, ◌/◌, ◌%◌, ◌<◌}
use Prim.Native.Char.{Char, code}
use Prim.Native.String.{String, [] as empty_text, ◌∷◌ as ◌∺◌, ◌++◌ as append_text}
use Prim.Native.String.append
use mathlib.Core.Path.{◌≡◌, refl, ap, ◌∙◌, subst}
use mathlib.Core.Bool.{Bool, true, false, ◌&&◌}
use mathlib.Core.Option.{Option, none, some}
use native.Mathlib.Omega.{arith}
use homebrew_tools.Prelude.Tests.{ltb, leb, ◌==◌, if◌then◌else◌, if_elim, Bool-cases}
use mathlib.Core.Logic.{inl, inr}
use homebrew_tools.Prelude.Ints.{ℤ, pos, negsuc}
use homebrew_tools.Prelude.Decimal.{digit, decimal_from, decimal}

abbrev pub is_digit : Char → Bool
is_digit c = leb 48 (code c) && leb (code c) 57

abbrev pub int64_end : ℕ
int64_end = 9223372036854775808

unfoldable pub parse_from : ℕ → String → Option ℕ
parse_from acc empty_text = some acc
parse_from acc (c ∺ s) = if is_digit c then parse_from (acc * 10 + (code c - 48)) s else none

-- Digits, and at least one.
unfoldable pub digits : String → Option ℕ
digits empty_text = none
digits (c ∺ s) = parse_from 0 (c ∺ s)

abbrev pub negated : ℕ → ℤ
negated zero = pos 0
negated (suc n) = negsuc n

-- A number with its sign, where it fits in 64 bits.
unfoldable pub signed : Bool → Option ℕ → Option ℤ
signed minus none = none
signed true (some n) = if leb n (int64_end) then some (negated n) else none
signed false (some n) = if ltb n (int64_end) then some (pos n) else none

unfoldable pub atoi : String → Option ℤ
atoi empty_text = none
atoi (c ∺ s) =
    if code c == 45
    then signed true (digits s)
    else (if code c == 43 then signed false (digits s) else signed false (digits (c ∺ s)))

parse_from-append :
    (a b : String) (acc v : ℕ)
    → parse_from acc a ≡ some v
    → parse_from acc (append_text a b) ≡ parse_from v b
unfolding parse_from
parse_from-append empty_text b acc v h =
    ap (parse_from acc) (append.nil b)
    ∙ subst (λ (x : ℕ). parse_from acc b ≡ parse_from x b) (cc h) refl
parse_from-append (c ∺ a) b acc v h =
    ap (parse_from acc) (append.cons c a b) ∙ elim (Bool-cases (is_digit c)) [
      | inl d ↦
          ground
            (arith, d, parse_from-append a b (acc * 10 + (code c - 48)) v (ground (arith, d, h)))
      | inr d ↦ absurd (ground (arith, d, h))
    ]

parse_from-digit : (acc d : ℕ) → d < 10 → parse_from acc (digit d) ≡ some (acc * 10 + d)
unfolding parse_from digit
parse_from-digit acc zero h = refl
parse_from-digit acc (suc zero) h = refl
parse_from-digit acc (suc (suc zero)) h = refl
parse_from-digit acc (suc (suc (suc zero))) h = refl
parse_from-digit acc (suc (suc (suc (suc zero)))) h = refl
parse_from-digit acc (suc (suc (suc (suc (suc zero))))) h = refl
parse_from-digit acc (suc (suc (suc (suc (suc (suc zero)))))) h = refl
parse_from-digit acc (suc (suc (suc (suc (suc (suc (suc zero))))))) h = refl
parse_from-digit acc (suc (suc (suc (suc (suc (suc (suc (suc zero)))))))) h = refl
parse_from-digit acc (suc (suc (suc (suc (suc (suc (suc (suc (suc zero))))))))) h = refl
parse_from-digit acc (suc (suc (suc (suc (suc (suc (suc (suc (suc (suc d)))))))))) h =
    absurd (omega (arith, h))

parse_from-decimal : (f n : ℕ) → n < f → parse_from 0 (decimal_from f n) ≡ some n
unfolding decimal_from
parse_from-decimal zero n h = absurd (omega (arith, h))
parse_from-decimal (suc f) n h =
    if_elim (λ (s : String). parse_from 0 s ≡ some n) (ltb n 10) (digit n)
      (append_text (decimal_from f (n / 10)) (digit (n % 10)))
      (λ e. parse_from-digit 0 n (ground (arith, e)) ∙ ap some (omega arith))
      (λ e.
        parse_from-append (decimal_from f (n / 10)) (digit (n % 10)) 0 (n / 10)
          (parse_from-decimal f (n / 10) (ground (arith, e, h)))
        ∙ (parse_from-digit (n / 10) (n % 10) (omega arith) ∙ ap some (omega arith)))

atoi-digits :
    (s : String) (n : ℕ) → parse_from 0 s ≡ some n → 0 < n → n < int64_end → atoi s ≡ some (pos n)
unfolding atoi parse_from digits signed
atoi-digits empty_text n h p b = absurd (ground (arith, h, p))
atoi-digits (c ∺ s) n h p b = elim (Bool-cases (is_digit c)) [
  | inl d ↦ ground (arith, d, h, b)
  | inr d ↦ absurd (ground (arith, d, h))
]

-- A positive number of 64 bits is read back from its decimal digits.
pub atoi-decimal : (n : ℕ) → 0 < n → n < int64_end → atoi (decimal n) ≡ some (pos n)
unfolding decimal
atoi-decimal n p b =
    atoi-digits (decimal_from (suc n) n) n (parse_from-decimal (suc n) n (omega arith)) p b
