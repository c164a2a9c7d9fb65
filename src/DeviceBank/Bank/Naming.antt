-- ===== src/DeviceBank/Bank/Naming.antt =====
-- internal/atelierd/devicebank/bank.go: the names and the ports of the bank are those of one index.
use homebrew_tools.Prelude.{
  ℕ, atoi, atoi-decimal, int64_end, ◌≤◌, ◌<◌, ◌%◌, String, true, ◌≡◌, ap, ◌∙◌, arith, has_prefix,
  trim_prefix, decimal,
}
use Prim.Native.String.{[] as empty_text, ◌∷◌ as ◌∺◌, ◌++◌ as ◌<>◌}
use Prim.Native.String.append
use homebrew_tools.DeviceBank.Types.{Platform}
use homebrew_tools.DeviceBank.Bank.{
  bank_prefix, bank_name, bank_index, emulator_port, max_android_bank, index_or_zero,
}

has_prefix-append : (p s : String) → has_prefix (p <> s) p ≡ true
unfolding has_prefix
has_prefix-append empty_text s = ap (λ (x : String). has_prefix x empty_text) (append.nil s)
has_prefix-append (c ∺ p) s =
    ap (λ (x : String). has_prefix x (c ∺ p)) (append.cons c p s)
    ∙ ground (arith, has_prefix-append p s)

trim_prefix-append : (p s : String) → trim_prefix (p <> s) p ≡ s
unfolding trim_prefix has_prefix
trim_prefix-append empty_text s = ap (λ (x : String). trim_prefix x empty_text) (append.nil s)
trim_prefix-append (c ∺ p) s =
    ap (λ (x : String). trim_prefix x (c ∺ p)) (append.cons c p s)
    ∙ ground (arith, has_prefix-append p s, trim_prefix-append p s)

-- The index read from a bank name is the one that the name was made of, where that is positive and fits
-- in 64 bits.
pub bank_index-bank_name :
    (platform : Platform) (index : ℕ)
    → 0 < index
    → index < int64_end
    → bank_index platform (bank_name platform index) ≡ index
unfolding bank_index bank_name
bank_index-bank_name platform index p b =
    let h = has_prefix-append (bank_prefix platform) (decimal index) in
    let t = trim_prefix-append (bank_prefix platform) (decimal index) in
    ground (
      arith,
      h,
      ap (λ (x : String). index_or_zero (atoi x)) t,
      ap index_or_zero (atoi-decimal index p b),
    )

-- For positive indexes within the cap, the console ports are even, in the range that adb discovers, and different.
pub emulator_port-InRange :
    (i j : ℕ)
    → 0 < i
    → i ≤ max_android_bank
    → 0 < j
    → j ≤ max_android_bank
    → ((5554 ≤ emulator_port i) × (emulator_port i ≤ 5584))
      × ((emulator_port i % 2 ≡ 0) × (emulator_port i ≡ emulator_port j → i ≡ j))
unfolding emulator_port
emulator_port-InRange i j p q r s = (
  (omega (arith, p, q), omega (arith, p, q)),
  (omega (arith, p, q), λ e. omega (arith, p, q, r, s, e)),
)
