-- ===== src/Ports/Allocate.antt =====
-- `allocate` finds the least start that fits, and fails only where none does.
use native.Mathlib.Decide.{dec_lt}
use homebrew_tools.Prelude.{
  ℕ, zero, suc, ◌+◌, ◌-◌, ◌≤◌, ◌<◌, Bool, true, false, none, some, List, ◌≡◌, ltb, All, arith,
  Bool-cases, Option-cases, inl, inr, find_sound, find-none, All-get,
}
use homebrew_tools.Ports.{
  Entry, overlaps, overlapping, first_busy, Allocation, found, exhausted, out_of_fuel,
  allocate_from, allocate,
}

-- The block meets no entry and no busy port.
pub record Fits (busy : ℕ → Bool) (entries : List Entry) (size start : ℕ) : Type 0 where
  pub clear : All (λ e. overlaps start size e ≡ false) entries
  pub idle : (p : ℕ) → start ≤ p → p < start + size → busy p ≡ false

first_busy_sound :
    (busy : ℕ → Bool) (p n : ℕ) {q : ℕ}
    → first_busy busy p n ≡ some q
    → (p ≤ q) × (q < p + n) × (busy q ≡ true)
unfolding first_busy
first_busy_sound busy p zero h = cc
first_busy_sound busy p (suc n) {q} h = elim (Bool-cases (busy p)) [
  | inl b ↦ let e : p ≡ q = ground arith in (omega arith, omega arith, ground arith)
  | inr b ↦
      let (a, c, d) = first_busy_sound busy (suc p) n {q = q} (ground arith) in
      (omega arith, omega arith, d)
]

first_busy-none :
    (busy : ℕ → Bool) (p n q : ℕ) → first_busy busy p n ≡ none → p ≤ q → q < p + n → busy q ≡ false
unfolding first_busy
first_busy-none busy p zero q h a b = absurd (omega arith)
first_busy-none busy p (suc n) q h a b = ground (arith, first_busy-none busy (suc p) n q)

-- An entry in the way is in the way of every start up to its end.
blocked_by_entry :
    (busy : ℕ → Bool) (entries : List Entry) (size start i : ℕ) (e : Entry) (x : ℕ)
    → overlapping entries start size ≡ some (i, e)
    → start ≤ x
    → x < e.start + e.size
    → ¬ Fits busy entries size x
unfolding overlapping overlaps
blocked_by_entry busy entries size start i e x o a b f =
    let (at, meets) = find_sound (overlaps start size) entries o in
    absurd (ground (arith, All-get (λ y. overlaps x size y ≡ false) entries i f.clear at))

blocked_by_port :
    (busy : ℕ → Bool) (entries : List Entry) (size start p x : ℕ)
    → first_busy busy start size ≡ some p
    → start ≤ x
    → x < p + 1
    → ¬ Fits busy entries size x
blocked_by_port busy entries size start p x o a b f =
    let (lo, hi, taken) = first_busy_sound busy start size o in
    absurd (ground (arith, f.idle p (omega arith) (omega arith)))

-- What a search over the starts from lo says.
abbrev pub Answers : (ℕ → Bool) → ℕ → ℕ → List Entry → ℕ → Allocation → Type 0
Answers busy lo hi entries size (found x) =
    (lo ≤ x)
    × (x + size ≤ hi + 1)
    × Fits busy entries size x
    × ((y : ℕ) → lo ≤ y → y < x → ¬ Fits busy entries size y)
Answers busy lo hi entries size exhausted =
    (y : ℕ) → lo ≤ y → y + size ≤ hi + 1 → ¬ Fits busy entries size y
Answers busy lo hi entries size out_of_fuel = ⊥

-- Both ways to move on move the start up.
overlap_ahead :
    (entries : List Entry) (size start i : ℕ) (e : Entry)
    → overlapping entries start size ≡ some (i, e)
    → start < e.start + e.size
unfolding overlapping overlaps
overlap_ahead entries size start i e o =
    let (at, meets) = find_sound (overlaps start size) entries o in ground arith

clear_of :
    (entries : List Entry) (size start : ℕ)
    → overlapping entries start size ≡ none
    → All (λ e. overlaps start size e ≡ false) entries
unfolding overlapping
clear_of entries size start o = find-none (overlaps start size) entries o

allocate_from-Answers :
    (fuel : ℕ) (busy : ℕ → Bool) (lo hi : ℕ) (entries : List Entry) (size start : ℕ)
    → (hi + 2) - start < fuel
    → lo ≤ start
    → ((y : ℕ) → lo ≤ y → y < start → ¬ Fits busy entries size y)
    → Answers busy lo hi entries size (allocate_from fuel busy hi entries size start)
unfolding allocate_from
allocate_from-Answers zero busy lo hi entries size start fuel above none_below =
    absurd (omega arith)
allocate_from-Answers (suc fuel) busy lo hi entries size start enough above none_below =
    elim (Bool-cases (ltb (hi + 1) (start + size))) [
      | inl over ↦ rw over (λ y a b f. elim (dec_lt y start) [
        | yes before ↦ none_below y a before f
        | no after ↦ ground arith
      ])
      | inr inside ↦ elim (Option-cases (overlapping entries start size)) [
        | inr ((i, e), o) ↦
            rw (inside, o, allocate_from)
              (allocate_from-Answers fuel busy lo hi entries size (e.start + e.size)
                (ground (arith, overlap_ahead entries size start i e o))
                (omega (arith, overlap_ahead entries size start i e o))
                (λ y a b. elim (dec_lt y start) [
                  | yes before ↦ none_below y a before
                  | no after ↦ blocked_by_entry busy entries size start i e y o (omega arith) b
                ]))
        | inl o ↦ elim (Option-cases (first_busy busy start size)) [
          | inr (p, t) ↦
              rw (inside, o, t, allocate_from)
                (allocate_from-Answers fuel busy lo hi entries size (p + 1)
                  (ground (arith, first_busy_sound busy start size t))
                  (omega (arith, first_busy_sound busy start size t))
                  (λ y a b. elim (dec_lt y start) [
                    | yes before ↦ none_below y a before
                    | no after ↦ blocked_by_port busy entries size start p y t (omega arith) b
                  ]))
          | inl t ↦
              rw (inside, o, t, allocate_from)
                (
                  above,
                  ground arith,
                  record {
                    clear = clear_of entries size start o;
                    idle = λ p. first_busy-none busy start size p t;
                  },
                  none_below,
                )
        ]
      ]
    ]

-- `allocate` always ends. The start that it finds is in the range, meets no entry of the table and
-- no busy port, and is the least such; where it fails, no start of the range fits.
pub allocate-Answers :
    (busy : ℕ → Bool) (lo hi : ℕ) (entries : List Entry) (size : ℕ)
    → Answers busy lo hi entries size (allocate busy lo hi entries size)
unfolding allocate
allocate-Answers busy lo hi entries size =
    allocate_from-Answers (hi + 3) busy lo hi entries size lo (omega arith) (omega arith)
      (λ y a b f. absurd (omega arith))
