-- ===== src/Forge/Appending/Budget.antt =====
-- internal/atelierd/forge/ops.go: `AppendCampaign` keeps the scenarios of a wave within their number.
use homebrew_tools.Prelude.{
  ℕ, ◌+◌, ◌≤◌, ◌<◌, String, Bool, true, false, not, some, str_eq-flip, List, [], ◌∷◌, str_eq,
  str_eq-eq, if◌then◌else◌, ◌≡◌, refl, sym, ap, ◌∙◌, subst, inl, inr, arith, Bool-cases,
}
use homebrew_tools.Forge.Types.{
  RunState, Axis, Campaign, LedgerPass, Ledger, write_run, write_campaign,
}
use homebrew_tools.Forge.Validate.{has, known_keys, validate_campaign}
use homebrew_tools.Forge.Store.{validate_persisted_data}
use homebrew_tools.Forge.Appending.{Within, append_to-Appended}
use homebrew_tools.Forge.Appending.Sizes.{
  part, size, size-le, count_appended-measure, count_additions-measure, add_axes-size,
}
use homebrew_tools.Forge.Appending.Findings.{Bitten, has-bitten, unbitten}
use homebrew_tools.Forge.Campaigns.{
  append_to, add_axes, bump, count_appended, count_additions, total, bitten, within_budgets,
  check_append_budget,
}

-- The scenarios of a wave in a campaign are as few as the skill allows: two of a wave after the second;
-- before that, six in each bitten axis, and two in all the others together.
pub record Few (n : ℕ) (ps : List LedgerPass) (axes : List Axis) : Type 0 where
  pub late : 2 < n → size (λ t. true) n axes ≤ 2
  pub in_bitten : n ≤ 2 → (t : String) → Bitten ps t → size (λ u. str_eq u t) n axes ≤ 6
  pub shared :
      n ≤ 2 → (P : String → Bool) → ((t : String) → P t ≡ true → ¬ Bitten ps t) → size P n axes ≤ 2

-- Three measures of the counts.
weight : (String → Bool) → List (String × ℕ) → ℕ
weight P [] = 0
weight P ((t, m) ∷ cs) = part P t m + weight P cs

weight-bump :
    (P : String → Bool) (t : String) (m : ℕ) (cs : List (String × ℕ))
    → weight P (bump t m cs) ≡ part P t m + weight P cs
unfolding weight bump
weight-bump P t m [] = ground arith
weight-bump P t m ((u, k) ∷ cs) = elim (Bool-cases (str_eq u t)) [
  | inl e ↦ let q : P u ≡ P t = ap P (str_eq-eq u t e) in ground (arith, e, q)
  | inr e ↦ ground (arith, e, weight-bump P t m cs)
]

total-bump :
    (t : String) (m : ℕ) (cs : List (String × ℕ))
    → total (bump t m cs) ≡ part (λ u. true) t m + total cs
unfolding total bump
total-bump t m [] = ground arith
total-bump t m ((u, k) ∷ cs) = elim (Bool-cases (str_eq u t)) [
  | inl e ↦ ground (arith, e)
  | inr e ↦ ground (arith, e, total-bump t m cs)
]

found_at : String → List (String × ℕ) → ℕ
found_at t [] = 0
found_at t ((u, k) ∷ cs) = if str_eq u t then k else found_at t cs

found_at-bump :
    (t u : String) (m : ℕ) (cs : List (String × ℕ))
    → found_at t (bump u m cs) ≡ part (λ x. str_eq x t) u m + found_at t cs
unfolding found_at bump
found_at-bump t u m [] = ground arith
found_at-bump t u m ((x, k) ∷ cs) = elim (Bool-cases (str_eq x u)) [
  | inl e ↦
      let q : str_eq x t ≡ str_eq u t = ap (λ (y : String). str_eq y t) (str_eq-eq x u e) in
      ground (arith, e, q)
  | inr e ↦ elim (Bool-cases (str_eq x t)) [
    | inr a ↦ ground (arith, e, a, found_at-bump t u m cs)
    | inl a ↦
        let b : str_eq x u ≡ str_eq t u = ap (λ (y : String). str_eq y u) (str_eq-eq x t a) in
        let c : str_eq u t ≡ false = str_eq-flip t u (sym b ∙ e) in ground (arith, e, a, c)
  ]
]

-- What the last loop tests.
within_budgets-shared :
    (hit : List String) (m : ℕ) (cs : List (String × ℕ))
    → within_budgets hit m cs ≡ true
    → m + weight (λ t. not (has t hit)) cs ≤ 2
unfolding within_budgets weight
within_budgets-shared hit m [] h = ground (arith, h)
within_budgets-shared hit m ((t, k) ∷ cs) h = elim (Bool-cases (has t hit)) [
  | inl e ↦ ground (arith, h, e, within_budgets-shared hit m cs)
  | inr e ↦ ground (arith, h, e, within_budgets-shared hit (m + k) cs)
]

within_budgets-bitten :
    (hit : List String) (m : ℕ) (t : String) (cs : List (String × ℕ))
    → within_budgets hit m cs ≡ true
    → has t hit ≡ true
    → found_at t cs ≤ 6
unfolding within_budgets found_at
within_budgets-bitten hit m t [] h b = omega arith
within_budgets-bitten hit m t ((u, k) ∷ cs) h b = elim (Bool-cases (str_eq u t)) [
  | inl e ↦
      let q : has u hit ≡ true =
        subst (λ (y : String). has y hit ≡ true) (sym (str_eq-eq u t e)) b in
      ground (arith, h, e, q)
  | inr e ↦ elim (Bool-cases (has u hit)) [
    | inl f ↦ ground (arith, e, f, h, within_budgets-bitten hit m t cs, b)
    | inr f ↦ ground (arith, e, f, h, within_budgets-bitten hit (m + k) t cs, b)
  ]
]

-- The counts of an append.
abbrev counts_of : ℕ → List Axis → List Axis → List (String × ℕ)
counts_of n axes additions = count_additions additions (count_appended n axes [])

measured :
    (P : String → Bool) (f : List (String × ℕ) → ℕ) (n : ℕ) (axes additions : List Axis)
    {grown : List Axis}
    → ((t : String) (m : ℕ) (cs : List (String × ℕ)) → f (bump t m cs) ≡ part P t m + f cs)
    → f [] ≡ 0
    → add_axes n axes additions ≡ some grown
    → size P n grown ≡ f (counts_of n axes additions)
measured P f n axes additions law z h = omega (
  arith,
  z,
  add_axes-size P n axes additions h,
  count_appended-measure P f law n axes [],
  count_additions-measure P f law additions (count_appended n axes []),
)

empty_weight : (P : String → Bool) → weight P [] ≡ 0
unfolding weight
empty_weight P = refl

empty_total : total [] ≡ 0
unfolding total
empty_total = refl

empty_found : (t : String) → found_at t [] ≡ 0
unfolding found_at
empty_found t = refl

late_budget :
    (c additions : Campaign) (l : Ledger) (n : ℕ)
    → check_append_budget c l additions n ≡ true
    → 2 < n
    → total (counts_of n c.axes additions.axes) ≤ 2
unfolding check_append_budget
late_budget c additions l n h e = ground (arith, h, e)

early_budget :
    (c additions : Campaign) (l : Ledger) (n : ℕ)
    → check_append_budget c l additions n ≡ true
    → n ≤ 2
    → within_budgets (bitten l.passes) 0 (counts_of n c.axes additions.axes) ≡ true
unfolding check_append_budget
early_budget c additions l n h e = ground (arith, h, e)

check_append_budget-Few :
    (c additions : Campaign) (l : Ledger) (n : ℕ) {grown : List Axis}
    → add_axes n c.axes additions.axes ≡ some grown
    → check_append_budget c l additions n ≡ true
    → Few n l.passes grown
check_append_budget-Few c additions l n {grown = grown} g h =
    let cs = counts_of n c.axes additions.axes in
    let hit = bitten l.passes in
    record {
      late = λ e.
          let m = measured (λ t. true) total n c.axes additions.axes total-bump empty_total g in
          omega (arith, m, late_budget c additions l n h e);
      in_bitten = λ e t b.
          let m =
            measured (λ u. str_eq u t) (found_at t) n c.axes additions.axes (found_at-bump t)
              (empty_found t) g in
          let w =
            within_budgets-bitten hit 0 t cs (early_budget c additions l n h e)
              (has-bitten t l.passes b) in
          omega (arith, m, w);
      shared = λ e P k.
          let Q : String → Bool = λ t. not (has t hit) in
          let m =
            measured Q (weight Q) n c.axes additions.axes (weight-bump Q) (empty_weight Q) g in
          let w = within_budgets-shared hit 0 cs (early_budget c additions l n h e) in
          let i : size P n grown ≤ size Q n grown =
            size-le P Q n grown (λ t p. unbitten t l.passes (k t p)) in
          omega (arith, i, m, w);
    }

-- What an append leaves: files that agree, a campaign that is valid and small enough, that has every
-- scenario known before, and no more scenarios of the wave than allowed.
pub record Settled (fits : Campaign → Bool) (n : ℕ) (c : Campaign) (l : Ledger) (s' : RunState)
    (c' : Campaign) : Type 0 where
  pub agrees : validate_persisted_data s' c' l ≡ true
  pub valid : validate_campaign c' ≡ true
  pub fitting : fits c' ≡ true
  pub kept : Within (known_keys c.axes) (known_keys c'.axes)
  pub few : Few n l.passes c'.axes

-- Whenever an append writes, it writes a campaign that is valid and small enough, that keeps every
-- scenario known before, and that still agrees with the ledger and the state written behind it. After
-- wave 2 it has at most two scenarios of the wave; until then at most six in each axis that has a
-- finding recorded in wave 1, and at most two in all the other axes together.
pub append_to-Settled :
    (fits : Campaign → Bool) (n : ℕ) (additions : Campaign) (s : RunState) (c : Campaign)
    (l : Ledger) {s' : RunState} {c' : Campaign}
    → (append_to fits n additions s c l).writes ≡ write_campaign c' ∷ (write_run s' ∷ [])
    → Settled fits n c l s' c'
append_to-Settled fits n additions s c l h =
    let a = append_to-Appended fits n additions s c l h in
    record {
      agrees = a.agrees;
      valid = a.valid;
      fitting = a.fitting;
      kept = a.kept;
      few = check_append_budget-Few c additions l n a.grown a.budget;
    }
