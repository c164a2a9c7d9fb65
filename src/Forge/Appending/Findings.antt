-- ===== src/Forge/Appending/Findings.antt =====
-- internal/atelierd/forge/ops.go: the axes with a finding in wave 1, as `checkAppendBudget` collects them.
use mathlib.Core.List.Memᴰ
use homebrew_tools.Prelude.{
  String, true, false, not, ◌&&◌, ◌||◌, ◌==◌, List, [], ◌∷◌, str_eq, str_eq-eq, str_eq_refl, Memᴰ,
  ◌≡◌, refl, sym, ap, ◌∙◌, subst, inl, inr, arith, Bool-cases, and-true,
}
use homebrew_tools.Forge.Types.{Outcome, LedgerPass, pass_wave}
use homebrew_tools.Forge.Validate.{has}
use homebrew_tools.Forge.Appending.{has-append}
use homebrew_tools.Forge.Campaigns.{bitten_by, bitten}

-- An axis with a finding recorded in wave 1.
pub data Bitten (ps : List LedgerPass) (title : String) : Type 0 where
  bites :
      (r : LedgerPass) (o : Outcome)
      → Memᴰ r ps
      → r.kind ≡ "wave"
      → r.wave ≡ 1
      → Memᴰ o r.outcomes
      → o.status ≡ "finding"
      → o.axis ≡ title
      → Bitten ps title

has-nil : (t : String) → has t [] ≡ false
unfolding has
has-nil t = refl

bitten_by-Memᴰ :
    (t : String) (os : List Outcome)
    → has t (bitten_by os) ≡ true
    → (o : Outcome) × Memᴰ o os × (o.status ≡ "finding") × (o.axis ≡ t)
unfolding bitten_by has
bitten_by-Memᴰ t [] h = absurd (ground (arith, h))
bitten_by-Memᴰ t (o ∷ os) h = elim (Bool-cases (str_eq o.status "finding")) [
  | inl e ↦ elim (Bool-cases (str_eq o.axis t)) [
    | inl q ↦ (o, Memᴰ.head refl, str_eq-eq o.status "finding" e, str_eq-eq o.axis t q)
    | inr q ↦
        let (p, m, s, x) = bitten_by-Memᴰ t os (ground (arith, h, e, q)) in (p, Memᴰ.tail m, s, x)
  ]
  | inr e ↦ let (p, m, s, x) = bitten_by-Memᴰ t os (ground (arith, h, e)) in (p, Memᴰ.tail m, s, x)
]

Bitten-tail : (r : LedgerPass) (ps : List LedgerPass) (t : String) → Bitten ps t → Bitten (r ∷ ps) t
Bitten-tail r ps t (bites q o m k w n s a) = Bitten.bites q o (Memᴰ.tail m) k w n s a

bitten-Bitten : (t : String) (ps : List LedgerPass) → has t (bitten ps) ≡ true → Bitten ps t
unfolding bitten
bitten-Bitten t [] h = absurd (ground (arith, has-nil t, h))
bitten-Bitten t (r ∷ ps) h = elim (Bool-cases (str_eq r.kind pass_wave && (r.wave == 1))) [
  | inr e ↦ Bitten-tail r ps t (bitten-Bitten t ps (ground (arith, h, e)))
  | inl e ↦
      let (k, w) = and-true (str_eq r.kind pass_wave) (r.wave == 1) e in
      let u : (has t (bitten_by r.outcomes) || has t (bitten ps)) ≡ true =
        ground (arith, h, e, has-append t (bitten_by r.outcomes) (bitten ps)) in
      elim (Bool-cases (has t (bitten_by r.outcomes))) [
        | inl b ↦
            let (o, m, s, a) = bitten_by-Memᴰ t r.outcomes b in
            Bitten.bites r o (Memᴰ.head refl) (str_eq-eq r.kind pass_wave k) (ground (arith, w)) m s
              a
        | inr b ↦ Bitten-tail r ps t (bitten-Bitten t ps (ground (arith, u, b)))
      ]
]

has-bitten_by :
    (t : String) (o : Outcome) (os : List Outcome)
    → Memᴰ o os
    → o.status ≡ "finding"
    → o.axis ≡ t
    → has t (bitten_by os) ≡ true
unfolding bitten_by has
has-bitten_by t o [] m s a = absurd (Memᴰ.not-nil m)
has-bitten_by t o (x ∷ os) m s a = elim (Memᴰ.cases_cons m) [
  | inl e ↦
      let f : str_eq x.status "finding" ≡ true =
        subst (λ (y : String). str_eq y "finding" ≡ true) (sym s ∙ ap (λ (y : Outcome). y.status) e)
          (str_eq_refl "finding") in
      let g : str_eq x.axis t ≡ true =
        subst (λ (y : String). str_eq y t ≡ true) (sym a ∙ ap (λ (y : Outcome). y.axis) e)
          (str_eq_refl t) in
      ground (arith, f, g)
  | inr k ↦ ground (arith, has-bitten_by t o os k s a)
]

pub has-bitten : (t : String) (ps : List LedgerPass) → Bitten ps t → has t (bitten ps) ≡ true
unfolding bitten
has-bitten t [] (bites r o m k w n s a) = absurd (Memᴰ.not-nil m)
has-bitten t (x ∷ ps) (bites r o m k w n s a) = elim (Memᴰ.cases_cons m) [
  | inl e ↦
      let f : str_eq x.kind pass_wave ≡ true =
        subst (λ (y : String). str_eq y pass_wave ≡ true)
          (sym k ∙ ap (λ (y : LedgerPass). y.kind) e) (str_eq_refl pass_wave) in
      let g : x.wave ≡ 1 = sym (ap (λ (y : LedgerPass). y.wave) e) ∙ w in
      let h : has t (bitten_by x.outcomes) ≡ true =
        subst (λ (y : LedgerPass). has t (bitten_by y.outcomes) ≡ true) e
          (has-bitten_by t o r.outcomes n s a) in
      ground (arith, f, g, h, has-append t (bitten_by x.outcomes) (bitten ps))
  | inr q ↦
      let h = has-bitten t ps (Bitten.bites r o q k w n s a) in
      ground (arith, h, has-append t (bitten_by x.outcomes) (bitten ps))
]

pub unbitten : (t : String) (ps : List LedgerPass) → ¬ Bitten ps t → not (has t (bitten ps)) ≡ true
unbitten t ps n = elim (Bool-cases (has t (bitten ps))) [
  | inl e ↦ absurd (n (bitten-Bitten t ps e))
  | inr e ↦ ground (arith, e)
]
