-- ===== src/Forge/Appending/Sizes.antt =====
-- internal/atelierd/forge/ops.go: how many scenarios of a wave an append leaves in the axes of a campaign.
use homebrew_tools.Prelude.{
  ℕ, zero, suc, ◌+◌, ◌≤◌, String, Bool, true, false, none, some, Option, List, [], ◌∷◌, ◌++◌, ◌==◌,
  str_eq, str_eq-eq, if◌then◌else◌, if_elim, count, length, find, find_sound, set, get_elem?, ◌≡◌,
  refl, sym, ap, ◌∙◌, subst, inl, inr, arith, Bool-cases,
}
use homebrew_tools.Forge.Types.{Scenario, Axis}
use homebrew_tools.Forge.Appending.{with_axes-some}
use homebrew_tools.Forge.Campaigns.{
  bump, appended_before, count_appended, count_additions, has_title, add_scenarios, scenarios_of,
  place_axis, add_axis, add_axes,
}

abbrev pub of_wave : ℕ → Scenario → Bool
of_wave n s = s.wave == n

abbrev pub part : (String → Bool) → String → ℕ → ℕ
part P t m = if P t then m else 0

-- The scenarios of a wave in the axes with certain titles.
abbrev pub size : (String → Bool) → ℕ → List Axis → ℕ
size P n [] = 0
size P n (a ∷ axes) = part P a.title (count (of_wave n) a.scenarios) + size P n axes

-- The scenarios of additions to such axes.
abbrev pub extra : (String → Bool) → List Axis → ℕ
extra P [] = 0
extra P (a ∷ axes) = part P a.title (length a.scenarios) + extra P axes

pub size-le :
    (P Q : String → Bool) (n : ℕ) (axes : List Axis)
    → ((t : String) → P t ≡ true → Q t ≡ true)
    → size P n axes ≤ size Q n axes
size-le P Q n [] h = omega arith
size-le P Q n (a ∷ axes) h = elim (Bool-cases (P a.title)) [
  | inl e ↦ ground (arith, e, h a.title e, size-le P Q n axes h)
  | inr e ↦ ground (arith, e, size-le P Q n axes h)
]

-- What the counts say of the titles in P, by a measure that grows with each count added for one.
module _ (P : String → Bool) (f : List (String × ℕ) → ℕ)
    (law : (t : String) (m : ℕ) (cs : List (String × ℕ))
      → f (bump t m cs) ≡ part P t m + f cs) where
  appended_before-measure :
      (n : ℕ) (t : String) (ss : List Scenario) (cs : List (String × ℕ))
      → f (appended_before n t ss cs) ≡ part P t (count (of_wave n) ss) + f cs
  unfolding appended_before
  appended_before-measure n t [] cs = ground arith
  appended_before-measure n t (s ∷ ss) cs = elim (Bool-cases (s.wave == n)) [
    | inl e ↦ ground (arith, e, appended_before-measure n t ss (bump t 1 cs), law t 1 cs)
    | inr e ↦ ground (arith, e, appended_before-measure n t ss cs)
  ]

  pub count_appended-measure :
      (n : ℕ) (axes : List Axis) (cs : List (String × ℕ))
      → f (count_appended n axes cs) ≡ size P n axes + f cs
  unfolding count_appended
  count_appended-measure n [] cs = omega arith
  count_appended-measure n (a ∷ axes) cs = omega (
    arith,
    count_appended-measure n axes (appended_before n a.title a.scenarios cs),
    appended_before-measure n a.title a.scenarios cs,
  )

  pub count_additions-measure :
      (axes : List Axis) (cs : List (String × ℕ))
      → f (count_additions axes cs) ≡ extra P axes + f cs
  unfolding count_additions
  count_additions-measure [] cs = omega arith
  count_additions-measure (a ∷ axes) cs = omega (
    arith,
    count_additions-measure axes (bump a.title (length a.scenarios) cs),
    law a.title (length a.scenarios) cs,
  )

count-end :
    (n : ℕ) (ss : List Scenario) (s : Scenario)
    → count (of_wave n) (ss ++ ((record s { wave = n }) ∷ [])) ≡ suc (count (of_wave n) ss)
count-end n [] s = ground arith
count-end n (x ∷ ss) s = ground (arith, count-end n ss s)

add_scenarios-count :
    (n : ℕ) (old ss : List Scenario) {new : List Scenario}
    → add_scenarios n old ss ≡ some new
    → count (of_wave n) new ≡ count (of_wave n) old + length ss
unfolding add_scenarios
add_scenarios-count n old [] {new = new} h =
    let q : old ≡ new = cc h in
    subst (λ (x : List Scenario). count (of_wave n) x ≡ count (of_wave n) old + 0) q (omega arith)
add_scenarios-count n old (s ∷ ss) {new = new} h =
    let more : List Scenario = old ++ ((record s { wave = n }) ∷ []) in
    if_elim (λ r. r ≡ some new → count (of_wave n) new ≡ count (of_wave n) old + length (s ∷ ss))
      (has_title s.title old) none (add_scenarios n more ss) (λ _ e. absurd (ground arith))
      (λ _ e. omega (arith, add_scenarios-count n more ss e, count-end n old s)) h

module _ (P : String → Bool) (n : ℕ) where
  size-set :
      (axes : List Axis) (i : ℕ) {a : Axis} (ss : List Scenario)
      → get_elem? axes i ≡ some a
      → size P n (set axes i (record a { scenarios = ss }))
          + part P a.title (count (of_wave n) a.scenarios)
        ≡ size P n axes + part P a.title (count (of_wave n) ss)
  size-set [] i ss g = absurd (ground (arith, g))
  size-set (x ∷ axes) zero {a = a} ss g =
      let q : x ≡ a = cc g in
      subst
        (λ (b : Axis).
          (part P a.title (count (of_wave n) ss) + size P n axes)
            + part P a.title (count (of_wave n) a.scenarios)
          ≡ (part P b.title (count (of_wave n) b.scenarios) + size P n axes)
            + part P a.title (count (of_wave n) ss))
        (sym q) (omega arith)
  size-set (x ∷ axes) (suc i) {a = a} ss g = omega (arith, size-set axes i ss g)

  size-end :
      (axes : List Axis) (a : Axis)
      → size P n (axes ++ (a ∷ [])) ≡ size P n axes + part P a.title (count (of_wave n) a.scenarios)
  size-end [] a = omega arith
  size-end (x ∷ axes) a = omega (arith, size-end axes a)

  place_axis-size :
      (axes : List Axis) (at : Option (ℕ × Axis)) (t : String) (r : Option (List Scenario)) (k : ℕ)
      {grown : List Axis}
      → ((i : ℕ) (a : Axis) → at ≡ some (i, a) → (get_elem? axes i ≡ some a) × (a.title ≡ t))
      → ((ss : List Scenario)
          → r ≡ some ss
          → count (of_wave n) ss ≡ count (of_wave n) (scenarios_of at) + k)
      → place_axis axes at t r ≡ some grown
      → size P n grown ≡ size P n axes + part P t k
  unfolding place_axis scenarios_of
  place_axis-size axes at t none k g w h = absurd (cc h)
  place_axis-size axes none t (some ss) k {grown = grown} g w h =
      let new : Axis = record { title = t; scenarios = ss } in
      let q : axes ++ (new ∷ []) ≡ grown = cc h in
      let c : count (of_wave n) ss ≡ 0 + k = w ss refl in
      subst (λ (x : List Axis). size P n x ≡ size P n axes + part P t k) q
        (size-end axes new ∙ ap (λ (m : ℕ). size P n axes + part P t m) (ground (arith, c)))
  place_axis-size axes (some (i, a)) t (some ss) k {grown = grown} g w h =
      let q : set axes i (record a { scenarios = ss }) ≡ grown = cc h in
      let (there, e) = g i a refl in
      let c : count (of_wave n) ss ≡ count (of_wave n) a.scenarios + k = w ss refl in
      subst (λ (x : List Axis). size P n x ≡ size P n axes + part P t k) q
        (elim (Bool-cases (P a.title)) [
          | inl b ↦
              let b' : P t ≡ true = subst (λ (x : String). P x ≡ true) e b in
              ground (arith, b, b', c, size-set axes i ss there)
          | inr b ↦
              let b' : P t ≡ false = subst (λ (x : String). P x ≡ false) e b in
              ground (arith, b, b', size-set axes i ss there)
        ])

  add_axis-size :
      (axes : List Axis) (addition : Axis) {grown : List Axis}
      → add_axis n axes addition ≡ some grown
      → size P n grown ≡ size P n axes + part P addition.title (length addition.scenarios)
  unfolding add_axis
  add_axis-size axes addition h =
      let at = find (λ a. str_eq a.title addition.title) axes in
      place_axis-size axes at addition.title (add_scenarios n (scenarios_of at) addition.scenarios)
        (length addition.scenarios)
        (λ i a e.
          let (x, y) = find_sound (λ a. str_eq a.title addition.title) axes e in
          (x, str_eq-eq a.title addition.title y))
        (λ ss e. add_scenarios-count n (scenarios_of at) addition.scenarios e) h

  pub add_axes-size :
      (axes additions : List Axis) {grown : List Axis}
      → add_axes n axes additions ≡ some grown
      → size P n grown ≡ size P n axes + extra P additions
  unfolding add_axes
  add_axes-size axes [] {grown = grown} h =
      let q : axes ≡ grown = cc h in
      subst (λ (x : List Axis). size P n x ≡ size P n axes + 0) q (omega arith)
  add_axes-size axes (a ∷ rest) h =
      let (mid, e1, e2) = with_axes-some (add_axis n axes a) (λ x. add_axes n x rest) h in
      omega (arith, add_axes-size mid rest e2, add_axis-size axes a e1)
