-- ===== src/Forge/Counting/Named.antt =====
-- internal/atelierd/forge/types.go: which scenarios a validated batch of outcomes is about.
-- The keys join two texts by NUL, so they tell apart the scenarios of axes without NUL in their titles.
use Prim.Native.String.{[] as empty_text, ◌∷◌ as ◌∺◌, ◌++◌ as ◌<>◌}
use Prim.Native.Char.{Char, code}
use Prim.Native.String.append
use homebrew_tools.Prelude.{
  ◌==◌, String, true, false, ◌||◌, some, List, [], ◌∷◌, ◌++◌, str_eq, str_eq-eq, str_eq_refl,
  has_char, if◌then◌else◌, count, All, Pairs, Memᴰ, ◌≡◌, refl, sym, ap, ◌∙◌, subst, or-false, ◌⊎◌,
  inl, inr, arith, Bool-cases,
}
use homebrew_tools.Forge.Types.{Counts, Scenario, Axis, Campaign, Outcome}
use homebrew_tools.Forge.Validate.{has, outcome_key, axis_keys, known_keys, validate_outcomes}
use homebrew_tools.Forge.Appending.{has-append}
use homebrew_tools.Forge.Counting.{key_of, with_status, validate_outcomes-Tallied}

-- A text up to its first NUL, and from there.
until_nul : String → String
until_nul empty_text = empty_text
until_nul (c ∺ s) = if code c == 0 then empty_text else c ∺ until_nul s

from_nul : String → String
from_nul empty_text = empty_text
from_nul (c ∺ s) = if code c == 0 then s else from_nul s

until_nul-cons :
    (c : Char) (a s : String)
    → ((code c == 0) || has_char 0 a) ≡ false
    → (has_char 0 a ≡ false → until_nul s ≡ a)
    → until_nul (c ∺ s) ≡ c ∺ a
unfolding until_nul
until_nul-cons c a s h k =
    let (x, y) = or-false (code c == 0) (has_char 0 a) h in rw x (ap (◌∺◌ c) (k y))

until_nul-append : (a s : String) → has_char 0 a ≡ false → until_nul (a <> ("\0" <> s)) ≡ a
unfolding until_nul has_char
until_nul-append empty_text s h =
    ap until_nul (append.nil ("\0" <> s)) ∙ ap until_nul (append.cons "\0" empty_text s)
until_nul-append (c ∺ a) s h =
    ap until_nul (append.cons c a ("\0" <> s))
    ∙ until_nul-cons c a (a <> ("\0" <> s)) h (until_nul-append a s)

from_nul-append : (a s : String) → has_char 0 a ≡ false → from_nul (a <> ("\0" <> s)) ≡ s
unfolding from_nul has_char
from_nul-append empty_text s h =
    ap from_nul (append.nil ("\0" <> s))
    ∙ (ap from_nul (append.cons "\0" empty_text s) ∙ append.nil s)
from_nul-append (c ∺ a) s h =
    ap from_nul (append.cons c a ("\0" <> s)) ∙ ground (arith, h, from_nul-append a s)

-- Keys tell axes without NUL and their scenarios apart.
outcome_key-inj :
    (a b s t : String)
    → has_char 0 a ≡ false
    → has_char 0 b ≡ false
    → outcome_key a s ≡ outcome_key b t
    → (a ≡ b) × (s ≡ t)
unfolding outcome_key
outcome_key-inj a b s t h k e = (
  sym (until_nul-append a s h) ∙ (ap until_nul e ∙ until_nul-append b t k),
  sym (from_nul-append a s h) ∙ (ap from_nul e ∙ from_nul-append b t k),
)

-- A scenario of the campaign that an outcome names.
pub record Names (axes : List Axis) (o : Outcome) : Type 0 where
  pub axis : Axis
  pub scenario : Scenario
  pub in_axes : Memᴰ axis axes
  pub in_axis : Memᴰ scenario axis.scenarios
  pub same_axis : axis.title ≡ o.axis
  pub same_scenario : scenario.title ≡ o.scenario

abbrev pub NoNul : List Axis → Type 0
NoNul axes = All (λ a. has_char 0 a.title ≡ false) axes

axis_keys-has :
    (k title : String) (ss : List Scenario)
    → has k (axis_keys title ss) ≡ true
    → (s : Scenario) × Memᴰ s ss × (outcome_key title s.title ≡ k)
unfolding has axis_keys
axis_keys-has k title [] h = absurd (ground (arith, h))
axis_keys-has k title (x ∷ ss) h = elim (Bool-cases (str_eq (outcome_key title x.title) k)) [
  | inl e ↦ (x, Memᴰ.head refl, str_eq-eq (outcome_key title x.title) k e)
  | inr e ↦ let (s, m, q) = axis_keys-has k title ss (ground (arith, h, e)) in (s, Memᴰ.tail m, q)
]

has_none : (k : String) → has k [] ≡ false
unfolding has
has_none k = refl

has-either :
    (k : String) (xs ys : List String)
    → has k (xs ++ ys) ≡ true
    → (has k xs ≡ true) ⊎ (has k ys ≡ true)
has-either k xs ys h = elim (Bool-cases (has k xs)) [
  | inl e ↦ inl e
  | inr e ↦ inr (ground (arith, h, e, has-append k xs ys))
]

known_keys-Names :
    (axes : List Axis) (o : Outcome)
    → NoNul axes
    → has_char 0 o.axis ≡ false
    → has (key_of o) (known_keys axes) ≡ true
    → Names axes o
unfolding known_keys
known_keys-Names [] o n z h = absurd (ground (arith, has_none (key_of o), h))
known_keys-Names (a ∷ axes) o n z h =
    elim (has-either (key_of o) (axis_keys a.title a.scenarios) (known_keys axes) h) [
      | inl e ↦
          let (s, m, q) = axis_keys-has (key_of o) a.title a.scenarios e in
          let (t, u) = outcome_key-inj a.title o.axis s.title o.scenario n.0 z q in
          record {
            axis = a;
            scenario = s;
            in_axes = Memᴰ.head refl;
            in_axis = m;
            same_axis = t;
            same_scenario = u;
          }
      | inr e ↦
          let r = known_keys-Names axes o n.1 z e in
          record {
            axis = r.axis;
            scenario = r.scenario;
            in_axes = Memᴰ.tail r.in_axes;
            in_axis = r.in_axis;
            same_axis = r.same_axis;
            same_scenario = r.same_scenario;
          }
    ]

-- Every outcome names a scenario of the campaign and another one than the others, and the numbers are
-- those of the outcomes with each status.
pub record Tells (axes : List Axis) (batch : List Outcome) (c : Counts) : Type 0 where
  pub named : All (Names axes) batch
  pub distinct : Pairs (λ o p. ¬ ((o.axis ≡ p.axis) × (o.scenario ≡ p.scenario))) batch
  pub passes : c.pass ≡ count (with_status "pass") batch
  pub findings : c.finding ≡ count (with_status "finding") batch
  pub not_exercised : c.not_exercised ≡ count (with_status "not_exercised") batch

All-Names :
    (axes : List Axis) (os : List Outcome)
    → NoNul axes
    → All (λ o. has_char 0 o.axis ≡ false) os
    → All (λ o. has (key_of o) (known_keys axes) ≡ true) os
    → All (Names axes) os
All-Names axes [] n z h = tt
All-Names axes (o ∷ os) n z h = (known_keys-Names axes o n z.0 h.0, All-Names axes os n z.1 h.1)

abbrev Elsewhere : Outcome → Outcome → Type 0
Elsewhere o p = ¬ ((o.axis ≡ p.axis) × (o.scenario ≡ p.scenario))

key_of-ne : (o p : Outcome) → str_eq (key_of o) (key_of p) ≡ false → Elsewhere o p
key_of-ne o p h (e, q) =
    let k : key_of o ≡ key_of p =
      ap (λ (x : String). outcome_key x o.scenario) e ∙ ap (outcome_key p.axis) q in
    let t : str_eq (key_of o) (key_of p) ≡ true =
      subst (λ (x : String). str_eq (key_of o) x ≡ true) k (str_eq_refl (key_of o)) in
    absurd (ground (arith, h, t))

All-Elsewhere :
    (o : Outcome) (ps : List Outcome)
    → All (λ p. str_eq (key_of o) (key_of p) ≡ false) ps
    → All (Elsewhere o) ps
All-Elsewhere o [] h = tt
All-Elsewhere o (p ∷ ps) h = (key_of-ne o p h.0, All-Elsewhere o ps h.1)

Pairs-Elsewhere :
    (os : List Outcome)
    → Pairs (λ o p. str_eq (key_of o) (key_of p) ≡ false) os
    → Pairs Elsewhere os
Pairs-Elsewhere [] h = tt
Pairs-Elsewhere (o ∷ os) h = (All-Elsewhere o os h.0, Pairs-Elsewhere os h.1)

-- Where a batch is valid for a campaign, and no axis that they name has a NUL in its title, each outcome
-- is of a scenario of the campaign, no two are of the same one, and the counts returned are the numbers
-- of outcomes with each status.
pub validate_outcomes-Tells :
    (batch : List Outcome) (campaign : Campaign) {c : Counts}
    → NoNul campaign.axes
    → All (λ o. has_char 0 o.axis ≡ false) batch
    → validate_outcomes batch campaign ≡ some c
    → Tells campaign.axes batch c
validate_outcomes-Tells batch campaign n z h =
    let t = validate_outcomes-Tallied batch campaign h in
    record {
      named = All-Names campaign.axes batch n z t.in_campaign;
      distinct = Pairs-Elsewhere batch t.distinct;
      passes = t.passes;
      findings = t.findings;
      not_exercised = t.not_exercised;
    }
