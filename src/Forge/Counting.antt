-- ===== src/Forge/Counting.antt =====
-- internal/atelierd/forge/types.go: what a validated batch of outcomes is.
pub mod Named
use homebrew_tools.Prelude.{
  ◌+◌, String, Bool, true, false, not, ◌&&◌, Option, none, some, List, [], ◌∷◌, ltb, leb, str_eq,
  str_eq-eq, if_elim, bit, count, length, All, Pairs, and-true, or-false, ◌≡◌, refl, sym, subst,
  inl, inr, arith, Bool-cases,
}
use homebrew_tools.Forge.Types.{Counts, Campaign, Outcome, max_outcomes}
use homebrew_tools.Forge.Validate.{
  has, outcome_key, outcome_too_long, valid_severity, blank, tally, count_outcome, known_keys,
  no_counts, with_counts, count_known, validate_outcomes,
}

abbrev pub key_of : Outcome → String
key_of o = outcome_key o.axis o.scenario

abbrev pub with_status : String → Outcome → Bool
with_status status o = str_eq o.status status

-- Every outcome is of a known scenario and of another one than the others, and the numbers are those
-- of the outcomes with each status.
pub record Tallied (known : List String) (batch : List Outcome) (c : Counts) : Type 0 where
  pub in_campaign : All (λ o. has (key_of o) known ≡ true) batch
  pub distinct : Pairs (λ o p. str_eq (key_of o) (key_of p) ≡ false) batch
  pub passes : c.pass ≡ count (with_status "pass") batch
  pub findings : c.finding ≡ count (with_status "finding") batch
  pub not_exercised : c.not_exercised ≡ count (with_status "not_exercised") batch

-- The same from counts and seen keys on.
record From (known seen : List String) (before : Counts) (batch : List Outcome) (c : Counts)
    : Type 0 where
  in_campaign : All (λ o. has (key_of o) known ≡ true) batch
  unseen : All (λ o. has (key_of o) seen ≡ false) batch
  distinct : Pairs (λ o p. str_eq (key_of o) (key_of p) ≡ false) batch
  passes : c.pass ≡ before.pass + count (with_status "pass") batch
  findings : c.finding ≡ before.finding + count (with_status "finding") batch
  not_exercised : c.not_exercised ≡ before.not_exercised + count (with_status "not_exercised") batch

-- One outcome counts under its status alone.
record Counted (o : Outcome) (before c : Counts) : Type 0 where
  pass : c.pass ≡ before.pass + bit (with_status "pass" o)
  finding : c.finding ≡ before.finding + bit (with_status "finding" o)
  not_exercised : c.not_exercised ≡ before.not_exercised + bit (with_status "not_exercised" o)

differs : (s t u : String) → str_eq t u ≡ false → str_eq s t ≡ true → str_eq s u ≡ false
differs s t u n e = subst (λ x. str_eq x u ≡ false) (sym (str_eq-eq s t e)) n

pass_finding : str_eq "pass" "finding" ≡ false
unfolding str_eq
pass_finding = refl

pass_not_exercised : str_eq "pass" "not_exercised" ≡ false
unfolding str_eq
pass_not_exercised = refl

finding_not_exercised : str_eq "finding" "not_exercised" ≡ false
unfolding str_eq
finding_not_exercised = refl

tally-Counted :
    (before : Counts) (o : Outcome) {c : Counts}
    → tally before o.status ≡ some c
    → Counted o before c
unfolding tally
tally-Counted before o {c = c} h = elim (Bool-cases (str_eq o.status "pass")) [
  | inl e ↦
      let nf = differs o.status "pass" "finding" pass_finding e in
      let nn = differs o.status "pass" "not_exercised" pass_not_exercised e in
      record { pass = ground arith; finding = ground arith; not_exercised = ground arith }
  | inr e ↦ elim (Bool-cases (str_eq o.status "finding")) [
    | inl f ↦
        let nn = differs o.status "finding" "not_exercised" finding_not_exercised f in
        record { pass = ground arith; finding = ground arith; not_exercised = ground arith }
    | inr f ↦ elim (Bool-cases (str_eq o.status "not_exercised")) [
      | inl g ↦ record { pass = ground arith; finding = ground arith; not_exercised = ground arith }
      | inr g ↦ absurd (ground arith)
    ]
  ]
]

count_outcome-Counted :
    (before : Counts) (o : Outcome) {c : Counts}
    → count_outcome before o ≡ some c
    → Counted o before c
unfolding count_outcome
count_outcome-Counted before o {c = c} h =
    if_elim (λ r. r ≡ some c → Counted o before c)
      (valid_severity o && not (str_eq o.status "not_exercised" && blank o.reason))
      (tally before o.status) none (λ _ k. tally-Counted before o k) (λ _ k. absurd (ground arith))
      h

-- The keys behind one that was seen are others.
unseen_apart :
    (k : String) (seen : List String) (os : List Outcome)
    → All (λ o. has (key_of o) (k ∷ seen) ≡ false) os
    → All (λ o. str_eq k (key_of o) ≡ false) os × All (λ o. has (key_of o) seen ≡ false) os
unfolding has
unseen_apart k seen [] h = (tt, tt)
unseen_apart k seen (o ∷ os) h =
    let (a, b) = or-false (str_eq k (key_of o)) (has (key_of o) seen) h.0 in
    let (xs, ys) = unseen_apart k seen os h.1 in ((a, xs), (b, ys))

not-true : (b : Bool) → not b ≡ true → b ≡ false
not-true true h = ground arith
not-true false h = refl

with_counts-some :
    (r : Option Counts) (next : Counts → Option Counts) {c : Counts}
    → with_counts r next ≡ some c
    → (d : Counts) × (r ≡ some d) × (next d ≡ some c)
unfolding with_counts
with_counts-some none next h = cc
with_counts-some (some d) next h = (d, refl, h)

count_known-From :
    (known seen : List String) (before : Counts) (os : List Outcome) {c : Counts}
    → count_known known seen before os ≡ some c
    → From known seen before os c
unfolding count_known
count_known-From known seen before [] h = record {
  in_campaign = tt;
  unseen = tt;
  distinct = tt;
  passes = ground arith;
  findings = ground arith;
  not_exercised = ground arith;
}
count_known-From known seen before (o ∷ os) {c = c} h =
    let k = key_of o in
    let rest : Option Counts =
      with_counts (count_outcome before o) (λ d. count_known known (k ∷ seen) d os) in
    if_elim (λ r. r ≡ some c → From known seen before (o ∷ os) c)
      (not (outcome_too_long o) && has k known && not (has k seen)) rest none
      (λ t e.
        let (t1, fresh) = and-true (not (outcome_too_long o) && has k known) (not (has k seen)) t in
        let (short, here) = and-true (not (outcome_too_long o)) (has k known) t1 in
        let (d, e1, e2) =
          with_counts-some (count_outcome before o) (λ d. count_known known (k ∷ seen) d os) e in
        let one = count_outcome-Counted before o e1 in
        let others = count_known-From known (k ∷ seen) d os e2 in
        let (apart, unseen) = unseen_apart k seen os others.unseen in
        record {
          in_campaign = (here, others.in_campaign);
          unseen = (not-true (has k seen) fresh, unseen);
          distinct = (apart, others.distinct);
          passes = omega (arith, others.passes, one.pass);
          findings = omega (arith, others.findings, one.finding);
          not_exercised = omega (arith, others.not_exercised, one.not_exercised);
        })
      (λ _ e. absurd (ground arith)) h

-- Where a batch is valid for a campaign, each outcome is of one of its scenarios, no two are of the
-- same one, and the counts returned are the numbers of outcomes with each status.
pub validate_outcomes-Tallied :
    (batch : List Outcome) (campaign : Campaign) {c : Counts}
    → validate_outcomes batch campaign ≡ some c
    → Tallied (known_keys campaign.axes) batch c
unfolding validate_outcomes
validate_outcomes-Tallied batch campaign {c = c} h =
    if_elim (λ r. r ≡ some c → Tallied (known_keys campaign.axes) batch c)
      (ltb 0 (length batch) && leb (length batch) max_outcomes)
      (count_known (known_keys campaign.axes) [] no_counts batch) none
      (λ _ e.
        let f = count_known-From (known_keys campaign.axes) [] no_counts batch e in
        record {
          in_campaign = f.in_campaign;
          distinct = f.distinct;
          passes = omega (arith, f.passes);
          findings = omega (arith, f.findings);
          not_exercised = omega (arith, f.not_exercised);
        })
      (λ _ e. absurd (ground arith)) h
