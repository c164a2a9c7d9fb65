-- ===== src/Forge/Appending.antt =====
-- internal/atelierd/forge/ops.go: `AppendCampaign` keeps the files of a run in agreement.
pub mod Sizes
pub mod Findings
pub mod Budget
use homebrew_tools.Prelude.{
  ℕ, zero, suc, String, Bool, true, false, not, ◌&&◌, ◌||◌, Option, none, some, List, [], ◌∷◌, ◌++◌,
  ◌==◌, str_eq, find, find_sound, set, get_elem?, if_elim, and-true, ◌≡◌, refl, sym, ap, ◌∙◌, subst,
  arith, append_assoc,
}
use homebrew_tools.Forge.Types.{
  RunState, Scenario, Axis, Campaign, Outcome, LedgerPass, Ledger, write_run, write_campaign, Reply,
  Pass, invalid_staging, other,
}
use homebrew_tools.Forge.Validate.{has, outcome_key, axis_keys, known_keys, validate_campaign}
use homebrew_tools.Forge.Store.{
  refuse, reply, outcomes_known, matches, allocated, passes_agree, validate_persisted_data,
  queue_event,
}
use homebrew_tools.Forge.Campaigns.{
  has_title, add_scenarios, scenarios_of, place_axis, add_axis, with_axes, add_axes, append_grown,
  append_to, any_recorded, check_append_budget, queue_campaign_saved,
}

-- Every text of the first list is in the second.
abbrev pub Within : List String → List String → Type 0
Within xs ys = (k : String) → has k xs ≡ true → has k ys ≡ true

pub has-append : (k : String) (xs ys : List String) → has k (xs ++ ys) ≡ (has k xs || has k ys)
unfolding has
has-append k [] ys = refl
has-append k (x ∷ xs) ys = ground (arith, has-append k xs ys)

Within-append :
    (xs xs' ys ys' : List String) → Within xs xs' → Within ys ys' → Within (xs ++ ys) (xs' ++ ys')
Within-append xs xs' ys ys' h g k e =
    ground (arith, has-append k xs ys, has-append k xs' ys', h k, g k)

axis_keys-append :
    (t : String) (xs ys : List Scenario) → axis_keys t (xs ++ ys) ≡ axis_keys t xs ++ axis_keys t ys
unfolding axis_keys
axis_keys-append t [] ys = refl
axis_keys-append t (x ∷ xs) ys = ap (◌∷◌ (outcome_key t x.title)) (axis_keys-append t xs ys)

Within-left : (xs ys : List String) → Within xs (xs ++ ys)
Within-left xs ys k e = ground (arith, has-append k xs ys, e)

add_scenarios-Within :
    (n : ℕ) (t : String) (old ss : List Scenario) {new : List Scenario}
    → add_scenarios n old ss ≡ some new
    → Within (axis_keys t old) (axis_keys t new)
unfolding add_scenarios
add_scenarios-Within n t old [] {new = new} h =
    let q : old ≡ new = cc h in
    subst (λ (x : List Scenario). Within (axis_keys t old) (axis_keys t x)) q (λ k e. e)
add_scenarios-Within n t old (s ∷ ss) {new = new} h =
    let more : List Scenario = old ++ (record s { wave = n } ∷ []) in
    if_elim (λ r. r ≡ some new → Within (axis_keys t old) (axis_keys t new)) (has_title s.title old)
      none (add_scenarios n more ss) (λ _ e. absurd (ground arith))
      (λ _ e k m. add_scenarios-Within n t more ss e k (
        subst (λ ks. has k ks ≡ true) (sym (axis_keys-append t old (record s { wave = n } ∷ [])))
          (Within-left (axis_keys t old) (axis_keys t (record s { wave = n } ∷ [])) k m)))
      h

known_keys-set :
    (axes : List Axis) (i : ℕ) {a : Axis} (ss : List Scenario)
    → get_elem? axes i ≡ some a
    → Within (axis_keys a.title a.scenarios) (axis_keys a.title ss)
    → Within (known_keys axes) (known_keys (set axes i (record a { scenarios = ss })))
unfolding known_keys
known_keys-set [] i ss g h = λ k e. e
known_keys-set (x ∷ axes) zero {a = a} ss g h =
    let q : a ≡ x = cc g in
    Within-append (axis_keys x.title x.scenarios) (axis_keys a.title ss) (known_keys axes)
      (known_keys axes)
      (subst (λ (b : Axis). Within (axis_keys b.title b.scenarios) (axis_keys a.title ss)) q h)
      (λ k e. e)
known_keys-set (x ∷ axes) (suc i) {a = a} ss g h =
    Within-append (axis_keys x.title x.scenarios) (axis_keys x.title x.scenarios) (known_keys axes)
      (known_keys (set axes i (record a { scenarios = ss }))) (λ k e. e)
      (known_keys-set axes i ss g h)

known_keys-append : (xs ys : List Axis) → known_keys (xs ++ ys) ≡ known_keys xs ++ known_keys ys
unfolding known_keys
known_keys-append [] ys = refl
known_keys-append (x ∷ xs) ys =
    ap (◌++◌ (axis_keys x.title x.scenarios)) (known_keys-append xs ys)
    ∙ sym (append_assoc (axis_keys x.title x.scenarios) (known_keys xs) (known_keys ys))

place_axis-Within :
    (axes : List Axis) (at : Option (ℕ × Axis)) (t : String) (r : Option (List Scenario))
    {grown : List Axis}
    → ((i : ℕ) (a : Axis) → at ≡ some (i, a) → get_elem? axes i ≡ some a)
    → ((u : String) (ss : List Scenario)
        → r ≡ some ss
        → Within (axis_keys u (scenarios_of at)) (axis_keys u ss))
    → place_axis axes at t r ≡ some grown
    → Within (known_keys axes) (known_keys grown)
unfolding place_axis scenarios_of
place_axis-Within axes at t none g w h = cc
place_axis-Within axes none t (some ss) {grown = grown} g w h =
    let new : Axis = record { title = t; scenarios = ss } in
    let q : axes ++ (new ∷ []) ≡ grown = cc h in
    subst (λ (x : List Axis). Within (known_keys axes) (known_keys x)) q
      (λ k e.
        subst (λ ks. has k ks ≡ true) (sym (known_keys-append axes (new ∷ [])))
          (Within-left (known_keys axes) (known_keys (new ∷ [])) k e))
place_axis-Within axes (some (i, a)) t (some ss) {grown = grown} g w h =
    let q : set axes i (record a { scenarios = ss }) ≡ grown = cc h in
    subst (λ (x : List Axis). Within (known_keys axes) (known_keys x)) q
      (known_keys-set axes i ss (g i a refl) (w a.title ss refl))

add_axis-Within :
    (n : ℕ) (axes : List Axis) (addition : Axis) {grown : List Axis}
    → add_axis n axes addition ≡ some grown
    → Within (known_keys axes) (known_keys grown)
unfolding add_axis
add_axis-Within n axes addition h =
    let at = find (λ a. str_eq a.title addition.title) axes in
    place_axis-Within axes at addition.title (add_scenarios n (scenarios_of at) addition.scenarios)
      (λ i a e. (find_sound (λ a. str_eq a.title addition.title) axes e).0)
      (λ u ss e. add_scenarios-Within n u (scenarios_of at) addition.scenarios e) h

pub with_axes-some :
    (r : Option (List Axis)) (next : List Axis → Option (List Axis)) {grown : List Axis}
    → with_axes r next ≡ some grown
    → (axes : List Axis) × (r ≡ some axes) × (next axes ≡ some grown)
unfolding with_axes
with_axes-some none next h = cc
with_axes-some (some axes) next h = (axes, refl, h)

add_axes-Within :
    (n : ℕ) (axes additions : List Axis) {grown : List Axis}
    → add_axes n axes additions ≡ some grown
    → Within (known_keys axes) (known_keys grown)
unfolding add_axes
add_axes-Within n axes [] {grown = grown} h =
    let q : axes ≡ grown = cc h in
    subst (λ (x : List Axis). Within (known_keys axes) (known_keys x)) q (λ k e. e)
add_axes-Within n axes (a ∷ rest) h =
    let (mid, e1, e2) = with_axes-some (add_axis n axes a) (λ x. add_axes n x rest) h in
    λ k e. add_axes-Within n mid rest e2 k (add_axis-Within n axes a e1 k e)

outcomes_known-Within :
    (known more : List String) (os : List Outcome)
    → Within known more
    → outcomes_known known os ≡ true
    → outcomes_known more os ≡ true
unfolding outcomes_known
outcomes_known-Within known more [] w h = refl
outcomes_known-Within known more (o ∷ os) w h =
    let (a, b) = and-true (has (outcome_key o.axis o.scenario) known) (outcomes_known known os) h in
    rw (w (outcome_key o.axis o.scenario) a, outcomes_known-Within known more os w b)

passes_agree-Within :
    (ps : List Pass) (known more : List String) (rs : List LedgerPass)
    → Within known more
    → passes_agree ps known rs ≡ true
    → passes_agree ps more rs ≡ true
unfolding passes_agree
passes_agree-Within ps known more [] w h = refl
passes_agree-Within ps known more (r ∷ rs) w h =
    let (ab, c) =
      and-true (matches r (allocated r.pass_id ps) && outcomes_known known r.outcomes)
        (passes_agree ps known rs) h in
    let (a, b) =
      and-true (matches r (allocated r.pass_id ps)) (outcomes_known known r.outcomes) ab in
    rw
      (a, outcomes_known-Within known more r.outcomes w b, passes_agree-Within ps known more rs w c)

not-false : (b : Bool) → not b ≡ false → b ≡ true
not-false true h = refl
not-false false h = absurd (ground arith)

-- What an append leaves, by the tests that it passed.
pub record Appended (fits : Campaign → Bool) (n : ℕ) (additions c : Campaign) (l : Ledger)
    (s' : RunState) (c' : Campaign) : Type 0 where
  pub agrees : validate_persisted_data s' c' l ≡ true
  pub valid : validate_campaign c' ≡ true
  pub fitting : fits c' ≡ true
  pub budget : check_append_budget c l additions n ≡ true
  pub grown : add_axes n c.axes additions.axes ≡ some c'.axes
  pub kept : Within (known_keys c.axes) (known_keys c'.axes)

append_grown-Appended :
    (fits : Campaign → Bool) (n : ℕ) (additions c : Campaign) (l : Ledger) (s : RunState)
    (r : Option (List Axis)) {s' : RunState} {c' : Campaign}
    → ((axes : List Axis) → r ≡ some axes → Within (known_keys c.axes) (known_keys axes))
    → r ≡ add_axes n c.axes additions.axes
    → validate_persisted_data s c l ≡ true
    → check_append_budget c l additions n ≡ true
    → (append_grown fits s r).writes ≡ write_campaign c' ∷ (write_run s' ∷ [])
    → Appended fits n additions c l s' c'
unfolding append_grown reply refuse validate_persisted_data queue_campaign_saved queue_event
append_grown-Appended fits n additions c l s none w y v b h = absurd (ground arith)
append_grown-Appended fits n additions c l s (some axes) {s' = s'} {c' = c'} w y v b h =
    let grown : Campaign = record { axes = axes } in
    if_elim
      (λ (r : Reply Unit).
        r.writes ≡ write_campaign c' ∷ (write_run s' ∷ []) → Appended fits n additions c l s' c')
      (validate_campaign grown && fits grown)
      (reply (write_campaign grown ∷ (write_run (queue_campaign_saved grown s) ∷ [])) tt)
      (refuse invalid_staging)
      (λ t k.
        let (ok_campaign, ok_size) = and-true (validate_campaign grown) (fits grown) t in
        let qc : grown ≡ c' = cc k in
        let qs : queue_campaign_saved grown s ≡ s' = cc k in
        let built : Appended fits n additions c l (queue_campaign_saved grown s) grown = record {
          agrees =
              passes_agree-Within s.passes (known_keys c.axes) (known_keys axes) l.passes
                (w axes refl) v;
          valid = ok_campaign;
          fitting = ok_size;
          budget = b;
          grown = sym y;
          kept = w axes refl;
        } in
        subst (λ (x : RunState). Appended fits n additions c l x c') qs
          (subst (λ (y : Campaign). Appended fits n additions c l (queue_campaign_saved grown s) y)
            qc built))
      (λ _ k. absurd (ground (arith, k))) h

-- What holds whenever an append writes.
pub append_to-Appended :
    (fits : Campaign → Bool) (n : ℕ) (additions : Campaign) (s : RunState) (c : Campaign)
    (l : Ledger) {s' : RunState} {c' : Campaign}
    → (append_to fits n additions s c l).writes ≡ write_campaign c' ∷ (write_run s' ∷ [])
    → Appended fits n additions c l s' c'
unfolding append_to refuse
append_to-Appended fits n additions s c l {s' = s'} {c' = c'} h =
    let Goal : Reply Unit → Type 0 = λ r.
      r.writes ≡ write_campaign c' ∷ (write_run s' ∷ []) → Appended fits n additions c l s' c' in
    if_elim Goal (not (validate_persisted_data s c l)) (refuse other) _
      (λ _ k. absurd (ground (arith, k)))
      (λ v.
        if_elim Goal (not s.wave_open || not (s.wave == n)) (refuse invalid_staging) _
          (λ _ k. absurd (ground (arith, k)))
          (λ _.
            if_elim Goal (any_recorded n l.passes) (refuse invalid_staging) _
              (λ _ k. absurd (ground (arith, k)))
              (λ _.
                if_elim Goal (not (check_append_budget c l additions n)) (refuse invalid_staging) _
                  (λ _ k. absurd (ground (arith, k)))
                  (λ b k.
                    append_grown-Appended fits n additions c l s (add_axes n c.axes additions.axes)
                      (λ axes e. add_axes-Within n c.axes additions.axes e) refl
                      (not-false (validate_persisted_data s c l) v)
                      (not-false (check_append_budget c l additions n) b) k))))
      h
