-- ===== src/Lanes/Lane/Checks.antt =====
-- internal/lanes/lane/lane.go: what a check of the lane recognises.
use homebrew_tools.Prelude.{
  ℕ, String, Bool, true, false, not, ◌&&◌, Option, none, some, List, [], ◌∷◌, str_eq, ◌≡◌, refl,
  sym, ap, ◌∙◌, subst, if_elim, arith, str_eq-eq, str_eq_refl, Bool-cases, inl, inr, All,
}
use homebrew_tools.Lanes.Lane.{
  Record, Observed, reset_to_default, same_lane, record_tip, record_own, refresh, newborn, check,
  birth_name,
}

refresh-branch :
    (rec : Record) (o : Observed) → str_eq o.branch "" ≡ false → (refresh rec o).branch ≡ o.branch
unfolding refresh record_own record_tip
refresh-branch rec o h = ground (arith, h)

refresh-tip :
    (rec : Record) (o : Observed)
    → str_eq o.branch "" ≡ false
    → str_eq o.tip "" ≡ false
    → str_eq o.tip (refresh rec o).last_tip ≡ true
unfolding refresh record_own record_tip
refresh-tip rec o h k = ground (arith, h, k, str_eq_refl o.tip)

refresh-had :
    (rec : Record) (o : Observed)
    → str_eq o.branch "" ≡ false
    → (not (str_eq o.tip "") && o.own_known && o.own_commits) ≡ true
    → (refresh rec o).last_tip_had_own_commits ≡ true
unfolding refresh record_own record_tip
refresh-had rec o h k = ground (arith, h, k)

refresh-same_lane : (rec : Record) (o : Observed) → same_lane (refresh rec o) o ≡ true
unfolding same_lane reset_to_default
refresh-same_lane rec o = elim (Bool-cases (str_eq o.branch "")) [
  | inl e ↦ ground (arith, e)
  | inr e ↦
      let q =
        subst (λ (b : String). str_eq o.branch b ≡ true) (sym (refresh-branch rec o e))
          (str_eq_refl o.branch) in
      elim (Bool-cases (str_eq o.tip "")) [
        | inl t ↦ ground (arith, q, t)
        | inr t ↦ ground (arith, q, refresh-tip rec o e t)
      ]
]

-- A record that an observation has nothing to add to.
record_tip_known :
    (r : Record) (o : Observed)
    → (not (str_eq o.tip "") && not (str_eq o.tip r.last_tip)) ≡ false
    → record_tip o r ≡ r
unfolding record_tip
record_tip_known r o h = ground (arith, h)

record_own_known :
    (r : Record) (o : Observed)
    → ((not (str_eq o.tip "") && o.own_known && o.own_commits) ≡ true
        → r.last_tip_had_own_commits ≡ true)
    → record_own o r ≡ r
unfolding record_own
record_own_known r o h =
    if_elim (λ (x : Record). x ≡ r) (not (str_eq o.tip "") && o.own_known && o.own_commits)
      (record r { last_tip_had_own_commits = true }) r
      (λ b. ap (λ (t : Bool). record r { last_tip_had_own_commits = t }) (sym (h b))) (λ b. refl)

refresh_known :
    (r : Record) (o : Observed)
    → (str_eq o.branch "" ≡ false → r.branch ≡ o.branch)
    → (str_eq o.branch "" ≡ false
        → (not (str_eq o.tip "") && not (str_eq o.tip r.last_tip)) ≡ false)
    → (str_eq o.branch "" ≡ false
        → (not (str_eq o.tip "") && o.own_known && o.own_commits) ≡ true
        → r.last_tip_had_own_commits ≡ true)
    → refresh r o ≡ r
unfolding refresh
refresh_known r o b t w =
    if_elim (λ (x : Record). x ≡ r) (str_eq o.branch "") r
      (record_own o (record_tip o (record r { branch = o.branch }))) (λ e. refl)
      (λ e.
        ap (λ (x : String). record_own o (record_tip o (record r { branch = x }))) (sym (b e))
        ∙ (ap (record_own o) (record_tip_known r o (t e)) ∙ record_own_known r o (w e)))

refresh-refresh : (rec : Record) (o : Observed) → refresh (refresh rec o) o ≡ refresh rec o
refresh-refresh rec o =
    refresh_known (refresh rec o) o (refresh-branch rec o)
      (λ e. elim (Bool-cases (str_eq o.tip "")) [
        | inl t ↦ ground (arith, t)
        | inr t ↦ ground (arith, refresh-tip rec o e t)
      ])
      (refresh-had rec o)

saved-refresh :
    (retire : Record → Bool) (new_id : String → String) (now : ℕ) (cur : Option Record)
    (o : Observed) (rec : Record) (born : Bool)
    → (check retire new_id now (some cur) (some o)).saved ≡ some (rec, born)
    → (r : Record) × (refresh r o ≡ rec)
unfolding check
saved-refresh retire new_id now none o rec born h = (newborn (new_id (birth_name o)) now o, cc h)
saved-refresh retire new_id now (some r) o rec born h = elim (Bool-cases (same_lane r o)) [
  | inl e ↦ (r, ground (arith, h, e))
  | inr e ↦ (newborn (new_id (birth_name o)) now o, ground (arith, h, e))
]

check_known :
    (retire : Record → Bool) (new_id : String → String) (now : ℕ) (r : Record) (o : Observed)
    → same_lane r o ≡ true
    → refresh r o ≡ r
    → check retire new_id now (some (some r)) (some o)
      ≡ record { retiring = none; saved = some (r, false) }
unfolding check
check_known retire new_id now r o e f = ground (arith, e, f)

-- Once a check has saved a record, a second check that sees the same of git keeps the lane and saves the
-- same record, whatever could be retired and whatever IDs are drawn.
pub check_again :
    (retire retire2 : Record → Bool) (new_id new_id2 : String → String) (now now2 : ℕ)
    (cur : Option Record) (o : Observed) (rec : Record) (born : Bool)
    → (check retire new_id now (some cur) (some o)).saved ≡ some (rec, born)
    → check retire2 new_id2 now2 (some (some rec)) (some o)
      ≡ record { retiring = none; saved = some (rec, false) }
check_again retire retire2 new_id new_id2 now now2 cur o rec born h =
    let w = saved-refresh retire new_id now cur o rec born h in
    subst
      (λ (x : Record).
        check retire2 new_id2 now2 (some (some x)) (some o)
        ≡ record { retiring = none; saved = some (x, false) })
      w.1
      (check_known retire2 new_id2 now2 (refresh w.0 o) o (refresh-same_lane w.0 o)
        (refresh-refresh w.0 o))

-- A lane that had commits of its own at its last recorded tip.
record Worked (branch tip : String) (r : Record) : Type 0 where
  on_branch : r.branch ≡ branch
  at_tip : r.last_tip ≡ tip
  had_own : r.last_tip_had_own_commits ≡ true

-- A look at git that finds the branch at the tip.
abbrev pub Stays : String → String → Observed → Type 0
Stays branch tip o = (o.branch ≡ branch) × (o.tip ≡ tip)

abbrev pub refresh_all : List Observed → Record → Record
refresh_all [] r = r
refresh_all (o ∷ os) r = refresh_all os (refresh r o)

refresh-Worked :
    (branch tip : String) (r : Record) (o : Observed)
    → str_eq branch "" ≡ false
    → Stays branch tip o
    → Worked branch tip r
    → Worked branch tip (refresh r o)
unfolding refresh record_own record_tip
refresh-Worked branch tip r o b s w =
    let t : str_eq o.tip r.last_tip ≡ true =
      subst (λ (x : String). str_eq o.tip x ≡ true) (s.1 ∙ sym w.at_tip) (str_eq_refl o.tip) in
    record {
      on_branch = ground (arith, s, w.on_branch);
      at_tip = ground (arith, s, w.at_tip, t);
      had_own = ground (arith, s, w.had_own, t);
    }

refresh_all-Worked :
    (branch tip : String) (os : List Observed) (r : Record)
    → str_eq branch "" ≡ false
    → All (Stays branch tip) os
    → Worked branch tip r
    → Worked branch tip (refresh_all os r)
refresh_all-Worked branch tip [] r b s w = w
refresh_all-Worked branch tip (o ∷ os) r b s w =
    refresh_all-Worked branch tip os (refresh r o) b s.1 (refresh-Worked branch tip r o b s.0 w)

Worked-reset :
    (branch tip : String) (r : Record) (last : Observed)
    → str_eq branch "" ≡ false
    → str_eq tip "" ≡ false
    → Worked branch tip r
    → last.branch ≡ branch
    → (not (str_eq last.tip "") && not (str_eq last.tip tip)) ≡ true
    → (last.own_known && not last.own_commits) ≡ true
    → same_lane r last ≡ false
unfolding same_lane reset_to_default
Worked-reset branch tip r last b t w l n m =
    let rb : str_eq r.branch "" ≡ false =
      subst (λ (x : String). str_eq x "" ≡ false) (sym w.on_branch) b in
    let lb : str_eq last.branch "" ≡ false =
      subst (λ (x : String). str_eq x "" ≡ false) (sym l) b in
    let same : str_eq last.branch r.branch ≡ true =
      subst (λ (x : String). str_eq last.branch x ≡ true) (l ∙ sym w.on_branch)
        (str_eq_refl last.branch) in
    let rt : str_eq r.last_tip "" ≡ false =
      subst (λ (x : String). str_eq x "" ≡ false) (sym w.at_tip) t in
    let moved : (not (str_eq last.tip "") && not (str_eq last.tip r.last_tip)) ≡ true =
      subst (λ (x : String). (not (str_eq last.tip "") && not (str_eq last.tip x)) ≡ true)
        (sym w.at_tip) n in
    ground (arith, rb, lb, same, rt, moved, w.had_own, m)

-- A branch once seen with commits of its own at its tip, and then any number of times at that tip, with
-- or without such commits, is no longer the same lane when it is seen at another tip, known to have none.
pub reset_seen :
    (branch tip : String) (rec : Record) (first : Observed) (os : List Observed) (last : Observed)
    → str_eq branch "" ≡ false
    → str_eq tip "" ≡ false
    → Stays branch tip first
    → (first.own_known && first.own_commits) ≡ true
    → All (Stays branch tip) os
    → last.branch ≡ branch
    → (not (str_eq last.tip "") && not (str_eq last.tip tip)) ≡ true
    → (last.own_known && not last.own_commits) ≡ true
    → same_lane (refresh_all os (refresh rec first)) last ≡ false
reset_seen branch tip rec first os last b t s k a l n m =
    let fb : str_eq first.branch "" ≡ false =
      subst (λ (x : String). str_eq x "" ≡ false) (sym s.0) b in
    let ft : str_eq first.tip "" ≡ false =
      subst (λ (x : String). str_eq x "" ≡ false) (sym s.1) t in
    Worked-reset branch tip (refresh_all os (refresh rec first)) last b t
      (refresh_all-Worked branch tip os (refresh rec first) b a (record {
        on_branch = refresh-branch rec first fb ∙ s.0;
        at_tip =
            sym (str_eq-eq first.tip (refresh rec first).last_tip (refresh-tip rec first fb ft))
            ∙ s.1;
        had_own = refresh-had rec first fb (ground (arith, ft, k));
      }))
      l n m
