-- ===== src/Lanes/Sweep/Targets.antt =====
-- internal/lanes/daemon/sweep.go: `SweepTargets` always ends, and never names what a teardown spares.
use homebrew_tools.Prelude.{
  ℕ, zero, suc, ◌+◌, ◌<◌, String, Bool, true, false, ◌||◌, Option, none, some, List, [], ◌∷◌, ◌++◌,
  Memᴰ, if_elim, length, ◌≡◌, refl, arith, sym, subst, if◌then◌else◌, keep, leb, ◌==◌, or-false,
  Memᴰ-keep,
}
use homebrew_tools.Lanes.Procs.{Proc, holds, named_as, by_pid, under}
use homebrew_tools.Lanes.Sweep.{
  Keep, editors, own, pids_named, helpers_of, climb, launchers_from, launchers_of, all_helpers,
  spared, is_target, sweep_targets,
}
use homebrew_tools.Lanes.Sweep.Search.{Helper, fresh, fresh-cons-lt, holds-append}
use homebrew_tools.Lanes.Sweep.Helpers.{helpers_of-Helper, Collects, fresh_le}

abbrev Finds : List Proc → ℕ → Option Proc → Type 0
Finds procs pid r = (q : Proc) → r ≡ some q → Memᴰ q procs × (q.pid ≡ pid)

found-Finds :
    (p : Proc) (ps : List Proc) (pid : ℕ) (o : Option Proc)
    → Finds ps pid o
    → Finds (p ∷ ps) pid (elim o [ some q ↦ some q | none ↦ if p.pid == pid then some p else none ])
found-Finds p ps pid (some q) f = λ r e. let w = f r e in (Memᴰ.tail w.0, w.1)
found-Finds p ps pid none f =
    if_elim (Finds (p ∷ ps) pid) (p.pid == pid) (some p) none
      (λ e r h.
        let q : p ≡ r = cc h in
        (Memᴰ.head (sym q), subst (λ (x : Proc). x.pid ≡ pid) q (ground (arith, e))))
      (λ e r h. absurd (cc h))

by_pid-Finds : (procs : List Proc) (pid : ℕ) → Finds procs pid (by_pid procs pid)
unfolding by_pid
by_pid-Finds [] pid = λ q h. absurd (cc h)
by_pid-Finds (p ∷ ps) pid = found-Finds p ps pid (by_pid ps pid) (by_pid-Finds ps pid)

abbrev Ends : Option (List ℕ) → Type 0
Ends r = (out : List ℕ) × (r ≡ some out)

climb_up-Ends :
    (fuel : ℕ) (procs : List Proc) (pid : ℕ) (out : List ℕ) (o : Option Proc)
    → holds pid out ≡ false
    → Finds procs pid o
    → ((next : ℕ)
        → fresh (pid ∷ out) procs < fresh out procs
        → Ends (climb fuel procs next (pid ∷ out)))
    → Ends (elim o [
      | none ↦ some (pid ∷ out)
      | some parent ↦ climb fuel procs parent.ppid (pid ∷ out)
    ])
climb_up-Ends fuel procs pid out none h f k = (pid ∷ out, refl)
climb_up-Ends fuel procs pid out (some q) h f k =
    let w = f q refl in
    k q.ppid (
      subst (λ (n : ℕ). fresh (n ∷ out) procs < fresh out procs) w.1
        (fresh-cons-lt q out procs w.0 (subst (λ (n : ℕ). holds n out ≡ false) (sym w.1) h)))

climb-Ends :
    (fuel : ℕ) (procs : List Proc) (pid : ℕ) (out : List ℕ)
    → fresh out procs < fuel
    → Ends (climb fuel procs pid out)
unfolding climb
climb-Ends zero procs pid out h = absurd (omega (arith, h))
climb-Ends (suc fuel) procs pid out h =
    if_elim Ends (leb pid 1 || holds pid out) (some out)
      (elim (by_pid procs pid) [
        | none ↦ some (pid ∷ out)
        | some parent ↦ climb fuel procs parent.ppid (pid ∷ out)
      ])
      (λ e. (out, refl))
      (λ e.
        climb_up-Ends fuel procs pid out (by_pid procs pid)
          (or-false (leb pid 1) (holds pid out) e).1 (by_pid-Finds procs pid)
          (λ next l. climb-Ends fuel procs next (pid ∷ out) (omega (arith, h, l))))

climbed-Ends :
    (roots : List String) (procs ps : List Proc) (r : Option (List ℕ))
    → Ends r
    → ((more : List ℕ) → Ends (launchers_from roots procs ps more))
    → Ends (elim r [ none ↦ none | some more ↦ launchers_from roots procs ps more ])
climbed-Ends roots procs ps none e k = absurd (cc e.1)
climbed-Ends roots procs ps (some more) e k = k more

launchers_from-Ends :
    (roots : List String) (procs ps : List Proc) (out : List ℕ)
    → Ends (launchers_from roots procs ps out)
unfolding launchers_from
launchers_from-Ends roots procs [] out = (out, refl)
launchers_from-Ends roots procs (p ∷ ps) out =
    if_elim Ends (named_as roots p)
      (elim (climb (length procs + 2) procs p.ppid out) [
        | none ↦ none
        | some more ↦ launchers_from roots procs ps more
      ])
      (launchers_from roots procs ps out)
      (λ e.
        climbed-Ends roots procs ps (climb (length procs + 2) procs p.ppid out)
          (climb-Ends (length procs + 2) procs p.ppid out (omega (arith, fresh_le out procs)))
          (λ more. launchers_from-Ends roots procs ps more))
      (λ e. launchers_from-Ends roots procs ps out)

-- What the three sets of helpers hold: all that sessions, editors and lanes launched.
abbrev Protects : List Proc → Keep → Option (List ℕ) → Type 0
Protects procs k r =
    (out : List ℕ) × ((r ≡ some out)
      × (((n : ℕ)
            → Helper true procs (pids_named (k.sessions ++ editors) procs) n
            → holds n out ≡ true)
          × ((n : ℕ) → Helper false procs (pids_named own procs) n → holds n out ≡ true)))

Collects-holds :
    (stop : Bool) (procs : List Proc) (roots out : List ℕ)
    → Collects stop procs roots (some out)
    → (n : ℕ) → Helper stop procs roots n
    → holds n out ≡ true
unfolding Collects
Collects-holds stop procs roots out w n h =
    let e : w.0 ≡ out = cc w.1.0 in subst (λ (l : List ℕ). holds n l ≡ true) e ((w.1.1 n).1 h)

three_sets-Protects :
    (procs : List Proc) (k : Keep) (ra rb rc : Option (List ℕ))
    → Collects true procs (pids_named (k.sessions ++ editors) procs) ra
    → Collects false procs (pids_named own procs) rb
    → Ends rc
    → Protects procs k (elim ra [
      | none ↦ none
      | some a ↦ elim rb [
        | none ↦ none
        | some b ↦ elim rc [ none ↦ none | some c ↦ some (a ++ (b ++ c)) ]
      ]
    ])
unfolding Collects
three_sets-Protects procs k none rb rc a b c = absurd (cc a.1.0)
three_sets-Protects procs k (some x) none rc a b c = absurd (cc b.1.0)
three_sets-Protects procs k (some x) (some y) none a b c = absurd (cc c.1)
three_sets-Protects procs k (some x) (some y) (some z) a b c = (
  x ++ (y ++ z),
  (
    refl,
    (
      (λ n h.
          let l = Collects-holds true procs (pids_named (k.sessions ++ editors) procs) x a n h in
          ground (arith, holds-append n x (y ++ z), l)),
      (λ n h.
          let l = Collects-holds false procs (pids_named own procs) y b n h in
          ground (arith, holds-append n x (y ++ z), holds-append n y z, l)),
    ),
  ),
)

all_helpers-Protects : (procs : List Proc) (k : Keep) → Protects procs k (all_helpers procs k)
unfolding all_helpers launchers_of
all_helpers-Protects procs k =
    three_sets-Protects procs k (helpers_of procs (k.sessions ++ editors) true)
      (helpers_of procs own false) (launchers_of procs (k.sessions ++ (editors ++ own)))
      (helpers_of-Helper procs (k.sessions ++ editors) true) (helpers_of-Helper procs own false)
      (launchers_from-Ends (k.sessions ++ (editors ++ own)) procs procs [])

-- The targets of a teardown, which is lanesd's own process with the ID self.
pub record Stoppable (procs : List Proc) (root : String) (k : Keep) (self : ℕ) (p : Proc)
    : Type 0 where
  pub listed : Memᴰ p procs
  pub inside : under root p ≡ true
  pub other : (p.pid == self) ≡ false
  pub above_init : 1 < p.pid
  pub not_spared : spared k p ≡ false
  pub not_launched_by_sessions :
      ¬ Helper true procs (pids_named (k.sessions ++ editors) procs) p.pid
  pub not_launched_by_lanes : ¬ Helper false procs (pids_named own procs) p.pid

target-Stoppable :
    (procs : List Proc) (root : String) (k : Keep) (self : ℕ) (helpers : List ℕ) (p : Proc)
    → ((n : ℕ)
        → Helper true procs (pids_named (k.sessions ++ editors) procs) n
        → holds n helpers ≡ true)
    → ((n : ℕ) → Helper false procs (pids_named own procs) n → holds n helpers ≡ true)
    → Memᴰ p procs
    → is_target root k self helpers p ≡ true
    → Stoppable procs root k self p
unfolding is_target
target-Stoppable procs root k self helpers p s o m t = record {
  listed = m;
  inside = ground (arith, t);
  other = ground (arith, t);
  above_init = ground (arith, t);
  not_spared = ground (arith, t);
  not_launched_by_sessions = λ h. let l = s p.pid h in absurd (ground (arith, t, l));
  not_launched_by_lanes = λ h. let l = o p.pid h in absurd (ground (arith, t, l));
}

-- `SweepTargets` always ends, and each process that it gives is in the snapshot, in the worktree, is
-- neither the caller nor init, is not spared by name, and was launched neither by lanes nor, other than
-- through a shell, by a session or an editor.
pub sweep_targets-Stoppable :
    (procs : List Proc) (root : String) (k : Keep) (self : ℕ)
    → (targets : List Proc) × ((sweep_targets procs root k self ≡ some targets)
        × ((p : Proc) → Memᴰ p targets → Stoppable procs root k self p))
unfolding sweep_targets
sweep_targets-Stoppable procs root k self =
    let w = all_helpers-Protects procs k in
    (
      keep (is_target root k self w.0) procs,
      (
        subst
            (λ (r : Option (List ℕ)).
              (elim r [
                | none ↦ none
                | some helpers ↦ some (keep (is_target root k self helpers) procs)
              ])
              ≡ some (keep (is_target root k self w.0) procs))
            (sym w.1.0) refl,
        λ p m.
            let i = Memᴰ-keep (is_target root k self w.0) procs p m in
            target-Stoppable procs root k self w.0 p w.1.1.0 w.1.1.1 i.0 i.1,
      ),
    )
