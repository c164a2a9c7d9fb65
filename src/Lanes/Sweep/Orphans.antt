-- ===== src/Lanes/Sweep/Orphans.antt =====
-- internal/lanes/daemon/sweep.go: the walk of `OrphanHolders` from a process up to a dead parent.
-- The walk has fuel, and `none` is fuel that ran out; `some none` is a walk that reached an owner.
use homebrew_tools.Prelude.{
  ℕ, zero, suc, ◌<◌, String, Bool, true, false, ◌&&◌, ◌||◌, Option, none, some, List, [], ◌∷◌, ◌==◌,
  if◌then◌else◌, if_elim, ◌≡◌, refl, subst, arith,
}
use homebrew_tools.Lanes.Procs.{Proc, shells, named_as, under, by_pid, holds}

-- Whether the walk may pass a process: in the worktree, and a sweep target or a shell.
unfoldable pub passes : List ℕ → String → ℕ → Proc → Bool
passes allowed root pid p = under root p && (holds pid allowed || named_as shells p)

-- `orphanRoot`
unfoldable pub orphan_root : ℕ → List Proc → List ℕ → String → ℕ → Option (Option Proc)
orphan_root zero procs allowed root pid = none
orphan_root (suc fuel) procs allowed root pid = elim (by_pid procs pid) [
  | none ↦ some none
  | some p ↦
      if passes allowed root pid p
      then if p.ppid == 1 then some (some p) else orphan_root fuel procs allowed root p.ppid
      else some none
]

-- The chain of parents from a process to the one whose parent died, through what the walk may pass.
pub data Orphaned (procs : List Proc) (allowed : List ℕ) (root : String) : ℕ → Proc → Type 0 where
  dead :
      {pid : ℕ} {p : Proc}
      → by_pid procs pid ≡ some p
      → passes allowed root pid p ≡ true
      → (p.ppid == 1) ≡ true
      → Orphaned procs allowed root pid p
  above :
      {pid : ℕ} {q : Proc} (p : Proc)
      → by_pid procs pid ≡ some p
      → passes allowed root pid p ≡ true
      → (p.ppid == 1) ≡ false
      → Orphaned procs allowed root p.ppid q
      → Orphaned procs allowed root pid q

-- No chain of parents in the worktree is endless.
abbrev pub Ranked : List Proc → List ℕ → String → (ℕ → ℕ) → Type 0
Ranked procs allowed root rank =
    (pid : ℕ) (p : Proc)
    → by_pid procs pid ≡ some p
    → passes allowed root pid p ≡ true
    → rank p.ppid < rank pid

-- Each process has a greater ID than its parent.
abbrev pub Grows : List Proc → Type 0
Grows [] = Unit
Grows (p ∷ ps) = (p.ppid < p.pid) × Grows ps

abbrev Greater : ℕ → Option Proc → Type 0
Greater pid o = (q : Proc) → o ≡ some q → q.ppid < pid

found-Greater :
    (p : Proc) (ps : List Proc) (pid : ℕ) (o : Option Proc)
    → p.ppid < p.pid
    → Greater pid o
    → Greater pid (elim o [ some q ↦ some q | none ↦ if p.pid == pid then some p else none ])
found-Greater p ps pid (some q) l f = f
found-Greater p ps pid none l f =
    if_elim (Greater pid) (p.pid == pid) (some p) none
      (λ e q h. let r : p ≡ q = cc h in subst (λ (x : Proc). x.ppid < pid) r (ground (arith, e, l)))
      (λ e q h. absurd (cc h))

by_pid-Greater : (procs : List Proc) (pid : ℕ) → Grows procs → Greater pid (by_pid procs pid)
unfolding by_pid
by_pid-Greater [] pid g = λ q h. absurd (cc h)
by_pid-Greater (p ∷ ps) pid g =
    found-Greater p ps pid (by_pid ps pid) g.0 (by_pid-Greater ps pid g.1)

pub Grows-Ranked :
    (procs : List Proc) (allowed : List ℕ) (root : String)
    → Grows procs
    → Ranked procs allowed root (λ pid. pid)
Grows-Ranked procs allowed root g = λ pid p e h. by_pid-Greater procs pid g p e

module _ (procs : List Proc) (allowed : List ℕ) (root : String) where
  -- What an answer of the walk says.
  abbrev pub Says : ℕ → Option Proc → Type 0
  Says pid (some q) = Orphaned procs allowed root pid q
  Says pid none = (q : Proc) → ¬ Orphaned procs allowed root pid q

  abbrev pub Answers : ℕ → Option (Option Proc) → Type 0
  Answers pid r = (a : Option Proc) × (r ≡ some a) × Says pid a

  not_found : (pid : ℕ) → by_pid procs pid ≡ none → (q : Proc) → ¬ Orphaned procs allowed root pid q
  not_found pid e q (Orphaned.dead f g h) = cc (e, f)
  not_found pid e q (Orphaned.above p f g h o) = cc (e, f)

  stopped :
      (pid : ℕ) (p : Proc)
      → by_pid procs pid ≡ some p
      → passes allowed root pid p ≡ false
      → (q : Proc) → ¬ Orphaned procs allowed root pid q
  stopped pid p e n q (Orphaned.dead f g h) = cc (e, f, n, g)
  stopped pid p e n q (Orphaned.above r f g h o) = cc (e, f, n, g)

  not_above :
      (pid : ℕ) (p q : Proc)
      → by_pid procs pid ≡ some p
      → (p.ppid == 1) ≡ false
      → ¬ Orphaned procs allowed root p.ppid q
      → ¬ Orphaned procs allowed root pid q
  not_above pid p q e h n (Orphaned.dead f g d) = cc (e, f, h, d)
  not_above pid p q e h n (Orphaned.above r f g d o) =
      let s : r ≡ p = cc (e, f) in
      n (subst (λ (x : Proc). Orphaned procs allowed root x.ppid q) s o)

  passed :
      (pid : ℕ) (p : Proc) (a : Option Proc)
      → by_pid procs pid ≡ some p
      → passes allowed root pid p ≡ true
      → (p.ppid == 1) ≡ false
      → Says p.ppid a
      → Says pid a
  passed pid p (some q) e g h o = Orphaned.above p e g h o
  passed pid p none e g h o = λ q c. not_above pid p q e h (o q) c

  answered :
      (rank : ℕ → ℕ) (fuel pid : ℕ) (o : Option Proc)
      → by_pid procs pid ≡ o
      → Ranked procs allowed root rank
      → rank pid < suc fuel
      → ((next : ℕ) → rank next < fuel → Answers next (orphan_root fuel procs allowed root next))
      → Answers pid (elim o [
        | none ↦ some none
        | some p ↦
            if passes allowed root pid p
            then if p.ppid == 1 then some (some p) else orphan_root fuel procs allowed root p.ppid
            else some none
      ])
  answered rank fuel pid none e w l k = (none, refl, not_found pid e)
  answered rank fuel pid (some p) e w l k =
      if_elim (Answers pid) (passes allowed root pid p)
        (if p.ppid == 1 then some (some p) else orphan_root fuel procs allowed root p.ppid)
        (some none)
        (λ g.
          if_elim (Answers pid) (p.ppid == 1) (some (some p))
            (orphan_root fuel procs allowed root p.ppid) (λ h. (some p, refl, Orphaned.dead e g h))
            (λ h.
              let m : rank p.ppid < rank pid = w pid p e g in
              let c : Answers p.ppid (orphan_root fuel procs allowed root p.ppid) =
                k p.ppid (omega (arith, l, m)) in
              (c.0, c.1, passed pid p c.0 e g h c.2)))
        (λ g. (none, refl, stopped pid p e g))

  -- With fuel above the rank of a process, where the rank falls from each process the walk passes to its
  -- parent, the walk ends: with the top of the chain of parents when that chain ends at a dead parent,
  -- and without a process when there is no such chain.
  pub orphan_root-Answers :
      (rank : ℕ → ℕ) (fuel pid : ℕ)
      → Ranked procs allowed root rank
      → rank pid < fuel
      → Answers pid (orphan_root fuel procs allowed root pid)
  unfolding orphan_root
  orphan_root-Answers rank zero pid w l = absurd (omega (arith, l))
  orphan_root-Answers rank (suc fuel) pid w l =
      answered rank fuel pid (by_pid procs pid) refl w l
        (λ p m. orphan_root-Answers rank fuel p w m)
