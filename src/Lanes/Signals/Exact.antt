-- ===== src/Lanes/Signals/Exact.antt =====
-- internal/lanes/daemon/sweep.go: `Signals` reaches every target, and nothing but targets.
use homebrew_tools.Prelude.{
  ℕ, ◌<◌, true, false, List, [], ◌∷◌, Memᴰ, if_elim, ◌≡◌, ◌≢◌, refl, ◌⊎◌, inl, inr, arith, ap, sym,
  Bool-cases, subst, if◌then◌else◌,
}
use mathlib.Core.List.Memᴰ
use homebrew_tools.Lanes.Procs.{Proc, holds}
use homebrew_tools.Lanes.Signals.{Signal, ids, has_other, whole, signals_from, signals}

-- A signal to a whole group, of which every process is a target.
pub record Whole (procs : List Proc) (targets : List ℕ) (own_group g : ℕ) : Type 0 where
  pub real : 1 < g
  pub not_own : g ≢ own_group
  pub only_targets : (p : Proc) → Memᴰ p procs → p.pgid ≡ g → holds p.pid targets ≡ true

-- A signal that reaches nothing but targets.
abbrev pub Aimed : List Proc → List ℕ → ℕ → Signal → Type 0
Aimed procs targets own_group s =
    ((s.group ≡ false) × (holds s.pid targets ≡ true))
    ⊎ ((s.group ≡ true) × Whole procs targets own_group s.pid)

abbrev pub Reached : List Signal → Proc → Type 0
Reached out t =
    Memᴰ (record { pid = t.pid; group = false }) out
    ⊎ Memᴰ (record { pid = t.pgid; group = true }) out

no_other :
    (procs : List Proc) (targets : List ℕ) (g : ℕ) (p : Proc)
    → has_other procs targets g ≡ false
    → Memᴰ p procs
    → p.pgid ≡ g
    → holds p.pid targets ≡ true
unfolding has_other
no_other [] targets g p h m e = absurd (Memᴰ.not-nil m)
no_other (q ∷ ps) targets g p h m e = elim (Memᴰ.cases_cons m) [
  | inl i ↦
      subst (λ (z : Proc). holds z.pid targets ≡ true) (sym i)
        (let k : q.pgid ≡ g = subst (λ (z : Proc). z.pgid ≡ g) i e in ground (arith, h, k))
  | inr t ↦ no_other ps targets g p (ground (arith, h)) t e
]

whole-Whole :
    (procs : List Proc) (targets : List ℕ) (own_group g : ℕ)
    → whole procs targets own_group g ≡ true
    → Whole procs targets own_group g
unfolding whole
whole-Whole procs targets own_group g h = record {
  real = ground (arith, h);
  not_own = λ e. absurd (ground (arith, h, e));
  only_targets = λ p m e. no_other procs targets g p (ground (arith, h)) m e;
}

-- What the loop gives: signals at targets only, each target reached or its group signalled before.
record Good (procs : List Proc) (targets : List ℕ) (own_group : ℕ) (ts : List Proc) (done : List ℕ)
    (out : List Signal) : Type 0 where
  aimed : (s : Signal) → Memᴰ s out → Aimed procs targets own_group s
  reached : (t : Proc) → Memᴰ t ts → Reached out t ⊎ (holds t.pgid done ≡ true)

listed-holds : (t : Proc) (ts : List Proc) → Memᴰ t ts → holds t.pid (ids ts) ≡ true
unfolding holds ids
listed-holds t [] m = absurd (Memᴰ.not-nil m)
listed-holds t (u ∷ ts) m = elim (Memᴰ.cases_cons m) [
  | inl e ↦ subst (λ (z : Proc). holds t.pid (z.pid ∷ ids ts) ≡ true) e (ground arith)
  | inr r ↦ ground (arith, listed-holds t ts r)
]

Reached-later : (s : Signal) (out : List Signal) (t : Proc) → Reached out t → Reached (s ∷ out) t
Reached-later s out t (inl m) = inl (Memᴰ.tail m)
Reached-later s out t (inr m) = inr (Memᴰ.tail m)

holds-cases : (n m : ℕ) (ms : List ℕ) → holds n (m ∷ ms) ≡ true → (m ≡ n) ⊎ (holds n ms ≡ true)
unfolding holds
holds-cases n m ms h = elim (Bool-cases (holds n ms)) [
  | inl e ↦ inr e
  | inr e ↦ inl (ground (arith, h, e))
]

module _ (procs : List Proc) (targets : List ℕ) (own_group : ℕ) where
  repeated-Good :
      (t : Proc) (ts : List Proc) (done : List ℕ) (out : List Signal)
      → holds t.pgid done ≡ true
      → Good procs targets own_group ts done out
      → Good procs targets own_group (t ∷ ts) done out
  repeated-Good t ts done out h g = record {
    aimed = g.aimed;
    reached = λ u m. elim (Memᴰ.cases_cons m) [
      | inl e ↦ inr (subst (λ (z : Proc). holds z.pgid done ≡ true) (sym e) h)
      | inr r ↦ g.reached u r
    ];
  }

  group-Good :
      (t : Proc) (ts : List Proc) (done : List ℕ) (out : List Signal)
      → Whole procs targets own_group t.pgid
      → Good procs targets own_group ts (t.pgid ∷ done) out
      → Good procs targets own_group (t ∷ ts) done (record { pid = t.pgid; group = true } ∷ out)
  group-Good t ts done out w g = record {
    aimed = λ s m. elim (Memᴰ.cases_cons m) [
      | inl e ↦ subst (Aimed procs targets own_group) (sym e) (inr (refl, w))
      | inr r ↦ g.aimed s r
    ];
    reached = λ u m. elim (Memᴰ.cases_cons m) [
      | inl e ↦ inl (inr (Memᴰ.head (ap (λ (z : Proc). record { pid = z.pgid; group = true }) e)))
      | inr r ↦ elim (g.reached u r) [
        | inl k ↦ inl (Reached-later (record { pid = t.pgid; group = true }) out u k)
        | inr h ↦ elim (holds-cases u.pgid t.pgid done h) [
          | inl e ↦ inl (inr (Memᴰ.head (ap (λ (n : ℕ). record { pid = n; group = true }) (sym e))))
          | inr k ↦ inr k
        ]
      ]
    ];
  }

  single-Good :
      (t : Proc) (ts : List Proc) (done : List ℕ) (out : List Signal)
      → holds t.pid targets ≡ true
      → Good procs targets own_group ts done out
      → Good procs targets own_group (t ∷ ts) done (record { pid = t.pid; group = false } ∷ out)
  single-Good t ts done out h g = record {
    aimed = λ s m. elim (Memᴰ.cases_cons m) [
      | inl e ↦ subst (Aimed procs targets own_group) (sym e) (inl (refl, h))
      | inr r ↦ g.aimed s r
    ];
    reached = λ u m. elim (Memᴰ.cases_cons m) [
      | inl e ↦ inl (inl (Memᴰ.head (ap (λ (z : Proc). record { pid = z.pid; group = false }) e)))
      | inr r ↦ elim (g.reached u r) [
        | inl k ↦ inl (Reached-later (record { pid = t.pid; group = false }) out u k)
        | inr k ↦ inr k
      ]
    ];
  }

  signals_from-Good :
      (ts : List Proc) (done : List ℕ)
      → ((t : Proc) → Memᴰ t ts → holds t.pid targets ≡ true)
      → Good procs targets own_group ts done (signals_from procs targets own_group ts done)
  unfolding signals_from
  signals_from-Good [] done h = record {
    aimed = λ s m. absurd (Memᴰ.not-nil m);
    reached = λ t m. absurd (Memᴰ.not-nil m);
  }
  signals_from-Good (t ∷ ts) done h =
      if_elim (Good procs targets own_group (t ∷ ts) done) (whole procs targets own_group t.pgid)
        (if holds t.pgid done
          then signals_from procs targets own_group ts done
          else record { pid = t.pgid; group = true }
            ∷ signals_from procs targets own_group ts (t.pgid ∷ done))
        (record { pid = t.pid; group = false } ∷ signals_from procs targets own_group ts done)
        (λ w.
          if_elim (Good procs targets own_group (t ∷ ts) done) (holds t.pgid done)
            (signals_from procs targets own_group ts done)
            (record { pid = t.pgid; group = true }
              ∷ signals_from procs targets own_group ts (t.pgid ∷ done))
            (λ e.
              repeated-Good t ts done (signals_from procs targets own_group ts done) e
                (signals_from-Good ts done (λ u m. h u (Memᴰ.tail m))))
            (λ e.
              group-Good t ts done (signals_from procs targets own_group ts (t.pgid ∷ done))
                (whole-Whole procs targets own_group t.pgid w)
                (signals_from-Good ts (t.pgid ∷ done) (λ u m. h u (Memᴰ.tail m)))))
        (λ w.
          single-Good t ts done (signals_from procs targets own_group ts done)
            (h t (Memᴰ.head refl)) (signals_from-Good ts done (λ u m. h u (Memᴰ.tail m))))

-- Each signal goes to a target, or to a group other than lanesd's own of which every process in the
-- snapshot is a target; and each target gets one, by itself or through its group.
pub signals-Aimed :
    (procs targets : List Proc) (own_group : ℕ)
    → ((s : Signal)
        → Memᴰ s (signals procs targets own_group)
        → Aimed procs (ids targets) own_group s)
      × ((t : Proc) → Memᴰ t targets → Reached (signals procs targets own_group) t)
unfolding signals holds
signals-Aimed procs targets own_group =
    let g =
      signals_from-Good procs (ids targets) own_group targets []
        (λ t m. listed-holds t targets m) in
    (g.aimed, λ t m. elim (g.reached t m) [ inl r ↦ r | inr h ↦ absurd (ground (arith, h)) ])
