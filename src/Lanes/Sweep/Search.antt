-- ===== src/Lanes/Sweep/Search.antt =====
-- internal/lanes/daemon/sweep.go: the search of `helpersOf` ends, with exactly the processes that the
-- named ones launched.
use homebrew_tools.Prelude.{
  ℕ, ◌+◌, ◌≤◌, ◌<◌, Bool, true, false, not, ◌||◌, List, [], ◌∷◌, ◌++◌, Memᴰ, if◌then◌else◌, if_elim,
  count, length, length-append, ◌≡◌, refl, ◌⊎◌, inl, inr, arith, sym, Bool-cases, subst,
}
use mathlib.Core.List.Memᴰ
use homebrew_tools.Lanes.Procs.{Proc, holds}
use homebrew_tools.Lanes.Sweep.{Frontier, collect, launches, descends, visit}

-- What the processes with the IDs launched, directly or through their own children.
pub data Helper (stop : Bool) (procs : List Proc) (roots : List ℕ) : ℕ → Type 0 where
  launched :
      {n : ℕ} (q : ℕ) (c : Proc)
      → holds q roots ≡ true
      → Memᴰ c procs
      → launches stop q c ≡ true
      → c.pid ≡ n
      → Helper stop procs roots n
  relayed :
      {n : ℕ} (q : ℕ) (c : Proc)
      → Helper stop procs roots q
      → Memᴰ c procs
      → launches stop q c ≡ true
      → c.pid ≡ n
      → Helper stop procs roots n

-- The processes not collected yet.
abbrev pub fresh : List ℕ → List Proc → ℕ
fresh out procs = count (λ p. not (holds p.pid out)) procs

fresh-cons-le : (n : ℕ) (out : List ℕ) (procs : List Proc) → fresh (n ∷ out) procs ≤ fresh out procs
unfolding holds
fresh-cons-le n out [] = omega arith
fresh-cons-le n out (p ∷ ps) = ground (arith, fresh-cons-le n out ps)

pub fresh-cons-lt :
    (c : Proc) (out : List ℕ) (procs : List Proc)
    → Memᴰ c procs
    → holds c.pid out ≡ false
    → fresh (c.pid ∷ out) procs < fresh out procs
unfolding holds
fresh-cons-lt c out [] m h = absurd (Memᴰ.not-nil m)
fresh-cons-lt c out (p ∷ ps) m h = elim (Memᴰ.cases_cons m) [
  | inl e ↦
      subst (λ (x : Proc). fresh (c.pid ∷ out) (x ∷ ps) < fresh out (x ∷ ps)) e
        (ground (arith, fresh-cons-le c.pid out ps, h))
  | inr t ↦ ground (arith, fresh-cons-lt c out ps t h)
]

pub holds-append : (n : ℕ) (xs ys : List ℕ) → holds n (xs ++ ys) ≡ (holds n xs || holds n ys)
unfolding holds
holds-append n [] ys = refl
holds-append n (x ∷ xs) ys = ground (arith, holds-append n xs ys)

-- What the loop over the children of a process does to a search.
pub record Visited (stop : Bool) (pid : ℕ) (procs cs : List Proc) (s t : Frontier) : Type 0 where
  pub keeps_out : (n : ℕ) → holds n s.out ≡ true → holds n t.out ≡ true
  pub keeps_queue : (n : ℕ) → holds n s.queue ≡ true → holds n t.queue ≡ true
  pub covers : (c : Proc) → Memᴰ c cs → launches stop pid c ≡ true → holds c.pid t.out ≡ true
  pub new_queued : (n : ℕ) → holds n t.out ≡ true → (holds n s.out || holds n t.queue) ≡ true
  pub new_launched :
      (n : ℕ)
      → holds n t.out ≡ true
      → (holds n s.out ≡ true)
        ⊎ ((c : Proc) × (Memᴰ c cs × ((launches stop pid c ≡ true) × (c.pid ≡ n))))
  pub queued : (n : ℕ) → holds n t.queue ≡ true → (holds n s.queue || holds n t.out) ≡ true
  pub work : length t.queue + fresh t.out procs ≤ length s.queue + fresh s.out procs

pub cons-holds : (n m : ℕ) (ms : List ℕ) → holds n ms ≡ true → holds n (m ∷ ms) ≡ true
unfolding holds
cons-holds n m ms h = ground (arith, h)

pub head-holds : (n : ℕ) (ms : List ℕ) → holds n (n ∷ ms) ≡ true
unfolding holds
head-holds n ms = ground arith

-- What is collected is queued, and what is queued is collected.
collected-queued :
    (n m : ℕ) (out queue : List ℕ)
    → holds n (m ∷ out) ≡ true
    → (holds n out || holds n (queue ++ (m ∷ []))) ≡ true
unfolding holds
collected-queued n m out queue h = ground (arith, holds-append n queue (m ∷ []), h)

queued-collected :
    (n m : ℕ) (out queue : List ℕ)
    → holds n (queue ++ (m ∷ [])) ≡ true
    → (holds n queue || holds n (m ∷ out)) ≡ true
unfolding holds
queued-collected n m out queue h = ground (arith, holds-append n queue (m ∷ []), h)

pub holds-cases : (n m : ℕ) (ms : List ℕ) → holds n (m ∷ ms) ≡ true → (m ≡ n) ⊎ (holds n ms ≡ true)
unfolding holds
holds-cases n m ms h = elim (Bool-cases (holds n ms)) [
  | inl e ↦ inr e
  | inr e ↦ inl (ground (arith, h, e))
]

descends-launches :
    (stop : Bool) (pid : ℕ) (c : Proc) (out : List ℕ)
    → descends stop pid c out ≡ true
    → launches stop pid c ≡ true
unfolding descends
descends-launches stop pid c out d = ground (arith, d)

-- A child that is not known is descended to.
descends-fresh :
    (stop : Bool) (pid : ℕ) (c : Proc) (out : List ℕ)
    → descends stop pid c out ≡ true
    → holds c.pid out ≡ false
unfolding descends
descends-fresh stop pid c out d = ground (arith, d)

descends-known :
    (stop : Bool) (pid : ℕ) (c : Proc) (out : List ℕ)
    → descends stop pid c out ≡ false
    → launches stop pid c ≡ true
    → holds c.pid out ≡ true
unfolding descends
descends-known stop pid c out d h = ground (arith, d, h)

step-Visited :
    (stop : Bool) (pid : ℕ) (procs : List Proc) (c : Proc) (s : Frontier)
    → Memᴰ c procs
    → Visited stop pid procs (c ∷ []) s (if descends stop pid c s.out then collect c.pid s else s)
unfolding descends collect
step-Visited stop pid procs c s m =
    if_elim (Visited stop pid procs (c ∷ []) s) (descends stop pid c s.out) (collect c.pid s) s
      (λ d. record {
        keeps_out = λ n h. cons-holds n c.pid s.out h;
        keeps_queue = λ n h. ground (arith, holds-append n s.queue (c.pid ∷ []), h);
        covers = λ x y h.
            subst (λ (z : Proc). holds z.pid (c.pid ∷ s.out) ≡ true) (sym (Memᴰ.eq_of_singleton y))
              (head-holds c.pid s.out);
        new_queued = λ n h. collected-queued n c.pid s.out s.queue h;
        new_launched = λ n h. elim (holds-cases n c.pid s.out h) [
          | inl e ↦ inr (c, (Memᴰ.head refl, (descends-launches stop pid c s.out d, e)))
          | inr k ↦ inl k
        ];
        queued = λ n h. queued-collected n c.pid s.out s.queue h;
        work = omega (
          arith,
          length-append s.queue (c.pid ∷ []),
          fresh-cons-lt c s.out procs m (descends-fresh stop pid c s.out d),
        );
      })
      (λ d. record {
        keeps_out = λ n h. h;
        keeps_queue = λ n h. h;
        covers = λ x y h.
            let e : x ≡ c = Memᴰ.eq_of_singleton y in
            subst (λ (z : Proc). holds z.pid s.out ≡ true) (sym e)
              (descends-known stop pid c s.out d
                (subst (λ (z : Proc). launches stop pid z ≡ true) e h));
        new_launched = λ n h. inl h;
        new_queued = λ n h. ground (arith, h);
        queued = λ n h. ground (arith, h);
        work = omega arith;
      })

new_queued_joined :
    (n : ℕ) (s t mid u : List ℕ)
    → (holds n t || holds n u) ≡ true
    → (holds n t ≡ true → (holds n s || holds n mid) ≡ true)
    → (holds n mid ≡ true → holds n u ≡ true)
    → (holds n s || holds n u) ≡ true
new_queued_joined n s t mid u h k l = ground (arith, h, k, l)

joined-Visited :
    (stop : Bool) (pid : ℕ) (procs : List Proc) (c : Proc) (cs : List Proc) (s t u : Frontier)
    → Visited stop pid procs (c ∷ []) s t
    → Visited stop pid procs cs t u
    → Visited stop pid procs (c ∷ cs) s u
joined-Visited stop pid procs c cs s t u a b = record {
  keeps_out = λ n h. b.keeps_out n (a.keeps_out n h);
  keeps_queue = λ n h. b.keeps_queue n (a.keeps_queue n h);
  covers = λ x h k. elim (Memᴰ.cases_cons h) [
    | inl e ↦
        b.keeps_out x.pid
          (a.covers x (subst (λ (z : Proc). Memᴰ z (c ∷ [])) (sym e) (Memᴰ.head refl)) k)
    | inr r ↦ b.covers x r k
  ];
  new_queued = λ n h.
      new_queued_joined n s.out t.out t.queue u.queue (b.new_queued n h) (a.new_queued n)
        (b.keeps_queue n);
  new_launched = λ n h. elim (b.new_launched n h) [
    | inr w ↦ inr (w.0, (Memᴰ.tail w.1.0, w.1.1))
    | inl k ↦ elim (a.new_launched n k) [
      | inl l ↦ inl l
      | inr w ↦ inr (w.0, (Memᴰ.head (Memᴰ.eq_of_singleton w.1.0), w.1.1))
    ]
  ];
  queued = λ n h.
      new_queued_joined n s.queue t.queue t.out u.out (b.queued n h) (a.queued n) (b.keeps_out n);
  work = omega (arith, a.work, b.work);
}

-- The whole loop.
pub visit-Visited :
    (stop : Bool) (pid : ℕ) (procs cs : List Proc) (s : Frontier)
    → ((c : Proc) → Memᴰ c cs → Memᴰ c procs)
    → Visited stop pid procs cs s (visit stop pid cs s)
unfolding visit
visit-Visited stop pid procs [] s m = record {
  keeps_out = λ n h. h;
  keeps_queue = λ n h. h;
  covers = λ c h k. absurd (Memᴰ.not-nil h);
  new_launched = λ n h. inl h;
  new_queued = λ n h. ground (arith, h);
  queued = λ n h. ground (arith, h);
  work = omega arith;
}
visit-Visited stop pid procs (c ∷ cs) s m =
    joined-Visited stop pid procs c cs s (if descends stop pid c s.out then collect c.pid s else s)
      (visit stop pid cs (if descends stop pid c s.out then collect c.pid s else s))
      (step-Visited stop pid procs c s (m c (Memᴰ.head refl)))
      (visit-Visited stop pid procs cs (if descends stop pid c s.out then collect c.pid s else s)
        (λ x h. m x (Memᴰ.tail h)))
