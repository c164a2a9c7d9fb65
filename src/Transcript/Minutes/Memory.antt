-- ===== src/Transcript/Minutes/Memory.antt =====
-- internal/atelierd/transcript: what a state remembers of the minutes emitted.
use homebrew_tools.Prelude.{
  ℕ, ◌+◌, ◌-◌, ◌<◌, Bool, true, false, not, ◌||◌, List, [], ◌∷◌, ◌++◌, ◌==◌, ltb, ◌≡◌, refl, subst,
  arith, if_elim, Bool-cases, ◌⊎◌, inl, inr, keep,
}
use homebrew_tools.Transcript.{emitted, newest_of, prune_minutes, emitted_minutes_window}

-- Pruning.
emitted-keep :
    (p : ℕ → Bool) (m : ℕ) (ks : List ℕ)
    → emitted m ks ≡ true
    → p m ≡ true
    → emitted m (keep p ks) ≡ true
unfolding emitted
emitted-keep p m [] h e = h
emitted-keep p m (k ∷ ks) h e =
    if_elim (λ (l : List ℕ). emitted m l ≡ true) (p k) (k ∷ keep p ks) (keep p ks)
      (λ b. elim (Bool-cases (emitted m ks)) [
        | inl r ↦ ground (arith, emitted-keep p m ks r e)
        | inr r ↦ ground (arith, h, r)
      ])
      (λ b. elim (Bool-cases (k == m)) [
        | inl q ↦
            let x : k ≡ m = ground (arith, q) in
            let y : p m ≡ false = subst (λ (n : ℕ). p n ≡ false) x b in
            absurd (ground (arith, y, e))
        | inr q ↦ emitted-keep p m ks (ground (arith, h, q)) e
      ])

keep-emitted :
    (p : ℕ → Bool) (m : ℕ) (ks : List ℕ) → emitted m (keep p ks) ≡ true → emitted m ks ≡ true
unfolding emitted
keep-emitted p m [] h = h
keep-emitted p m (k ∷ ks) h = ground (arith, h, keep-emitted p m ks)

newest_of-emitted : (ks : List ℕ) → 0 < newest_of ks → emitted (newest_of ks) ks ≡ true
unfolding emitted newest_of
newest_of-emitted [] h = absurd (omega (arith, h))
newest_of-emitted (k ∷ ks) h =
    if_elim (λ (n : ℕ). 0 < n → ((k == n) || emitted n ks) ≡ true) (ltb (newest_of ks) k) k
      (newest_of ks) (λ b z. ground arith) (λ b z. ground (arith, newest_of-emitted ks z)) h

prune_minutes-kept :
    (m : ℕ) (ks : List ℕ)
    → emitted m ks ≡ true
    → (emitted m (prune_minutes ks) ≡ true)
      ⊎ ((emitted (newest_of ks) ks ≡ true) × (m + emitted_minutes_window < newest_of ks))
unfolding prune_minutes
prune_minutes-kept m ks h = elim (Bool-cases (ltb m (newest_of ks - emitted_minutes_window))) [
  | inl e ↦
      let l : m + emitted_minutes_window < newest_of ks = ground (arith, e) in
      inr (newest_of-emitted ks (omega (arith, l)), l)
  | inr e ↦ inl (
      emitted-keep (λ k. not (ltb k (newest_of ks - emitted_minutes_window))) m ks h
        (ground (arith, e)))
]

-- What a state that remembers the minutes ks knows of those that it should know of.
pub record Remembers (ks known every : List ℕ) : Type 0 where
  pub only : (m : ℕ) → emitted m ks ≡ true → emitted m every ≡ true
  pub recent :
      (m : ℕ)
      → emitted m known ≡ true
      → (emitted m ks ≡ true)
        ⊎ ((k : ℕ) × ((emitted k every ≡ true) × (m + emitted_minutes_window < k)))

cons-emitted : (n m : ℕ) (ks : List ℕ) → emitted n ks ≡ true → emitted n (m ∷ ks) ≡ true
unfolding emitted
cons-emitted n m ks h = ground (arith, h)

pub emitted-cases :
    (n m : ℕ) (ks : List ℕ) → emitted n (m ∷ ks) ≡ true → (m ≡ n) ⊎ (emitted n ks ≡ true)
unfolding emitted
emitted-cases n m ks h = elim (Bool-cases (emitted n ks)) [
  | inl e ↦ inr e
  | inr e ↦ inl (ground (arith, h, e))
]

head-emitted : (m : ℕ) (ks : List ℕ) → emitted m (m ∷ ks) ≡ true
unfolding emitted
head-emitted m ks = ground arith

pub nothing-emitted : (m : ℕ) → emitted m [] ≡ true → ⊥
unfolding emitted
nothing-emitted m h = ground (arith, h)

pub added-Remembers :
    (m : ℕ) (ks known every : List ℕ)
    → Remembers ks known every
    → Remembers (m ∷ ks) (m ∷ known) (m ∷ every)
added-Remembers m ks known every r = record {
  only = λ n e. elim (emitted-cases n m ks e) [
    | inl q ↦ subst (λ (x : ℕ). emitted x (m ∷ every) ≡ true) q (head-emitted m every)
    | inr k ↦ cons-emitted n m every (r.only n k)
  ];
  recent = λ n e. elim (emitted-cases n m known e) [
    | inl q ↦ inl (subst (λ (x : ℕ). emitted x (m ∷ ks) ≡ true) q (head-emitted m ks))
    | inr k ↦ elim (r.recent n k) [
      | inl x ↦ inl (cons-emitted n m ks x)
      | inr w ↦ inr (w.0, (cons-emitted w.0 m every w.1.0, w.1.1))
    ]
  ];
}

emitted-append : (m : ℕ) (ks ls : List ℕ) → emitted m (ks ++ ls) ≡ (emitted m ks || emitted m ls)
unfolding emitted
emitted-append m [] ls = refl
emitted-append m (k ∷ ks) ls = ground (arith, emitted-append m ks ls)

emitted-either :
    (m : ℕ) (ks ls : List ℕ)
    → emitted m (ks ++ ls) ≡ true
    → (emitted m ks ≡ true) ⊎ (emitted m ls ≡ true)
emitted-either m ks ls h = elim (Bool-cases (emitted m ks)) [
  | inl e ↦ inl e
  | inr e ↦ inr (ground (arith, h, e, emitted-append m ks ls))
]

emitted-left : (m : ℕ) (ks ls : List ℕ) → emitted m ks ≡ true → emitted m (ks ++ ls) ≡ true
emitted-left m ks ls h = ground (arith, h, emitted-append m ks ls)

emitted-right : (m : ℕ) (ks ls : List ℕ) → emitted m ls ≡ true → emitted m (ks ++ ls) ≡ true
emitted-right m ks ls h = ground (arith, h, emitted-append m ks ls)

pub merged-Remembers :
    (ks ls known others every : List ℕ)
    → Remembers ks known every
    → Remembers ls others every
    → Remembers (ks ++ ls) (known ++ others) every
merged-Remembers ks ls known others every a b = record {
  only = λ m e. elim (emitted-either m ks ls e) [ inl x ↦ a.only m x | inr x ↦ b.only m x ];
  recent = λ m e. elim (emitted-either m known others e) [
    | inl x ↦ elim (a.recent m x) [ inl y ↦ inl (emitted-left m ks ls y) | inr w ↦ inr w ]
    | inr x ↦ elim (b.recent m x) [ inl y ↦ inl (emitted-right m ks ls y) | inr w ↦ inr w ]
  ];
}

-- A state stays as good when more is emitted from another.
pub later-Remembers :
    (m : ℕ) (ks known every : List ℕ) → Remembers ks known every → Remembers ks known (m ∷ every)
later-Remembers m ks known every r = record {
  only = λ n e. cons-emitted n m every (r.only n e);
  recent = λ n e. elim (r.recent n e) [
    | inl x ↦ inl x
    | inr w ↦ inr (w.0, (cons-emitted w.0 m every w.1.0, w.1.1))
  ];
}

pub pruned-Remembers :
    (ks known every : List ℕ) → Remembers ks known every → Remembers (prune_minutes ks) known every
unfolding prune_minutes
pruned-Remembers ks known every r = record {
  only = λ m e.
      r.only m (keep-emitted (λ k. not (ltb k (newest_of ks - emitted_minutes_window))) m ks e);
  recent = λ m e. elim (r.recent m e) [
    | inr w ↦ inr w
    | inl k ↦ elim (prune_minutes-kept m ks k) [
      | inl x ↦ inl x
      | inr y ↦ inr (newest_of ks, (r.only (newest_of ks) y.0, y.1))
    ]
  ];
}

not-forgotten :
    (m n : ℕ) (ks : List ℕ) → emitted n (keep (λ k. not (k == m)) ks) ≡ true → not (n == m) ≡ true
unfolding emitted
not-forgotten m n [] h = absurd (ground (arith, h))
not-forgotten m n (k ∷ ks) h = ground (arith, h, not-forgotten m n ks)

pub forgotten-Remembers :
    (m : ℕ) (ks known every : List ℕ)
    → Remembers ks known every
    → Remembers (keep (λ k. not (k == m)) ks) (keep (λ k. not (k == m)) known) every
forgotten-Remembers m ks known every r = record {
  only = λ n e. r.only n (keep-emitted (λ k. not (k == m)) n ks e);
  recent = λ n e. elim (r.recent n (keep-emitted (λ k. not (k == m)) n known e)) [
    | inl x ↦ inl (emitted-keep (λ k. not (k == m)) n ks x (not-forgotten m n known e))
    | inr w ↦ inr w
  ];
}
