-- ===== src/DeviceBank/Exclusive/Keys.antt =====
-- The invariant of the lease list, and how edits and additions keep it.
use homebrew_tools.Prelude.{
  ℕ, suc, zero, String, Bool, true, false, not, some, List, [], ◌∷◌, ◌++◌, ◌&&◌, ◌||◌, str_eq, find,
  get_elem?, set, remove_at, ◌≡◌, refl, sym, ap, ◌∙◌, subst, ◌⊎◌, inl, inr, arith, Bool-cases,
  Option-cases, All, map, str_eq-eq, str_eq_refl, All-append, All-remove_at, and-true,
}
use homebrew_tools.DeviceBank.Types.{Platform, ios, android, platform_eq, Lease, State}
use homebrew_tools.DeviceBank.State.{held_by, leases_device, put_device, put_lease}
use homebrew_tools.DeviceBank.Lease.{renew, touch_session, remove_lease}
use homebrew_tools.DeviceBank.Edits.Basic.{
  LeaseKey, key, Edits, unchanged, writes_device, writes_lease, removes_lease, renews, other,
}

pub conflicts : LeaseKey → LeaseKey → Bool
conflicts a b =
    (str_eq a.session b.session && platform_eq a.platform b.platform)
    || (not a.physical && not b.physical && str_eq a.device b.device)

abbrev pub keys : List Lease → List LeaseKey
keys [] = []
keys (l ∷ ls) = key l ∷ keys ls

abbrev pub Apart : List LeaseKey → Type 0
Apart [] = Unit {0}
Apart (k ∷ ks) = All (λ x. conflicts k x ≡ false) ks × Apart ks

-- One lease at most for each session and platform, and one at most on each virtual device.
pub record Exclusive (s : State) : Type 0 where
  pub apart : Apart (keys s.leases)

keys-remove_at : (ls : List Lease) (j : ℕ) → keys (remove_at ls j) ≡ remove_at (keys ls) j
keys-remove_at [] j = refl
keys-remove_at (l ∷ ls) zero = refl
keys-remove_at (l ∷ ls) (suc j) = ap (◌∷◌ (key l)) (keys-remove_at ls j)

pub keys-set :
    (ls : List Lease) (j : ℕ) (l l' : Lease)
    → get_elem? ls j ≡ some l
    → key l' ≡ key l
    → keys (set ls j l') ≡ keys ls
keys-set [] j l l' e p = refl
keys-set (x ∷ ls) zero l l' e p = ground arith
keys-set (x ∷ ls) (suc j) l l' e p = ap (◌∷◌ (key x)) (keys-set ls j l l' e p)

keys-renew :
    (session : String) (now : ℕ) (ls : List Lease) → keys (map (renew session now) ls) ≡ keys ls
keys-renew session now [] = refl
keys-renew session now (l ∷ ls) = ground (arith, keys-renew session now ls)

Apart-remove_at : (ks : List LeaseKey) (j : ℕ) → Apart ks → Apart (remove_at ks j)
Apart-remove_at [] j h = tt
Apart-remove_at (k ∷ ks) zero h = h.1
Apart-remove_at (k ∷ ks) (suc j) h =
    (All-remove_at (λ x. conflicts k x ≡ false) ks j h.0, Apart-remove_at ks j h.1)

pub Apart-append :
    (ks : List LeaseKey) (k : LeaseKey)
    → Apart ks
    → All (λ x. conflicts x k ≡ false) ks
    → Apart (ks ++ (k ∷ []))
Apart-append [] k h c = (tt, tt)
Apart-append (x ∷ ks) k h c =
    (All-append (λ y. conflicts x y ≡ false) ks (k ∷ []) h.0 (c.0, tt), Apart-append ks k h.1 c.1)

pub keys-append : (xs ys : List Lease) → keys (xs ++ ys) ≡ keys xs ++ keys ys
keys-append [] ys = refl
keys-append (x ∷ xs) ys = ap (◌∷◌ (key x)) (keys-append xs ys)

pub Edits-Exclusive : {s t : State} → Edits s t → Exclusive s → Exclusive t
unfolding put_device put_lease remove_lease touch_session
Edits-Exclusive unchanged v = v
Edits-Exclusive (writes_device i d d' h e q) v = record { apart = (Edits-Exclusive h v).apart }
Edits-Exclusive (writes_lease {t} j l l' h e p) v = record {
  apart = rw (keys-set t.leases j l l' e p) (Edits-Exclusive h v).apart;
}
Edits-Exclusive (removes_lease {t} j h) v = record {
  apart =
      rw (keys-remove_at t.leases j)
        (Apart-remove_at (keys t.leases) j (Edits-Exclusive h v).apart);
}
Edits-Exclusive (renews {t} session now h) v = record {
  apart = rw (keys-renew session now t.leases) (Edits-Exclusive h v).apart;
}
Edits-Exclusive (other {t} u h d l c) v = record { apart = rw l (Edits-Exclusive h v).apart }

-- The session has no lease of the platform.
abbrev pub Unheld : String → Platform → List Lease → Type 0
Unheld session p ls = All (λ l. held_by session p l ≡ false) ls

platform_eq_join :
    (a b p : Platform) → platform_eq a p ≡ true → platform_eq b p ≡ true → platform_eq a b ≡ true
platform_eq_join ios ios p h k = refl
platform_eq_join android android p h k = refl
platform_eq_join ios android ios h k = k
platform_eq_join ios android android h k = h
platform_eq_join android ios ios h k = h
platform_eq_join android ios android h k = k

held_by_parts :
    (session : String) (p : Platform) (l : Lease)
    → held_by session p l ≡ true
    → (l.session_id ≡ session) × (platform_eq l.platform p ≡ true)
held_by_parts session p l h =
    let (a, b) = and-true (str_eq l.session_id session) (platform_eq l.platform p) h in
    (str_eq-eq l.session_id session a, b)

same_holder :
    (session : String) (p : Platform) (x y : Lease)
    → held_by session p x ≡ true
    → conflicts (key x) (key y) ≡ false
    → held_by session p y ≡ false
unfolding conflicts
same_holder session p x y h c = elim (Bool-cases (held_by session p y)) [
  | inr e ↦ e
  | inl e ↦ absurd (ground (arith, same_session e, same_platform e))
]
  where
    same_session : held_by session p y ≡ true → str_eq x.session_id y.session_id ≡ true
    same_session e =
        subst (λ u. str_eq x.session_id u ≡ true)
          ((held_by_parts session p x h).0 ∙ sym (held_by_parts session p y e).0)
          (str_eq_refl x.session_id)

    same_platform : held_by session p y ≡ true → platform_eq x.platform y.platform ≡ true
    same_platform e =
        platform_eq_join x.platform y.platform p (held_by_parts session p x h).1
          (held_by_parts session p y e).1

rest-Unheld :
    (session : String) (p : Platform) (x : Lease) (ls : List Lease)
    → held_by session p x ≡ true
    → All (λ k. conflicts (key x) k ≡ false) (keys ls)
    → Unheld session p ls
rest-Unheld session p x [] h c = tt
rest-Unheld session p x (y ∷ ls) h c =
    (same_holder session p x y h c.0, rest-Unheld session p x ls h c.1)

-- Under the invariant, the lease that the search finds is the only one of its holder.
pub Unheld-remove_at :
    (session : String) (p : Platform) (ls : List Lease) {j : ℕ} {l : Lease}
    → Apart (keys ls)
    → find (held_by session p) ls ≡ some (j, l)
    → Unheld session p (remove_at ls j)
unfolding find
Unheld-remove_at session p [] v e = cc
Unheld-remove_at session p (x ∷ ls) {j} {l} v e = elim (Bool-cases (held_by session p x)) [
  | inl h ↦
      let first : 0 ≡ j = ground arith in
      subst (λ k. Unheld session p (remove_at (x ∷ ls) k)) first (rest-Unheld session p x ls h v.0)
  | inr h ↦ elim (Option-cases (find (held_by session p) ls)) [
    | inl f ↦ absurd (ground arith)
    | inr ((k, y), f) ↦
        let later : suc k ≡ j = ground arith in
        subst (λ n. Unheld session p (remove_at (x ∷ ls) n)) later
          (h, Unheld-remove_at session p ls v.1 f)
  ]
]

-- A new lease of a holder without one conflicts with another only over a virtual device.
conflict_free :
    (session : String) (p : Platform) (k : LeaseKey) (x : Lease)
    → k.session ≡ session
    → k.platform ≡ p
    → held_by session p x ≡ false
    → (k.physical ≡ true) ⊎ (leases_device k.device x ≡ false)
    → conflicts (key x) k ≡ false
unfolding conflicts
conflict_free session p k x a b u (inl h) = rw (a, b) (ground arith)
conflict_free session p k x a b u (inr h) = rw (a, b) (ground arith)

pub All-conflict_free :
    (session : String) (p : Platform) (k : LeaseKey) (ls : List Lease)
    → k.session ≡ session
    → k.platform ≡ p
    → Unheld session p ls
    → (k.physical ≡ true) ⊎ All (λ l. leases_device k.device l ≡ false) ls
    → All (λ x. conflicts x k ≡ false) (keys ls)
All-conflict_free session p k [] a b u d = tt
All-conflict_free session p k (x ∷ ls) a b u (inl h) =
    (conflict_free session p k x a b u.0 (inl h), All-conflict_free session p k ls a b u.1 (inl h))
All-conflict_free session p k (x ∷ ls) a b u (inr h) = (
  conflict_free session p k x a b u.0 (inr h.0),
  All-conflict_free session p k ls a b u.1 (inr h.1),
)
