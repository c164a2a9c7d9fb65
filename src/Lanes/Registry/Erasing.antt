-- ===== src/Lanes/Registry/Erasing.antt =====
-- internal/lanes/daemon/stack.go: what `eraseRegistered` leaves of the registry of a gone worktree.
use homebrew_tools.Prelude.{
  ℕ, String, Bool, true, false, not, ◌&&◌, ◌||◌, List, [], ◌∷◌, str_eq, any, keep, count, ◌≡◌, refl,
  sym, ap, ◌∙◌, if_elim, arith,
}
use homebrew_tools.Lanes.Registry.{
  Entry, Erased, kept_failing, erased_unremoved, erased, same_key, remove, erase_registered,
  failed_one,
}

abbrev pub is_erased : Erased → Bool
is_erased erased = true
is_erased _ = false

keep_cong :
    (p q : Entry → Bool) (xs : List Entry) → ((x : Entry) → p x ≡ q x) → keep p xs ≡ keep q xs
keep_cong p q [] h = refl
keep_cong p q (x ∷ xs) h = ground (arith, h x, keep_cong p q xs h)

keep-keep : (p q : Entry → Bool) (xs : List Entry) → keep p (keep q xs) ≡ keep (λ x. q x && p x) xs
keep-keep p q [] = refl
keep-keep p q (x ∷ xs) = ground (arith, keep-keep p q xs)

keep_all : (xs : List Entry) → keep (λ x. not false) xs ≡ xs
keep_all [] = refl
keep_all (x ∷ xs) = ap (◌∷◌ x) (keep_all xs)

module _ (outcome : Entry → Erased) (admin_dir : String) where
  -- Whether the entry of the worktree was erased and removed, and whether it failed.
  abbrev pub goes : Entry → Bool
  goes en = str_eq en.admin_dir admin_dir && is_erased (outcome en)

  abbrev pub fails : Entry → Bool
  fails en = str_eq en.admin_dir admin_dir && not (is_erased (outcome en))

  abbrev pub left : List Entry → List Entry → List Entry
  left ens cur = keep (λ c. not (any (λ en. goes en && same_key c en) ens)) cur

  abbrev Erases : List Entry → List Entry → List Entry × ℕ → Type 0
  Erases ens cur r = (r.0 ≡ left ens cur) × (r.1 ≡ count fails ens)

  stays_left :
      (en : Entry) (ens cur : List Entry) → goes en ≡ false → left (en ∷ ens) cur ≡ left ens cur
  stays_left en ens cur h =
      keep_cong (λ c. not ((goes en && same_key c en) || any (λ x. goes x && same_key c x) ens))
        (λ c. not (any (λ x. goes x && same_key c x) ens)) cur (λ c. ground (arith, h))

  left-remove :
      (en : Entry) (ens cur : List Entry)
      → goes en ≡ true
      → left ens (remove en cur) ≡ left (en ∷ ens) cur
  unfolding remove
  left-remove en ens cur h =
      keep-keep (λ c. not (any (λ x. goes x && same_key c x) ens)) (λ c. not (same_key c en)) cur
      ∙ keep_cong (λ c. not (same_key c en) && not (any (λ x. goes x && same_key c x) ens))
          (λ c. not ((goes en && same_key c en) || any (λ x. goes x && same_key c x) ens)) cur
          (λ c. ground (arith, h))

  other-Erases :
      (en : Entry) (ens cur : List Entry) (r : List Entry × ℕ)
      → str_eq en.admin_dir admin_dir ≡ false
      → Erases ens cur r
      → Erases (en ∷ ens) cur r
  other-Erases en ens cur r h w =
      (w.0 ∙ sym (stays_left en ens cur (ground (arith, h))), ground (arith, h, w.1))

  gone-Erases :
      (en : Entry) (ens cur : List Entry) (r : List Entry × ℕ)
      → goes en ≡ true
      → Erases ens (remove en cur) r
      → Erases (en ∷ ens) cur r
  gone-Erases en ens cur r h w = (w.0 ∙ left-remove en ens cur h, ground (arith, h, w.1))

  failed-Erases :
      (en : Entry) (ens cur : List Entry) (r : List Entry × ℕ)
      → fails en ≡ true
      → Erases ens cur r
      → Erases (en ∷ ens) cur (failed_one r)
  failed-Erases en ens cur r h w =
      (w.0 ∙ sym (stays_left en ens cur (ground (arith, h))), ground (arith, h, w.1))

  with_outcome :
      (o : Erased) (en : Entry) (ens cur : List Entry)
      → outcome en ≡ o
      → str_eq en.admin_dir admin_dir ≡ true
      → ((cur2 : List Entry) → Erases ens cur2 (erase_registered outcome admin_dir ens cur2))
      → Erases (en ∷ ens) cur (elim o [
        | erased ↦ erase_registered outcome admin_dir ens (remove en cur)
        | kept_failing ↦ failed_one (erase_registered outcome admin_dir ens cur)
        | erased_unremoved ↦ failed_one (erase_registered outcome admin_dir ens cur)
      ])
  with_outcome erased en ens cur o h k =
      gone-Erases en ens cur (erase_registered outcome admin_dir ens (remove en cur))
        (ground (arith, h, ap is_erased o)) (k (remove en cur))
  with_outcome kept_failing en ens cur o h k =
      failed-Erases en ens cur (erase_registered outcome admin_dir ens cur)
        (ground (arith, h, ap is_erased o)) (k cur)
  with_outcome erased_unremoved en ens cur o h k =
      failed-Erases en ens cur (erase_registered outcome admin_dir ens cur)
        (ground (arith, h, ap is_erased o)) (k cur)

  -- The pass over a gone worktree's entries leaves, in order, the entries whose key is not that of an
  -- entry of the worktree that was erased and removed, and counts the worktree's other entries as failed:
  -- one failure keeps no other entry.
  pub erase_registered-Erases :
      (ens cur : List Entry) → Erases ens cur (erase_registered outcome admin_dir ens cur)
  unfolding erase_registered
  erase_registered-Erases [] cur = (sym (keep_all cur), refl)
  erase_registered-Erases (en ∷ ens) cur =
      if_elim (Erases (en ∷ ens) cur) (not (str_eq en.admin_dir admin_dir))
        (erase_registered outcome admin_dir ens cur)
        (elim (outcome en) [
          | erased ↦ erase_registered outcome admin_dir ens (remove en cur)
          | kept_failing ↦ failed_one (erase_registered outcome admin_dir ens cur)
          | erased_unremoved ↦ failed_one (erase_registered outcome admin_dir ens cur)
        ])
        (λ h.
          other-Erases en ens cur (erase_registered outcome admin_dir ens cur) (ground (arith, h))
            (erase_registered-Erases ens cur))
        (λ h.
          with_outcome (outcome en) en ens cur refl (ground (arith, h))
            (λ cur2. erase_registered-Erases ens cur2))
