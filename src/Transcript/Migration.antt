-- ===== src/Transcript/Migration.antt =====
-- internal/atelierd/transcript/state.go: the migration of the state of atelierd 0.18 keeps every offset.
use homebrew_tools.Prelude.{
  ℕ, String, false, Option, none, some, List, [], ◌∷◌, ◌++◌, str_eq, All, ◌≡◌, refl, sym, ◌∙◌,
  subst, arith, if_elim, Bool-cases, inl, inr, str_eq_refl, str_eq-eq,
}
use homebrew_tools.Transcript.{
  State, Offset, LegacyState, offset_at, set_offset, fold_offsets, saved, migrated, migrate_legacy,
}

offset_at-set_offset_self :
    (key : String) (n : ℕ) (os : List Offset) → offset_at key (set_offset key n os) ≡ n
unfolding offset_at set_offset
offset_at-set_offset_self key n [] = ground (arith, str_eq_refl key)
offset_at-set_offset_self key n (o ∷ os) =
    ground (arith, str_eq_refl key, offset_at-set_offset_self key n os)

offset_at-set_offset_ne :
    (key other : String) (n : ℕ) (os : List Offset)
    → str_eq other key ≡ false
    → offset_at key (set_offset other n os) ≡ offset_at key os
unfolding offset_at set_offset
offset_at-set_offset_ne key other n [] h = ground (arith, h)
offset_at-set_offset_ne key other n (o ∷ os) h = elim (Bool-cases (str_eq o.key other)) [
  | inl e ↦
      let q : str_eq o.key key ≡ false =
        subst (λ (x : String). str_eq x key ≡ false) (sym (str_eq-eq o.key other e)) h in
      ground (arith, h, e, q)
  | inr e ↦ ground (arith, e, offset_at-set_offset_ne key other n os h)
]

-- A subagent's state, if it can be read, that has another key.
abbrev pub Elsewhere : (String → String) → String → Option LegacyState → Type 0
Elsewhere key_of key none = Unit
Elsewhere key_of key (some sub) = str_eq (key_of sub.jsonl_path) key ≡ false

offset_at-fold_offsets_ne :
    (key_of : String → String) (key : String) (subs : List (Option LegacyState)) (os : List Offset)
    → All (Elsewhere key_of key) subs
    → offset_at key (fold_offsets key_of subs os) ≡ offset_at key os
unfolding fold_offsets
offset_at-fold_offsets_ne key_of key [] os a = refl
offset_at-fold_offsets_ne key_of key (none ∷ subs) os a =
    offset_at-fold_offsets_ne key_of key subs os a.1
offset_at-fold_offsets_ne key_of key (some sub ∷ subs) os a =
    if_elim (λ (r : List Offset). offset_at key r ≡ offset_at key os) (str_eq sub.jsonl_path "")
      (fold_offsets key_of subs os)
      (fold_offsets key_of subs (set_offset (key_of sub.jsonl_path) sub.offset os))
      (λ e. offset_at-fold_offsets_ne key_of key subs os a.1)
      (λ e.
        offset_at-fold_offsets_ne key_of key subs (set_offset (key_of sub.jsonl_path) sub.offset os)
          a.1
        ∙ offset_at-set_offset_ne key (key_of sub.jsonl_path) sub.offset os a.0)

offset_at-fold_offsets :
    (key_of : String → String) (sub : LegacyState) (pre post : List (Option LegacyState))
    (os : List Offset)
    → str_eq sub.jsonl_path "" ≡ false
    → All (Elsewhere key_of (key_of sub.jsonl_path)) post
    → offset_at (key_of sub.jsonl_path) (fold_offsets key_of (pre ++ (some sub ∷ post)) os)
      ≡ sub.offset
unfolding fold_offsets
offset_at-fold_offsets key_of sub [] post os h a =
    if_elim (λ (r : List Offset). offset_at (key_of sub.jsonl_path) r ≡ sub.offset)
      (str_eq sub.jsonl_path "") (fold_offsets key_of post os)
      (fold_offsets key_of post (set_offset (key_of sub.jsonl_path) sub.offset os))
      (λ e. absurd (ground (arith, h, e)))
      (λ e.
        offset_at-fold_offsets_ne key_of (key_of sub.jsonl_path) post
          (set_offset (key_of sub.jsonl_path) sub.offset os) a
        ∙ offset_at-set_offset_self (key_of sub.jsonl_path) sub.offset os)
offset_at-fold_offsets key_of sub (none ∷ pre) post os h a =
    offset_at-fold_offsets key_of sub pre post os h a
offset_at-fold_offsets key_of sub (some x ∷ pre) post os h a =
    if_elim (λ (r : List Offset). offset_at (key_of sub.jsonl_path) r ≡ sub.offset)
      (str_eq x.jsonl_path "") (fold_offsets key_of (pre ++ (some sub ∷ post)) os)
      (fold_offsets key_of (pre ++ (some sub ∷ post))
        (set_offset (key_of x.jsonl_path) x.offset os))
      (λ e. offset_at-fold_offsets key_of sub pre post os h a)
      (λ e.
        offset_at-fold_offsets key_of sub pre post (set_offset (key_of x.jsonl_path) x.offset os) h
          a)

-- What a migrated state carries over of the parent's state and of a subagent's.
abbrev pub Carries : (String → String) → LegacyState → LegacyState → State → Type 0
Carries key_of legacy sub s =
    ((offset_at (key_of legacy.jsonl_path) s.offsets ≡ legacy.offset)
      × (s.legacy_parent_offset ≡ legacy.offset))
    × (offset_at (key_of sub.jsonl_path) s.offsets ≡ sub.offset)

-- Where no subagent has the parent's key, a migrated state has the parent's offset, under its own key and
-- under the one of 0.18, and the offset of every readable state of a subagent that is the last with its key.
pub migrate_legacy-Carries :
    (key_of : String → String) (id : String) (legacy sub : LegacyState)
    (pre post : List (Option LegacyState)) (s : State)
    → str_eq sub.jsonl_path "" ≡ false
    → All (Elsewhere key_of (key_of sub.jsonl_path)) post
    → All (Elsewhere key_of (key_of legacy.jsonl_path)) (pre ++ (some sub ∷ post))
    → migrate_legacy key_of id legacy (pre ++ (some sub ∷ post)) ≡ some s
    → Carries key_of legacy sub s
unfolding migrate_legacy saved
migrate_legacy-Carries key_of id legacy sub pre post s n a b h =
    let start = set_offset (key_of legacy.jsonl_path) legacy.offset [] in
    let p =
      offset_at-fold_offsets_ne key_of (key_of legacy.jsonl_path) (pre ++ (some sub ∷ post)) start b
      ∙ offset_at-set_offset_self (key_of legacy.jsonl_path) legacy.offset [] in
    let q = offset_at-fold_offsets key_of sub pre post start n a in
    elim (Bool-cases (str_eq legacy.jsonl_path "")) [
      | inl e ↦ absurd (ground (arith, h, e))
      | inr e ↦
          let m =
            saved (key_of legacy.jsonl_path)
              (migrated key_of id legacy (pre ++ (some sub ∷ post))) in
          let w : some m ≡ some s = ground (arith, h, e) in
          let v : m ≡ s = cc w in subst (Carries key_of legacy sub) v ((p, p), q)
    ]
