-- ===== src/Ports/Ensure.antt =====
-- The table of port blocks: its invariant, and what `Ensure` and `Remove` promise.
use homebrew_tools.Prelude.{
  ℕ, suc, ◌≤◌, String, Bool, true, false, none, some, List, [], ◌∷◌, ◌++◌, ◌≡◌, sym, subst, leb,
  str_eq, str_eq-eq, str_eq_refl, find, find_sound, find-none, All, get_elem?, remove_at, arith,
  Bool-cases, Option-cases, inl, inr, ◌⊎◌, length, find-append, Pairs, Pairs-remove_at,
  Pairs-append,
}
use homebrew_tools.Ports.{
  Entry, overlaps, find_entry, Allocation, found, exhausted, out_of_fuel, allocate, ok, place,
  ensure,
}
use homebrew_tools.Ports.Allocate.{Answers, allocate-Answers}

-- Blocks do not overlap, and a worktree has one.
pub record IsValid (entries : List Entry) : Type 0 where
  pub disjoint : Pairs (λ e f. overlaps f.start f.size e ≡ false) entries
  pub keyed : Pairs (λ e f. str_eq e.admin_dir f.admin_dir ≡ false) entries

-- The worktree has no block in the table.
abbrev pub Absent : String → List Entry → Type 0
Absent dir entries = All (λ e. str_eq e.admin_dir dir ≡ false) entries

find_entry-none :
    (dir : String) (entries : List Entry) → find_entry dir entries ≡ none → Absent dir entries
unfolding find_entry
find_entry-none dir entries h = find-none (λ e. str_eq e.admin_dir dir) entries h

others-Absent :
    (dir : String) (x : Entry) (entries : List Entry)
    → str_eq x.admin_dir dir ≡ true
    → All (λ f. str_eq x.admin_dir f.admin_dir ≡ false) entries
    → Absent dir entries
others-Absent dir x [] h k = tt
others-Absent dir x (y ∷ ys) h k = (
  subst (λ (d : String). str_eq y.admin_dir d ≡ false) (str_eq-eq x.admin_dir dir h)
      (flip (Bool-cases (str_eq y.admin_dir x.admin_dir))),
  others-Absent dir x ys h k.1,
)
  where
    flip :
        (str_eq y.admin_dir x.admin_dir ≡ true) ⊎ (str_eq y.admin_dir x.admin_dir ≡ false)
        → str_eq y.admin_dir x.admin_dir ≡ false
    flip (inr e) = e
    flip (inl e) =
        let same : str_eq x.admin_dir y.admin_dir ≡ true =
          subst (λ (d : String). str_eq x.admin_dir d ≡ true)
            (sym (str_eq-eq y.admin_dir x.admin_dir e)) (str_eq_refl x.admin_dir) in
        absurd (ground (arith, same, k.0))

removed-Absent :
    (dir : String) (entries : List Entry) {i : ℕ} {e : Entry}
    → Pairs (λ e f. str_eq e.admin_dir f.admin_dir ≡ false) entries
    → find_entry dir entries ≡ some (i, e)
    → Absent dir (remove_at entries i)
unfolding find_entry find
removed-Absent dir [] v h = cc
removed-Absent dir (x ∷ xs) {i} {e} v h = elim (Bool-cases (str_eq x.admin_dir dir)) [
  | inl t ↦
      let first : 0 ≡ i = ground arith in
      subst (λ k. Absent dir (remove_at (x ∷ xs) k)) first (others-Absent dir x xs t v.0)
  | inr t ↦ elim (Option-cases (find_entry dir xs)) [
    | inl f ↦ absurd (ground arith)
    | inr ((k, y), f) ↦
        let later : suc k ≡ i = ground arith in
        subst (λ n. Absent dir (remove_at (x ∷ xs) n)) later (t, removed-Absent dir xs v.1 f)
  ]
]

place-IsValid :
    (busy : ℕ → Bool) (lo hi : ℕ) (want : Entry) (rest : List Entry) {table : List Entry}
    {got : Entry}
    → IsValid rest
    → Absent want.admin_dir rest
    → place rest want (allocate busy lo hi rest want.size) ≡ ok table got
    → IsValid table
unfolding place
place-IsValid busy lo hi want rest {table} {got} v absent h =
    by_answer (allocate busy lo hi rest want.size) (allocate-Answers busy lo hi rest want.size) h
  where
    by_answer :
        (a : Allocation)
        → Answers busy lo hi rest want.size a
        → place rest want a ≡ ok table got
        → IsValid table
    by_answer (found start) (above, inside, fits, least) e =
        let placed : Entry = record want { start = start } in
        let same : rest ++ (placed ∷ []) ≡ table = ground arith in
        subst IsValid same (record {
          disjoint =
              Pairs-append (λ e f. overlaps f.start f.size e ≡ false) rest placed v.disjoint
                fits.clear;
          keyed =
              Pairs-append (λ e f. str_eq e.admin_dir f.admin_dir ≡ false) rest placed v.keyed
                absent;
        })
    by_answer exhausted a e = cc
    by_answer out_of_fuel a e = cc

-- `Ensure` keeps the table valid: the blocks stay disjoint, one to a worktree, whether the block is
-- kept, allocated, or allocated again because a larger one is wanted.
pub ensure-IsValid :
    (busy : ℕ → Bool) (lo hi : ℕ) (want : Entry) (entries : List Entry) {table : List Entry}
    {got : Entry}
    → IsValid entries
    → ensure busy lo hi want entries ≡ ok table got
    → IsValid table
unfolding ensure
ensure-IsValid busy lo hi want entries {table} {got} v h =
    elim (Option-cases (find_entry want.admin_dir entries)) [
      | inl e ↦
          place-IsValid busy lo hi want entries v (find_entry-none want.admin_dir entries e)
            (rw (e, ensure) at h)
      | inr ((i, x), e) ↦ elim (Bool-cases (leb want.size x.size)) [
        | inl t ↦ let same : entries ≡ table = ground arith in subst IsValid same v
        | inr t ↦
            place-IsValid busy lo hi want (remove_at entries i) {table = table} {got = got}
              (record {
                disjoint =
                    Pairs-remove_at (λ e f. overlaps f.start f.size e ≡ false) entries i v.disjoint;
                keyed =
                    Pairs-remove_at (λ e f. str_eq e.admin_dir f.admin_dir ≡ false) entries i
                      v.keyed;
              })
              (removed-Absent want.admin_dir entries v.keyed e) (ground (arith))
      ]
    ]

-- How an entry serves a wish on a table.
abbrev pub Serves : Entry → List Entry → Entry → Type 0
Serves want table got =
    (want.size ≤ got.size)
    × (got.admin_dir ≡ want.admin_dir)
    × ((i : ℕ) × (get_elem? table i ≡ some got))
    × ((busy : ℕ → Bool) (lo hi : ℕ) → ensure busy lo hi want table ≡ ok table got)

kept-Serves :
    (want : Entry) (entries : List Entry) (i : ℕ) (x : Entry)
    → find_entry want.admin_dir entries ≡ some (i, x)
    → leb want.size x.size ≡ true
    → Serves want entries x
unfolding ensure find_entry
kept-Serves want entries i x e t =
    let (at, same) = find_sound (λ f. str_eq f.admin_dir want.admin_dir) entries e in
    (
      ground arith,
      str_eq-eq x.admin_dir want.admin_dir same,
      (i, at),
      λ busy lo hi. rw (e, ensure, t),
    )

placed-Serves :
    (want : Entry) (rest : List Entry) (start : ℕ)
    → Absent want.admin_dir rest
    → Serves want (rest ++ (record want { start = start } ∷ [])) (record want { start = start })
unfolding find_entry
placed-Serves want rest start absent =
    let placed : Entry = record want { start = start } in
    let (size, dir, at, again) =
      kept-Serves want (rest ++ (placed ∷ [])) (length rest) placed
        (find-append (λ f. str_eq f.admin_dir want.admin_dir) rest placed absent
          (str_eq_refl want.admin_dir))
        (ground arith) in
    (size, dir, at, again)

place-Serves :
    (want : Entry) (rest : List Entry) (a : Allocation) {table : List Entry} {got : Entry}
    → Absent want.admin_dir rest
    → place rest want a ≡ ok table got
    → Serves want table got
unfolding place
place-Serves want rest (found start) {table} {got} absent h =
    let placed : Entry = record want { start = start } in
    let same : rest ++ (placed ∷ []) ≡ table = ground arith in
    let it : placed ≡ got = ground arith in
    subst (Serves want table) it
      (subst (λ (t : List Entry). Serves want t placed) same (placed-Serves want rest start absent))
place-Serves want rest exhausted absent h = cc
place-Serves want rest out_of_fuel absent h = cc

-- On a valid table the block handed out is the table's, belongs to the worktree and is large enough,
-- and a second `Ensure` of the same wish, whatever ports are busy by then, hands it out again and
-- changes nothing.
pub ensure-Serves :
    (busy : ℕ → Bool) (lo hi : ℕ) (want : Entry) (entries : List Entry) {table : List Entry}
    {got : Entry}
    → IsValid entries
    → ensure busy lo hi want entries ≡ ok table got
    → Serves want table got
unfolding ensure
ensure-Serves busy lo hi want entries {table} {got} v h =
    elim (Option-cases (find_entry want.admin_dir entries)) [
      | inl e ↦
          place-Serves want entries _ (find_entry-none want.admin_dir entries e)
            (rw (e, ensure) at h)
      | inr ((i, x), e) ↦ elim (Bool-cases (leb want.size x.size)) [
        | inl t ↦
            let same : entries ≡ table = ground arith in
            let it : x ≡ got = ground arith in
            subst (Serves want table) it
              (subst (λ (u : List Entry). Serves want u x) same (kept-Serves want entries i x e t))
        | inr t ↦
            place-Serves want (remove_at entries i)
              (allocate busy lo hi (remove_at entries i) want.size) {table = table} {got = got}
              (removed-Absent want.admin_dir entries v.keyed e) (ground arith)
      ]
    ]
