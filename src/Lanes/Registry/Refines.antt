-- ===== src/Lanes/Registry/Refines.antt =====
-- internal/lanes/registry/registry.go: the list of entries implements a map from keys to entries.
use homebrew_tools.Prelude.{
  String, Bool, true, false, not, ◌&&◌, Option, none, some, List, [], ◌∷◌, ◌++◌, str_eq,
  if◌then◌else◌, any, is_some, Bool-cases, inl, inr, ◌≡◌, refl, sym, ap, ◌∙◌, subst, if_elim, arith,
  str_eq-eq, str_eq_refl,
}
use homebrew_tools.Lanes.Registry.{
  Entry, Key, key_of, key_eq, same_key, add_one, add, renewed, refresh, remove, Change, adding,
  refreshing, removing, apply,
}

-- The entry with a key.
unfoldable pub lookup : Key → List Entry → Option Entry
lookup k [] = none
lookup k (c ∷ cs) = if key_eq (key_of c) k then some c else lookup k cs

-- The map that a registry stands for, and what each change promises of it.
abbrev pub View : Type 0
View = Key → Option Entry

abbrev pub or_insert : Entry → Option Entry → Option Entry
or_insert e none = some e
or_insert e (some c) = some c

abbrev pub or_renew : Entry → Option Entry → Option Entry
or_renew e none = some e
or_renew e (some c) = some (renewed e c)

abbrev pub at_key : Entry → (Option Entry → Option Entry) → View → View
at_key e f m k = if key_eq (key_of e) k then f (m k) else m k

abbrev pub insert_all : List Entry → View → View
insert_all [] m = m
insert_all (e ∷ es) m = insert_all es (at_key e (or_insert e) m)

abbrev pub promised : Change → View → View
promised (adding es) m = insert_all es m
promised (refreshing e) m = at_key e (or_renew e) m
promised (removing e) m = at_key e (λ o. none) m

abbrev pub Views : List Entry → View → Type 0
Views es m = (k : Key) → lookup k es ≡ m k

key_eq-eq : (a b : Key) → key_eq a b ≡ true → a ≡ b
unfolding key_eq
key_eq-eq a b h =
    let x : a.kind ≡ b.kind = str_eq-eq a.kind b.kind (ground (arith, h)) in
    let y : a.adapter ≡ b.adapter = str_eq-eq a.adapter b.adapter (ground (arith, h)) in
    let z : a.resource ≡ b.resource = str_eq-eq a.resource b.resource (ground (arith, h)) in
    ap (λ (t : String). record { kind = t; adapter = a.adapter; resource = a.resource }) x
    ∙ (ap (λ (t : String). record { kind = b.kind; adapter = t; resource = a.resource }) y
        ∙ ap (λ (t : String). record { kind = b.kind; adapter = b.adapter; resource = t }) z)

key_eq_refl : (a : Key) → key_eq a a ≡ true
unfolding key_eq
key_eq_refl a = ground (arith, str_eq_refl a.kind, str_eq_refl a.adapter, str_eq_refl a.resource)

lookup-append :
    (k : Key) (cs : List Entry) (e : Entry)
    → lookup k (cs ++ (e ∷ [])) ≡ (elim (lookup k cs) [
      | none ↦ (if key_eq (key_of e) k then some e else none)
      | some c ↦ some c
    ])
unfolding lookup
lookup-append k [] e = refl
lookup-append k (c ∷ cs) e = ground (arith, lookup-append k cs e)

any-lookup :
    (e : Entry) (cs : List Entry) → any (λ c. same_key c e) cs ≡ is_some (lookup (key_of e) cs)
unfolding lookup same_key
any-lookup e [] = refl
any-lookup e (c ∷ cs) = ground (arith, any-lookup e cs)

-- Adding an entry.
inserts : (e : Entry) (o : Option Entry) → is_some o ≡ true → o ≡ or_insert e o
inserts e none h = absurd (ground (arith, h))
inserts e (some c) h = refl

inserted :
    (b : Bool) (e : Entry) (o : Option Entry)
    → is_some o ≡ false
    → (elim o [ none ↦ (if b then some e else none) | some c ↦ some c ])
      ≡ (if b then or_insert e o else o)
inserted b e none h = refl
inserted b e (some c) h = absurd (ground (arith, h))

missed : (e : Entry) (o : Option Entry) → (elim o [ none ↦ none | some c ↦ some c ]) ≡ o
missed e none = refl
missed e (some c) = refl

known_at :
    (b : Bool) (e : Entry) (cs : List Entry) (k : Key)
    → any (λ c. same_key c e) cs ≡ b
    → key_eq (key_of e) k ≡ true
    → is_some (lookup k cs) ≡ b
known_at b e cs k a q =
    subst (λ (j : Key). is_some (lookup j cs) ≡ b) (key_eq-eq (key_of e) k q)
      (sym (any-lookup e cs) ∙ a)

if_true : (b : Bool) (x y : Option Entry) → b ≡ true → x ≡ y → x ≡ (if b then y else x)
if_true b x y h e = ground (arith, h, e)

lookup-add_one :
    (cs : List Entry) (e : Entry) (k : Key)
    → lookup k (add_one cs e) ≡ at_key e (or_insert e) (λ j. lookup j cs) k
unfolding add_one
lookup-add_one cs e k =
    if_elim (λ (l : List Entry). lookup k l ≡ at_key e (or_insert e) (λ j. lookup j cs) k)
      (any (λ c. same_key c e) cs) cs (cs ++ (e ∷ []))
      (λ a. elim (Bool-cases (key_eq (key_of e) k)) [
        | inl q ↦
            let w = inserts e (lookup k cs) (known_at true e cs k a q) in
            if_true (key_eq (key_of e) k) (lookup k cs) (or_insert e (lookup k cs)) q w
        | inr q ↦ ground (arith, q)
      ])
      (λ a. elim (Bool-cases (key_eq (key_of e) k)) [
        | inl q ↦
            lookup-append k cs e
            ∙ inserted (key_eq (key_of e) k) e (lookup k cs) (known_at false e cs k a q)
        | inr q ↦ lookup-append k cs e ∙ ground (arith, q, missed e (lookup k cs))
      ])

same_key-key_eq :
    (c e : Entry) (k : Key) → same_key c e ≡ true → key_eq (key_of c) k ≡ key_eq (key_of e) k
unfolding same_key
same_key-key_eq c e k h = ap (λ (j : Key). key_eq j k) (key_eq-eq (key_of c) (key_of e) h)

apart :
    (c e : Entry) (k : Key)
    → same_key c e ≡ false
    → key_eq (key_of e) k ≡ true
    → key_eq (key_of c) k ≡ false
unfolding same_key
apart c e k h q = subst (λ (j : Key). key_eq (key_of c) j ≡ false) (key_eq-eq (key_of e) k q) h

renewed-key :
    (c e : Entry) (k : Key)
    → same_key c e ≡ true
    → key_eq (key_of (renewed e c)) k ≡ key_eq (key_of e) k
unfolding renewed
renewed-key c e k h =
    if_elim (λ (x : Entry). key_eq (key_of x) k ≡ key_eq (key_of e) k)
      (str_eq c.lane e.lane && str_eq c.admin_dir e.admin_dir)
      (record e { created_at = c.created_at }) c (λ b. refl) (λ b. same_key-key_eq c e k h)

lookup-refresh :
    (cs : List Entry) (e : Entry) (k : Key)
    → lookup k (refresh e cs) ≡ at_key e (or_renew e) (λ j. lookup j cs) k
unfolding refresh lookup
lookup-refresh [] e k = refl
lookup-refresh (c ∷ cs) e k =
    if_elim (λ (l : List Entry). lookup k l ≡ at_key e (or_renew e) (λ j. lookup j (c ∷ cs)) k)
      (same_key c e) (renewed e c ∷ cs) (c ∷ refresh e cs)
      (λ b. ground (arith, renewed-key c e k b, same_key-key_eq c e k b))
      (λ b. let a = apart c e k b in ground (arith, a, lookup-refresh cs e k))

lookup-remove :
    (cs : List Entry) (e : Entry) (k : Key)
    → lookup k (remove e cs) ≡ at_key e (λ o. none) (λ j. lookup j cs) k
unfolding remove lookup
lookup-remove [] e k = ground arith
lookup-remove (c ∷ cs) e k =
    if_elim (λ (l : List Entry). lookup k l ≡ at_key e (λ o. none) (λ j. lookup j (c ∷ cs)) k)
      (not (same_key c e)) (c ∷ remove e cs) (remove e cs)
      (λ b. let a = apart c e k (ground (arith, b)) in ground (arith, a, lookup-remove cs e k))
      (λ b.
        let a = same_key-key_eq c e k (ground (arith, b)) in
        ground (arith, a, lookup-remove cs e k))

-- The map after a change depends on the map before only.
at_key-Views :
    (cs ds : List Entry) (e : Entry) (f : Option Entry → Option Entry) (m : View)
    → ((k : Key) → lookup k ds ≡ at_key e f (λ j. lookup j cs) k)
    → Views cs m
    → Views ds (at_key e f m)
at_key-Views cs ds e f m h v k = h k ∙ ground (arith, v k)

add-Views : (es cs : List Entry) (m : View) → Views cs m → Views (add cs es) (insert_all es m)
unfolding add
add-Views [] cs m v = v
add-Views (e ∷ es) cs m v =
    add-Views es (add_one cs e) (at_key e (or_insert e) m)
      (at_key-Views cs (add_one cs e) e (or_insert e) m (lookup-add_one cs e) v)

apply-Views :
    (c : Change) (cs : List Entry) (m : View) → Views cs m → Views (apply c cs) (promised c m)
unfolding apply
apply-Views (adding es) cs m v = add-Views es cs m v
apply-Views (refreshing e) cs m v =
    at_key-Views cs (refresh e cs) e (or_renew e) m (lookup-refresh cs e) v
apply-Views (removing e) cs m v =
    at_key-Views cs (remove e cs) e (λ o. none) m (lookup-remove cs e) v

-- Changes, one after another.
abbrev pub apply_all : List Change → List Entry → List Entry
apply_all [] cs = cs
apply_all (c ∷ rest) cs = apply_all rest (apply c cs)

abbrev pub promised_all : List Change → View → View
promised_all [] m = m
promised_all (c ∷ rest) m = promised_all rest (promised c m)

-- The registry refines a map from keys to entries: after any additions, refreshes and removals, the entry
-- under a key is the one that the map has after inserting where there was none, renewing, and deleting.
pub apply_all-Views :
    (changes : List Change) (cs : List Entry) (m : View)
    → Views cs m
    → Views (apply_all changes cs) (promised_all changes m)
apply_all-Views [] cs m v = v
apply_all-Views (c ∷ rest) cs m v =
    apply_all-Views rest (apply c cs) (promised c m) (apply-Views c cs m v)
