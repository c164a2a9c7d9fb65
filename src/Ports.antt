-- ===== src/Ports.antt =====
-- internal/lanes/ports/ports.go: a block of ports for each worktree.
-- `busy` stands for the kernel's answers to `Busy`, and lo and hi for `Range`. A port is a number,
-- and an end is written without the subtraction: `e.End() < p` is `e.start + e.size ≤ p`.
pub mod Allocate
pub mod Ensure
mod Tests
use homebrew_tools.Prelude.{
  ℕ, zero, suc, ◌+◌, String, Bool, Option, none, some, List, [], ◌∷◌, ◌++◌, ◌&&◌, not, ltb, leb,
  str_eq, if◌then◌else◌, find, remove_at, keep,
}

pub record Entry : Type 0 where
  pub common_dir : String
  pub admin_dir : String
  pub worktree : String
  pub project : String
  pub start : ℕ
  pub size : ℕ

unfoldable pub entry_contains : Entry → ℕ → Bool
entry_contains e port = leb e.start port && ltb port (e.start + e.size)

-- `Find`.
unfoldable pub find_entry : String → List Entry → Option (ℕ × Entry)
find_entry admin_dir = find (λ e. str_eq e.admin_dir admin_dir)

unfoldable pub overlaps : ℕ → ℕ → Entry → Bool
overlaps start size e = ltb start (e.start + e.size) && ltb e.start (start + size)

unfoldable pub overlapping : List Entry → ℕ → ℕ → Option (ℕ × Entry)
overlapping entries start size = find (overlaps start size) entries

-- The loop from port p over the ports left.
unfoldable pub first_busy : (ℕ → Bool) → ℕ → ℕ → Option ℕ
first_busy busy p zero = none
first_busy busy p (suc n) = let rest = first_busy busy (suc p) n in if busy p then some p else rest

pub data Allocation : Type 0 where
  found : ℕ → Allocation
  exhausted out_of_fuel : Allocation

-- The loop of `allocate` at a start.
unfoldable pub allocate_from : ℕ → (ℕ → Bool) → ℕ → List Entry → ℕ → ℕ → Allocation
allocate_from zero busy hi entries size start = out_of_fuel
allocate_from (suc fuel) busy hi entries size start =
    let again = allocate_from fuel busy hi entries size in
    if ltb (hi + 1) (start + size) then exhausted else elim (overlapping entries start size) [
      | some (_, e) ↦ again (e.start + e.size)
      | none ↦ elim (first_busy busy start size) [ some p ↦ again (p + 1) | none ↦ found start ]
    ]

-- Each round moves the start up, so hi + 3 rounds suffice.
unfoldable pub allocate : (ℕ → Bool) → ℕ → ℕ → List Entry → ℕ → Allocation
allocate busy lo hi entries size = allocate_from (hi + 3) busy hi entries size lo

pub data Ensured : Type 0 where
  ok : List Entry → Entry → Ensured
  failed : Allocation → Ensured

unfoldable pub place : List Entry → Entry → Allocation → Ensured
place entries want (found start) =
    let placed : Entry = record want { start = start } in ok (entries ++ (placed ∷ [])) placed
place entries want a = failed a

-- The function that `Ensure` runs under the lock: the table and the worktree's entry.
unfoldable pub ensure : (ℕ → Bool) → ℕ → ℕ → Entry → List Entry → Ensured
unfolding place
ensure busy lo hi want entries = elim (find_entry want.admin_dir entries) [
  | none ↦ place entries want (allocate busy lo hi entries want.size)
  | some (i, e) ↦
      let rest = remove_at entries i in
      if leb want.size e.size
      then ok entries e
      else place rest want (allocate busy lo hi rest want.size)
]

unfoldable pub remove : String → List Entry → List Entry
remove admin_dir = keep (λ e. not (str_eq e.admin_dir admin_dir))
