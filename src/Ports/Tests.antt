-- ===== src/Ports/Tests.antt =====
-- Runs of the allocator of internal/lanes/ports on a table of two blocks.
use homebrew_tools.Prelude.{ℕ, String, Bool, List, [], ◌∷◌, ◌==◌, ◌≡◌, refl, str_eq, find}
use homebrew_tools.Ports.{
  Entry, found, ok, ensure, allocate, allocate_from, overlapping, overlaps, first_busy, find_entry,
}
use homebrew_tools.Ports.Allocate.{Answers, allocate-Answers}
use homebrew_tools.Ports.Ensure.{IsValid, ensure-IsValid, Serves, ensure-Serves}

abbrev block : String → ℕ → ℕ → Entry
block dir start size = record {
  common_dir = "repo";
  admin_dir = dir;
  worktree = dir;
  project = "shop";
  start = start;
  size = size;
}

abbrev table : List Entry
table = block "a" 20000 10 ∷ (block "b" 20010 4 ∷ [])

-- Another program listens on 20014.
abbrev busy : ℕ → Bool
busy p = p == 20014

allocate_first : allocate busy 20000 20100 table 5 ≡ found 20015
unfolding allocate allocate_from overlapping find overlaps first_busy
allocate_first = refl

table-IsValid : IsValid table
unfolding overlaps str_eq
table-IsValid = record { disjoint = ((refl, tt), (tt, tt)); keyed = ((refl, tt), (tt, tt)) }

abbrev grown : List Entry
grown = block "a" 20000 10 ∷ (block "b" 20010 4 ∷ (block "c" 20015 5 ∷ []))

ensure-grown : ensure busy 20000 20100 (block "c" 0 5) table ≡ ok grown (block "c" 20015 5)
unfolding ensure find_entry find str_eq allocate allocate_from overlapping overlaps first_busy
ensure-grown = refl

allocate-Answers_example : Answers busy 20000 20100 table 5 (allocate busy 20000 20100 table 5)
allocate-Answers_example = allocate-Answers busy 20000 20100 table 5

ensure-IsValid_example : IsValid grown
ensure-IsValid_example =
    ensure-IsValid busy 20000 20100 (block "c" 0 5) table table-IsValid ensure-grown

ensure-Serves_example : Serves (block "c" 0 5) grown (block "c" 20015 5)
ensure-Serves_example =
    ensure-Serves busy 20000 20100 (block "c" 0 5) table table-IsValid ensure-grown
