-- ===== src/Lanes/Procs.antt =====
-- internal/lanes/procinfo/procinfo.go: a snapshot of the processes, and how they are named.
use homebrew_tools.Prelude.{
  ℕ, String, Bool, false, not, ◌&&◌, ◌||◌, Option, none, some, List, [], ◌∷◌, ◌==◌, str_eq,
  if◌then◌else◌, any, has_prefix, has_suffix, trim_prefix, base,
}
use Prim.Native.String.{◌++◌ as append_text}

pub record Proc : Type 0 where
  pub pid : ℕ
  pub ppid : ℕ
  pub pgid : ℕ
  pub comm : String
  pub argv : List String
  pub cwd : String

abbrev pub shells : List String
shells = "sh" ∷ "bash" ∷ "zsh" ∷ "fish" ∷ "dash" ∷ "nu" ∷ []

unfoldable pub names_of : String → List String → List String
names_of comm [] = comm ∷ []
names_of comm (a ∷ argv) = if str_eq (base a) comm then comm ∷ [] else comm ∷ (base a ∷ [])

-- `Names`
unfoldable pub names : Proc → List String
names p = names_of p.comm p.argv

unfoldable pub goes_by : List String → String → Bool
goes_by ns want = any (λ n. str_eq n want || str_eq (trim_prefix n "-") want) ns

-- `NamedAs`
unfoldable pub named_as : List String → Proc → Bool
named_as wanted p = any (goes_by (names p)) wanted

unfoldable pub arguments : List String → List String
arguments [] = []
arguments (a ∷ argv) = argv

unfoldable pub runs_as : List String → String → Bool
runs_as argv want =
    any
      (λ a.
        str_eq a want || has_suffix a (append_text "/" want) || has_suffix a (append_text "." want))
      argv

-- `Runs`
unfoldable pub runs : List String → Proc → Bool
runs wanted p = named_as wanted p || any (runs_as (arguments p.argv)) wanted

-- `Under`
unfoldable pub under : String → Proc → Bool
under dir p = not (str_eq p.cwd "") && (str_eq p.cwd dir || has_prefix p.cwd (append_text dir "/"))

-- A lookup in the map `ByPID`: of processes with the same ID, the last one.
unfoldable pub by_pid : List Proc → ℕ → Option Proc
by_pid [] pid = none
by_pid (p ∷ ps) pid = elim (by_pid ps pid) [
  | some q ↦ some q
  | none ↦ if p.pid == pid then some p else none
]

-- A map from process IDs to Booleans is the list of the IDs that it holds.
unfoldable pub holds : ℕ → List ℕ → Bool
holds n [] = false
holds n (m ∷ ms) = (m == n) || holds n ms
