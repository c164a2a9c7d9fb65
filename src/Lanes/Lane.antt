-- ===== src/Lanes/Lane.antt =====
-- internal/lanes/lane/lane.go: the lane of a worktree, from its birth on a branch to the check that
-- replaces it. A time is a number, and the ID of a new lane, which is random, is an argument.
pub mod Checks
use homebrew_tools.Prelude.{
  ℕ, String, Bool, true, false, not, ◌&&◌, ◌||◌, Option, none, some, List, [], ◌∷◌, ◌++◌, str_eq,
  if◌then◌else◌, any, is_some,
}

pub record Record : Type 0 where
  pub id : String
  pub branch : String
  pub born_at : ℕ
  pub last_tip : String
  pub last_tip_had_own_commits : Bool
  pub created : List String
  pub host : String
  pub started_at : Option ℕ

unfoldable pub has_created : Record → String → Bool
has_created r adapter = any (λ a. str_eq a adapter) r.created

-- What git says of the worktree; an empty branch is a detached head.
pub record Observed : Type 0 where
  pub branch : String
  pub tip : String
  pub own_commits : Bool
  pub own_known : Bool
  pub renamed_from : String → Bool

unfoldable pub birth_name : Observed → String
birth_name o = if str_eq o.branch "" then "detached" else o.branch

unfoldable pub reset_to_default : Record → Observed → Bool
reset_to_default rec o =
    not (str_eq rec.last_tip "")
    && not (str_eq o.tip "")
    && not (str_eq o.tip rec.last_tip)
    && rec.last_tip_had_own_commits
    && o.own_known
    && not o.own_commits

unfoldable pub same_lane : Record → Observed → Bool
same_lane rec o =
    if str_eq o.branch "" || str_eq rec.branch ""
    then true
    else (if str_eq o.branch rec.branch
        then not (reset_to_default rec o)
        else o.renamed_from rec.branch)

-- The tip that `refresh` records.
unfoldable pub record_tip : Observed → Record → Record
record_tip o rec =
    if not (str_eq o.tip "") && not (str_eq o.tip rec.last_tip)
    then record rec { last_tip = o.tip; last_tip_had_own_commits = false }
    else rec

unfoldable pub record_own : Observed → Record → Record
record_own o rec =
    if not (str_eq o.tip "") && o.own_known && o.own_commits
    then record rec { last_tip_had_own_commits = true }
    else rec

unfoldable pub refresh : Record → Observed → Record
refresh rec o =
    if str_eq o.branch ""
    then rec
    else record_own o (record_tip o (record rec { branch = o.branch }))

unfoldable pub newborn : String → ℕ → Observed → Record
newborn id now o = record {
  id = id;
  branch = o.branch;
  born_at = now;
  last_tip = "";
  last_tip_had_own_commits = false;
  created = [];
  host = "";
  started_at = none;
}

-- What a check does: the lane that it retires, and the record that it saves, with whether it is new.
pub record Checked : Type 0 where
  pub retiring : Option Record
  pub saved : Option (Record × Bool)

-- `Check` under its lock, where a read or a look at git that fails is `none`, new_id makes an ID of the
-- name of a branch, and retire says whether the old lane could be retired.
unfoldable pub check :
    (Record → Bool) → (String → String) → ℕ → Option (Option Record) → Option Observed → Checked
check retire new_id now none state = record { retiring = none; saved = none }
check retire new_id now (some cur) none = record { retiring = none; saved = none }
check retire new_id now (some none) (some o) = record {
  retiring = none;
  saved = some (refresh (newborn (new_id (birth_name o)) now o) o, true);
}
check retire new_id now (some (some rec)) (some o) =
    if same_lane rec o
    then record { retiring = none; saved = some (refresh rec o, false) }
    else record {
      retiring = some rec;
      saved =
          if retire rec
          then some (refresh (newborn (new_id (birth_name o)) now o) o, true)
          else none;
    }

-- The updates of a lane's record: whether they succeed, and the record that they save.
pub record Update : Type 0 where
  pub fails : Bool
  pub saved : Option Record

abbrev unchanged : Update
unchanged = record { fails = false; saved = none }

-- `SetHost`
unfoldable pub set_host : String → String → Option (Option Record) → Update
set_host lane host (some (some cur)) =
    if str_eq cur.id lane
    then record { fails = false; saved = some (record cur { host = host }) }
    else record { fails = true; saved = none }
set_host lane host _ = record { fails = true; saved = none }

-- `MarkCreated`
unfoldable pub mark_created : String → String → Option (Option Record) → Update
mark_created lane adapter none = record { fails = true; saved = none }
mark_created lane adapter (some none) = unchanged
mark_created lane adapter (some (some cur)) =
    if not (str_eq cur.id lane) || has_created cur adapter then unchanged else record {
      fails = false;
      saved = some (record cur { created = cur.created ++ (adapter ∷ []) });
    }

-- `MarkStarted`
unfoldable pub mark_started : String → ℕ → Option (Option Record) → Update
mark_started lane now none = record { fails = true; saved = none }
mark_started lane now (some none) = unchanged
mark_started lane now (some (some cur)) =
    if not (str_eq cur.id lane) || is_some cur.started_at
    then unchanged
    else record { fails = false; saved = some (record cur { started_at = some now }) }
