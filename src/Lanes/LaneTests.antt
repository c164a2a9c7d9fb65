-- ===== src/Lanes/LaneTests.antt =====
-- Tests of the registry and of the lanes of a worktree.
use homebrew_tools.Prelude.{
  ℕ, String, Bool, true, false, none, some, List, [], ◌∷◌, ◌≡◌, refl, str_eq, not, ◌&&◌,
  if◌then◌else◌, count,
}
use homebrew_tools.Lanes.Registry.{
  Entry, key_eq, same_key, add_one, add, renewed, refresh, remove, Change, adding, refreshing,
  removing, apply, Erased, erased, kept_failing, erase_registered,
}
use homebrew_tools.Lanes.Registry.Refines.{lookup, Views, promised_all, apply_all, apply_all-Views}
use homebrew_tools.Lanes.Registry.Erasing.{left, fails, erase_registered-Erases}
use homebrew_tools.Lanes.Lane.{
  Record, Observed, same_lane, check, refresh as refresh_lane, record_own, record_tip, newborn,
  birth_name,
}
use homebrew_tools.Lanes.Lane.Checks.{check_again, refresh_all, reset_seen}

abbrev database : String → String → ℕ → Entry
database name lane now = record {
  kind = "mysql";
  adapter = "mysql";
  resource = name;
  lane = lane;
  admin_dir = "/r/.git/worktrees/w";
  worktree = "/w";
  created_at = now;
  scripts = none;
  mysql = none;
}

abbrev changes : List Change
changes =
    adding (database "app_a" "a" 1 ∷ (database "app_b" "b" 1 ∷ []))
    ∷ (refreshing (database "app_a" "a" 5) ∷ (removing (database "app_b" "a" 0) ∷ []))

changes_run : apply_all changes [] ≡ database "app_a" "a" 1 ∷ []
unfolding apply add add_one refresh renewed remove same_key key_eq str_eq
changes_run = refl

nothing_there : Views [] (λ k. none)
unfolding lookup
nothing_there k = refl

apply_all-Views_example : Views (apply_all changes []) (promised_all changes (λ k. none))
apply_all-Views_example = apply_all-Views changes [] (λ k. none) nothing_there

abbrev stubborn : Entry → Erased
stubborn e = if str_eq e.resource "app_b" then kept_failing else erased

abbrev registered : List Entry
registered = database "app_a" "a" 1 ∷ (database "app_b" "b" 1 ∷ [])

erase_registered-Erases_example :
    ((erase_registered stubborn "/r/.git/worktrees/w" registered registered).0
      ≡ left stubborn "/r/.git/worktrees/w" registered registered)
    × ((erase_registered stubborn "/r/.git/worktrees/w" registered registered).1
        ≡ count (fails stubborn "/r/.git/worktrees/w") registered)
erase_registered-Erases_example =
    erase_registered-Erases stubborn "/r/.git/worktrees/w" registered registered

abbrev look : String → Bool → Observed
look tip own = record {
  branch = "feature";
  tip = tip;
  own_commits = own;
  own_known = true;
  renamed_from = λ b. false;
}

abbrev born : Record
born = record {
  id = "feature_1";
  branch = "feature";
  born_at = 3;
  last_tip = "c1";
  last_tip_had_own_commits = true;
  created = [];
  host = "";
  started_at = none;
}

born_run :
    (check (λ r. true) (λ b. "feature_1") 3 (some none) (some (look "c1" true))).saved
    ≡ some (born, true)
unfolding check refresh_lane record_own record_tip newborn birth_name str_eq
born_run = refl

check_again_example :
    check (λ r. true) (λ b. "feature_2") 4 (some (some born)) (some (look "c1" true))
    ≡ record { retiring = none; saved = some (born, false) }
check_again_example =
    check_again (λ r. true) (λ r. true) (λ b. "feature_1") (λ b. "feature_2") 3 4 none
      (look "c1" true) born true born_run

branch_run : str_eq "feature" "" ≡ false
unfolding str_eq
branch_run = refl

tip_run : str_eq "c1" "" ≡ false
unfolding str_eq
tip_run = refl

move_run : (not (str_eq "m1" "") && not (str_eq "m1" "c1")) ≡ true
unfolding str_eq
move_run = refl

reset_seen_example :
    same_lane
      (refresh_all (look "c1" false ∷ []) (refresh_lane born (look "c1" true)))
      (look "m1" false)
    ≡ false
reset_seen_example =
    reset_seen "feature" "c1" born (look "c1" true) (look "c1" false ∷ []) (look "m1" false)
      branch_run tip_run (refl, refl) refl ((refl, refl), tt) refl move_run refl
