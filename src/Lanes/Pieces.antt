-- ===== src/Lanes/Pieces.antt =====
-- internal/lanes/pc/pc.go: the states of a stack's pieces, and whether a start has succeeded (`Evaluate`).
pub mod Causes
pub mod Judging
use homebrew_tools.Prelude.{
  ℕ, String, Bool, true, false, not, ◌&&◌, ◌||◌, Option, none, some, List, [], ◌∷◌, ◌==◌, ltb,
  str_eq, if◌then◌else◌, ℤ, pos, negsuc,
}

pub record Piece : Type 0 where
  pub name : String
  pub status : String
  pub health : String
  pub has_health_probe : Bool
  pub restarts : ℕ
  pub exit_code : ℤ
  pub pid : ℕ
  pub is_running : Bool

abbrev pub disabled : String
disabled = "Disabled"

abbrev pub running : String
running = "Running"

abbrev pub completed : String
completed = "Completed"

abbrev pub error : String
error = "Error"

abbrev pub skipped : String
skipped = "Skipped"

abbrev pub ready : String
ready = "Ready"

-- The reasons of a failure, as their texts say them.
pub data Cause : Type 0 where
  failed_to_start : Cause
  exited : ℤ → Cause
  was_skipped : Cause
  restarted : ℕ → Cause

abbrev pub is_zero : ℤ → Bool
is_zero (pos n) = n == 0
is_zero (negsuc n) = false

-- The cases of the switch that fail, in its order.
unfoldable pub cause_of : Piece → Option Cause
cause_of s =
    if str_eq s.status disabled
    then none
    else (if str_eq s.status error
        then some failed_to_start
        else (if str_eq s.status completed && not (is_zero s.exit_code)
            then some (exited s.exit_code)
            else (if str_eq s.status skipped
                then some was_skipped
                else (if ltb 0 s.restarts then some (restarted s.restarts) else none))))

-- The cases that leave the stack ready, where none of those fails.
unfoldable pub settled : Piece → Bool
settled s =
    str_eq s.status disabled
    || str_eq s.status completed
    || (str_eq s.status running && (not s.has_health_probe || str_eq s.health ready))

-- The loop of `Evaluate`.
unfoldable pub evaluate_from : Bool → List Piece → Bool × Option (String × Cause)
evaluate_from ok [] = (ok, none)
evaluate_from ok (s ∷ ss) =
    let rest = evaluate_from (ok && settled s) ss in
    elim (cause_of s) [ none ↦ rest | some c ↦ (false, some (s.name, c)) ]

-- `Evaluate`
unfoldable pub evaluate : List Piece → Bool × Option (String × Cause)
evaluate states = evaluate_from true states

-- `KilledForMemory`, where tail_tells says whether the end of the log names the lack of memory.
unfoldable pub killed_for_memory : Piece → Bool → Bool
killed_for_memory s tail_tells =
    (elim s.exit_code [ pos n ↦ n == 137 | negsuc n ↦ n == 8 ]) || tail_tells
