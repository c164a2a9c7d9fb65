-- ===== src/Lanes/PieceTests.antt =====
-- Tests of the judgement of a start.
use homebrew_tools.Prelude.{String, true, false, some, List, [], ◌∷◌, ◌≡◌, refl, pos, ℕ, str_eq}
use homebrew_tools.Lanes.Pieces.{
  Piece, exited, cause_of, settled, evaluate_from, evaluate, running, completed,
}
use homebrew_tools.Lanes.Pieces.Judging.{Judged, evaluate-Judged}

abbrev piece : String → String → ℕ → Piece
piece name status code = record {
  name = name;
  status = status;
  health = "";
  has_health_probe = false;
  restarts = 0;
  exit_code = pos code;
  pid = 1;
  is_running = true;
}

abbrev failing : List Piece
failing = piece "web" running 0 ∷ (piece "migrate" completed 2 ∷ (piece "api" completed 3 ∷ []))

evaluate_run : evaluate failing ≡ (false, some ("migrate", exited (pos 2)))
unfolding evaluate evaluate_from cause_of settled str_eq
evaluate_run = refl

evaluate-Judged_example : Judged true failing (evaluate failing)
evaluate-Judged_example = evaluate-Judged failing
