-- ===== src/Lanes/Pieces/Judging.antt =====
-- internal/lanes/pc/pc.go: `Evaluate` judges all pieces, and blames the first that fails.
use homebrew_tools.Prelude.{
  String, Bool, true, false, ◌&&◌, Option, none, some, List, [], ◌∷◌, ◌++◌, All, ◌≡◌, refl, ap, ◌⊎◌,
  inl, inr, arith, option_elim,
}
use homebrew_tools.Lanes.Pieces.Causes.{
  IsUp, Fails, Unfailing, cause_of-Fails, cause_of-Unfailing, settled-IsUp, IsUp-settled,
}
use homebrew_tools.Lanes.Pieces.{Piece, Cause, cause_of, settled, evaluate_from, evaluate}

-- The first piece that fails.
pub record First (states : List Piece) (name : String) (c : Cause) : Type 0 where
  pub before : List Piece
  pub piece : Piece
  pub after : List Piece
  pub split : states ≡ before ++ (piece ∷ after)
  pub none_before : All Unfailing before
  pub blamed : (name ≡ piece.name) × Fails piece c

abbrev pub Follows : Bool → List Piece → Bool → Type 0
Follows ok states r =
    (r ≡ true → (ok ≡ true) × All IsUp states) × (ok ≡ true → All IsUp states → r ≡ true)

abbrev pub Judged : Bool → List Piece → Bool × Option (String × Cause) → Type 0
Judged ok states r =
    ((r.1 ≡ none) × All Unfailing states × Follows ok states r.0)
    ⊎ ((f : String × Cause) × (r ≡ (false, some f)) × First states f.0 f.1)

passed-Judged :
    (ok : Bool) (p : Piece) (ps : List Piece) (r : Bool × Option (String × Cause))
    → cause_of p ≡ none
    → Judged (ok && settled p) ps r
    → Judged ok (p ∷ ps) r
passed-Judged ok p ps r e (inl (q, u, (f, g))) = inl (
  q,
  (cause_of-Unfailing p e, u),
  (
    λ t. let (b, us) = f t in (ground (arith, b), (settled-IsUp p e (ground (arith, b)), us)),
    λ o a. let s = IsUp-settled p a.0 in g (ground (arith, o, s)) a.1,
  ),
)
passed-Judged ok p ps r e (inr (f, q, w)) = inr (
  f,
  q,
  record {
    before = p ∷ w.before;
    piece = w.piece;
    after = w.after;
    split = ap (◌∷◌ p) w.split;
    none_before = (cause_of-Unfailing p e, w.none_before);
    blamed = w.blamed;
  },
)

evaluate_from-Judged :
    (ok : Bool) (states : List Piece) → Judged ok states (evaluate_from ok states)
unfolding evaluate_from
evaluate_from-Judged ok [] = inl (refl, tt, (λ t. (t, tt), λ t u. t))
evaluate_from-Judged ok (p ∷ ps) =
    option_elim (Judged ok (p ∷ ps)) (cause_of p) (evaluate_from (ok && settled p) ps)
      (λ c. (false, some (p.name, c)))
      (λ e.
        passed-Judged ok p ps (evaluate_from (ok && settled p) ps) e
          (evaluate_from-Judged (ok && settled p) ps))
      (λ c e. inr (
        (p.name, c),
        refl,
        record {
          before = [];
          piece = p;
          after = ps;
          split = refl;
          none_before = tt;
          blamed = (refl, cause_of-Fails p c e);
        },
      ))

-- Either no piece fails, and the stack is ready just when every piece is up: disabled, completed with
-- code 0, or running and healthy where it has a probe, and never restarted unless disabled. Or the stack
-- is not ready, and the failure is the first piece that fails, with its cause.
pub evaluate-Judged : (states : List Piece) → Judged true states (evaluate states)
unfolding evaluate
evaluate-Judged states = evaluate_from-Judged true states
