-- ===== src/Lanes/Pieces/Causes.antt =====
-- internal/lanes/pc/pc.go: which pieces make a start fail, and which are up, by the switch of `Evaluate`.
use homebrew_tools.Prelude.{
  ℕ, ◌<◌, String, Bool, true, false, not, ◌&&◌, ltb, none, some, ◌≡◌, ◌≢◌, refl, sym, ◌∙◌, subst,
  ap, inl, inr, arith, str_eq, str_eq-eq, str_eq_refl, Bool-cases, ℤ, pos, negsuc,
}
use homebrew_tools.Lanes.Pieces.{
  Piece, Cause, failed_to_start, exited, was_skipped, restarted, is_zero, cause_of, settled,
  disabled, running, completed, error, skipped, ready,
}

-- A piece that is as far as a start takes it.
pub data IsUp (p : Piece) : Type 0 where
  is_disabled : p.status ≡ "Disabled" → IsUp p
  is_done : p.status ≡ "Completed" → p.exit_code ≡ pos 0 → p.restarts ≡ 0 → IsUp p
  runs_unprobed : p.status ≡ "Running" → p.has_health_probe ≡ false → p.restarts ≡ 0 → IsUp p
  runs_healthy : p.status ≡ "Running" → p.health ≡ "Ready" → p.restarts ≡ 0 → IsUp p

-- A piece that makes a start fail, and why: a restart counts where nothing worse is known of the piece.
pub data Fails (p : Piece) : Cause → Type 0 where
  broken : p.status ≡ "Error" → Fails p failed_to_start
  ended :
      {code : ℤ}
      → p.status ≡ "Completed"
      → p.exit_code ≡ code
      → code ≢ pos 0
      → Fails p (exited code)
  unstarted : p.status ≡ "Skipped" → Fails p was_skipped
  died :
      {n : ℕ}
      → p.status ≢ "Disabled"
      → p.status ≢ "Error"
      → p.status ≢ "Skipped"
      → (p.status ≡ "Completed" → p.exit_code ≡ pos 0)
      → p.restarts ≡ n
      → 0 < n
      → Fails p (restarted n)

abbrev pub Unfailing : Piece → Type 0
Unfailing p = (c : Cause) → ¬ Fails p c

str_ne : (s t : String) → str_eq s t ≡ false → s ≢ t
str_ne s t h e =
    let k : str_eq s t ≡ true = subst (λ (x : String). str_eq s x ≡ true) e (str_eq_refl s) in
    absurd (ground (arith, h, k))

-- What the tests of the switch say of a status that is known.
record Tests (t : String) (d e c k r : Bool) : Type 0 where
  of_disabled : str_eq t disabled ≡ d
  of_error : str_eq t error ≡ e
  of_completed : str_eq t completed ≡ c
  of_skipped : str_eq t skipped ≡ k
  of_running : str_eq t running ≡ r

disabled-Tests : Tests "Disabled" true false false false false
unfolding str_eq
disabled-Tests = record {
  of_disabled = refl;
  of_error = refl;
  of_completed = refl;
  of_skipped = refl;
  of_running = refl;
}

error-Tests : Tests "Error" false true false false false
unfolding str_eq
error-Tests = record {
  of_disabled = refl;
  of_error = refl;
  of_completed = refl;
  of_skipped = refl;
  of_running = refl;
}

completed-Tests : Tests "Completed" false false true false false
unfolding str_eq
completed-Tests = record {
  of_disabled = refl;
  of_error = refl;
  of_completed = refl;
  of_skipped = refl;
  of_running = refl;
}

skipped-Tests : Tests "Skipped" false false false true false
unfolding str_eq
skipped-Tests = record {
  of_disabled = refl;
  of_error = refl;
  of_completed = refl;
  of_skipped = refl;
  of_running = refl;
}

running-Tests : Tests "Running" false false false false true
unfolding str_eq
running-Tests = record {
  of_disabled = refl;
  of_error = refl;
  of_completed = refl;
  of_skipped = refl;
  of_running = refl;
}

subst-Tests :
    {t : String} {d e c k r : Bool} (s : String) → s ≡ t → Tests t d e c k r → Tests s d e c k r
subst-Tests {d = d} {e = e} {c = c} {k = k} {r = r} s q w =
    subst (λ (x : String). Tests x d e c k r) (sym q) w

zero_code : (z : ℤ) → is_zero z ≡ true → z ≡ pos 0
zero_code (pos n) h = ap pos (ground (arith, h))
zero_code (negsuc n) h = absurd (ground (arith, h))

code_zero : (z : ℤ) → z ≡ pos 0 → is_zero z ≡ true
code_zero z e = subst (λ (x : ℤ). is_zero x ≡ true) (sym e) refl

ne_test : (s t : String) → s ≢ t → str_eq s t ≡ false
ne_test s t n = elim (Bool-cases (str_eq s t)) [ inl e ↦ absurd (n (str_eq-eq s t e)) | inr e ↦ e ]

-- A completed piece that the switch does not fail has exited with code 0.
finished :
    (p : Piece)
    → (str_eq p.status completed && not (is_zero p.exit_code)) ≡ false
    → p.status ≡ "Completed"
    → p.exit_code ≡ pos 0
finished p x e =
    let w = subst-Tests p.status e completed-Tests in
    zero_code p.exit_code (ground (arith, x, w.of_completed))

-- The switch finds each cause of a failure.
pub Fails-cause_of : (p : Piece) (c : Cause) → Fails p c → cause_of p ≡ some c
unfolding cause_of
Fails-cause_of p c (broken e) =
    let w = subst-Tests p.status e error-Tests in ground (arith, w.of_disabled, w.of_error)
Fails-cause_of p c (unstarted e) =
    let w = subst-Tests p.status e skipped-Tests in
    ground (arith, w.of_disabled, w.of_error, w.of_completed, w.of_skipped)
Fails-cause_of p c (ended {code = code} e q n) =
    let w = subst-Tests p.status e completed-Tests in
    let z : is_zero p.exit_code ≡ false = elim (Bool-cases (is_zero p.exit_code)) [
      | inl t ↦ absurd (n (sym q ∙ zero_code p.exit_code t))
      | inr f ↦ f
    ] in
    rw (w.of_disabled, w.of_error, w.of_completed, z, q)
Fails-cause_of p c (died {n = n} d e k z q l) =
    let a = ne_test p.status disabled d in
    let b = ne_test p.status error e in
    let s = ne_test p.status skipped k in
    let g : (str_eq p.status completed && not (is_zero p.exit_code)) ≡ false =
      elim (Bool-cases (str_eq p.status completed)) [
        | inl t ↦
            let y = code_zero p.exit_code (z (str_eq-eq p.status completed t)) in
            ground (arith, t, y)
        | inr f ↦ ground (arith, f)
      ] in
    let m : ltb 0 p.restarts ≡ true = ground (arith, q, l) in rw (a, b, g, s, m, q)

-- A cause that the switch finds is one of a failure.
pub cause_of-Fails : (p : Piece) (c : Cause) → cause_of p ≡ some c → Fails p c
unfolding cause_of
cause_of-Fails p c h = elim (Bool-cases (str_eq p.status disabled)) [
  | inl a ↦ absurd (ground (arith, a, h))
  | inr a ↦ elim (Bool-cases (str_eq p.status error)) [
    | inl b ↦
        let q : failed_to_start ≡ c = ground (arith, a, b, h) in
        subst (Fails p) q (Fails.broken (str_eq-eq p.status error b))
    | inr b ↦ elim (Bool-cases (str_eq p.status completed && not (is_zero p.exit_code))) [
      | inl x ↦
          let t : str_eq p.status completed ≡ true = ground (arith, x) in
          let z : is_zero p.exit_code ≡ false = ground (arith, x) in
          let q : exited p.exit_code ≡ c = ground (arith, a, b, x, h) in
          subst (Fails p) q (
            Fails.ended (str_eq-eq p.status completed t) refl
              (λ e. absurd (ground (arith, z, code_zero p.exit_code e))))
      | inr x ↦ elim (Bool-cases (str_eq p.status skipped)) [
        | inl k ↦
            let q : was_skipped ≡ c = ground (arith, a, b, x, k, h) in
            subst (Fails p) q (Fails.unstarted (str_eq-eq p.status skipped k))
        | inr k ↦ elim (Bool-cases (ltb 0 p.restarts)) [
          | inl l ↦
              let q : restarted p.restarts ≡ c = ground (arith, a, b, x, k, l, h) in
              subst (Fails p) q (
                Fails.died (str_ne p.status disabled a) (str_ne p.status error b)
                  (str_ne p.status skipped k) (λ e. finished p x e) refl (ground (arith, l)))
          | inr l ↦ absurd (ground (arith, a, b, x, k, l, h))
        ]
      ]
    ]
  ]
]

pub cause_of-Unfailing : (p : Piece) → cause_of p ≡ none → Unfailing p
cause_of-Unfailing p h c f = cc (sym h ∙ Fails-cause_of p c f)

-- Where no case that fails applies, the cases that leave the stack ready are those of a piece that is up.
pub settled-IsUp : (p : Piece) → cause_of p ≡ none → settled p ≡ true → IsUp p
unfolding cause_of settled
settled-IsUp p h t = elim (Bool-cases (str_eq p.status disabled)) [
  | inl a ↦ IsUp.is_disabled (str_eq-eq p.status disabled a)
  | inr a ↦
      let n : p.restarts ≡ 0 = ground (arith, a, h) in
      elim (Bool-cases (str_eq p.status completed)) [
        | inl c ↦
            let z : is_zero p.exit_code ≡ true = ground (arith, a, c, h) in
            IsUp.is_done (str_eq-eq p.status completed c) (zero_code p.exit_code z) n
        | inr c ↦
            let r : str_eq p.status running ≡ true = ground (arith, a, c, t) in
            elim (Bool-cases p.has_health_probe) [
              | inr u ↦ IsUp.runs_unprobed (str_eq-eq p.status running r) u n
              | inl u ↦
                  let y : str_eq p.health ready ≡ true = ground (arith, a, c, r, u, t) in
                  IsUp.runs_healthy (str_eq-eq p.status running r) (str_eq-eq p.health ready y) n
            ]
      ]
]

pub IsUp-settled : (p : Piece) → IsUp p → settled p ≡ true
unfolding settled
IsUp-settled p (is_disabled e) =
    let w = subst-Tests p.status e disabled-Tests in ground (arith, w.of_disabled)
IsUp-settled p (is_done e z n) =
    let w = subst-Tests p.status e completed-Tests in ground (arith, w.of_completed)
IsUp-settled p (runs_unprobed e u n) =
    let w = subst-Tests p.status e running-Tests in ground (arith, w.of_running, u)
IsUp-settled p (runs_healthy e y n) =
    let w = subst-Tests p.status e running-Tests in
    let g : str_eq p.health ready ≡ true =
      subst (λ (x : String). str_eq x ready ≡ true) (sym y) (str_eq_refl ready) in
    ground (arith, w.of_running, g)
