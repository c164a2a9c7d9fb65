-- ===== src/Forge/Invariant.antt =====
-- internal/atelierd/forge: what holds of a run's directory whatever commands ran on it, and wherever
-- they were cut short.
use homebrew_tools.Prelude.{
  ℕ, suc, ◌+◌, ◌≤◌, String, Bool, true, false, List, [], ◌∷◌, ◌++◌, ◌&&◌, str_eq, if◌then◌else◌,
  length, All, Pairs, ◌≡◌, sym, ◌∙◌, subst, ◌≢◌, refl, inl, inr, Bool-cases, arith,
}
use homebrew_tools.Forge.Types.{
  Result, ok, err, Wave, Pass, RunState, File, missing, predates, broken, decoded, Disk, Write,
  Reply, apply,
}
use homebrew_tools.Forge.Validate.{has}
use homebrew_tools.Forge.Store.{and_then, read_run, checked_run, within_limits}

-- Only the last wave can be open, and it is when the run says so.
abbrev pub Flags : Bool → List Wave → Type 0
Flags opened [] = opened ≡ false
Flags opened (w ∷ []) = w.is_open ≡ opened
Flags opened (w ∷ (v ∷ ws)) = (w.is_open ≡ false) × Flags opened (v ∷ ws)

-- The waves are numbered from n + 1.
abbrev pub Numbered : ℕ → List Wave → Type 0
Numbered n [] = Unit
Numbered n (w ∷ ws) = (w.number ≡ suc n) × Numbered (suc n) ws

-- The waves and the passes of a run, beside its capture directories.
pub record Sound (captures : List String) (cap wave : ℕ) (wave_open : Bool) (waves : List Wave)
    (passes : List Pass) : Type 0 where
  pub capped : wave ≤ cap
  pub counted : length waves ≡ wave
  pub numbered : Numbered 0 waves
  pub flags : Flags wave_open waves
  pub captured : All (λ p. has p.id captures ≡ true) passes
  pub distinct : Pairs (λ p q. p.id ≢ q.id) passes

abbrev pub SoundState : List String → RunState → Type 0
SoundState captures s = Sound captures s.cap s.wave s.wave_open s.waves s.passes

abbrev pub SoundFile : List String → File RunState → Type 0
SoundFile captures missing = Unit
SoundFile captures predates = Unit
SoundFile captures broken = Unit
SoundFile captures (decoded s) = SoundState captures s

abbrev pub SoundDisk : Disk → Type 0
SoundDisk d = SoundFile d.captures d.run

-- Every write of a sequence leaves the directory sound.
abbrev pub SoundWrites : Disk → List Write → Type 0
SoundWrites d [] = Unit
SoundWrites d (w ∷ ws) = SoundDisk (apply d w) × SoundWrites (apply d w) ws

pub Numbered-append :
    (n : ℕ) (ws : List Wave) (w : Wave)
    → Numbered n ws
    → w.number ≡ suc (n + length ws)
    → Numbered n (ws ++ (w ∷ []))
Numbered-append n [] w h k = (omega arith, tt)
Numbered-append n (v ∷ ws) w h k = (h.0, Numbered-append (suc n) ws w h.1 (omega arith))

pub Flags-append : (ws : List Wave) (w : Wave) → Flags false ws → Flags w.is_open (ws ++ (w ∷ []))
Flags-append [] w h = refl
Flags-append (v ∷ []) w h = (h, refl)
Flags-append (v ∷ (u ∷ ws)) w h = (h.0, Flags-append (u ∷ ws) w h.1)

-- What is read is the file's, and is sound where the directory is.
pub read_run-Sound :
    (run_id : String) (captures : List String) (f : File RunState) {s : RunState}
    → SoundFile captures f
    → read_run run_id f ≡ ok s
    → SoundState captures s
unfolding read_run checked_run
read_run-Sound run_id captures missing h e = cc
read_run-Sound run_id captures predates h e = cc
read_run-Sound run_id captures broken h e = cc
read_run-Sound run_id captures (decoded t) {s = s} h e =
    elim (Bool-cases (str_eq t.run_id run_id && within_limits t)) [
      | inl f ↦
          let g : ok t ≡ ok s = sym (rw f) ∙ e in
          let q : t ≡ s = cc g in subst (SoundState captures) q h
      | inr f ↦ absurd (ground (arith, e, f))
    ]

pub and_then-SoundWrites :
    {A B : Type 0} (d : Disk) (r : Result A) (next : A → Reply B)
    → ((a : A) → r ≡ ok a → SoundWrites d (next a).writes)
    → SoundWrites d (and_then r next).writes
unfolding and_then
and_then-SoundWrites d (err e) next h = tt
and_then-SoundWrites d (ok a) next h = h a refl

-- A test whose two outcomes are both sound.
pub either-SoundWrites :
    {A : Type 0} (d : Disk) (b : Bool) (x y : Reply A)
    → (b ≡ true → SoundWrites d x.writes)
    → (b ≡ false → SoundWrites d y.writes)
    → SoundWrites d (if b then x else y).writes
either-SoundWrites d true x y h k = h refl
either-SoundWrites d false x y h k = k refl
