-- ===== src/Forge/PassSteps.antt =====
-- internal/atelierd/forge/ops.go: the writes of `NextPass` keep a run's directory sound.
use homebrew_tools.Prelude.{
  ℕ, String, true, false, not, Option, none, some, List, [], ◌∷◌, ◌++◌, ◌&&◌, ltb, leb, str_eq,
  str_eq_refl, length, All, All-append, Pairs-append, ◌≡◌, ◌≢◌, sym, subst, arith, ap, if_elim,
}
use homebrew_tools.Forge.Types.{
  max_auxiliary_passes, max_passes, Pass, RunState, Campaign, File, missing, predates, broken,
  decoded, Disk, apply, pass_review,
}
use homebrew_tools.Forge.Validate.{has, known_kind}
use homebrew_tools.Forge.Store.{refuse, reply, queue_event}
use homebrew_tools.Forge.Waves.{adopt}
use homebrew_tools.Forge.Passes.{
  is_wave, sequence_of, created, advance, await, with_pass, create_pass, allocate_pass, next_pass,
}
use homebrew_tools.Forge.Invariant.{
  Sound, SoundState, SoundFile, SoundDisk, SoundWrites, and_then-SoundWrites, either-SoundWrites,
}
use homebrew_tools.Forge.Steps.{adopt-Sound, adopted-SoundWrites, read_all-SoundWrites}

has-cons : (id x : String) (xs : List String) → has x xs ≡ true → has x (id ∷ xs) ≡ true
unfolding has
has-cons id x xs h = ground arith

has_self : (id : String) (xs : List String) → has id (id ∷ xs) ≡ true
unfolding has
has_self id xs = rw (str_eq_refl id)

captured-cons :
    (id : String) (captures : List String) (ps : List Pass)
    → All (λ p. has p.id captures ≡ true) ps
    → All (λ p. has p.id (id ∷ captures) ≡ true) ps
captured-cons id captures [] h = tt
captured-cons id captures (p ∷ ps) h =
    (has-cons id p.id captures h.0, captured-cons id captures ps h.1)

-- A pass whose directory is new has an ID that no other pass has.
fresh_id :
    (id : String) (captures : List String) (ps : List Pass)
    → has id captures ≡ false
    → All (λ p. has p.id captures ≡ true) ps
    → All (λ p. p.id ≢ id) ps
fresh_id id captures [] h k = tt
fresh_id id captures (p ∷ ps) h k =
    (λ e. cc (ap (λ x. has x captures) e, h, k.0), fresh_id id captures ps h k.1)

-- A new capture directory alone leaves a sound file sound.
cons-SoundFile :
    (id : String) (captures : List String) (f : File RunState)
    → SoundFile captures f
    → SoundFile (id ∷ captures) f
cons-SoundFile id captures missing h = tt
cons-SoundFile id captures predates h = tt
cons-SoundFile id captures broken h = tt
cons-SoundFile id captures (decoded s) h = record {
  capped = h.capped;
  counted = h.counted;
  numbered = h.numbered;
  flags = h.flags;
  captured = captured-cons id captures s.passes h.captured;
  distinct = h.distinct;
}

await-Sound :
    (captures : List String) (c : Option Campaign) (p : Pass) (s : RunState)
    → SoundState captures s
    → SoundState captures (await c p s)
unfolding await
await-Sound captures none p s h = h
await-Sound captures (some c) p s h = h

advance-Sound :
    (captures : List String) (kind : String) (n : ℕ) (s : RunState)
    → SoundState captures s
    → SoundState captures (advance kind n s)
unfolding advance
advance-Sound captures kind n s h =
    if_elim (SoundState captures) (is_wave kind) _ _ (λ _. h)
      (λ _. if_elim (SoundState captures) (str_eq kind pass_review) _ _ (λ _. h) (λ _. h))

-- One more pass, with a new directory.
append-Sound :
    (captures : List String) (p : Pass) (s : RunState)
    → has p.id captures ≡ false
    → SoundState captures s
    → Sound (p.id ∷ captures) s.cap s.wave s.wave_open s.waves (s.passes ++ (p ∷ []))
append-Sound captures p s fresh h = record {
  capped = h.capped;
  counted = h.counted;
  numbered = h.numbered;
  flags = h.flags;
  captured =
      All-append (λ q. has q.id (p.id ∷ captures) ≡ true) s.passes (p ∷ [])
        (captured-cons p.id captures s.passes h.captured) (has_self p.id captures, tt);
  distinct =
      Pairs-append (λ q r. q.id ≢ r.id) s.passes p h.distinct
        (fresh_id p.id captures s.passes fresh h.captured);
}

with_pass-Sound :
    (captures : List String) (kind : String) (c : Option Campaign) (s : RunState) (n : ℕ)
    → has (created kind s n).id captures ≡ false
    → SoundState captures s
    → SoundState ((created kind s n).id ∷ captures) (with_pass kind c s n)
unfolding with_pass queue_event
with_pass-Sound captures kind c s n fresh h =
    let p = created kind s n in
    await-Sound (p.id ∷ captures) c p (advance kind n (record s { passes = s.passes ++ (p ∷ []) }))
      (advance-Sound (p.id ∷ captures) kind n (record s { passes = s.passes ++ (p ∷ []) })
        (append-Sound captures p s fresh h))

create_pass-SoundWrites :
    (d : Disk) (kind : String) (c : Option Campaign) (s : RunState) (n : ℕ)
    → SoundDisk d
    → SoundState d.captures s
    → SoundWrites d (create_pass kind d.captures c s n).writes
unfolding create_pass refuse reply apply
create_pass-SoundWrites d kind c s n g h =
    either-SoundWrites d (not (is_wave kind) && ltb max_auxiliary_passes n) _ _ (λ _. tt)
      (λ _.
        either-SoundWrites d (leb max_passes (length s.passes)) _ _ (λ _. tt)
          (λ _.
            either-SoundWrites d (has (created kind s n).id d.captures) _ _ (λ _. tt)
              (λ fresh. (
                cons-SoundFile (created kind s n).id d.captures d.run g,
                (with_pass-Sound d.captures kind c s n fresh h, tt),
              ))))

allocate_pass-SoundWrites :
    (d : Disk) (kind : String) (s : RunState) (c : Option Campaign)
    → SoundDisk d
    → SoundState d.captures s
    → SoundWrites d (allocate_pass kind d.captures s c).writes
unfolding allocate_pass refuse
allocate_pass-SoundWrites d kind s c g h =
    either-SoundWrites d (not (str_eq s.open_pass "")) _ _ (λ _. tt)
      (λ _.
        and_then-SoundWrites d (sequence_of kind s) (create_pass kind d.captures c s)
          (λ n _. create_pass-SoundWrites d kind c s n g h))

pub next_pass-SoundWrites :
    (run_id kind : String) (d : Disk) → SoundDisk d → SoundWrites d (next_pass run_id kind d).writes
unfolding next_pass refuse
next_pass-SoundWrites run_id kind d g =
    either-SoundWrites d (known_kind kind) _ _
      (λ _. read_all-SoundWrites d run_id _ g (λ s c l h. adopted-SoundWrites d c s _ g h (λ e q k.
        subst (λ x. SoundWrites e (allocate_pass kind x (adopt c s) c).writes) q
          (allocate_pass-SoundWrites e kind (adopt c s) c k
            (subst (λ x. SoundState x (adopt c s)) (sym q) (adopt-Sound d.captures c s h))))))
      (λ _. tt)
