-- ===== src/Lanes/Stacks/Progress.antt =====
-- internal/lanes/daemon/daemon.go: a stack that no session comes back to is torn down in the end.
use homebrew_tools.Prelude.{
  ℕ, ◌+◌, ◌≤◌, ◌<◌, String, Bool, true, false, not, ◌&&◌, ◌||◌, List, [], ◌∷◌, All, if_elim, ◌≡◌,
  ◌≢◌, refl, ◌⊎◌, inl, inr, arith, ap, sym, ◌∙◌, subst, if◌then◌else◌, count,
}
use homebrew_tools.Lanes.Stacks.Patience.{
  tick_stack-looks, adjust_running-grace, adjust_running-sessions_in,
}
use homebrew_tools.Lanes.Procs.{Proc, under, named_as}
use homebrew_tools.Lanes.Sweep.{Keep}
use homebrew_tools.Lanes.Stacks.{
  Stack, Seen, Verdict, is_stays, sessions_in, set_running, verdict_for, adjust_running, tick_stack,
}

-- Whether one of the ticks asks for a teardown.
unfoldable pub asks : ℕ → List Seen → Stack → Bool
asks grace [] s = false
asks grace (e ∷ es) s =
    let rest = asks grace es (tick_stack grace e s).stack in
    if is_stays (tick_stack grace e s).reason then rest else true

-- The ticks of a running stack in which no session is, one after another.
pub record Idle (s : Stack) (e : Seen) : Type 0 where
  pub there : e.gone ≡ false
  pub answers : e.alive ≡ true
  pub empty : sessions_in s e.procs ≡ 0

abbrev pub last_now : ℕ → List Seen → ℕ
last_now now [] = now
last_now now (e ∷ es) = last_now e.now es

-- What an idle tick leaves, where it does not ask for a teardown: a grace period that runs.
record Waits (grace now g : ℕ) (s : Stack) (v : Verdict) : Type 0 where
  same_sessions : (procs : List Proc) → sessions_in v.stack procs ≡ sessions_in s procs
  untorn : v.stack.tearing ≡ s.tearing
  until :
      ((g ≡ 0) × (v.stack.grace_until ≡ now + grace))
      ⊎ ((g ≢ 0) × ((v.stack.grace_until ≡ g) × (now < g)))

sessions_in_place :
    (a b : Stack) (procs : List Proc)
    → a.root ≡ b.root
    → a.kept ≡ b.kept
    → sessions_in a procs ≡ sessions_in b procs
unfolding sessions_in
sessions_in_place a b procs r k =
    ap (λ (x : String). count (λ p. under x p && named_as a.kept.sessions p) procs) r
    ∙ ap (λ (x : Keep). count (λ p. under b.root p && named_as x.sessions p) procs) k

verdict_for-sessions_in :
    (grace now n : ℕ) (s : Stack) (procs : List Proc)
    → sessions_in (verdict_for grace now n s).stack procs ≡ sessions_in s procs
unfolding verdict_for
verdict_for-sessions_in grace now n s procs =
    sessions_in_place (verdict_for grace now n s).stack s procs (ground arith) (ground arith)

verdict_for-Waits :
    (grace now : ℕ) (s : Stack)
    → is_stays (verdict_for grace now 0 s).reason ≡ true
    → Waits grace now s.grace_until s (verdict_for grace now 0 s)
unfolding verdict_for
verdict_for-Waits grace now s h = record {
  same_sessions = verdict_for-sessions_in grace now 0 s;
  untorn = ground arith;
  until = ground (arith, h);
}

adjust_running-tearing : (e : Seen) (s : Stack) → (adjust_running e s).tearing ≡ s.tearing
unfolding adjust_running set_running
adjust_running-tearing e s = ground arith

tick-Waits :
    (grace : ℕ) (e : Seen) (s : Stack)
    → Idle s e
    → s.tearing ≡ false
    → is_stays (tick_stack grace e s).reason ≡ true
    → Waits grace e.now s.grace_until s (tick_stack grace e s)
tick-Waits grace e s i t h =
    let n = sessions_in s e.procs in
    let a = adjust_running e s in
    let looks : (not (e.gone || s.tearing) && e.alive) ≡ true =
      ground (arith, i.there, i.answers, t) in
    let q : tick_stack grace e s ≡ verdict_for grace e.now 0 a =
      tick_stack-looks grace e s looks ∙ ap (λ (m : ℕ). verdict_for grace e.now m a) i.empty in
    let w =
      verdict_for-Waits grace e.now a (subst (λ (v : Verdict). is_stays v.reason ≡ true) q h) in
    subst (Waits grace e.now s.grace_until s) (sym q) (record {
      same_sessions = λ procs. w.same_sessions procs ∙ adjust_running-sessions_in e s procs;
      untorn = w.untorn ∙ adjust_running-tearing e s;
      until =
          subst
            (λ (g : ℕ).
              ((g ≡ 0) × ((verdict_for grace e.now 0 a).stack.grace_until ≡ e.now + grace))
              ⊎ ((g ≢ 0) × (((verdict_for grace e.now 0 a).stack.grace_until ≡ g) × (e.now < g))))
            (adjust_running-grace e s i.answers) w.until;
    })

still-Idle :
    (grace : ℕ) (e : Seen) (s : Stack) (v : Verdict) (es : List Seen)
    → Waits grace e.now s.grace_until s v
    → All (Idle s) es
    → All (Idle v.stack) es
still-Idle grace e s v [] w i = tt
still-Idle grace e s v (f ∷ es) w i = (
  record { there = i.0.there; answers = i.0.answers; empty = w.same_sessions f.procs ∙ i.0.empty },
  still-Idle grace e s v es w i.1,
)

-- While the grace period runs, and the last tick is past its end.
asks-due :
    (grace now : ℕ) (es : List Seen) (s : Stack)
    → s.tearing ≡ false
    → All (Idle s) es
    → now < s.grace_until
    → s.grace_until ≤ last_now now es
    → asks grace es s ≡ true
unfolding asks
asks-due grace now [] s t i l d = absurd (omega (arith, l, d))
asks-due grace now (e ∷ es) s t i l d =
    if_elim (λ (b : Bool). b ≡ true) (is_stays (tick_stack grace e s).reason)
      (asks grace es (tick_stack grace e s).stack) true
      (λ h.
        let w = tick-Waits grace e s i.0 t h in
        elim w.until [
          | inl k ↦ absurd (omega (arith, k.0, l))
          | inr k ↦
              asks-due grace e.now es (tick_stack grace e s).stack (w.untorn ∙ t)
                (still-Idle grace e s (tick_stack grace e s) es w i.1) (omega (arith, k.1.0, k.1.1))
                (omega (arith, k.1.0, d))
        ])
      (λ h. refl)

-- Where the grace period is not 0, a stack with no teardown under way, that ticks find with
-- process-compose answering, its worktree in place and no session in it, is asked to be torn down by the
-- time a tick comes a grace period after the first, unless a longer grace period was running before.
pub asks-Idle :
    (grace : ℕ) (e : Seen) (es : List Seen) (s : Stack)
    → s.tearing ≡ false
    → All (Idle s) (e ∷ es)
    → 0 < grace
    → s.grace_until ≤ e.now + grace
    → e.now + grace ≤ last_now e.now es
    → asks grace (e ∷ es) s ≡ true
unfolding asks
asks-Idle grace e es s t i p g d =
    if_elim (λ (b : Bool). b ≡ true) (is_stays (tick_stack grace e s).reason)
      (asks grace es (tick_stack grace e s).stack) true
      (λ h.
        let w = tick-Waits grace e s i.0 t h in
        let later = still-Idle grace e s (tick_stack grace e s) es w i.1 in
        elim w.until [
          | inl k ↦
              asks-due grace e.now es (tick_stack grace e s).stack (w.untorn ∙ t) later
                (omega (arith, k.1, p)) (omega (arith, k.1, d))
          | inr k ↦
              asks-due grace e.now es (tick_stack grace e s).stack (w.untorn ∙ t) later
                (omega (arith, k.1.0, k.1.1)) (omega (arith, k.1.0, g, d))
        ])
      (λ h. refl)
