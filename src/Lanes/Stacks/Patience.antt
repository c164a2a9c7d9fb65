-- ===== src/Lanes/Stacks/Patience.antt =====
-- internal/lanes/daemon/daemon.go: a stack is torn down for want of sessions only after a whole grace period
-- in which no tick saw one.
use homebrew_tools.Prelude.{
  ℕ, ◌+◌, ◌≤◌, ◌<◌, String, Bool, true, false, not, ◌&&◌, ◌||◌, List, ◌∷◌, Memᴰ, if_elim, ◌≡◌, ◌≢◌,
  refl, ◌⊎◌, inl, inr, arith, sym, Bool-cases, subst, if◌then◌else◌, str_eq, has_prefix,
}
use mathlib.Core.List.Memᴰ
use Prim.Native.String.{◌++◌ as append_text}
use homebrew_tools.Lanes.Procs.{Proc}
use homebrew_tools.Lanes.Stacks.{
  Stack, Seen, Reason, Verdict, stays, session_ended, grace_over, is_stays, sessions_in,
  set_running, verdict_for, verdict, adjust_running, notify_window, tick_stack, ask_teardown,
  notify_stack, start_locked, teardown_locked, teardown_later,
}
use homebrew_tools.Lanes.Stacks.Grace.{
  Observed, looks, observe, Reached, Moved, verdict_for-Moved, adjust_running-Moved,
  start_locked-Moved, kept-Moved, cleared-Moved, teardown_later-Moved, Quiet, Moved-Quiet,
  observed-Quiet,
}
use homebrew_tools.Lanes.Stacks.Grace.Reached.{added, ticked, notified, started, stopped, torn_down}

ask_teardown-grace : (r : Reason) (s : Stack) → (ask_teardown r s).grace_until ≡ s.grace_until
unfolding ask_teardown
ask_teardown-grace stays s = refl
ask_teardown-grace session_ended s = refl
ask_teardown-grace grace_over s = refl

pub adjust_running-grace :
    (e : Seen) (s : Stack) → e.alive ≡ true → (adjust_running e s).grace_until ≡ s.grace_until
unfolding adjust_running set_running
adjust_running-grace e s a = ground (arith, a)

adjust_running-notify :
    (e : Seen) (s : Stack) → e.alive ≡ true → (adjust_running e s).notify_until ≡ s.notify_until
unfolding adjust_running set_running
adjust_running-notify e s a = ground (arith, a)

pub adjust_running-sessions_in :
    (e : Seen) (s : Stack) (procs : List Proc)
    → sessions_in (adjust_running e s) procs ≡ sessions_in s procs
unfolding adjust_running set_running sessions_in
adjust_running-sessions_in e s procs =
    if_elim (λ (t : Stack). sessions_in t procs ≡ sessions_in s procs) (s.running && not e.alive)
      (set_running false s)
      (if not s.running && e.alive && e.unlocked then set_running true s else s) (λ b. refl)
      (λ b.
        if_elim (λ (t : Stack). sessions_in t procs ≡ sessions_in s procs)
          (not s.running && e.alive && e.unlocked) (set_running true s) s (λ d. refl) (λ d. refl))

-- The cases of a tick.
tick_stack-skips :
    (grace : ℕ) (e : Seen) (s : Stack)
    → looks e s ≡ false
    → ((tick_stack grace e s).reason ≡ stays)
      × Moved grace e.now 0 s.grace_until (tick_stack grace e s).stack.grace_until
unfolding tick_stack
tick_stack-skips grace e s h =
    if_elim
      (λ (v : Verdict). (v.reason ≡ stays) × Moved grace e.now 0 s.grace_until v.stack.grace_until)
      (e.gone || s.tearing) (record { stack = s; reason = stays; touched = false })
      (if not e.alive
        then record { stack = adjust_running e s; reason = stays; touched = false }
        else verdict grace e.now e.procs (adjust_running e s))
      (λ b. (refl, kept-Moved grace e.now s.grace_until))
      (λ b.
        if_elim
          (λ (v : Verdict).
            (v.reason ≡ stays) × Moved grace e.now 0 s.grace_until v.stack.grace_until)
          (not e.alive) (record { stack = adjust_running e s; reason = stays; touched = false })
          (verdict grace e.now e.procs (adjust_running e s))
          (λ a. (refl, adjust_running-Moved grace e.now e s))
          (λ a. absurd (ground (arith, h, a, b))))

pub tick_stack-looks :
    (grace : ℕ) (e : Seen) (s : Stack)
    → looks e s ≡ true
    → tick_stack grace e s ≡ verdict_for grace e.now (sessions_in s e.procs) (adjust_running e s)
unfolding tick_stack verdict
tick_stack-looks grace e s h = ground (arith, h, adjust_running-sessions_in e s e.procs)

looked-Moved :
    (grace : ℕ) (e : Seen) (s : Stack)
    → looks e s ≡ true
    → Moved grace e.now
        (sessions_in s e.procs)
        s.grace_until
        (tick_stack grace e s).stack.grace_until
looked-Moved grace e s h =
    let alive : e.alive ≡ true = ground (arith, h) in
    subst
      (λ (v : Verdict). Moved grace e.now (sessions_in s e.procs) s.grace_until v.stack.grace_until)
      (sym (tick_stack-looks grace e s h))
      (subst
        (λ (g : ℕ).
          Moved grace e.now (sessions_in s e.procs) g
            (verdict_for grace e.now (sessions_in s e.procs)
              (adjust_running e s)).stack.grace_until)
        (adjust_running-grace e s alive)
        (verdict_for-Moved grace e.now (sessions_in s e.procs) (adjust_running e s)))

-- What a tick does to what is known of a stack.
tick_stack-Quiet :
    (grace c : ℕ) (e : Seen) (s : Stack) (h : List Observed)
    → c ≤ e.now
    → Quiet grace c h s.grace_until
    → Quiet grace e.now (observe e s h) (tick_stack grace e s).stack.grace_until
tick_stack-Quiet grace c e s h l q =
    if_elim (λ (o : List Observed). Quiet grace e.now o (tick_stack grace e s).stack.grace_until)
      (looks e s) (record { at = e.now; sessions = sessions_in s e.procs } ∷ h) h
      (λ k.
        observed-Quiet grace c e.now (sessions_in s e.procs) s.grace_until
          (tick_stack grace e s).stack.grace_until h l (looked-Moved grace e s k) q)
      (λ k.
        Moved-Quiet grace c e.now s.grace_until (tick_stack grace e s).stack.grace_until h l
          (tick_stack-skips grace e s k).1 q)

notify_stack-Moved :
    (grace now : ℕ) (root : String) (s : Stack)
    → Moved grace now 0 s.grace_until (notify_stack now root s).grace_until
unfolding notify_stack
notify_stack-Moved grace now root s =
    if_elim (λ (t : Stack). Moved grace now 0 s.grace_until t.grace_until)
      (s.running && (str_eq s.root root || has_prefix root (append_text s.root "/")))
      (record s { notify_until = now + notify_window }) s (λ e. kept-Moved grace now s.grace_until)
      (λ e. kept-Moved grace now s.grace_until)

Reached-Quiet :
    (grace self : ℕ) {s : Stack} {c : ℕ} {h : List Observed}
    → Reached grace self s c h
    → Quiet grace c h s.grace_until
unfolding set_running teardown_locked notify_stack
Reached-Quiet grace self (added s c z) = record {
  past = λ o m. absurd (Memᴰ.not-nil m);
  since = inl z;
}
Reached-Quiet grace self (ticked s c h e r l) =
    subst (Quiet grace e.now (observe e s h))
      (sym (ask_teardown-grace (tick_stack grace e s).reason (tick_stack grace e s).stack))
      (tick_stack-Quiet grace c e s h l (Reached-Quiet grace self r))
Reached-Quiet grace self (notified s c h now root r l) =
    Moved-Quiet grace c now s.grace_until (notify_stack now root s).grace_until h l
      (notify_stack-Moved grace now root s) (Reached-Quiet grace self r)
Reached-Quiet grace self (started s c h q r l) =
    Moved-Quiet grace c q.now s.grace_until (start_locked grace q s).stack.grace_until h l
      (start_locked-Moved grace q s) (Reached-Quiet grace self r)
Reached-Quiet grace self (stopped s c h alive procs r) =
    Moved-Quiet grace c c s.grace_until 0 h (omega arith) (cleared-Moved grace c s.grace_until)
      (Reached-Quiet grace self r)
Reached-Quiet grace self (torn_down s c h t r l) =
    Moved-Quiet grace c t.now s.grace_until (teardown_later grace self t s).stack.grace_until h l
      (teardown_later-Moved grace self t s) (Reached-Quiet grace self r)

-- Why `verdict` asks for a teardown.
abbrev Grounds : ℕ → ℕ → ℕ → ℕ → Verdict → Type 0
Grounds now n until g v =
    is_stays v.reason ≡ false
    → (n ≡ 0) × (((v.reason ≡ session_ended) × (now < until)) ⊎ ((g ≢ 0) × (g ≤ now)))

verdict_for-Grounds :
    (grace now n : ℕ) (s : Stack)
    → Grounds now n s.notify_until s.grace_until (verdict_for grace now n s)
unfolding verdict_for
verdict_for-Grounds grace now n s h = ground (arith, h)

looked-Grounds :
    (grace : ℕ) (e : Seen) (s : Stack)
    → looks e s ≡ true
    → Grounds e.now (sessions_in s e.procs) s.notify_until s.grace_until (tick_stack grace e s)
looked-Grounds grace e s k =
    let alive : e.alive ≡ true = ground (arith, k) in
    let n = sessions_in s e.procs in
    let t = adjust_running e s in
    subst (Grounds e.now n s.notify_until s.grace_until) (sym (tick_stack-looks grace e s k)) (
      subst (λ (g : ℕ). Grounds e.now n s.notify_until g (verdict_for grace e.now n t))
        (adjust_running-grace e s alive)
        (subst (λ (u : ℕ). Grounds e.now n u t.grace_until (verdict_for grace e.now n t))
          (adjust_running-notify e s alive) (verdict_for-Grounds grace e.now n t)))

no_session_since :
    (grace c : ℕ) (e : Seen) (s : Stack) (h : List Observed)
    → Quiet grace c h s.grace_until
    → looks e s ≡ true
    → sessions_in s e.procs ≡ 0
    → s.grace_until ≢ 0
    → s.grace_until ≤ e.now
    → (o : Observed) → Memᴰ o (observe e s h)
    → e.now < o.at + grace
    → o.sessions ≡ 0
no_session_since grace c e s h q k n z l o m b = elim q.since [
  | inl y ↦ absurd (z y)
  | inr w ↦
      elim (Memᴰ.cases_cons (
        subst
          (λ (x : Bool).
            Memᴰ o (if x then record { at = e.now; sessions = sessions_in s e.procs } ∷ h else h))
          k m)) [
            | inl f ↦ subst (λ (x : Observed). x.sessions ≡ 0) (sym f) n
            | inr r ↦ w.1.1.1 o r (omega (arith, w.1.0, l, b))
          ]
]

-- A tick asks for the teardown of a stack only when it counts no session there, and then either in the
-- window after a session's end was notified, or when no tick of the last grace period, itself included,
-- counted one. This holds after any ticks, notices, starts, stops and teardowns, from a stack with no
-- grace period running, on a clock that does not go back.
pub tick_stack-Patient :
    (grace self : ℕ) (s : Stack) (c : ℕ) (h : List Observed) (e : Seen)
    → Reached grace self s c h
    → c ≤ e.now
    → is_stays (tick_stack grace e s).reason ≡ false
    → (sessions_in s e.procs ≡ 0)
      × ((((tick_stack grace e s).reason ≡ session_ended) × (e.now < s.notify_until))
          ⊎ ((o : Observed) → Memᴰ o (observe e s h) → e.now < o.at + grace → o.sessions ≡ 0))
tick_stack-Patient grace self s c h e r l a = elim (Bool-cases (looks e s)) [
  | inl k ↦
      let w = looked-Grounds grace e s k a in
      (
        w.0,
        elim w.1 [
          | inl n ↦ inl n
          | inr g ↦ inr (no_session_since grace c e s h (Reached-Quiet grace self r) k w.0 g.0 g.1)
        ],
      )
  | inr k ↦ absurd (let w = (tick_stack-skips grace e s k).0 in ground (arith, w, a))
]
