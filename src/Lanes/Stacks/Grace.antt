-- ===== src/Lanes/Stacks/Grace.antt =====
-- internal/lanes/daemon/daemon.go: when the grace period of a stack without sessions ends.
use homebrew_tools.Prelude.{
  ℕ, ◌+◌, ◌≤◌, ◌<◌, String, Bool, true, false, not, ◌&&◌, ◌||◌, Option, none, some, List, [], ◌∷◌,
  Memᴰ, if_elim, ◌≡◌, refl, ◌⊎◌, inl, inr, arith, ap, sym, ◌∙◌, subst, if◌then◌else◌,
}
use mathlib.Core.List.Memᴰ
use homebrew_tools.Lanes.Procs.{Proc}
use homebrew_tools.Lanes.Stacks.{
  Stack, Seen, Start, Later, Teardown, sessions_in, set_running, verdict_for, verdict,
  adjust_running, tick_stack, ask_teardown, notify_stack, settle_start, begin_start, start_locked,
  teardown_locked, teardown_later, recheck, has_session,
}

-- What a tick saw: the time, and the number of sessions.
pub record Observed : Type 0 where
  pub at : ℕ
  pub sessions : ℕ

-- Whether a tick gets as far as counting the sessions of a stack.
abbrev pub looks : Seen → Stack → Bool
looks e s = not (e.gone || s.tearing) && e.alive

abbrev pub observe : Seen → Stack → List Observed → List Observed
observe e s h = if looks e s then record { at = e.now; sessions = sessions_in s e.procs } ∷ h else h

-- The stacks that lanesd can have, with the time of the last step and what the ticks saw, latest first.
pub data Reached (grace self : ℕ) : Stack → ℕ → List Observed → Type 0 where
  added : (s : Stack) (c : ℕ) → s.grace_until ≡ 0 → Reached grace self s c []
  ticked :
      (s : Stack) (c : ℕ) (h : List Observed) (e : Seen)
      → Reached grace self s c h
      → c ≤ e.now
      → Reached grace self
          (ask_teardown (tick_stack grace e s).reason (tick_stack grace e s).stack)
          e.now
          (observe e s h)
  notified :
      (s : Stack) (c : ℕ) (h : List Observed) (now : ℕ) (root : String)
      → Reached grace self s c h
      → c ≤ now
      → Reached grace self (notify_stack now root s) now h
  started :
      (s : Stack) (c : ℕ) (h : List Observed) (r : Start)
      → Reached grace self s c h
      → c ≤ r.now
      → Reached grace self (start_locked grace r s).stack r.now h
  stopped :
      (s : Stack) (c : ℕ) (h : List Observed) (alive : Bool) (procs : Option (List Proc))
      → Reached grace self s c h
      → Reached grace self (teardown_locked false self alive procs s).stack c h
  torn_down :
      (s : Stack) (c : ℕ) (h : List Observed) (l : Later)
      → Reached grace self s c h
      → c ≤ l.now
      → Reached grace self (teardown_later grace self l s).stack l.now h

-- How a step moves the end of the grace period, where n sessions were counted.
unfoldable pub Moved : ℕ → ℕ → ℕ → ℕ → ℕ → Type 0
Moved grace now n g h = ((h ≡ g) × (n ≡ 0)) ⊎ ((h ≡ 0) ⊎ (h ≡ now + grace))

pub verdict_for-Moved :
    (grace now n : ℕ) (s : Stack)
    → Moved grace now n s.grace_until (verdict_for grace now n s).stack.grace_until
unfolding Moved verdict_for
verdict_for-Moved grace now n s = ground arith

pub adjust_running-Moved :
    (grace now : ℕ) (e : Seen) (s : Stack)
    → Moved grace now 0 s.grace_until (adjust_running e s).grace_until
unfolding Moved adjust_running set_running
adjust_running-Moved grace now e s = ground arith

pub start_locked-Moved :
    (grace : ℕ) (r : Start) (s : Stack)
    → Moved grace r.now 0 s.grace_until (start_locked grace r s).stack.grace_until
unfolding Moved start_locked settle_start begin_start
start_locked-Moved grace r s = elim r.procs [ none ↦ ground arith | some procs ↦ ground arith ]

Moved-weaken : (grace now n g h : ℕ) → Moved grace now n g h → Moved grace now 0 g h
unfolding Moved
Moved-weaken grace now n g h (inl m) = inl (m.0, refl)
Moved-weaken grace now n g h (inr m) = inr m

pub kept-Moved : (grace now g : ℕ) → Moved grace now 0 g g
unfolding Moved
kept-Moved grace now g = inl (refl, refl)

pub cleared-Moved : (grace now g : ℕ) → Moved grace now 0 g 0
unfolding Moved
cleared-Moved grace now g = inr (inl refl)

recheck-Moved :
    (grace now : ℕ) (procs : Option (List Proc)) (s : Stack)
    → Moved grace now 0 s.grace_until (recheck grace now procs s).grace_until
unfolding recheck verdict
recheck-Moved grace now none s = kept-Moved grace now s.grace_until
recheck-Moved grace now (some procs) s =
    Moved-weaken grace now (sessions_in s procs) s.grace_until
      (verdict_for grace now (sessions_in s procs) s).stack.grace_until
      (verdict_for-Moved grace now (sessions_in s procs) s)

pub teardown_later-Moved :
    (grace self : ℕ) (l : Later) (s : Stack)
    → Moved grace l.now 0 s.grace_until (teardown_later grace self l s).stack.grace_until
unfolding teardown_later teardown_locked set_running
teardown_later-Moved grace self l s =
    if_elim (λ (t : Teardown). Moved grace l.now 0 s.grace_until t.stack.grace_until)
      (has_session s l.first)
      (record {
        stack = record (recheck grace l.now l.first s) { tearing = false };
        downed = false;
        ended = some [];
      })
      (record {
        stack = record ((teardown_locked true self l.alive l.second s).stack) { tearing = false };
        downed = (teardown_locked true self l.alive l.second s).downed;
        ended = (teardown_locked true self l.alive l.second s).ended;
      })
      (λ e. recheck-Moved grace l.now l.first s) (λ e. cleared-Moved grace l.now s.grace_until)

-- Since when no tick has seen a session, where the grace period ends at g.
pub record Quiet (grace c : ℕ) (h : List Observed) (g : ℕ) : Type 0 where
  pub past : (o : Observed) → Memᴰ o h → o.at ≤ c
  pub since :
      (g ≡ 0)
      ⊎ ((t : ℕ) × ((g ≡ t + grace)
            × ((t ≤ c) × ((o : Observed) → Memᴰ o h → t < o.at → o.sessions ≡ 0))))

pub Moved-Quiet :
    (grace c now g g2 : ℕ) (h : List Observed)
    → c ≤ now
    → Moved grace now 0 g g2
    → Quiet grace c h g
    → Quiet grace now h g2
unfolding Moved
Moved-Quiet grace c now g g2 h l m q = record {
  past = λ o i. omega (arith, l, q.past o i);
  since = elim m [
    | inr k ↦ elim k [
      | inl e ↦ inl e
      | inr e ↦ inr (now, (e, (omega arith, λ o i k. absurd (omega (arith, l, q.past o i, k)))))
    ]
    | inl e ↦ elim q.since [
      | inl z ↦ inl (e.0 ∙ z)
      | inr w ↦ inr (w.0, (e.0 ∙ w.1.0, (omega (arith, w.1.1.0, l), w.1.1.1)))
    ]
  ];
}

pub observed-Quiet :
    (grace c now n g g2 : ℕ) (h : List Observed)
    → c ≤ now
    → Moved grace now n g g2
    → Quiet grace c h g
    → Quiet grace now (record { at = now; sessions = n } ∷ h) g2
unfolding Moved
observed-Quiet grace c now n g g2 h l m q = record {
  past = λ o i. elim (Memᴰ.cases_cons i) [
    | inl e ↦ subst (λ (x : Observed). x.at ≤ now) (sym e) (omega arith)
    | inr r ↦ omega (arith, l, q.past o r)
  ];
  since = elim m [
    | inr k ↦ elim k [
      | inl e ↦ inl e
      | inr e ↦ inr (
        now,
        (
          e,
          (
            omega arith,
            λ o i k. absurd (elim (Memᴰ.cases_cons i) [
              | inl f ↦ let x : o.at ≡ now = ap (λ (y : Observed). y.at) f in omega (arith, x, k)
              | inr r ↦ omega (arith, l, q.past o r, k)
            ]),
          ),
        ),
      )
    ]
    | inl e ↦ elim q.since [
      | inl z ↦ inl (e.0 ∙ z)
      | inr w ↦ inr (
        w.0,
        (
          e.0 ∙ w.1.0,
          (
            omega (arith, w.1.1.0, l),
            λ o i k. elim (Memᴰ.cases_cons i) [
              | inl f ↦ subst (λ (x : Observed). x.sessions ≡ 0) (sym f) e.1
              | inr r ↦ w.1.1.1 o r k
            ],
          ),
        ),
      )
    ]
  ];
}
