-- ===== src/Transcript/Minutes.antt =====
-- internal/atelierd/transcript: which minutes of activity are emitted twice.
pub mod Memory
use homebrew_tools.Prelude.{
  ℕ, ◌+◌, ◌-◌, ◌<◌, String, Bool, true, false, not, ◌&&◌, ◌||◌, Option, none, some, List, [], ◌∷◌,
  ◌++◌, ◌==◌, str_eq, ltb, ◌≡◌, refl, sym, ap, ◌∙◌, subst, arith, if_elim, Bool-cases, ◌⊎◌, inl,
  inr, keep,
}
use homebrew_tools.Transcript.Minutes.Memory.{
  Remembers, pruned-Remembers, added-Remembers, later-Remembers, forgotten-Remembers,
  merged-Remembers, emitted-cases, nothing-emitted,
}
use homebrew_tools.Transcript.{
  State, Offset, TitleType, untitled, ai_title, custom_title, title_type_eq, Line, Envelope, titled,
  active, emitted, forget_minute, mark_minute, derive_title, derive_heartbeat, heartbeat, derive_as,
  derive, newest_of, prune_minutes, saved, emitted_minutes_window,
}

-- The minutes of activity among the events.
abbrev pub minutes_of : List Envelope → List ℕ
minutes_of [] = []
minutes_of (titled t title ∷ es) = minutes_of es
minutes_of (active m ∷ es) = m ∷ minutes_of es

-- What a reader saves of a session that was moved to another transcript while it read.
unfoldable pub with_minutes_of : State → State → State
with_minutes_of s current = record current {
  emitted_minutes = s.emitted_minutes ++ current.emitted_minutes;
}

-- A session: the state that was saved last, the state in hand, and for each the minutes emitted that
-- it should know of. Those are lost with a state that is not saved, and ForgetMinute gives one back.
-- The last list has every minute ever emitted. A session-start may register another transcript in the
-- saved state, or replace one that cannot be read.
pub data Reached : State → List ℕ → State → List ℕ → List ℕ → Type 0 where
  begun : (s : State) → s.emitted_minutes ≡ [] → Reached s [] s [] []
  read :
      {b s : State} {kb ks every : List ℕ} (l : Option Line)
      → Reached b kb s ks every
      → Reached b kb
          (derive l s).0
          (minutes_of (derive l s).1 ++ ks)
          (minutes_of (derive l s).1 ++ every)
  advanced :
      {b s : State} {kb ks every : List ℕ} (os : List Offset)
      → Reached b kb s ks every
      → Reached b kb (record s { offsets = os }) ks every
  forgotten :
      {b s : State} {kb ks every : List ℕ} (m : ℕ)
      → Reached b kb s ks every
      → Reached b kb (forget_minute m s) (keep (λ k. not (k == m)) ks) every
  written :
      {b s : State} {kb ks every : List ℕ} (parent_key : String)
      → Reached b kb s ks every
      → Reached (saved parent_key s) ks (saved parent_key s) ks every
  registered :
      {b s : State} {kb ks every : List ℕ} (parent_key path : String) (os : List Offset)
      → Reached b kb s ks every
      → Reached (saved parent_key (record b { jsonl_path = path; offsets = os })) kb s ks every
  replaced :
      {b s : State} {kb ks every : List ℕ} (t : State)
      → t.emitted_minutes ≡ []
      → Reached b kb s ks every
      → Reached t [] s ks every
  merged :
      {b s : State} {kb ks every : List ℕ} (parent_key : String)
      → Reached b kb s ks every
      → Reached
          (saved parent_key (with_minutes_of s b))
          (ks ++ kb)
          (saved parent_key (with_minutes_of s b))
          (ks ++ kb)
          every
  reloaded :
      {b s : State} {kb ks every : List ℕ} → Reached b kb s ks every → Reached b kb b kb every

-- What a line does to the minutes.
abbrev Emits : State → State × List Envelope → Type 0
Emits s r =
    ((minutes_of r.1 ≡ []) × (r.0.emitted_minutes ≡ s.emitted_minutes))
    ⊎ ((m : ℕ) × ((minutes_of r.1 ≡ m ∷ [])
          × ((r.0.emitted_minutes ≡ m ∷ s.emitted_minutes)
              × (emitted m s.emitted_minutes ≡ false))))

derive_as-silent :
    (k : TitleType) (l : Line) (s : State) (es : List Envelope)
    → (minutes_of ((derive_as k l s).1 ++ es) ≡ minutes_of es)
      × ((derive_as k l s).0.emitted_minutes ≡ s.emitted_minutes)
unfolding derive_as derive_title
derive_as-silent untitled l s es = (refl, refl)
derive_as-silent ai_title l s es =
    if_elim
      (λ (r : State × List Envelope).
        (minutes_of (r.1 ++ es) ≡ minutes_of es) × (r.0.emitted_minutes ≡ s.emitted_minutes))
      (str_eq l.ai s.last_title && title_type_eq ai_title s.last_title_type) (s, [])
      (record s { last_title = l.ai; last_title_type = ai_title }, titled ai_title l.ai ∷ [])
      (λ b. (refl, refl)) (λ b. (refl, refl))
derive_as-silent custom_title l s es =
    if_elim
      (λ (r : State × List Envelope).
        (minutes_of (r.1 ++ es) ≡ minutes_of es) × (r.0.emitted_minutes ≡ s.emitted_minutes))
      (str_eq l.custom s.last_title && title_type_eq custom_title s.last_title_type) (s, [])
      (
        record s { last_title = l.custom; last_title_type = custom_title },
        titled custom_title l.custom ∷ [],
      )
      (λ b. (refl, refl)) (λ b. (refl, refl))

derive_heartbeat-Emits : (m : Option ℕ) (s : State) → Emits s (derive_heartbeat m s)
unfolding derive_heartbeat mark_minute
derive_heartbeat-Emits none s = inl (refl, refl)
derive_heartbeat-Emits (some m) s =
    if_elim (λ (r : State × Bool). Emits s (heartbeat m r)) (emitted m s.emitted_minutes) (s, false)
      (record s { emitted_minutes = m ∷ s.emitted_minutes }, true) (λ b. inl (refl, refl))
      (λ b. inr (m, (refl, (refl, b))))

derive-Emits : (l : Option Line) (s : State) → Emits s (derive l s)
unfolding derive
derive-Emits none s = inl (refl, refl)
derive-Emits (some l) s =
    let t = derive_as l.kind l s in
    let h = derive_heartbeat l.minute t.0 in
    let q = derive_as-silent l.kind l s h.1 in
    elim (derive_heartbeat-Emits l.minute t.0) [
      | inl e ↦ inl (q.0 ∙ e.0, e.1 ∙ q.1)
      | inr w ↦ inr (
        w.0,
        (
          q.0 ∙ w.1.0,
          (w.1.1.0 ∙ ap (◌∷◌ w.0) q.1, subst (λ (ks : List ℕ). emitted w.0 ks ≡ false) q.1 w.1.1.1),
        ),
      )
    ]

Emits-Remembers :
    (s : State) (r : State × List Envelope) (known every : List ℕ)
    → Emits s r
    → Remembers s.emitted_minutes known every
    → Remembers r.0.emitted_minutes (minutes_of r.1 ++ known) (minutes_of r.1 ++ every)
Emits-Remembers s r known every (inl e) w =
    subst (λ (ks : List ℕ). Remembers ks (minutes_of r.1 ++ known) (minutes_of r.1 ++ every))
      (sym e.1)
      (subst (λ (ns : List ℕ). Remembers s.emitted_minutes (ns ++ known) (ns ++ every)) (sym e.0) w)
Emits-Remembers s r known every (inr (m, (e, (f, g)))) w =
    subst (λ (ks : List ℕ). Remembers ks (minutes_of r.1 ++ known) (minutes_of r.1 ++ every))
      (sym f)
      (subst (λ (ns : List ℕ). Remembers (m ∷ s.emitted_minutes) (ns ++ known) (ns ++ every))
        (sym e) (added-Remembers m s.emitted_minutes known every w))

Emits-later :
    (s : State) (r : State × List Envelope) (ks known every : List ℕ)
    → Emits s r
    → Remembers ks known every
    → Remembers ks known (minutes_of r.1 ++ every)
Emits-later s r ks known every (inl e) w =
    subst (λ (ns : List ℕ). Remembers ks known (ns ++ every)) (sym e.0) w
Emits-later s r ks known every (inr (m, (e, (f, g)))) w =
    subst (λ (ns : List ℕ). Remembers ks known (ns ++ every)) (sym e)
      (later-Remembers m ks known every w)

-- Both states know enough.
Reached-Remembers :
    {b s : State} {kb ks every : List ℕ}
    → Reached b kb s ks every
    → Remembers b.emitted_minutes kb every × Remembers s.emitted_minutes ks every
unfolding saved forget_minute with_minutes_of
Reached-Remembers (begun s e) =
    let none_yet : Remembers s.emitted_minutes [] [] =
      subst (λ (ks : List ℕ). Remembers ks [] []) (sym e)
        (record { only = λ m h. h; recent = λ m h. inl h }) in
    (none_yet, none_yet)
Reached-Remembers (read {b = b} {s = s} {kb = kb} {ks = ks} {every = every} l r) =
    let w = Reached-Remembers r in
    (
      Emits-later s (derive l s) b.emitted_minutes kb every (derive-Emits l s) w.0,
      Emits-Remembers s (derive l s) ks every (derive-Emits l s) w.1,
    )
Reached-Remembers (advanced os r) = Reached-Remembers r
Reached-Remembers (forgotten {s = s} {ks = ks} {every = every} m r) =
    let w = Reached-Remembers r in (w.0, forgotten-Remembers m s.emitted_minutes ks every w.1)
Reached-Remembers (written {s = s} {ks = ks} {every = every} parent_key r) =
    let w = pruned-Remembers s.emitted_minutes ks every (Reached-Remembers r).1 in (w, w)
Reached-Remembers (registered {b = b} {kb = kb} {every = every} parent_key path os r) =
    let w = Reached-Remembers r in (pruned-Remembers b.emitted_minutes kb every w.0, w.1)
Reached-Remembers (replaced {every = every} t e r) = (
  subst (λ (ks : List ℕ). Remembers ks [] every) (sym e)
      (record { only = λ m h. absurd (nothing-emitted m h); recent = λ m h. inl h }),
  (Reached-Remembers r).1,
)
Reached-Remembers (merged {b = b} {s = s} {kb = kb} {ks = ks} {every = every} parent_key r) =
    let w = Reached-Remembers r in
    let p =
      pruned-Remembers (s.emitted_minutes ++ b.emitted_minutes) (ks ++ kb) every
        (merged-Remembers s.emitted_minutes b.emitted_minutes ks kb every w.1 w.0) in
    (p, p)
Reached-Remembers (reloaded r) = let w = (Reached-Remembers r).0 in (w, w)

-- A minute that the state in hand should know of, being emitted by it or by the saved state that it was
-- loaded from, and not given back since, is emitted again only when a minute more than 24 hours after it
-- was emitted before. So it is when lines are read, minutes forgotten, states saved, registered, merged
-- and replaced, and states lost and reloaded, in any order.
pub derive-repeats :
    {b : State} {kb : List ℕ} (s : State) (ks every : List ℕ) (l : Option Line) (m : ℕ)
    → Reached b kb s ks every
    → emitted m (minutes_of (derive l s).1) ≡ true
    → emitted m ks ≡ true
    → (k : ℕ) × ((emitted k every ≡ true) × (m + emitted_minutes_window < k))
derive-repeats s ks every l m r e p = elim (derive-Emits l s) [
  | inl n ↦ absurd (nothing-emitted m (subst (λ (ks : List ℕ). emitted m ks ≡ true) n.0 e))
  | inr w ↦ elim (emitted-cases m w.0 [] (subst (λ (ks : List ℕ). emitted m ks ≡ true) w.1.0 e)) [
    | inr n ↦ absurd (nothing-emitted m n)
    | inl q ↦
        let f : emitted m s.emitted_minutes ≡ false =
          subst (λ (x : ℕ). emitted x s.emitted_minutes ≡ false) q w.1.1.1 in
        elim ((Reached-Remembers r).1.recent m p) [
          | inr k ↦ k
          | inl t ↦ absurd (ground (arith, f, t))
        ]
  ]
]
