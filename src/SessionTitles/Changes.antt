-- ===== src/SessionTitles/Changes.antt =====
-- internal/atelierd/sessionstore: a title is given to the outbox only when it changed.
use homebrew_tools.Prelude.{
  String, true, false, Option, none, some, List, [], ◌∷◌, ◌++◌, str_eq, if◌then◌else◌, ◌==◌, ◌≡◌,
  ◌≢◌, refl, sym, subst, arith, if_elim, str_eq_refl,
}
use homebrew_tools.SessionTitles.{
  Titled, Entry, EventType, ai_title, custom_title, type_eq, event_type_for, Envelope, unchanged,
  derive, Scan, deliver, consume, consume_all,
}

-- The title and its kind that the state remembers.
abbrev pub last_of : Option Titled → Option (String × EventType)
last_of none = none
last_of (some s) = some (s.last_title, event_type_for s.last_title_source)

-- Each event has another title, or another kind, than the one before.
abbrev pub Changing : Option (String × EventType) → List Envelope → Type 0
Changing last [] = Unit
Changing last (e ∷ es) = (last ≢ some (e.title, e.type)) × Changing (some (e.title, e.type)) es

type_eq_refl : (t : EventType) → type_eq t t ≡ true
type_eq_refl ai_title = refl
type_eq_refl custom_title = refl

same-unchanged :
    (s : Titled) (e : Entry)
    → unchanged (some s) e ≡ false
    → ◌≢◌ {A = String × EventType}
        (s.last_title, event_type_for s.last_title_source)
        (e.title, event_type_for e.title_source)
unfolding unchanged
same-unchanged s e h p =
    let t : str_eq e.title s.last_title ≡ true =
      subst (λ (x : String × EventType). str_eq e.title x.0 ≡ true) (sym p) (str_eq_refl e.title) in
    let u : type_eq (event_type_for e.title_source) (event_type_for s.last_title_source) ≡ true =
      subst (λ (x : String × EventType). type_eq (event_type_for e.title_source) x.1 ≡ true) (sym p)
        (type_eq_refl (event_type_for e.title_source)) in
    absurd (ground (arith, h, t, u))

changed-ne :
    (state : Option Titled) (e : Entry)
    → unchanged state e ≡ false
    → last_of state ≢ some (e.title, event_type_for e.title_source)
unfolding unchanged
changed-ne none e h q = cc q
changed-ne (some s) e h q = same-unchanged s e h (cc q)

-- One scan: the state after it remembers the event.
consume-Changing :
    (state : Option Titled) (c : Scan) (later : Option Titled → List Envelope)
    → ((next : Option Titled) → Changing (last_of next) (later next))
    → Changing (last_of state) ((consume state c).1 ++ later (consume state c).0)
unfolding consume derive deliver
consume-Changing state c later k =
    let env : Envelope = record {
      stamp = if c.entry.activity_at == 0 then c.now else c.entry.activity_at;
      type = event_type_for c.entry.title_source;
      session = c.entry.id;
      title = c.entry.title;
      created_at = c.now;
    } in
    let next : Option Titled = some (record {
      id = c.entry.id;
      last_title = c.entry.title;
      last_title_source = c.entry.title_source;
      last_activity_at = c.now;
    }) in
    if_elim
      (λ (es : List Envelope).
        Changing (last_of state) ((deliver state c es).1 ++ later (deliver state c es).0))
      (unchanged state c.entry) [] (env ∷ []) (λ h. k state)
      (λ h.
        if_elim (λ (r : Option Titled × List Envelope). Changing (last_of state) (r.1 ++ later r.0))
          c.saves (next, env ∷ []) (state, []) (λ b. (changed-ne state c.entry h, k next))
          (λ b. k state))

-- However the entries of a session are scanned, and whichever saves fail, two events in a row never have
-- the same title and kind, and the first never has those that were saved before.
pub consume_all-Changing :
    (state : Option Titled) (cs : List Scan) → Changing (last_of state) (consume_all state cs)
unfolding consume_all
consume_all-Changing state [] = tt
consume_all-Changing state (c ∷ cs) =
    consume-Changing state c (λ next. consume_all next cs) (λ next. consume_all-Changing next cs)
