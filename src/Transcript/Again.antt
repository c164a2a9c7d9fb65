-- ===== src/Transcript/Again.antt =====
-- internal/atelierd/transcript/derive.go: a line that is read again gives nothing.
use homebrew_tools.Prelude.{
  ℕ, String, Bool, true, false, ◌&&◌, Option, none, some, List, [], ◌∷◌, ◌++◌, str_eq, ◌≡◌, refl,
  sym, ap, ◌∙◌, arith, if_elim, str_eq_refl,
}
use homebrew_tools.Transcript.{
  State, TitleType, untitled, ai_title, custom_title, title_type_eq, Line, Envelope, emitted,
  mark_minute, derive_title, derive_heartbeat, heartbeat, derive_as, derive,
}

title_type_eq_refl : (t : TitleType) → title_type_eq t t ≡ true
title_type_eq_refl untitled = refl
title_type_eq_refl ai_title = refl
title_type_eq_refl custom_title = refl

-- Whether the title of a line is the last one.
abbrev known_title : TitleType → Line → State → Bool
known_title untitled l s = true
known_title ai_title l s = str_eq l.ai s.last_title && title_type_eq ai_title s.last_title_type
known_title custom_title l s =
    str_eq l.custom s.last_title && title_type_eq custom_title s.last_title_type

derive_as_known :
    (k : TitleType) (l : Line) (s : State) → known_title k l s ≡ true → derive_as k l s ≡ (s, [])
unfolding derive_as derive_title
derive_as_known untitled l s h = refl
derive_as_known ai_title l s h = ground (arith, h)
derive_as_known custom_title l s h = ground (arith, h)

known_title-derive_as :
    (k : TitleType) (l : Line) (s : State) → known_title k l (derive_as k l s).0 ≡ true
unfolding derive_as derive_title
known_title-derive_as untitled l s = refl
known_title-derive_as ai_title l s = ground (arith, str_eq_refl l.ai)
known_title-derive_as custom_title l s = ground (arith, str_eq_refl l.custom)

known_title_same :
    (k : TitleType) (l : Line) (a b : State)
    → a.last_title ≡ b.last_title
    → a.last_title_type ≡ b.last_title_type
    → known_title k l b ≡ known_title k l a
known_title_same untitled l a b t u = refl
known_title_same ai_title l a b t u =
    ap (λ (x : String). str_eq l.ai x && title_type_eq ai_title b.last_title_type) (sym t)
    ∙ ap (λ (x : TitleType). str_eq l.ai a.last_title && title_type_eq ai_title x) (sym u)
known_title_same custom_title l a b t u =
    ap (λ (x : String). str_eq l.custom x && title_type_eq custom_title b.last_title_type) (sym t)
    ∙ ap (λ (x : TitleType). str_eq l.custom a.last_title && title_type_eq custom_title x) (sym u)

known_title-derive_heartbeat :
    (k : TitleType) (l : Line) (m : Option ℕ) (s : State)
    → known_title k l (derive_heartbeat m s).0 ≡ known_title k l s
unfolding derive_heartbeat mark_minute
known_title-derive_heartbeat k l none s = refl
known_title-derive_heartbeat k l (some m) s =
    if_elim (λ (r : State × Bool). known_title k l (heartbeat m r).0 ≡ known_title k l s)
      (emitted m s.emitted_minutes) (s, false)
      (record s { emitted_minutes = m ∷ s.emitted_minutes }, true) (λ b. refl)
      (λ b. known_title_same k l s (record s { emitted_minutes = m ∷ s.emitted_minutes }) refl refl)

derive_heartbeat-derive_heartbeat :
    (m : Option ℕ) (s : State)
    → derive_heartbeat m (derive_heartbeat m s).0 ≡ ((derive_heartbeat m s).0, [])
unfolding derive_heartbeat mark_minute emitted
derive_heartbeat-derive_heartbeat none s = refl
derive_heartbeat-derive_heartbeat (some m) s =
    if_elim
      (λ (r : State × Bool).
        heartbeat m (mark_minute m (heartbeat m r).0) ≡ ((heartbeat m r).0, []))
      (emitted m s.emitted_minutes) (s, false)
      (record s { emitted_minutes = m ∷ s.emitted_minutes }, true) (λ b. ground (arith, b))
      (λ b. ground arith)

-- A line that is read again at once gives no event and leaves the state as it is.
pub derive-derive : (l : Option Line) (s : State) → derive l (derive l s).0 ≡ ((derive l s).0, [])
unfolding derive
derive-derive none s = refl
derive-derive (some l) s =
    let t = derive_as l.kind l s in
    let h = derive_heartbeat l.minute t.0 in
    let k : derive_as l.kind l h.0 ≡ (h.0, []) =
      derive_as_known l.kind l h.0
        (known_title-derive_heartbeat l.kind l l.minute t.0 ∙ known_title-derive_as l.kind l s) in
    ap
      (λ (r : State × List Envelope).
        ((derive_heartbeat l.minute r.0).0, r.1 ++ (derive_heartbeat l.minute r.0).1))
      k
    ∙ ap (λ (r : State × List Envelope). (r.0, [] ++ r.1))
        (derive_heartbeat-derive_heartbeat l.minute t.0)
