-- ===== src/Transcript.antt =====
-- internal/atelierd/transcript/state.go and derive.go: the state of one session's transcripts, and the
-- events that its lines give. A minute is its number, and its key, of which the order is that of the time,
-- stands for it; a line that is no JSON, or whose time cannot be parsed, is `none`. The keys of the offsets
-- are an argument, as are the clock's readings and the ULIDs left out.

pub mod Again
pub mod Migration
mod Tests
pub mod Minutes
use homebrew_tools.Prelude.{
  ℕ, zero, suc, ◌+◌, ◌-◌, String, Bool, true, false, not, ◌&&◌, ◌||◌, Option, none, some, List, [],
  ◌∷◌, ◌++◌, ◌==◌, ltb, leb, str_eq, if◌then◌else◌, keep, max, is_some, has_char,
}

abbrev pub schema_version : ℕ
schema_version = 2

-- 24 hours, in minutes.
abbrev pub emitted_minutes_window : ℕ
emitted_minutes_window = 1440

-- The two kinds of title events, and no title yet.
pub data TitleType : Type 0 where
  untitled ai_title custom_title : TitleType

abbrev pub title_type_eq : TitleType → TitleType → Bool
title_type_eq untitled untitled = true
title_type_eq ai_title ai_title = true
title_type_eq custom_title custom_title = true
title_type_eq _ _ = false

pub record Offset : Type 0 where
  pub key : String
  pub offset : ℕ

-- The fields of LastActivityAt, which the reader sets, are left out.
pub record State : Type 0 where
  pub session_id : String
  pub jsonl_path : String
  pub offsets : List Offset
  pub emitted_minutes : List ℕ
  pub last_title : String
  pub last_title_type : TitleType
  pub version : ℕ
  pub legacy_parent_offset : ℕ

unfoldable pub emitted : ℕ → List ℕ → Bool
emitted m [] = false
emitted m (k ∷ ks) = (k == m) || emitted m ks

-- `markMinute`
unfoldable pub mark_minute : ℕ → State → State × Bool
mark_minute m s =
    if emitted m s.emitted_minutes
    then (s, false)
    else (record s { emitted_minutes = m ∷ s.emitted_minutes }, true)

-- `ForgetMinute`
unfoldable pub forget_minute : ℕ → State → State
forget_minute m s = record s { emitted_minutes = keep (λ k. not (k == m)) s.emitted_minutes }

unfoldable pub newest_of : List ℕ → ℕ
newest_of [] = 0
newest_of (k ∷ ks) = let rest = newest_of ks in if ltb rest k then k else rest

-- `pruneEmittedMinutes`
unfoldable pub prune_minutes : List ℕ → List ℕ
prune_minutes ks = keep (λ k. not (ltb k (newest_of ks - emitted_minutes_window))) ks

-- `Offset` and `SetOffset`, at a key.
unfoldable pub offset_at : String → List Offset → ℕ
offset_at key [] = 0
offset_at key (o ∷ os) = if str_eq o.key key then o.offset else offset_at key os

unfoldable pub set_offset : String → ℕ → List Offset → List Offset
set_offset key n [] = record { key = key; offset = n } ∷ []
set_offset key n (o ∷ os) =
    let rest = set_offset key n os in
    if str_eq o.key key then record { key = key; offset = n } ∷ os else o ∷ rest

-- What `saveStateLocked` writes, where the transcript's own path has the key.
unfoldable pub saved : String → State → State
saved parent_key s = record s {
  emitted_minutes = prune_minutes s.emitted_minutes;
  version = schema_version;
  legacy_parent_offset = offset_at parent_key s.offsets;
}

-- `validateKey`: '/' is 47, '\' is 92, ':' is 58.
unfoldable pub valid_key : String → Bool
valid_key key =
    not (str_eq key "" || str_eq key "." || str_eq key "..")
    && not (has_char 47 key || has_char 92 key || has_char 58 key || has_char 0 key)

pub record LegacyState : Type 0 where
  pub jsonl_path : String
  pub offset : ℕ
  pub last_title : String
  pub last_title_type : TitleType

-- The loop of `migrateLegacyState` over the states of the subagents, `none` where one cannot be read.
unfoldable pub fold_offsets :
    (String → String) → List (Option LegacyState) → List Offset → List Offset
fold_offsets key_of [] os = os
fold_offsets key_of (none ∷ subs) os = fold_offsets key_of subs os
fold_offsets key_of (some sub ∷ subs) os =
    if str_eq sub.jsonl_path ""
    then fold_offsets key_of subs os
    else fold_offsets key_of subs (set_offset (key_of sub.jsonl_path) sub.offset os)

-- The tree state that `migrateLegacyState` builds, before it is saved.
abbrev pub migrated : (String → String) → String → LegacyState → List (Option LegacyState) → State
migrated key_of id legacy subs = record {
  session_id = id;
  jsonl_path = legacy.jsonl_path;
  offsets = fold_offsets key_of subs (set_offset (key_of legacy.jsonl_path) legacy.offset []);
  emitted_minutes = [];
  last_title = legacy.last_title;
  last_title_type = legacy.last_title_type;
  version = 0;
  legacy_parent_offset = 0;
}

-- `migrateLegacyState`, where the state could be read: `none` retires a state without a transcript.
unfoldable pub migrate_legacy :
    (String → String) → String → LegacyState → List (Option LegacyState) → Option State
migrate_legacy key_of id legacy subs =
    if str_eq legacy.jsonl_path ""
    then none
    else some (saved (key_of legacy.jsonl_path) (migrated key_of id legacy subs))

-- A line: its type, its titles, and the minute of its time.
pub record Line : Type 0 where
  pub kind : TitleType
  pub ai : String
  pub custom : String
  pub minute : Option ℕ

pub data Envelope : Type 0 where
  titled : TitleType → String → Envelope
  active : ℕ → Envelope

-- `deriveTitle`
unfoldable pub derive_title : TitleType → String → State → State × List Envelope
derive_title t title s =
    if str_eq title s.last_title && title_type_eq t s.last_title_type
    then (s, [])
    else (record s { last_title = title; last_title_type = t }, titled t title ∷ [])

abbrev pub heartbeat : ℕ → State × Bool → State × List Envelope
heartbeat m (s, true) = (s, active m ∷ [])
heartbeat m (s, false) = (s, [])

-- `deriveHeartbeat`
unfoldable pub derive_heartbeat : Option ℕ → State → State × List Envelope
derive_heartbeat none s = (s, [])
derive_heartbeat (some m) s = heartbeat m (mark_minute m s)

-- The switch of `Derive`.
unfoldable pub derive_as : TitleType → Line → State → State × List Envelope
derive_as untitled l s = (s, [])
derive_as ai_title l s = derive_title ai_title l.ai s
derive_as custom_title l s = derive_title custom_title l.custom s

-- `Derive`
unfoldable pub derive : Option Line → State → State × List Envelope
derive none s = (s, [])
derive (some l) s =
    let t = derive_as l.kind l s in let h = derive_heartbeat l.minute t.0 in (h.0, t.1 ++ h.1)
