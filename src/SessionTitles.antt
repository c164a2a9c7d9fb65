-- ===== src/SessionTitles.antt =====
-- internal/atelierd/sessionstore (Derive, eventTypeFor, resolveActivityAt) and consumeStoreEntry of
-- internal/atelierd/cmds/session_store.go: the titles of Claude Desktop's sessions. A time is a number of
-- milliseconds, 0 is Go's zero time, and the ULID is the time that it is made of.
pub mod Changes
mod Tests
use homebrew_tools.Prelude.{
  ℕ, String, Bool, true, false, not, ◌&&◌, ◌||◌, Option, none, some, List, [], ◌∷◌, ◌++◌, ◌==◌, ltb,
  str_eq, if◌then◌else◌,
}

pub record Titled : Type 0 where
  pub id : String
  pub last_title : String
  pub last_title_source : String
  pub last_activity_at : ℕ

pub record Entry : Type 0 where
  pub id : String
  pub title : String
  pub title_source : String
  pub activity_at : ℕ

-- `resolveActivityAt`
unfoldable pub resolve_activity_at : ℕ → ℕ → ℕ
resolve_activity_at last_activity_at created_at =
    if ltb 0 last_activity_at then last_activity_at else created_at

pub data EventType : Type 0 where
  ai_title custom_title : EventType

-- `eventTypeFor`
unfoldable pub event_type_for : String → EventType
event_type_for source = if str_eq source "user" then custom_title else ai_title

abbrev pub type_eq : EventType → EventType → Bool
type_eq ai_title ai_title = true
type_eq custom_title custom_title = true
type_eq _ _ = false

pub record Envelope : Type 0 where
  pub stamp : ℕ
  pub type : EventType
  pub session : String
  pub title : String
  pub created_at : ℕ

-- Whether the state has the title of the entry, or neither has one.
unfoldable pub unchanged : Option Titled → Entry → Bool
unchanged none e = str_eq e.title ""
unchanged (some s) e =
    str_eq e.title s.last_title
    && type_eq (event_type_for e.title_source) (event_type_for s.last_title_source)

-- `Derive`
unfoldable pub derive : Option Titled → Entry → ℕ → List Envelope
derive state e now =
    if unchanged state e
    then []
    else record {
      stamp = if e.activity_at == 0 then now else e.activity_at;
      type = event_type_for e.title_source;
      session = e.id;
      title = e.title;
      created_at = now;
    }
      ∷ []

-- What a scan meets at one entry of a session: the entry, the time, and whether the state can be saved.
pub record Scan : Type 0 where
  pub entry : Entry
  pub now : ℕ
  pub saves : Bool

-- The end of `consumeStoreEntry`: the state is saved before the event is written.
unfoldable pub deliver : Option Titled → Scan → List Envelope → Option Titled × List Envelope
deliver state c [] = (state, [])
deliver state c (env ∷ envs) =
    if c.saves
    then (
      some (record {
        id = c.entry.id;
        last_title = c.entry.title;
        last_title_source = c.entry.title_source;
        last_activity_at = c.now;
      }),
      env ∷ envs,
    )
    else (state, [])

-- `consumeStoreEntry`, where the state could be loaded or is not there: the state after it, and what it
-- gives to the outbox.
unfoldable pub consume : Option Titled → Scan → Option Titled × List Envelope
consume state c = deliver state c (derive state c.entry c.now)

-- Scans, one after another.
unfoldable pub consume_all : Option Titled → List Scan → List Envelope
consume_all state [] = []
consume_all state (c ∷ cs) = let r = consume state c in r.1 ++ consume_all r.0 cs
