-- ===== src/Transcript/Tests.antt =====
-- Tests of the transcripts of a session.
use homebrew_tools.Prelude.{
  ℕ, ◌+◌, ◌<◌, String, true, false, some, [], ◌∷◌, ◌≡◌, refl, str_eq, has_char,
}
use homebrew_tools.Transcript.{
  State, untitled, ai_title, Line, titled, active, emitted, mark_minute, derive_title,
  derive_heartbeat, derive_as, derive, LegacyState, saved, prune_minutes, newest_of, migrated,
  migrate_legacy, valid_key, emitted_minutes_window,
}
use homebrew_tools.Transcript.Again.{derive-derive}
use homebrew_tools.Transcript.Minutes.{minutes_of, Reached, derive-repeats}
use homebrew_tools.Transcript.Minutes.Reached.{begun, read, written, reloaded}
use homebrew_tools.Transcript.Migration.{Carries, migrate_legacy-Carries}

abbrev empty : State
empty = record {
  session_id = "s";
  jsonl_path = "/p/s.jsonl";
  offsets = [];
  emitted_minutes = [];
  last_title = "";
  last_title_type = untitled;
  version = 2;
  legacy_parent_offset = 0;
}

abbrev line : ℕ → Line
line m = record { kind = ai_title; ai = "a title"; custom = ""; minute = some m }

derive_run : (derive (some (line 5)) empty).1 ≡ titled ai_title "a title" ∷ (active 5 ∷ [])
unfolding derive derive_as derive_title derive_heartbeat mark_minute emitted str_eq
derive_run = refl

valid_key_run :
    (valid_key "0a1b-2c" ≡ true) × ((valid_key ".." ≡ false) × (valid_key "../x" ≡ false))
unfolding valid_key has_char str_eq
valid_key_run = (refl, (refl, refl))

derive-derive_example :
    derive (some (line 5)) (derive (some (line 5)) empty).0 ≡ ((derive (some (line 5)) empty).0, [])
derive-derive_example = derive-derive (some (line 5)) empty

-- Minute 5, then minute 2000, a save that forgets minute 5, and minute 5 again.
abbrev later : State
later = saved "s.jsonl" (derive (some (line 2000)) (derive (some (line 5)) empty).0).0

-- A poll that reads minute 5 and is not saved, then polls that read it again and minute 2000.
later-Reached : Reached later (2000 ∷ (5 ∷ [])) later (2000 ∷ (5 ∷ [])) (2000 ∷ (5 ∷ (5 ∷ [])))
unfolding derive derive_as derive_title derive_heartbeat mark_minute emitted str_eq
later-Reached = written "s.jsonl" (
    read (some (line 2000))
      (read (some (line 5)) (reloaded (read (some (line 5)) (begun empty refl)))))

repeated_run : emitted 5 (minutes_of (derive (some (line 5)) later).1) ≡ true
unfolding derive derive_as derive_title derive_heartbeat mark_minute emitted str_eq saved
    prune_minutes newest_of
repeated_run = refl

before_run : emitted 5 (2000 ∷ (5 ∷ [])) ≡ true
unfolding emitted
before_run = refl

derive-repeats_example :
    (k : ℕ) × ((emitted k (2000 ∷ (5 ∷ (5 ∷ []))) ≡ true) × (5 + emitted_minutes_window < k))
derive-repeats_example =
    derive-repeats later (2000 ∷ (5 ∷ [])) (2000 ∷ (5 ∷ (5 ∷ []))) (some (line 5)) 5 later-Reached
      repeated_run before_run

abbrev old : String → ℕ → LegacyState
old path n = record { jsonl_path = path; offset = n; last_title = ""; last_title_type = untitled }

abbrev same : String → String
same path = path

abbrev result : State
result =
    saved "/p/s.jsonl" (migrated same "s" (old "/p/s.jsonl" 40) (some (old "/p/a.jsonl" 7) ∷ []))

path_run : str_eq "/p/a.jsonl" "" ≡ false
unfolding str_eq
path_run = refl

other_run : str_eq "/p/a.jsonl" "/p/s.jsonl" ≡ false
unfolding str_eq
other_run = refl

migrated_run :
    migrate_legacy same "s" (old "/p/s.jsonl" 40) (some (old "/p/a.jsonl" 7) ∷ []) ≡ some result
unfolding migrate_legacy str_eq
migrated_run = refl

migrate_legacy-Carries_example : Carries same (old "/p/s.jsonl" 40) (old "/p/a.jsonl" 7) result
migrate_legacy-Carries_example =
    migrate_legacy-Carries same "s" (old "/p/s.jsonl" 40) (old "/p/a.jsonl" 7) [] [] result path_run
      tt (other_run, tt) migrated_run
