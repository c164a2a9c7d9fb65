-- ===== src/SessionTitles/Tests.antt =====
-- Tests of the titles of Claude Desktop's sessions.
use homebrew_tools.Prelude.{String, Bool, true, false, none, List, [], ◌∷◌, ◌≡◌, refl, str_eq, map}
use homebrew_tools.SessionTitles.{
  EventType, ai_title, custom_title, event_type_for, unchanged, derive, Scan, deliver, consume,
  consume_all,
}
use homebrew_tools.SessionTitles.Changes.{Changing, consume_all-Changing}

abbrev scan : String → String → Bool → Scan
scan title source saves = record {
  entry = record { id = "s"; title = title; title_source = source; activity_at = 0 };
  now = 7;
  saves = saves;
}

abbrev scans : List Scan
scans =
    scan "" "auto" true
    ∷ (scan "one" "auto" false
        ∷ (scan "one" "auto" true ∷ (scan "one" "" true ∷ (scan "one" "user" true ∷ []))))

scans_run :
    map {B = String × EventType} (λ e. (e.title, e.type)) (consume_all none scans)
    ≡ ("one", ai_title) ∷ (("one", custom_title) ∷ [])
unfolding consume_all consume deliver derive unchanged event_type_for str_eq
scans_run = refl

consume_all-Changing_example : Changing none (consume_all none scans)
consume_all-Changing_example = consume_all-Changing none scans
