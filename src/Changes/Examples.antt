-- ===== src/Changes/Examples.antt =====
-- The theorem on changes at a concrete input; the case mapping is that of ASCII letters here.
use canvas_watcher.Base.{
  ℕ, Option, none, some, ◌==◌, nat_eq, ◌-◌, ◌&&◌, true, false, Text, codes, map, leb, if◌then◌else◌,
  ◌≡◌, refl, text_beq, any, strip, lstrip, is_space, starts_with, contains,
}
use canvas_watcher.Changes.Json.{
  Json, Fields, boolean, number, object, field, end_fields, get, hidden_is, meaningful_value,
}
use canvas_watcher.Changes.Release.{
  ChangeEvent, has_key, is_score, grade_is_released, is_grade_release, ends_with,
  is_user_facing_event, grade_event_once,
}
use canvas_watcher.Changes.Policy.{
  is_reportable_change_type, is_system_change_type, is_semantic_creation, is_semantic_removal,
  in_domain, is_generic_discovery, is_generic_removal, is_intrinsically_meaningful, system_value,
  should_emit_change,
}

policy_runs : Unit {0}
unfolding is_reportable_change_type is_system_change_type is_semantic_creation is_semantic_removal
    in_domain is_generic_discovery is_generic_removal is_intrinsically_meaningful system_value
    should_emit_change hidden_is get meaningful_value text_beq any strip lstrip is_space starts_with
    contains
policy_runs = tt

abbrev upper : Text → Text
upper = map (λ c. if leb b'a' c && leb c b'z' then c - 32 else c)

abbrev shown : Json
shown = object (field (codes "hidden") (boolean false) end_fields)

new_file_counts : is_reportable_change_type upper (codes " new_file") ≡ true
unfolding policy_runs
new_file_counts = refl

token_fetch_hidden : should_emit_change upper (codes "TOKEN_REFRESHED") shown shown ≡ false
unfolding policy_runs
token_fetch_hidden = refl

-- A score is entered, and corrected.
abbrev scores : ℕ → Option Fields
scores n =
    some (field (codes "score") (number (if n == 1 then codes "80" else codes "90")) end_fields)

abbrev first_score : ChangeEvent
first_score = record {
  change_type = codes "CANVAS_ASSIGNMENT_GRADE_CHANGED";
  old_snapshot_id = none;
  new_snapshot_id = some 1;
}

abbrev corrected : ChangeEvent
corrected = record first_score { old_snapshot_id = some 1; new_snapshot_id = some 2 }

grade_runs : Unit {0}
unfolding is_reportable_change_type is_user_facing_event is_grade_release grade_is_released has_key
    is_score ends_with get text_beq any strip lstrip is_space starts_with
grade_runs = tt

not_reportable : is_reportable_change_type upper first_score.change_type ≡ false
unfolding grade_runs
not_reportable = refl

seen_once : is_user_facing_event upper scores first_score ≡ true
unfolding grade_runs
seen_once = refl

grade_event_once_example : is_user_facing_event upper scores corrected ≡ false
grade_event_once_example =
    grade_event_once upper scores first_score corrected not_reportable not_reportable refl seen_once
