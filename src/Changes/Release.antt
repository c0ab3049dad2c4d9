-- ===== src/Changes/Release.antt =====
-- backend/app/services/change_policy.py: the release of a grade, and the events that a user sees. The
-- lookup of a snapshot's `structured_json` is an argument.
use canvas_watcher.Base.{
  ℕ, Bool, true, false, not, ◌&&◌, ◌||◌, Option, none, some, [], ◌∷◌, Text, codes, ◌==◌, text_eq,
  nat_eq, strip, starts_with, if◌then◌else◌, ◌≡◌, ◌∙◌, sym, ap, refl,
}
use mathlib.Core.List.{reverse}
use canvas_watcher.Changes.Json.{
  Json, null, boolean, number, string, array, object, end_items, item, Fields, end_fields, field,
  get, is_boolean,
}
use canvas_watcher.Changes.Policy.{is_reportable_change_type, should_emit_change}

-- `key in values`
unfoldable pub has_key : Text → Fields → Bool
has_key key end_fields = false
has_key key (field k x fs) = k == key || has_key key fs

abbrev is_empty : Fields → Bool
is_empty end_fields = true
is_empty (field k x fs) = false

-- `not value`, a number written as `str` writes it
abbrev is_falsy : Json → Bool
is_falsy null = true
is_falsy (boolean b) = not b
is_falsy (number n) = n == codes "0" || n == codes "0.0" || n == codes "-0.0"
is_falsy (string []) = true
is_falsy (string (c ∷ t)) = false
is_falsy (array end_items) = true
is_falsy (array (item x xs)) = false
is_falsy (object fs) = is_empty fs

abbrev says_something : Text → Bool
says_something t = not (t == [] || t == codes "unknown")

-- `value is not None and str(value).strip() not in {"", "unknown"}`
unfoldable pub is_score : Json → Bool
unfolding strip
is_score null = false
is_score (string t) = says_something (strip t)
is_score (number n) = says_something (strip n)
is_score _ = true

abbrev dict_of : Json → Option Fields
dict_of (object fs) = some fs
dict_of _ = none

abbrev submission_of : Fields → Json
submission_of values =
    if has_key (codes "submission") values then get (codes "submission") values else object values

abbrev grade_of : Option Fields → Fields → Option Fields
grade_of (some facts) values = some facts
grade_of none values = dict_of (submission_of values)

abbrev released : Json → Option Fields → Bool
released facts none = false
released facts (some grade) =
    if is_boolean false (get (codes "grade_published") grade)
      || is_boolean true (get (codes "grades_hidden") grade)
    then false
    else if is_falsy facts
        && has_key (codes "posted_at") grade
        && is_falsy (get (codes "posted_at") grade)
    then false
    else is_boolean true (get (codes "grade_published") grade)
      || is_score (get (codes "score") grade)
      || is_score (get (codes "grade") grade)

unfoldable pub grade_is_released : Option Fields → Bool
unfolding get has_key is_score
grade_is_released none = false
grade_is_released (some values) =
    let facts = get (codes "provider_facts") values in
    if is_empty values then false else released facts (grade_of (dict_of facts) values)

unfoldable pub is_grade_release : Option Fields → Option Fields → Bool
unfolding grade_is_released
is_grade_release old new = not (grade_is_released old) && grade_is_released new

-- str.endswith
unfoldable pub ends_with : Text → Text → Bool
unfolding starts_with
ends_with s end = starts_with (reverse s) (reverse end)

pub record ChangeEvent : Type 0 where
  pub change_type : Text
  pub old_snapshot_id : Option ℕ
  pub new_snapshot_id : Option ℕ

abbrev json_of : Option Fields → Json
json_of none = null
json_of (some fs) = object fs

abbrev is_none : Option ℕ → Bool
is_none none = true
is_none (some i) = false

first_one :
    (b : Bool) (old new : Option Fields)
    → (b && is_grade_release old new) ≡ true
    → grade_is_released new ≡ true
unfolding is_grade_release
first_one b old new h = and_last b (not (grade_is_released old)) (grade_is_released new) h
  where
    and_last : (a b c : Bool) → (a && (b && c)) ≡ true → c ≡ true
    and_last true true c h = h
    and_last true false c h = cc h
    and_last false b c h = cc h

not_again :
    (b : Bool) (old new : Option Fields)
    → grade_is_released old ≡ true
    → (b && is_grade_release old new) ≡ false
unfolding is_grade_release
not_again true old new h = rw h refl
not_again false old new h = refl

module _ (upper : Text → Text) (snapshot : ℕ → Option Fields) where
  -- `event_snapshots`, one of the two
  abbrev pub snapshot_of : Option ℕ → Option Fields
  snapshot_of none = none
  snapshot_of (some i) = if i == 0 then none else snapshot i

  abbrev pub is_grade_event : Text → Bool
  is_grade_event t = ends_with (upper t) (codes "_ASSIGNMENT_GRADE_CHANGED")

  unfoldable pub is_user_facing_event : ChangeEvent → Bool
  unfolding is_reportable_change_type should_emit_change is_grade_release ends_with
  is_user_facing_event e =
      if not (is_reportable_change_type upper e.change_type)
      then is_grade_event e.change_type
        && is_grade_release (snapshot_of e.old_snapshot_id) (snapshot_of e.new_snapshot_id)
      else if is_none e.old_snapshot_id && is_none e.new_snapshot_id
      then true
      else should_emit_change upper e.change_type (json_of (snapshot_of e.old_snapshot_id))
          (json_of (snapshot_of e.new_snapshot_id))

  facing_grade :
      (e : ChangeEvent)
      → is_reportable_change_type upper e.change_type ≡ false
      → is_user_facing_event e ≡ (
          is_grade_event e.change_type
          && is_grade_release (snapshot_of e.old_snapshot_id) (snapshot_of e.new_snapshot_id))
  unfolding is_user_facing_event
  facing_grade e h = rw h refl

  -- Of two events whose types are not reportable by themselves, such as changes of a grade, the second
  -- of which begins with the snapshot that the first ends with, a user sees one at most.
  pub grade_event_once :
      (e f : ChangeEvent)
      → is_reportable_change_type upper e.change_type ≡ false
      → is_reportable_change_type upper f.change_type ≡ false
      → f.old_snapshot_id ≡ e.new_snapshot_id
      → is_user_facing_event e ≡ true
      → is_user_facing_event f ≡ false
  grade_event_once e f h k same seen =
      facing_grade f k
      ∙ not_again (is_grade_event f.change_type) (snapshot_of f.old_snapshot_id)
          (snapshot_of f.new_snapshot_id)
          (ap (λ i. grade_is_released (snapshot_of i)) same
            ∙ first_one (is_grade_event e.change_type) (snapshot_of e.old_snapshot_id)
                (snapshot_of e.new_snapshot_id) (sym (facing_grade e h) ∙ seen))
