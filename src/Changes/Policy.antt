-- ===== src/Changes/Policy.antt =====
-- backend/app/services/change_policy.py: the tests on the type of a change, and
-- `should_emit_change`. `str.upper`, over all of Unicode, is a parameter.
use canvas_watcher.Base.{
  Bool, true, false, ◌&&◌, ◌||◌, List, [], ◌∷◌, Text, codes, ◌==◌, text_eq, strip, contains, any,
  if◌then◌else◌,
}
use canvas_watcher.Changes.Json.{Json, null, hidden_is, meaningful_value}

abbrev pub system_markers : List Text
system_markers =
    codes "SYSTEM"
    ∷ codes "AUTH"
    ∷ codes "TOKEN"
    ∷ codes "CREDENTIAL"
    ∷ codes "FETCH_STATUS"
    ∷ codes "SOURCE_HEALTH"
    ∷ []

abbrev pub reportable_change_types : List Text
reportable_change_types =
    codes "NEW_FILE"
    ∷ codes "FILE_ADDED"
    ∷ codes "CANVAS_FILE_ADDED"
    ∷ codes "NEW_ANNOUNCEMENT"
    ∷ codes "ANNOUNCEMENT_CREATED"
    ∷ codes "CANVAS_ANNOUNCEMENT_CREATED"
    ∷ codes "GRADE_RELEASED"
    ∷ codes "CANVAS_GRADE_RELEASED"
    ∷ codes "GRADESCOPE_GRADE_RELEASED"
    ∷ codes "PRAIRIELEARN_GRADE_RELEASED"
    ∷ []

abbrev pub generic_discovery_types : List Text
generic_discovery_types =
    codes "CREATED"
    ∷ codes "FILE_ADDED"
    ∷ codes "NEW_FILE"
    ∷ codes "NEW_CONTENT"
    ∷ codes "SOURCE_ITEM_CREATED"
    ∷ codes "CANVAS_FILE_ADDED"
    ∷ codes "CANVAS_PAGE_CREATED"
    ∷ codes "CANVAS_MODULE_CREATED"
    ∷ codes "CANVAS_MODULE_ITEM_CREATED"
    ∷ codes "CANVAS_CONTENT_CREATED"
    ∷ []

abbrev pub generic_removal_types : List Text
generic_removal_types =
    codes "DELETED"
    ∷ codes "FILE_REMOVED"
    ∷ codes "CONTENT_REMOVED"
    ∷ codes "SOURCE_ITEM_REMOVED"
    ∷ codes "CANVAS_FILE_REMOVED"
    ∷ codes "CANVAS_PAGE_REMOVED"
    ∷ codes "CANVAS_MODULE_REMOVED"
    ∷ codes "CANVAS_MODULE_ITEM_REMOVED"
    ∷ codes "CANVAS_CONTENT_REMOVED"
    ∷ []

-- `any(marker in value for marker in markers)`
abbrev pub has_any : List Text → Text → Bool
has_any markers value = any (λ m. contains m value) markers

abbrev pub is_one_of : List Text → Text → Bool
is_one_of names value = any (λ n. n == value) names

unfoldable pub system_value : Text → Bool
unfolding any contains
system_value value = value == codes "SYSTEM" || has_any system_markers value

abbrev pub is_null : Json → Bool
is_null null = true
is_null _ = false

abbrev pub is_hidden : Json → Bool
is_hidden = hidden_is (codes "hidden") true

abbrev pub is_shown : Json → Bool
is_shown = hidden_is (codes "hidden") false

module _ (upper : Text → Text) where
  unfoldable pub is_reportable_change_type : Text → Bool
  unfolding strip any
  is_reportable_change_type t = is_one_of reportable_change_types (upper (strip t))

  unfoldable pub is_system_change_type : Text → Bool
  unfolding strip system_value
  is_system_change_type t = system_value (upper (strip t))

  unfoldable pub in_domain : Text → Bool
  unfolding contains
  in_domain value = contains (codes "ASSIGNMENT") value || contains (codes "ANNOUNCEMENT") value

  unfoldable pub is_semantic_creation : Text → Bool
  unfolding any contains in_domain
  is_semantic_creation t =
      in_domain (upper t) && has_any (codes "CREATED" ∷ codes "PUBLISHED" ∷ []) (upper t)

  unfoldable pub is_semantic_removal : Text → Bool
  unfolding any contains in_domain
  is_semantic_removal t =
      in_domain (upper t) && has_any (codes "REMOVED" ∷ codes "UNPUBLISHED" ∷ []) (upper t)

  unfoldable pub is_generic_discovery : Text → Bool
  unfolding any strip
  is_generic_discovery t = is_one_of generic_discovery_types (upper (strip t))

  unfoldable pub is_generic_removal : Text → Bool
  unfolding any strip
  is_generic_removal t = is_one_of generic_removal_types (upper (strip t))

  -- The two tests on creation and removal read the text that is mapped already.
  unfoldable pub is_intrinsically_meaningful : Text → Bool
  unfolding any contains is_semantic_creation is_semantic_removal
  is_intrinsically_meaningful t =
      is_semantic_creation (upper t)
      || is_semantic_removal (upper t)
      || has_any (codes "DEADLINE" ∷ codes "POINT" ∷ codes "UNPUBLISHED" ∷ []) (upper t)
      || (contains (codes "FILE") (upper t)
          && has_any (codes "UPDATED" ∷ codes "CHANGED" ∷ codes "INVALID" ∷ codes "RENAMED" ∷ [])
              (upper t))

  unfoldable pub should_emit_change : Text → Json → Json → Bool
  unfolding is_reportable_change_type is_system_change_type is_semantic_creation is_semantic_removal
      is_generic_discovery is_generic_removal is_intrinsically_meaningful strip contains
  should_emit_change t old new =
      if is_null new || is_hidden new
      then false
      else if upper (strip t) == codes "NEW_FILE" && is_hidden old && is_shown new
      then true
      else if contains (codes "FILE_METADATA") (upper (strip t)) || is_system_change_type t
      then false
      else if is_reportable_change_type t || is_semantic_creation t || is_semantic_removal t
      then true
      else if is_generic_discovery t || is_generic_removal t
      then false
      else is_intrinsically_meaningful t || (meaningful_value old && meaningful_value new)
