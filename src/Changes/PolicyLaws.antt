-- ===== src/Changes/PolicyLaws.antt =====
-- What `should_emit_change` answers for the types that users are told of.
use canvas_watcher.Base.{
  Bool, true, false, not, ◌||◌, List, [], ◌∷◌, Text, codes, ◌==◌, text_eq, text_beq, text_beq_iff,
  strip, contains, starts_with, any, All, ◌≡◌, refl, arith, Bool-cases, inl, inr,
}
use canvas_watcher.Changes.Json.{Json}
use canvas_watcher.Changes.Policy.{
  is_one_of, reportable_change_types, system_value, is_reportable_change_type,
  is_system_change_type, is_null, is_hidden, should_emit_change,
}

one_of_fails :
    (q : Text → Bool) (names : List Text) (v : Text)
    → All (λ n. q n ≡ false) names
    → is_one_of names v ≡ true
    → q v ≡ false
unfolding any
one_of_fails q [] v a h = cc
one_of_fails q (n ∷ names) v a h = elim (Bool-cases (n == v)) [
  | inl e ↦ rw⁻¹ ((text_beq_iff n v).0 e) a.0
  | inr e ↦ one_of_fails q names v a.1 (ground (arith, h, e))
]

-- No reportable type is one of the system or of a file's metadata.
plain_types :
    All
      (λ n. (contains (codes "FILE_METADATA") n || system_value n) ≡ false)
      reportable_change_types
unfolding contains starts_with system_value any text_beq
plain_types = (refl, (refl, (refl, (refl, (refl, (refl, (refl, (refl, (refl, (refl, tt))))))))))

-- A difference of a reportable type is emitted exactly where its new value is there and not hidden,
-- whatever the old value is.
pub should_emit-reportable :
    (upper : Text → Text) (t : Text) (old new : Json)
    → is_reportable_change_type upper t ≡ true
    → should_emit_change upper t old new ≡ not (is_null new || is_hidden new)
unfolding should_emit_change is_reportable_change_type is_system_change_type
should_emit-reportable upper t old new h = ground (
  arith,
  h,
  one_of_fails (λ v. contains (codes "FILE_METADATA") v || system_value v) reportable_change_types
      (upper (strip t)) plain_types h,
)
