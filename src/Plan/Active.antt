-- ===== src/Plan/Active.antt =====
-- backend/app/services/planner.py: the plans that `Planner.rebuild` supersedes and adds.
use canvas_watcher.Base.{
  ℕ, ◌+◌, Bool, true, false, ◌*◌, List, [], ◌∷◌, ◌++◌, count_where, update_where, ◌≡◌, refl, arith,
}
use canvas_watcher.Base.Table.Rows.{count_where-append}
use canvas_watcher.Plan.Blocks.{minute, Wall, wall, Zone}

pub data PlanStatus : Type 0 where
  active superseded : PlanStatus

pub record PlanRow : Type 0 where
  pub id : ℕ
  pub window_start : ℕ
  pub window_end : ℕ
  pub status : PlanStatus

abbrev pub is_active : PlanRow → Bool
is_active p = elim p.status [ active ↦ true | superseded ↦ false ]

-- `id` is the key that the flush gives the new plan.
unfoldable pub replan : Zone → ℕ → Wall → List PlanRow → List PlanRow
unfolding update_where
replan as_utc id now plans =
    update_where is_active (λ p. record p { status = superseded }) plans
    ++ record {
      id = id;
      window_start = as_utc now;
      window_end = as_utc (wall (now.at + 7 * 24 * 60 * minute));
      status = active;
    }
      ∷ []

none_active :
    (plans : List PlanRow)
    → count_where is_active (update_where is_active (λ p. record p { status = superseded }) plans)
      ≡ 0
unfolding count_where update_where
none_active [] = refl
none_active (p ∷ ps) = ground (arith, none_active ps)

-- Behind a rebuild exactly one plan is active, whatever plans there were.
pub one_active-replan :
    (as_utc : Zone) (id : ℕ) (now : Wall) (plans : List PlanRow)
    → count_where is_active (replan as_utc id now plans) ≡ 1
unfolding replan count_where
one_active-replan as_utc id now plans = ground (
  arith,
  none_active plans,
  count_where-append is_active
      (update_where is_active (λ p. record p { status = superseded }) plans)
      (record {
        id = id;
        window_start = as_utc now;
        window_end = as_utc (wall (now.at + 7 * 24 * 60 * minute));
        status = active;
      }
        ∷ []),
)
