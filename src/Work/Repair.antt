-- ===== src/Work/Repair.antt =====
-- backend/app/services/completion_repair.py: the repair of progress of a hundred percent on tasks
-- that were never completed. Tasks stand in the order of their ids.
use canvas_watcher.Base.{
  ℕ, suc, Bool, true, false, not, ◌&&◌, ◌||◌, Option, none, some, List, [], ◌∷◌, Text, codes, ◌==◌,
  text_eq, nat_eq, ltb, min, max, length, if◌then◌else◌, select, fetch_one, count_where,
  update_where,
}
use canvas_watcher.Work.Schema.{
  Task, TaskWorkSession, TaskProgress, ready_to_submit, Db, value_error, runtime_error, Result, ok,
  err, full, latest,
}
use canvas_watcher.Work.Progress.{opened_for}

pub record Scale : Type 0 where
  pub count : ℕ
  pub least : Option ℕ
  pub greatest : Option ℕ
  pub fractional_below_one : ℕ

pub record Candidate : Type 0 where
  pub task_id : ℕ
  pub progress_id : ℕ
  pub expected_revision : ℕ
  pub completion_at : Option ℕ
  pub origin : Text

pub record RepairPlan : Type 0 where
  pub scale : Scale
  pub candidates : List Candidate
  -- the tasks with an open timer
  pub skipped : List ℕ

unfoldable pub percents : List TaskProgress → List ℕ
percents [] = []
percents (p ∷ ps) =
    let rest = percents ps in elim p.progress_percent [ none ↦ rest | some v ↦ v ∷ rest ]

abbrev least_with : ℕ → Option ℕ → Option ℕ
least_with v none = some v
least_with v (some w) = some (min v w)

abbrev greatest_with : ℕ → Option ℕ → Option ℕ
greatest_with v none = some v
greatest_with v (some w) = some (max v w)

unfoldable pub least_of : List ℕ → Option ℕ
least_of [] = none
least_of (v ∷ vs) = least_with v (least_of vs)

unfoldable pub greatest_of : List ℕ → Option ℕ
greatest_of [] = none
greatest_of (v ∷ vs) = greatest_with v (greatest_of vs)

unfoldable pub scale_of : List ℕ → Scale
unfolding least_of greatest_of count_where
scale_of values = record {
  count = length values;
  least = least_of values;
  greatest = greatest_of values;
  fractional_below_one = count_where (λ v. ltb 0 v && ltb v 1000) values;
}

abbrev later_id : TaskProgress → TaskProgress → Bool
later_id p q = ltb q.id p.id

-- The row of the greatest id of the task.
unfoldable pub last_progress : ℕ → List TaskProgress → Option TaskProgress
unfolding latest select
last_progress task_id rows = latest later_id (select (λ p. p.task_id == task_id) rows)

abbrev is_full : Option ℕ → Bool
is_full none = false
is_full (some v) = v == full

abbrev of_full : Option TaskProgress → Option TaskProgress
of_full none = none
of_full (some p) = if is_full p.progress_percent then some p else none

-- The row of the SELECT for a task.
unfoldable pub evidence : Task → List TaskProgress → Option TaskProgress
unfolding last_progress
evidence task rows = if task.local_completed then none else of_full (last_progress task.id rows)

abbrev pub candidate_of : ℕ → Task → TaskProgress → Candidate
candidate_of now task p = record {
  task_id = task.id;
  progress_id = p.id;
  expected_revision = task.state_revision;
  completion_at = if ltb now p.recorded_at then none else some p.recorded_at;
  origin =
      if ltb now p.recorded_at then codes "repair_unknown_day" else codes "repair_local_progress";
}

abbrev has_timer : Option TaskWorkSession → Bool
has_timer none = false
has_timer (some s) = true

unfoldable pub has_open_timer : Task → List TaskWorkSession → Bool
unfolding fetch_one
has_open_timer task sessions = has_timer (fetch_one (opened_for task.id) sessions)

abbrev one_candidate :
    ℕ → List TaskWorkSession → Task → Option TaskProgress → List Candidate → List Candidate
one_candidate now sessions task none rest = rest
one_candidate now sessions task (some p) rest =
    if has_open_timer task sessions then rest else candidate_of now task p ∷ rest

unfoldable pub candidates_of :
    ℕ → List TaskProgress → List TaskWorkSession → List Task → List Candidate
unfolding evidence has_open_timer
candidates_of now progress sessions [] = []
candidates_of now progress sessions (t ∷ ts) =
    one_candidate now sessions t (evidence t progress) (candidates_of now progress sessions ts)

abbrev one_skipped : List TaskWorkSession → Task → Option TaskProgress → List ℕ → List ℕ
one_skipped sessions task none rest = rest
one_skipped sessions task (some p) rest =
    if has_open_timer task sessions then task.id ∷ rest else rest

unfoldable pub skipped_of : List TaskProgress → List TaskWorkSession → List Task → List ℕ
unfolding evidence has_open_timer
skipped_of progress sessions [] = []
skipped_of progress sessions (t ∷ ts) =
    one_skipped sessions t (evidence t progress) (skipped_of progress sessions ts)

unfoldable pub completion_repair_plan : ℕ → Db → RepairPlan
unfolding candidates_of skipped_of scale_of percents
completion_repair_plan now db = record {
  scale = scale_of (percents db.progress);
  candidates = candidates_of now db.progress db.sessions db.tasks;
  skipped = skipped_of db.progress db.sessions db.tasks;
}

-- `current != approved_plan`, negated
abbrev same_number : Option ℕ → Option ℕ → Bool
same_number none none = true
same_number none (some b) = false
same_number (some a) none = false
same_number (some a) (some b) = a == b

abbrev same_candidate : Candidate → Candidate → Bool
same_candidate c d =
    c.task_id == d.task_id
    && c.progress_id == d.progress_id
    && c.expected_revision == d.expected_revision
    && same_number c.completion_at d.completion_at
    && c.origin == d.origin

unfoldable pub same_list {ℓ} : {A : Type ℓ} → (A → A → Bool) → List A → List A → Bool
same_list same [] [] = true
same_list same [] (y ∷ ys) = false
same_list same (x ∷ xs) [] = false
same_list same (x ∷ xs) (y ∷ ys) = same x y && same_list same xs ys

unfoldable pub same_plan : RepairPlan → RepairPlan → Bool
unfolding same_list
same_plan p q =
    p.scale.count == q.scale.count
    && same_number p.scale.least q.scale.least
    && same_number p.scale.greatest q.scale.greatest
    && p.scale.fractional_below_one == q.scale.fractional_below_one
    && same_list same_candidate p.candidates q.candidates
    && same_list (λ a b. a == b) p.skipped q.skipped

abbrev submitted : Option Text → Bool
submitted none = false
submitted (some s) = s == codes "submitted" || s == codes "graded"

-- The WHERE clause and the assignment of the UPDATE.
abbrev pub repairable : Candidate → Task → Bool
repairable c t =
    t.id == c.task_id && not t.local_completed && t.state_revision == c.expected_revision

abbrev pub repaired : Candidate → Task → Task → Task
repaired c task t = record t {
  local_completed = true;
  local_completed_at = c.completion_at;
  completion_origin = some c.origin;
  state_revision = suc c.expected_revision;
  last_client_remaining_minutes = some 0;
  status = if submitted task.submission_state then task.status else ready_to_submit;
}

abbrev pub repair_rows : Candidate → Task → Db → Db
repair_rows c task db = record db {
  tasks = update_where (repairable c) (repaired c task) db.tasks;
  analyses =
      update_where (λ a. a.task_id == task.id) (λ a. record a { remaining_effort = 0 }) db.analyses;
}

-- `none` for a task that is gone, which the code does not catch either.
abbrev pub repair_task : Candidate → Option Task → Db → Result Db
repair_task c none db = err runtime_error
repair_task c (some task) db =
    if not (count_where (repairable c) db.tasks == 1)
    then err value_error
    else ok (repair_rows c task db)

abbrev pub counted : Result (ℕ × Db) → Result (ℕ × Db)
counted (ok (n, db)) = ok (suc n, db)
counted (err e) = err e

unfoldable pub repair_all : List Candidate → Db → Result (ℕ × Db)
unfolding fetch_one count_where update_where
repair_all [] db = ok (0, db)
repair_all (c ∷ cs) db = elim (repair_task c (fetch_one (λ t. t.id == c.task_id) db.tasks) db) [
  | ok db' ↦ counted (repair_all cs db')
  | err e ↦ err e
]

unfoldable pub apply_completion_repair : ℕ → RepairPlan → Db → Result (ℕ × Db)
unfolding completion_repair_plan same_plan repair_all
apply_completion_repair now approved db =
    if not (same_plan (completion_repair_plan now db) approved)
    then err value_error
    else repair_all (completion_repair_plan now db).candidates db
