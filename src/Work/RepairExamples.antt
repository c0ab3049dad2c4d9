-- ===== src/Work/RepairExamples.antt =====
-- The repair of completions at a concrete input.
use canvas_watcher.Base.{
  true, false, none, some, [], ◌∷◌, codes, ◌≡◌, refl, arith, select, fetch_one, count_where,
  update_where, text_beq,
}
use canvas_watcher.Work.Schema.{
  pos, Task, TaskProgress, in_progress, ready_to_submit, Db, ok, full, latest,
}
use canvas_watcher.Work.Sound.{WorkSound}
use canvas_watcher.Work.Repair.{
  completion_repair_plan, apply_completion_repair, repair_all, same_plan, same_list, candidates_of,
  skipped_of, scale_of, percents, least_of, greatest_of, evidence, last_progress, has_open_timer,
}
use canvas_watcher.Work.Repaired.{apply_completion_repair-WorkSound}

abbrev essay : Task
essay = record {
  id = 1;
  submission_state = none;
  status = in_progress;
  manual_time_adjustment_minutes = pos 0;
  last_client_remaining_minutes = none;
  last_client_reported_at = none;
  local_completed = false;
  local_completed_at = none;
  completion_origin = none;
  state_revision = 4;
}

abbrev done : TaskProgress
done = record {
  id = 1;
  task_id = 1;
  status = in_progress;
  progress_percent = some full;
  recorded_at = 50;
}

-- Two tasks with the full percentage, of which the second has an open timer.
abbrev db : Db
db = record {
  tasks = essay ∷ record essay { id = 2 } ∷ [];
  sessions =
      record { id = 1; task_id = 2; started_at = 60; ended_at = none; duration_seconds = none }
      ∷ [];
  progress = done ∷ record done { id = 2; task_id = 2 } ∷ [];
  analyses = record { task_id = 1; estimated_effort = 3; remaining_effort = 300000 } ∷ [];
}

db-WorkSound : WorkSound db
unfolding count_where
db-WorkSound = record {
  unique = ((refl, tt), (tt, tt));
  one_open = omega arith;
  rested = (λ h. refl, (λ h. cc h, tt));
}

abbrev repaired_db : Db
repaired_db = record db {
  tasks =
      record essay {
        status = ready_to_submit;
        last_client_remaining_minutes = some 0;
        local_completed = true;
        local_completed_at = some 50;
        completion_origin = some (codes "repair_local_progress");
        state_revision = 5;
      }
      ∷ record essay { id = 2 }
      ∷ [];
  analyses = record { task_id = 1; estimated_effort = 3; remaining_effort = 0 } ∷ [];
}

repairs : apply_completion_repair 100 (completion_repair_plan 100 db) db ≡ ok (1, repaired_db)
unfolding completion_repair_plan apply_completion_repair repair_all same_plan same_list
    candidates_of skipped_of scale_of percents least_of greatest_of evidence last_progress
    has_open_timer latest select fetch_one count_where update_where text_beq
repairs = refl

apply_completion_repair-WorkSound_example :
    WorkSound repaired_db × ((completion_repair_plan 200 repaired_db).candidates ≡ [])
apply_completion_repair-WorkSound_example =
    apply_completion_repair-WorkSound 100 200 1 (completion_repair_plan 100 db) db repaired_db
      db-WorkSound repairs
