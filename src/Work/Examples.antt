-- ===== src/Work/Examples.antt =====
-- The theorems on progress and the work timer at concrete inputs.
use canvas_watcher.Base.{
  ℕ, ◌*◌, true, false, none, some, List, [], ◌∷◌, codes, text_eq, nat_eq, ◌≡◌, ◌≢◌, refl, arith,
  select, fetch_one, count_where, update_where, text_beq, round_div,
}
use canvas_watcher.Work.Schema.{
  pos, minus, plus, Task, TaskWorkSession, TaskProgress, in_progress, ready_to_submit, Db, ok, full,
  latest, next_id,
}
use canvas_watcher.Work.Progress.{
  claims, apply_progress, apply_at, claim_and_write, write_progress, progressed, status_of, early,
  superseded, latest_progress, action_time, open_session, close_at, elapsed_seconds, new_progress,
}
use canvas_watcher.Work.Timer.{
  Summary, active_session, get_task, start_task_work, set_effective_used_minutes, work_summary,
  tracked_minutes, total_seconds, session_seconds, open_new, new_session, stop_row, stop_session,
  by_start, insert_session_row,
}
use canvas_watcher.Work.Sound.{WorkSound, active-start_task_work}
use canvas_watcher.Work.Calls.{WorkCall, start, progress, run, run-WorkSound}
use canvas_watcher.Work.RevisionLaws.{apply_progress_once}

runs : Unit {0}
unfolding apply_progress apply_at claim_and_write write_progress progressed status_of early
    superseded latest_progress action_time open_session close_at elapsed_seconds new_progress
    start_task_work set_effective_used_minutes work_summary tracked_minutes total_seconds
    session_seconds open_new new_session stop_row stop_session by_start insert_session_row
    active_session get_task minus plus select fetch_one count_where update_where latest next_id
    round_div text_beq
runs = tt

abbrev hour : ℕ
hour = 3600000000

abbrev essay : Task
essay = record {
  id = 1;
  submission_state = none;
  status = in_progress;
  manual_time_adjustment_minutes = pos 0;
  last_client_remaining_minutes = none;
  last_client_reported_at = none;
  local_completed = false;
  local_completed_at = none;
  completion_origin = none;
  state_revision = 4;
}

abbrev working : TaskWorkSession
working = record {
  id = 1;
  task_id = 1;
  started_at = hour;
  ended_at = none;
  duration_seconds = none;
}

-- One task with an open session, and another one.
abbrev db : Db
db = record {
  tasks = essay ∷ record essay { id = 2 } ∷ [];
  sessions = working ∷ [];
  progress = [];
  analyses = record { task_id = 1; estimated_effort = 3; remaining_effort = 300000 } ∷ [];
}

abbrev finished : TaskProgress
finished = record {
  id = 1;
  task_id = 1;
  status = ready_to_submit;
  progress_percent = some full;
  recorded_at = 2 * hour;
}

abbrev after : Db
after = record {
  tasks =
      record essay {
        status = ready_to_submit;
        last_client_remaining_minutes = some 0;
        local_completed = true;
        local_completed_at = some (2 * hour);
        completion_origin = some (codes "user");
        state_revision = 5;
      }
      ∷ record essay { id = 2 }
      ∷ [];
  sessions = record working { ended_at = some (2 * hour); duration_seconds = some 3600 } ∷ [];
  progress = finished ∷ [];
  analyses = record { task_id = 1; estimated_effort = 3; remaining_effort = 0 } ∷ [];
}

completes :
    apply_progress essay full (codes "user") (some 4) none (2 * hour) false db
    ≡ (ok (some finished, true), after)
unfolding runs
completes = refl

apply_progress_once_example :
    (apply_progress essay 50000 (codes "heartbeat") none none (3 * hour) false after).1 ≡ after
apply_progress_once_example =
    apply_progress_once essay full 50000 (codes "user") (codes "heartbeat") (some 4) none none none
      (2 * hour) (3 * hour) false false finished db after completes

moved_on : count_where (claims essay) after.tasks ≢ 1
unfolding count_where
moved_on e = ground (arith, e)

db-WorkSound : WorkSound db
unfolding count_where
db-WorkSound = record {
  unique = ((refl, tt), (tt, tt));
  one_open = omega arith;
  rested = (λ e. ground (arith, e), ((λ e. ground (arith, e)), tt));
}

abbrev calls : List (ℕ × WorkCall)
calls =
    (hour, start 2)
    ∷ (2 * hour, progress essay full (codes "user") (some 4) none false)
    ∷ (3 * hour, start 1)
    ∷ []

run-WorkSound_example : WorkSound (run calls db)
run-WorkSound_example = run-WorkSound calls db db-WorkSound

abbrev switched : Db
switched = record db {
  sessions =
      record working { ended_at = some (2 * hour); duration_seconds = some 3600 }
      ∷ record {
        id = 2;
        task_id = 2;
        started_at = 2 * hour;
        ended_at = none;
        duration_seconds = none;
      }
      ∷ [];
}

abbrev second_summary : Summary
second_summary = record {
  task_id = 2;
  state_revision = 4;
  local_completed = false;
  tracked_minutes = 0;
  manual_adjustment_minutes = pos 0;
  effective_used_minutes = 0;
  active_session_id = some 2;
  active_started_at = some (2 * hour);
  active_elapsed_seconds = 0;
  sessions =
      record {
        id = 2;
        task_id = 2;
        started_at = 2 * hour;
        ended_at = none;
        duration_seconds = none;
      }
      ∷ [];
}

starts : start_task_work 2 (2 * hour) db ≡ (ok (ok second_summary, some 1), switched)
unfolding runs
starts = refl

active-start_task_work_example :
    (s : TaskWorkSession) × (active_session switched ≡ some s) × (s.task_id ≡ 2)
active-start_task_work_example =
    active-start_task_work 2 (2 * hour) (ok second_summary, some 1) db switched db-WorkSound starts

abbrev adjusted_summary : Summary
adjusted_summary = record {
  task_id = 1;
  state_revision = 4;
  local_completed = false;
  tracked_minutes = 60;
  manual_adjustment_minutes = minus 20 60;
  effective_used_minutes = 20;
  active_session_id = some 1;
  active_started_at = some hour;
  active_elapsed_seconds = 3600;
  sessions = working ∷ [];
}

sets_total : (set_effective_used_minutes 1 (pos 20) (2 * hour) db).0 ≡ ok adjusted_summary
unfolding runs
sets_total = refl
