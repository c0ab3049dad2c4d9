-- ===== src/Work/Calls.antt =====
-- Sequences of calls on the work timer and on progress, and what holds behind them.
use canvas_watcher.Base.{ℕ, Bool, Option, List, [], ◌∷◌, Text}
use canvas_watcher.Work.Schema.{ℤ, Task, Db, Stamp}
use canvas_watcher.Work.Progress.{apply_progress}
use canvas_watcher.Work.Timer.{start_task_work, stop_task_work, set_effective_used_minutes}
use canvas_watcher.Work.Heartbeat.{Beat, record_work_heartbeat}
use canvas_watcher.Work.Sound.{
  WorkSound, start_task_work-WorkSound, stop_task_work-WorkSound,
  set_effective_used_minutes-WorkSound,
}
use canvas_watcher.Work.ProgressSound.{apply_progress-WorkSound, record_work_heartbeat-WorkSound}

-- A call with its arguments; `progress` carries the loaded task.
pub data WorkCall : Type 0 where
  start stop : ℕ → WorkCall
  set_used : ℕ → ℤ → WorkCall
  progress : Task → ℕ → Text → Option ℕ → Option Stamp → Bool → WorkCall
  heartbeat : ℕ → Beat → WorkCall

-- The database behind one call at the time `now`.
unfoldable pub step : ℕ → WorkCall → Db → Db
step now (start task_id) db = (start_task_work task_id now db).1
step now (stop task_id) db = (stop_task_work task_id now db).1
step now (set_used task_id minutes) db = (set_effective_used_minutes task_id minutes now db).1
step now (progress task percent origin expected action_at reopen) db =
    (apply_progress task percent origin expected action_at now reopen db).1
step now (heartbeat task_id beat) db = (record_work_heartbeat task_id beat now db).1

unfoldable pub run : List (ℕ × WorkCall) → Db → Db
unfolding step
run [] db = db
run ((now, call) ∷ rest) db = run rest (step now call db)

step-WorkSound : (now : ℕ) (call : WorkCall) (db : Db) → WorkSound db → WorkSound (step now call db)
unfolding step
step-WorkSound now (start task_id) db s = start_task_work-WorkSound task_id now db s
step-WorkSound now (stop task_id) db s = stop_task_work-WorkSound task_id now db s
step-WorkSound now (set_used task_id minutes) db s =
    set_effective_used_minutes-WorkSound task_id minutes now db s
step-WorkSound now (progress task percent origin expected action_at reopen) db s =
    apply_progress-WorkSound task percent origin expected action_at now reopen db s
step-WorkSound now (heartbeat task_id beat) db s =
    record_work_heartbeat-WorkSound task_id beat now db s

-- After any calls at any times, from a database where it holds: no two tasks share an id, at most one
-- work session is open, and a task that is completed has no open session. A call may carry a loaded
-- task that is out of date.
pub run-WorkSound :
    (calls : List (ℕ × WorkCall)) (db : Db) → WorkSound db → WorkSound (run calls db)
unfolding run
run-WorkSound [] db s = s
run-WorkSound ((now, call) ∷ rest) db s =
    run-WorkSound rest (step now call db) (step-WorkSound now call db s)
