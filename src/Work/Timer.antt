-- ===== src/Work/Timer.antt =====
-- backend/app/services/work_tracking.py: the work timer and the totals of a task. `now` is read
-- once in each call. The partial index of `task_work_sessions` allows one open session.
use canvas_watcher.Base.{
  ℕ, ◌+◌, Bool, ◌&&◌, ◌||◌, Option, none, some, List, [], ◌∷◌, ◌++◌, map, ◌==◌, nat_eq, ltb,
  if◌then◌else◌, select, fetch_one, update_where, round_div,
}
use canvas_watcher.Work.Schema.{
  ℤ, minus, plus, clamp, Task, TaskWorkSession, not_started, in_progress, ready_to_submit, other,
  Db, lookup_error, runtime_error, Result, ok, err, latest, next_id,
}
use canvas_watcher.Work.Progress.{is_open, elapsed_seconds}

abbrev or_now : Option ℕ → ℕ → ℕ
or_now none now = now
or_now (some t) now = t

unfoldable pub session_seconds : TaskWorkSession → ℕ → ℕ
unfolding elapsed_seconds
session_seconds s now = elim s.duration_seconds [
  | some d ↦ d
  | none ↦ elapsed_seconds s.started_at (or_now s.ended_at now)
]

-- `started_at` and `id`, in this order
abbrev pub newer_session : TaskWorkSession → TaskWorkSession → Bool
newer_session s t = ltb t.started_at s.started_at || (s.started_at == t.started_at && ltb t.id s.id)

unfoldable pub active_session : Db → Option TaskWorkSession
unfolding latest select
active_session db = latest newer_session (select is_open db.sessions)

unfoldable pub get_task : ℕ → Db → Option Task
unfolding fetch_one
get_task task_id db = fetch_one (λ t. t.id == task_id) db.tasks

unfoldable pub insert_session_row : TaskWorkSession → List TaskWorkSession → List TaskWorkSession
insert_session_row s [] = s ∷ []
insert_session_row s (t ∷ ts) =
    if newer_session s t then t ∷ insert_session_row s ts else s ∷ t ∷ ts

-- `ORDER BY started_at, id`
unfoldable pub by_start : List TaskWorkSession → List TaskWorkSession
unfolding insert_session_row
by_start [] = []
by_start (s ∷ ss) = insert_session_row s (by_start ss)

pub record Summary : Type 0 where
  pub task_id : ℕ
  pub state_revision : ℕ
  pub local_completed : Bool
  pub tracked_minutes : ℕ
  pub manual_adjustment_minutes : ℤ
  pub effective_used_minutes : ℕ
  pub active_session_id : Option ℕ
  pub active_started_at : Option ℕ
  pub active_elapsed_seconds : ℕ
  pub sessions : List TaskWorkSession

unfoldable pub total_seconds : ℕ → List TaskWorkSession → ℕ
unfolding session_seconds
total_seconds now [] = 0
total_seconds now (s ∷ ss) = session_seconds s now + total_seconds now ss

unfoldable pub tracked_minutes : ℕ → ℕ → Db → ℕ
unfolding total_seconds select round_div
tracked_minutes now task_id db =
    round_div (total_seconds now (select (λ s. s.task_id == task_id) db.sessions)) 60

unfoldable pub work_summary : Task → ℕ → Db → Summary
unfolding tracked_minutes plus by_start latest session_seconds select
work_summary task now db =
    let rows = select (λ s. s.task_id == task.id) db.sessions in
    let opened = latest newer_session (select is_open rows) in
    record {
      task_id = task.id;
      state_revision = task.state_revision;
      local_completed = task.local_completed;
      tracked_minutes = tracked_minutes now task.id db;
      manual_adjustment_minutes = task.manual_time_adjustment_minutes;
      effective_used_minutes =
          clamp (plus (tracked_minutes now task.id db) task.manual_time_adjustment_minutes);
      active_session_id = elim opened [ none ↦ none | some s ↦ some s.id ];
      active_started_at = elim opened [ none ↦ none | some s ↦ some s.started_at ];
      active_elapsed_seconds = elim opened [ none ↦ 0 | some s ↦ session_seconds s now ];
      sessions = by_start rows;
    }

abbrev pub task_work_summary : ℕ → ℕ → Db → Result Summary
task_work_summary task_id now db = elim (get_task task_id db) [
  | none ↦ err lookup_error
  | some task ↦ ok (work_summary task now db)
]

-- `session_seconds` reads the old duration where there is one.
unfoldable pub stop_session : TaskWorkSession → ℕ → TaskWorkSession
unfolding session_seconds
stop_session s end = record s {
  ended_at = some end;
  duration_seconds = some (session_seconds (record s { ended_at = some end }) end);
}

unfoldable pub stop_row : TaskWorkSession → ℕ → List TaskWorkSession → List TaskWorkSession
unfolding stop_session update_where
stop_row opened end rows = update_where (λ s. s.id == opened.id) (λ s. stop_session s end) rows

unfoldable pub new_session : ℕ → ℕ → List TaskWorkSession → TaskWorkSession
unfolding next_id
new_session task_id moment rows = record {
  id = next_id (map (λ s. s.id) rows);
  task_id = task_id;
  started_at = moment;
  ended_at = none;
  duration_seconds = none;
}

abbrev pub begun : Task → Task
begun t = record t {
  status = elim t.status [
    | not_started ↦ in_progress
    | in_progress ↦ in_progress
    | ready_to_submit ↦ ready_to_submit
    | other s ↦ other s
  ];
}

unfoldable pub open_new : ℕ → ℕ → List TaskWorkSession → Db → Db
unfolding new_session update_where
open_new task_id moment rows db = record db {
  sessions = rows ++ new_session task_id moment rows ∷ [];
  tasks = update_where (λ t. t.id == task_id) begun db.tasks;
}

abbrev pub start_beside : ℕ → ℕ → Option TaskWorkSession → Db → Option ℕ × Db
start_beside task_id moment none db = (none, open_new task_id moment db.sessions db)
start_beside task_id moment (some s) db =
    if s.task_id == task_id
    then (none, db)
    else (some s.task_id, open_new task_id moment (stop_row s moment db.sessions) db)

unfoldable pub start_task_work : ℕ → ℕ → Db → Result (Result Summary × Option ℕ) × Db
unfolding get_task active_session open_new stop_row work_summary
start_task_work task_id moment db = elim (get_task task_id db) [
  | none ↦ (err lookup_error, db)
  | some task ↦
      if task.local_completed
      then (err runtime_error, db)
      else let r = start_beside task_id moment (active_session db) db in
        (ok (task_work_summary task_id moment r.1, r.0), r.1)
]

abbrev pub stop_beside : ℕ → ℕ → Option TaskWorkSession → Db → Db
stop_beside task_id now none db = db
stop_beside task_id now (some s) db =
    if s.task_id == task_id then record db { sessions = stop_row s now db.sessions } else db

unfoldable pub stop_task_work : ℕ → ℕ → Db → Result Summary × Db
unfolding get_task active_session stop_row work_summary
stop_task_work task_id now db = elim (get_task task_id db) [
  | none ↦ (err lookup_error, db)
  | some task ↦
      let db' = stop_beside task_id now (active_session db) db in
      (task_work_summary task_id now db', db')
]

unfoldable pub set_effective_used_minutes : ℕ → ℤ → ℕ → Db → Result Summary × Db
unfolding get_task tracked_minutes minus work_summary update_where
set_effective_used_minutes task_id requested_minutes now db = elim (get_task task_id db) [
  | none ↦ (err lookup_error, db)
  | some task ↦
      let adjustment = minus (clamp requested_minutes) (tracked_minutes now task_id db) in
      let db' : Db = record db {
        tasks =
            update_where (λ t. t.id == task_id)
              (λ t. record t { manual_time_adjustment_minutes = adjustment }) db.tasks;
      } in
      (task_work_summary task_id now db', db')
]
