-- ===== src/Work/Heartbeat.antt =====
-- backend/app/services/work_tracking.py, `record_work_heartbeat`. One request reads and writes the
-- rows; behind it the planner is run where the flag of the answer is set.
use canvas_watcher.Base.{
  ℕ, Bool, false, not, ◌||◌, Option, none, some, List, codes, ◌==◌, nat_eq, ltb, if◌then◌else◌,
  select, count_where, update_where,
}
use canvas_watcher.Work.Schema.{
  ℤ, clamp, Task, TaskWorkSession, TaskProgress, Db, Error, lookup_error, runtime_error, Result, ok,
  err, Stamp, zoned, naive, latest,
}
use canvas_watcher.Work.Progress.{differs, action_time, claims, apply_progress}
use canvas_watcher.Work.Timer.{Summary, get_task, active_session, work_summary, task_work_summary}

-- The fields of a heartbeat.
pub record Beat : Type 0 where
  pub progress_percent : Option ℕ
  pub manual_adjustment_minutes : Option ℤ
  pub remaining_minutes : Option ℤ
  pub client_timestamp : Option Stamp
  pub expected_revision : Option ℕ

abbrev instant : Stamp → ℕ
instant (zoned t) = t
instant (naive t) = t

abbrev is_before : Option Stamp → Option ℕ → Bool
is_before none t = false
is_before (some s) none = false
is_before (some s) (some t) = ltb (instant s) t

-- `ORDER BY id DESC LIMIT 1`
unfoldable pub last_recorded : ℕ → List TaskProgress → Option ℕ
unfolding latest select
last_recorded task_id rows =
    elim (latest (λ p q. ltb q.id p.id) (select (λ p. p.task_id == task_id) rows)) [
      | none ↦ none
      | some p ↦ some p.recorded_at
    ]

abbrev is_active : ℕ → Option TaskWorkSession → Bool
is_active task_id none = false
is_active task_id (some s) = s.task_id == task_id

-- What is answered before anything is written: the totals, or a raise; `none` goes on.
unfoldable pub answered : Task → Beat → ℕ → Db → Option (Option Error)
unfolding active_session action_time last_recorded
answered task beat moment db =
    if not (is_active task.id (active_session db))
    then some (if task.local_completed then none else some runtime_error)
    else if differs beat.expected_revision task.state_revision || task.local_completed
    then some none
    else elim (action_time beat.client_timestamp moment) [
      | err e ↦ some (some e)
      | ok stamp ↦
          if is_before beat.client_timestamp task.last_client_reported_at
            || is_before beat.client_timestamp (last_recorded task.id db.progress)
          then some none
          else none
    ]

abbrev stamp_of : Option Stamp → ℕ → ℕ
stamp_of none moment = moment
stamp_of (some s) moment = instant s

-- `apply_progress` where the heartbeat carries a percentage.
unfoldable pub beat_progress : Task → Beat → ℕ → Db → Result Bool × Db
unfolding apply_progress
beat_progress task beat moment db = elim beat.progress_percent [
  | none ↦ (ok false, db)
  | some percent ↦
      let r =
        apply_progress task percent (codes "heartbeat") beat.expected_revision beat.client_timestamp
          moment false db in
      (elim r.0 [ ok v ↦ ok v.1 | err e ↦ err e ], r.1)
]

abbrev adjusted : Option ℤ → Task → Task
adjusted none t = t
adjusted (some m) t = record t { manual_time_adjustment_minutes = m }

abbrev remaining : Option ℤ → Option ℤ → Task → Task
remaining (some m) a t =
    if t.local_completed then t else record t { last_client_remaining_minutes = some (clamp m) }
remaining none (some a) t =
    if t.local_completed then t else record t { last_client_remaining_minutes = none }
remaining none none t = t

-- The last assignments to the task.
unfoldable pub reported : Beat → ℕ → Task → Task
reported beat moment t =
    let u =
      remaining beat.remaining_minutes beat.manual_adjustment_minutes
        (adjusted beat.manual_adjustment_minutes t) in
    record u { last_client_reported_at = some (stamp_of beat.client_timestamp moment) }

abbrev pub store_report : Beat → ℕ → ℕ → Result Bool × Db → Result (Result Summary × Bool) × Db
store_report beat task_id moment (err e, db) = (err e, db)
store_report beat task_id moment (ok changed, db) =
    let db' : Db = record db {
      tasks = update_where (λ t. t.id == task_id) (reported beat moment) db.tasks;
    } in
    (ok (task_work_summary task_id moment db', changed), db')

abbrev pub totals : ℕ → ℕ → Option Error → Db → Result (Result Summary × Bool) × Db
totals task_id moment (some e) db = (err e, db)
totals task_id moment none db = (ok (task_work_summary task_id moment db, false), db)

-- The flag of the answer is `changed`. The claim writes back the revision that it tests.
unfoldable pub record_work_heartbeat : ℕ → Beat → ℕ → Db → Result (Result Summary × Bool) × Db
unfolding get_task answered count_where beat_progress reported work_summary update_where
record_work_heartbeat task_id beat moment db = elim (get_task task_id db) [
  | none ↦ (err lookup_error, db)
  | some task ↦ elim (answered task beat moment db) [
    | some r ↦ totals task_id moment r db
    | none ↦
        if not (count_where (claims task) db.tasks == 1)
        then totals task_id moment none db
        else store_report beat task_id moment (beat_progress task beat moment db)
  ]
]
