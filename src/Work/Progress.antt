-- ===== src/Work/Progress.antt =====
-- backend/app/services/completion.py, `apply_progress`. The loaded task may be older than its row:
-- another request may have committed since. Every raise comes before the first write.
use canvas_watcher.Base.{
  ℕ, ◌+◌, ◌-◌, ◌*◌, Bool, true, false, not, ◌&&◌, ◌||◌, Option, none, some, List, [], ◌∷◌, ◌++◌,
  map, Text, codes, ◌==◌, text_eq, nat_eq, ltb, if◌then◌else◌, select, fetch_one, count_where,
  update_where, round_div,
}
use canvas_watcher.Work.Schema.{
  Task, TaskWorkSession, TaskProgress, TaskStatus, not_started, in_progress, ready_to_submit, Db,
  value_error, Result, ok, err, Stamp, zoned, naive, full, second, five_minutes, one_day, latest,
  next_id,
}

abbrev pub is_open : TaskWorkSession → Bool
is_open s = elim s.ended_at [ none ↦ true | some e ↦ false ]

abbrev pub opened_for : ℕ → TaskWorkSession → Bool
opened_for task_id s = s.task_id == task_id && is_open s

abbrev newer_progress : TaskProgress → TaskProgress → Bool
newer_progress p q =
    ltb q.recorded_at p.recorded_at || (p.recorded_at == q.recorded_at && ltb q.id p.id)

unfoldable pub latest_progress : ℕ → List TaskProgress → Option TaskProgress
unfolding latest select
latest_progress task_id rows = latest newer_progress (select (λ p. p.task_id == task_id) rows)

-- The time of the action, or the raise.
unfoldable pub action_time : Option Stamp → ℕ → Result ℕ
action_time none moment = ok moment
action_time (some (naive t)) moment = err value_error
action_time (some (zoned t)) moment =
    if ltb (moment + five_minutes) t || ltb (t + one_day) moment then err value_error else ok t

abbrev pub differs : Option ℕ → ℕ → Bool
differs none revision = false
differs (some e) revision = not (e == revision)

abbrev is_none {ℓ} : {A : Type ℓ} → Option A → Bool
is_none none = true
is_none (some a) = false

-- What is answered before anything else is read: `none` goes on.
unfoldable pub early : Task → ℕ → Option ℕ → Bool → Option (Result (Option TaskProgress × Bool))
early task percent expected_revision reopen =
    if ltb full percent
    then some (err value_error)
    else if differs expected_revision task.state_revision
    then some (ok (none, false))
    else if task.local_completed && (percent == full || not reopen)
    then some (ok (none, false))
    else if task.local_completed && is_none expected_revision
    then some (err value_error)
    else none

-- What the latest progress of the task answers.
unfoldable pub superseded :
    Task → ℕ → ℕ → Option TaskProgress → Option (Result (Option TaskProgress × Bool))
superseded task percent action_at none = none
superseded task percent action_at (some p) =
    if ltb action_at p.recorded_at
    then some (ok (none, false))
    else if elim p.progress_percent [ none ↦ false | some q ↦ q == percent ]
        && ltb percent full
        && not task.local_completed
    then some (ok (some p, false))
    else none

abbrev pub claims : Task → Task → Bool
claims task row =
    row.id == task.id
    && row.state_revision == task.state_revision
    && (if task.local_completed then row.local_completed else not row.local_completed)

-- `submission_state in {"submitted", "graded"}`
abbrev is_submitted : Option Text → Bool
is_submitted none = false
is_submitted (some s) = s == codes "submitted" || s == codes "graded"

unfoldable pub status_of : Task → ℕ → TaskStatus
status_of task percent =
    if is_submitted task.submission_state
    then task.status
    else if percent == full
    then ready_to_submit
    else if percent == 0
    then not_started
    else in_progress

-- The status of the row behind the assignment; that of a submitted task is not assigned.
abbrev pub written_status : Task → Task → ℕ → TaskStatus
written_status task row percent =
    if is_submitted task.submission_state then row.status else status_of task percent

-- The assignments to the task.
unfoldable pub progressed : ℕ → Text → ℕ → Task → Task → Task
unfolding status_of
progressed percent origin action_at task row =
    if percent == full
    then record row {
      state_revision = task.state_revision + 1;
      local_completed = true;
      local_completed_at = some action_at;
      completion_origin = some origin;
      status = written_status task row percent;
      last_client_remaining_minutes = some 0;
    }
    else record row {
      state_revision = task.state_revision + 1;
      local_completed = false;
      local_completed_at = none;
      completion_origin = none;
      status = written_status task row percent;
      last_client_remaining_minutes = none;
      last_client_reported_at = none;
    }

-- `max(0, round((end - start).total_seconds()))`
unfoldable pub elapsed_seconds : ℕ → ℕ → ℕ
unfolding round_div
elapsed_seconds start end = round_div (end - start) second

-- The session that a completion closes; only a percentage of a hundred looks for it.
unfoldable pub open_session : ℕ → ℕ → List TaskWorkSession → Option TaskWorkSession
unfolding fetch_one
open_session percent task_id rows =
    if percent == full then fetch_one (opened_for task_id) rows else none

unfoldable pub close_at : ℕ → TaskWorkSession → List TaskWorkSession → List TaskWorkSession
unfolding update_where
close_at action_at opened rows =
    update_where (λ s. s.id == opened.id)
      (λ s. record s {
        ended_at = some action_at;
        duration_seconds = some (elapsed_seconds opened.started_at action_at);
      })
      rows

abbrev pub closed_sessions :
    ℕ → Option TaskWorkSession → List TaskWorkSession → List TaskWorkSession
closed_sessions action_at none rows = rows
closed_sessions action_at (some opened) rows = close_at action_at opened rows

abbrev pub predates : ℕ → Option TaskWorkSession → Bool
predates action_at none = false
predates action_at (some opened) = ltb action_at opened.started_at

unfoldable pub new_progress : Task → ℕ → ℕ → List TaskProgress → TaskProgress
unfolding status_of next_id
new_progress task percent action_at rows = record {
  id = next_id (map (λ p. p.id) rows);
  task_id = task.id;
  status = status_of task percent;
  progress_percent = some percent;
  recorded_at = action_at;
}

-- What is written once the revision is claimed.
unfoldable pub write_progress :
    Task → ℕ → Text → ℕ → Option TaskWorkSession → Db → (Option TaskProgress × Bool) × Db
unfolding progressed close_at new_progress update_where
write_progress task percent origin action_at opened db =
    let p = new_progress task percent action_at db.progress in
    (
      (some p, true),
      record {
        tasks = update_where (claims task) (progressed percent origin action_at task) db.tasks;
        sessions = closed_sessions action_at opened db.sessions;
        progress = db.progress ++ p ∷ [];
        analyses =
            update_where (λ a. a.task_id == task.id)
              (λ a. record a { remaining_effort = a.estimated_effort * (full - percent) })
              db.analyses;
      },
    )

-- `claimed.rowcount`, and what comes behind it.
unfoldable pub claim_and_write :
    Task → ℕ → Text → ℕ → Option TaskWorkSession → Db → Result (Option TaskProgress × Bool) × Db
unfolding count_where write_progress
claim_and_write task percent origin action_at opened db =
    if predates action_at opened
    then (err value_error, db)
    else if not (count_where (claims task) db.tasks == 1)
    then (ok (none, false), db)
    else (
      ok (write_progress task percent origin action_at opened db).0,
      (write_progress task percent origin action_at opened db).1,
    )

-- The database is read at `action_at`; `moment` is `now`, and a negative percentage is not written.
unfoldable pub apply_at : Task → ℕ → Text → ℕ → Db → Result (Option TaskProgress × Bool) × Db
unfolding latest_progress superseded open_session claim_and_write
apply_at task percent origin action_at db =
    elim (superseded task percent action_at (latest_progress task.id db.progress)) [
      | some r ↦ (r, db)
      | none ↦
          claim_and_write task percent origin action_at (open_session percent task.id db.sessions)
            db
    ]

abbrev pub with_time : Task → ℕ → Text → Result ℕ → Db → Result (Option TaskProgress × Bool) × Db
with_time task percent origin (err e) db = (err e, db)
with_time task percent origin (ok action_at) db = apply_at task percent origin action_at db

-- `percent` below zero raises as one above a hundred does; it is not modelled.
unfoldable pub apply_progress :
    Task
    → ℕ
    → Text
    → Option ℕ
    → Option Stamp
    → ℕ
    → Bool
    → Db
    → Result (Option TaskProgress × Bool) × Db
unfolding early action_time
apply_progress task percent origin expected_revision action_at moment reopen db =
    elim (early task percent expected_revision reopen) [
      | some r ↦ (r, db)
      | none ↦ with_time task percent origin (action_time action_at moment) db
    ]
