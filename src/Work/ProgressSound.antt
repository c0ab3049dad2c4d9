-- ===== src/Work/ProgressSound.antt =====
-- Progress and heartbeats keep at most one session open and completed work at rest.
use canvas_watcher.Base.{
  ℕ, ◌≤◌, Bool, false, Option, none, some, List, Text, ◌≡◌, ◌==◌, nat_eq, refl, arith, inl, inr,
  Bool-cases, Option-cases, codes, text_eq, fetch_one, count_where, when_then,
}
use canvas_watcher.Base.Table.Rows.{All-update_where, Pairwise-update_where}
use canvas_watcher.Work.Schema.{Task, TaskWorkSession, Db, Result, ok, err, Error, Stamp, full}
use canvas_watcher.Work.Progress.{
  is_open, opened_for, open_session, close_at, closed_sessions, claims, claim_and_write,
  write_progress, progressed, action_time, with_time, apply_at, apply_progress, elapsed_seconds,
}
use canvas_watcher.Work.Timer.{get_task}
use canvas_watcher.Work.Heartbeat.{
  Beat, answered, beat_progress, reported, store_report, totals, record_work_heartbeat,
}
use canvas_watcher.Work.OpenRows.{
  count_where-closes, count_where-implied, count_where-no_row, any-fetch_one,
}
use canvas_watcher.Work.Sound.{WorkSound, Rested, sessions-WorkSound, tasks-WorkSound}

abbrev end_of : ℕ → TaskWorkSession → TaskWorkSession → TaskWorkSession
end_of action_at o s = record s {
  ended_at = some action_at;
  duration_seconds = some (elapsed_seconds o.started_at action_at);
}

-- Behind a completion the task has no open session.
none_left :
    (task_id action_at : ℕ) (rows : List TaskWorkSession)
    → count_where is_open rows ≤ 1
    → count_where
        (opened_for task_id)
        (closed_sessions action_at (open_session full task_id rows) rows)
      ≡ 0
unfolding open_session close_at
none_left task_id action_at rows one = elim (Option-cases (fetch_one (opened_for task_id) rows)) [
  | inl e ↦ ground (arith, count_where-no_row (opened_for task_id) rows e)
  | inr (o, e) ↦ ground (
    arith,
    e,
    count_where-implied (opened_for task_id) is_open rows (λ x h. ground arith),
    count_where-closes (opened_for task_id) (λ x. x.id == o.id) (end_of action_at o) rows
        (λ x. ground arith)
        (any-fetch_one (opened_for task_id) (λ x. x.id == o.id) rows o e (ground arith)),
  )
]

closed-WorkSound :
    (action_at : ℕ) (o : Option TaskWorkSession) (db : Db)
    → WorkSound db
    → WorkSound (record db { sessions = closed_sessions action_at o db.sessions })
unfolding close_at
closed-WorkSound action_at none db s = s
closed-WorkSound action_at (some o) db s =
    sessions-WorkSound (λ x. x.id == o.id) (end_of action_at o) db (λ x. refl) s

write_progress-WorkSound :
    (task : Task) (percent : ℕ) (origin : Text) (action_at : ℕ) (db : Db)
    → WorkSound db
    → WorkSound
        (write_progress task percent origin action_at
          (open_session percent task.id db.sessions)
          db).1
unfolding write_progress
write_progress-WorkSound task percent origin action_at db s =
    let rows = closed_sessions action_at (open_session percent task.id db.sessions) db.sessions in
    let c = closed-WorkSound action_at (open_session percent task.id db.sessions) db s in
    record {
      unique =
          Pairwise-update_where (λ t u. (t.id == u.id) ≡ false) (claims task)
            (progressed percent origin action_at task) db.tasks
            (λ t u ne. unfold progressed in ground (arith, ne)) s.unique;
      one_open = c.one_open;
      rested =
          All-update_where (Rested rows) (Rested rows) (claims task)
            (progressed percent origin action_at task) db.tasks rests c.rested;
    }
  where
    rows : List TaskWorkSession
    rows = closed_sessions action_at (open_session percent task.id db.sessions) db.sessions

    rests :
        (t : Task)
        → Rested rows t
        → Rested rows (when_then (claims task) (progressed percent origin action_at task) t)
    rests t r done = elim (Bool-cases (claims task t)) [
      | inr e ↦ unfold progressed in ground (arith, r, done, e)
      | inl e ↦ elim (Bool-cases (percent == full)) [
        | inr part ↦ unfold progressed in absurd (ground (arith, done, e, part))
        | inl all_done ↦
            unfold progressed in
            ground (arith, none_left task.id action_at db.sessions s.one_open, e, all_done)
      ]
    ]

apply_at-WorkSound :
    (task : Task) (percent : ℕ) (origin : Text) (action_at : ℕ) (db : Db)
    → WorkSound db
    → WorkSound (apply_at task percent origin action_at db).1
unfolding apply_at claim_and_write
apply_at-WorkSound task percent origin action_at db s =
    ground (arith, s, write_progress-WorkSound task percent origin action_at db s)

with_time-WorkSound :
    (task : Task) (percent : ℕ) (origin : Text) (t : Result ℕ) (db : Db)
    → WorkSound db
    → WorkSound (with_time task percent origin t db).1
with_time-WorkSound task percent origin (ok t) db s = apply_at-WorkSound task percent origin t db s
with_time-WorkSound task percent origin (err e) db s = s

pub apply_progress-WorkSound :
    (task : Task) (percent : ℕ) (origin : Text) (expected : Option ℕ) (action_at : Option Stamp)
    (moment : ℕ) (reopen : Bool) (db : Db)
    → WorkSound db
    → WorkSound (apply_progress task percent origin expected action_at moment reopen db).1
unfolding apply_progress
apply_progress-WorkSound task percent origin expected action_at moment reopen db s =
    ground (arith, s, with_time-WorkSound task percent origin (action_time action_at moment) db s)

beat_progress-WorkSound :
    (task : Task) (beat : Beat) (moment : ℕ) (db : Db)
    → WorkSound db
    → WorkSound (beat_progress task beat moment db).1
unfolding beat_progress
beat_progress-WorkSound task beat moment db s = elim (Option-cases beat.progress_percent) [
  | inl e ↦ ground (arith, s)
  | inr (percent, e) ↦ ground (
    arith,
    apply_progress-WorkSound task percent (codes "heartbeat") beat.expected_revision
        beat.client_timestamp moment false db s,
  )
]

store_report-WorkSound :
    (beat : Beat) (task_id moment : ℕ) (r : Result Bool × Db)
    → WorkSound r.1
    → WorkSound (store_report beat task_id moment r).1
unfolding reported
store_report-WorkSound beat task_id moment (err e, db) s = s
store_report-WorkSound beat task_id moment (ok v, db) s =
    tasks-WorkSound (λ t. t.id == task_id) (reported beat moment) db
      (λ t. (ground arith, ground arith)) s

totals-WorkSound :
    (task_id moment : ℕ) (r : Option Error) (db : Db)
    → WorkSound db
    → WorkSound (totals task_id moment r db).1
totals-WorkSound task_id moment none db s = s
totals-WorkSound task_id moment (some e) db s = s

pub record_work_heartbeat-WorkSound :
    (task_id : ℕ) (beat : Beat) (moment : ℕ) (db : Db)
    → WorkSound db
    → WorkSound (record_work_heartbeat task_id beat moment db).1
unfolding record_work_heartbeat
record_work_heartbeat-WorkSound task_id beat moment db s =
    elim (Option-cases (get_task task_id db)) [
      | inl e ↦ ground (arith, s)
      | inr (task, found) ↦ elim (Option-cases (answered task beat moment db)) [
        | inr (r, e) ↦ ground (arith, totals-WorkSound task_id moment r db s)
        | inl e ↦ ground (
          arith,
          totals-WorkSound task_id moment none db s,
          store_report-WorkSound beat task_id moment (beat_progress task beat moment db)
              (beat_progress-WorkSound task beat moment db s),
        )
      ]
    ]
