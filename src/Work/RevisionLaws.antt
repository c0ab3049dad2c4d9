-- ===== src/Work/RevisionLaws.antt =====
-- The revision of a task keeps progress from being written over, and a set total is read back.
use canvas_watcher.Base.{
  ℕ, ◌+◌, ◌≤◌, Bool, true, false, Option, some, List, [], ◌∷◌, Text, ◌==◌, nat_eq, ◌≡◌, ◌≢◌, refl,
  arith, inl, inr, Option-cases, count_where, update_where, fetch_one, select, round_div_60, ◌*◌,
  round_div_60, ◌*◌,
}
use canvas_watcher.Base.Table.Rows.{fetch_one-update_where, fetch_one_holds}
use canvas_watcher.Work.Schema.{
  ℤ, minus, plus, clamp, Task, TaskProgress, Db, Result, ok, err, Stamp,
}
use canvas_watcher.Work.Progress.{
  with_time, early, action_time, superseded, claims, claim_and_write, write_progress, progressed,
  apply_at, apply_progress,
}
use canvas_watcher.Work.Timer.{
  Summary, get_task, tracked_minutes, total_seconds, work_summary, set_effective_used_minutes,
}

count_where-none :
    {A : Type 0} (p : A → Bool) (f : A → A) (xs : List A)
    → ((x : A) → p (f x) ≡ false)
    → count_where p (update_where p f xs) ≡ 0
unfolding count_where update_where
count_where-none p f [] h = refl
count_where-none p f (x ∷ xs) h = ground (arith, h x, count_where-none p f xs h)

-- A loaded task that no row, or more than one, still has the revision and the completion of, writes
-- nothing.
pub apply_progress_stale :
    (task : Task) (percent : ℕ) (origin : Text) (expected : Option ℕ) (action_at : Option Stamp)
    (moment : ℕ) (reopen : Bool) (db : Db)
    → count_where (claims task) db.tasks ≢ 1
    → (apply_progress task percent origin expected action_at moment reopen db).1 ≡ db
unfolding apply_progress apply_at claim_and_write
apply_progress_stale task percent origin expected action_at moment reopen db h = ground (arith, h)

claimed_away :
    (task : Task) (percent : ℕ) (origin : Text) (action_at : ℕ) (rows : List Task)
    → count_where
        (claims task)
        (update_where (claims task) (progressed percent origin action_at task) rows)
      ≡ 0
unfolding progressed
claimed_away task percent origin action_at rows =
    count_where-none (claims task) (progressed percent origin action_at task) rows
      (λ x. ground arith)

written_at :
    (task : Task) (percent : ℕ) (origin : Text) (action_at : ℕ) (p : TaskProgress) (db db' : Db)
    → apply_at task percent origin action_at db ≡ (ok (some p, true), db')
    → count_where (claims task) db'.tasks ≡ 0
unfolding apply_at claim_and_write write_progress superseded
written_at task percent origin action_at p db db' h =
    ground (arith, claimed_away task percent origin action_at db.tasks)

written_with :
    (task : Task) (percent : ℕ) (origin : Text) (action_at : Result ℕ) (p : TaskProgress)
    (db db' : Db)
    → with_time task percent origin action_at db ≡ (ok (some p, true), db')
    → count_where (claims task) db'.tasks ≡ 0
written_with task percent origin (ok t) p db db' h = written_at task percent origin t p db db' h
written_with task percent origin (err e) p db db' h = ground arith

written :
    (task : Task) (percent : ℕ) (origin : Text) (expected : Option ℕ) (action_at : Option Stamp)
    (moment : ℕ) (reopen : Bool) (p : TaskProgress) (db db' : Db)
    → apply_progress task percent origin expected action_at moment reopen db
      ≡ (ok (some p, true), db')
    → count_where (claims task) db'.tasks ≡ 0
unfolding apply_progress early
written task percent origin expected action_at moment reopen p db db' h =
    ground (arith, written_with task percent origin (action_time action_at moment) p db db')

-- Progress is claimed once from one loaded task: behind an `apply_progress` that wrote, another one
-- with the same loaded task writes nothing, whatever its other arguments, as long as no other call
-- intervenes.
pub apply_progress_once :
    (task : Task) (percent percent' : ℕ) (origin origin' : Text) (expected expected' : Option ℕ)
    (action_at action_at' : Option Stamp) (moment moment' : ℕ) (reopen reopen' : Bool)
    (p : TaskProgress) (db db' : Db)
    → apply_progress task percent origin expected action_at moment reopen db
      ≡ (ok (some p, true), db')
    → (apply_progress task percent' origin' expected' action_at' moment' reopen' db').1 ≡ db'
apply_progress_once task percent percent' origin origin' expected expected' action_at action_at'
      moment moment' reopen reopen' p db db' h =
    apply_progress_stale task percent' origin' expected' action_at' moment' reopen' db' (λ e.
      ground (arith, e, written task percent origin expected action_at moment reopen p db db' h))

-- Behind `set_effective_used_minutes` the totals of the same moment show the minutes that were asked
-- for, or zero for a negative number.
pub effective-set_effective :
    (task_id now : ℕ) (requested : ℤ) (s : Summary) (db : Db)
    → (set_effective_used_minutes task_id requested now db).0 ≡ ok s
    → s.effective_used_minutes ≡ clamp requested
unfolding set_effective_used_minutes work_summary get_task minus plus tracked_minutes
effective-set_effective task_id now requested s db h =
    elim (Option-cases (fetch_one (λ t. t.id == task_id) db.tasks)) [
      | inl missing ↦ absurd (ground arith)
      | inr (task, found) ↦
          let adjustment = minus (clamp requested) (tracked_minutes now task_id db) in
          ground (
            arith,
            found,
            fetch_one_holds (λ t. t.id == task_id) db.tasks task found,
            fetch_one-update_where (λ t. t.id == task_id) (λ t. t.id == task_id)
                (λ t. record t { manual_time_adjustment_minutes = adjustment }) db.tasks
                (λ t. refl),
          )
    ]

-- The tracked minutes of a task are within half a minute of the seconds of its sessions.
pub tracked_minutes-total_seconds :
    (now task_id : ℕ) (db : Db)
    → (60 * tracked_minutes now task_id db
        ≤ total_seconds now (select (λ s. s.task_id == task_id) db.sessions) + 30)
      × (total_seconds now (select (λ s. s.task_id == task_id) db.sessions)
          ≤ 60 * tracked_minutes now task_id db + 30)
unfolding tracked_minutes
tracked_minutes-total_seconds now task_id db =
    round_div_60 (total_seconds now (select (λ s. s.task_id == task_id) db.sessions))
