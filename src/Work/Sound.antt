-- ===== src/Work/Sound.antt =====
-- At most one session is open, and completed work has no open session.
use canvas_watcher.Base.{
  ℕ, ◌≤◌, Bool, true, false, Option, none, some, List, [], ◌∷◌, ◌++◌, ◌≡◌, ◌==◌, nat_eq, refl, sym,
  ◌∙◌, arith, inl, inr, Bool-cases, Option-cases, All, Pairwise, select, fetch_one, count_where,
  update_where, when_then,
}
use canvas_watcher.Base.Table.Rows.{All-update_where, Pairwise-update_where, count_where-append}
use canvas_watcher.Work.Schema.{minus, clamp, ℤ, Task, TaskWorkSession, Db, Result, ok, latest}
use canvas_watcher.Work.Progress.{is_open, opened_for}
use canvas_watcher.Work.Timer.{
  Summary, tracked_minutes, get_task, active_session, newer_session, stop_row, stop_session,
  new_session, begun, open_new, start_task_work, stop_task_work, set_effective_used_minutes,
}
use canvas_watcher.Work.OpenRows.{
  count_where-closed, count_where-closes, count_where-implied, count_where-selected, latest-none,
  any-latest, any-select, select-none, select-append,
}

abbrev pub Rested : List TaskWorkSession → Task → Type 0
Rested rows t = t.local_completed ≡ true → count_where (opened_for t.id) rows ≡ 0

pub record WorkSound (db : Db) : Type 0 where
  pub unique : Pairwise (λ t u. (t.id == u.id) ≡ false) db.tasks
  pub one_open : count_where is_open db.sessions ≤ 1
  pub rested : All (Rested db.sessions) db.tasks

-- Whether an assignment keeps the key and the completion of a task.
abbrev pub KeepsTask : (Task → Task) → Type 0
KeepsTask f = (t : Task) → ((f t).id ≡ t.id) × ((f t).local_completed ≡ t.local_completed)

Rested-same :
    (rows : List TaskWorkSession) (t u : Task)
    → u.id ≡ t.id
    → u.local_completed ≡ t.local_completed
    → Rested rows t
    → Rested rows u
Rested-same rows t u i c r done = rw i (r (sym c ∙ done))

pub tasks-WorkSound :
    (q : Task → Bool) (f : Task → Task) (db : Db)
    → KeepsTask f
    → WorkSound db
    → WorkSound (record db { tasks = update_where q f db.tasks })
tasks-WorkSound q f db keeps s = record {
  unique =
      Pairwise-update_where (λ t u. (t.id == u.id) ≡ false) q f db.tasks
        (λ t u ne. ground (arith, ne, keeps t, keeps u)) s.unique;
  one_open = s.one_open;
  rested =
      All-update_where (Rested db.sessions) (Rested db.sessions) q f db.tasks
        (λ t.
          Rested-same db.sessions t (when_then q f t) (ground (arith, keeps t))
            (ground (arith, keeps t)))
        s.rested;
}

-- Closing sessions by a key.
pub sessions-WorkSound :
    (q : TaskWorkSession → Bool) (f : TaskWorkSession → TaskWorkSession) (db : Db)
    → ((s : TaskWorkSession) → is_open (f s) ≡ false)
    → WorkSound db
    → WorkSound (record db { sessions = update_where q f db.sessions })
sessions-WorkSound q f db shut s = record {
  unique = s.unique;
  one_open = ground (arith, s.one_open, count_where-closed is_open q f db.sessions shut);
  rested =
      All-map_to (Rested db.sessions) (Rested (update_where q f db.sessions)) db.tasks
        (λ t r done. ground (
          arith,
          r done,
          count_where-closed (opened_for t.id) q f db.sessions (λ x. ground (arith, shut x)),
        ))
        s.rested;
}
  where
    All-map_to :
        (P Q : Task → Type 0) (ts : List Task) → ((t : Task) → P t → Q t) → All P ts → All Q ts
    All-map_to P Q [] k h = tt
    All-map_to P Q (t ∷ ts) k h = (k t h.0, All-map_to P Q ts k h.1)

same_task :
    (task_id : ℕ) (tasks : List Task) (task : Task)
    → Pairwise (λ t u. (t.id == u.id) ≡ false) tasks
    → fetch_one (λ t. t.id == task_id) tasks ≡ some task
    → All (λ t. (t.id == task_id) ≡ true → t ≡ task) tasks
unfolding fetch_one
same_task task_id [] task u h = tt
same_task task_id (t ∷ ts) task u h = elim (Bool-cases (t.id == task_id)) [
  | inl e ↦ (λ e'. ground (arith, e), others ts u.0 e)
  | inr e ↦
      (λ e'. absurd (ground (e, e', arith)), same_task task_id ts task u.1 (ground (arith, e)))
]
  where
    others :
        (us : List Task)
        → All (λ v. (t.id == v.id) ≡ false) us
        → (t.id == task_id) ≡ true
        → All (λ v. (v.id == task_id) ≡ true → v ≡ task) us
    others [] a e = tt
    others (v ∷ vs) a e = (λ e'. absurd (ground (arith, a.0, e, e')), others vs a.1 e)

no_open : (db : Db) → active_session db ≡ none → count_where is_open db.sessions ≡ 0
unfolding active_session
no_open db h =
    count_where-selected is_open db.sessions
      (latest-none newer_session (select is_open db.sessions) h)

stopped :
    (db : Db) (s : TaskWorkSession) (moment : ℕ)
    → active_session db ≡ some s
    → count_where is_open db.sessions ≤ 1
    → count_where is_open (stop_row s moment db.sessions) ≡ 0
unfolding active_session stop_row stop_session
stopped db s moment h one =
    let q : TaskWorkSession → Bool = λ x. x.id == s.id in
    ground (
      arith,
      count_where-closes is_open q (λ x. stop_session x moment) db.sessions (λ x. refl)
          (any-select is_open q db.sessions
            (any-latest newer_session q (select is_open db.sessions) s h (ground arith))),
    )

open_new-WorkSound :
    (task_id moment : ℕ) (rows : List TaskWorkSession) (task : Task) (db : Db)
    → count_where is_open rows ≡ 0
    → get_task task_id db ≡ some task
    → task.local_completed ≡ false
    → WorkSound db
    → WorkSound (open_new task_id moment rows db)
unfolding open_new new_session get_task
open_new-WorkSound task_id moment rows task db none_open found active s =
    tasks-WorkSound (λ t. t.id == task_id) begun (record db { sessions = rows ++ n ∷ [] })
      (λ t. (refl, refl))
      (record {
        unique = s.unique;
        one_open =
            unfold count_where in
            ground (arith, none_open, count_where-append is_open rows (n ∷ []));
        rested = others db.tasks (same_task task_id db.tasks task s.unique found);
      })
  where
    n : TaskWorkSession
    n = new_session task_id moment rows

    others :
        (ts : List Task)
        → All (λ t. (t.id == task_id) ≡ true → t ≡ task) ts
        → All (Rested (rows ++ n ∷ [])) ts
    others [] a = tt
    others (t ∷ ts) a = (
      λ done.
          unfold count_where in
          ground (
            arith,
            none_open,
            active,
            a.0,
            count_where-implied (opened_for t.id) is_open rows (λ x e. ground arith),
            count_where-append (opened_for t.id) rows (n ∷ []),
          ),
      others ts a.1,
    )

pub start_task_work-WorkSound :
    (task_id moment : ℕ) (db : Db) → WorkSound db → WorkSound (start_task_work task_id moment db).1
unfolding start_task_work
start_task_work-WorkSound task_id moment db s = elim (Option-cases (get_task task_id db)) [
  | inl missing ↦ ground (arith, s)
  | inr (task, found) ↦ elim (Option-cases (active_session db)) [
    | inl e ↦
        ground
          (arith, s, open_new-WorkSound task_id moment db.sessions task db (no_open db e) found)
    | inr (o, e) ↦ ground (
      arith,
      s,
      open_new-WorkSound task_id moment (stop_row o moment db.sessions) task db
          (stopped db o moment e s.one_open) found,
    )
  ]
]

pub stop_task_work-WorkSound :
    (task_id now : ℕ) (db : Db) → WorkSound db → WorkSound (stop_task_work task_id now db).1
unfolding stop_task_work stop_row stop_session
stop_task_work-WorkSound task_id now db s = elim (Option-cases (get_task task_id db)) [
  | inl missing ↦ ground (arith, s)
  | inr (task, found) ↦ elim (Option-cases (active_session db)) [
    | inl e ↦ ground (arith, s)
    | inr (o, e) ↦ ground (
      arith,
      s,
      sessions-WorkSound (λ x. x.id == o.id) (λ x. stop_session x now) db (λ x. refl) s,
    )
  ]
]

pub set_effective_used_minutes-WorkSound :
    (task_id : ℕ) (requested : ℤ) (now : ℕ) (db : Db)
    → WorkSound db
    → WorkSound (set_effective_used_minutes task_id requested now db).1
unfolding set_effective_used_minutes
set_effective_used_minutes-WorkSound task_id requested now db s =
    elim (Option-cases (get_task task_id db)) [
      | inl missing ↦ ground (arith, s)
      | inr (task, found) ↦
          let adjustment = minus (clamp requested) (tracked_minutes now task_id db) in
          ground (
            arith,
            found,
            tasks-WorkSound (λ t. t.id == task_id)
                (λ t. record t { manual_time_adjustment_minutes = adjustment }) db
                (λ t. (refl, refl)) s,
          )
    ]

active-open_new :
    (task_id moment : ℕ) (rows : List TaskWorkSession) (db : Db)
    → count_where is_open rows ≡ 0
    → active_session (open_new task_id moment rows db) ≡ some (new_session task_id moment rows)
unfolding active_session open_new new_session select latest
active-open_new task_id moment rows db h =
    rw
      (
        select-append is_open rows (new_session task_id moment rows ∷ []),
        select-none is_open rows h,
      )
      refl

-- Where at most one session is open, behind a `start_task_work` that does not raise the active session
-- is one of this task.
pub active-start_task_work :
    (task_id moment : ℕ) (r : Result Summary × Option ℕ) (db db' : Db)
    → WorkSound db
    → start_task_work task_id moment db ≡ (ok r, db')
    → (s : TaskWorkSession) × (active_session db' ≡ some s) × (s.task_id ≡ task_id)
unfolding start_task_work
active-start_task_work task_id moment r db db' sound h = elim (Option-cases (get_task task_id db)) [
  | inl missing ↦ absurd (ground arith)
  | inr (task, found) ↦ elim (Option-cases (active_session db)) [
    | inl e ↦ (
      new_session task_id moment db.sessions,
      ground (arith, active-open_new task_id moment db.sessions db (no_open db e)),
      unfold new_session in refl,
    )
    | inr (o, e) ↦ elim (Bool-cases (o.task_id == task_id)) [
      | inl same ↦ (o, ground arith, ground arith)
      | inr differ ↦ (
        new_session task_id moment (stop_row o moment db.sessions),
        ground (
          arith,
          active-open_new task_id moment (stop_row o moment db.sessions) db
              (stopped db o moment e sound.one_open),
        ),
        unfold new_session in refl,
      )
    ]
  ]
]
