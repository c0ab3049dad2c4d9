-- ===== src/Analysis/Turn.antt =====
-- What one turn of the worker's loop does to the rows of the jobs.
use canvas_watcher.Base.{
  ℕ, suc, Bool, true, false, not, ◌&&◌, ◌||◌, Option, none, some, List, Text, ◌==◌, nat_eq, ◌≡◌,
  refl, arith, ltb, leb, if◌then◌else◌, fetch_one, update_where, ◌∙◌, ap, codes,
}
use canvas_watcher.Analysis.Schema.{
  Kind, task_effort, change_importance, assignment_summary, other_kind, pending, reviewing,
  waiting_ai, ready, failed, is_pending, is_waiting, Job, TaskAnalysis, ChangeAnalysis, Store,
  touched,
}
use canvas_watcher.Analysis.Worker
use canvas_watcher.Analysis.Worker.{
  Outcome, done, raised, Reviews, Worker, set_job, mark_failed, review, review_task, review_change,
  is_terminal, failure, concluded, claimed_job, process_job, is_stale,
}
use canvas_watcher.Analysis.Enqueue.{Verdict}
use canvas_watcher.Analysis.Rows.{by_id, update_twice}

-- A job that may still be claimed has attempts left, and no job has had more than the limit.
abbrev pub bounded : Worker → Job → Bool
bounded w j =
    if is_pending j.state || is_waiting j.state
    then ltb j.attempts w.max_attempts
    else leb j.attempts w.max_attempts

abbrev pub Keeps : Store → Outcome Store × Store → Type 0
Keeps s (done a, t) = (a.jobs ≡ s.jobs) × (t.jobs ≡ s.jobs)
Keeps s (raised e, t) = t.jobs ≡ s.jobs

pub mark_failed-jobs :
    (kind : Kind) (entity_id : ℕ) (is_final : Bool) (error : Text) (s : Store)
    → (mark_failed kind entity_id is_final error s).jobs ≡ s.jobs
unfolding mark_failed
mark_failed-jobs task_effort entity_id is_final error s = refl
mark_failed-jobs change_importance entity_id is_final error s = refl
mark_failed-jobs assignment_summary entity_id is_final error s = refl
mark_failed-jobs other_kind entity_id is_final error s = refl

changed-Keeps :
    (o : Outcome (List ChangeAnalysis)) (s t : Store)
    → s.jobs ≡ t.jobs
    → Keeps t (Worker.changed o s)
changed-Keeps (done rows) s t e = (e, e)
changed-Keeps (raised x) s t e = e

module _ (r : Reviews) where
  task-Keeps : (job : Job) (s : Store) → Keeps s (review_task r job s)
  task-Keeps job s = from (r.has_task job.entity_id) (r.analyze_effort job s.tasks)
    where
      from :
          (b : Bool) (o : Outcome (List TaskAnalysis))
          → Keeps s (
              if not b then (raised Worker.runtime_error, s) else elim o [
                | done rows ↦ (done (record s { tasks = rows }), s)
                | raised e ↦ (raised e, s)
              ])
      from false o = refl
      from true (done rows) = (refl, refl)
      from true (raised e) = refl

  event-Keeps :
      (job : Job) (o : Option ChangeAnalysis) (s : Store) → Keeps s (Worker.review_event r job o s)
  event-Keeps job none s = refl
  event-Keeps job (some a) s = from (r.prefilter job.entity_id).is_drop
    where
      v : Verdict
      v = r.prefilter job.entity_id

      from :
          (b : Bool)
          → Keeps s (
              if b
              then (done (Worker.on_change job.entity_id (λ b. Worker.dropped v b) s), s)
              else let claimed = Worker.on_change job.entity_id (λ b. Worker.in_review b) s in
                Worker.changed (r.analyze_change job claimed.changes) claimed)
      from true = (refl, refl)
      from false = changed-Keeps _ _ s refl

  change-Keeps : (job : Job) (o : Option Bool) (s : Store) → Keeps s (review_change r job o s)
  change-Keeps job none s = refl
  change-Keeps job (some false) s = refl
  change-Keeps job (some true) s =
      event-Keeps job (fetch_one (λ a. a.change_event_id == job.entity_id) s.changes) s

  pub review-Keeps : (job : Job) (k : Kind) (s : Store) → Keeps s (review r job k s)
  review-Keeps job task_effort s = task-Keeps job s
  review-Keeps job change_importance s = change-Keeps job (r.event job.entity_id) s
  review-Keeps job assignment_summary s = refl
  review-Keeps job other_kind s = refl

  module _ (w : Worker) (now : ℕ) where
    abbrev pub good : Job → Bool
    good j = bounded w j && not (is_stale r w now j)

    abbrev pub failing : Job → Text → Job → Job
    failing job error j = touched now (record j {
      last_error = some error;
      state = if is_terminal r w now job then failed else pending;
    })

    failure-jobs :
        (job : Job) (error : Text) (s : Store)
        → (failure r w now job error s).jobs
          ≡ update_where (by_id job.id) (failing job error) s.jobs
    unfolding failure
    failure-jobs job error s = ground (
      arith,
      mark_failed-jobs job.kind job.entity_id (is_terminal r w now job) error (
          set_job now job.id
            (λ j. record j {
              last_error = some error;
              state = if is_terminal r w now job then failed else pending;
            })
            s),
    )

    -- The turn of a job: only its own row changes, and how.
    pub record Turn (job : Job) (before after : List Job) : Type 0 where
      pub change : Job → Job
      pub rows : after ≡ update_where (by_id job.id) change before
      pub same_id : (j : Job) → (change j).id ≡ j.id
      pub well : good (change job) ≡ true

    -- The claim and what comes behind it, on the one row.
    claim_change : Job → Job
    claim_change j = touched now (record j { state = reviewing; attempts = suc j.attempts })

    ready_change : Job → Job
    ready_change j = touched now (record j { state = ready; last_error = none })

    concluded_rows :
        (job : Job) (s : Store) (o : Outcome Store × Store)
        → Keeps s o
        → bounded w job ≡ true
        → is_pending job.state ≡ true
        → (before : List Job) → s.jobs ≡ update_where (by_id job.id) claim_change before
        → Turn job before (concluded r w now (claimed_job r w now job) o).1.jobs
    unfolding claim_change ready_change
    concluded_rows job s (done a, t) k b p before e = record {
      change = λ j. ready_change (claim_change j);
      rows =
          ap (update_where (by_id job.id) ready_change) (k.0 ∙ e)
          ∙ update_twice job.id claim_change ready_change before (λ j. refl);
      same_id = λ j. refl;
      well = ground (arith, b, p);
    }
    concluded_rows job s (raised x, t) k b p before e =
        let c = claimed_job r w now job in
        record {
          change = λ j. failing c x (claim_change j);
          rows =
              failure-jobs c x t
              ∙ ap (update_where (by_id job.id) (failing c x)) (k ∙ e)
              ∙ update_twice job.id claim_change (failing c x) before (λ j. refl);
          same_id = λ j. refl;
          well = ground (arith, b, p);
        }

    waiting-Turn :
        (job : Job) (s : Store)
        → bounded w job ≡ true
        → is_pending job.state ≡ true
        → Turn job s.jobs
            (set_job now job.id
              (λ j. record j {
                state = waiting_ai;
                last_error = some (codes "provider_not_configured");
              })
              s).jobs
    waiting-Turn job s b p = record {
      change = λ j.
          touched now
            (record j { state = waiting_ai; last_error = some (codes "provider_not_configured") });
      rows = refl;
      same_id = λ j. refl;
      well = ground (arith, b, p);
    }

    disabled-Turn :
        (job : Job) (s : Store)
        → bounded w job ≡ true
        → is_pending job.state ≡ true
        → is_terminal r w now job ≡ true
        → Turn job s.jobs (failure r w now job Worker.runtime_error s).jobs
    disabled-Turn job s b p t = record {
      change = failing job Worker.runtime_error;
      rows = failure-jobs job Worker.runtime_error s;
      same_id = λ j. refl;
      well = ground (arith, b, p, t);
    }

    -- On a job that waits, with attempts left, a turn changes no other job, and leaves this one
    -- within the limit and not under review.
    pub process_job-Turn :
        (job : Job) (s : Store)
        → bounded w job ≡ true
        → is_pending job.state ≡ true
        → Turn job s.jobs (process_job r w now job s).1.jobs
    unfolding process_job claim_change
    process_job-Turn job s b p =
        let s' =
          set_job now job.id (λ j. record j { state = reviewing; attempts = suc j.attempts }) s in
        let c = claimed_job r w now job in
        ground (
          arith,
          waiting-Turn job s b p,
          disabled-Turn job s b p,
          concluded_rows job s' (review r c job.kind s') (review-Keeps c job.kind s') b p s.jobs
              refl,
        )
