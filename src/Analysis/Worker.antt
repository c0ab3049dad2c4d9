-- ===== src/Analysis/Worker.antt =====
-- `AnalysisWorker`: the claim of a job, its review, and what a failure leaves. The reviews
-- themselves are parameters: the language model, the tasks and events that they read, and the
-- notification. One reading of the clock stands for those of a run.
use canvas_watcher.Base.{
  ℕ, zero, suc, ◌+◌, Bool, true, false, not, ◌&&◌, ◌||◌, Option, none, some, List, [], ◌∷◌, Text,
  codes, ◌==◌, text_eq, nat_eq, ltb, leb, if◌then◌else◌, select, fetch_one, update_where,
}
use canvas_watcher.Changes.Json
use canvas_watcher.Changes.Json.{Json, Fields, end_fields, get}
use canvas_watcher.Analysis.Schema.{
  Kind, task_effort, change_importance, assignment_summary, other_kind, pending, reviewing,
  waiting_ai, ready, failed, same_kind, is_pending, is_reviewing, is_waiting, Job, status_reviewing,
  status_failed, suppressed, TaskAnalysis, ChangeAnalysis, Store, touched, put,
}
use canvas_watcher.Analysis.Enqueue.{Verdict, outcome_of}

-- What a review returns or raises, by the name of the exception's type.
pub data Outcome {ℓ} (A : Type ℓ) : Type ℓ where
  done : A → Outcome A
  raised : Text → Outcome A

pub record Reviews : Type 0 where
  -- whether the task exists, and `service.analyze_effort`
  pub has_task : ℕ → Bool
  pub analyze_effort : Job → List TaskAnalysis → Outcome (List TaskAnalysis)
  -- whether the event's course is ACTIVE, `none` for no event; and `prefilter` of the event
  pub event : ℕ → Option Bool
  pub prefilter : ℕ → Verdict
  -- `service.analyze_change` with the notification behind it
  pub analyze_change : Job → List ChangeAnalysis → Outcome (List ChangeAnalysis)

pub record Worker : Type 0 where
  pub enabled : Bool
  pub chat_ready : Bool
  pub max_attempts : ℕ

abbrev pub runtime_error : Text
runtime_error = codes "RuntimeError"

abbrev pub set_job : ℕ → ℕ → (Job → Job) → Store → Store
set_job now id f s = record s {
  jobs = update_where (λ j. j.id == id) (λ j. touched now (f j)) s.jobs;
}

-- `_mark_failed`
abbrev failed_json : Bool → Text → Fields → Fields
failed_json is_final error fs =
    put (codes "review_status")
      (Json.string (if is_final then codes "AI_FAILED_FINAL" else codes "AI_FAILED_RETRYABLE"))
      (put (codes "notify_user") (Json.boolean false) (
        put (codes "review_version") (Json.string (codes "0.7.1"))
          (put (codes "error") (Json.string error) fs)))

abbrev error_json : Text → Fields
error_json error = Json.field (codes "error") (Json.string error) end_fields

abbrev pub failed_change : Bool → Text → ChangeAnalysis → ChangeAnalysis
failed_change is_final error a = record a {
  analysis_status = status_failed;
  analysis_json = failed_json is_final error a.analysis_json;
  requires_action = false;
  reason = codes "AI review unavailable; no notification was approved.";
  recommended_action = none;
}

unfoldable pub mark_failed : Kind → ℕ → Bool → Text → Store → Store
unfolding update_where put
mark_failed assignment_summary entity_id is_final error s = s
mark_failed task_effort entity_id is_final error s = record s {
  tasks =
      update_where (λ a. a.task_id == entity_id)
        (λ a. record a { analysis_status = status_failed; analysis_json = error_json error })
        s.tasks;
}
mark_failed change_importance entity_id is_final error s = record s {
  changes =
      update_where (λ a. a.change_event_id == entity_id) (λ a. failed_change is_final error a)
        s.changes;
}
mark_failed other_kind entity_id is_final error s = record s {
  changes =
      update_where (λ a. a.change_event_id == entity_id)
        (λ a. record a { analysis_status = status_failed; analysis_json = error_json error })
        s.changes;
}

-- `_task`
abbrev pub review_task : Reviews → Job → Store → Outcome Store × Store
review_task r job s =
    if not (r.has_task job.entity_id)
    then (raised runtime_error, s)
    else elim (r.analyze_effort job s.tasks) [
      | done rows ↦ (done (record s { tasks = rows }), s)
      | raised e ↦ (raised e, s)
    ]

abbrev pub dropped : Verdict → ChangeAnalysis → ChangeAnalysis
dropped v a = record a {
  analysis_status = suppressed;
  analysis_json = put (codes "notify_user") (Json.boolean false) (
      put (codes "review_status") (Json.string (codes "SUPPRESSED")) (
        put (codes "matched_rule") (get (codes "matched_rule") v.context) (
          put (codes "stage1_reason") (Json.string v.reason)
            (put (codes "stage1") (outcome_of v.is_drop) a.analysis_json))));
}

abbrev pub in_review : ChangeAnalysis → ChangeAnalysis
in_review a = record a {
  analysis_status = status_reviewing;
  analysis_json = put (codes "review_status") (Json.string (codes "REVIEWING")) a.analysis_json;
}

abbrev pub on_change : ℕ → (ChangeAnalysis → ChangeAnalysis) → Store → Store
on_change event_id f s = record s {
  changes = update_where (λ a. a.change_event_id == event_id) f s.changes;
}

abbrev pub changed : Outcome (List ChangeAnalysis) → Store → Outcome Store × Store
changed (done rows) s = (done (record s { changes = rows }), s)
changed (raised e) s = (raised e, s)

abbrev pub review_event : Reviews → Job → Option ChangeAnalysis → Store → Outcome Store × Store
review_event r job none s = (raised (codes "AttributeError"), s)
review_event r job (some a) s =
    let v = r.prefilter job.entity_id in
    if v.is_drop
    then (done (on_change job.entity_id (λ b. dropped v b) s), s)
    else let claimed = on_change job.entity_id (λ b. in_review b) s in
      changed (r.analyze_change job claimed.changes) claimed

-- `_change`: what it returns or raises, and the store of its last commit.
abbrev pub review_change : Reviews → Job → Option Bool → Store → Outcome Store × Store
review_change r job none s = (raised runtime_error, s)
review_change r job (some is_active) s =
    if not is_active
    then (raised runtime_error, s)
    else review_event r job (fetch_one (λ a. a.change_event_id == job.entity_id) s.changes) s

abbrev pub review : Reviews → Job → Kind → Store → Outcome Store × Store
review r job task_effort s = review_task r job s
review r job change_importance s = review_change r job (r.event job.entity_id) s
review r job assignment_summary s = (raised runtime_error, s)
review r job other_kind s = (raised runtime_error, s)

-- LIMIT
unfoldable pub first_of : ℕ → List Job → List ℕ
first_of zero jobs = []
first_of (suc n) [] = []
first_of (suc n) (j ∷ jobs) = j.id ∷ first_of n jobs

module _ (r : Reviews) (w : Worker) (now : ℕ) where
  abbrev pub is_change : Job → Bool
  is_change job = same_kind job.kind change_importance

  -- `job.attempts >= self.max_attempts or (...)`
  abbrev pub is_terminal : Job → Bool
  is_terminal job = leb w.max_attempts job.attempts || (not (is_change job) && not w.enabled)

  -- The body of `except`, behind the rollback.
  unfoldable pub failure : Job → Text → Store → Store
  unfolding mark_failed update_where
  failure job error s =
      let terminal = is_terminal job in
      let s' =
        set_job now job.id
          (λ j. record j { last_error = some error; state = if terminal then failed else pending })
          s in
      if terminal || is_change job then mark_failed job.kind job.entity_id terminal error s' else s'

  abbrev pub concluded : Job → Outcome Store × Store → ℕ × Store
  concluded job (done s, t) =
      (1, set_job now job.id (λ j. record j { state = ready; last_error = none }) s)
  concluded job (raised e, t) = (0, failure job e t)

  abbrev pub claimed_job : Job → Job
  claimed_job job = touched now (record job { state = reviewing; attempts = suc job.attempts })

  unfoldable pub process_job : Job → Store → ℕ × Store
  unfolding failure mark_failed fetch_one update_where get put
  process_job job s =
      if is_change job && not w.enabled && not w.chat_ready
      then (
        0,
        set_job now job.id
            (λ j. record j {
              state = waiting_ai;
              last_error = some (codes "provider_not_configured");
            })
            s,
      )
      else if not (is_change job) && not w.enabled
      then (0, failure job runtime_error s)
      else let s' =
          set_job now job.id (λ j. record j { state = reviewing; attempts = suc j.attempts }) s in
        concluded (claimed_job job) (review r (claimed_job job) job.kind s')

  abbrev at_job : Option Job → Store → ℕ × Store
  at_job none s = (0, s)
  at_job (some job) s = process_job job s

  -- The loop over the selected jobs, each read as it is when its turn comes.
  unfoldable pub process_all : List ℕ → Store → ℕ × Store
  unfolding process_job fetch_one
  process_all [] s = (0, s)
  process_all (id ∷ ids) s =
      let first = at_job (fetch_one (λ j. j.id == id) s.jobs) s in
      let others = process_all ids first.1 in (first.0 + others.0, others.1)

  abbrev pub is_stale : Job → Bool
  is_stale job = is_reviewing job.state && ltb (job.updated_at + 300) now

  abbrev pub recovery : Job → Job
  recovery j = record j { state = if leb w.max_attempts j.attempts then failed else pending }

  abbrev pub recovered : Job → Store → Store
  recovered job s =
      let s' = set_job now job.id (λ j. recovery j) s in
      if leb w.max_attempts job.attempts
      then mark_failed job.kind job.entity_id true (codes "interrupted_review") s'
      else s'

  unfoldable pub recover_all : List Job → Store → Store
  unfolding mark_failed update_where
  recover_all [] s = s
  recover_all (job ∷ jobs) s = recover_all jobs (recovered job s)

  -- The two UPDATEs on the reviews of changes.
  abbrev pub resumed : Job → Job
  resumed j = touched now (record j { state = pending; last_error = none })

  abbrev pub parked : Job → Job
  parked j =
      touched now
        (record j { state = waiting_ai; last_error = some (codes "provider_not_configured") })

  unfoldable pub park_or_resume : Store → Store
  unfolding update_where
  park_or_resume s =
      if w.enabled || w.chat_ready
      then record s {
        jobs = update_where (λ j. is_change j && is_waiting j.state) (λ j. resumed j) s.jobs;
      }
      else record s {
        jobs = update_where (λ j. is_change j && is_pending j.state) (λ j. parked j) s.jobs;
      }

  unfoldable pub due_jobs : ℕ → List Job → List ℕ
  unfolding first_of select
  due_jobs limit jobs =
      first_of limit
        (select (λ j. is_pending j.state && not (same_kind j.kind assignment_summary)) jobs)

  -- `_run_pending` up to `run_summaries`
  unfoldable pub run_reviews : ℕ → Store → ℕ × Store
  unfolding recover_all park_or_resume due_jobs process_all select
  run_reviews limit s =
      let s1 = park_or_resume (recover_all (select (λ j. is_stale j) s.jobs) s) in
      process_all (due_jobs limit s1.jobs) s1
