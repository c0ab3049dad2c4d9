-- ===== src/Analysis/Enqueue.antt =====
-- `enqueue_task_analysis` and `enqueue_change_analysis`. The hash of the input and the answer of
-- `prefilter` are arguments, and so is the id of a new row.
use canvas_watcher.Base.{
  ℕ, Bool, true, false, not, ◌&&◌, Option, none, some, List, [], ◌∷◌, ◌++◌, Text, codes, ◌==◌,
  text_eq, nat_eq, if◌then◌else◌, fetch_one, update_where,
}
use canvas_watcher.Changes.Json.{Json, Fields, end_fields, get}
use canvas_watcher.Changes.Json
use canvas_watcher.Analysis.Schema.{
  Kind, task_effort, change_importance, pending, same_kind, Job, Status, status_pending,
  status_ready, status_failed, suppressed, TaskAnalysis, ChangeAnalysis, Store, touched,
}

-- The row of UNIQUE(kind, entity_id, input_hash)
abbrev pub is_job : Kind → ℕ → Text → Job → Bool
is_job kind entity_id input_hash j =
    same_kind j.kind kind && j.entity_id == entity_id && j.input_hash == input_hash

abbrev pub new_job : ℕ → Kind → ℕ → Text → ℕ → Job
new_job id kind entity_id input_hash now = record {
  id = id;
  kind = kind;
  entity_id = entity_id;
  input_hash = input_hash;
  state = pending;
  attempts = 0;
  last_error = none;
  updated_at = now;
}

abbrev settled : Status → Bool
settled status_failed = true
settled status_pending = true
settled status_ready = true
settled _ = false

abbrev has_hash : Text → Option Text → Bool
has_hash h none = false
has_hash h (some i) = i == h

-- `not force and analysis.input_hash == input_hash and analysis.analysis_status in ...`
abbrev pub is_current : Bool → Text → TaskAnalysis → Bool
is_current force input_hash a =
    not force && has_hash input_hash a.input_hash && settled a.analysis_status

-- What the store's analysis becomes; `none` where the function returns at once.
abbrev pub for_task :
    Bool → ℕ → Text → Text → Option TaskAnalysis → List TaskAnalysis → Option (List TaskAnalysis)
for_task force task_id task_type input_hash none rows = some (
    rows
    ++ record {
      task_id = task_id;
      classification = task_type;
      analysis_status = status_pending;
      input_hash = some input_hash;
      analysis_json = end_fields;
    }
      ∷ [])
for_task force task_id task_type input_hash (some a) rows =
    if is_current force input_hash a
    then none
    else some (
        update_where (λ r. r.task_id == task_id)
          (λ r. record r { analysis_status = status_pending; input_hash = some input_hash }) rows)

abbrev pub restarted : ℕ → Job → Job
restarted now j = touched now (record j { state = pending; attempts = 0; last_error = none })

-- The job that is returned and the rows behind it.
abbrev pub queued : Bool → ℕ → ℕ → Kind → ℕ → Text → List Job → Job × List Job
queued force now id kind entity_id input_hash jobs =
    elim (fetch_one (λ j. is_job kind entity_id input_hash j) jobs) [
      | none ↦ let j = new_job id kind entity_id input_hash now in (j, jobs ++ j ∷ [])
      | some j ↦
          if force
          then (restarted now j, update_where (λ k. k.id == j.id) (λ k. restarted now k) jobs)
          else (j, jobs)
    ]

abbrev task_queued :
    Bool → ℕ → ℕ → ℕ → Text → Option (List TaskAnalysis) → Store → Option Job × Store
task_queued force now id task_id input_hash none s = (none, s)
task_queued force now id task_id input_hash (some rows) s =
    let q = queued force now id task_effort task_id input_hash s.jobs in
    (some q.0, record s { tasks = rows; jobs = q.1 })

unfoldable pub enqueue_task_analysis : Bool → ℕ → ℕ → ℕ → Text → Text → Store → Option Job × Store
unfolding fetch_one update_where
enqueue_task_analysis force now id task_id task_type input_hash s =
    task_queued force now id task_id input_hash
      (for_task force task_id task_type input_hash (fetch_one (λ r. r.task_id == task_id) s.tasks)
        s.tasks)
      s

-- What `prefilter` answers.
pub record Verdict : Type 0 where
  pub is_drop : Bool
  pub reason : Text
  pub context : Fields

abbrev pub outcome_of : Bool → Json
outcome_of true = Json.string (codes "DROP")
outcome_of false = Json.string (codes "AI_REVIEW")

abbrev pub review_json : Verdict → Fields
review_json v = Json.field (codes "review_version") (Json.string (codes "0.7.1")) (
    Json.field (codes "stage1") (outcome_of v.is_drop) (
      Json.field (codes "stage1_reason") (Json.string v.reason) (
        Json.field (codes "context") (Json.object v.context) (
          Json.field (codes "matched_rule") (get (codes "matched_rule") v.context) (
            Json.field (codes "review_status")
              (Json.string (if v.is_drop then codes "SUPPRESSED" else codes "PENDING_AI"))
              (Json.field (codes "notify_user") (Json.boolean false) end_fields))))))

abbrev first_status : Verdict → Status
first_status v = if v.is_drop then suppressed else status_pending

abbrev pub new_analysis : ℕ → Text → Verdict → ChangeAnalysis
new_analysis event_id input_hash v = record {
  change_event_id = event_id;
  input_hash = input_hash;
  analysis_status = first_status v;
  analysis_json = review_json v;
  requires_action = false;
  reason = [];
  recommended_action = none;
}

abbrev pub renewed : Text → Verdict → ChangeAnalysis → ChangeAnalysis
renewed input_hash v a = record a {
  input_hash = input_hash;
  analysis_status = first_status v;
  analysis_json = review_json v;
}

abbrev pub for_change :
    ℕ → Text → Verdict → Option ChangeAnalysis → List ChangeAnalysis → Option (List ChangeAnalysis)
for_change event_id input_hash v none rows = some (rows ++ new_analysis event_id input_hash v ∷ [])
for_change event_id input_hash v (some a) rows =
    if a.input_hash == input_hash
    then none
    else some (update_where (λ r. r.change_event_id == event_id) (λ r. renewed input_hash v r) rows)

abbrev change_queued :
    ℕ → ℕ → ℕ → Text → Verdict → Option (List ChangeAnalysis) → Store → Option Job × Store
change_queued now id event_id input_hash v none s = (none, s)
change_queued now id event_id input_hash v (some rows) s =
    if v.is_drop
    then (none, record s { changes = rows })
    else let q = queued false now id change_importance event_id input_hash s.jobs in
      (some q.0, record s { changes = rows; jobs = q.1 })

unfoldable pub enqueue_change_analysis : ℕ → ℕ → ℕ → Text → Verdict → Store → Option Job × Store
unfolding fetch_one update_where get
enqueue_change_analysis now id event_id input_hash v s =
    change_queued now id event_id input_hash v
      (for_change event_id input_hash v (fetch_one (λ r. r.change_event_id == event_id) s.changes)
        s.changes)
      s
