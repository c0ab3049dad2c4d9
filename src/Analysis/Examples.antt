-- ===== src/Analysis/Examples.antt =====
-- The theorems on the queue of analyses at concrete inputs.
use canvas_watcher.Base.{
  true, false, none, some, [], ◌∷◌, codes, ◌≡◌, refl, arith, All, select, fetch_one, update_where,
  text_beq,
}
use canvas_watcher.Changes.Json.{end_fields}
use canvas_watcher.Analysis.Schema.{
  Job, task_effort, change_importance, pending, reviewing, status_pending, Store, put,
  ChangeAnalysis,
}
use canvas_watcher.Analysis.Enqueue.{Verdict, enqueue_task_analysis, enqueue_change_analysis}
use canvas_watcher.Analysis.Notify.{Quiet, is_known, enqueue_change_analysis-Quiet}
use canvas_watcher.Analysis.Worker.{
  Reviews, Worker, done, raised, failure, run_reviews, recover_all, park_or_resume, due_jobs,
  first_of, process_all, process_job, mark_failed,
}
use canvas_watcher.Analysis.Summaries.{Summaries, run_pending}
use canvas_watcher.Analysis.Bounded.{Well}
use canvas_watcher.Analysis.Summarized.{run_pending-Well}
use canvas_watcher.Analysis.Settled.{enqueue_task_analysis_again, failure-Silent, Silent}

abbrev reviews : Reviews
reviews = record {
  has_task = λ id. true;
  analyze_effort = λ job rows. done rows;
  event = λ id. some true;
  prefilter = λ id. record { is_drop = false; reason = []; context = end_fields };
  analyze_change = λ job rows. raised (codes "TimeoutError");
}

abbrev verdict : Verdict
verdict = record { is_drop = false; reason = []; context = end_fields }

abbrev worker : Worker
worker = record { enabled = true; chat_ready = false; max_attempts = 2 }

abbrev summaries : Summaries
summaries = record {
  inputs = none;
  input_before = λ id. none;
  input_after = λ id. none;
  ready_after = false;
  chat = λ t. raised t;
  unfenced = λ t. t;
  validate = λ t. some t;
}

abbrev effort : Job
effort = record {
  id = 1;
  kind = task_effort;
  entity_id = 7;
  input_hash = codes "h";
  state = pending;
  attempts = 0;
  last_error = none;
  updated_at = 10;
}

abbrev change : Job
change = record effort { id = 2; kind = change_importance; attempts = 1 }

abbrev stranded : Job
stranded = record effort { id = 3; state = reviewing; attempts = 2 }

abbrev analysis : ChangeAnalysis
analysis = record {
  change_event_id = 7;
  input_hash = codes "h";
  analysis_status = status_pending;
  analysis_json = end_fields;
  requires_action = true;
  reason = [];
  recommended_action = none;
}

abbrev store : Store
store = record { jobs = effort ∷ change ∷ stranded ∷ []; tasks = []; changes = analysis ∷ [] }

-- One review succeeds; the change fails for good, and the stranded job is out of attempts.
one_done : (run_reviews reviews worker 1000 10 store).0 ≡ 1
unfolding run_reviews recover_all park_or_resume due_jobs first_of process_all process_job failure
    mark_failed select fetch_one update_where put text_beq
one_done = refl

run_pending-Well_example :
    Well reviews worker 1000
      (run_pending reviews worker summaries 1000 false 10
        (record { store = store; runs = [] })).1.store
run_pending-Well_example =
    run_pending-Well reviews summaries worker 1000 10 (record { store = store; runs = [] })
      (omega arith) ((refl, (refl, tt)), ((refl, tt), (tt, tt))) (refl, (refl, (refl, tt)))

enqueue_task_analysis_again_example :
    enqueue_task_analysis false 20 5 7
      (codes "homework")
      (codes "h")
      (enqueue_task_analysis true 10 4 7 (codes "homework") (codes "h") store).1
    ≡ (none, (enqueue_task_analysis true 10 4 7 (codes "homework") (codes "h") store).1)
enqueue_task_analysis_again_example =
    enqueue_task_analysis_again true 10 20 4 5 7 (codes "homework") (codes "h") store

failure-Silent_example :
    All (Silent 7) (failure reviews worker 1000 change (codes "TimeoutError") store).changes
failure-Silent_example = failure-Silent reviews worker 1000 change (codes "TimeoutError") store refl

new_input : is_known 7 (codes "new") store ≡ false
unfolding fetch_one text_beq
new_input = refl

enqueue_change_analysis-Quiet_example :
    All (Quiet 7) (enqueue_change_analysis 20 9 7 (codes "new") verdict store).1.changes
enqueue_change_analysis-Quiet_example =
    enqueue_change_analysis-Quiet 20 9 7 (codes "new") verdict store new_input
