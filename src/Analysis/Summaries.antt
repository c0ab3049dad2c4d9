-- ===== src/Analysis/Summaries.antt =====
-- backend/app/services/assignment_summaries.py: the jobs of the descriptions' summaries. The rows of
-- the day, the inputs, the model and its answers' validation are parameters.
use canvas_watcher.Base.{
  ℕ, suc, ◌+◌, Bool, true, false, not, ◌&&◌, ◌||◌, Option, none, some, List, [], ◌∷◌, ◌++◌, Text,
  codes, ◌==◌, text_eq, nat_eq, ltb, leb, min, max, if◌then◌else◌, select, fetch_one, update_where,
  strip, length,
}
use canvas_watcher.Analysis.Schema.{
  assignment_summary, State, pending, reviewing, ready, failed, superseded, same_kind, is_pending,
  Job, Store,
}
use canvas_watcher.Analysis.Enqueue.{is_job, new_job}
use canvas_watcher.Analysis.Worker.{
  Outcome, done, raised, Reviews, Worker, set_job, first_of, run_reviews,
}

-- An item of the day with a description: its input's hash, and whether its summary is cached.
pub record Visible : Type 0 where
  pub item_id : ℕ
  pub digest : Text
  pub has_summary : Bool

pub record Message : Type 0 where
  pub has_tool_calls : Bool
  pub content : Option Text

-- An `AIRun` of a summary.
pub record Run : Type 0 where
  pub item_id : ℕ
  pub input_hash : Text
  pub summary : Text

pub record Summaries : Type 0 where
  -- the reader of the day's items, `none` where an exception is raised
  pub inputs : Option (List Visible)
  -- `summary_input` before the request and behind it
  pub input_before : ℕ → Option (Text × Text)
  pub input_after : ℕ → Option (Text × Text)
  -- `configured(db)` and the model's readiness behind the request
  pub ready_after : Bool
  pub chat : Text → Outcome Message
  -- re.sub of the code fences, and the JSON of a `DescriptionSummary`
  pub unfenced : Text → Text
  pub validate : Text → Option Text

pub record Published : Type 0 where
  pub store : Store
  pub runs : List Run

-- SQLite's next INTEGER PRIMARY KEY
unfoldable pub next_id : List Job → ℕ
next_id [] = 1
next_id (j ∷ jobs) = max (suc j.id) (next_id jobs)

abbrev reusable : State → Bool
reusable superseded = true
reusable ready = true
reusable pending = true
reusable _ = false

module _ (w : Worker) (now : ℕ) where
  abbrev pub reused : Job → Job
  reused j = record j {
    state = if leb w.max_attempts j.attempts then failed else pending;
    last_error =
        if leb w.max_attempts j.attempts then some (codes "summary_retry_exhausted") else none;
  }

  abbrev pub summary_queued : Visible → Option Job → Store → Store
  summary_queued v none s = record s {
    jobs = s.jobs ++ new_job (next_id s.jobs) assignment_summary v.item_id v.digest now ∷ [];
  }
  summary_queued v (some j) s = if reusable j.state then set_job now j.id (λ k. reused k) s else s

  -- `enqueue_visible_summaries`
  unfoldable pub enqueue_all : List Visible → Store → Store
  unfolding fetch_one next_id update_where
  enqueue_all [] s = s
  enqueue_all (v ∷ vs) s = enqueue_all vs (
      if v.has_summary
      then s
      else summary_queued v (fetch_one (λ j. is_job assignment_summary v.item_id v.digest j) s.jobs)
          s)

-- What `generate_summary` comes to.
pub data Generated : Type 0 where
  published : Text → Generated
  obsolete : Generated
  refused : Text → Generated

module _ (x : Summaries) where
  -- `not source or source[1] != job.input_hash`, negated
  abbrev pub is_current : Text → Option (Text × Text) → Bool
  is_current digest none = false
  is_current digest (some (description, d)) = d == digest

  abbrev text_of : Option (Text × Text) → Text
  text_of none = []
  text_of (some (description, d)) = description

  abbrev of_summary : Job → Text → Generated
  of_summary job [] = refused (codes "ValueError")
  of_summary job (c ∷ t) =
      if not x.ready_after || not (is_current job.input_hash (x.input_after job.entity_id))
      then obsolete
      else published (c ∷ t)

  -- `Field(min_length=1, max_length=600)`
  abbrev of_valid : Job → Option Text → Generated
  of_valid job none = refused (codes "ValidationError")
  of_valid job (some t) =
      if ltb (length t) 1 || ltb 600 (length t)
      then refused (codes "ValidationError")
      else of_summary job (strip t)

  abbrev of_message : Job → Outcome Message → Generated
  of_message job (raised e) = refused e
  of_message job (done m) =
      if m.has_tool_calls then refused (codes "ValueError") else elim m.content [
        | none ↦ refused (codes "ValueError")
        | some t ↦ of_valid job (x.validate (x.unfenced (strip t)))
      ]

  unfoldable pub generate_summary : Job → Generated
  unfolding strip
  generate_summary job =
      if not (is_current job.input_hash (x.input_before job.entity_id))
      then obsolete
      else of_message job (x.chat (text_of (x.input_before job.entity_id)))

  module _ (w : Worker) (now : ℕ) where
    abbrev pub summary_concluded : Job → Generated → Published → ℕ × Published
    summary_concluded job (published t) p = (
      1,
      record {
        store = set_job now job.id (λ j. record j { state = ready; last_error = none }) p.store;
        runs =
            p.runs
            ++ record { item_id = job.entity_id; input_hash = job.input_hash; summary = t } ∷ [];
      },
    )
    summary_concluded job obsolete p = (
      0,
      record p {
        store =
            set_job now job.id (λ j. record j { state = superseded; last_error = none }) p.store;
      },
    )
    summary_concluded job (refused e) p = (
      0,
      record p {
        store =
            set_job now job.id
              (λ j. record j {
                last_error = some e;
                state = if leb w.max_attempts j.attempts then failed else pending;
              })
              p.store;
      },
    )

    abbrev pub at_summary : Option Job → Published → ℕ × Published
    at_summary none p = (0, p)
    at_summary (some job) p = summary_concluded job (generate_summary job) (record p {
      store =
          set_job now job.id (λ j. record j { state = reviewing; attempts = suc j.attempts })
            p.store;
    })

    unfoldable pub summarize_all : List ℕ → Published → ℕ × Published
    unfolding generate_summary fetch_one update_where
    summarize_all [] p = (0, p)
    summarize_all (id ∷ ids) p =
        let first = at_summary (fetch_one (λ j. j.id == id) p.store.jobs) p in
        let others = summarize_all ids first.1 in (first.0 + others.0, others.1)

    abbrev pub is_summary_due : Job → Bool
    is_summary_due j =
        same_kind j.kind assignment_summary && is_pending j.state && ltb j.attempts w.max_attempts

    abbrev pub after_enqueue : Published → ℕ × Published
    after_enqueue p = summarize_all (first_of 2 (select (λ j. is_summary_due j) p.store.jobs)) p

    -- `run_summaries`; the worker catches what it raises.
    unfoldable pub run_summaries : Published → ℕ × Published
    unfolding summarize_all enqueue_all select first_of
    run_summaries p = if not w.chat_ready then (0, p) else elim x.inputs [
      | none ↦ (0, p)
      | some vs ↦ after_enqueue (record p { store = enqueue_all w now vs p.store })
    ]

-- `AnalysisWorker.run_pending`: nothing where another run holds the lock.
unfoldable pub run_pending : Reviews → Worker → Summaries → ℕ → Bool → ℕ → Published → ℕ × Published
unfolding run_reviews run_summaries
run_pending r w x now is_locked limit p =
    if is_locked
    then (0, p)
    else let first = run_reviews r w now (min (max limit 1) 10) p.store in
      let others = run_summaries x w now (record p { store = first.1 }) in
      (first.0 + others.0, others.1)
