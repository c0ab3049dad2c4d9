-- ===== src/Analysis/Settled.antt =====
-- A repeated enqueue changes nothing, and a review that fails lets nothing be notified.
use canvas_watcher.Base.{
  ℕ, Bool, true, false, none, some, List, [], ◌∷◌, ◌++◌, Text, codes, ◌==◌, text_eq, nat_eq, ◌≡◌,
  refl, arith, if◌then◌else◌, fetch_one, update_where, All, Option-cases, Bool-cases, inl, inr,
  text_beq_refl, text_beq_iff, nat_beq_iff, text_beq, sym, ◌∙◌,
}
use mathlib.Core.Path.{subst}
use canvas_watcher.Base.Table.Rows.{fetch_one-append, fetch_one-update_where, fetch_one_holds}
use canvas_watcher.Changes.Json.{Json, boolean, Fields, end_fields, field, get}
use canvas_watcher.Analysis.Schema.{
  change_importance, pending, failed, status_pending, status_failed, Job, TaskAnalysis,
  ChangeAnalysis, Store, put,
}
use canvas_watcher.Analysis.Enqueue.{enqueue_task_analysis, is_current}
use canvas_watcher.Analysis.Worker.{
  Reviews, Worker, failure, is_terminal, set_job, mark_failed, failed_change,
}

-- The analysis of the task is there, and current for the hash.
abbrev pub Settled : ℕ → Text → Store → Type 0
Settled task_id h s =
    (a : TaskAnalysis) × (fetch_one (λ r. r.task_id == task_id) s.tasks ≡ some a)
    × (is_current false h a ≡ true)

Settled-none :
    (now id task_id : ℕ) (task_type h : Text) (s : Store)
    → Settled task_id h s
    → enqueue_task_analysis false now id task_id task_type h s ≡ (none, s)
unfolding enqueue_task_analysis
Settled-none now id task_id task_type h s (a, found, current) = ground (arith, found, current)

new_settled :
    (task_id : ℕ) (rows : List TaskAnalysis) (a : TaskAnalysis)
    → fetch_one (λ r. r.task_id == task_id) rows ≡ none
    → (a.task_id == task_id) ≡ true
    → fetch_one (λ r. r.task_id == task_id) (rows ++ a ∷ []) ≡ some a
unfolding fetch_one
new_settled task_id rows a e k =
    ground (arith, e, k, fetch_one-append (λ r. r.task_id == task_id) rows (a ∷ []))

abbrev renewed : Text → TaskAnalysis → TaskAnalysis
renewed h r = record r { analysis_status = status_pending; input_hash = some h }

kept_settled :
    (task_id : ℕ) (h : Text) (rows : List TaskAnalysis) (a : TaskAnalysis)
    → fetch_one (λ r. r.task_id == task_id) rows ≡ some a
    → fetch_one
        (λ r. r.task_id == task_id)
        (update_where (λ r. r.task_id == task_id) (renewed h) rows)
      ≡ some (renewed h a)
kept_settled task_id h rows a e =
    let k : (a.task_id == task_id) ≡ true = fetch_one_holds (λ r. r.task_id == task_id) rows a e in
    ground (
      arith,
      e,
      k,
      fetch_one-update_where (λ r. r.task_id == task_id) (λ r. r.task_id == task_id) (renewed h)
          rows (λ x. refl),
    )

enqueue_settles :
    (force : Bool) (now id task_id : ℕ) (task_type h : Text) (s : Store)
    → Settled task_id h (enqueue_task_analysis force now id task_id task_type h s).1
unfolding enqueue_task_analysis
enqueue_settles force now id task_id task_type h s =
    let same : text_beq h h ≡ true = text_beq_refl h in
    elim (Option-cases (fetch_one (λ r. r.task_id == task_id) s.tasks)) [
      | inl e ↦
          let a : TaskAnalysis = record {
            task_id = task_id;
            classification = task_type;
            analysis_status = status_pending;
            input_hash = some h;
            analysis_json = end_fields;
          } in
          (
            a,
            ground
                (arith, e, new_settled task_id s.tasks a e ((nat_beq_iff task_id task_id).1 refl)),
            ground (arith, same),
          )
      | inr (a, e) ↦ elim (Bool-cases (is_current force h a)) [
        | inl c ↦ (a, ground (arith, e, c), ground (arith, c))
        | inr c ↦ (
          renewed h a,
          ground (arith, e, c, kept_settled task_id h s.tasks a e),
          ground (arith, same),
        )
      ]
    ]

-- Whether it is forced or not, an enqueue of a task's analysis settles it: the next one with the
-- same input, where that is not forced, returns nothing and changes nothing.
pub enqueue_task_analysis_again :
    (force : Bool) (now later id next task_id : ℕ) (task_type h : Text) (s : Store)
    → enqueue_task_analysis false later next task_id task_type h
        (enqueue_task_analysis force now id task_id task_type h s).1
      ≡ (none, (enqueue_task_analysis force now id task_id task_type h s).1)
enqueue_task_analysis_again force now later id next task_id task_type h s =
    Settled-none later next task_id task_type h
      (enqueue_task_analysis force now id task_id task_type h s).1
      (enqueue_settles force now id task_id task_type h s)

get-put : (k : Text) (v : Json) (fs : Fields) → get k (put k v fs) ≡ v
unfolding get put
get-put k v end_fields = ground (arith, text_beq_refl k)
get-put k v (field x y fs) = ground (arith, text_beq_refl k, get-put k v fs)

get-put_other :
    (k other : Text) (v : Json) (fs : Fields)
    → (k == other) ≡ false
    → get other (put k v fs) ≡ get other fs
unfolding get put
get-put_other k other v end_fields d = ground (arith, d)
get-put_other k other v (field x y fs) d =
    ground (arith, d, get-put_other k other v fs d, text_beq_iff x k, text_beq_iff x other)

-- What the analysis of an event says once its review failed.
abbrev pub Silent : ℕ → ChangeAnalysis → Type 0
Silent event_id a =
    (a.change_event_id == event_id) ≡ true
    → (get (codes "notify_user") a.analysis_json ≡ boolean false)
      × (a.requires_action ≡ false)
      × (a.analysis_status ≡ status_failed)

other_key : (codes "review_status" == codes "notify_user") ≡ false
unfolding text_beq
other_key = refl

failed_notify :
    (is_final : Bool) (error : Text) (a : ChangeAnalysis)
    → get (codes "notify_user") (failed_change is_final error a).analysis_json ≡ boolean false
failed_notify is_final error a =
    get-put_other (codes "review_status") (codes "notify_user") _ _ other_key
    ∙ get-put (codes "notify_user") (boolean false) _

failed-Silent :
    (event_id : ℕ) (is_final : Bool) (error : Text) (rows : List ChangeAnalysis)
    → All (Silent event_id) (
        update_where
          (λ a. a.change_event_id == event_id)
          (λ a. failed_change is_final error a)
          rows)
unfolding update_where
failed-Silent event_id is_final error [] = tt
failed-Silent event_id is_final error (a ∷ rows) =
    elim (Bool-cases (a.change_event_id == event_id)) [
      | inl e ↦ (
        rw e (λ k. (failed_notify is_final error a, refl, refl)),
        failed-Silent event_id is_final error rows,
      )
      | inr e ↦ (rw e (λ k. ground (arith, e, k)), failed-Silent event_id is_final error rows)
    ]

marked-Silent :
    (event_id : ℕ) (is_final : Bool) (error : Text) (s : Store)
    → All (Silent event_id) (mark_failed change_importance event_id is_final error s).changes
unfolding mark_failed
marked-Silent event_id is_final error s = failed-Silent event_id is_final error s.changes

-- Where the review of a change fails, for good or for now, every analysis of its event asks for
-- nothing, is not to be notified, and is marked as failed.
pub failure-Silent :
    (r : Reviews) (w : Worker) (now : ℕ) (job : Job) (error : Text) (s : Store)
    → job.kind ≡ change_importance
    → All (Silent job.entity_id) (failure r w now job error s).changes
unfolding failure
failure-Silent r w now job error s k =
    let t = is_terminal r w now job in
    let s' =
      set_job now job.id
        (λ j. record j { last_error = some error; state = if t then failed else pending }) s in
    ground (
      arith,
      k,
      subst (λ kind. All (Silent job.entity_id) (mark_failed kind job.entity_id t error s').changes)
          (sym k) (marked-Silent job.entity_id t error s'),
    )
