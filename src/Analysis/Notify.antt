-- ===== src/Analysis/Notify.antt =====
-- backend/app/services/change_policy.py, `analysis_should_notify_user`, on what the queue writes.
use canvas_watcher.Base.{
  ℕ, Bool, true, false, ◌&&◌, Option, none, some, List, [], ◌∷◌, Text, codes, ◌==◌, text_eq, nat_eq,
  ◌≡◌, arith, All, All-append, fetch_one, update_where, Option-cases, Bool-cases, inl, inr,
}
use canvas_watcher.Changes.Json.{Json, get, is_boolean}
use canvas_watcher.Analysis.Schema.{Status, status_ready, ChangeAnalysis, Store}
use canvas_watcher.Analysis.Enqueue
use canvas_watcher.Analysis.Enqueue.{Verdict, for_change, enqueue_change_analysis}

abbrev is_ready : Status → Bool
is_ready status_ready = true
is_ready _ = false

abbrev is_string : Text → Json → Bool
is_string t (Json.string s) = s == t
is_string t _ = false

unfoldable pub analysis_should_notify_user : Option ChangeAnalysis → Bool
unfolding get
analysis_should_notify_user none = false
analysis_should_notify_user (some a) =
    is_ready a.analysis_status
    && is_string (codes "0.7.1") (get (codes "review_version") a.analysis_json)
    && is_boolean true (get (codes "notify_user") a.analysis_json)

-- No analysis of the event is one to notify.
abbrev pub Quiet : ℕ → ChangeAnalysis → Type 0
Quiet event_id a =
    (a.change_event_id == event_id) ≡ true → analysis_should_notify_user (some a) ≡ false

fetch_one-Quiet :
    (event_id : ℕ) (rows : List ChangeAnalysis)
    → fetch_one (λ r. r.change_event_id == event_id) rows ≡ none
    → All (Quiet event_id) rows
unfolding fetch_one
fetch_one-Quiet event_id [] e = tt
fetch_one-Quiet event_id (a ∷ rows) e =
    (λ k. ground (arith, e, k), fetch_one-Quiet event_id rows (ground (arith, e)))

new_analysis-Quiet :
    (event_id : ℕ) (h : Text) (v : Verdict) → Quiet event_id (Enqueue.new_analysis event_id h v)
unfolding analysis_should_notify_user
new_analysis-Quiet event_id h v k = ground (arith, k)

analysis_should_notify_user-renewed :
    (event_id : ℕ) (h : Text) (v : Verdict) (a : ChangeAnalysis)
    → analysis_should_notify_user (some (Enqueue.renewed h v a)) ≡ false
unfolding analysis_should_notify_user
analysis_should_notify_user-renewed event_id h v a = ground arith

update_where-Quiet :
    (event_id : ℕ) (h : Text) (v : Verdict) (rows : List ChangeAnalysis)
    → All
        (Quiet event_id)
        (update_where (λ r. r.change_event_id == event_id) (λ r. Enqueue.renewed h v r) rows)
unfolding update_where
update_where-Quiet event_id h v [] = tt
update_where-Quiet event_id h v (a ∷ rows) = elim (Bool-cases (a.change_event_id == event_id)) [
  | inl e ↦ (
    rw e (λ k. analysis_should_notify_user-renewed event_id h v a),
    update_where-Quiet event_id h v rows,
  )
  | inr e ↦ (rw e (λ k. ground (arith, e, k)), update_where-Quiet event_id h v rows)
]

-- Whether the change's analysis was enqueued before with the same input.
abbrev pub is_known : ℕ → Text → Store → Bool
is_known event_id h s = elim (fetch_one (λ r. r.change_event_id == event_id) s.changes) [
  | none ↦ false
  | some a ↦ a.input_hash == h
]

-- An enqueue of a change with a new input, whatever `prefilter` answers, leaves no analysis of its
-- event that is to be notified, so that a notification waits for a review of this input.
pub enqueue_change_analysis-Quiet :
    (now id event_id : ℕ) (h : Text) (v : Verdict) (s : Store)
    → is_known event_id h s ≡ false
    → All (Quiet event_id) (enqueue_change_analysis now id event_id h v s).1.changes
unfolding enqueue_change_analysis
enqueue_change_analysis-Quiet now id event_id h v s n =
    elim (Option-cases (fetch_one (λ r. r.change_event_id == event_id) s.changes)) [
      | inl e ↦
          let rows =
            All-append (Quiet event_id) s.changes (Enqueue.new_analysis event_id h v ∷ [])
              (fetch_one-Quiet event_id s.changes e) (new_analysis-Quiet event_id h v, tt) in
          ground (arith, e, rows)
      | inr (a, e) ↦ ground (arith, e, n, update_where-Quiet event_id h v s.changes)
    ]
