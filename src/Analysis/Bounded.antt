-- ===== src/Analysis/Bounded.antt =====
-- The invariant of the queue: the attempts of every job are bounded, and none is left under review.
use canvas_watcher.Base.{
  ℕ, true, false, some, List, [], ◌∷◌, ◌==◌, nat_eq, ◌≡◌, arith, fetch_one, Option-cases, inl, inr,
  sym, ◌∙◌, ap, All, All-map,
}
use canvas_watcher.Base.Table.Rows.{All-fetch_one, fetch_one_holds}
use canvas_watcher.Analysis.Schema.{is_pending, Job, Store}
use canvas_watcher.Analysis.Worker.{Reviews, Worker, process_job, process_all}
use canvas_watcher.Analysis.Rows.{
  by_id, Unique, found-Only, Unique-update, good_update, fetch_other, Apart,
}
use canvas_watcher.Analysis.Turn.{bounded, good, Turn, process_job-Turn}

-- The job of the id waits for its turn.
abbrev pub Waits : List Job → ℕ → Type 0
Waits jobs id = (j : Job) → fetch_one (by_id id) jobs ≡ some j → is_pending j.state ≡ true

module _ (r : Reviews) (w : Worker) (now : ℕ) where
  pub record Well (s : Store) : Type 0 where
    pub unique : Unique s.jobs
    pub each : All (λ j. good r w now j ≡ true) s.jobs

  pub good-bounded : (j : Job) → good r w now j ≡ true → bounded w j ≡ true
  good-bounded j h = ground (arith, h)

  pub Turn-Well :
      (id : ℕ) (job : Job) (s : Store) (after : Store)
      → Well s
      → fetch_one (by_id id) s.jobs ≡ some job
      → Turn r w now job s.jobs after.jobs
      → Well after
  Turn-Well id job s after h f t =
      let same : job.id ≡ id = ground (arith, fetch_one_holds (by_id id) s.jobs job f) in
      record {
        unique = rw (t.rows) (Unique-update job.id t.change s.jobs t.same_id h.unique);
        each = rw (t.rows) (
            good_update (good r w now) job.id t.change job s.jobs
              (All-map s.jobs (λ x o k. o (ground (arith, same, k)))
                (found-Only id job s.jobs h.unique f))
              t.well h.each);
      }

  Turn-Waits :
      (id other : ℕ) (job : Job) (s after : Store)
      → fetch_one (by_id id) s.jobs ≡ some job
      → Turn r w now job s.jobs after.jobs
      → (id == other) ≡ false
      → Waits s.jobs other
      → Waits after.jobs other
  Turn-Waits id other job s after f t d k j e =
      let same : job.id ≡ id = ground (arith, fetch_one_holds (by_id id) s.jobs job f) in
      let differ : (job.id == other) ≡ false = ground (arith, same, d) in
      let found : fetch_one (by_id other) after.jobs ≡ fetch_one (by_id other) s.jobs =
        ap (fetch_one (by_id other)) t.rows
        ∙ fetch_other job.id other t.change s.jobs t.same_id differ in
      k j (sym found ∙ e)

  pub All-Waits :
      (id : ℕ) (ids : List ℕ) (job : Job) (s after : Store)
      → fetch_one (by_id id) s.jobs ≡ some job
      → Turn r w now job s.jobs after.jobs
      → All (λ other. (id == other) ≡ false) ids
      → All (Waits s.jobs) ids
      → All (Waits after.jobs) ids
  All-Waits id [] job s after f t d k = tt
  All-Waits id (o ∷ ids) job s after f t d k =
      (Turn-Waits id o job s after f t d.0 k.0, All-Waits id ids job s after f t d.1 k.1)

  pub process_all-Well :
      (ids : List ℕ) (s : Store)
      → Well s
      → Apart ids
      → All (Waits s.jobs) ids
      → Well (process_all r w now ids s).1
  unfolding process_all
  process_all-Well [] s h a k = h
  process_all-Well (id ∷ ids) s h a k = elim (Option-cases (fetch_one (by_id id) s.jobs)) [
    | inl e ↦ ground (arith, e, process_all-Well ids s h a.1 k.1)
    | inr (job, e) ↦
        let t =
          process_job-Turn r w now job s
            (good-bounded job
              (All-fetch_one (λ j. good r w now j ≡ true) (by_id id) s.jobs job h.each e))
            (k.0 job e) in
        let after = (process_job r w now job s).1 in
        ground (
          arith,
          e,
          process_all-Well ids after (Turn-Well id job s after h e t) a.1
              (All-Waits id ids job s after e t a.0 k.1),
        )
  ]
