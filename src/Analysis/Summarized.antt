-- ===== src/Analysis/Summarized.antt =====
-- The summaries' part of a run keeps the queue's invariant, and so does the whole run.
use canvas_watcher.Base.{
  ℕ, ◌≤◌, ◌<◌, suc, Bool, true, false, Option, none, some, List, [], ◌∷◌, Text, ◌==◌, nat_eq, ◌≡◌,
  refl, arith, leb, min, max, if◌then◌else◌, fetch_one, update_where, select, Option-cases,
  Bool-cases, inl, inr, ◌∙◌, ap, All, All-map, Pairwise-snoc, All-append,
}
use canvas_watcher.Base.Table.Rows.{All-fetch_one, All-update_where}
use canvas_watcher.Analysis.Schema.{
  assignment_summary, pending, reviewing, ready, failed, superseded, is_pending, Job, Store,
  touched,
}
use canvas_watcher.Analysis.Enqueue.{new_job, is_job}
use canvas_watcher.Analysis.Worker.{Reviews, Worker, set_job, first_of, run_reviews}
use canvas_watcher.Analysis.Summaries
use canvas_watcher.Analysis.Summaries.{
  Visible, Summaries, Published, Generated, published, obsolete, refused, next_id, reused,
  enqueue_all, summary_concluded, at_summary, generate_summary, summarize_all, is_summary_due,
  run_summaries, run_pending,
}
use canvas_watcher.Analysis.Rows.{by_id, Unique, found-Only, Unique-update, Apart, update_twice}
use canvas_watcher.Analysis.Turn.{bounded, good, Turn}
use canvas_watcher.Analysis.Bounded.{Well, Waits, Turn-Well, All-Waits, good-bounded}
use canvas_watcher.Analysis.Chosen.{
  first_of-Apart, first_of-All, select-Unique, Waits-select, run_reviews-Well,
}

below_next : (jobs : List Job) → All (λ x. x.id < next_id jobs) jobs
unfolding next_id
below_next [] = tt
below_next (x ∷ xs) = (omega arith, All-map xs (λ y h. omega (arith, h)) (below_next xs))

module _ (r : Reviews) (x : Summaries) (w : Worker) (now : ℕ) where
  new_good :
      (id entity_id : ℕ) (digest : Text)
      → 1 ≤ w.max_attempts
      → good r w now (new_job id assignment_summary entity_id digest now) ≡ true
  new_good id entity_id digest h = ground (arith, h)

  reused-good :
      (j : Job) → good r w now j ≡ true → good r w now (touched now (reused w now j)) ≡ true
  reused-good j h = ground (arith, h)

  queued_Well :
      (v : Visible) (o : Option Job) (s : Store)
      → 1 ≤ w.max_attempts
      → Well r w now s
      → Well r w now (Summaries.summary_queued w now v o s)
  queued_Well v none s h1 h =
      let j = new_job (next_id s.jobs) assignment_summary v.item_id v.digest now in
      record {
        unique =
            Pairwise-snoc (λ a b. (a.id == b.id) ≡ false) s.jobs j h.unique
              (All-map s.jobs (λ a k. ground (arith, k)) (below_next s.jobs));
        each =
            All-append (λ a. good r w now a ≡ true) s.jobs (j ∷ []) h.each
              (new_good (next_id s.jobs) v.item_id v.digest h1, tt);
      }
  queued_Well v (some j) s h1 h =
      let again : Well r w now (set_job now j.id (λ k. reused w now k) s) = record {
        unique = Unique-update j.id (λ k. touched now (reused w now k)) s.jobs (λ k. refl) h.unique;
        each =
            All-update_where (λ a. good r w now a ≡ true) (λ a. good r w now a ≡ true) (by_id j.id)
              (λ k. touched now (reused w now k)) s.jobs (λ a g. ground (arith, g, reused-good a g))
              h.each;
      } in
      ground (arith, again, h)

  enqueue_all-Well :
      (vs : List Visible) (s : Store)
      → 1 ≤ w.max_attempts
      → Well r w now s
      → Well r w now (enqueue_all w now vs s)
  unfolding enqueue_all
  enqueue_all-Well [] s h1 h = h
  enqueue_all-Well (v ∷ vs) s h1 h =
      let found = fetch_one (λ j. is_job assignment_summary v.item_id v.digest j) s.jobs in
      elim (Bool-cases v.has_summary) [
        | inl e ↦ ground (arith, e, enqueue_all-Well vs s h1 h)
        | inr e ↦ ground (
          arith,
          e,
          enqueue_all-Well vs (Summaries.summary_queued w now v found s) h1
              (queued_Well v found s h1 h),
        )
      ]

  claiming : Job → Job
  claiming j = touched now (record j { state = reviewing; attempts = suc j.attempts })

  concluded-Turn :
      (job : Job) (g : Generated) (p : Published) (before : List Job)
      → bounded w job ≡ true
      → is_pending job.state ≡ true
      → p.store.jobs ≡ update_where (by_id job.id) claiming before
      → Turn r w now job before (summary_concluded x w now job g p).1.store.jobs
  unfolding claiming
  concluded-Turn job (published t) p before b q e =
      let f : Job → Job = λ j. touched now (record j { state = ready; last_error = none }) in
      record {
        change = λ j. f (claiming j);
        rows =
            ap (update_where (by_id job.id) f) e
            ∙ update_twice job.id claiming f before (λ j. refl);
        same_id = λ j. refl;
        well = ground (arith, b, q);
      }
  concluded-Turn job obsolete p before b q e =
      let f : Job → Job = λ j. touched now (record j { state = superseded; last_error = none }) in
      record {
        change = λ j. f (claiming j);
        rows =
            ap (update_where (by_id job.id) f) e
            ∙ update_twice job.id claiming f before (λ j. refl);
        same_id = λ j. refl;
        well = ground (arith, b, q);
      }
  concluded-Turn job (refused t) p before b q e =
      let f : Job → Job = λ j. touched now (record j {
        last_error = some t;
        state = if leb w.max_attempts j.attempts then failed else pending;
      }) in
      record {
        change = λ j. f (claiming j);
        rows =
            ap (update_where (by_id job.id) f) e
            ∙ update_twice job.id claiming f before (λ j. refl);
        same_id = λ j. refl;
        well = ground (arith, b, q);
      }

  summarize_all-Well :
      (ids : List ℕ) (p : Published)
      → Well r w now p.store
      → Apart ids
      → All (Waits p.store.jobs) ids
      → Well r w now (summarize_all x w now ids p).1.store
  unfolding summarize_all claiming
  summarize_all-Well [] p h a k = h
  summarize_all-Well (id ∷ ids) p h a k = elim (Option-cases (fetch_one (by_id id) p.store.jobs)) [
    | inl e ↦ ground (arith, e, summarize_all-Well ids p h a.1 k.1)
    | inr (job, e) ↦
        let claimed : Published = record p {
          store =
              set_job now job.id (λ j. record j { state = reviewing; attempts = suc j.attempts })
                p.store;
        } in
        let g = generate_summary x job in
        let b =
          good-bounded r w now job
            (All-fetch_one (λ j. good r w now j ≡ true) (by_id id) p.store.jobs job h.each e) in
        let after = (summary_concluded x w now job g claimed).1 in
        let t = concluded-Turn job g claimed p.store.jobs b (k.0 job e) refl in
        ground (
          arith,
          e,
          summarize_all-Well ids after (Turn-Well r w now id job p.store after.store h e t) a.1
              (All-Waits r w now id ids job p.store after.store e t a.0 k.1),
        )
  ]

  due_Well :
      (p : Published)
      → Well r w now p.store
      → Well r w now (Summaries.after_enqueue x w now p).1.store
  due_Well p h =
      let due : Job → Bool = λ j. is_summary_due x w now j in
      summarize_all-Well (first_of 2 (select due p.store.jobs)) p h
        (first_of-Apart 2 _ (select-Unique due p.store.jobs h.unique))
        (first_of-All (Waits p.store.jobs) 2 _ (
          Waits-select due p.store.jobs p.store.jobs (λ j g. ground (arith, g))
            (λ id j e. found-Only id j p.store.jobs h.unique e)))

  run_summaries-Well :
      (p : Published)
      → 1 ≤ w.max_attempts
      → Well r w now p.store
      → Well r w now (run_summaries x w now p).1.store
  unfolding run_summaries
  run_summaries-Well p h1 h = elim (Option-cases x.inputs) [
    | inl e ↦ ground (arith, e, h)
    | inr (vs, e) ↦ ground (
      arith,
      e,
      h,
      due_Well (record p { store = enqueue_all w now vs p.store })
          (enqueue_all-Well vs p.store h1 h),
    )
  ]

  -- The worker's whole run, from jobs with ids of their own that had no more attempts than the
  -- limit, of which those that wait have one left: where no other run holds the lock, the jobs
  -- behind it are of that form again, and none has been under review for more than five minutes.
  pub run_pending-Well :
      (limit : ℕ) (p : Published)
      → 1 ≤ w.max_attempts
      → Unique p.store.jobs
      → All (λ j. bounded w j ≡ true) p.store.jobs
      → Well r w now (run_pending r w x now false limit p).1.store
  unfolding run_pending
  run_pending-Well limit p h1 u h =
      let n = min (max limit 1) 10 in
      run_summaries-Well (record p { store = (run_reviews r w now n p.store).1 }) h1
        (run_reviews-Well r w now n p.store u h)
