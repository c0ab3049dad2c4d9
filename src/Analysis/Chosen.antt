-- ===== src/Analysis/Chosen.antt =====
-- The jobs that a run recovers and those that it chooses.
use canvas_watcher.Base.{
  ℕ, zero, suc, Bool, true, false, not, ◌&&◌, ◌||◌, some, List, [], ◌∷◌, ◌==◌, nat_eq, ◌≡◌, refl,
  arith, any, fetch_one, update_where, select, when_then, Bool-cases, inl, inr, sym, codes, All,
  All-map, nat_beq_iff, beq_comm,
}
use mathlib.Core.Path.{subst}
use canvas_watcher.Base.Table.Rows.{All-select, All-update_where, Pairwise-update_where}
use canvas_watcher.Analysis.Schema.{
  assignment_summary, is_pending, is_waiting, same_kind, Job, Store, touched,
}
use canvas_watcher.Analysis.Worker
use canvas_watcher.Analysis.Worker.{
  Reviews, Worker, is_stale, recover_all, recovered, recovery, park_or_resume, first_of, due_jobs,
  is_change, run_reviews,
}
use canvas_watcher.Analysis.Rows.{by_id, Unique, Only, found-Only, Unique-update, Apart}
use canvas_watcher.Analysis.Turn.{bounded, good, mark_failed-jobs}
use canvas_watcher.Analysis.Bounded.{Well, Waits, process_all-Well}

pub first_of-All :
    (P : ℕ → Type 0) (n : ℕ) (xs : List Job) → All (λ x. P x.id) xs → All P (first_of n xs)
unfolding first_of
first_of-All P zero xs h = tt
first_of-All P (suc n) [] h = tt
first_of-All P (suc n) (x ∷ xs) h = (h.0, first_of-All P n xs h.1)

pub first_of-Apart : (n : ℕ) (xs : List Job) → Unique xs → Apart (first_of n xs)
unfolding first_of
first_of-Apart zero xs u = tt
first_of-Apart (suc n) [] u = tt
first_of-Apart (suc n) (x ∷ xs) u =
    (first_of-All (λ b. (x.id == b) ≡ false) n xs u.0, first_of-Apart n xs u.1)

pub select-Unique : (p : Job → Bool) (xs : List Job) → Unique xs → Unique (select p xs)
unfolding select
select-Unique p [] u = tt
select-Unique p (x ∷ xs) u = elim (Bool-cases (p x)) [
  | inl e ↦ rw e (All-select (λ y. (x.id == y.id) ≡ false) p xs u.0, select-Unique p xs u.1)
  | inr e ↦ rw e (select-Unique p xs u.1)
]

pub Waits-select :
    (p : Job → Bool) (jobs xs : List Job)
    → ((j : Job) → p j ≡ true → is_pending j.state ≡ true)
    → ((id : ℕ) (j : Job) → fetch_one (by_id id) jobs ≡ some j → All (λ x. Only id j x) xs)
    → All (λ x. Waits jobs x.id) (select p xs)
unfolding select
Waits-select p jobs [] i k = tt
Waits-select p jobs (x ∷ xs) i k =
    let rest = Waits-select p jobs xs i (λ id j e. (k id j e).1) in
    elim (Bool-cases (p x)) [
      | inl e ↦ rw e (λ j f. rw⁻¹ ((k x.id j f).0 ((nat_beq_iff x.id x.id).1 refl)) (i x e), rest)
      | inr e ↦ rw e rest
    ]

module _ (r : Reviews) (w : Worker) (now : ℕ) where
  pub due_jobs-Apart :
      (limit : ℕ) (jobs : List Job) → Unique jobs → Apart (due_jobs r w now limit jobs)
  unfolding due_jobs
  due_jobs-Apart limit jobs u = first_of-Apart limit _ (select-Unique _ jobs u)

  pub due_jobs-Waits :
      (limit : ℕ) (jobs : List Job) → Unique jobs → All (Waits jobs) (due_jobs r w now limit jobs)
  unfolding due_jobs
  due_jobs-Waits limit jobs u = first_of-All (Waits jobs) limit _ (
      Waits-select (λ j. is_pending j.state && not (same_kind j.kind assignment_summary)) jobs jobs
        (λ j h. ground (arith, h)) (λ id j e. found-Only id j jobs u e))

  -- Within the limit, and fresh or one of the jobs that are still to recover.
  abbrev recoverable : List Job → Job → Bool
  recoverable js x = bounded w x && (not (is_stale r w now x) || any (λ j. j.id == x.id) js)

  recovered_jobs :
      (job : Job) (s : Store)
      → (recovered r w now job s).jobs
        ≡ update_where (by_id job.id) (λ j. touched now (recovery r w now j)) s.jobs
  recovered_jobs job s = ground (
    arith,
    mark_failed-jobs job.kind job.entity_id true (codes "interrupted_review")
        (Worker.set_job now job.id (λ j. recovery r w now j) s),
  )

  recovery_good :
      (job : Job) (js : List Job) (x : Job)
      → recoverable (job ∷ js) x ≡ true
      → recoverable js (when_then (by_id job.id) (λ j. touched now (recovery r w now j)) x) ≡ true
  unfolding any
  recovery_good job js x h = ground (arith, h, beq_comm job.id x.id)

  recover_each :
      (js : List Job) (s : Store)
      → Unique s.jobs
      → All (λ x. recoverable js x ≡ true) s.jobs
      → Well r w now (recover_all r w now js s)
  unfolding recover_all any
  recover_each [] s u h = record { unique = u; each = All-map s.jobs (λ x g. ground (arith, g)) h }
  recover_each (job ∷ js) s u h =
      let change : Job → Job = λ j. touched now (recovery r w now j) in
      let e = recovered_jobs job s in
      recover_each js (recovered r w now job s)
        (rw e (Unique-update job.id change s.jobs (λ j. refl) u))
        (rw e (
          All-update_where (λ x. recoverable (job ∷ js) x ≡ true) (λ x. recoverable js x ≡ true)
            (by_id job.id) change s.jobs (λ x g. recovery_good job js x g) h))

  listed_more :
      (x y : Job) (js : List Job) → recoverable js x ≡ true → recoverable (y ∷ js) x ≡ true
  unfolding any
  listed_more x y js h = ground (arith, h)

  stale_of : List Job → List Job
  stale_of jobs = select (λ j. is_stale r w now j) jobs

  select_some :
      (x : Job) (xs : List Job) → is_stale r w now x ≡ true → stale_of (x ∷ xs) ≡ x ∷ stale_of xs
  unfolding select stale_of
  select_some x xs e = ground (arith, e)

  select_none :
      (x : Job) (xs : List Job) → is_stale r w now x ≡ false → stale_of (x ∷ xs) ≡ stale_of xs
  unfolding select stale_of
  select_none x xs e = ground (arith, e)

  fresh_head :
      (x : Job) (js : List Job)
      → is_stale r w now x ≡ false
      → bounded w x ≡ true
      → recoverable js x ≡ true
  fresh_head x js e b = ground (arith, e, b)

  own_head : (x : Job) (js : List Job) → bounded w x ≡ true → recoverable (x ∷ js) x ≡ true
  unfolding any
  own_head x js b = ground (arith, b, (nat_beq_iff x.id x.id).1 refl)

  All-recoverable :
      (jobs : List Job)
      → All (λ x. bounded w x ≡ true) jobs
      → All (λ x. recoverable (stale_of jobs) x ≡ true) jobs
  All-recoverable [] h = tt
  All-recoverable (x ∷ xs) h =
      let rest = All-recoverable xs h.1 in
      elim (Bool-cases (is_stale r w now x)) [
        | inl e ↦
            subst (λ l. All (λ y. recoverable l y ≡ true) (x ∷ xs)) (sym (select_some x xs e))
              (
                own_head x (stale_of xs) h.0,
                All-map xs (λ y g. listed_more y x (stale_of xs) g) rest,
              )
        | inr e ↦
            subst (λ l. All (λ y. recoverable l y ≡ true) (x ∷ xs)) (sym (select_none x xs e))
              (fresh_head x (stale_of xs) e h.0, rest)
      ]

  resumed-good :
      (x : Job)
      → good r w now x ≡ true
      → good r w now (
          when_then
            (λ j. is_change r w now j && is_waiting j.state)
            (λ j. Worker.resumed r w now j)
            x)
        ≡ true
  resumed-good x h = ground (arith, h)

  parked-good :
      (x : Job)
      → good r w now x ≡ true
      → good r w now (
          when_then
            (λ j. is_change r w now j && is_pending j.state)
            (λ j. Worker.parked r w now j)
            x)
        ≡ true
  parked-good x h = ground (arith, h)

  same_ids :
      (q : Job → Bool) (f : Job → Job) (jobs : List Job)
      → ((j : Job) → (f j).id ≡ j.id)
      → Unique jobs
      → Unique (update_where q f jobs)
  same_ids q f jobs k u =
      Pairwise-update_where (λ x y. (x.id == y.id) ≡ false) q f jobs
        (λ x y h. ground (arith, h, k x, k y)) u

  park-Well : (s : Store) → Well r w now s → Well r w now (park_or_resume r w now s)
  unfolding park_or_resume
  park-Well s h =
      let yes : Well r w now (record s {
        jobs =
            update_where (λ j. is_change r w now j && is_waiting j.state)
              (λ j. Worker.resumed r w now j) s.jobs;
      }) =
        record {
          unique = same_ids _ (λ j. Worker.resumed r w now j) s.jobs (λ j. refl) h.unique;
          each =
              All-update_where _ (λ x. good r w now x ≡ true) _ (λ j. Worker.resumed r w now j)
                s.jobs (λ x g. resumed-good x g) h.each;
        } in
      let no : Well r w now (record s {
        jobs =
            update_where (λ j. is_change r w now j && is_pending j.state)
              (λ j. Worker.parked r w now j) s.jobs;
      }) =
        record {
          unique = same_ids _ (λ j. Worker.parked r w now j) s.jobs (λ j. refl) h.unique;
          each =
              All-update_where _ (λ x. good r w now x ≡ true) _ (λ j. Worker.parked r w now j)
                s.jobs (λ x g. parked-good x g) h.each;
        } in
      ground (arith, yes, no)

  -- A run of the worker on jobs with ids of their own, none of which had more attempts than the
  -- limit, or as many while it waits, leaves such jobs, and none under review since more than five
  -- minutes.
  pub run_reviews-Well :
      (limit : ℕ) (s : Store)
      → Unique s.jobs
      → All (λ x. bounded w x ≡ true) s.jobs
      → Well r w now (run_reviews r w now limit s).1
  unfolding run_reviews stale_of
  run_reviews-Well limit s u h =
      let s0 = recover_all r w now (select (λ j. is_stale r w now j) s.jobs) s in
      let s1 = park_or_resume r w now s0 in
      let k = park-Well s0 (recover_each _ s u (All-recoverable s.jobs h)) in
      process_all-Well r w now (due_jobs r w now limit s1.jobs) s1 k
        (due_jobs-Apart limit s1.jobs k.unique) (due_jobs-Waits limit s1.jobs k.unique)
