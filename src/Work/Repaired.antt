-- ===== src/Work/Repaired.antt =====
-- What a repair of completions leaves.
use canvas_watcher.Base.{
  ℕ, suc, true, false, Option, none, some, List, [], ◌∷◌, ◌≡◌, ◌==◌, nat_eq, refl, sym, arith, inl,
  inr, Bool-cases, Option-cases, All, All-map, Pairwise, any, fetch_one, count_where, update_where,
  when_then, text_eq, beq_comm, nat_beq_iff, ◌⊎◌,
}
use mathlib.Core.Path.{subst}
use canvas_watcher.Base.Table.Rows.{All-update_where, Pairwise-update_where}
use canvas_watcher.Work.Schema.{Task, TaskWorkSession, TaskProgress, Db, Result, ok, err}
use canvas_watcher.Work.Progress.{opened_for}
use canvas_watcher.Work.OpenRows.{count_where-no_row}
use canvas_watcher.Work.Sound.{WorkSound, Rested}
use canvas_watcher.Work.Repair
use canvas_watcher.Work.Repair.{
  Candidate, RepairPlan, candidates_of, completion_repair_plan, evidence, has_open_timer,
  repairable, repaired, repair_rows, repair_task, repair_all, apply_completion_repair,
}

abbrev Resting : List TaskWorkSession → Candidate → Type 0
Resting rows c = count_where (opened_for c.task_id) rows ≡ 0

timer_none :
    (t : Task) (rows : List TaskWorkSession)
    → has_open_timer t rows ≡ false
    → count_where (opened_for t.id) rows ≡ 0
unfolding has_open_timer
timer_none t rows h = elim (Option-cases (fetch_one (opened_for t.id) rows)) [
  | inl e ↦ count_where-no_row (opened_for t.id) rows e
  | inr (s, e) ↦ ground (arith, e, h)
]

candidates_of-Resting :
    (now : ℕ) (progress : List TaskProgress) (rows : List TaskWorkSession) (ts : List Task)
    → All (Resting rows) (candidates_of now progress rows ts)
unfolding candidates_of
candidates_of-Resting now progress rows [] = tt
candidates_of-Resting now progress rows (t ∷ ts) =
    let rest = candidates_of-Resting now progress rows ts in
    elim (Option-cases (evidence t progress)) [
      | inl e ↦ rw e rest
      | inr (p, e) ↦ elim (Bool-cases (has_open_timer t rows)) [
        | inl o ↦ rw (e, o) rest
        | inr o ↦ rw (e, o) (timer_none t rows o, rest)
      ]
    ]

repaired-Rested :
    (c : Candidate) (task t : Task) (rows : List TaskWorkSession)
    → Resting rows c
    → Rested rows t
    → Rested rows (when_then (repairable c) (repaired c task) t)
repaired-Rested c task t rows h r done = elim (Bool-cases (repairable c t)) [
  | inl e ↦ let same : t.id ≡ c.task_id = ground (arith, e) in rw e (rw same h)
  | inr e ↦ ground (arith, e, r, done)
]

repair_rows-WorkSound :
    (c : Candidate) (task : Task) (db : Db)
    → Resting db.sessions c
    → WorkSound db
    → WorkSound (repair_rows c task db)
repair_rows-WorkSound c task db h s = record {
  unique =
      Pairwise-update_where (λ t u. (t.id == u.id) ≡ false) (repairable c) (repaired c task)
        db.tasks (λ t u ne. ground (arith, ne)) s.unique;
  one_open = s.one_open;
  rested =
      All-update_where (Rested db.sessions) (Rested db.sessions) (repairable c) (repaired c task)
        db.tasks (λ t r. repaired-Rested c task t db.sessions h r) s.rested;
}

-- What one step of the loop returns.
task_repaired :
    (c : Candidate) (o : Option Task) (db db' : Db)
    → repair_task c o db ≡ ok db'
    → (task : Task) × (count_where (repairable c) db.tasks ≡ 1) × (db' ≡ repair_rows c task db)
task_repaired c none db db' h = cc h
task_repaired c (some task) db db' h = (task, ground (arith, h), ground (arith, h))

abbrev CountedFrom : Result (ℕ × Db) → ℕ → Db → Type 0
CountedFrom r n db' = (m : ℕ) × (n ≡ suc m) × (r ≡ ok (m, db'))

counted_inv :
    (r : Result (ℕ × Db)) (n : ℕ) (db' : Db) → Repair.counted r ≡ ok (n, db') → CountedFrom r n db'
counted_inv (ok (m, d)) n db' h = (m, ground (arith, h), ground (arith, h))
counted_inv (err e) n db' h = cc h

step_inv :
    (c : Candidate) (cs : List Candidate) (db : Db) (n : ℕ) (db' : Db)
    → repair_all (c ∷ cs) db ≡ ok (n, db')
    → (task : Task) × (m : ℕ) × (n ≡ suc m)
      × (count_where (repairable c) db.tasks ≡ 1)
      × (repair_all cs (repair_rows c task db) ≡ ok (m, db'))
unfolding repair_all
step_inv c cs db n db' h =
    from (repair_task c (fetch_one (λ t. t.id == c.task_id) db.tasks) db) refl h
  where
    from :
        (r : Result Db)
        → repair_task c (fetch_one (λ t. t.id == c.task_id) db.tasks) db ≡ r
        → elim r [ ok d ↦ Repair.counted (repair_all cs d) | err e ↦ err e ] ≡ ok (n, db')
        → (task : Task) × (m : ℕ) × (n ≡ suc m)
          × (count_where (repairable c) db.tasks ≡ 1)
          × (repair_all cs (repair_rows c task db) ≡ ok (m, db'))
    from (err e) k g = cc g
    from (ok d) k g =
        let (task, one, e) = task_repaired c _ db d k in
        let (m, s, t) = counted_inv (repair_all cs d) n db' g in (task, m, s, one, rw⁻¹ e t)

repair_all-WorkSound :
    (cs : List Candidate) (db : Db) (n : ℕ) (db' : Db)
    → All (Resting db.sessions) cs
    → WorkSound db
    → repair_all cs db ≡ ok (n, db')
    → WorkSound db'
repair_all-WorkSound [] db n db' h s e = unfold repair_all in ground (arith, s, e)
repair_all-WorkSound (c ∷ cs) db n db' h s e =
    let (task, m, k, one, g) = step_inv c cs db n db' e in
    repair_all-WorkSound cs (repair_rows c task db) m db' h.1
      (repair_rows-WorkSound c task db h.0 s) g

-- A candidate for an id of the list.
abbrev Listed : List Candidate → Candidate → Type 0
Listed cs x = any (λ c. c.task_id == x.task_id) cs ≡ true

listed_more : (x y : Candidate) (cs : List Candidate) → Listed cs x → Listed (y ∷ cs) x
unfolding any
listed_more x y cs h = ground (arith, h)

-- Where one row is repairable, no row of the candidate's id stays incomplete.
no_match :
    (c : Candidate) (u : Task) (ts : List Task)
    → (u.id == c.task_id) ≡ true
    → All (λ t. (u.id == t.id) ≡ false) ts
    → All (λ t. (t.id == c.task_id) ≡ false) ts
no_match c u ts e h = All-map ts (λ t k. ground (arith, e, k)) h

no_rows :
    (c : Candidate) (ts : List Task)
    → All (λ t. (t.id == c.task_id) ≡ false) ts
    → count_where (repairable c) ts ≡ 0
unfolding count_where
no_rows c [] h = refl
no_rows c (t ∷ ts) h = ground (arith, h.0, no_rows c ts h.1)

only_row :
    (c : Candidate) (ts : List Task)
    → Pairwise (λ t u. (t.id == u.id) ≡ false) ts
    → count_where (repairable c) ts ≡ 1
    → All (λ t. (t.id == c.task_id) ≡ true → repairable c t ≡ true) ts
unfolding count_where
only_row c [] u h = tt
only_row c (t ∷ ts) u h = elim (Bool-cases (t.id == c.task_id)) [
  | inl e ↦
      let others = no_match c t ts e u.0 in
      (
        λ k. ground (arith, h, e, no_rows c ts others),
        All-map ts (λ x k g. ground (arith, k, g)) others,
      )
  | inr e ↦ (λ k. ground (arith, e, k), only_row c ts u.1 (ground (arith, h, e)))
]

evidence_done :
    (t : Task) (rows : List TaskProgress) → t.local_completed ≡ true → evidence t rows ≡ none
unfolding evidence
evidence_done t rows h = ground (arith, h)

module _ (now : ℕ) (progress : List TaskProgress) (rows : List TaskWorkSession) where
  -- What a task adds to the candidates, whatever the others are.
  shape :
      (t : Task)
      → ((ts : List Task)
          → candidates_of now progress rows (t ∷ ts) ≡ candidates_of now progress rows ts)
        ⊎ ((x : Candidate) × (x.task_id ≡ t.id)
            × ((ts : List Task)
                → candidates_of now progress rows (t ∷ ts)
                  ≡ x ∷ candidates_of now progress rows ts))
  unfolding candidates_of
  shape t = elim (Option-cases (evidence t progress)) [
    | inl e ↦ inl (λ ts. ground (arith, e))
    | inr (p, e) ↦ elim (Bool-cases (has_open_timer t rows)) [
      | inl o ↦ inl (λ ts. ground (arith, e, o))
      | inr o ↦ inr (Repair.candidate_of now t p, refl, λ ts. ground (arith, e, o))
    ]
  ]

  done_shape :
      (t : Task) (ts : List Task)
      → t.local_completed ≡ true
      → candidates_of now progress rows (t ∷ ts) ≡ candidates_of now progress rows ts
  unfolding candidates_of
  done_shape t ts h = ground (arith, evidence_done t progress h)

  tail_listed :
      (cs : List Candidate) (t : Task) (ts : List Task)
      → All (Listed cs) (candidates_of now progress rows (t ∷ ts))
      → All (Listed cs) (candidates_of now progress rows ts)
  tail_listed cs t ts h = elim (shape t) [
    | inl e ↦ subst (All (Listed cs)) (e ts) h
    | inr (x, same, e) ↦ (subst (All (Listed cs)) (e ts) h).1
  ]

  narrowed :
      (c x : Candidate) (cs : List Candidate)
      → (x.task_id == c.task_id) ≡ false
      → Listed (c ∷ cs) x
      → Listed cs x
  unfolding any
  narrowed c x cs d h = ground (arith, d, h, beq_comm x.task_id c.task_id)

  remaining :
      (c : Candidate) (cs : List Candidate) (task : Task) (ts : List Task)
      → All (λ t. (t.id == c.task_id) ≡ true → repairable c t ≡ true) ts
      → All (Listed (c ∷ cs)) (candidates_of now progress rows ts)
      → All
          (Listed cs)
          (candidates_of now progress rows (update_where (repairable c) (repaired c task) ts))
  unfolding update_where
  remaining c cs task [] o h = unfold candidates_of in tt
  remaining c cs task (t ∷ ts) o h =
      let f : Task → Task = repaired c task in
      let rest = remaining c cs task ts o.1 (tail_listed (c ∷ cs) t ts h) in
      let others = update_where (repairable c) f ts in
      elim (Bool-cases (t.id == c.task_id)) [
        | inl e ↦ rw (o.0 e) (subst (All (Listed cs)) (sym (done_shape (f t) others refl)) rest)
        | inr e ↦
            let kept : repairable c t ≡ false = ground (arith, e) in
            rw kept (elim (shape t) [
              | inl k ↦ subst (All (Listed cs)) (sym (k others)) rest
              | inr (x, same, k) ↦ subst (All (Listed cs)) (sym (k others)) (
                narrowed c x cs (ground (arith, same, e))
                    (subst (All (Listed (c ∷ cs))) (k ts) h).0,
                rest,
              )
            ])
      ]

  repair_all-candidates :
      (cs : List Candidate) (db : Db) (n : ℕ) (db' : Db)
      → Pairwise (λ t u. (t.id == u.id) ≡ false) db.tasks
      → All (Listed cs) (candidates_of now progress rows db.tasks)
      → repair_all cs db ≡ ok (n, db')
      → candidates_of now progress rows db'.tasks ≡ []
  repair_all-candidates [] db n db' u h e =
      let same : db ≡ db' = unfold repair_all in ground (arith, e) in
      subst (λ d. candidates_of now progress rows d.tasks ≡ []) same (nothing _ h)
    where
      nothing : (xs : List Candidate) → All (Listed []) xs → xs ≡ []
      nothing [] k = refl
      nothing (x ∷ xs) k = unfold any in ground (arith, k.0)
  repair_all-candidates (c ∷ cs) db n db' u h e =
      let (task, m, k, one, g) = step_inv c cs db n db' e in
      repair_all-candidates cs (repair_rows c task db) m db'
        (Pairwise-update_where (λ t u. (t.id == u.id) ≡ false) (repairable c) (repaired c task)
          db.tasks (λ t u ne. ground (arith, ne)) u)
        (remaining c cs task db.tasks (only_row c db.tasks u one) h) g

repair_tables :
    (cs : List Candidate) (db : Db) (n : ℕ) (db' : Db)
    → repair_all cs db ≡ ok (n, db')
    → (db'.progress ≡ db.progress) × (db'.sessions ≡ db.sessions)
repair_tables [] db n db' e = unfold repair_all in (ground (arith, e), ground (arith, e))
repair_tables (c ∷ cs) db n db' e =
    let (task, m, k, one, g) = step_inv c cs db n db' e in
    repair_tables cs (repair_rows c task db) m db' g

same_listed : (x y : Candidate) (cs : List Candidate) → x.task_id ≡ y.task_id → Listed (x ∷ cs) y
unfolding any
same_listed x y cs e = ground (arith, e, (nat_beq_iff x.task_id x.task_id).1 refl)

-- A later plan has candidates for the same tasks.
across :
    (now later : ℕ) (progress : List TaskProgress) (rows : List TaskWorkSession) (ts : List Task)
    → All (Listed (candidates_of now progress rows ts)) (candidates_of later progress rows ts)
unfolding candidates_of
across now later progress rows [] = tt
across now later progress rows (t ∷ ts) =
    let rest = across now later progress rows ts in
    elim (Option-cases (evidence t progress)) [
      | inl e ↦ rw e rest
      | inr (p, e) ↦ elim (Bool-cases (has_open_timer t rows)) [
        | inl o ↦ rw (e, o) rest
        | inr o ↦
            let x = Repair.candidate_of now t p in
            rw (e, o)
              (
                same_listed x (Repair.candidate_of later t p) (candidates_of now progress rows ts)
                    refl,
                All-map (candidates_of later progress rows ts)
                    (λ y h. listed_more y x (candidates_of now progress rows ts) h) rest,
              )
      ]
    ]

-- Where an inspected repair is applied, at most one timer stays open and completed work stays
-- without one, and a new plan has no candidate left, whenever it is made.
pub apply_completion_repair-WorkSound :
    (now later n : ℕ) (approved : RepairPlan) (db db' : Db)
    → WorkSound db
    → apply_completion_repair now approved db ≡ ok (n, db')
    → WorkSound db' × ((completion_repair_plan later db').candidates ≡ [])
unfolding apply_completion_repair completion_repair_plan
apply_completion_repair-WorkSound now later n approved db db' s e =
    let cs = candidates_of now db.progress db.sessions db.tasks in
    let g : repair_all cs db ≡ ok (n, db') = ground (arith, e) in
    let (p, r) = repair_tables cs db n db' g in
    (
      repair_all-WorkSound cs db n db' (candidates_of-Resting now db.progress db.sessions db.tasks)
          s g,
      rw (p, r)
          (repair_all-candidates later db.progress db.sessions cs db n db' s.unique
            (across now later db.progress db.sessions db.tasks) g),
    )
