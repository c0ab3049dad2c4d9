-- ===== src/Analysis/Rows.antt =====
-- The jobs by their ids: what an UPDATE of one of them does to the others.
use canvas_watcher.Base.{
  ℕ, Bool, true, false, some, List, [], ◌∷◌, ◌==◌, nat_eq, ◌≡◌, refl, arith, fetch_one,
  update_where, All, Pairwise, Bool-cases, inl, inr,
}
use canvas_watcher.Base.Table.Rows.{Pairwise-update_where}
use canvas_watcher.Analysis.Schema.{Job}

abbrev pub by_id : ℕ → Job → Bool
by_id id j = j.id == id

-- No two jobs have the same id.
abbrev pub Unique : List Job → Type 0
Unique = Pairwise (λ x y. (x.id == y.id) ≡ false)

-- Rows of an id are the given one.
abbrev pub Only : ℕ → Job → Job → Type 0
Only id job x = (x.id == id) ≡ true → x ≡ job

others_differ :
    (id : ℕ) (job x : Job) (xs : List Job)
    → (x.id == id) ≡ true
    → All (λ y. (x.id == y.id) ≡ false) xs
    → All (λ y. Only id job y) xs
others_differ id job x [] e h = tt
others_differ id job x (y ∷ xs) e h =
    (λ k. ground (arith, e, h.0, k), others_differ id job x xs e h.1)

pub found-Only :
    (id : ℕ) (job : Job) (jobs : List Job)
    → Unique jobs
    → fetch_one (by_id id) jobs ≡ some job
    → All (λ x. Only id job x) jobs
unfolding fetch_one
found-Only id job [] u h = tt
found-Only id job (x ∷ xs) u h = elim (Bool-cases (x.id == id)) [
  | inl e ↦ (λ k. ground (arith, h, e), others_differ id job x xs e u.0)
  | inr e ↦ (λ k. ground (arith, e, k), found-Only id job xs u.1 (ground (arith, h, e)))
]

pub Unique-update :
    (id : ℕ) (f : Job → Job) (jobs : List Job)
    → ((j : Job) → (f j).id ≡ j.id)
    → Unique jobs
    → Unique (update_where (by_id id) f jobs)
Unique-update id f jobs k u =
    Pairwise-update_where (λ x y. (x.id == y.id) ≡ false) (by_id id) f jobs
      (λ x y h. ground (arith, h, k x, k y)) u

pub good_update :
    (good : Job → Bool) (id : ℕ) (f : Job → Job) (job : Job) (jobs : List Job)
    → All (λ x. Only id job x) jobs
    → good (f job) ≡ true
    → All (λ x. good x ≡ true) jobs
    → All (λ x. good x ≡ true) (update_where (by_id id) f jobs)
unfolding update_where
good_update good id f job [] o g h = tt
good_update good id f job (x ∷ xs) o g h = elim (Bool-cases (x.id == id)) [
  | inl e ↦ (rw e (rw (o.0 e) g), good_update good id f job xs o.1 g h.1)
  | inr e ↦ (rw e h.0, good_update good id f job xs o.1 g h.1)
]

pub fetch_other :
    (id other : ℕ) (f : Job → Job) (jobs : List Job)
    → ((j : Job) → (f j).id ≡ j.id)
    → (id == other) ≡ false
    → fetch_one (by_id other) (update_where (by_id id) f jobs) ≡ fetch_one (by_id other) jobs
unfolding fetch_one update_where
fetch_other id other f [] k d = refl
fetch_other id other f (x ∷ xs) k d = ground (arith, d, k x, fetch_other id other f xs k d)

-- Ids of a list, each different from those behind it.
abbrev pub Apart : List ℕ → Type 0
Apart = Pairwise (λ a b. (a == b) ≡ false)

pub update_twice :
    (id : ℕ) (f g : Job → Job) (jobs : List Job)
    → ((j : Job) → (f j).id ≡ j.id)
    → update_where (by_id id) g (update_where (by_id id) f jobs)
      ≡ update_where (by_id id) (λ j. g (f j)) jobs
unfolding update_where
update_twice id f g [] k = refl
update_twice id f g (x ∷ xs) k = ground (arith, k x, update_twice id f g xs k)
