-- ===== src/Auth/RowLaws.antt =====
-- Lemmas on the rows of one key.
use canvas_watcher.Base.{
  ℕ, ◌+◌, ◌≤◌, Bool, true, false, some, List, [], ◌∷◌, Text, ◌==◌, text_eq, ◌≡◌, refl, inl, inr,
  any, length, length-append, update_where, when_then, arith, Option-cases, Bool-cases,
  text_beq_iff, All, All-append,
}
use canvas_watcher.Base.Table.Rows.{
  length-update_where, fetch_one_holds, fetch_one-update_where, All-fetch_one, All-update_where,
}
use canvas_watcher.Auth.Challenge.{
  Challenge, ChallengeStore, is_pending, has_id, find_row, put, assign, expire, checked_row,
}
use canvas_watcher.Auth.Calls.{Only}

pub find_row_id :
    (id : Text) (rows : List Challenge) (r : Challenge)
    → find_row id rows ≡ some r
    → (r.id == id) ≡ true
unfolding find_row
find_row_id id rows r h = fetch_one_holds (has_id id) rows r h

pub find_row-Only :
    (id : Text) (r x : Challenge) (rows : List Challenge)
    → Only id r rows
    → find_row id rows ≡ some x
    → x ≡ r
unfolding find_row
find_row-Only id r x rows h e =
    All-fetch_one (λ y. (y.id == id) ≡ true → y ≡ r) (has_id id) rows x h e
      (fetch_one_holds (has_id id) rows x e)

pub find_row-assign :
    (id : Text) (f : Challenge → Challenge) (s : ChallengeStore) (r : Challenge)
    → ((y : Challenge) → (f y).id ≡ y.id)
    → find_row id s.rows ≡ some r
    → find_row id (assign id f s).rows ≡ some (f r)
unfolding find_row
find_row-assign id f s r keeps h =
    rw (fetch_one-update_where (has_id id) (has_id id) f s.rows (λ y. rw (keeps y) refl))
      (ground (arith, h, fetch_one_holds (has_id id) s.rows r h))

-- An UPDATE that keeps the keys and leaves `r` as it is.
pub Only-update :
    (id : Text) (r : Challenge) (q : Challenge → Bool) (f : Challenge → Challenge)
    (rows : List Challenge)
    → ((y : Challenge) → (f y).id ≡ y.id)
    → ((r.id == id) ≡ true → q r ≡ true → f r ≡ r)
    → Only id r rows
    → Only id r (update_where q f rows)
Only-update id r q f rows keeps still h =
    All-update_where (λ x. (x.id == id) ≡ true → x ≡ r) (λ x. (x.id == id) ≡ true → x ≡ r) q f rows
      each h
  where
    each :
        (x : Challenge)
        → ((x.id == id) ≡ true → x ≡ r)
        → ((when_then q f x).id == id) ≡ true
        → when_then q f x ≡ r
    each x is_r same = elim (Bool-cases (q x)) [
      | inl hit ↦
          let mine : (x.id == id) ≡ true = ground (arith, keeps x) in
          let e = is_r mine in ground (arith, e, hit, mine, still)
      | inr miss ↦ ground (arith, is_r)
    ]

pub Only-assign_pending :
    (id j : Text) (r x : Challenge) (f : Challenge → Challenge) (s : ChallengeStore)
    → ((y : Challenge) → (f y).id ≡ y.id)
    → is_pending r.state ≡ false
    → find_row j s.rows ≡ some x
    → is_pending x.state ≡ true
    → Only id r s.rows
    → Only id r (assign j f s).rows
Only-assign_pending id j r x f s keeps decided found pending h =
    Only-update id r (has_id j) f s.rows keeps (λ mine hit. absurd (clash mine hit)) h
  where
    clash : (r.id == id) ≡ true → (r.id == j) ≡ true → ⊥
    clash mine hit =
        let same : id ≡ j = ground (arith, text_beq_iff r.id id, text_beq_iff r.id j) in
        let e = find_row-Only id r x s.rows h (rw same found) in ground (arith, e)

pub checked_row_found :
    (now : ℕ) (j instance_id provider : Text) (s : ChallengeStore) (x : Challenge)
    → (checked_row now j instance_id provider s).0 ≡ some x
    → find_row j (checked_row now j instance_id provider s).1.rows ≡ some x
unfolding checked_row
checked_row_found now j instance_id provider s x h = elim (Option-cases (find_row j s.rows)) [
  | inl missing ↦ absurd (ground arith)
  | inr (row, e) ↦ ground (arith, find_row-assign j expire s row (λ r. refl) e)
]

pub Only-checked_row :
    (now : ℕ) (id j instance_id provider : Text) (r : Challenge) (s : ChallengeStore)
    → is_pending r.state ≡ false
    → Only id r s.rows
    → Only id r (checked_row now j instance_id provider s).1.rows
unfolding checked_row
Only-checked_row now id j instance_id provider r s decided h =
    elim (Option-cases (find_row j s.rows)) [
      | inl missing ↦ ground arith
      | inr (row, e) ↦ ground (arith, Only-assign_pending id j r row expire s (λ y. refl) decided e)
    ]

-- A new row of another key.
pub All-put :
    (P : Challenge → Type 0) (row : Challenge) (rows : List Challenge)
    → P row
    → All P rows
    → All P (put row rows)
unfolding put
All-put P row rows new h = elim (Bool-cases (any (has_id row.id) rows)) [
  | inl there ↦
      rw there (All-update_where P P (has_id row.id) (λ r. row) rows (λ x k. overwrite x k) h)
  | inr absent ↦ rw absent (All-append P rows (row ∷ []) h (new, tt))
]
  where
    overwrite : (x : Challenge) → P x → P (when_then (has_id row.id) (λ r. row) x)
    overwrite x k = elim (Bool-cases (has_id row.id x)) [ inl e ↦ rw e new | inr e ↦ rw e k ]

pub Only-assign_self :
    (id : Text) (r : Challenge) (f : Challenge → Challenge) (s : ChallengeStore)
    → ((y : Challenge) → (f y).id ≡ y.id)
    → Only id r s.rows
    → Only id (f r) (assign id f s).rows
Only-assign_self id r f s keeps h =
    All-update_where (λ x. (x.id == id) ≡ true → x ≡ r) (λ x. (x.id == id) ≡ true → x ≡ f r)
      (has_id id) f s.rows
      (λ x is_r same. elim (Bool-cases (x.id == id)) [
        | inl hit ↦ ground (arith, is_r hit)
        | inr miss ↦ absurd (ground arith)
      ])
      h

pub length-put : (row : Challenge) (rows : List Challenge) → length (put row rows) ≤ length rows + 1
unfolding put
length-put row rows =
    ground
      (arith, length-append rows (row ∷ []), length-update_where (has_id row.id) (λ r. row) rows)
