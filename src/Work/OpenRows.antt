-- ===== src/Work/OpenRows.antt =====
-- Lemmas on counts of rows and on the latest of them.
use canvas_watcher.Base.{
  suc, ◌≤◌, Bool, true, false, ◌&&◌, none, some, List, [], ◌∷◌, ◌++◌, ◌≡◌, nat_eq, refl, arith, inl,
  inr, Option-cases, any, select, fetch_one, count_where, update_where,
}
use canvas_watcher.Work.Schema.{latest}

module _ {A : Type 0} where
  -- An UPDATE whose rows do not match any more.
  pub count_where-closed :
      (p q : A → Bool) (f : A → A) (xs : List A)
      → ((x : A) → p (f x) ≡ false)
      → count_where p (update_where q f xs) ≤ count_where p xs
  unfolding count_where update_where
  count_where-closed p q f [] h = omega arith
  count_where-closed p q f (x ∷ xs) h = ground (arith, h x, count_where-closed p q f xs h)

  pub count_where-closes :
      (p q : A → Bool) (f : A → A) (xs : List A)
      → ((x : A) → p (f x) ≡ false)
      → any (λ x. q x && p x) xs ≡ true
      → suc (count_where p (update_where q f xs)) ≤ count_where p xs
  unfolding count_where update_where any
  count_where-closes p q f [] h e = cc
  count_where-closes p q f (x ∷ xs) h e =
      ground (arith, h x, count_where-closed p q f xs h, count_where-closes p q f xs h)

  pub count_where-implied :
      (p q : A → Bool) (xs : List A)
      → ((x : A) → p x ≡ true → q x ≡ true)
      → count_where p xs ≤ count_where q xs
  unfolding count_where
  count_where-implied p q [] h = omega arith
  count_where-implied p q (x ∷ xs) h = ground (arith, h x, count_where-implied p q xs h)

  pub count_where-no_row :
      (p : A → Bool) (xs : List A) → fetch_one p xs ≡ none → count_where p xs ≡ 0
  unfolding count_where fetch_one
  count_where-no_row p [] h = refl
  count_where-no_row p (x ∷ xs) h = ground (arith, count_where-no_row p xs)

  pub count_where-selected : (p : A → Bool) (xs : List A) → select p xs ≡ [] → count_where p xs ≡ 0
  unfolding count_where select
  count_where-selected p [] h = refl
  count_where-selected p (x ∷ xs) h = ground (arith, count_where-selected p xs)

  pub any-fetch_one :
      (p q : A → Bool) (xs : List A) (x : A)
      → fetch_one p xs ≡ some x
      → q x ≡ true
      → any (λ y. q y && p y) xs ≡ true
  unfolding fetch_one any
  any-fetch_one p q [] x h e = cc
  any-fetch_one p q (y ∷ ys) x h e = ground (arith, any-fetch_one p q ys x)

  pub latest-none : (after : A → A → Bool) (xs : List A) → latest after xs ≡ none → xs ≡ []
  unfolding latest
  latest-none after [] h = refl
  latest-none after (x ∷ xs) h = elim (Option-cases (latest after xs)) [
    | inl e ↦ absurd (ground arith)
    | inr (y, e) ↦ absurd (ground arith)
  ]

  pub any-latest :
      (after : A → A → Bool) (q : A → Bool) (xs : List A) (x : A)
      → latest after xs ≡ some x
      → q x ≡ true
      → any q xs ≡ true
  unfolding latest any
  any-latest after q [] x h e = cc
  any-latest after q (y ∷ ys) x h e = elim (Option-cases (latest after ys)) [
    | inl none_left ↦ ground arith
    | inr (z, found) ↦ ground (arith, any-latest after q ys z found)
  ]

  pub any-select :
      (p q : A → Bool) (xs : List A) → any q (select p xs) ≡ true → any (λ y. q y && p y) xs ≡ true
  unfolding any select
  any-select p q [] h = cc
  any-select p q (x ∷ xs) h = ground (arith, any-select p q xs)

  pub select-none : (p : A → Bool) (xs : List A) → count_where p xs ≡ 0 → select p xs ≡ []
  unfolding count_where select
  select-none p [] h = refl
  select-none p (x ∷ xs) h = ground (arith, select-none p xs)

  pub select-append :
      (p : A → Bool) (xs ys : List A) → select p (xs ++ ys) ≡ select p xs ++ select p ys
  unfolding select
  select-append p [] ys = refl
  select-append p (x ∷ xs) ys = ground (arith, select-append p xs ys)
