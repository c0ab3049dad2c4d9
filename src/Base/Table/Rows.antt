-- ===== src/Base/Table/Rows.antt =====
-- What the statements of Base/Table.antt do to the rows of a table.
use Prim.Native.Nat.{◌+◌, ◌≤◌}
use mathlib.Core.Path.{◌≡◌, refl, subst}
use mathlib.Core.Logic.{inl, inr}
use mathlib.Core.Bool.{Bool, true, false}
use mathlib.Core.Option
use mathlib.Core.Option.{Option, none, some}
use mathlib.Core.List.{List, [], ◌∷◌, ◌++◌}
use native.Mathlib.Omega.{arith}
use canvas_watcher.Base.Tests.{Bool-cases}
use canvas_watcher.Base.Lists.{length, any, All, Pairwise}
use canvas_watcher.Base.Table.{
  select, fetch_one, count_where, delete_where, update_where, when_then,
}

module _ {ℓ} {A : Type ℓ} (p : A → Bool) where
  pub fetch_one_holds : (xs : List A) (x : A) → fetch_one p xs ≡ some x → p x ≡ true
  unfolding fetch_one
  fetch_one_holds [] x h = cc
  fetch_one_holds (y ∷ xs) x h = ground (arith, fetch_one_holds xs x)

  pub fetch_one-append :
      (xs ys : List A)
      → fetch_one p (xs ++ ys) ≡ elim (fetch_one p xs) [ none ↦ fetch_one p ys | some x ↦ some x ]
  unfolding fetch_one
  fetch_one-append [] ys = refl
  fetch_one-append (x ∷ xs) ys = ground (arith, fetch_one-append xs ys)

  pub fetch_one-any : (xs : List A) → any p xs ≡ false → fetch_one p xs ≡ none
  unfolding fetch_one any
  fetch_one-any [] h = refl
  fetch_one-any (x ∷ xs) h = ground (arith, fetch_one-any xs)

  pub fetch_one-none-any : (xs : List A) → fetch_one p xs ≡ none → any p xs ≡ false
  unfolding fetch_one any
  fetch_one-none-any [] h = refl
  fetch_one-none-any (x ∷ xs) h = ground (arith, fetch_one-none-any xs)

  pub length-select : (xs : List A) → length (select p xs) ≤ length xs
  unfolding select
  length-select [] = omega arith
  length-select (x ∷ xs) = ground (arith, length-select xs)

  pub length-delete_where : (xs : List A) → length (delete_where p xs) ≤ length xs
  unfolding delete_where
  length-delete_where [] = omega arith
  length-delete_where (x ∷ xs) = ground (arith, length-delete_where xs)

  pub count_where-append :
      (xs ys : List A) → count_where p (xs ++ ys) ≡ count_where p xs + count_where p ys
  unfolding count_where
  count_where-append [] ys = omega arith
  count_where-append (x ∷ xs) ys = ground (arith, count_where-append xs ys)

module _ {ℓ} {A : Type ℓ} (p q : A → Bool) where
  -- Rows that do not match the WHERE clause are found as before.
  pub fetch_one-delete_where :
      (xs : List A)
      → ((x : A) → p x ≡ true → q x ≡ false)
      → fetch_one p (delete_where q xs) ≡ fetch_one p xs
  unfolding fetch_one delete_where
  fetch_one-delete_where [] h = refl
  fetch_one-delete_where (x ∷ xs) h = ground (arith, h x, fetch_one-delete_where xs h)

  -- Rows that match it are gone.
  pub fetch_one-delete_where-none :
      (xs : List A) → ((x : A) → p x ≡ true → q x ≡ true) → fetch_one p (delete_where q xs) ≡ none
  unfolding fetch_one delete_where
  fetch_one-delete_where-none [] h = refl
  fetch_one-delete_where-none (x ∷ xs) h = ground (arith, h x, fetch_one-delete_where-none xs h)

  pub fetch_one-update_where :
      (f : A → A) (xs : List A)
      → ((x : A) → p (f x) ≡ p x)
      → fetch_one p (update_where q f xs) ≡ Option.map (when_then q f) (fetch_one p xs)
  unfolding fetch_one update_where
  fetch_one-update_where f [] h = refl
  fetch_one-update_where f (x ∷ xs) h = ground (arith, h x, fetch_one-update_where f xs h)

  pub count_where-delete_where :
      (xs : List A)
      → ((x : A) → p x ≡ true → q x ≡ false)
      → count_where p (delete_where q xs) ≡ count_where p xs
  unfolding count_where delete_where
  count_where-delete_where [] h = refl
  count_where-delete_where (x ∷ xs) h = ground (arith, h x, count_where-delete_where xs h)

module _ {ℓ κ} {A : Type ℓ} where
  pub All-delete_where :
      (P : A → Type κ) (q : A → Bool) (xs : List A)
      → All P xs
      → All (λ x. P x × (q x ≡ false)) (delete_where q xs)
  unfolding delete_where
  All-delete_where P q [] h = tt
  All-delete_where P q (x ∷ xs) h = elim (Bool-cases (q x)) [
    | inl e ↦ rw e (All-delete_where P q xs h.1)
    | inr e ↦ rw e ((h.0, e), All-delete_where P q xs h.1)
  ]

  pub All-update_where :
      (P Q : A → Type κ) (q : A → Bool) (f : A → A) (xs : List A)
      → ((x : A) → P x → Q (when_then q f x))
      → All P xs
      → All Q (update_where q f xs)
  unfolding update_where
  All-update_where P Q q f [] k h = tt
  All-update_where P Q q f (x ∷ xs) k h = (k x h.0, All-update_where P Q q f xs k h.1)

module _ {ℓ κ} {A : Type ℓ} (R : A → A → Type κ) where
  pub Pairwise-update_where :
      (q : A → Bool) (f : A → A) (xs : List A)
      → ((x y : A) → R x y → R (when_then q f x) (when_then q f y))
      → Pairwise R xs
      → Pairwise R (update_where q f xs)
  unfolding update_where
  Pairwise-update_where q f [] k h = tt
  Pairwise-update_where q f (x ∷ xs) k h = (
    All-update_where (R x) (R (when_then q f x)) q f xs (k x) h.0,
    Pairwise-update_where q f xs k h.1,
  )

module _ {ℓ κ} {A : Type ℓ} where
  pub All-fetch_one :
      (P : A → Type κ) (p : A → Bool) (xs : List A) (x : A)
      → All P xs
      → fetch_one p xs ≡ some x
      → P x
  unfolding fetch_one
  All-fetch_one P p [] x h e = cc
  All-fetch_one P p (y ∷ xs) x h e = elim (Bool-cases (p y)) [
    | inl t ↦ subst P (ground arith) h.0
    | inr t ↦ All-fetch_one P p xs x h.1 (ground arith)
  ]

module _ {ℓ} {A : Type ℓ} (p q : A → Bool) where
  -- A narrower test finds nothing where the wider one finds nothing.
  pub fetch_one-none_of_any :
      (xs : List A)
      → any q xs ≡ false
      → ((x : A) → q x ≡ false → p x ≡ false)
      → fetch_one p xs ≡ none
  unfolding fetch_one any
  fetch_one-none_of_any [] h k = refl
  fetch_one-none_of_any (x ∷ xs) h k = ground (arith, k x, fetch_one-none_of_any xs)

module _ {ℓ} {A : Type ℓ} (p q : A → Bool) where
  -- What is found after a DELETE did not match its WHERE clause.
  pub fetch_one-delete_where_kept :
      (xs : List A) (x : A) → fetch_one p (delete_where q xs) ≡ some x → q x ≡ false
  unfolding fetch_one delete_where
  fetch_one-delete_where_kept [] x h = cc
  fetch_one-delete_where_kept (y ∷ xs) x h = ground (arith, fetch_one-delete_where_kept xs x)

module _ {ℓ} {A : Type ℓ} (p q : A → Bool) (f : A → A) where
  pub fetch_one-update_where-none :
      (xs : List A)
      → ((x : A) → p (when_then q f x) ≡ false)
      → fetch_one p (update_where q f xs) ≡ none
  unfolding fetch_one update_where
  fetch_one-update_where-none [] h = refl
  fetch_one-update_where-none (x ∷ xs) h = ground (arith, h x, fetch_one-update_where-none xs h)

module _ {ℓ κ} {A : Type ℓ} (P : A → Type κ) where
  pub All-select : (p : A → Bool) (xs : List A) → All P xs → All P (select p xs)
  unfolding select
  All-select p [] h = tt
  All-select p (x ∷ xs) h = elim (Bool-cases (p x)) [
    | inl e ↦ rw e (h.0, All-select p xs h.1)
    | inr e ↦ rw e (All-select p xs h.1)
  ]

module _ {ℓ} {A : Type ℓ} (p : A → Bool) (f : A → A) where
  pub length-update_where : (xs : List A) → length (update_where p f xs) ≡ length xs
  unfolding update_where
  length-update_where [] = refl
  length-update_where (x ∷ xs) = ground (arith, length-update_where xs)
