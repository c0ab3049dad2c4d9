-- ===== src/Base/Table.antt =====
-- A table is the list of its rows, in the order of insertion. These are the statements that the
-- program sends to SQLite, and the comprehensions by which it filters a dict: SELECT, SELECT with
-- `fetchone`, SELECT COUNT, DELETE and UPDATE with a WHERE clause.
pub mod Rows
use Prim.Native.Nat.{ℕ, suc}
use mathlib.Core.Bool.{Bool}
use mathlib.Core.Option.{Option, none, some}
use mathlib.Core.List.{List, [], ◌∷◌}
use canvas_watcher.Base.Tests.{if◌then◌else◌}

module _ {ℓ} {A : Type ℓ} where
  unfoldable pub select : (A → Bool) → List A → List A
  select p [] = []
  select p (x ∷ xs) = let rest = select p xs in if p x then x ∷ rest else rest

  unfoldable pub fetch_one : (A → Bool) → List A → Option A
  fetch_one p [] = none
  fetch_one p (x ∷ xs) = if p x then some x else fetch_one p xs

  unfoldable pub count_where : (A → Bool) → List A → ℕ
  count_where p [] = 0
  count_where p (x ∷ xs) = let rest = count_where p xs in if p x then suc rest else rest

  unfoldable pub delete_where : (A → Bool) → List A → List A
  delete_where p [] = []
  delete_where p (x ∷ xs) = let rest = delete_where p xs in if p x then rest else x ∷ rest

  abbrev pub when_then : (A → Bool) → (A → A) → A → A
  when_then p f x = if p x then f x else x

  unfoldable pub update_where : (A → Bool) → (A → A) → List A → List A
  update_where p f [] = []
  update_where p f (x ∷ xs) = when_then p f x ∷ update_where p f xs
