-- ===== src/Gateway/Identity/Slots.antt =====
-- The allocation of isolated instances, `next_slot`.
use native.Mathlib.Decide.{ℕ_discrete}
use canvas_watcher.Base.{
  ℕ, zero, suc, ◌+◌, ◌-◌, ◌≤◌, ◌<◌, true, false, none, some, List, ◌≡◌, arith, Bool-cases, inl, inr,
}
use canvas_watcher.Gateway.Identity.Schema.{User}
use canvas_watcher.Gateway.Identity.Accounts.{slot_used, first_free, next_slot}

-- `m` is the first free number of `count` numbers from `n` on.
pub record IsFirstFree (count n m : ℕ) (users : List User) : Type 0 where
  pub from : n ≤ m
  pub below : m < n + count
  pub free : slot_used m users ≡ false
  pub earlier_used : (k : ℕ) → n ≤ k → k < m → slot_used k users ≡ true

first_free-some :
    (count n m : ℕ) (users : List User)
    → first_free count n users ≡ some m
    → IsFirstFree count n m users
unfolding first_free
first_free-some zero n m users h = cc
first_free-some (suc count) n m users h = elim (Bool-cases (slot_used n users)) [
  | inl used ↦ step used (first_free-some count (n + 1) m users (ground arith))
  | inr free ↦ record {
    from = ground arith;
    below = ground arith;
    free = ground arith;
    earlier_used = λ k lo hi. ground arith;
  }
]
  where
    step :
        slot_used n users ≡ true
        → IsFirstFree count (n + 1) m users
        → IsFirstFree (suc count) n m users
    step used r = record {
      from = omega arith;
      below = omega arith;
      free = r.free;
      earlier_used = λ k lo hi. elim (ℕ_discrete n k) [
        | yes e ↦ rw (← e) used
        | no ne ↦ r.earlier_used k (omega arith) hi
      ];
    }

first_free-none :
    (count n : ℕ) (users : List User)
    → first_free count n users ≡ none
    → (k : ℕ) → n ≤ k
    → k < n + count
    → slot_used k users ≡ true
unfolding first_free
first_free-none zero n users h k lo hi = absurd (omega arith)
first_free-none (suc count) n users h k lo hi = elim (ℕ_discrete n k) [
  | yes e ↦ rw (← e) (ground arith)
  | no ne ↦ first_free-none count (n + 1) users (ground arith) k (omega arith) (omega arith)
]

-- The slot that registration takes is the smallest free one above the owner's, and within the
-- configured number of instances.
pub next_slot-some :
    (slots m : ℕ) (users : List User)
    → next_slot slots users ≡ some m
    → (2 ≤ m)
      × (m ≤ slots)
      × (slot_used m users ≡ false)
      × ((k : ℕ) → 2 ≤ k → k < m → slot_used k users ≡ true)
unfolding next_slot
next_slot-some slots m users h =
    let r = first_free-some (slots - 1) 2 m users h in
    (r.from, ground (arith, r.from, r.below), r.free, r.earlier_used)

-- Registration finds no slot only when every slot from 2 to `slots` is taken.
pub next_slot-none :
    (slots : ℕ) (users : List User)
    → next_slot slots users ≡ none
    → (k : ℕ) → 2 ≤ k
    → k ≤ slots
    → slot_used k users ≡ true
unfolding next_slot
next_slot-none slots users h k lo hi = first_free-none (slots - 1) 2 users h k lo (omega arith)
