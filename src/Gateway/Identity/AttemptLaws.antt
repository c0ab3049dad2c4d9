-- ===== src/Gateway/Identity/AttemptLaws.antt =====
-- The rate limit of `record_login_attempt`.
use canvas_watcher.Base.{
  ℕ, suc, ◌+◌, ◌-◌, ◌≤◌, min, Bool, true, false, List, [], ◌∷◌, ◌++◌, Text, ◌==◌, ◌≡◌, refl,
  text_eq, text_beq_refl, arith, ltb, leb, inl, inr, Bool-cases, All, All-map, All-append, length,
  count_where, delete_where, if◌then◌else◌,
}
use canvas_watcher.Base.Table.Rows.{count_where-append, count_where-delete_where, All-delete_where}
use canvas_watcher.Gateway.Identity.Schema.{Attempt}
use canvas_watcher.Gateway.Identity.Attempts.{is_old, counts, record_attempt}

abbrev pub in_window : Text → ℕ → ℕ → List Attempt → ℕ
in_window key window now rows = count_where (counts key window now) rows

-- The DELETE of old rows takes away none that the limit counts.
in_window-delete_old :
    (key : Text) (window now : ℕ) (rows : List Attempt)
    → in_window key window now (delete_where (is_old window now) rows)
      ≡ in_window key window now rows
in_window-delete_old key window now rows =
    count_where-delete_where (counts key window now) (is_old window now) rows (λ a h. ground arith)

in_window-snoc :
    (key : Text) (window now : ℕ) (rows : List Attempt)
    → in_window key window now (rows ++ record { key = key; occurred_at = now } ∷ [])
      ≡ suc (in_window key window now rows)
unfolding count_where
in_window-snoc key window now rows =
    let a : Attempt = record { key = key; occurred_at = now } in
    ground (arith, count_where-append (counts key window now) rows (a ∷ []), text_beq_refl key)

-- An attempt is let through exactly when fewer than `limit` attempts of its key were recorded in the
-- last `window` seconds; then it is recorded as one more, and otherwise it is not.
pub record_attempt_lem :
    (key : Text) (limit window now : ℕ) (rows : List Attempt)
    → ((record_attempt key limit window now rows).0 ≡ ltb (in_window key window now rows) limit)
      × (in_window key window now (record_attempt key limit window now rows).1 ≡ (
          if ltb (in_window key window now rows) limit
          then suc (in_window key window now rows)
          else in_window key window now rows))
unfolding record_attempt
record_attempt_lem key limit window now rows = (
  ground (arith, in_window-delete_old key window now rows),
  ground (
    arith,
    in_window-delete_old key window now rows,
    in_window-snoc key window now (delete_where (is_old window now) rows),
  ),
)

-- How many of the attempts at the given times are let through.
abbrev pub tally : Bool → ℕ → ℕ
tally true n = suc n
tally false n = n

pub accepted : Text → ℕ → ℕ → List ℕ → List Attempt → ℕ
accepted key limit window [] rows = 0
accepted key limit window (now ∷ times) rows =
    let (go, rows') = record_attempt key limit window now rows in
    tally go (accepted key limit window times rows')

-- Every row of the key was recorded at `start` or later.
abbrev pub Since : Text → ℕ → List Attempt → Type 0
Since key start rows = All (λ a. (a.key == key) ≡ true → start ≤ a.occurred_at) rows

abbrev pub all_of : Text → List Attempt → ℕ
all_of key rows = count_where (λ a. a.key == key) rows

-- Within `window` seconds of `start` such rows all count.
in_window-all_of :
    (key : Text) (window start now : ℕ) (rows : List Attempt)
    → Since key start rows
    → now ≤ start + window
    → in_window key window now rows ≡ all_of key rows
unfolding count_where
in_window-all_of key window start now [] h b = refl
in_window-all_of key window start now (a ∷ rows) h b =
    ground (arith, h.0, in_window-all_of key window start now rows h.1 b)

all_of-delete_old :
    (key : Text) (window start now : ℕ) (rows : List Attempt)
    → Since key start rows
    → now ≤ start + window
    → all_of key (delete_where (is_old window now) rows) ≡ all_of key rows
unfolding count_where delete_where
all_of-delete_old key window start now [] h b = refl
all_of-delete_old key window start now (a ∷ rows) h b =
    ground (arith, h.0, all_of-delete_old key window start now rows h.1 b)

Since-record_attempt :
    (key : Text) (limit window start now : ℕ) (rows : List Attempt)
    → Since key start rows
    → start ≤ now
    → Since key start (record_attempt key limit window now rows).1
unfolding record_attempt
Since-record_attempt key limit window start now rows h lo =
    let old = is_old window now in
    let kept : Since key start (delete_where old rows) =
      All-map (delete_where old rows) (λ a e. e.0) (All-delete_where _ old rows h) in
    elim (Bool-cases (leb limit (in_window key window now (delete_where old rows)))) [
      | inl full ↦ rw full kept
      | inr room ↦ rw room (
          All-append _ (delete_where old rows) (record { key = key; occurred_at = now } ∷ []) kept
            ((λ _. lo), tt))
    ]

all_of-record_attempt :
    (key : Text) (limit window start now : ℕ) (rows : List Attempt)
    → Since key start rows
    → now ≤ start + window
    → all_of key (record_attempt key limit window now rows).1
      ≡ (if ltb (all_of key rows) limit then suc (all_of key rows) else all_of key rows)
unfolding record_attempt count_where
all_of-record_attempt key limit window start now rows h hi =
    let old = is_old window now in
    let a : Attempt = record { key = key; occurred_at = now } in
    ground (
      arith,
      in_window-delete_old key window now rows,
      in_window-all_of key window start now rows h hi,
      all_of-delete_old key window start now rows h hi,
      count_where-append (λ b. b.key == key) (delete_where old rows) (a ∷ []),
      text_beq_refl key,
    )

-- Of attempts of one key that all fall within `window` seconds of `start`, where the recorded ones of
-- the key are not older than `start` either, exactly the first ones that `limit` leaves room for
-- are let through.
pub accepted_burst :
    (key : Text) (limit window start : ℕ) (times : List ℕ) (rows : List Attempt)
    → All (λ t. (start ≤ t) × (t ≤ start + window)) times
    → Since key start rows
    → accepted key limit window times rows ≡ min (limit - all_of key rows) (length times)
unfolding accepted
accepted_burst key limit window start [] rows ts h = omega arith
accepted_burst key limit window start (now ∷ times) rows ts h =
    let rows' = (record_attempt key limit window now rows).1 in
    ground (
      arith,
      record_attempt_lem key limit window now rows,
      in_window-all_of key window start now rows h ts.0.1,
      all_of-record_attempt key limit window start now rows h ts.0.1,
      accepted_burst key limit window start times rows' ts.1
          (Since-record_attempt key limit window start now rows h ts.0.0),
    )
