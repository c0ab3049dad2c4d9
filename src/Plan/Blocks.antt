-- ===== src/Plan/Blocks.antt =====
-- backend/app/services/planner.py: `split_minutes` and the placing loop of `Planner.rebuild`. The loop
-- reckons and compares on the wall clock of UIUC_TZ, in microseconds, and stores `as_utc` of what it
-- finds; `as_utc` is an argument, as the time zone's data is a library's. The windows of
-- `parse_availability`, the rows in the order of their SELECT, the due dates on the wall clock and
-- `planning_cutoff` are arguments, too.
use canvas_watcher.Base.{
  ℕ, zero, suc, ◌+◌, ◌-◌, ◌*◌, min, Bool, true, false, ◌&&◌, Option, none, some, List, [], ◌∷◌, map,
  ltb, leb, if◌then◌else◌, select, fetch_one,
}

abbrev pub standard : List ℕ
standard = 90 ∷ 60 ∷ 45 ∷ []

-- `preferred or [90, 60, 45]`, and of those the positive ones
unfoldable pub lengths : List ℕ → List ℕ
unfolding select
lengths [] = select (ltb 0) standard
lengths (p ∷ ps) = select (ltb 0) (p ∷ ps)

-- `preferred[-1]`; `none` is the raise.
unfoldable pub last : List ℕ → Option ℕ
last [] = none
last (p ∷ []) = some p
last (p ∷ q ∷ ps) = last (q ∷ ps)

abbrev least : ℕ → Option ℕ → Option ℕ
least remaining none = none
least remaining (some p) = some (min remaining p)

unfoldable pub fit : List ℕ → ℕ → Option ℕ
unfolding last fetch_one
fit preferred remaining = elim (fetch_one (λ v. leb v remaining) preferred) [
  | some v ↦ some v
  | none ↦ least remaining (last preferred)
]

abbrev pub cons : ℕ → Option (List ℕ) → Option (List ℕ)
cons b none = none
cons b (some bs) = some (b ∷ bs)

-- The loop, on fuel: `none` where it runs out, or where the loop raises.
unfoldable pub split_from : ℕ → List ℕ → ℕ → Option (List ℕ)
unfolding fit
split_from fuel preferred zero = some []
split_from zero preferred (suc n) = none
split_from (suc fuel) preferred (suc n) = elim (fit preferred (suc n)) [
  | none ↦ none
  | some v ↦ cons v (split_from fuel preferred (suc n - v))
]

-- A negative total is no minutes, as zero is; it is not modelled. As much fuel as minutes is enough.
unfoldable pub split_minutes : ℕ → List ℕ → Option (List ℕ)
unfolding split_from lengths
split_minutes total preferred = split_from total (lengths preferred) total

abbrev pub minute : ℕ
minute = 60000000

-- A reading of the wall clock; `fold` tells the second of two equal readings, where the clocks go
-- back. Sums and windows have none.
pub record Wall : Type 0 where
  pub at : ℕ
  pub fold : Bool

abbrev pub wall : ℕ → Wall
wall t = record { at = t; fold = false }

-- `as_utc`, of readings in UIUC_TZ
abbrev pub Zone : Type 0
Zone = Wall → ℕ

-- A window with its cursor.
pub record Slot : Type 0 where
  pub start : ℕ
  pub end : ℕ
  pub cursor : Wall

-- A block before it is stored, and as it is stored.
pub record Planned : Type 0 where
  pub task_id : ℕ
  pub start : Wall
  pub end : ℕ

pub record PlanBlock : Type 0 where
  pub task_id : ℕ
  pub start_at : ℕ
  pub end_at : ℕ

-- What is read of a task and its analysis; `remaining` is the rounded effort in minutes, and
-- `cutoff` is `planning_cutoff` of the local due date.
pub record Row : Type 0 where
  pub task_id : ℕ
  pub remaining : ℕ
  pub due_at : Option ℕ
  pub cutoff : Option ℕ

abbrev pub deadline : Row → Option ℕ
deadline row = elim row.due_at [ some t ↦ some t | none ↦ row.cutoff ]

abbrev pub in_time : ℕ → Option ℕ → Bool
in_time end none = true
in_time end (some t) = leb end t

abbrev pub fits : ℕ → Option ℕ → Slot → Bool
fits length due slot =
    leb (slot.cursor.at + length * minute) slot.end
    && in_time (slot.cursor.at + length * minute) due

abbrev pub advance : ℕ → Slot → Slot
advance length slot = record slot { cursor = wall (slot.cursor.at + length * minute + 10 * minute) }

abbrev pub behind : Slot → Option (Wall × List Slot) → Option (Wall × List Slot)
behind s none = none
behind s (some (c, ss)) = some (c, s ∷ ss)

-- The loop over the windows: the start of the block, and the cursors behind it.
unfoldable pub place : ℕ → Option ℕ → List Slot → Option (Wall × List Slot)
place length due [] = none
place length due (s ∷ ss) =
    let rest = place length due ss in
    if fits length due s then some (s.cursor, advance length s ∷ ss) else behind s rest

abbrev pub block_at : ℕ → Wall → ℕ → Planned
block_at task_id start length = record {
  task_id = task_id;
  start = start;
  end = start.at + length * minute;
}

abbrev pub stored : Zone → Planned → PlanBlock
stored as_utc p = record {
  task_id = p.task_id;
  start_at = as_utc p.start;
  end_at = as_utc (wall p.end);
}

-- The loop over the lengths of a task, which ends at the first that has no place. The blocks are
-- listed with the newest in front.
unfoldable pub place_all : Row → List ℕ → List Slot → List Planned → List Slot × List Planned
unfolding place
place_all row [] slots blocks = (slots, blocks)
place_all row (length ∷ rest) slots blocks = elim (place length (deadline row) slots) [
  | none ↦ (slots, blocks)
  | some (c, slots') ↦ place_all row rest slots' (block_at row.task_id c length ∷ blocks)
]

abbrev pub or_empty : Option (List ℕ) → List ℕ
or_empty none = []
or_empty (some bs) = bs

-- `split_minutes` of the standard lengths never raises.
unfoldable pub place_rows : List Row → List Slot → List Planned → List Slot × List Planned
unfolding place_all split_minutes
place_rows [] slots blocks = (slots, blocks)
place_rows (row ∷ rows) slots blocks =
    let r = place_all row (or_empty (split_minutes row.remaining [])) slots blocks in
    place_rows rows r.0 r.1

-- `max(window.start, now)`, which is the first where they are equal
abbrev pub slot_of : Wall → ℕ × ℕ → Slot
slot_of now (start, end) = record {
  start = start;
  end = end;
  cursor = if ltb start now.at then now else wall start;
}

-- The blocks that the loops find, and the blocks of the new plan.
unfoldable pub planned : List (ℕ × ℕ) → Wall → List Row → List Planned
unfolding place_rows
planned windows now rows = (place_rows rows (map (slot_of now) windows) []).1

unfoldable pub rebuild : Zone → List (ℕ × ℕ) → Wall → List Row → List PlanBlock
unfolding planned
rebuild as_utc windows now rows = map (stored as_utc) (planned windows now rows)
