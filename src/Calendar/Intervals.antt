-- ===== src/Calendar/Intervals.antt =====
-- The interval arithmetic of backend/app/services/calendar_capacity.py: `merge_busy` and
-- `subtract_intervals`. An instant is a number of microseconds since a fixed day, in UTC.
use canvas_watcher.Base.{
  ℕ, ◌+◌, ◌*◌, Bool, false, ◌&&◌, ◌||◌, List, [], ◌∷◌, ◌++◌, min, max, ltb, leb, nat_beq,
  if◌then◌else◌, select,
}

pub record Interval : Type 0 where
  pub start : ℕ
  pub end : ℕ
  pub is_class : Bool

abbrev pub span : ℕ → ℕ → Interval
span start end = record { start = start; end = end; is_class = false }

abbrev pub minute : ℕ
minute = 60000000

-- `(row.start, row.end)` as a key, compared as tuples are.
abbrev pub before : Interval → Interval → Bool
before a b = ltb a.start b.start || (nat_beq a.start b.start && ltb a.end b.end)

-- `sorted` is stable: the earlier of two rows of one key stays in front.
unfoldable pub insert_sorted : Interval → List Interval → List Interval
insert_sorted x [] = x ∷ []
insert_sorted x (y ∷ ys) = if before y x then y ∷ insert_sorted x ys else x ∷ y ∷ ys

unfoldable pub sorted : List Interval → List Interval
unfolding insert_sorted
sorted [] = []
sorted (x ∷ xs) = insert_sorted x (sorted xs)

-- `current.start <= previous.end or bridge_class_gap`
abbrev pub joins : ℕ → Interval → Interval → Bool
joins class_gap_minutes previous current =
    leb current.start previous.end
    || (previous.is_class
        && current.is_class
        && ltb current.start (previous.end + class_gap_minutes * minute))

abbrev pub joined : Interval → Interval → Interval
joined previous current = record {
  start = previous.start;
  end = max previous.end current.end;
  is_class = previous.is_class && current.is_class;
}

-- The loop of `merge_busy`: `previous` is the last row of `merged`, and the rows before it are
-- not touched any more.
unfoldable pub merge_from : ℕ → Interval → List Interval → List Interval
merge_from gap previous [] = previous ∷ []
merge_from gap previous (current ∷ rest) =
    let one = merge_from gap (joined previous current) rest in
    let two = previous ∷ merge_from gap current rest in
    if joins gap previous current then one else two

abbrev pub merge_rows : ℕ → List Interval → List Interval
merge_rows gap [] = []
merge_rows gap (x ∷ xs) = merge_from gap x xs

unfoldable pub merge_busy : ℕ → List Interval → List Interval
unfolding sorted merge_from
merge_busy gap intervals = merge_rows gap (sorted intervals)

-- What one busy block leaves of a slot.
unfoldable pub cut : Interval → Interval → List Interval
cut block slot =
    if leb block.end slot.start || leb slot.end block.start
    then slot ∷ []
    else (if ltb slot.start block.start
        then span slot.start (min block.start slot.end) ∷ []
        else [])
      ++ (if ltb block.end slot.end then span (max block.end slot.start) slot.end ∷ [] else [])

unfoldable pub cut_all : Interval → List Interval → List Interval
unfolding cut
cut_all block [] = []
cut_all block (slot ∷ slots) = cut block slot ++ cut_all block slots

unfoldable pub cut_blocks : List Interval → List Interval → List Interval
unfolding cut_all
cut_blocks [] remaining = remaining
cut_blocks (block ∷ blocks) remaining = cut_blocks blocks (cut_all block remaining)

abbrev pub class_gap : ℕ
class_gap = 30

unfoldable pub subtract_intervals : List Interval → List Interval → List Interval
unfolding merge_busy cut_blocks select
subtract_intervals available busy =
    select (λ row. ltb row.start row.end) (cut_blocks (merge_busy class_gap busy) available)

-- Whether an instant lies in an interval, or in one of a list.
abbrev pub covers : ℕ → Interval → Bool
covers t row = leb row.start t && ltb t row.end

unfoldable pub covered : ℕ → List Interval → Bool
covered t [] = false
covered t (row ∷ rows) = covers t row || covered t rows
