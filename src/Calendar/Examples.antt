-- ===== src/Calendar/Examples.antt =====
-- The theorems on busy intervals at concrete inputs.
use canvas_watcher.Base.{◌∷◌, [], List, map, true, not, ◌&&◌, ◌≡◌, refl, select}
use canvas_watcher.Calendar.Intervals.{
  Interval, span, merge_busy, merge_from, insert_sorted, sorted, cut, cut_all, cut_blocks,
  subtract_intervals, class_gap, covered,
}
use canvas_watcher.Calendar.Merge.{
  merge_busy_keeps, merge_busy_adds, merge_busy-Separated, bridged, Separated,
}
use canvas_watcher.Calendar.Subtract.{covered-subtract_intervals}

-- Two classes with 20 minutes between them, given in the wrong order, and a meeting.
abbrev busy : List Interval
busy =
    record { start = 4800000000; end = 7200000000; is_class = true }
    ∷ record { start = 0; end = 3600000000; is_class = true }
    ∷ span 9000000000 9600000000
    ∷ []

merged :
    merge_busy 30 busy
    ≡ record { start = 0; end = 7200000000; is_class = true } ∷ span 9000000000 9600000000 ∷ []
unfolding merge_busy merge_from insert_sorted sorted
merged = refl

free :
    subtract_intervals (span 3600000000 12000000000 ∷ []) busy
    ≡ span 7200000000 9000000000 ∷ span 9600000000 12000000000 ∷ []
unfolding subtract_intervals merge_busy merge_from insert_sorted sorted cut cut_all cut_blocks
    select
free = refl

is_busy : covered 5000000000 busy ≡ true
unfolding covered
is_busy = refl

in_gap : covered 4000000000 (merge_busy 30 busy) ≡ true
unfolding covered merge_busy merge_from insert_sorted sorted
in_gap = refl

merge_busy_keeps_example : covered 5000000000 (merge_busy 30 busy) ≡ true
merge_busy_keeps_example = merge_busy_keeps 5000000000 30 busy is_busy

merge_busy_adds_example : covered 4000000000 (map (bridged 30) busy) ≡ true
merge_busy_adds_example = merge_busy_adds 4000000000 30 busy in_gap

merge_busy-Separated_example : Separated (merge_busy 30 busy)
merge_busy-Separated_example = merge_busy-Separated 30 busy

covered-subtract_intervals_example :
    covered 8000000000 (subtract_intervals (span 3600000000 12000000000 ∷ []) busy) ≡ (
      covered 8000000000 (span 3600000000 12000000000 ∷ [])
      && not (covered 8000000000 (merge_busy class_gap busy)))
covered-subtract_intervals_example =
    covered-subtract_intervals 8000000000 (span 3600000000 12000000000 ∷ []) busy
