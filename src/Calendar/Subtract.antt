-- ===== src/Calendar/Subtract.antt =====
-- Free time is exactly the available time that is not busy.
use canvas_watcher.Base.{
  ℕ, not, ◌&&◌, ◌||◌, List, [], ◌∷◌, ◌++◌, ltb, select, ◌≡◌, refl, arith, ◌∙◌,
}
use canvas_watcher.Calendar.Intervals.{
  Interval, cut, cut_all, cut_blocks, merge_busy, subtract_intervals, class_gap, covers, covered,
}

covered-append :
    (t : ℕ) (xs ys : List Interval) → covered t (xs ++ ys) ≡ (covered t xs || covered t ys)
unfolding covered
covered-append t [] ys = refl
covered-append t (x ∷ xs) ys = ground (arith, covered-append t xs ys)

covered-cut :
    (t : ℕ) (block slot : Interval)
    → covered t (cut block slot) ≡ (covers t slot && not (covers t block))
unfolding covered cut
covered-cut t block slot = ground arith

covered-cut_all :
    (t : ℕ) (block : Interval) (slots : List Interval)
    → covered t (cut_all block slots) ≡ (covered t slots && not (covers t block))
unfolding covered cut_all
covered-cut_all t block [] = refl
covered-cut_all t block (slot ∷ slots) = ground (
  arith,
  covered-append t (cut block slot) (cut_all block slots),
  covered-cut t block slot,
  covered-cut_all t block slots,
)

covered-cut_blocks :
    (t : ℕ) (blocks slots : List Interval)
    → covered t (cut_blocks blocks slots) ≡ (covered t slots && not (covered t blocks))
unfolding covered cut_blocks
covered-cut_blocks t [] slots = ground arith
covered-cut_blocks t (block ∷ blocks) slots =
    ground (arith, covered-cut_blocks t blocks (cut_all block slots), covered-cut_all t block slots)

covered-nonempty :
    (t : ℕ) (rows : List Interval)
    → covered t (select (λ row. ltb row.start row.end) rows) ≡ covered t rows
unfolding covered select
covered-nonempty t [] = refl
covered-nonempty t (row ∷ rows) = ground (arith, covered-nonempty t rows)

-- An instant is free exactly when it lies in an available interval and in none of the merged busy
-- ones.
pub covered-subtract_intervals :
    (t : ℕ) (available busy : List Interval)
    → covered t (subtract_intervals available busy)
      ≡ (covered t available && not (covered t (merge_busy class_gap busy)))
unfolding subtract_intervals
covered-subtract_intervals t available busy =
    covered-nonempty t (cut_blocks (merge_busy class_gap busy) available)
    ∙ covered-cut_blocks t (merge_busy class_gap busy) available
