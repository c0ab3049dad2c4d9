-- ===== src/Plan/Examples.antt =====
-- The theorems on plans at concrete inputs.
use canvas_watcher.Base.{
  ltb, if◌then◌else◌, ℕ, ◌+◌, ◌*◌, ◌<◌, none, some, List, [], ◌∷◌, ◌≡◌, ◌≢◌, refl, arith, All,
  Pairwise, inl, select, fetch_one,
}
use canvas_watcher.Plan.Blocks.{
  minute, lengths, last, fit, split_from, split_minutes, Row, place, place_all, place_rows, rebuild,
  Zone, wall, planned,
}
use canvas_watcher.Plan.Split.{sum, sum-split_minutes}
use canvas_watcher.Plan.Places.{Apart}
use canvas_watcher.Plan.Active.{PlanRow, active}
use canvas_watcher.Plan.Stored.{DisjointStored, rebuild-Disjoint}

plan_runs : Unit {0}
unfolding lengths last fit split_from split_minutes place place_all place_rows planned rebuild
    select fetch_one
plan_runs = tt

split_200 : split_minutes 200 [] ≡ some (90 ∷ 90 ∷ 20 ∷ [])
unfolding plan_runs
split_200 = refl

standard_some : lengths [] ≢ []
unfolding plan_runs
standard_some e = cc

sum-split_minutes_example :
    (bs : List ℕ) × (split_minutes 200 [] ≡ some bs) × (sum bs ≡ 200) × All (λ v. 0 < v) bs
sum-split_minutes_example = sum-split_minutes 200 [] standard_some

abbrev windows : List (ℕ × ℕ)
windows = (0, 120 * minute) ∷ (200 * minute, 300 * minute) ∷ []

abbrev essay : Row
essay = record { task_id = 1; remaining = 150; due_at = some (260 * minute); cutoff = none }

abbrev hour : ℕ
hour = 60 * minute

-- A zone six hours behind UTC, and one whose clocks go from 2 to 3 in the night.
abbrev winter : Zone
winter w = w.at + 6 * hour

abbrev spring : Zone
spring w = if ltb w.at (3 * hour) then w.at + 6 * hour else w.at + 5 * hour

plan_of_essay :
    rebuild winter windows (wall 10) (essay ∷ [])
    ≡ record { task_id = 1; start_at = 200 * minute + 6 * hour; end_at = 260 * minute + 6 * hour }
      ∷ record { task_id = 1; start_at = 10 + 6 * hour; end_at = 10 + 90 * minute + 6 * hour }
      ∷ []
unfolding plan_runs
plan_of_essay = refl

-- Across the change of the clocks the second block is stored from 8:00, before the first ends at 8:50.
abbrev long_essay : Row
long_essay = record { task_id = 1; remaining = 150; due_at = none; cutoff = none }

blocks_overlap :
    rebuild spring ((80 * minute, 300 * minute) ∷ []) (wall 0) (long_essay ∷ [])
    ≡ record { task_id = 1; start_at = 8 * hour; end_at = 9 * hour }
      ∷ record { task_id = 1; start_at = 440 * minute; end_at = 530 * minute }
      ∷ []
unfolding plan_runs
blocks_overlap = refl

windows-Apart : Pairwise (λ v w. Apart v.0 v.1 w.0 w.1) windows
windows-Apart = ((inl (omega arith), tt), (tt, tt))

rebuild-Disjoint_example :
    Pairwise (DisjointStored winter) (rebuild winter windows (wall 10) (essay ∷ []))
rebuild-Disjoint_example =
    rebuild-Disjoint winter windows (wall 10) (300 * minute) (essay ∷ []) windows-Apart
      (omega arith, (omega arith, tt)) (λ v w lo le hi. omega (arith, le))

abbrev old : PlanRow
old = record { id = 1; window_start = 0; window_end = 10; status = active }
