-- ===== src/Calendar/Merge.antt =====
-- What `merge_busy` makes of the busy intervals.
use canvas_watcher.Base.{
  ℕ, ◌+◌, ◌*◌, ◌≤◌, ◌<◌, true, ◌||◌, List, [], ◌∷◌, map, if◌then◌else◌, ◌≡◌, refl, sym, ◌∙◌, arith,
  Bool-cases, inl, inr,
}
use canvas_watcher.Calendar.Intervals.{
  Interval, before, insert_sorted, sorted, joins, joined, merge_from, merge_rows, merge_busy,
  minute, covers, covered,
}

covered-insert_sorted :
    (t : ℕ) (x : Interval) (ys : List Interval)
    → covered t (insert_sorted x ys) ≡ (covers t x || covered t ys)
unfolding covered insert_sorted
covered-insert_sorted t x [] = refl
covered-insert_sorted t x (y ∷ ys) = ground (arith, covered-insert_sorted t x ys)

covered-sorted : (t : ℕ) (xs : List Interval) → covered t (sorted xs) ≡ covered t xs
unfolding covered sorted
covered-sorted t [] = refl
covered-sorted t (x ∷ xs) =
    ground (arith, covered-insert_sorted t x (sorted xs), covered-sorted t xs)

-- Each row starts no earlier than the one before it.
abbrev Ascending : ℕ → List Interval → Type 0
Ascending lo [] = Unit {0}
Ascending lo (x ∷ xs) = (lo ≤ x.start) × Ascending x.start xs

Ascending-insert_sorted :
    (lo : ℕ) (x : Interval) (ys : List Interval)
    → lo ≤ x.start
    → Ascending lo ys
    → Ascending lo (insert_sorted x ys)
unfolding insert_sorted
Ascending-insert_sorted lo x [] h k = (h, tt)
Ascending-insert_sorted lo x (y ∷ ys) h k = elim (Bool-cases (before y x)) [
  | inl e ↦ rw e (k.0, Ascending-insert_sorted y.start x ys (ground arith) k.1)
  | inr e ↦ rw e (h, (ground arith, k.1))
]

Ascending-sorted : (xs : List Interval) → Ascending 0 (sorted xs)
unfolding sorted
Ascending-sorted [] = tt
Ascending-sorted (x ∷ xs) =
    Ascending-insert_sorted 0 x (sorted xs) (omega arith) (Ascending-sorted xs)

-- Nothing busy is lost.
covered-merge_from :
    (t gap : ℕ) (p : Interval) (rest : List Interval)
    → Ascending p.start rest
    → (covers t p || covered t rest) ≡ true
    → covered t (merge_from gap p rest) ≡ true
unfolding covered merge_from
covered-merge_from t gap p [] a h = h
covered-merge_from t gap p (c ∷ rest) a h = elim (Bool-cases (joins gap p c)) [
  | inl e ↦ rw e (
      covered-merge_from t gap (joined p c) rest (weaken p.start c.start rest a.0 a.1)
        (ground (arith, a.0)))
  | inr e ↦ rw e (keep (covered-merge_from t gap c rest a.1))
]
  where
    weaken : (lo hi : ℕ) (rows : List Interval) → lo ≤ hi → Ascending hi rows → Ascending lo rows
    weaken lo hi [] l b = tt
    weaken lo hi (x ∷ xs) l b = (omega arith, b.1)

    keep :
        ((covers t c || covered t rest) ≡ true → covered t (merge_from gap c rest) ≡ true)
        → (covers t p || covered t (merge_from gap c rest)) ≡ true
    keep ih = ground (arith, ih)

-- A class interval with the gap behind it that may be bridged.
abbrev pub bridged : ℕ → Interval → Interval
bridged gap row = if row.is_class then record row { end = row.end + gap * minute } else row

covers-joined :
    (t gap : ℕ) (p c : Interval)
    → joins gap p c ≡ true
    → covers t (bridged gap (joined p c)) ≡ true
    → (covers t (bridged gap p) || covers t (bridged gap c)) ≡ true
covers-joined t gap p c j h = ground arith

merge_from-covered :
    (t gap : ℕ) (p : Interval) (rest : List Interval)
    → covered t (merge_from gap p rest) ≡ true
    → (covers t (bridged gap p) || covered t (map (bridged gap) rest)) ≡ true
unfolding covered merge_from
merge_from-covered t gap p [] h = ground arith
merge_from-covered t gap p (c ∷ rest) h = ground (
  arith,
  covers-joined t gap p c,
  merge_from-covered t gap (joined p c) rest,
  merge_from-covered t gap c rest,
)

covered-map-sorted :
    (t gap : ℕ) (xs : List Interval)
    → covered t (map (bridged gap) (sorted xs)) ≡ covered t (map (bridged gap) xs)
unfolding covered sorted
covered-map-sorted t gap [] = refl
covered-map-sorted t gap (x ∷ xs) =
    ground (arith, inserted x (sorted xs), covered-map-sorted t gap xs)
  where
    inserted :
        (y : Interval) (ys : List Interval)
        → covered t (map (bridged gap) (insert_sorted y ys))
          ≡ (covers t (bridged gap y) || covered t (map (bridged gap) ys))
    inserted y [] = unfold insert_sorted in refl
    inserted y (z ∷ ys) = unfold insert_sorted in ground (arith, inserted y ys)

-- Merging loses no busy instant.
pub merge_busy_keeps :
    (t gap : ℕ) (busy : List Interval)
    → covered t busy ≡ true
    → covered t (merge_busy gap busy) ≡ true
unfolding merge_busy
merge_busy_keeps t gap busy h =
    keeps (sorted busy) (Ascending-sorted busy) (covered-sorted t busy ∙ h)
  where
    keeps :
        (rows : List Interval)
        → Ascending 0 rows
        → covered t rows ≡ true
        → covered t (merge_rows gap rows) ≡ true
    keeps [] a h = h
    keeps (x ∷ xs) a h = covered-merge_from t gap x xs a.1 (unfold covered in h)

-- An instant that merging counts as busy lies in a busy interval, or in less than the gap behind a
-- class.
pub merge_busy_adds :
    (t gap : ℕ) (busy : List Interval)
    → covered t (merge_busy gap busy) ≡ true
    → covered t (map (bridged gap) busy) ≡ true
unfolding merge_busy
merge_busy_adds t gap busy h = sym (covered-map-sorted t gap busy) ∙ adds (sorted busy) h
  where
    adds :
        (rows : List Interval)
        → covered t (merge_rows gap rows) ≡ true
        → covered t (map (bridged gap) rows) ≡ true
    adds [] h = h
    adds (x ∷ xs) h = unfold covered in merge_from-covered t gap x xs h

-- Each row ends before the next one starts.
abbrev pub Separated : List Interval → Type 0
Separated [] = Unit {0}
Separated (x ∷ []) = Unit {0}
Separated (x ∷ y ∷ rest) = (x.end < y.start) × Separated (y ∷ rest)

merge_from-Separated :
    (gap : ℕ) (p : Interval) (rest : List Interval)
    → Separated (merge_from gap p rest)
      × ((q : Interval) → q.end < p.start → Separated (q ∷ merge_from gap p rest))
unfolding merge_from
merge_from-Separated gap p [] = (tt, λ q h. (h, tt))
merge_from-Separated gap p (c ∷ rest) = elim (Bool-cases (joins gap p c)) [
  | inl e ↦ rw e (merge_from-Separated gap (joined p c) rest)
  | inr e ↦
      let after : Separated (p ∷ merge_from gap c rest) =
        (merge_from-Separated gap c rest).1 p (ground arith) in
      rw e (after, λ q h. (h, after))
]

-- The merged intervals are in order, and each ends before the next one starts.
pub merge_busy-Separated : (gap : ℕ) (busy : List Interval) → Separated (merge_busy gap busy)
unfolding merge_busy
merge_busy-Separated gap busy = split (sorted busy)
  where
    split : (rows : List Interval) → Separated (merge_rows gap rows)
    split [] = tt
    split (x ∷ xs) = (merge_from-Separated gap x xs).0
