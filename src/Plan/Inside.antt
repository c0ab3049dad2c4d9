-- ===== src/Plan/Inside.antt =====
-- The blocks that the loops of a plan find lie in the windows, from now on, and end by the deadline of
-- their task.
use canvas_watcher.Base.{
  ℕ, ◌+◌, ◌*◌, ◌≤◌, Bool, true, ◌&&◌, Option, some, List, [], ◌∷◌, map, ◌≡◌, ◌==◌, nat_eq, refl,
  sym, ◌∙◌, arith, leb, any, All, inl, inr, Option-cases, Bool-cases,
}
use canvas_watcher.Plan.Blocks.{
  Slot, Planned, Row, deadline, in_time, block_at, fits, advance, place, place_all, or_empty,
  split_minutes, minute, place_rows, slot_of, planned, Wall,
}

abbrev pub inside : ℕ → ℕ → Slot → Bool
inside start end s = leb s.start start && leb end s.end

abbrev Started : Wall → Slot → Type 0
Started now s = (s.start ≤ s.cursor.at) × (now.at ≤ s.cursor.at)

record Inside (now : Wall) (length : ℕ) (c : Wall) (due : Option ℕ) (slots slots' : List Slot)
    : Type 0 where
  found : any (inside c.at (c.at + length * minute)) slots ≡ true
  from_now : now.at ≤ c.at
  timely : in_time (c.at + length * minute) due ≡ true
  started : All (Started now) slots'
  same : (a b : ℕ) → any (inside a b) slots' ≡ any (inside a b) slots

place-Inside :
    (now : Wall) (length : ℕ) (due : Option ℕ) (slots : List Slot) (c : Wall) (slots' : List Slot)
    → All (Started now) slots
    → place length due slots ≡ some (c, slots')
    → Inside now length c due slots slots'
unfolding place any
place-Inside now length due [] c slots' h e = cc
place-Inside now length due (t ∷ ts) c slots' h e = elim (Bool-cases (fits length due t)) [
  | inl fit ↦
      let ec : c ≡ t.cursor = ground arith in
      let es : slots' ≡ advance length t ∷ ts = ground arith in
      rw (ec, es)
        (record {
          found = ground (arith, h.0, fit);
          from_now = h.0.1;
          timely = ground (arith, fit);
          started = ((ground (arith, h.0), ground (arith, h.0)), h.1);
          same = λ a b. refl;
        })
  | inr full ↦ elim (Option-cases (place length due ts)) [
    | inl none_left ↦ absurd (ground arith)
    | inr ((c', ss), found) ↦
        let ec : c ≡ c' = ground arith in
        let es : slots' ≡ t ∷ ss = ground arith in
        let i = place-Inside now length due ts c' ss h.1 found in
        rw (ec, es)
          (record {
            found = ground (arith, i.found);
            from_now = i.from_now;
            timely = i.timely;
            started = (h.0, i.started);
            same = λ a b. ground (arith, i.same a b);
          })
  ]
]

-- The block lies in one of the slots and not before now, and ends by the deadline of a row of its task.
pub record WellPlaced (slots : List Slot) (now : Wall) (rows : List Row) (b : Planned)
    : Type 0 where
  pub in_slot : any (inside b.start.at b.end) slots ≡ true
  pub from_now : now.at ≤ b.start.at
  pub forward : b.start.at ≤ b.end
  pub timely : any (λ r. r.task_id == b.task_id && in_time b.end (deadline r)) rows ≡ true

-- What holds of the cursors and blocks so far; `rows` are all the rows of the plan.
record KeptPlan (slots : List Slot) (now : Wall) (rows : List Row) (r : List Slot × List Planned)
    : Type 0 where
  started : All (Started now) r.0
  same : (a b : ℕ) → any (inside a b) r.0 ≡ any (inside a b) slots
  placed : All (WellPlaced slots now rows) r.1

place_all-KeptPlan :
    (slots : List Slot) (now : Wall) (rows : List Row) (row : Row) (lengths : List ℕ)
    (ss : List Slot) (blocks : List Planned)
    → ((p : Row → Bool) → p row ≡ true → any p rows ≡ true)
    → KeptPlan slots now rows (ss, blocks)
    → KeptPlan slots now rows (place_all row lengths ss blocks)
unfolding place_all
place_all-KeptPlan slots now rows row [] ss blocks mem k = k
place_all-KeptPlan slots now rows row (length ∷ rest) ss blocks mem k =
    elim (Option-cases (place length (deadline row) ss)) [
      | inl e ↦ ground (arith, e, k)
      | inr ((c, ss'), e) ↦
          let i = place-Inside now length (deadline row) ss c ss' k.started e in
          ground (
            arith,
            e,
            place_all-KeptPlan slots now rows row rest ss' (block_at row.task_id c length ∷ blocks)
                mem
                (record {
                  started = i.started;
                  same = λ a b. i.same a b ∙ k.same a b;
                  placed = (
                    record {
                      in_slot = sym (k.same c.at (c.at + length * minute)) ∙ i.found;
                      from_now = i.from_now;
                      forward = omega arith;
                      timely =
                          mem
                            (λ r.
                              r.task_id == row.task_id
                              && in_time (c.at + length * minute) (deadline r))
                            (ground (arith, i.timely));
                    },
                    k.placed,
                  );
                }),
          )
    ]

place_rows-KeptPlan :
    (slots : List Slot) (now : Wall) (all_rows rows : List Row) (ss : List Slot)
    (blocks : List Planned)
    → ((p : Row → Bool) → any p rows ≡ true → any p all_rows ≡ true)
    → KeptPlan slots now all_rows (ss, blocks)
    → KeptPlan slots now all_rows (place_rows rows ss blocks)
unfolding place_rows
place_rows-KeptPlan slots now all_rows [] ss blocks mem k = k
place_rows-KeptPlan slots now all_rows (row ∷ rows) ss blocks mem k =
    let lengths = or_empty (split_minutes row.remaining []) in
    let r = place_all row lengths ss blocks in
    place_rows-KeptPlan slots now all_rows rows r.0 r.1 (λ p h. mem p (later p h))
      (place_all-KeptPlan slots now all_rows row lengths ss blocks (λ p h. mem p (first p h)) k)
  where
    first : (p : Row → Bool) → p row ≡ true → any p (row ∷ rows) ≡ true
    first p h = unfold any in ground (arith, h)

    later : (p : Row → Bool) → any p rows ≡ true → any p (row ∷ rows) ≡ true
    later p h = unfold any in ground (arith, h)

-- On the wall clock, every block lies in a window, starts at `now` or later, and ends by the deadline of a
-- row of its task, where that has one.
pub planned-WellPlaced :
    (windows : List (ℕ × ℕ)) (now : Wall) (rows : List Row)
    → All (WellPlaced (map (slot_of now) windows) now rows) (planned windows now rows)
unfolding planned
planned-WellPlaced windows now rows =
    (place_rows-KeptPlan (map (slot_of now) windows) now rows rows (map (slot_of now) windows) []
      (λ p h. h) (record { started = begin windows; same = λ a b. refl; placed = tt })).placed
  where
    begin : (ws : List (ℕ × ℕ)) → All (Started now) (map (slot_of now) ws)
    begin [] = tt
    begin (w ∷ ws) = ((ground arith, ground arith), begin ws)
