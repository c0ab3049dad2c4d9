-- ===== src/Plan/Places.antt =====
-- The blocks that the loops of a plan find do not overlap on the wall clock.
use canvas_watcher.Base.{
  ℕ, ◌≤◌, true, Option, some, List, [], ◌∷◌, map, ◌≡◌, arith, All, Pairwise, ◌⊎◌, inl, inr,
  Option-cases, Bool-cases,
}
use canvas_watcher.Plan.Blocks.{
  Slot, Planned, Row, deadline, fits, advance, place, block_at, place_all, or_empty, split_minutes,
  place_rows, slot_of, planned, Wall,
}

-- One of the two ends before the other starts.
abbrev pub Apart : ℕ → ℕ → ℕ → ℕ → Type 0
Apart s e s' e' = (e ≤ s') ⊎ (e' ≤ s)

abbrev pub DisjointBlocks : Planned → Planned → Type 0
DisjointBlocks a b = Apart a.start.at a.end b.start.at b.end

abbrev pub DisjointSlots : Slot → Slot → Type 0
DisjointSlots s t = Apart s.start s.end t.start t.end

-- The rest of the window is not taken.
abbrev Free : Slot → Planned → Type 0
Free s b = Apart b.start.at b.end s.cursor.at s.end

abbrev Ready : List Planned → Slot → Type 0
Ready blocks s = (s.start ≤ s.cursor.at) × All (Free s) blocks

All-to : {A : Type 0} (P Q : A → Type 0) (xs : List A) → ((x : A) → P x → Q x) → All P xs → All Q xs
All-to P Q [] k h = tt
All-to P Q (x ∷ xs) k h = (k x h.0, All-to P Q xs k h.1)

-- What a place comes from, and what it leaves.
record Placed (length task_id : ℕ) (c : Wall) (slots' : List Slot) (blocks : List Planned)
    : Type 0 where
  apart : All (DisjointBlocks (block_at task_id c length)) blocks
  ready : All (Ready (block_at task_id c length ∷ blocks)) slots'
  disjoint : Pairwise DisjointSlots slots'

place-Placed :
    (length task_id : ℕ) (due : Option ℕ) (slots : List Slot) (blocks : List Planned) (c : Wall)
    (slots' : List Slot)
    → All (Ready blocks) slots
    → Pairwise DisjointSlots slots
    → place length due slots ≡ some (c, slots')
    → Placed length task_id c slots' blocks
      × ((s : Slot) → All (DisjointSlots s) slots → All (DisjointSlots s) slots')
      × ((s : Slot)
          → s.start ≤ s.cursor.at
          → All (DisjointSlots s) slots
          → Free s (block_at task_id c length))
unfolding place
place-Placed length task_id due [] blocks c slots' r d h = cc
place-Placed length task_id due (t ∷ ts) blocks c slots' r d h =
    elim (Bool-cases (fits length due t)) [
      | inl e ↦
          let ec : c ≡ t.cursor = ground arith in
          let es : slots' ≡ advance length t ∷ ts = ground arith in
          rw (ec, es)
            (
              record {
                apart = All-to (Free t) (DisjointBlocks n) blocks (λ b f. ground arith) r.0.1;
                ready = (
                  (
                    ground (arith, r.0.0),
                    (
                      ground arith,
                      All-to (Free t) (Free (advance length t)) blocks (λ b f. ground arith) r.0.1,
                    ),
                  ),
                  others e ts d.0 r.1,
                );
                disjoint = d;
              },
              λ s d'. d',
              λ s le d'. ground (arith, le, d'.0, e, r.0.0),
            )
      | inr e ↦ elim (Option-cases (place length due ts)) [
        | inl none_left ↦ absurd (ground arith)
        | inr ((c', ss), found) ↦
            let ec : c ≡ c' = ground arith in
            let es : slots' ≡ t ∷ ss = ground arith in
            let (p, keep, free) = place-Placed length task_id due ts blocks c' ss r.1 d.1 found in
            rw (ec, es)
              (
                record {
                  apart = p.apart;
                  ready = ((r.0.0, (free t r.0.0 d.0, r.0.1)), p.ready);
                  disjoint = (keep t d.0, p.disjoint);
                },
                λ s d'. (d'.0, keep s d'.1),
                λ s le d'. free s le d'.1,
              )
      ]
    ]
  where
    n : Planned
    n = block_at task_id t.cursor length

    others :
        fits length due t ≡ true
        → (us : List Slot) → All (DisjointSlots t) us
        → All (Ready blocks) us
        → All (Ready (n ∷ blocks)) us
    others e [] d r = tt
    others e (u ∷ us) a ready = (
      (ready.0.0, (ground (arith, e, a.0, ready.0.0, r.0.0), ready.0.1)),
      others e us a.1 ready.1,
    )

record FreePlan (r : List Slot × List Planned) : Type 0 where
  ready : All (Ready r.1) r.0
  slots_disjoint : Pairwise DisjointSlots r.0
  blocks_disjoint : Pairwise DisjointBlocks r.1

place_all-FreePlan :
    (row : Row) (lengths : List ℕ) (slots : List Slot) (blocks : List Planned)
    → FreePlan (slots, blocks)
    → FreePlan (place_all row lengths slots blocks)
unfolding place_all
place_all-FreePlan row [] slots blocks f = f
place_all-FreePlan row (length ∷ rest) slots blocks f =
    elim (Option-cases (place length (deadline row) slots)) [
      | inl e ↦ ground (arith, e, f)
      | inr ((c, slots'), e) ↦
          let (p, keep, free) =
            place-Placed length row.task_id (deadline row) slots blocks c slots' f.ready
              f.slots_disjoint e in
          ground (
            arith,
            e,
            place_all-FreePlan row rest slots' (block_at row.task_id c length ∷ blocks) (record {
              ready = p.ready;
              slots_disjoint = p.disjoint;
              blocks_disjoint = (p.apart, f.blocks_disjoint);
            }),
          )
    ]

place_rows-FreePlan :
    (rows : List Row) (slots : List Slot) (blocks : List Planned)
    → FreePlan (slots, blocks)
    → FreePlan (place_rows rows slots blocks)
unfolding place_rows
place_rows-FreePlan [] slots blocks f = f
place_rows-FreePlan (row ∷ rows) slots blocks f =
    let lengths = or_empty (split_minutes row.remaining []) in
    let r = place_all row lengths slots blocks in
    place_rows-FreePlan rows r.0 r.1 (place_all-FreePlan row lengths slots blocks f)

-- Where the windows do not overlap, no two blocks overlap on the wall clock.
pub planned-Disjoint :
    (windows : List (ℕ × ℕ)) (now : Wall) (rows : List Row)
    → Pairwise (λ v w. Apart v.0 v.1 w.0 w.1) windows
    → Pairwise DisjointBlocks (planned windows now rows)
unfolding planned
planned-Disjoint windows now rows d =
    (place_rows-FreePlan rows (map (slot_of now) windows) [] (record {
      ready = ready windows;
      slots_disjoint = disjoint windows d;
      blocks_disjoint = tt;
    })).blocks_disjoint
  where
    ready : (ws : List (ℕ × ℕ)) → All (Ready []) (map (slot_of now) ws)
    ready [] = tt
    ready (w ∷ ws) = ((ground arith, tt), ready ws)

    heads :
        (v : ℕ × ℕ) (ws : List (ℕ × ℕ))
        → All (λ w. Apart v.0 v.1 w.0 w.1) ws
        → All (DisjointSlots (slot_of now v)) (map (slot_of now) ws)
    heads v [] a = tt
    heads v (w ∷ ws) a = (a.0, heads v ws a.1)

    disjoint :
        (ws : List (ℕ × ℕ))
        → Pairwise (λ v w. Apart v.0 v.1 w.0 w.1) ws
        → Pairwise DisjointSlots (map (slot_of now) ws)
    disjoint [] p = tt
    disjoint (w ∷ ws) p = (heads w ws p.0, disjoint ws p.1)
