-- ===== src/Plan/Stored.antt =====
-- The blocks of a plan as they are stored, in UTC.
use canvas_watcher.Base.{
  ℕ, ◌≤◌, true, List, [], ◌∷◌, map, ◌≡◌, arith, any, All, All-map, Pairwise, inl, inr, Bool-cases,
}
use canvas_watcher.Plan.Blocks.{
  Wall, wall, Zone, Planned, PlanBlock, Row, Slot, stored, slot_of, planned, rebuild,
}
use canvas_watcher.Plan.Places.{Apart, DisjointBlocks, planned-Disjoint}
use canvas_watcher.Plan.Inside.{WellPlaced, inside, planned-WellPlaced}

-- What a stored block comes from.
pub record FromPlanned (as_utc : Zone) (slots : List Slot) (now : Wall) (rows : List Row)
    (b : PlanBlock) : Type 0 where
  pub source : Planned
  pub placed : WellPlaced slots now rows source
  pub converted : b ≡ stored as_utc source

module _ (as_utc : Zone) where
  -- In the stretch of time the clock's readings follow UTC.
  abbrev pub Steady : ℕ → ℕ → Type 0
  Steady lo hi = (v w : Wall) → lo ≤ v.at → v.at ≤ w.at → w.at ≤ hi → as_utc v ≤ as_utc w

  abbrev pub DisjointStored : PlanBlock → PlanBlock → Type 0
  DisjointStored a b = Apart a.start_at a.end_at b.start_at b.end_at

  abbrev Within : ℕ → ℕ → Planned → Type 0
  Within lo hi p = (lo ≤ p.start.at) × (p.start.at ≤ p.end) × (p.end ≤ hi)

  within_windows :
      (start end hi : ℕ) (now : Wall) (ws : List (ℕ × ℕ))
      → All (λ w. w.1 ≤ hi) ws
      → any (inside start end) (map (slot_of now) ws) ≡ true
      → end ≤ hi
  unfolding any
  within_windows start end hi now [] h e = cc e
  within_windows start end hi now (w ∷ ws) h e =
      elim (Bool-cases (inside start end (slot_of now w))) [
        | inl f ↦ ground (arith, f, h.0)
        | inr f ↦ within_windows start end hi now ws h.1 (ground (arith, f, e))
      ]

  stored-Disjoint :
      (lo hi : ℕ) (p q : Planned)
      → Steady lo hi
      → Within lo hi p
      → Within lo hi q
      → DisjointBlocks p q
      → DisjointStored (stored as_utc p) (stored as_utc q)
  stored-Disjoint lo hi p q s h k (inl e) =
      inl (s (wall p.end) q.start (omega (arith, h)) e (omega (arith, k)))
  stored-Disjoint lo hi p q s h k (inr e) =
      inr (s (wall q.end) p.start (omega (arith, k)) e (omega (arith, h)))

  stored_heads :
      (lo hi : ℕ) (p : Planned) (qs : List Planned)
      → Steady lo hi
      → Within lo hi p
      → All (Within lo hi) qs
      → All (DisjointBlocks p) qs
      → All (DisjointStored (stored as_utc p)) (map (stored as_utc) qs)
  stored_heads lo hi p [] s h k d = tt
  stored_heads lo hi p (q ∷ qs) s h k d =
      (stored-Disjoint lo hi p q s h k.0 d.0, stored_heads lo hi p qs s h k.1 d.1)

  Pairwise-stored :
      (lo hi : ℕ) (ps : List Planned)
      → Steady lo hi
      → All (Within lo hi) ps
      → Pairwise DisjointBlocks ps
      → Pairwise DisjointStored (map (stored as_utc) ps)
  Pairwise-stored lo hi [] s h d = tt
  Pairwise-stored lo hi (p ∷ ps) s h d =
      (stored_heads lo hi p ps s h.0 h.1 d.0, Pairwise-stored lo hi ps s h.1 d.1)

  -- Where the windows do not overlap on the wall clock, and from `now` to the end of the last of them
  -- its readings are in the order of UTC, as they are where the clocks are not changed, no two blocks
  -- of the new plan overlap as they are stored.
  pub rebuild-Disjoint :
      (windows : List (ℕ × ℕ)) (now : Wall) (hi : ℕ) (rows : List Row)
      → Pairwise (λ v w. Apart v.0 v.1 w.0 w.1) windows
      → All (λ w. w.1 ≤ hi) windows
      → Steady now.at hi
      → Pairwise DisjointStored (rebuild as_utc windows now rows)
  unfolding rebuild
  rebuild-Disjoint windows now hi rows d h s =
      Pairwise-stored now.at hi (planned windows now rows) s
        (All-map (planned windows now rows)
          (λ p k.
            (k.from_now, k.forward, within_windows p.start.at p.end hi now windows h k.in_slot))
          (planned-WellPlaced windows now rows))
        (planned-Disjoint windows now rows d)
