-- ===== src/Plan/Split.antt =====
-- The blocks of `split_minutes` add up to the total.
use canvas_watcher.Base.{
  ℕ, zero, suc, ◌+◌, ◌-◌, ◌≤◌, ◌<◌, min, some, List, [], ◌∷◌, ◌≡◌, ◌≢◌, refl, arith, ltb, leb,
  select, fetch_one, All, inl, inr, Option-cases, Bool-cases,
}
use canvas_watcher.Base.Table.Rows.{fetch_one_holds, All-fetch_one}
use canvas_watcher.Plan.Blocks.{lengths, last, fit, split_from, split_minutes, standard}

pub sum : List ℕ → ℕ
sum [] = 0
sum (x ∷ xs) = x + sum xs

last_of :
    (p : ℕ) (ps : List ℕ) → All (λ v. 0 < v) (p ∷ ps) → (q : ℕ) × (last (p ∷ ps) ≡ some q) × (0 < q)
unfolding last
last_of p [] h = (p, refl, h.0)
last_of p (q ∷ ps) h = last_of q ps h.1

fit_of :
    (p : ℕ) (ps : List ℕ) (n : ℕ)
    → All (λ v. 0 < v) (p ∷ ps)
    → (v : ℕ) × (fit (p ∷ ps) (suc n) ≡ some v) × (0 < v) × (v ≤ suc n)
unfolding fit
fit_of p ps n h = elim (Option-cases (fetch_one (λ v. leb v (suc n)) (p ∷ ps))) [
  | inr (v, e) ↦ (
    v,
    ground (arith, e),
    All-fetch_one (λ w. 0 < w) (λ w. leb w (suc n)) (p ∷ ps) v h e,
    ground (arith, fetch_one_holds (λ w. leb w (suc n)) (p ∷ ps) v e),
  )
  | inl e ↦
      let (q, l, pos) = last_of p ps h in
      (min (suc n) q, ground (arith, e, l), ground arith, ground arith)
]

split_from-sum :
    (fuel : ℕ) (p : ℕ) (ps : List ℕ) (total : ℕ)
    → total ≤ fuel
    → All (λ v. 0 < v) (p ∷ ps)
    → (bs : List ℕ) × (split_from fuel (p ∷ ps) total ≡ some bs)
      × (sum bs ≡ total)
      × All (λ v. 0 < v) bs
unfolding split_from sum
split_from-sum fuel p ps zero h pos = ([], refl, refl, tt)
split_from-sum zero p ps (suc n) h pos = absurd (ground arith)
split_from-sum (suc fuel) p ps (suc n) h pos =
    let (v, e, v_pos, v_le) = fit_of p ps n pos in
    let (bs, r, s, a) = split_from-sum fuel p ps (suc n - v) (omega arith) pos in
    (v ∷ bs, ground (arith, e, r), omega arith, (v_pos, a))

positive : (xs : List ℕ) → All (λ v. 0 < v) (select (ltb 0) xs)
unfolding select
positive [] = tt
positive (x ∷ xs) = elim (Bool-cases (ltb 0 x)) [
  | inl e ↦ rw e (ground arith, positive xs)
  | inr e ↦ rw e (positive xs)
]

lengths_positive : (ps : List ℕ) → All (λ v. 0 < v) (lengths ps)
unfolding lengths
lengths_positive [] = positive standard
lengths_positive (p ∷ ps) = positive (p ∷ ps)

-- Where a preferred length is positive, or the standard ones are taken, the loop of `split_minutes`
-- ends: there are blocks, none is empty, and they add up to the total.
pub sum-split_minutes :
    (total : ℕ) (preferred : List ℕ)
    → lengths preferred ≢ []
    → (bs : List ℕ) × (split_minutes total preferred ≡ some bs)
      × (sum bs ≡ total)
      × All (λ v. 0 < v) bs
unfolding split_minutes
sum-split_minutes total preferred h = whole (lengths preferred) (lengths_positive preferred) h
  where
    whole :
        (ps : List ℕ)
        → All (λ v. 0 < v) ps
        → ps ≢ []
        → (bs : List ℕ) × (split_from total ps total ≡ some bs)
          × (sum bs ≡ total)
          × All (λ v. 0 < v) bs
    whole [] a ne = absurd (ne refl)
    whole (p ∷ ps) a ne = split_from-sum total p ps total (omega arith) a
