-- ===== src/Auth/Decided.antt =====
-- The end of a sign-in attempt: a decided attempt stays as it is, whatever is called.
use canvas_watcher.Base.{
  ℕ, ◌+◌, Bool, true, false, Option, some, List, [], ◌∷◌, Text, ◌==◌, text_eq, ◌≡◌, ◌≢◌, refl, inl,
  inr, ltb, leb, length, select, arith, Option-cases, Bool-cases, All,
}
use canvas_watcher.Base.Table.Rows.{All-select}
use canvas_watcher.Auth.Challenge.{
  FailureReason, ChallengeState, cancelled, authenticated, Target, Challenge, ChallengeStore, ok,
  is_pending, has_id, find_row, expire, cancel_state, superseded, checked_row, create,
  user_cancelled, opened, claim, begin_completion, control, finish, failing, fail,
}
use canvas_watcher.Auth.Calls.{
  Call, claims, begins, controls, finishes, fails, creates, step, run, Only, NotNew,
}
use canvas_watcher.Auth.RowLaws.{
  find_row-Only, Only-update, Only-assign_pending, checked_row_found, Only-checked_row, All-put,
  Only-assign_self,
}

module _ (digest : Text → Text) (now : ℕ) (id : Text) (r : Challenge) (s : ChallengeStore)
    (decided : is_pending r.state ≡ false) (h : Only id r s.rows) where
  Only-claim :
      (j instance_id provider token exchange : Text)
      → Only id r (claim digest now j instance_id provider token exchange s).1.rows
  unfolding claim
  Only-claim j instance_id provider token exchange =
      let c = checked_row now j instance_id provider s in
      elim (Option-cases c.0) [
        | inl e ↦ ground (arith, Only-checked_row now id j instance_id provider r s decided h)
        | inr (x, e) ↦ ground (
          arith,
          Only-checked_row now id j instance_id provider r s decided h,
          checked_row_found now j instance_id provider s x e,
          Only-assign_pending id j r x (opened digest exchange) c.1 (λ y. refl) decided,
        )
      ]

  Only-begin_completion :
      (j instance_id provider token : Text)
      → Only id r (begin_completion digest now j instance_id provider token s).1.rows
  unfolding begin_completion
  Only-begin_completion j instance_id provider token =
      let c = checked_row now j instance_id provider s in
      elim (Option-cases c.0) [
        | inl e ↦ ground (arith, Only-checked_row now id j instance_id provider r s decided h)
        | inr (x, e) ↦ ground (
          arith,
          Only-checked_row now id j instance_id provider r s decided h,
          checked_row_found now j instance_id provider s x e,
          Only-assign_pending id j r x (λ y. record y { finishing = true }) c.1 (λ y. refl) decided,
        )
      ]

  Only-control :
      (j instance_id provider token : Text) (cancel : Bool)
      → Only id r (control digest now j instance_id provider token cancel s).1.rows
  unfolding control
  Only-control j instance_id provider token cancel =
      let c = checked_row now j instance_id provider s in
      elim (Option-cases c.0) [
        | inl e ↦ ground (arith, Only-checked_row now id j instance_id provider r s decided h)
        | inr (x, e) ↦ ground (
          arith,
          Only-checked_row now id j instance_id provider r s decided h,
          checked_row_found now j instance_id provider s x e,
          Only-assign_pending id j r x
              (λ y. record y { state = cancelled; reason = some user_cancelled }) c.1 (λ y. refl)
              decided,
        )
      ]

  Only-finish :
      (j provider : Text) (publishes : Bool)
      → Only id r (finish {W = Unit {0}} now j provider (λ w. (publishes, w)) tt s).1.1.rows
  unfolding finish
  Only-finish j provider publishes =
      let c = checked_row now j s.instance_id provider s in
      elim (Option-cases c.0) [
        | inl e ↦ ground (arith, Only-checked_row now id j s.instance_id provider r s decided h)
        | inr (x, e) ↦ ground (
          arith,
          Only-checked_row now id j s.instance_id provider r s decided h,
          checked_row_found now j s.instance_id provider s x e,
          Only-assign_pending id j r x (λ y. record y { state = authenticated; exchange_hash = [] })
              c.1 (λ y. refl) decided,
        )
      ]

  Only-fail : (j reason : Text) → Only id r (fail j reason s).rows
  unfolding fail
  Only-fail j reason =
      Only-update id r (has_id j) (failing reason) s.rows (λ y. ground arith)
        (λ mine hit. ground arith) h

  Only-create :
      (provider : Text) (target : Target) (j ticket control : Text)
      → (j == id) ≡ false
      → Only id r (create digest now provider target j ticket control s).1.rows
  unfolding create
  Only-create provider target j ticket secret other =
      let kept = select (λ row. ltb now (row.deadline + 300)) s.rows in
      let still = All-select _ (λ row. ltb now (row.deadline + 300)) s.rows h in
      let cancels =
        Only-update id r (superseded provider target) cancel_state kept (λ y. refl)
          (λ mine hit. absurd (ground arith)) still in
      elim (Bool-cases (leb 64 (length kept))) [
        | inl full ↦ rw full still
        | inr room ↦ rw room (All-put _ _ _ (λ same. absurd (cc (same, other))) cancels)
      ]

  Only-step : (call : Call) → NotNew id call → Only id r (step digest now call s).rows
  unfolding step
  Only-step (claims j instance_id provider token exchange) new =
      Only-claim j instance_id provider token exchange
  Only-step (begins j instance_id provider token) new =
      Only-begin_completion j instance_id provider token
  Only-step (controls j instance_id provider token cancel) new =
      Only-control j instance_id provider token cancel
  Only-step (finishes j provider publishes) new = Only-finish j provider publishes
  Only-step (fails j reason) new = Only-fail j reason
  Only-step (creates provider target j ticket control) new =
      Only-create provider target j ticket control new

-- A decided attempt (cancelled, timed out, authenticated or failed) is never changed: after any calls
-- at any times that create no attempt of its key, every row of the key is still the same.
pub decided_stays :
    (digest : Text → Text) (id : Text) (r : Challenge) (calls : List (ℕ × Call))
    (s : ChallengeStore)
    → is_pending r.state ≡ false
    → All (λ c. NotNew id c.1) calls
    → Only id r s.rows
    → Only id r (run digest calls s).rows
unfolding run
decided_stays digest id r [] s decided new h = h
decided_stays digest id r ((now, call) ∷ rest) s decided new h =
    decided_stays digest id r rest (step digest now call s) decided new.1
      (Only-step digest now id r s decided h call new.0)

finish_decided :
    {W : Type 0} (now : ℕ) (id provider : Text) (publish : W → Bool × W) (w : W) (r : Challenge)
    (s : ChallengeStore)
    → is_pending r.state ≡ false
    → Only id r s.rows
    → ((finish now id provider publish w s).0 ≢ ok tt)
      × ((finish now id provider publish w s).1.0 ≡ w)
unfolding finish checked_row
finish_decided now id provider publish w r s decided h = elim (Option-cases (find_row id s.rows)) [
  | inl missing ↦ (λ e. ground (arith, e), ground arith)
  | inr (x, found) ↦ (
    λ e. ground (arith, e, find_row-Only id r x s.rows h found),
    ground (arith, find_row-Only id r x s.rows h found),
  )
]

-- Once an attempt is decided, its credentials are never published: after any calls at any times that
-- create no attempt of its key, `finish` does not succeed for it, and whatever its `publish` would
-- change stays as it was.
pub decided_never_published :
    {W : Type 0} (digest : Text → Text) (now : ℕ) (id provider : Text) (publish : W → Bool × W)
    (w : W) (r : Challenge) (calls : List (ℕ × Call)) (s : ChallengeStore)
    → is_pending r.state ≡ false
    → All (λ c. NotNew id c.1) calls
    → Only id r s.rows
    → ((finish now id provider publish w (run digest calls s)).0 ≢ ok tt)
      × ((finish now id provider publish w (run digest calls s)).1.0 ≡ w)
decided_never_published digest now id provider publish w r calls s decided new h =
    finish_decided now id provider publish w r (run digest calls s) decided
      (decided_stays digest id r calls s decided new h)

-- A cancellation that is accepted decides the attempt: with one row of the key, behind a `control` with
-- `cancel` that returns, the key has one row still, and that is not pending.
pub control_decides :
    (digest : Text → Text) (now : ℕ) (id instance_id provider token : Text) (r : Challenge)
    (v : ChallengeState × Option FailureReason) (s : ChallengeStore)
    → find_row id s.rows ≡ some r
    → Only id r s.rows
    → (control digest now id instance_id provider token true s).0 ≡ ok v
    → (x : Challenge) × (is_pending x.state ≡ false)
      × Only id x (control digest now id instance_id provider token true s).1.rows
unfolding control checked_row
control_decides digest now id instance_id provider token r v s found h e =
    elim (Bool-cases (is_pending r.state)) [
      | inr decided ↦
          (r, decided, Only-control digest now id r s decided h id instance_id provider token true)
      | inl pending ↦ elim (Bool-cases (leb r.deadline now)) [
        | inl over ↦
            (expire r, refl, ground (arith, found, Only-assign_self id r expire s (λ y. refl) h))
        | inr timely ↦
            let f : Challenge → Challenge =
              λ y. record y { state = cancelled; reason = some user_cancelled } in
            (f r, refl, ground (arith, found, Only-assign_self id r f s (λ y. refl) h))
      ]
    ]
