-- ===== src/Auth/Tokens.antt =====
-- The tokens of a sign-in attempt work once, and the number of attempts is bounded.
use canvas_watcher.Base.{
  ℕ, ◌+◌, ◌≤◌, true, false, none, some, [], Text, text_eq, ◌≡◌, ◌≢◌, refl, inl, inr, ltb, length,
  select, update_where, arith, Option-cases, text_beq_iff,
}
use canvas_watcher.Base.Table.Rows.{length-select, length-update_where}
use canvas_watcher.Auth.Challenge.{
  waiting_for_user, Target, Challenge, ChallengeStore, ok, find_row, cancel_state, superseded,
  checked_row, create, opened, claim, begin_completion,
}
use canvas_watcher.Auth.RowLaws.{find_row-assign, length-put}

-- A ticket opens one login: behind a successful `claim` no other claim of the attempt succeeds, with this
-- or any token, at any time, as long as no other call intervenes.
pub claim_once :
    (digest : Text → Text) (now later : ℕ) (id instance_id provider token exchange : Text)
    (v : Target × ℕ) (s : ChallengeStore) (provider' token' exchange' : Text) (v' : Target × ℕ)
    → (claim digest now id instance_id provider token exchange s).0 ≡ ok v
    → (claim digest later id instance_id provider' token' exchange'
        (claim digest now id instance_id provider token exchange s).1).0
      ≢ ok v'
unfolding claim checked_row
claim_once digest now later id instance_id provider token exchange v s provider' token' exchange' v'
      e e' =
    elim (Option-cases (find_row id s.rows)) [
      | inl missing ↦ ground arith
      | inr (row, found) ↦
          ground (arith, found, find_row-assign id (opened digest exchange) s row (λ y. refl) found)
    ]

-- Only the holder of the exchange token completes an attempt, and once: a successful
-- `begin_completion` shows a stored, claimed attempt of this digest that nobody was completing, and
-- behind it no other succeeds, at any time, as long as no other call intervenes.
pub begin_completion_once :
    (digest : Text → Text) (now later : ℕ) (id instance_id provider token : Text) (v : Challenge)
    (s : ChallengeStore) (provider' token' : Text) (v' : Challenge)
    → (begin_completion digest now id instance_id provider token s).0 ≡ ok v
    → (row : Challenge) × (find_row id s.rows ≡ some row)
      × (row.claimed ≡ true)
      × (row.finishing ≡ false)
      × (row.exchange_hash ≡ digest token)
      × ((begin_completion digest later id instance_id provider' token'
            (begin_completion digest now id instance_id provider token s).1).0
          ≢ ok v')
unfolding begin_completion checked_row
begin_completion_once digest now later id instance_id provider token v s provider' token' v' e =
    elim (Option-cases (find_row id s.rows)) [
      | inl missing ↦ absurd (ground arith)
      | inr (row, found) ↦ (
        row,
        found,
        ground arith,
        ground arith,
        ground (arith, text_beq_iff row.exchange_hash (digest token)),
        λ e'. ground (
          arith,
          found,
          find_row-assign id (λ r. record r { finishing = true }) s row (λ y. refl) found,
        ),
      )
    ]

-- A creation leaves at most 64 attempts, if not more were there before.
pub create_bounded :
    (digest : Text → Text) (now : ℕ) (provider : Text) (target : Target) (id ticket secret : Text)
    (s : ChallengeStore)
    → length s.rows ≤ 64
    → length (create digest now provider target id ticket secret s).1.rows ≤ 64
unfolding create
create_bounded digest now provider target id ticket secret s h =
    let kept = select (λ row. ltb now (row.deadline + 300)) s.rows in
    ground (
      arith,
      length-select (λ row. ltb now (row.deadline + 300)) s.rows,
      length-update_where (superseded provider target) cancel_state kept,
      length-put
          (record {
            id = id;
            provider = provider;
            target = target;
            deadline = now + s.ttl;
            ticket_hash = digest ticket;
            control_hash = digest secret;
            exchange_hash = [];
            state = waiting_for_user;
            claimed = false;
            finishing = false;
            reason = none;
          })
          (update_where (superseded provider target) cancel_state kept),
    )
