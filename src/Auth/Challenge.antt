-- ===== src/Auth/Challenge.antt =====
-- backend/app/auth/broker_challenges.py: `ChallengeStore`, the expiring capabilities of sign-in
-- attempts. The dict `rows` is the list of its values, which carry their keys. The reading of the
-- clock and the random tokens are arguments of each call, and `digest` (SHA-256) is a parameter.
use canvas_watcher.Base.{
  ℕ, ◌+◌, Bool, true, false, not, ◌&&◌, ◌||◌, Option, none, some, List, [], ◌∷◌, ◌++◌, Text, ◌==◌,
  text_eq, ltb, leb, any, length, if◌then◌else◌, select, fetch_one, update_where,
}

pub data ChallengeState : Type 0 where
  waiting_for_user login_opened cancelled timed_out authenticated failed : ChallengeState

pub data ChallengeError : Type 0 where
  broker_busy challenge_invalid challenge_expired : ChallengeError
  -- what `publish` raised
  publish_failed : ChallengeError

pub data Result {ℓ} (A : Type ℓ) : Type ℓ where
  ok : A → Result A
  err : ChallengeError → Result A

pub data FailureReason : Type 0 where
  challenge_expired user_cancelled : FailureReason
  login_failed : Text → FailureReason

-- The entry of the dict that the store reads, and the others.
pub record Target : Type 0 where
  pub credential_id : Option Text
  pub rest : List (Text × Text)

pub record Challenge : Type 0 where
  pub id : Text
  pub provider : Text
  pub target : Target
  pub deadline : ℕ
  pub ticket_hash : Text
  pub control_hash : Text
  pub exchange_hash : Text
  pub state : ChallengeState
  pub claimed : Bool
  pub finishing : Bool
  pub reason : Option FailureReason

pub record ChallengeStore : Type 0 where
  pub instance_id : Text
  pub ttl : ℕ
  pub rows : List Challenge

-- `row.state in {"WAITING_FOR_USER", "LOGIN_OPENED"}`
abbrev pub is_pending : ChallengeState → Bool
is_pending waiting_for_user = true
is_pending login_opened = true
is_pending _ = false

abbrev pub is_timed_out : ChallengeState → Bool
is_timed_out timed_out = true
is_timed_out _ = false

-- `==` of two values that `dict.get` returned
abbrev pub same_option : Option Text → Option Text → Bool
same_option none none = true
same_option none (some t) = false
same_option (some s) none = false
same_option (some s) (some t) = s == t

abbrev pub has_id : Text → Challenge → Bool
has_id id row = row.id == id

unfoldable pub find_row : Text → List Challenge → Option Challenge
find_row id = fetch_one (has_id id)

-- `self.rows[row.id] = row`
unfoldable pub put : Challenge → List Challenge → List Challenge
put row rows =
    if any (has_id row.id) rows
    then update_where (has_id row.id) (λ r. row) rows
    else rows ++ row ∷ []

abbrev pub with_rows : ChallengeStore → List Challenge → ChallengeStore
with_rows s rows = record s { rows = rows }

-- An assignment to fields of the row of the given key.
abbrev pub assign : Text → (Challenge → Challenge) → ChallengeStore → ChallengeStore
assign id f s = with_rows s (update_where (has_id id) f s.rows)

abbrev pub superseded : Text → Target → Challenge → Bool
superseded provider target row =
    row.provider == provider
    && same_option row.target.credential_id target.credential_id
    && is_pending row.state

abbrev pub cancel_state : Challenge → Challenge
cancel_state row = record row { state = cancelled }

abbrev pub expire : Challenge → Challenge
expire row = record row { state = timed_out; reason = some FailureReason.challenge_expired }

abbrev pub late : ℕ → Challenge → Bool
late now row = leb row.deadline now && is_pending row.state

-- `_row` and `_live` in turn, for the row of the given key: `_row` writes the timeout, and the
-- store comes back beside an error too.
unfoldable pub checked_row :
    ℕ → Text → Text → Text → ChallengeStore → Option Challenge × ChallengeStore
unfolding find_row
checked_row now id instance_id provider s = elim (find_row id s.rows) [
  | none ↦ (none, s)
  | some row ↦
      if not (instance_id == s.instance_id) || not (row.provider == provider)
      then (none, s)
      else if late now row
      then (some (expire row), assign id expire s)
      else (some row, s)
]

-- What `_live` raises.
abbrev pub not_live : Challenge → Option ChallengeError
not_live row =
    if is_timed_out row.state
    then some ChallengeError.challenge_expired
    else if is_pending row.state
    then none
    else some challenge_invalid

module _ (digest : Text → Text) where
  -- The state before the creation is filtered even where the store is busy.
  unfoldable pub create :
      ℕ → Text → Target → Text → Text → Text → ChallengeStore → Result Text × ChallengeStore
  unfolding put
  create now provider target id ticket control s =
      let kept = select (λ row. ltb now (row.deadline + 300)) s.rows in
      if leb 64 (length kept) then (err broker_busy, with_rows s kept) else (
        ok id,
        with_rows s (
            put
              (record {
                id = id;
                provider = provider;
                target = target;
                deadline = now + s.ttl;
                ticket_hash = digest ticket;
                control_hash = digest control;
                exchange_hash = [];
                state = waiting_for_user;
                claimed = false;
                finishing = false;
                reason = none;
              })
              (update_where (superseded provider target) cancel_state kept)),
      )

  abbrev pub opened : Text → Challenge → Challenge
  opened exchange row = record row {
    claimed = true;
    exchange_hash = digest exchange;
    state = login_opened;
  }

  abbrev claim_row :
      Text → Text → Text → Option Challenge × ChallengeStore → Result (Target × ℕ) × ChallengeStore
  claim_row id token exchange (none, s) = (err challenge_invalid, s)
  claim_row id token exchange (some row, s) = elim (not_live row) [
    | some e ↦ (err e, s)
    | none ↦
        if row.claimed || not (row.ticket_hash == digest token)
        then (err challenge_invalid, s)
        else (ok (row.target, row.deadline), assign id (opened exchange) s)
  ]

  -- Returns the target and the deadline, from which `expires_in` is computed.
  unfoldable pub claim :
      ℕ → Text → Text → Text → Text → Text → ChallengeStore → Result (Target × ℕ) × ChallengeStore
  unfolding checked_row
  claim now id instance_id provider token exchange s =
      claim_row id token exchange (checked_row now id instance_id provider s)

  abbrev begin_row :
      Text → Text → Option Challenge × ChallengeStore → Result Challenge × ChallengeStore
  begin_row id token (none, s) = (err challenge_invalid, s)
  begin_row id token (some row, s) = elim (not_live row) [
    | some e ↦ (err e, s)
    | none ↦
        if not row.claimed || row.finishing || not (row.exchange_hash == digest token)
        then (err challenge_invalid, s)
        else (
          ok (record row { finishing = true }),
          assign id (λ r. record r { finishing = true }) s,
        )
  ]

  unfoldable pub begin_completion :
      ℕ → Text → Text → Text → Text → ChallengeStore → Result Challenge × ChallengeStore
  unfolding checked_row
  begin_completion now id instance_id provider token s =
      begin_row id token (checked_row now id instance_id provider s)

  abbrev control_row :
      Text
      → Text
      → Bool
      → Option Challenge × ChallengeStore
      → Result (ChallengeState × Option FailureReason) × ChallengeStore
  control_row id token cancel (none, s) = (err challenge_invalid, s)
  control_row id token cancel (some row, s) =
      if not (row.control_hash == digest token)
      then (err challenge_invalid, s)
      else if cancel && is_pending row.state
      then (
        ok (cancelled, some user_cancelled),
        assign id (λ r. record r { state = cancelled; reason = some user_cancelled }) s,
      )
      else (ok (row.state, row.reason), s)

  unfoldable pub control :
      ℕ
      → Text
      → Text
      → Text
      → Text
      → Bool
      → ChallengeStore
      → Result (ChallengeState × Option FailureReason) × ChallengeStore
  unfolding checked_row
  control now id instance_id provider token cancel s =
      control_row id token cancel (checked_row now id instance_id provider s)

abbrev published :
    {W : Type 0} → Text → Bool × W → ChallengeStore → Result (Unit {0}) × (W × ChallengeStore)
published id (true, w) s =
    (ok tt, (w, assign id (λ r. record r { state = authenticated; exchange_hash = [] }) s))
published id (false, w) s = (err publish_failed, (w, s))

abbrev finish_row :
    {W : Type 0}
    → Text
    → (W → Bool × W)
    → W
    → Option Challenge × ChallengeStore
    → Result (Unit {0}) × (W × ChallengeStore)
finish_row id publish w (none, s) = (err challenge_invalid, (w, s))
finish_row id publish w (some row, s) = elim (not_live row) [
  | some e ↦ (err e, (w, s))
  | none ↦ published id (publish w) s
]

-- `finish` of the row that `begin_completion` returned, given by its key and provider. `publish`
-- changes what is outside the store, `w`, and returns or raises.
unfoldable pub finish :
    {W : Type 0}
    → ℕ
    → Text
    → Text
    → (W → Bool × W)
    → W
    → ChallengeStore
    → Result (Unit {0}) × (W × ChallengeStore)
unfolding checked_row
finish now id provider publish w s =
    finish_row id publish w (checked_row now id s.instance_id provider s)

abbrev pub failing : Text → Challenge → Challenge
failing reason row =
    if is_pending row.state
    then record row { state = failed; reason = some (login_failed reason); exchange_hash = [] }
    else row

unfoldable pub fail : Text → Text → ChallengeStore → ChallengeStore
fail id reason s = assign id (failing reason) s
