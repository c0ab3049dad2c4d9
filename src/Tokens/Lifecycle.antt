-- ===== src/Tokens/Lifecycle.antt =====
-- backend/app/services/canvas_lifecycle.py. A moment is a number of microseconds in UTC. The code
-- divides floats; below 100,000 days the ceiling of its quotient is that of the exact one. Times and
-- dates as texts, and the time zone, are libraries'.
use canvas_watcher.Base.{
  ℕ, ◌+◌, ◌-◌, ◌/◌, Bool, true, false, Option, none, some, [], ◌∷◌, ◌++◌, Text, codes, ◌==◌,
  text_eq, nat_eq, strip, leb, max, if◌then◌else◌,
}
use canvas_watcher.Changes.Json.{Json, null, string, Fields, end_fields, field, get}
use canvas_watcher.Changes.Release.{has_key}

pub data DateTime : Type 0 where
  aware : ℕ → DateTime
  -- the clock's time without a zone
  naive : ℕ → DateTime

pub record Dates : Type 0 where
  -- `none` where it raises
  pub fromisoformat : Text → Option DateTime
  -- of a moment in UTC
  pub isoformat : ℕ → Text
  -- the moment at which the clocks of UIUC_TZ show a time
  pub in_uiuc : ℕ → ℕ
  -- the last microsecond of a date, as those clocks show it
  pub last_of : ℕ → ℕ

pub data ExpirationSource : Type 0 where
  canvas_api : ExpirationSource
  user_entered : ExpirationSource
  uiuc_30_day_policy : ExpirationSource
  unknown : ExpirationSource

abbrev pub value_of : ExpirationSource → Text
value_of canvas_api = codes "CANVAS_API"
value_of user_entered = codes "USER_ENTERED"
value_of uiuc_30_day_policy = codes "UIUC_30_DAY_POLICY"
value_of unknown = codes "UNKNOWN"

pub data ExpirationState : Type 0 where
  state_normal : ExpirationState
  state_warning : ExpirationState
  state_urgent : ExpirationState
  state_critical : ExpirationState
  state_expired : ExpirationState
  state_unknown : ExpirationState

pub record CanvasExpiration : Type 0 where
  pub expires_at : Option ℕ
  pub days_remaining : Option ℕ
  pub state : ExpirationState

abbrev pub day : ℕ
day = 86400000000

abbrev pub state_of : ℕ → ExpirationState
state_of days =
    if leb days 1
    then state_critical
    else if leb days 3
    then state_urgent
    else if leb days 7
    then state_warning
    else state_normal

abbrev pub days_of : ℕ → ℕ → ℕ
days_of expiry now = max 1 ((expiry - now + day - 1) / day)

-- `expiration_status`, behind `parse_expiration`
unfoldable pub status_at : Option ℕ → ℕ → CanvasExpiration
status_at none now = record { expires_at = none; days_remaining = none; state = state_unknown }
status_at (some expiry) now =
    if leb expiry now
    then record { expires_at = some expiry; days_remaining = some 0; state = state_expired }
    else record {
      expires_at = some expiry;
      days_remaining = some (days_of expiry now);
      state = state_of (days_of expiry now);
    }

abbrev pub is_blank : Text → Bool
is_blank [] = true
is_blank (c ∷ t) = false

-- `value.replace("Z", "+00:00")`
unfoldable pub replace_z : Text → Text
replace_z [] = []
replace_z (c ∷ t) = let rest = replace_z t in if c == 90 then codes "+00:00" ++ rest else c ∷ rest

-- `{**fields, key: value}`
unfoldable pub put : Text → Json → Fields → Fields
put key value end_fields = field key value end_fields
put key value (field k x fs) =
    let rest = put key value fs in if k == key then field k value fs else field k x rest

abbrev pub values_of : Option Fields → Fields
values_of none = end_fields
values_of (some fs) = fs

-- `values.get(key, default)`
unfoldable pub get_or : Text → Json → Fields → Json
unfolding has_key get
get_or key default fs = if has_key key fs then get key fs else default

pub record Lifecycle : Type 0 where
  pub issued_at : Json
  pub activated_at : Json
  pub expires_at : Option ℕ
  pub expiration_source : Json
  pub days_remaining : Option ℕ
  pub expiration_state : ExpirationState

-- A call of `new_pat_metadata`; `lifecycle_id` is drawn.
pub record NewPat : Type 0 where
  pub existing : Option Fields
  pub expiration_date : Option ℕ
  pub now : ℕ
  pub given_source : Option ExpirationSource
  pub exact_expires_at : Option DateTime
  pub lifecycle_id : Text

abbrev pub as_utc : DateTime → ℕ
as_utc (aware m) = m
as_utc (naive m) = m

abbrev pub source_or_api : Option ExpirationSource → ExpirationSource
source_or_api none = canvas_api
source_or_api (some s) = s

module _ (lib : Dates) where
  abbrev pub zoned : Option DateTime → Option ℕ
  zoned none = none
  zoned (some (aware m)) = some m
  zoned (some (naive m)) = some (lib.in_uiuc m)

  unfoldable pub parse_expiration : Json → Option ℕ
  unfolding strip replace_z
  parse_expiration (string t) =
      if is_blank (strip t) then none else zoned (lib.fromisoformat (replace_z t))
  parse_expiration _ = none

  -- What a new token expires at, and by whose word.
  abbrev pub expiry_of : Option DateTime → Option ℕ → Option ℕ
  expiry_of (some d) date = some (as_utc d)
  expiry_of none (some date) = some (lib.last_of date)
  expiry_of none none = none

  abbrev pub source_of : NewPat → Option DateTime → Option ℕ → ExpirationSource
  source_of p (some d) date = source_or_api p.given_source
  source_of p none (some date) = user_entered
  source_of p none none = unknown

  abbrev pub text_or_null : Option ℕ → Json
  text_or_null none = null
  text_or_null (some m) = string (lib.isoformat m)

  -- The metadata of a new token, key by key.
  abbrev pub issued : NewPat → Fields
  issued p = put (codes "issued_at") null (values_of p.existing)

  abbrev pub activated : NewPat → Fields
  activated p = put (codes "activated_at") (string (lib.isoformat p.now)) (issued p)

  abbrev pub expiring : NewPat → Fields
  expiring p =
      put (codes "expires_at") (text_or_null (expiry_of p.exact_expires_at p.expiration_date))
        (activated p)

  abbrev pub sourced : NewPat → Fields
  sourced p =
      put (codes "expiration_source")
        (string (value_of (source_of p p.exact_expires_at p.expiration_date))) (expiring p)

  unfoldable pub new_pat_metadata : NewPat → Fields
  unfolding put
  new_pat_metadata p = put (codes "expiration_lifecycle_id") (string p.lifecycle_id) (sourced p)

  unfoldable pub lifecycle_payload : Option Fields → ℕ → Lifecycle
  unfolding get get_or parse_expiration status_at
  lifecycle_payload metadata now =
      let values : Fields = values_of metadata in
      let status = status_at (parse_expiration (get (codes "expires_at") values)) now in
      record {
        issued_at = get (codes "issued_at") values;
        activated_at = get (codes "activated_at") values;
        expires_at = status.expires_at;
        expiration_source = get_or (codes "expiration_source") (string (value_of unknown)) values;
        days_remaining = status.days_remaining;
        expiration_state = status.state;
      }
