-- ===== src/Gateway/Identity/Schema.antt =====
-- The rows of `_SCHEMA` in identity-gateway/aw_gateway/store.py. A nullable column is an `Option`,
-- and a column with a CHECK of a few values is a data type. Unix times are numbers of seconds.
use canvas_watcher.Base.{ℕ, Bool, true, false, Option, List, [], Text}

pub data Role : Type 0 where
  admin user : Role

pub data Status : Type 0 where
  pending active disabled : Status

pub data Kind : Type 0 where
  bootstrap normal : Kind

pub record User : Type 0 where
  pub id : Text
  pub username : Text
  pub email : Text
  pub password_hash : Option Text
  pub legacy_hash : Option Text
  pub bootstrap_digest : Option Text
  pub bootstrap_claimed_at : Option ℕ
  pub must_change_password : Bool
  pub role : Role
  pub status : Status
  pub slot : ℕ
  pub created_at : ℕ

pub record Session : Type 0 where
  pub token_hash : Text
  pub user_id : Text
  pub kind : Kind
  pub created_at : ℕ
  pub expires_at : ℕ

pub record Invitation : Type 0 where
  pub token_hash : Text
  pub email : Text
  pub created_by : Text
  pub created_at : ℕ
  pub expires_at : ℕ
  pub redeemed_by : Option Text

pub record Attempt : Type 0 where
  pub key : Text
  pub occurred_at : ℕ

pub data Action : Type 0 where
  owner_created preview_created owner_claim_failed owner_claimed : Action
  owner_password_changed invitation_created invitation_redeemed : Action
  user_activated user_disabled : Action

pub record Audit : Type 0 where
  pub actor_id : Text
  pub action : Action
  pub occurred_at : ℕ

pub record Callback : Type 0 where
  pub state_hash : Text
  pub user_id : Text
  pub slot : ℕ
  pub provider : Text
  pub inner_state : Text
  pub created_at : ℕ
  pub expires_at : ℕ

pub record Db : Type 0 where
  pub users : List User
  pub sessions : List Session
  pub invitations : List Invitation
  pub login_attempts : List Attempt
  pub audit : List Audit
  pub oauth_callbacks : List Callback
  pub preview_accounts : List Text

-- A new database: every table is there and empty.
abbrev pub empty_db : Db
empty_db = record {
  users = [];
  sessions = [];
  invitations = [];
  login_attempts = [];
  audit = [];
  oauth_callbacks = [];
  preview_accounts = [];
}

abbrev pub is_admin : Role → Bool
is_admin admin = true
is_admin user = false

abbrev pub is_active : Status → Bool
is_active active = true
is_active _ = false

abbrev pub is_pending : Status → Bool
is_pending pending = true
is_pending _ = false

abbrev pub is_disabled : Status → Bool
is_disabled disabled = true
is_disabled _ = false

abbrev pub is_bootstrap : Kind → Bool
is_bootstrap bootstrap = true
is_bootstrap normal = false
