-- ===== src/Gateway/Identity/Tx.antt =====
-- Transactions of identity-gateway/aw_gateway/store.py: what a method does to the database and
-- what it returns or raises. `write` is the context manager `_write`.
use canvas_watcher.Base.{
  ℕ, Bool, true, false, not, ◌&&◌, ◌||◌, Option, none, some, List, ◌∷◌, [], ◌++◌, Text, codes, ◌==◌,
  text_eq, nat_eq, lower, leb, any, if◌then◌else◌, fetch_one,
}
use canvas_watcher.Gateway.Identity.Schema.{User, Session, Invitation, Callback, Action, Db}

-- The messages of the `IdentityError`s.
pub data Reason : Type 0 where
  invalid_username invalid_email owner_material owner_exists : Reason
  no_slots name_unavailable bootstrap_invalid account_unavailable : Reason
  administrator_required invitation_invalid pending_not_found : Reason
  own_account not_found_or_disabled invalid_mapping oauth_unavailable : Reason

-- `IdentityError`, any other `ValueError`, and `sqlite3.IntegrityError`.
pub data Error : Type 0 where
  identity : Reason → Error
  value : Error
  integrity : Error

pub data Result {ℓ} (A : Type ℓ) : Type ℓ where
  ok : A → Result A
  err : Error → Result A

abbrev pub Tx {ℓ} : Type ℓ → Type ℓ
Tx A = Db → Result A × Db

module _ {ℓ} {A : Type ℓ} where
  abbrev pub pure : A → Tx A
  pure a db = (ok a, db)

  abbrev pub raise : Error → Tx A
  raise e db = (err e, db)

  abbrev pub lift : Result A → Tx A
  lift r db = (r, db)

  abbrev pub gets : (Db → A) → Tx A
  gets f db = (ok (f db), db)

  abbrev pub require : Option A → Error → Tx A
  require none e = raise e
  require (some a) e = pure a

  abbrev rollback : Db → Result A × Db → Result A × Db
  rollback db (ok a, db') = (ok a, db')
  rollback db (err e, db') = (err e, db)

  -- BEGIN IMMEDIATE, then COMMIT, or ROLLBACK on an exception.
  abbrev pub write : Tx A → Tx A
  write body db = rollback db (body db)

  abbrev renamed : Reason → Result A × Db → Result A × Db
  renamed reason (err integrity, db) = (err (identity reason), db)
  renamed reason r = r

  -- `except sqlite3.IntegrityError as error: raise IdentityError(...) from error`
  abbrev pub rename_integrity : Reason → Tx A → Tx A
  rename_integrity reason body db = renamed reason (body db)

module _ {ℓ κ} {A : Type ℓ} {B : Type κ} where
  abbrev continue : Result A × Db → (A → Tx B) → Result B × Db
  continue (ok a, db) f = f a db
  continue (err e, db) f = (err e, db)

infixl 5 ◌>>=◌ ◌>>◌
abbrev pub ◌>>=◌ {ℓ κ} : {A : Type ℓ} {B : Type κ} → Tx A → (A → Tx B) → Tx B
◌>>=◌ m f db = continue (m db) f

abbrev pub ◌>>◌ {ℓ} : {B : Type ℓ} → Tx (Unit {0}) → Tx B → Tx B
m >> k = m >>= λ _. k

abbrev pub guard : Bool → Error → Tx (Unit {0})
guard true e = pure tt
guard false e = raise e

abbrev pub modify : (Db → Db) → Tx (Unit {0})
modify f db = (ok tt, f db)

-- `COLLATE NOCASE`: SQLite folds the ASCII letters.
abbrev pub nocase : Text → Text → Bool
nocase s t = lower s == lower t

-- Two rows that the UNIQUE constraints of `users` do not allow together.
unfoldable pub clashes : User → User → Bool
clashes u v =
    u.id == v.id || nocase u.username v.username || nocase u.email v.email || u.slot == v.slot

abbrev pub user_by_id : Text → List User → Option User
user_by_id id = fetch_one (λ u. u.id == id)

abbrev pub user_exists : Text → List User → Bool
user_exists id = any (λ u. u.id == id)

-- INSERT INTO users, with the constraints of the table.
unfoldable pub insert_user : User → Tx (Unit {0})
insert_user u db =
    if any (clashes u) db.users || not (leb 1 u.slot && leb u.slot 5)
    then (err integrity, db)
    else (ok tt, record db { users = db.users ++ u ∷ [] })

-- INSERT INTO sessions: a primary key and a foreign key.
unfoldable pub insert_session : Session → Tx (Unit {0})
insert_session s db =
    if any (λ t. t.token_hash == s.token_hash) db.sessions || not (user_exists s.user_id db.users)
    then (err integrity, db)
    else (ok tt, record db { sessions = db.sessions ++ s ∷ [] })

unfoldable pub insert_invitation : Invitation → Tx (Unit {0})
insert_invitation i db =
    if any (λ t. t.token_hash == i.token_hash) db.invitations
      || not (user_exists i.created_by db.users)
    then (err integrity, db)
    else (ok tt, record db { invitations = db.invitations ++ i ∷ [] })

unfoldable pub insert_callback : Callback → Tx (Unit {0})
insert_callback c db =
    if any (λ t. t.state_hash == c.state_hash) db.oauth_callbacks
      || not (user_exists c.user_id db.users)
      || not (leb 1 c.slot && leb c.slot 5)
      || not (c.provider == codes "canvas" || c.provider == codes "google")
    then (err integrity, db)
    else (ok tt, record db { oauth_callbacks = db.oauth_callbacks ++ c ∷ [] })

unfoldable pub insert_preview : Text → Tx (Unit {0})
insert_preview id db =
    if any (λ t. t == id) db.preview_accounts || not (user_exists id db.users)
    then (err integrity, db)
    else (ok tt, record db { preview_accounts = db.preview_accounts ++ id ∷ [] })

unfoldable pub insert_audit : Text → Action → ℕ → Tx (Unit {0})
insert_audit actor action now db = (
  ok tt,
  record db {
    audit = db.audit ++ record { actor_id = actor; action = action; occurred_at = now } ∷ [];
  },
)
