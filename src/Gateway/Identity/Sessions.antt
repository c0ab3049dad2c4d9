-- ===== src/Gateway/Identity/Sessions.antt =====
-- The methods of `IdentityStore` on sessions, and the owner's first sign-in.
use canvas_watcher.Base.{
  ℕ, ◌+◌, Bool, true, false, not, ◌&&◌, Option, none, some, [], ◌∷◌, Text, ◌==◌, text_eq, ltb,
  if◌then◌else◌, fetch_one, delete_where, update_where,
}
use canvas_watcher.Gateway.Identity.Schema.{
  User, Session, Db, Kind, bootstrap, normal, is_admin, is_active, is_bootstrap, owner_claim_failed,
  owner_claimed, owner_password_changed,
}
use canvas_watcher.Gateway.Identity.Tx.{
  identity, Tx, pure, lift, gets, require, write, ◌>>=◌, ◌>>◌, guard, modify, user_by_id,
  insert_session, insert_audit, bootstrap_invalid, account_unavailable,
}
use canvas_watcher.Gateway.Identity.Security.{Security, token_digest, compare_token, hash_password}
use canvas_watcher.Gateway.Identity.Accounts.{week}

abbrev is_unclaimed : Option ℕ → Bool
is_unclaimed none = true
is_unclaimed (some t) = false

-- A digest that is missing or empty matches no code.
abbrev digest_matches : Security → Text → Option Text → Bool
digest_matches sec code none = false
digest_matches sec code (some []) = false
digest_matches sec code (some (c ∷ d)) = compare_token sec code (c ∷ d)

abbrev pub new_session : Text → Text → Kind → ℕ → ℕ → Session
new_session digest user_id kind now lifetime = record {
  token_hash = digest;
  user_id = user_id;
  kind = kind;
  created_at = now;
  expires_at = now + lifetime;
}

-- The UPDATEs of `claim_owner` and `finish_owner_password_change`.
abbrev pub claimed : ℕ → User → User
claimed now u = record u { bootstrap_digest = none; bootstrap_claimed_at = some now }

abbrev pub with_password : Text → User → User
with_password password_hash u = record u {
  password_hash = some password_hash;
  legacy_hash = none;
  bootstrap_digest = none;
  must_change_password = false;
}

-- The negated condition of `claim_owner`.
unfoldable pub claimable : Security → Text → Option User → Bool
claimable sec code none = false
claimable sec code (some u) =
    is_admin u.role
    && is_active u.status
    && u.must_change_password
    && is_unclaimed u.bootstrap_claimed_at
    && digest_matches sec code u.bootstrap_digest

unfoldable pub claim_owner : Security → ℕ → Text → Text → Text → Tx Bool
unfolding claimable
claim_owner sec now user_id code session_token = write (do
  found ← gets (λ db. user_by_id user_id db.users)
  if claimable sec code found
      then (do
        modify
            (λ db. record db { users = update_where (λ u. u.id == user_id) (claimed now) db.users })
        insert_session (new_session (token_digest sec session_token) user_id bootstrap now 600)
        insert_audit user_id owner_claimed now
        pure true)
      else (do insert_audit user_id owner_claim_failed now; pure false))

-- `u.must_change_password=1 AND u.bootstrap_claimed_at IS NOT NULL` of the joined user
unfoldable pub is_claimed_owner : Option User → Bool
is_claimed_owner none = false
is_claimed_owner (some u) = u.must_change_password && not (is_unclaimed u.bootstrap_claimed_at)

unfoldable pub bootstrap_row : Text → ℕ → Db → Option Session
unfolding is_claimed_owner
bootstrap_row digest now db =
    fetch_one
      (λ s.
        s.token_hash == digest
        && is_bootstrap s.kind
        && ltb now s.expires_at
        && is_claimed_owner (user_by_id s.user_id db.users))
      db.sessions

unfoldable pub finish_owner_password_change : Security → ℕ → Text → Text → Text → Tx Text
unfolding bootstrap_row
finish_owner_password_change sec now session_token password new_token = do
  password_hash ← lift (hash_password sec password)
  write (do
    found ← gets (bootstrap_row (token_digest sec session_token) now)
    old ← require found (identity bootstrap_invalid)
    modify (λ db. record db {
      users = update_where (λ u. u.id == old.user_id) (with_password password_hash) db.users;
      sessions = delete_where (λ s. s.user_id == old.user_id) db.sessions;
    })
    insert_session (new_session (token_digest sec new_token) old.user_id normal now week)
    insert_audit old.user_id owner_password_changed now
    pure old.user_id)

-- `user is None or user["status"] != "active" or user["must_change_password"]`, negated
unfoldable pub may_sign_in : Option User → Bool
may_sign_in none = false
may_sign_in (some u) = is_active u.status && not u.must_change_password

unfoldable pub create_session : Security → ℕ → Text → Text → Tx (Unit {0})
unfolding may_sign_in
create_session sec now user_id token = write (do
  found ← gets (λ db. user_by_id user_id db.users)
  guard (may_sign_in found) (identity account_unavailable)
  insert_session (new_session (token_digest sec token) user_id normal now week))

abbrev pub active_user : Option User → Bool
active_user none = false
active_user (some u) = is_active u.status

-- The row of `sessions` that the query of `session` joins, and the user that it returns.
unfoldable pub live_row : Text → ℕ → Db → Option Session
live_row digest now db =
    fetch_one
      (λ s.
        s.token_hash == digest
        && ltb now s.expires_at
        && active_user (user_by_id s.user_id db.users))
      db.sessions

joined : Option Session → Db → Option (User × Kind)
joined none db = none
joined (some s) db = elim (user_by_id s.user_id db.users) [
  | none ↦ none
  | some u ↦ some (u, s.kind)
]

unfoldable pub session : Security → ℕ → Text → Db → Option (User × Kind)
unfolding live_row joined
session sec now [] db = none
session sec now (c ∷ token) db = joined (live_row (token_digest sec (c ∷ token)) now db) db

unfoldable pub revoke_session : Security → Text → Tx (Unit {0})
revoke_session sec token = write (
    modify (λ db. record db {
      sessions = delete_where (λ s. s.token_hash == token_digest sec token) db.sessions;
    }))
