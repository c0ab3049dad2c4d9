-- ===== src/Gateway/Identity/Accounts.antt =====
-- The methods of `IdentityStore` on accounts and invitations. `slots` is the constructor's
-- argument, `now` is `int(time.time())`, and `user_id` is `secrets.token_hex(16)`.
use canvas_watcher.Base.{
  ℕ, zero, suc, ◌+◌, ◌-◌, ◌*◌, Bool, true, false, not, ◌&&◌, Option, none, some, List, [], ◌∷◌,
  Text, codes, ◌==◌, text_eq, nat_eq, strip, starts_with, ltb, leb, any, length, if◌then◌else◌,
  fetch_one, count_where, delete_where, update_where,
}
use canvas_watcher.Gateway.Identity.Schema.{
  User, Invitation, Db, admin, user, Status, pending, active, disabled, is_admin, is_active,
  is_pending, is_disabled, owner_created, preview_created, invitation_created, invitation_redeemed,
  user_activated, user_disabled,
}
use canvas_watcher.Gateway.Identity.Tx.{
  Reason, identity, ok, err, Tx, pure, lift, gets, require, write, rename_integrity, ◌>>=◌, ◌>>◌,
  guard, modify, nocase, user_by_id, insert_user, insert_invitation, insert_preview, insert_audit,
  owner_material, owner_exists, no_slots, name_unavailable, administrator_required,
  invitation_invalid, pending_not_found, own_account, not_found_or_disabled,
}
use canvas_watcher.Gateway.Identity.Names.{normalize_username, normalize_email}
use canvas_watcher.Gateway.Identity.Security.{Security, token_digest, hash_password}

unfoldable pub slot_used : ℕ → List User → Bool
unfolding any
slot_used n users = any (λ u. u.slot == n) users

-- The first free one of `count` numbers from `n` on.
unfoldable pub first_free : ℕ → ℕ → List User → Option ℕ
unfolding slot_used
first_free zero n users = none
first_free (suc count) n users =
    let rest = first_free count (n + 1) users in if slot_used n users then rest else some n

-- `next((number for number in range(2, self.slots + 1) if number not in slots_used), None)`
unfoldable pub next_slot : ℕ → List User → Option ℕ
unfolding first_free
next_slot slots users = first_free (slots - 1) 2 users

is_none {ℓ} : {A : Type ℓ} → List A → Bool
is_none [] = true
is_none (x ∷ xs) = false

unfoldable pub create_owner : Security → Text → ℕ → Text → Text → Text → Text → Tx Text
unfolding is_none
create_owner sec user_id now username email legacy_hash code = do
  username' ← lift (normalize_username username)
  email' ← lift (normalize_email sec.str_lower email)
  guard (starts_with legacy_hash (codes "$6$") && leb 32 (length code)) (identity owner_material)
  write (do
    users ← gets (λ db. db.users)
    guard (is_none users) (identity owner_exists)
    insert_user (record {
      id = user_id;
      username = username';
      email = email';
      password_hash = none;
      legacy_hash = some legacy_hash;
      bootstrap_digest = some (token_digest sec code);
      bootstrap_claimed_at = none;
      must_change_password = true;
      role = admin;
      status = active;
      slot = 1;
      created_at = now;
    })
    insert_audit user_id owner_created now
    pure user_id)

abbrev pub new_user : Text → ℕ → Text → Text → Text → Status → ℕ → User
new_user user_id now username email password_hash status slot = record {
  id = user_id;
  username = username;
  email = email;
  password_hash = some password_hash;
  legacy_hash = none;
  bootstrap_digest = none;
  bootstrap_claimed_at = none;
  must_change_password = false;
  role = user;
  status = status;
  slot = slot;
  created_at = now;
}

-- The transaction of `create_preview_account`.
unfoldable pub preview_rows : ℕ → Text → ℕ → Text → Text → Text → Tx (Text × ℕ)
preview_rows slots user_id now username email password_hash = do
  users ← gets (λ db. db.users)
  slot ← require (next_slot slots users) (identity no_slots)
  rename_integrity name_unavailable
      (insert_user (new_user user_id now username email password_hash active slot))
  insert_preview user_id
  insert_audit user_id preview_created now
  pure (user_id, slot)

unfoldable pub create_preview_account : Security → ℕ → Text → ℕ → Text → Text → Text → Tx (Text × ℕ)
create_preview_account sec slots user_id now username email password = do
  username' ← lift (normalize_username username)
  email' ← lift (normalize_email sec.str_lower email)
  password_hash ← lift (hash_password sec password)
  write (preview_rows slots user_id now username' email' password_hash)

unfoldable pub find_user : Text → Db → Option User
find_user username db = fetch_one (λ u. nocase u.username (strip username)) db.users

unfoldable pub get_user : Text → Db → Option User
get_user user_id db = user_by_id user_id db.users

unfoldable pub is_preview : Text → Db → Bool
is_preview user_id db = any (λ id. id == user_id) db.preview_accounts

-- `actor is None or actor["role"] != "admin" or ...`, negated
unfoldable pub is_administrator : Option User → Bool
is_administrator none = false
is_administrator (some u) = is_admin u.role && is_active u.status && not u.must_change_password

abbrev pub week : ℕ
week = 7 * 86400

unfoldable pub create_invitation : Security → ℕ → ℕ → Text → Text → Text → Tx (Unit {0})
unfolding is_administrator
create_invitation sec slots now actor_id email token = do
  email' ← lift (normalize_email sec.str_lower email)
  write (do
    actor ← gets (λ db. user_by_id actor_id db.users)
    guard (is_administrator actor) (identity administrator_required)
    count ← gets (λ db. length db.users)
    guard (ltb count slots) (identity no_slots)
    insert_invitation (record {
      token_hash = token_digest sec token;
      email = email';
      created_by = actor_id;
      created_at = now;
      expires_at = now + week;
      redeemed_by = none;
    })
    insert_audit actor_id invitation_created now)

abbrev pub is_open : Text → ℕ → Invitation → Bool
is_open digest now i =
    i.token_hash == digest
    && ltb now i.expires_at
    && elim i.redeemed_by [ none ↦ true | some id ↦ false ]

-- `SELECT email FROM invitations WHERE ...`
unfoldable pub open_invitation : Text → ℕ → List Invitation → Option Invitation
open_invitation digest now = fetch_one (is_open digest now)

unfoldable pub invitation : Security → ℕ → Text → Db → Option Text
invitation sec now token db = elim (open_invitation (token_digest sec token) now db.invitations) [
  | none ↦ none
  | some i ↦ some i.email
]

abbrev pub redeemed : Text → Invitation → Invitation
redeemed user_id i = record i { redeemed_by = some user_id }

-- The transaction of `redeem_invitation`, with the digest of the token.
unfoldable pub redeem_rows : ℕ → Text → ℕ → Text → Text → Text → Text → Tx (Text × ℕ)
redeem_rows slots user_id now digest username email password_hash = do
  found ← gets (λ db. open_invitation digest now db.invitations)
  invite ← require found (identity invitation_invalid)
  guard (invite.email == email) (identity invitation_invalid)
  users ← gets (λ db. db.users)
  slot ← require (next_slot slots users) (identity no_slots)
  rename_integrity name_unavailable
      (insert_user (new_user user_id now username email password_hash pending slot))
  modify (λ db. record db {
    invitations = update_where (λ i. i.token_hash == digest) (redeemed user_id) db.invitations;
  })
  insert_audit user_id invitation_redeemed now
  pure (user_id, slot)

unfoldable pub redeem_invitation :
    Security → ℕ → Text → ℕ → Text → Text → Text → Text → Tx (Text × ℕ)
redeem_invitation sec slots user_id now token username email password = do
  username' ← lift (normalize_username username)
  email' ← lift (normalize_email sec.str_lower email)
  password_hash ← lift (hash_password sec password)
  write (redeem_rows slots user_id now (token_digest sec token) username' email' password_hash)

-- An UPDATE of the rows of `users` that match, and the test of `rowcount` behind it. What it wrote
-- before it raises is rolled back.
update_one_user : (User → Bool) → (User → User) → Reason → Tx (Unit {0})
unfolding count_where
update_one_user p f reason db =
    if count_where p db.users == 1
    then (ok tt, record db { users = update_where p f db.users })
    else (err (identity reason), record db { users = update_where p f db.users })

unfoldable pub activate_user : ℕ → Text → Tx (Unit {0})
unfolding update_one_user
activate_user now user_id = write (do
  update_one_user (λ u. u.id == user_id && is_pending u.status) (λ u. record u { status = active })
      pending_not_found
  insert_audit user_id user_activated now)

unfoldable pub disable_user : ℕ → Text → Text → Tx (Unit {0})
unfolding is_administrator update_one_user
disable_user now actor_id target_id = do
  guard (not (actor_id == target_id)) (identity own_account)
  write (do
    actor ← gets (λ db. user_by_id actor_id db.users)
    guard (is_administrator actor) (identity administrator_required)
    update_one_user (λ u. u.id == target_id && not (is_disabled u.status))
        (λ u. record u { status = disabled }) not_found_or_disabled
    modify (λ db. record db { sessions = delete_where (λ s. s.user_id == target_id) db.sessions })
    insert_audit actor_id user_disabled now)

insert_by_slot : User → List User → List User
insert_by_slot u [] = u ∷ []
insert_by_slot u (v ∷ vs) = if leb u.slot v.slot then u ∷ v ∷ vs else v ∷ insert_by_slot u vs

-- `ORDER BY slot`
unfoldable pub list_users : List User → List User
unfolding insert_by_slot
list_users [] = []
list_users (u ∷ us) = insert_by_slot u (list_users us)
