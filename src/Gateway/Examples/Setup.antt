-- ===== src/Gateway/Examples/Setup.antt =====
-- Data for the tests of the gateway's store, with hashes that keep the text.
use canvas_watcher.Base.{
  true, false, none, some, [], ◌∷◌, ◌++◌, Text, codes, ◌==◌, text_eq, nat_eq, text_beq, any, all,
  select, fetch_one, count_where, delete_where, update_where, lower, strip, starts_with,
}
use canvas_watcher.Gateway.Identity.Schema.{User, Db, normal, admin, user, active, empty_db}
use canvas_watcher.Gateway.Identity.Tx.{
  clashes, insert_user, insert_session, insert_invitation, insert_callback, insert_audit,
}
use canvas_watcher.Gateway.Identity.Security.{Security, token_digest, compare_token, hash_password}
use canvas_watcher.Gateway.Identity.Names.{normalize_username, normalize_email}
use canvas_watcher.Gateway.Identity.Accounts.{
  create_owner, create_invitation, redeem_invitation, redeem_rows, next_slot, slot_used,
  open_invitation, disable_user, activate_user,
}
use canvas_watcher.Gateway.Identity.Sessions.{
  claim_owner, finish_owner_password_change, create_session, session, revoke_session, live_row,
}
use canvas_watcher.Gateway.Identity.Callbacks.{
  register_oauth_callback, consume_oauth_callback, holds_slot,
}
use canvas_watcher.Gateway.Identity.Calls.{step, run}

abbrev pub plain : Security
plain = record {
  sha256_hex = λ v. v;
  argon2_hash = λ v. v;
  argon2_verify = λ encoded v. encoded == v;
  hmac_hex = λ secret v. secret ++ v;
  str_lower = lower;
}

abbrev pub code : Text
code = codes "0123456789abcdef0123456789abcdef"

abbrev pub password : Text
password = codes "correct horse"

-- What the tests below compute with.
unfoldable pub runs : Unit {0}
unfolding run step create_owner create_invitation redeem_invitation redeem_rows activate_user
    disable_user claim_owner finish_owner_password_change create_session revoke_session session
    live_row register_oauth_callback consume_oauth_callback normalize_username normalize_email
    hash_password token_digest compare_token insert_user insert_session insert_invitation
    insert_callback insert_audit clashes text_beq any all select fetch_one count_where delete_where
    update_where lower strip starts_with next_slot slot_used open_invitation holds_slot
runs = tt

abbrev pub u : User
u = record {
  id = codes "u";
  username = codes "user";
  email = codes "u@x.edu";
  password_hash = some password;
  legacy_hash = none;
  bootstrap_digest = none;
  bootstrap_claimed_at = none;
  must_change_password = false;
  role = user;
  status = active;
  slot = 2;
  created_at = 5;
}

abbrev pub o : User
o = record {
  id = codes "o";
  username = codes "owner";
  email = codes "o@x.edu";
  password_hash = none;
  legacy_hash = some (codes "$6$x");
  bootstrap_digest = some code;
  bootstrap_claimed_at = none;
  must_change_password = true;
  role = admin;
  status = active;
  slot = 1;
  created_at = 1;
}

-- The owner has claimed the account and changed the password; one user is registered.
abbrev pub settled : Db
settled = record empty_db {
  users =
      record o {
        password_hash = some password;
        bootstrap_digest = none;
        bootstrap_claimed_at = some 2;
        must_change_password = false;
      }
      ∷ u
      ∷ [];
  sessions =
      record {
        token_hash = codes "s";
        user_id = codes "u";
        kind = normal;
        created_at = 7;
        expires_at = 604807;
      }
      ∷ [];
}

abbrev pub o' : User
o' = record o {
  password_hash = some password;
  bootstrap_digest = none;
  bootstrap_claimed_at = some 2;
  must_change_password = false;
}
