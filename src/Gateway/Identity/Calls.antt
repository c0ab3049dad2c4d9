-- ===== src/Gateway/Identity/Calls.antt =====
-- The database as the calls of `IdentityStore` drive it. Writers hold the lock of BEGIN IMMEDIATE,
-- so the transactions of concurrent requests take place one behind the other, in some order.
use canvas_watcher.Base.{ℕ, ◌≤◌, List, [], ◌∷◌, Text}
use canvas_watcher.Gateway.Identity.Schema.{Db, empty_db}
use canvas_watcher.Gateway.Identity.Security.{Security}
use canvas_watcher.Gateway.Identity.Accounts.{
  create_owner, create_preview_account, redeem_invitation, create_invitation, activate_user,
  disable_user,
}
use canvas_watcher.Gateway.Identity.Sessions.{
  claim_owner, finish_owner_password_change, create_session, revoke_session,
}
use canvas_watcher.Gateway.Identity.Attempts.{record_login_attempt, clear_login_attempts}
use canvas_watcher.Gateway.Identity.Callbacks.{register_oauth_callback, consume_oauth_callback}
use canvas_watcher.Gateway.Identity.Invariant.{IsSound}
use canvas_watcher.Gateway.Identity.Preserved

-- A call with its arguments, the random id that it draws included.
pub data Call : Type 0 where
  owner : Text → Text → Text → Text → Text → Call
  preview : Text → Text → Text → Text → Call
  claim : Text → Text → Text → Call
  change_password : Text → Text → Text → Call
  sign_in : Text → Text → Call
  revoke : Text → Call
  attempt : ℕ → ℕ → Text → Call
  clear_attempts : Text → Call
  invite : Text → Text → Text → Call
  redeem : Text → Text → Text → Text → Text → Call
  activate : Text → Call
  disable : Text → Text → Call
  register_callback : Text → Text → ℕ → Text → Text → ℕ → Call
  consume_callback : Text → Text → Call

module _ (sec : Security) (slots : ℕ) where
  -- The database behind one call at the time `now`.
  unfoldable pub step : ℕ → Call → Db → Db
  step now (owner id username email legacy_hash code) db =
      (create_owner sec id now username email legacy_hash code db).1
  step now (preview id username email password) db =
      (create_preview_account sec slots id now username email password db).1
  step now (claim user_id code token) db = (claim_owner sec now user_id code token db).1
  step now (change_password token password new_token) db =
      (finish_owner_password_change sec now token password new_token db).1
  step now (sign_in user_id token) db = (create_session sec now user_id token db).1
  step now (revoke token) db = (revoke_session sec token db).1
  step now (attempt limit window key) db = (record_login_attempt sec limit window now key db).1
  step now (clear_attempts key) db = (clear_login_attempts sec key db).1
  step now (invite actor_id email token) db =
      (create_invitation sec slots now actor_id email token db).1
  step now (redeem id token username email password) db =
      (redeem_invitation sec slots id now token username email password db).1
  step now (activate user_id) db = (activate_user now user_id db).1
  step now (disable actor_id target_id) db = (disable_user now actor_id target_id db).1
  step now (register_callback outer user_id slot provider inner lifetime) db =
      (register_oauth_callback sec now outer user_id slot provider inner lifetime db).1
  step now (consume_callback outer provider) db =
      (consume_oauth_callback sec now outer provider db).1

  unfoldable pub run : List (ℕ × Call) → Db → Db
  unfolding step
  run [] db = db
  run ((now, call) ∷ rest) db = run rest (step now call db)

  pub step-IsSound :
      (now : ℕ) (call : Call) (db : Db)
      → 1 ≤ slots
      → IsSound slots db
      → IsSound slots (step now call db)
  unfolding step
  step-IsSound now (owner id username email legacy_hash code) db h1 h =
      Preserved.create_owner-IsSound sec slots now db h id username email legacy_hash code h1
  step-IsSound now (preview id username email password) db h1 h =
      Preserved.create_preview_account-IsSound sec slots now db h id username email password
  step-IsSound now (claim user_id code token) db h1 h =
      Preserved.claim_owner-IsSound sec slots now db h user_id code token
  step-IsSound now (change_password token password new_token) db h1 h =
      Preserved.finish_owner_password_change-IsSound sec slots now db h token password new_token
  step-IsSound now (sign_in user_id token) db h1 h =
      Preserved.create_session-IsSound sec slots now db h user_id token
  step-IsSound now (revoke token) db h1 h =
      Preserved.revoke_session-IsSound sec slots now db h token
  step-IsSound now (attempt limit window key) db h1 h =
      Preserved.record_login_attempt-IsSound sec slots now db h limit window key
  step-IsSound now (clear_attempts key) db h1 h =
      Preserved.clear_login_attempts-IsSound sec slots now db h key
  step-IsSound now (invite actor_id email token) db h1 h =
      Preserved.create_invitation-IsSound sec slots now db h actor_id email token
  step-IsSound now (redeem id token username email password) db h1 h =
      Preserved.redeem_invitation-IsSound sec slots now db h id token username email password
  step-IsSound now (activate user_id) db h1 h =
      Preserved.activate_user-IsSound sec slots now db h user_id
  step-IsSound now (disable actor_id target_id) db h1 h =
      Preserved.disable_user-IsSound sec slots now db h actor_id target_id
  step-IsSound now (register_callback outer user_id slot provider inner lifetime) db h1 h =
      Preserved.register_oauth_callback-IsSound sec slots now db h outer user_id slot provider inner
        lifetime
  step-IsSound now (consume_callback outer provider) db h1 h =
      Preserved.consume_oauth_callback-IsSound sec slots now db h outer provider

  run_from-IsSound :
      (calls : List (ℕ × Call)) (db : Db)
      → 1 ≤ slots
      → IsSound slots db
      → IsSound slots (run calls db)
  unfolding run
  run_from-IsSound [] db h1 h = h
  run_from-IsSound ((now, call) ∷ rest) db h1 h =
      run_from-IsSound rest (step now call db) h1 (step-IsSound now call db h1 h)

  -- With at least one slot, after any calls at any times from an empty database: no two accounts
  -- share an id, a username, an email (in any case) or a slot, each slot lies between 1 and
  -- `slots`, and every session belongs to an active account, a bootstrap session to one that must
  -- change its password and a normal session to one that need not.
  pub run-IsSound : (calls : List (ℕ × Call)) → 1 ≤ slots → IsSound slots (run calls empty_db)
  run-IsSound calls h1 = run_from-IsSound calls empty_db h1 (record {
    accounts = record { distinct = tt; in_range = tt };
    sessions = record { each = tt };
  })
