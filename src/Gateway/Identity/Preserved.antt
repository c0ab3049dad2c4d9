-- ===== src/Gateway/Identity/Preserved.antt =====
-- Every transaction of `IdentityStore` keeps the invariant, whether it commits or raises.
use canvas_watcher.Base.{
  inl, inr, Option-cases, ℕ, ◌≤◌, Bool, true, not, ◌&&◌, some, List, Text, ◌==◌, ◌≡◌, refl, text_eq,
  text_beq_iff, arith, delete_where, update_where,
}
use canvas_watcher.Base.Table.Rows.{fetch_one_holds, All-fetch_one}
use canvas_watcher.Gateway.Identity.Schema.{
  User, Session, Db, bootstrap, normal, active, pending, disabled, is_pending, is_disabled,
}
use canvas_watcher.Gateway.Identity.Tx.{
  insert_user, insert_session, insert_preview, insert_audit, insert_invitation, insert_callback,
  user_by_id,
}
use canvas_watcher.Gateway.Identity.Security.{Security, token_digest, hash_password}
use canvas_watcher.Gateway.Identity.Accounts.{
  week, next_slot, create_owner, create_preview_account, redeem_invitation, create_invitation,
  preview_rows, redeem_rows, preview_rows, redeem_rows, activate_user, disable_user, new_user,
}
use canvas_watcher.Gateway.Identity.Sessions.{
  claim_owner, finish_owner_password_change, create_session, revoke_session, bootstrap_row, claimed,
  with_password, new_session, claimable,
}
use canvas_watcher.Gateway.Identity.Attempts.{record_login_attempt, clear_login_attempts}
use canvas_watcher.Gateway.Identity.Callbacks.{register_oauth_callback, consume_oauth_callback}
use canvas_watcher.Gateway.Identity.Slots.{next_slot-some}
use canvas_watcher.Gateway.Identity.Invariant.{
  SessionsOk, IsSound, Accounts-append, Accounts-update, SessionsOk-append, SessionsOk-update,
  SessionsOk-update_delete, SessionsOk-delete, SessionsOk-snoc, session_ok, session_ok-updated,
}

-- The new session of a claimed owner is one that the account may have.
session_ok-claimed :
    (sec : Security) (now : ℕ) (user_id code digest : Text) (users : List User)
    → claimable sec code (user_by_id user_id users) ≡ true
    → session_ok
        (update_where (λ u. u.id == user_id) (claimed now) users)
        (new_session digest user_id bootstrap now 600)
      ≡ true
unfolding claimable
session_ok-claimed sec now user_id code digest users h =
    rw
      (session_ok-updated (λ u. u.id == user_id) (claimed now) users
        (new_session digest user_id bootstrap now 600) (λ u. (refl, refl, refl, refl)))
      (ground (arith, fetch_one_holds (λ u. u.id == user_id) users))

-- So is the session that the owner has once the password is changed.
session_ok-changed :
    (digest new_digest hash : Text) (now : ℕ) (db : Db) (old : Session)
    → SessionsOk db.users db.sessions
    → bootstrap_row digest now db ≡ some old
    → session_ok
        (update_where (λ u. u.id == old.user_id) (with_password hash) db.users)
        (new_session new_digest old.user_id normal now week)
      ≡ true
unfolding bootstrap_row
session_ok-changed digest new_digest hash now db old h e =
    let ok_old = All-fetch_one (λ s. session_ok db.users s ≡ true) _ db.sessions old h.each e in
    rw
      (session_ok-updated (λ u. u.id == old.user_id) (with_password hash) db.users
        (new_session new_digest old.user_id normal now week) (λ u. (refl, refl, refl, refl)))
      (elim (Option-cases (user_by_id old.user_id db.users)) [
        | inl missing ↦ ground (arith, ok_old)
        | inr (u, found) ↦
            ground (arith, ok_old, fetch_one_holds (λ v. v.id == old.user_id) db.users u found)
      ])

users-insert_preview : (id : Text) (db : Db) → (insert_preview id db).1.users ≡ db.users
unfolding insert_preview
users-insert_preview id db = ground arith

sessions-insert_preview : (id : Text) (db : Db) → (insert_preview id db).1.sessions ≡ db.sessions
unfolding insert_preview
sessions-insert_preview id db = ground arith

module _ (sec : Security) (slots now : ℕ) (db : Db) (h : IsSound slots db) where
  pub create_session-IsSound :
      (user_id token : Text) → IsSound slots (create_session sec now user_id token db).1
  unfolding create_session insert_session
  create_session-IsSound user_id token = ground (
    arith,
    h.sessions,
    SessionsOk-snoc (new_session (token_digest sec token) user_id normal now week) db.users
        db.sessions,
  )

  pub revoke_session-IsSound : (token : Text) → IsSound slots (revoke_session sec token db).1
  unfolding revoke_session
  revoke_session-IsSound token = record {
    accounts = h.accounts;
    sessions =
        SessionsOk-delete (λ s. s.token_hash == token_digest sec token) db.users db.sessions
          h.sessions;
  }

  pub activate_user-IsSound : (user_id : Text) → IsSound slots (activate_user now user_id db).1
  unfolding activate_user insert_audit
  activate_user-IsSound user_id = ground (
    arith,
    h.accounts,
    h.sessions,
    Accounts-update slots (λ u. u.id == user_id && is_pending u.status)
        (λ u. record u { status = active }) db.users (λ u. (refl, refl, refl, refl)),
    SessionsOk-update (λ u. u.id == user_id && is_pending u.status)
        (λ u. record u { status = active }) db.users db.sessions (λ u. (refl, refl, refl, refl))
        (λ kind u q e. ground arith),
  )

  pub disable_user-IsSound :
      (actor_id target_id : Text) → IsSound slots (disable_user now actor_id target_id db).1
  unfolding disable_user insert_audit
  disable_user-IsSound actor_id target_id = ground (
    arith,
    h.accounts,
    h.sessions,
    Accounts-update slots (λ u. u.id == target_id && not (is_disabled u.status))
        (λ u. record u { status = disabled }) db.users (λ u. (refl, refl, refl, refl)),
    SessionsOk-update_delete target_id (λ u. u.id == target_id && not (is_disabled u.status))
        (λ u. record u { status = disabled }) db.users db.sessions (λ u. (refl, refl, refl, refl))
        (λ u q. ground (arith, text_beq_iff u.id target_id)),
  )

  pub claim_owner-IsSound :
      (user_id code token : Text) → IsSound slots (claim_owner sec now user_id code token db).1
  unfolding claim_owner insert_session insert_audit
  claim_owner-IsSound user_id code token =
      let s : Session = new_session (token_digest sec token) user_id bootstrap now 600 in
      let q : User → Bool = λ u. u.id == user_id in
      ground (
        arith,
        h.accounts,
        h.sessions,
        Accounts-update slots q (claimed now) db.users (λ u. (refl, refl, refl, refl)),
        SessionsOk-update q (claimed now) db.users db.sessions (λ u. (refl, refl, refl, refl))
            (λ kind u t e. ground arith),
        SessionsOk-snoc s (update_where q (claimed now) db.users) db.sessions,
        session_ok-claimed sec now user_id code (token_digest sec token) db.users,
      )

  pub finish_owner_password_change-IsSound :
      (token password new_token : Text)
      → IsSound slots (finish_owner_password_change sec now token password new_token db).1
  unfolding finish_owner_password_change hash_password insert_session insert_audit
  finish_owner_password_change-IsSound token password new_token =
      elim (Option-cases (bootstrap_row (token_digest sec token) now db)) [
        | inl e ↦ ground arith
        | inr (old, e) ↦
            let q : User → Bool = λ u. u.id == old.user_id in
            let f : User → User = with_password (sec.argon2_hash password) in
            let mine : Session → Bool = λ s. s.user_id == old.user_id in
            ground (
              arith,
              h.accounts,
              h.sessions,
              Accounts-update slots q f db.users (λ u. (refl, refl, refl, refl)),
              SessionsOk-update_delete old.user_id q f db.users db.sessions
                  (λ u. (refl, refl, refl, refl)) (λ u. (text_beq_iff u.id old.user_id).0),
              SessionsOk-snoc (new_session (token_digest sec new_token) old.user_id normal now week)
                  (update_where q f db.users) (delete_where mine db.sessions),
              session_ok-changed (token_digest sec token) (token_digest sec new_token)
                  (sec.argon2_hash password) now db old h.sessions e,
            )
      ]

  insert_user-IsSound :
      (u : User) → 1 ≤ u.slot → u.slot ≤ slots → IsSound slots (insert_user u db).1
  unfolding insert_user
  insert_user-IsSound u lo hi = ground (
    arith,
    h.accounts,
    h.sessions,
    Accounts-append slots u db.users,
    SessionsOk-append u db.users db.sessions,
  )

  pub create_owner-IsSound :
      (user_id username email legacy_hash code : Text)
      → 1 ≤ slots
      → IsSound slots (create_owner sec user_id now username email legacy_hash code db).1
  unfolding create_owner insert_audit
  create_owner-IsSound user_id username email legacy_hash code h1 =
      grind (arith, insert_user-IsSound)

  preview_rows-IsSound :
      (user_id username email hash : Text)
      → IsSound slots (preview_rows slots user_id now username email hash db).1
  unfolding preview_rows insert_audit insert_preview
  preview_rows-IsSound user_id username email hash =
      elim (Option-cases (next_slot slots db.users)) [
        | inl full ↦ ground arith
        | inr (m, e) ↦ ground (
          arith,
          next_slot-some slots m db.users e,
          insert_user-IsSound (new_user user_id now username email hash active m),
        )
      ]

  pub create_preview_account-IsSound :
      (user_id username email password : Text)
      → IsSound slots (create_preview_account sec slots user_id now username email password db).1
  unfolding create_preview_account hash_password
  create_preview_account-IsSound user_id username email password =
      grind (arith, preview_rows-IsSound)

  redeem_rows-IsSound :
      (user_id digest username email hash : Text)
      → IsSound slots (redeem_rows slots user_id now digest username email hash db).1
  unfolding redeem_rows insert_audit
  redeem_rows-IsSound user_id digest username email hash =
      elim (Option-cases (next_slot slots db.users)) [
        | inl full ↦ ground arith
        | inr (m, e) ↦ ground (
          arith,
          next_slot-some slots m db.users e,
          insert_user-IsSound (new_user user_id now username email hash pending m),
        )
      ]

  pub redeem_invitation-IsSound :
      (user_id token username email password : Text)
      → IsSound slots (redeem_invitation sec slots user_id now token username email password db).1
  unfolding redeem_invitation
  redeem_invitation-IsSound user_id token username email password =
      grind (arith, redeem_rows-IsSound)

  pub create_invitation-IsSound :
      (actor_id email token : Text)
      → IsSound slots (create_invitation sec slots now actor_id email token db).1
  unfolding create_invitation insert_invitation insert_audit
  create_invitation-IsSound actor_id email token = ground (arith, h.accounts, h.sessions)

  pub record_login_attempt-IsSound :
      (limit window : ℕ) (key : Text)
      → IsSound slots (record_login_attempt sec limit window now key db).1
  unfolding record_login_attempt
  record_login_attempt-IsSound limit window key = ground (arith, h.accounts, h.sessions)

  pub clear_login_attempts-IsSound :
      (key : Text) → IsSound slots (clear_login_attempts sec key db).1
  unfolding clear_login_attempts
  clear_login_attempts-IsSound key = ground (arith, h.accounts, h.sessions)

  pub register_oauth_callback-IsSound :
      (outer user_id : Text) (slot : ℕ) (provider inner : Text) (lifetime : ℕ)
      → IsSound slots
          (register_oauth_callback sec now outer user_id slot provider inner lifetime db).1
  unfolding register_oauth_callback insert_callback
  register_oauth_callback-IsSound outer user_id slot provider inner lifetime =
      ground (arith, h.accounts, h.sessions)

  pub consume_oauth_callback-IsSound :
      (outer provider : Text) → IsSound slots (consume_oauth_callback sec now outer provider db).1
  unfolding consume_oauth_callback
  consume_oauth_callback-IsSound outer provider = ground (arith, h.accounts, h.sessions)
