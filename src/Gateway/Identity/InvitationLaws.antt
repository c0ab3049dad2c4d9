-- ===== src/Gateway/Identity/InvitationLaws.antt =====
-- Registration by invitation: `redeem_invitation`, `activate_user`.
use canvas_watcher.Base.{
  ℕ, ◌≤◌, ◌<◌, Bool, true, false, none, some, List, [], ◌∷◌, Text, ◌==◌, ◌≡◌, ◌≢◌, refl, text_eq,
  text_beq_iff, text_beq_refl, beq_comm, ◌++◌, arith, any, update_where, fetch_one,
}
use canvas_watcher.Base.Table.Rows.{
  fetch_one-update_where-none, fetch_one-none_of_any, fetch_one-append,
}
use canvas_watcher.Gateway.Identity.Schema.{Invitation, Db, User, pending}
use canvas_watcher.Gateway.Identity.Tx.{
  lift, write, ◌>>=◌, clashes, Result, ok, err, identity, insert_user, insert_audit, user_by_id,
  account_unavailable,
}
use canvas_watcher.Gateway.Identity.Security.{Security, token_digest, hash_password}
use canvas_watcher.Gateway.Identity.Names.{normalize_username, normalize_email}
use canvas_watcher.Gateway.Identity.Sessions.{create_session}
use canvas_watcher.Gateway.Identity.Slots.{next_slot-some}
use canvas_watcher.Gateway.Identity.Accounts.{
  new_user, redeem_invitation, redeem_rows, open_invitation, is_open, redeemed, next_slot,
  slot_used,
}

-- What a successful registration did.
pub record Redeemed (slots : ℕ) (digest user_id : Text) (slot : ℕ) (db db' : Db) : Type 0 where
  pub slot_found : next_slot slots db.users ≡ some slot
  pub closed :
      db'.invitations ≡ update_where (λ i. i.token_hash == digest) (redeemed user_id) db.invitations
  pub username : Text
  pub email : Text
  pub hash : Text
  pub now : ℕ
  pub fresh : any (clashes (new_user user_id now username email hash pending slot)) db.users ≡ false
  pub added : db'.users ≡ db.users ++ new_user user_id now username email hash pending slot ∷ []

Redeemed-redeem_rows :
    (slots : ℕ) (id : Text) (now : ℕ) (digest username email hash user_id : Text) (slot : ℕ)
    (db db' : Db)
    → redeem_rows slots id now digest username email hash db ≡ (ok (user_id, slot), db')
    → Redeemed slots digest user_id slot db db'
unfolding redeem_rows insert_user insert_audit
Redeemed-redeem_rows slots id now digest username email hash user_id slot db db' h = record {
  slot_found = ground arith;
  closed = ground arith;
  username = username;
  email = email;
  hash = hash;
  now = now;
  fresh = ground arith;
  added = ground arith;
}

-- The same of the whole call: it reaches its transaction with the texts normalised.
Redeemed-redeem_invitation :
    (sec : Security) (slots : ℕ) (id : Text) (now : ℕ)
    (token username email password user_id : Text) (slot : ℕ) (db db' : Db)
    → redeem_invitation sec slots id now token username email password db
      ≡ (ok (user_id, slot), db')
    → Redeemed slots (token_digest sec token) user_id slot db db'
unfolding redeem_invitation
Redeemed-redeem_invitation sec slots id now token username email password user_id slot db db' h =
    go (normalize_username username) (normalize_email sec.str_lower email)
      (hash_password sec password) h
  where
    go :
        (u e p : Result Text)
        → (lift u >>= λ username'. lift e >>= λ email'. lift p >>= λ hash.
              write (redeem_rows slots id now (token_digest sec token) username' email' hash))
            db
          ≡ (ok (user_id, slot), db')
        → Redeemed slots (token_digest sec token) user_id slot db db'
    go (err x) e p k = cc
    go (ok u) (err x) p k = cc
    go (ok u) (ok e) (err x) k = cc
    go (ok u) (ok e) (ok p) k =
        Redeemed-redeem_rows slots id now (token_digest sec token) u e p user_id slot db db'
          (ground arith)

closed_for_good :
    (digest user_id : Text) (later : ℕ) (rows : List Invitation)
    → open_invitation digest later
        (update_where (λ i. i.token_hash == digest) (redeemed user_id) rows)
      ≡ none
unfolding open_invitation
closed_for_good digest user_id later rows =
    fetch_one-update_where-none (is_open digest later) (λ i. i.token_hash == digest)
      (redeemed user_id) rows (λ i. ground arith)

fetch_new : (user_id : Text) (u : User) → u.id ≡ user_id → user_by_id user_id (u ∷ []) ≡ some u
unfolding fetch_one
fetch_new user_id u e = ground (arith, text_beq_iff u.id user_id)

-- An invitation registers one account: behind a successful `redeem_invitation` no call with the
-- same token succeeds, whatever its other arguments, at any time, as long as no other call
-- intervenes.
pub redeem_invitation_once :
    (sec : Security) (slots : ℕ) (id : Text) (now : ℕ)
    (token username email password user_id : Text) (slot : ℕ) (db db' : Db)
    → redeem_invitation sec slots id now token username email password db
      ≡ (ok (user_id, slot), db')
    → (id' : Text) (later : ℕ) (username' email' password' : Text) (r : Text × ℕ)
    → (redeem_invitation sec slots id' later token username' email' password' db').0 ≢ ok r
unfolding redeem_invitation redeem_rows
redeem_invitation_once sec slots id now token username email password user_id slot db db' h id'
      later username' email' password' r e =
    let d =
      Redeemed-redeem_invitation sec slots id now token username email password user_id slot db db'
        h in
    ground (arith, d.closed, closed_for_good (token_digest sec token) user_id later db.invitations)

-- A registered account gets a slot of its own: the smallest from 2 to `slots` that no account has.
pub redeem_invitation-slot :
    (sec : Security) (slots : ℕ) (id : Text) (now : ℕ)
    (token username email password user_id : Text) (slot : ℕ) (db db' : Db)
    → redeem_invitation sec slots id now token username email password db
      ≡ (ok (user_id, slot), db')
    → (2 ≤ slot)
      × (slot ≤ slots)
      × (slot_used slot db.users ≡ false)
      × ((k : ℕ) → 2 ≤ k → k < slot → slot_used k db.users ≡ true)
redeem_invitation-slot sec slots id now token username email password user_id slot db db' h =
    next_slot-some slots slot db.users
      (Redeemed-redeem_invitation sec slots id now token username email password user_id slot db db'
        h).slot_found

-- A registered account cannot sign in before it is activated: behind a successful
-- `redeem_invitation`, `create_session` for the new account is refused at any time, as long as no
-- other call intervenes.
pub redeem_invitation-create_session :
    (sec : Security) (slots : ℕ) (id : Text) (now : ℕ)
    (token username email password user_id : Text) (slot : ℕ) (db db' : Db)
    → redeem_invitation sec slots id now token username email password db
      ≡ (ok (user_id, slot), db')
    → (later : ℕ) (session_token : Text)
    → create_session sec later user_id session_token db' ≡ (err (identity account_unavailable), db')
unfolding create_session
redeem_invitation-create_session sec slots id now token username email password user_id slot db db'
      h later session_token =
    let d =
      Redeemed-redeem_invitation sec slots id now token username email password user_id slot db db'
        h in
    let new = new_user user_id d.now d.username d.email d.hash pending slot in
    let p : User → Bool = λ u. u.id == user_id in
    let gone =
      fetch_one-none_of_any p (clashes new) db.users d.fresh
        (λ u e. unfold clashes in ground (arith, beq_comm u.id user_id)) in
    ground (
      arith,
      d.added,
      gone,
      fetch_one-append p db.users (new ∷ []),
      text_beq_refl user_id,
      fetch_new user_id new refl,
    )
