-- ===== src/Gateway/Identity/SessionLaws.antt =====
-- What a session token is good for, from `create_session` to `revoke_session` and `disable_user`.
use canvas_watcher.Base.{
  ℕ, ◌+◌, ◌*◌, Bool, true, false, ◌&&◌, none, some, [], ◌∷◌, ◌++◌, Text, ◌==◌, ◌≡◌, ◌≢◌, refl,
  text_eq, text_beq_iff, text_beq_refl, arith, any, ltb, if◌then◌else◌, inl, inr, Option-cases,
  Bool-cases, delete_where, fetch_one,
}
use canvas_watcher.Base.Table.Rows.{
  fetch_one_holds, fetch_one-append, fetch_one-delete_where, fetch_one-delete_where-none,
  fetch_one-delete_where_kept, All-fetch_one, fetch_one-none_of_any,
}
use canvas_watcher.Gateway.Identity.Schema.{User, Session, Db, Kind, normal}
use canvas_watcher.Gateway.Identity.Tx.{ok, insert_session, user_by_id, insert_audit}
use canvas_watcher.Gateway.Identity.Security.{Security, token_digest}
use canvas_watcher.Gateway.Identity.Accounts.{week, disable_user}
use canvas_watcher.Gateway.Identity.Sessions.{
  create_session, revoke_session, session, live_row, new_session, active_user,
}
use canvas_watcher.Gateway.Identity.Invariant.{IsSound, session_ok, admits}

-- The row that a successful `create_session` adds is the only one of its digest.
created :
    (sec : Security) (now : ℕ) (user_id token : Text) (db : Db) {db' : Db}
    → create_session sec now user_id token db ≡ (ok tt, db')
    → (u : User) × (user_by_id user_id db.users ≡ some u)
      × (active_user (some u) ≡ true)
      × (any (λ t. t.token_hash == token_digest sec token) db.sessions ≡ false)
      × (db' ≡ record db {
        sessions = db.sessions ++ new_session (token_digest sec token) user_id normal now week ∷ [];
      })
unfolding create_session insert_session
created sec now user_id token db h = elim (Option-cases (user_by_id user_id db.users)) [
  | inl missing ↦ ground arith
  | inr (u, found) ↦ (u, found, ground arith, ground arith, ground arith)
]

live_row-snoc :
    (later : ℕ) (s : Session) (db : Db)
    → any (λ t. t.token_hash == s.token_hash) db.sessions ≡ false
    → active_user (user_by_id s.user_id db.users) ≡ true
    → live_row s.token_hash later (record db { sessions = db.sessions ++ s ∷ [] })
      ≡ (if ltb later s.expires_at then some s else none)
unfolding live_row fetch_one
live_row-snoc later s db fresh may =
    let p : Session → Bool = λ t.
      t.token_hash == s.token_hash
      && ltb later t.expires_at
      && active_user (user_by_id t.user_id db.users) in
    rw (fetch_one-append p db.sessions (s ∷ [])) (
      rw
        (fetch_one-none_of_any p (λ t. t.token_hash == s.token_hash) db.sessions fresh
          (λ t e. ground arith))
        (ground (arith, text_beq_refl s.token_hash)))

-- If `create_session` succeeds, its token names the account and a normal session until seven days
-- have passed, and nothing from then on, as long as no other call intervenes.
pub session-create_session :
    (sec : Security) (now later : ℕ) (user_id token : Text) (db db' : Db)
    → token ≢ []
    → create_session sec now user_id token db ≡ (ok tt, db')
    → (u : User) × (user_by_id user_id db.users ≡ some u)
      × (session sec later token db'
          ≡ (if ltb later (now + 7 * 86400) then some (u, normal) else none))
unfolding session
session-create_session sec now later user_id [] db db' given h = absurd (given refl)
session-create_session sec now later user_id (c ∷ token) db db' given h =
    let (u, found, may, fresh, e) = created sec now user_id (c ∷ token) db h in
    (
      u,
      found,
      ground (
        arith,
        e,
        live_row-snoc later (new_session (token_digest sec (c ∷ token)) user_id normal now week) db,
      ),
    )

live_row-delete_same :
    (digest : Text) (later : ℕ) (db : Db)
    → live_row digest later
        (record db { sessions = delete_where (λ s. s.token_hash == digest) db.sessions })
      ≡ none
unfolding live_row
live_row-delete_same digest later db =
    fetch_one-delete_where-none _ (λ s. s.token_hash == digest) db.sessions (λ s e. ground arith)

live_row-delete_other :
    (digest other : Text) (later : ℕ) (db : Db)
    → other ≢ digest
    → live_row other later
        (record db { sessions = delete_where (λ s. s.token_hash == digest) db.sessions })
      ≡ live_row other later db
unfolding live_row
live_row-delete_other digest other later db ne =
    fetch_one-delete_where _ (λ s. s.token_hash == digest) db.sessions
      (λ s e. ground (arith, text_beq_iff s.token_hash digest, text_beq_iff s.token_hash other))

-- A token that names an account has a live row, and that row names the account.
pub session_row :
    (sec : Security) (later : ℕ) (token : Text) (db : Db) (u : User) (k : Kind)
    → session sec later token db ≡ some (u, k)
    → (s : Session) × (live_row (token_digest sec token) later db ≡ some s)
      × (user_by_id s.user_id db.users ≡ some u)
      × (s.kind ≡ k)
unfolding session
session_row sec later [] db u k h = cc
session_row sec later (c ∷ token) db u k h =
    elim (Option-cases (live_row (token_digest sec (c ∷ token)) later db)) [
      | inl e ↦ ground arith
      | inr (s, e) ↦ (s, e, ground arith, ground arith)
    ]

-- Behind `revoke_session` a token of the revoked digest names nobody, and a token of another digest
-- names whom it named before.
pub session-revoke_session :
    (sec : Security) (later : ℕ) (token other : Text) (db : Db)
    → session sec later other (revoke_session sec token db).1 ≡ (
        if token_digest sec other == token_digest sec token
        then none
        else session sec later other db)
session-revoke_session sec later token other db =
    elim (Bool-cases (token_digest sec other == token_digest sec token)) [
      | inl same ↦
          rw same
            (gone other ((text_beq_iff (token_digest sec other) (token_digest sec token)).0 same))
      | inr differ ↦
          rw differ
            (kept other (λ e. ground (arith, differ, e, text_beq_refl (token_digest sec token))))
    ]
  where
    gone :
        (o : Text)
        → token_digest sec o ≡ token_digest sec token
        → session sec later o (revoke_session sec token db).1 ≡ none
    gone [] e = unfold session in refl
    gone (c ∷ o) e =
        unfold session revoke_session in
        ground (arith, live_row-delete_same (token_digest sec token) later db)

    kept :
        (o : Text)
        → token_digest sec o ≢ token_digest sec token
        → session sec later o (revoke_session sec token db).1 ≡ session sec later o db
    kept [] ne = unfold session in refl
    kept (c ∷ o) ne =
        unfold session revoke_session in
        rw (live_row-delete_other (token_digest sec token) (token_digest sec (c ∷ o)) later db ne)
          (ground arith)

disabled_sessions :
    (now : ℕ) (actor_id target_id : Text) (db db' : Db)
    → disable_user now actor_id target_id db ≡ (ok tt, db')
    → db'.sessions ≡ delete_where (λ s. s.user_id == target_id) db.sessions
unfolding disable_user insert_audit
disabled_sessions now actor_id target_id db db' h = ground arith

-- Once an administrator's `disable_user` succeeds, no token names the disabled account at any time,
-- as long as no other call intervenes.
pub session-disable_user :
    (sec : Security) (now later : ℕ) (actor_id target_id token : Text) (db db' : Db)
    → disable_user now actor_id target_id db ≡ (ok tt, db')
    → (u : User) (k : Kind) → session sec later token db' ≡ some (u, k)
    → u.id ≢ target_id
unfolding live_row
session-disable_user sec now later actor_id target_id token db db' h u k e =
    let (s, row, found, kind) = session_row sec later token db' u k e in
    let p : Session → Bool = λ t.
      t.token_hash == token_digest sec token
      && ltb later t.expires_at
      && active_user (user_by_id t.user_id db'.users) in
    let rest = delete_where (λ t. t.user_id == target_id) db.sessions in
    let row' : fetch_one p rest ≡ some s =
      rw (← disabled_sessions now actor_id target_id db db' h) row in
    ground (
      arith,
      fetch_one-delete_where_kept p (λ t. t.user_id == target_id) db.sessions s row',
      fetch_one_holds (λ v. v.id == s.user_id) db'.users u found,
      text_beq_iff u.id s.user_id,
      text_beq_iff s.user_id target_id,
    )

-- In a sound database the account that a token names is active; with a bootstrap session it still
-- has to change its password, and with a normal one it does not.
pub session-IsSound :
    (sec : Security) (slots later : ℕ) (token : Text) (db : Db) (u : User) (k : Kind)
    → IsSound slots db
    → session sec later token db ≡ some (u, k)
    → admits k (some u) ≡ true
unfolding live_row
session-IsSound sec slots later token db u k h e =
    let (s, row, found, kind) = session_row sec later token db u k e in
    let fits =
      All-fetch_one (λ t. session_ok db.users t ≡ true) _ db.sessions s h.sessions.each row in
    rw (← kind, ← found) fits
