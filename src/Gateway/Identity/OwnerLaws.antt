-- ===== src/Gateway/Identity/OwnerLaws.antt =====
-- The owner's first sign-in: `claim_owner`, then `finish_owner_password_change`.
use canvas_watcher.Base.{
  ℕ, ◌+◌, ◌*◌, ◌<◌, Bool, true, false, ◌&&◌, some, List, [], ◌∷◌, ◌++◌, Text, ◌==◌, ◌≡◌, ◌≢◌, refl,
  text_eq, text_beq_iff, text_beq_refl, any, Option, none, if◌then◌else◌, arith, ltb, inl, inr,
  Option-cases, Bool-cases, not, delete_where, update_where, fetch_one,
}
use canvas_watcher.Base.Table.Rows.{
  fetch_one_holds, fetch_one-update_where, fetch_one-append, fetch_one-delete_where_kept,
  fetch_one-none_of_any, fetch_one-none-any,
}
use canvas_watcher.Gateway.Identity.Schema.{User, Session, Db, Kind, normal}
use canvas_watcher.Gateway.Identity.Tx.{ok, insert_session, user_by_id, user_exists, insert_audit}
use canvas_watcher.Gateway.Identity.Security.{Security, token_digest, hash_password}
use canvas_watcher.Gateway.Identity.Accounts.{week}
use canvas_watcher.Gateway.Identity.SessionLaws.{session_row}
use canvas_watcher.Gateway.Identity.Sessions.{
  claim_owner, finish_owner_password_change, session, live_row, new_session, active_user, claimable,
  claimed, with_password, bootstrap_row,
}

not_claimable_again :
    (sec : Security) (now : ℕ) (user_id code : Text) (users : List User)
    → claimable sec code
        (user_by_id user_id (update_where (λ u. u.id == user_id) (claimed now) users))
      ≡ false
unfolding claimable
not_claimable_again sec now user_id code users =
    rw
      (fetch_one-update_where (λ u. u.id == user_id) (λ u. u.id == user_id) (claimed now) users
        (λ u. refl))
      (elim (Option-cases (user_by_id user_id users)) [
        | inl missing ↦ ground arith
        | inr (u, found) ↦ ground (arith, fetch_one_holds (λ v. v.id == user_id) users u found)
      ])

-- The first sign-in code works once: behind a successful `claim_owner`, another claim of the
-- account fails, with this or any other code, at any time, as long as no other call intervenes.
pub claim_owner_once :
    (sec : Security) (now later : ℕ) (user_id code code' token token' : Text) (db db' : Db)
    → claim_owner sec now user_id code token db ≡ (ok true, db')
    → (claim_owner sec later user_id code' token' db').0 ≡ ok false
unfolding claim_owner insert_session insert_audit
claim_owner_once sec now later user_id code code' token token' db db' h =
    ground (arith, not_claimable_again sec now user_id code' db.users)

-- What a successful password change leaves in the database.
changed :
    (sec : Security) (now : ℕ) (token password new_token uid : Text) (db : Db) {db' : Db}
    → finish_owner_password_change sec now token password new_token db ≡ (ok uid, db')
    → (db'.users
        ≡ update_where (λ u. u.id == uid) (with_password (sec.argon2_hash password)) db.users)
      × (db'.sessions
          ≡ delete_where (λ s. s.user_id == uid) db.sessions
            ++ new_session (token_digest sec new_token) uid normal now week ∷ [])
unfolding finish_owner_password_change hash_password insert_session insert_audit
changed sec now token password new_token uid db h =
    elim (Option-cases (bootstrap_row (token_digest sec token) now db)) [
      | inl e ↦ ground arith
      | inr (old, e) ↦ (ground arith, ground arith)
    ]

-- A row found behind the DELETE and the INSERT is the inserted one, or one of another user.
found_behind :
    (p : Session → Bool) (uid : Text) (new s : Session) (rows : List Session)
    → fetch_one p (delete_where (λ t. t.user_id == uid) rows ++ new ∷ []) ≡ some s
    → (s.user_id == uid) ≡ true
    → (s ≡ new) × (p new ≡ true)
unfolding fetch_one
found_behind p uid new s rows h mine =
    let kept = delete_where (λ t. t.user_id == uid) rows in
    elim (Option-cases (fetch_one p kept)) [
      | inl e ↦ ground (arith, fetch_one-append p kept (new ∷ []))
      | inr (x, e) ↦ ground (
        arith,
        fetch_one-append p kept (new ∷ []),
        fetch_one-delete_where_kept p (λ t. t.user_id == uid) rows x e,
      )
    ]

-- A token that names the owner behind the change is the new one.
only_new :
    (sec : Security) (now later : ℕ) (token password new_token uid other : Text) (db db' : Db)
    → finish_owner_password_change sec now token password new_token db ≡ (ok uid, db')
    → (u : User) (k : Kind) → session sec later other db' ≡ some (u, k)
    → u.id ≡ uid
    → (token_digest sec other ≡ token_digest sec new_token)
      × (k ≡ normal)
      × (later < now + 7 * 86400)
unfolding live_row
only_new sec now later token password new_token uid other db db' h u k e same =
    let (s, row, found, kind) = session_row sec later other db' u k e in
    let new = new_session (token_digest sec new_token) uid normal now week in
    let p : Session → Bool = λ t.
      t.token_hash == token_digest sec other
      && ltb later t.expires_at
      && active_user (user_by_id t.user_id db'.users) in
    let row' : fetch_one p (delete_where (λ t. t.user_id == uid) db.sessions ++ new ∷ []) ≡ some s =
      rw (← (changed sec now token password new_token uid db h).1) row in
    let holder = fetch_one_holds (λ v. v.id == s.user_id) db'.users u found in
    let mine : (s.user_id == uid) ≡ true =
      ground (arith, holder, text_beq_iff u.id s.user_id, text_beq_iff s.user_id uid) in
    let (is_new, live) = found_behind p uid new s db.sessions row' mine in
    ground (
      arith,
      is_new,
      live,
      kind,
      text_beq_iff (token_digest sec new_token) (token_digest sec other),
    )

-- The inserted row is the only one of its digest, and its user is there.
inserted :
    (sec : Security) (now : ℕ) (token password new_token uid : Text) (db db' : Db)
    → finish_owner_password_change sec now token password new_token db ≡ (ok uid, db')
    → (any
          (λ t. t.token_hash == token_digest sec new_token)
          (delete_where (λ s. s.user_id == uid) db.sessions)
        ≡ false)
      × (user_exists uid db'.users ≡ true)
unfolding finish_owner_password_change hash_password insert_session insert_audit
inserted sec now token password new_token uid db db' h =
    elim (Option-cases (bootstrap_row (token_digest sec token) now db)) [
      | inl e ↦ ground arith
      | inr (old, e) ↦ (ground arith, ground arith)
    ]

-- What the new token names, until it expires: an account that is active.
abbrev pub named : ℕ → ℕ → User → Option (User × Kind)
named now later u =
    if ltb later (now + 7 * 86400) && active_user (some u) then some (u, normal) else none

-- The row that is live behind an INSERT of a new digest.
live_behind :
    (later : ℕ) (new : Session) (users : List User) (kept : List Session)
    → any (λ t. t.token_hash == new.token_hash) kept ≡ false
    → fetch_one
        (λ t.
          t.token_hash == new.token_hash
          && ltb later t.expires_at
          && active_user (user_by_id t.user_id users))
        (kept ++ new ∷ [])
      ≡ (if ltb later new.expires_at && active_user (user_by_id new.user_id users)
          then some new
          else none)
unfolding fetch_one
live_behind later new users kept fresh =
    let p : Session → Bool = λ t.
      t.token_hash == new.token_hash
      && ltb later t.expires_at
      && active_user (user_by_id t.user_id users) in
    rw (fetch_one-append p kept (new ∷ [])) (
      rw
        (fetch_one-none_of_any p (λ t. t.token_hash == new.token_hash) kept fresh
          (λ t e. ground (arith, e)))
        (ground (arith, text_beq_refl new.token_hash)))

new_named :
    (sec : Security) (now later c : ℕ) (token password new_token uid : Text) (db db' : Db)
    → finish_owner_password_change sec now token password (c ∷ new_token) db ≡ (ok uid, db')
    → (u : User) × (user_by_id uid db'.users ≡ some u)
      × (session sec later (c ∷ new_token) db' ≡ named now later u)
new_named sec now later c token password new_token uid db db' h =
    let (fresh, there) = inserted sec now token password (c ∷ new_token) uid db db' h in
    let digest = token_digest sec (c ∷ new_token) in
    let kept = delete_where (λ s. s.user_id == uid) db.sessions in
    let new = new_session digest uid normal now week in
    let live : live_row digest later db' ≡ (
        if ltb later (now + 7 * 86400) && active_user (user_by_id uid db'.users)
        then some new
        else none) =
      unfold live_row in
      rw (changed sec now token password (c ∷ new_token) uid db h).1
        (live_behind later new db'.users kept fresh) in
    elim (Option-cases (user_by_id uid db'.users)) [
      | inl missing ↦ absurd (cc (there, fetch_one-none-any (λ u. u.id == uid) db'.users missing))
      | inr (u, found) ↦ (u, found, shown u found live)
    ]
  where
    shown :
        (u : User)
        → user_by_id uid db'.users ≡ some u
        → live_row (token_digest sec (c ∷ new_token)) later db' ≡ (
            if ltb later (now + 7 * 86400) && active_user (user_by_id uid db'.users)
            then some (new_session (token_digest sec (c ∷ new_token)) uid normal now week)
            else none)
        → session sec later (c ∷ new_token) db' ≡ named now later u
    shown u found live = unfold session in ground (arith, found, live)

abbrev pub names : Text → Option (User × Kind) → Bool
names uid none = false
names uid (some (u, k)) = u.id == uid

-- Behind a successful password change of the owner, and as long as no other call intervenes, the new
-- token names the owner with a normal session until seven days have passed, where the account is
-- active; and no token of another digest names the owner.
pub session-finish_owner_password_change :
    (sec : Security) (now later : ℕ) (token password new_token uid other : Text) (db db' : Db)
    → new_token ≢ []
    → finish_owner_password_change sec now token password new_token db ≡ (ok uid, db')
    → ((u : User) × (user_by_id uid db'.users ≡ some u)
        × (session sec later new_token db' ≡ named now later u))
      × ((names uid (session sec later other db')
            && not (token_digest sec other == token_digest sec new_token))
          ≡ false)
session-finish_owner_password_change sec now later token password [] uid other db db' given h =
    absurd (given refl)
session-finish_owner_password_change sec now later token password (c ∷ t) uid other db db' given h =
    (
      new_named sec now later c token password t uid db db' h,
      elim (Option-cases (session sec later other db')) [
        | inl e ↦ ground (arith, e)
        | inr ((u, k), e) ↦ elim (Bool-cases (u.id == uid)) [
          | inl same ↦
              let new =
                only_new sec now later token password (c ∷ t) uid other db db' h u k e
                  ((text_beq_iff u.id uid).0 same) in
              ground (
                arith,
                e,
                same,
                (text_beq_iff (token_digest sec other) (token_digest sec (c ∷ t))).1 new.0,
              )
          | inr away ↦ ground (arith, e, away)
        ]
      ],
    )
