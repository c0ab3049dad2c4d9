-- ===== src/Gateway/Routes/Login.antt =====
-- What the form of the sign-in page grants, and what a refusal leaves.
use canvas_watcher.Base.{
  ℕ, Bool, true, false, ◌&&◌, Option, none, some, Text, codes, ◌==◌, text_eq, nat_eq, arith,
  if◌then◌else◌, Option-cases, inl, inr, ◌≡◌, refl, text_beq_refl,
}
use canvas_watcher.Gateway.Identity.Schema.{User, Db, is_active}
use canvas_watcher.Gateway.Identity.Tx.{Result, ok, err, identity, value, integrity}
use canvas_watcher.Gateway.Identity.Security.{Security}
use canvas_watcher.Gateway.Identity.Accounts.{find_user}
use canvas_watcher.Gateway.Identity.Sessions.{claim_owner, create_session}
use canvas_watcher.Gateway.Identity.Attempts.{record_login_attempt, clear_login_attempts}
use canvas_watcher.Gateway.Routes.Http.{
  Pairs, Request, Libraries, Config, Answer, signed_in, next, catch_identity, get, form,
  same_origin, is_none,
}
use canvas_watcher.Gateway.Routes.SignIn.{
  login, login_with, first_sign_in, later_sign_in, sign_in_as, admitted, legacy_proves,
  password_proves, username_of, rate_key,
}

module _ (lib : Libraries) (cfg : Config) (sec : Security) where
  -- The account and the secret behind a sign-in.
  pub record Proved (values : Pairs) (destination : Text) (db : Db) : Type 0 where
    pub who : User
    pub found : find_user (username_of lib cfg sec values) db ≡ some who
    pub active : is_active who.status ≡ true
    pub secret :
        (if who.must_change_password
          then legacy_proves lib cfg sec (get (codes "password") values) who.legacy_hash
            && is_none who.bootstrap_claimed_at
            && destination == codes "/watcher/change-password"
          else password_proves lib cfg sec (get (codes "password") values) who.password_hash
            && destination == codes "/watcher/")
        ≡ true

  admitted_to :
      (key to token destination token' : Text) (is_first first' : Bool) (db : Db)
      → (admitted lib cfg sec key to token is_first db).0 ≡ signed_in destination token' first'
      → (destination ≡ to) × (token' ≡ token)
  unfolding clear_login_attempts
  admitted_to key to token destination token' is_first first' db h = (cc h, cc h)

  claimed_to :
      (key to token destination token' : Text) (is_first first' : Bool) (r : Result Bool × Db)
      → (next r (λ claimed db'.
          if claimed
          then admitted lib cfg sec key to token is_first db'
          else (Answer.page 401, db'))).0
        ≡ signed_in destination token' first'
      → (destination ≡ to) × (token' ≡ token)
  claimed_to key to token destination token' is_first first' (ok true, db) h =
      admitted_to key to token destination token' is_first first' db h
  claimed_to key to token destination token' is_first first' (ok false, db) h = ground (arith, h)
  claimed_to key to token destination token' is_first first' (err e, db) h = ground (arith, h)

  created_to :
      (key to token destination token' : Text) (is_first first' : Bool) (r : Result (Unit {0}) × Db)
      → (catch_identity
          (Answer.page 401)
          r
          (λ done db'. admitted lib cfg sec key to token is_first db')).0
        ≡ signed_in destination token' first'
      → (destination ≡ to) × (token' ≡ token)
  created_to key to token destination token' is_first first' (ok done, db) h =
      admitted_to key to token destination token' is_first first' db h
  created_to key to token destination token' is_first first' (err (identity e), db) h =
      ground (arith, h)
  created_to key to token destination token' is_first first' (err value, db) h = ground (arith, h)
  created_to key to token destination token' is_first first' (err integrity, db) h =
      ground (arith, h)

  first_to :
      (now : ℕ) (token key destination token' : Text) (values : Pairs) (u : User) (first : Bool)
      (db : Db)
      → (first_sign_in lib cfg sec now token key values u db).0 ≡ signed_in destination token' first
      → ((legacy_proves lib cfg sec (get (codes "password") values) u.legacy_hash
            && is_none u.bootstrap_claimed_at)
          ≡ true)
        × (destination ≡ codes "/watcher/change-password")
        × (token' ≡ token)
  unfolding first_sign_in
  first_to now token key destination token' values u first db h =
      let k =
        claimed_to key (codes "/watcher/change-password") token destination token' true first
          (claim_owner sec now u.id (get (codes "bootstrap_code") values) token db) in
      (ground (arith, h), ground (arith, h, k), ground (arith, h, k))

  later_to :
      (now : ℕ) (token key destination token' : Text) (values : Pairs) (u : User) (first : Bool)
      (db : Db)
      → (later_sign_in lib cfg sec now token key values u db).0 ≡ signed_in destination token' first
      → (password_proves lib cfg sec (get (codes "password") values) u.password_hash ≡ true)
        × (destination ≡ codes "/watcher/")
        × (token' ≡ token)
  unfolding later_sign_in
  later_to now token key destination token' values u first db h =
      let k =
        created_to key (codes "/watcher/") token destination token' false first
          (create_session sec now u.id token db) in
      (ground (arith, h), ground (arith, h, k), ground (arith, h, k))

  as_to :
      (now : ℕ) (token key destination token' : Text) (values : Pairs) (o : Option User)
      (first : Bool) (db origin : Db)
      → o ≡ find_user (username_of lib cfg sec values) origin
      → (sign_in_as lib cfg sec now token key values o db).0 ≡ signed_in destination token' first
      → (token' ≡ token) × Proved values destination origin
  as_to now token key destination token' values none first db origin e h = ground (arith, h)
  as_to now token key destination token' values (some u) first db origin e h =
      let k1 = first_to now token key destination token' values u first db in
      let k2 = later_to now token key destination token' values u first db in
      (
        ground (arith, h, k1, k2),
        record {
          who = u;
          found = cc e;
          active = ground (arith, h);
          secret = ground (arith, h, k1, k2, text_beq_refl destination);
        },
      )

  attempt_users :
      (now : ℕ) (key : Text) (db : Db)
      → (record_login_attempt sec 10 900 now key db).1.users ≡ db.users
  unfolding record_login_attempt
  attempt_users now key db = refl

  attempt_sessions :
      (now : ℕ) (key : Text) (db : Db)
      → (record_login_attempt sec 10 900 now key db).1.sessions ≡ db.sessions
  unfolding record_login_attempt
  attempt_sessions now key db = refl

  found_user :
      (username : Text) (d db : Db)
      → d.users ≡ db.users
      → find_user username d ≡ find_user username db
  unfolding find_user
  found_user username d db e = cc e

  with_to :
      (now : ℕ) (token destination token' : Text) (req : Request) (values : Pairs) (first : Bool)
      (db : Db)
      → (login_with lib cfg sec now token req values db).0 ≡ signed_in destination token' first
      → (token' ≡ token) × Proved values destination db
  unfolding login_with
  with_to now token destination token' req values first db h =
      from (record_login_attempt sec 10 900 now (rate_key lib cfg sec req values) db)
        (attempt_users now (rate_key lib cfg sec req values) db) h
    where
      key : Text
      key = rate_key lib cfg sec req values

      from :
          (r : Result Bool × Db)
          → r.1.users ≡ db.users
          → (next r (λ allowed db'.
              if allowed
              then sign_in_as lib cfg sec now token key values
                  (find_user (username_of lib cfg sec values) db')
                  db'
              else (Answer.page 429, db'))).0
            ≡ signed_in destination token' first
          → (token' ≡ token) × Proved values destination db
      from (err e, d) same g = ground (arith, g)
      from (ok false, d) same g = ground (arith, g)
      from (ok true, d) same g =
          let o = find_user (username_of lib cfg sec values) d in
          as_to now token key destination token' values o first d db
            (found_user (username_of lib cfg sec values) d db same) g

  -- Where the form of the sign-in page signs somebody in, it came from the gateway's own origin and
  -- names an active account, whose password it proves; the first time, it proves the inherited
  -- password of an account that nobody claimed, and the answer leads to the change of the password.
  -- The session's token is the one that was drawn.
  pub login-Proved :
      (now : ℕ) (token destination token' : Text) (req : Request) (first : Bool) (db : Db)
      → (login lib cfg sec now token req db).0 ≡ signed_in destination token' first
      → (same_origin lib cfg sec req ≡ true)
        × (token' ≡ token)
        × ((values : Pairs) × (form lib cfg sec req ≡ some values) × Proved values destination db)
  unfolding login
  login-Proved now token destination token' req first db h =
      elim (Option-cases (form lib cfg sec req)) [
        | inl e ↦ ground (arith, h, e)
        | inr (values, e) ↦
            let g : (login_with lib cfg sec now token req values db).0
                ≡ signed_in destination token' first =
              ground (arith, h, e) in
            let (t, p) = with_to now token destination token' req values first db g in
            (ground (arith, h), t, (values, e, p))
      ]
