-- ===== src/Gateway/Routes/Refused.antt =====
-- What a refused sign-in leaves of the accounts and the sessions.
use canvas_watcher.Base.{
  ℕ, Bool, true, false, Option, none, some, Text, codes, text_eq, nat_eq, arith, if◌then◌else◌,
  Option-cases, inl, inr, ◌≡◌, refl, ◌∙◌,
}
use canvas_watcher.Gateway.Identity.Schema.{User, Db}
use canvas_watcher.Gateway.Identity.Tx.{
  insert_audit, insert_session, Error, Result, ok, err, identity, value, integrity,
}
use canvas_watcher.Gateway.Identity.Security.{Security}
use canvas_watcher.Gateway.Identity.Accounts.{find_user}
use canvas_watcher.Gateway.Identity.Sessions.{claim_owner, create_session}
use canvas_watcher.Gateway.Identity.Attempts.{record_login_attempt, clear_login_attempts}
use canvas_watcher.Gateway.Routes.Http.{
  Pairs, Request, Libraries, Config, Answer, signed_in, next, catch_identity, get, form,
}
use canvas_watcher.Gateway.Routes.SignIn.{
  login, login_with, first_sign_in, later_sign_in, sign_in_as, admitted, username_of, rate_key,
}

module _ (lib : Libraries) (cfg : Config) (sec : Security) where
  abbrev pub is_signed : Answer → Bool
  is_signed (signed_in destination token first) = true
  is_signed other = false

  -- The accounts and the sessions are the same.
  pub record Kept (db d : Db) : Type 0 where
    pub users : d.users ≡ db.users
    pub sessions : d.sessions ≡ db.sessions

  admitted_signed :
      (key to token : Text) (is_first : Bool) (db : Db)
      → is_signed (admitted lib cfg sec key to token is_first db).0 ≡ true
  unfolding clear_login_attempts
  admitted_signed key to token is_first db = refl

  Kept-refl : (db : Db) → Kept db db
  Kept-refl db = record { users = refl; sessions = refl }

  unclaimed_keeps :
      (now : ℕ) (id code token : Text) (db : Db)
      → (claim_owner sec now id code token db).0 ≡ ok false
      → Kept db (claim_owner sec now id code token db).1
  unfolding claim_owner insert_audit insert_session
  unclaimed_keeps now id code token db h = record {
    users = ground (arith, h);
    sessions = ground (arith, h);
  }

  claim_keeps :
      (now : ℕ) (id code token : Text) (db : Db) (e : Error)
      → (claim_owner sec now id code token db).0 ≡ err e
      → Kept db (claim_owner sec now id code token db).1
  unfolding claim_owner insert_audit insert_session
  claim_keeps now id code token db e h = record {
    users = ground (arith, h);
    sessions = ground (arith, h);
  }

  create_keeps :
      (now : ℕ) (id token : Text) (db : Db) (e : Error)
      → (create_session sec now id token db).0 ≡ err e
      → Kept db (create_session sec now id token db).1
  unfolding create_session insert_session
  create_keeps now id token db e h = record {
    users = ground (arith, h);
    sessions = ground (arith, h);
  }

  claimed_keeps :
      (key to token : Text) (is_first : Bool) (db : Db) (r : Result Bool × Db)
      → (r.0 ≡ ok false → Kept db r.1)
      → ((e : Error) → r.0 ≡ err e → Kept db r.1)
      → is_signed
          (next r (λ claimed db'.
            if claimed
            then admitted lib cfg sec key to token is_first db'
            else (Answer.page 401, db'))).0
        ≡ false
      → Kept db
          (next r (λ claimed db'.
            if claimed
            then admitted lib cfg sec key to token is_first db'
            else (Answer.page 401, db'))).1
  claimed_keeps key to token is_first db (ok true, d) k1 k2 h =
      ground (arith, h, admitted_signed key to token is_first d)
  claimed_keeps key to token is_first db (ok false, d) k1 k2 h = k1 refl
  claimed_keeps key to token is_first db (err e, d) k1 k2 h = k2 e refl

  created_keeps :
      (key to token : Text) (is_first : Bool) (db : Db) (r : Result (Unit {0}) × Db)
      → ((e : Error) → r.0 ≡ err e → Kept db r.1)
      → is_signed
          (catch_identity
            (Answer.page 401)
            r
            (λ done db'. admitted lib cfg sec key to token is_first db')).0
        ≡ false
      → Kept db
          (catch_identity
            (Answer.page 401)
            r
            (λ done db'. admitted lib cfg sec key to token is_first db')).1
  created_keeps key to token is_first db (ok a, d) k h =
      ground (arith, h, admitted_signed key to token is_first d)
  created_keeps key to token is_first db (err (identity e), d) k h = k (identity e) refl
  created_keeps key to token is_first db (err value, d) k h = k value refl
  created_keeps key to token is_first db (err integrity, d) k h = k integrity refl

  first_keeps :
      (now : ℕ) (token key : Text) (values : Pairs) (u : User) (db : Db)
      → is_signed (first_sign_in lib cfg sec now token key values u db).0 ≡ false
      → Kept db (first_sign_in lib cfg sec now token key values u db).1
  unfolding first_sign_in
  first_keeps now token key values u db h =
      let code = get (codes "bootstrap_code") values in
      ground (
        arith,
        h,
        Kept-refl db,
        claimed_keeps key (codes "/watcher/change-password") token true db
            (claim_owner sec now u.id code token db) (unclaimed_keeps now u.id code token db)
            (claim_keeps now u.id code token db),
      )

  later_keeps :
      (now : ℕ) (token key : Text) (values : Pairs) (u : User) (db : Db)
      → is_signed (later_sign_in lib cfg sec now token key values u db).0 ≡ false
      → Kept db (later_sign_in lib cfg sec now token key values u db).1
  unfolding later_sign_in
  later_keeps now token key values u db h = ground (
    arith,
    h,
    Kept-refl db,
    created_keeps key (codes "/watcher/") token false db (create_session sec now u.id token db)
        (create_keeps now u.id token db),
  )

  as_keeps :
      (now : ℕ) (token key : Text) (values : Pairs) (o : Option User) (db : Db)
      → is_signed (sign_in_as lib cfg sec now token key values o db).0 ≡ false
      → Kept db (sign_in_as lib cfg sec now token key values o db).1
  as_keeps now token key values none db h = Kept-refl db
  as_keeps now token key values (some u) db h = ground (
    arith,
    h,
    Kept-refl db,
    first_keeps now token key values u db,
    later_keeps now token key values u db,
  )

  Kept-trans : (a b c : Db) → Kept a b → Kept b c → Kept a c
  Kept-trans a b c h k = record { users = k.users ∙ h.users; sessions = k.sessions ∙ h.sessions }

  attempt_keeps :
      (now : ℕ) (key : Text) (db : Db) → Kept db (record_login_attempt sec 10 900 now key db).1
  unfolding record_login_attempt
  attempt_keeps now key db = record { users = refl; sessions = refl }

  with_keeps :
      (now : ℕ) (token : Text) (req : Request) (values : Pairs) (db : Db)
      → is_signed (login_with lib cfg sec now token req values db).0 ≡ false
      → Kept db (login_with lib cfg sec now token req values db).1
  unfolding login_with
  with_keeps now token req values db h =
      from (record_login_attempt sec 10 900 now key db) (attempt_keeps now key db) h
    where
      key : Text
      key = rate_key lib cfg sec req values

      from :
          (r : Result Bool × Db)
          → Kept db r.1
          → is_signed
              (next r (λ allowed db'.
                if allowed
                then sign_in_as lib cfg sec now token key values
                    (find_user (username_of lib cfg sec values) db')
                    db'
                else (Answer.page 429, db'))).0
            ≡ false
          → Kept db
              (next r (λ allowed db'.
                if allowed
                then sign_in_as lib cfg sec now token key values
                    (find_user (username_of lib cfg sec values) db')
                    db'
                else (Answer.page 429, db'))).1
      from (err e, d) k g = k
      from (ok false, d) k g = k
      from (ok true, d) k g =
          Kept-trans db d _ k
            (as_keeps now token key values (find_user (username_of lib cfg sec values) d) d g)

  -- A sign-in that is refused, on whichever ground or by whichever exception, leaves every account
  -- and every session as they were.
  pub login-Kept :
      (now : ℕ) (token : Text) (req : Request) (db : Db)
      → is_signed (login lib cfg sec now token req db).0 ≡ false
      → Kept db (login lib cfg sec now token req db).1
  unfolding login
  login-Kept now token req db h = elim (Option-cases (form lib cfg sec req)) [
    | inl e ↦ ground (arith, h, e, Kept-refl db)
    | inr (values, e) ↦ ground (arith, h, e, Kept-refl db, with_keeps now token req values db)
  ]
