-- ===== src/Gateway/Routes/SignIn.antt =====
-- identity-gateway/aw_gateway/main.py: sign-in, the change of the password, registration and
-- sign-out. The time and the issued token are arguments of each call.
use canvas_watcher.Base.{
  ℕ, Bool, true, false, not, ◌&&◌, Option, none, some, ◌++◌, Text, codes, ◌==◌, text_eq, nat_eq,
  if◌then◌else◌, strip,
}
use canvas_watcher.Gateway.Identity.Schema.{User, Kind, Db, is_active, is_bootstrap}
use canvas_watcher.Gateway.Identity.Security.{Security, token_digest, verify_password}
use canvas_watcher.Gateway.Identity.Accounts.{find_user, redeem_invitation}
use canvas_watcher.Gateway.Identity.Sessions.{
  claim_owner, finish_owner_password_change, create_session, session, revoke_session,
}
use canvas_watcher.Gateway.Identity.Attempts.{record_login_attempt, clear_login_attempts}
use canvas_watcher.Gateway.Routes.Http.{
  Pairs, Request, Libraries, Config, Answer, page, json_error, redirect, signed_in, signed_out,
  next, catch_identity, catch_value, get, is_given, is_none, current, same_origin, client_address,
  csrf_ok, form,
}

module _ (lib : Libraries) (cfg : Config) (sec : Security) where
  abbrev to_password_change : Kind → Answer
  to_password_change kind =
      if is_bootstrap kind
      then redirect (codes "/watcher/change-password")
      else redirect (codes "/watcher/")

  unfoldable pub login_page : ℕ → Request → Db → Answer × Db
  unfolding session
  login_page now req db = elim (current lib cfg sec now req db) [
    | none ↦ (page 200, db)
    | some (user, kind) ↦ (to_password_change kind, db)
  ]

  abbrev pub username_of : Pairs → Text
  username_of values = strip (get (codes "username") values)

  abbrev pub rate_key : Request → Pairs → Text
  rate_key req values =
      codes "login:"
      ++ client_address lib cfg sec req
      ++ codes ":"
      ++ sec.str_lower (username_of values)

  -- `identity.clear_login_attempts(rate_key)`, and the answer with the cookies.
  abbrev pub admitted : Text → Text → Text → Bool → Db → Answer × Db
  admitted key destination token is_first db =
      next (clear_login_attempts sec key db) (λ u db'. (signed_in destination token is_first, db'))

  -- `not user["legacy_hash"] or not verify_legacy_password(...)`, negated
  abbrev pub legacy_proves : Text → Option Text → Bool
  legacy_proves password none = false
  legacy_proves password (some encoded) = is_given encoded && lib.verify_legacy password encoded

  abbrev pub password_proves : Text → Option Text → Bool
  password_proves password none = false
  password_proves password (some encoded) = is_given encoded && verify_password sec password encoded

  unfoldable pub first_sign_in : ℕ → Text → Text → Pairs → User → Db → Answer × Db
  unfolding claim_owner clear_login_attempts get
  first_sign_in now token key values u db =
      if not (legacy_proves (get (codes "password") values) u.legacy_hash)
      then (page 401, db)
      else if not (is_none u.bootstrap_claimed_at)
      then (page 409, db)
      else if not (is_given (get (codes "bootstrap_code") values))
      then (page 403, db)
      else next (claim_owner sec now u.id (get (codes "bootstrap_code") values) token db)
          λ claimed db'.
            if claimed
            then admitted key (codes "/watcher/change-password") token true db'
            else (page 401, db')

  unfoldable pub later_sign_in : ℕ → Text → Text → Pairs → User → Db → Answer × Db
  unfolding create_session clear_login_attempts get verify_password
  later_sign_in now token key values u db =
      if not (password_proves (get (codes "password") values) u.password_hash)
      then (page 401, db)
      else catch_identity (page 401) (create_session sec now u.id token db)
          λ done db'. admitted key (codes "/watcher/") token false db'

  abbrev pub sign_in_as : ℕ → Text → Text → Pairs → Option User → Db → Answer × Db
  sign_in_as now token key values none db = (page 401, db)
  sign_in_as now token key values (some u) db =
      if not (is_active u.status)
      then (page 401, db)
      else if u.must_change_password
      then first_sign_in now token key values u db
      else later_sign_in now token key values u db

  unfoldable pub login_with : ℕ → Text → Request → Pairs → Db → Answer × Db
  unfolding record_login_attempt find_user client_address strip get first_sign_in later_sign_in
  login_with now token req values db =
      next (record_login_attempt sec 10 900 now (rate_key req values) db) λ allowed db'.
        if allowed
        then sign_in_as now token (rate_key req values) values (find_user (username_of values) db')
            db'
        else (page 429, db')

  unfoldable pub login : ℕ → Text → Request → Db → Answer × Db
  unfolding same_origin form login_with
  login now token req db =
      if not (same_origin lib cfg sec req) then (page 403, db) else elim (form lib cfg sec req) [
        | none ↦ (page 400, db)
        | some values ↦ login_with now token req values db
      ]

  unfoldable pub change_password_page : ℕ → Request → Db → Answer × Db
  unfolding session
  change_password_page now req db = elim (current lib cfg sec now req db) [
    | none ↦ (redirect (codes "/watcher/login"), db)
    | some (user, kind) ↦
        if is_bootstrap kind then (page 200, db) else (redirect (codes "/watcher/login"), db)
  ]

  unfoldable pub change_password_with : ℕ → Text → Request → Pairs → Db → Answer × Db
  unfolding csrf_ok get finish_owner_password_change
  change_password_with now token req values db =
      if not (csrf_ok lib cfg sec req (get (codes "csrf") values))
      then (json_error (codes "CSRF_REQUIRED") 403, db)
      else if not (get (codes "new_password") values == get (codes "confirm_password") values)
      then (page 400, db)
      else catch_value (page 400)
          (finish_owner_password_change sec now req.aw_session (get (codes "new_password") values)
            token db)
          λ done db'. (signed_in (codes "/watcher/") token false, db')

  unfoldable pub change_password : ℕ → Text → Request → Db → Answer × Db
  unfolding session form change_password_with
  change_password now token req db = elim (current lib cfg sec now req db) [
    | none ↦ (json_error (codes "AUTH_REQUIRED") 401, db)
    | some (user, kind) ↦
        if not (is_bootstrap kind)
        then (json_error (codes "AUTH_REQUIRED") 401, db)
        else elim (form lib cfg sec req) [
          | none ↦ (page 400, db)
          | some values ↦ change_password_with now token req values db
        ]
  ]

  -- An attempt that is counted; at the limit it raises.
  abbrev pub limited : ℕ → ℕ → Text → (Db → Answer × Db) → Db → Answer × Db
  limited now limit key route db =
      catch_value (page 400) (record_login_attempt sec limit 900 now key db)
        λ allowed db'. if allowed then route db' else (page 400, db')

  -- `id` is the random id of the new account.
  abbrev pub redeem_account : ℕ → Text → Pairs → Db → Answer × Db
  redeem_account now id values db =
      catch_value (page 400)
        (redeem_invitation sec cfg.slots id now (get (codes "invite") values)
          (get (codes "username") values) (get (codes "email") values)
          (get (codes "password") values) db)
        λ account db'. (page 202, db')

  unfoldable pub register_with : ℕ → Text → Request → Pairs → Db → Answer × Db
  unfolding record_login_attempt redeem_invitation client_address token_digest get
  register_with now id req values =
      let address = client_address lib cfg sec req in
      limited now 50 (codes "register-ip:" ++ address) (
        limited now 8
          (codes "register:"
            ++ address
            ++ codes ":"
            ++ token_digest sec (get (codes "invite") values))
          (redeem_account now id values))

  unfoldable pub register : ℕ → Text → Request → Db → Answer × Db
  unfolding same_origin form register_with
  register now id req db =
      if not (same_origin lib cfg sec req)
      then (json_error (codes "INVALID_ORIGIN") 403, db)
      else elim (form lib cfg sec req) [
        | none ↦ (page 400, db)
        | some values ↦ register_with now id req values db
      ]

  unfoldable pub logout_with : Request → Pairs → Db → Answer × Db
  unfolding csrf_ok get revoke_session
  logout_with req values db =
      if not (csrf_ok lib cfg sec req (get (codes "csrf") values))
      then (json_error (codes "CSRF_REQUIRED") 403, db)
      else next (revoke_session sec req.aw_session db) λ done db'. (signed_out, db')

  unfoldable pub logout : Request → Db → Answer × Db
  unfolding form logout_with
  logout req db = elim (form lib cfg sec req) [
    | none ↦ (json_error (codes "INVALID_FORM") 400, db)
    | some values ↦ logout_with req values db
  ]
