-- ===== src/Gateway/Routes/Admin.antt =====
-- identity-gateway/aw_gateway/main.py: the pages of an account and the administration.
use canvas_watcher.Base.{ℕ, not, ◌&&◌, Option, none, some, Text, codes, if◌then◌else◌}
use canvas_watcher.Gateway.Identity.Schema.{User, Kind, Db, is_admin, is_bootstrap}
use canvas_watcher.Gateway.Identity.Security.{Security}
use canvas_watcher.Gateway.Identity.Accounts.{create_invitation, disable_user}
use canvas_watcher.Gateway.Identity.Sessions.{session}
use canvas_watcher.Gateway.Routes.Http.{
  Pairs, Request, Libraries, Config, Answer, page, json_error, redirect, invited, catch_identity,
  get, current, csrf_ok, form,
}

module _ (lib : Libraries) (cfg : Config) (sec : Security) where
  unfoldable pub account : ℕ → Request → Db → Answer × Db
  unfolding session
  account now req db = elim (current lib cfg sec now req db) [
    | none ↦ (redirect (codes "/watcher/login"), db)
    | some (user, kind) ↦
        if is_bootstrap kind
        then (redirect (codes "/watcher/change-password"), db)
        else (page 200, db)
  ]

  abbrev pub admin_of : Option (User × Kind) → Option User
  admin_of none = none
  admin_of (some (user, kind)) =
      if is_admin user.role && not (is_bootstrap kind) then some user else none

  -- The user of `user is None or user["role"] != "admin" or ...`, where that is false.
  unfoldable pub administrator : ℕ → Request → Db → Option User
  unfolding session
  administrator now req db = admin_of (current lib cfg sec now req db)

  unfoldable pub admin_page : ℕ → Request → Db → Answer × Db
  unfolding administrator
  admin_page now req db = elim (administrator now req db) [
    | none ↦ (json_error (codes "ADMIN_REQUIRED") 403, db)
    | some user ↦ (page 200, db)
  ]

  -- What the two forms of the page do once the user is an administrator.
  abbrev pub guarded : Request → Option Pairs → (Pairs → Db → Answer × Db) → Db → Answer × Db
  guarded req none act db = (json_error (codes "INVALID_FORM") 400, db)
  guarded req (some values) act db =
      if not (csrf_ok lib cfg sec req (get (codes "csrf") values))
      then (json_error (codes "CSRF_REQUIRED") 403, db)
      else act values db

  unfoldable pub create_invite : ℕ → Text → Request → Db → Answer × Db
  unfolding administrator form csrf_ok get create_invitation
  create_invite now token req db = elim (administrator now req db) [
    | none ↦ (json_error (codes "ADMIN_REQUIRED") 403, db)
    | some user ↦
        guarded req (form lib cfg sec req)
          (λ values db1.
            catch_identity (page 400)
              (create_invitation sec cfg.slots now user.id (get (codes "email") values) token db1)
              λ done db2. (invited token, db2))
          db
  ]

  unfoldable pub disable_account : ℕ → Request → Db → Answer × Db
  unfolding administrator form csrf_ok get disable_user
  disable_account now req db = elim (administrator now req db) [
    | none ↦ (json_error (codes "ADMIN_REQUIRED") 403, db)
    | some user ↦
        guarded req (form lib cfg sec req)
          (λ values db1.
            catch_identity (json_error (codes "ACCOUNT_UNAVAILABLE") 400)
              (disable_user now user.id (get (codes "user_id") values) db1)
              λ done db2. (redirect (codes "/watcher/admin"), db2))
          db
  ]
