-- ===== src/Gateway/Routes/Administrated.antt =====
-- Who disables an account by the form of the administration, and what that ends.
use canvas_watcher.Base.{
  ℕ, true, false, Option, none, some, Text, codes, ◌==◌, text_eq, text_beq_iff, arith, Option-cases,
  Bool-cases, inl, inr, ◌≡◌, refl,
}
use canvas_watcher.Gateway.Identity.Schema.{User, Kind, normal, bootstrap, Db, is_admin}
use canvas_watcher.Gateway.Identity.Tx.{Result, ok, err, identity, value, integrity}
use canvas_watcher.Gateway.Identity.Security.{Security}
use canvas_watcher.Gateway.Identity.Accounts.{disable_user}
use canvas_watcher.Gateway.Identity.Sessions.{session}
use canvas_watcher.Gateway.Identity.SessionLaws.{session-disable_user}
use canvas_watcher.Gateway.Identity.OwnerLaws.{names}
use canvas_watcher.Gateway.Routes.Http.{
  Pairs, Request, Libraries, Config, redirect, catch_identity, json_error, get, current, csrf_ok,
  form,
}
use canvas_watcher.Gateway.Routes.Admin
use canvas_watcher.Gateway.Routes.Admin.{administrator, disable_account}

module _ (lib : Libraries) (cfg : Config) (sec : Security) where
  -- An administrator's session and a form with that session's CSRF token.
  pub record ByAdmin (now : ℕ) (req : Request) (db : Db) (values : Pairs) : Type 0 where
    pub who : User
    pub signed : session sec now req.aw_session db ≡ some (who, normal)
    pub admin : is_admin who.role ≡ true
    pub read : form lib cfg sec req ≡ some values
    pub meant : csrf_ok lib cfg sec req (get (codes "csrf") values) ≡ true

  admin_signed :
      (who : Option (User × Kind)) (u : User)
      → Admin.admin_of lib cfg sec who ≡ some u
      → (who ≡ some (u, normal)) × (is_admin u.role ≡ true)
  admin_signed none u h = cc h
  admin_signed (some (v, bootstrap)) u h = ground (arith, h)
  admin_signed (some (v, normal)) u h = (ground (arith, h), ground (arith, h))

  nobody :
      (now later : ℕ) (actor target token : Text) (db d : Db)
      → disable_user now actor target db ≡ (ok tt, d)
      → names target (session sec later token d) ≡ false
  nobody now later actor target token db d h = elim (Option-cases (session sec later token d)) [
    | inl e ↦ ground (arith, e)
    | inr ((u, k), e) ↦ elim (Bool-cases (u.id == target)) [
      | inl same ↦ absurd (
          session-disable_user sec now later actor target token db d h u k e
            ((text_beq_iff u.id target).0 same))
      | inr away ↦ ground (arith, e, away)
    ]
  ]

  -- Where the store's call did not fail, the answer is the redirection.
  disabled :
      (r : Result (Unit {0}) × Db)
      → (catch_identity
          (json_error (codes "ACCOUNT_UNAVAILABLE") 400)
          r
          λ done db2. (redirect (codes "/watcher/admin"), db2)).0
        ≡ redirect (codes "/watcher/admin")
      → (r ≡ (ok tt, r.1))
        × ((catch_identity
              (json_error (codes "ACCOUNT_UNAVAILABLE") 400)
              r
              λ done db2. (redirect (codes "/watcher/admin"), db2)).1
            ≡ r.1)
  disabled (ok done, d) h = (refl, refl)
  disabled (err (identity e), d) h = cc h
  disabled (err value, d) h = cc h
  disabled (err integrity, d) h = cc h

  -- Where the form that disables an account is answered with the way back to the administration, it
  -- was sent by an administrator's normal session, with the session's CSRF token, and behind it no
  -- token names the account of the form at any time, as long as no other call intervenes.
  pub disable_account-ByAdmin :
      (now later : ℕ) (token : Text) (req : Request) (db : Db)
      → (disable_account lib cfg sec now req db).0 ≡ redirect (codes "/watcher/admin")
      → (values : Pairs) × ByAdmin now req db values
        × (names
              (get (codes "user_id") values)
              (session sec later token (disable_account lib cfg sec now req db).1)
            ≡ false)
  unfolding disable_account administrator
  disable_account-ByAdmin now later token req db h =
      elim (Option-cases (administrator lib cfg sec now req db)) [
        | inl e ↦ absurd (ground (arith, e, h))
        | inr (u, e) ↦ elim (Option-cases (form lib cfg sec req)) [
          | inl e1 ↦ absurd (ground (arith, e, e1, h))
          | inr (values, e1) ↦
              elim (Bool-cases (csrf_ok lib cfg sec req (get (codes "csrf") values))) [
                | inr e2 ↦ absurd (ground (arith, e, e1, e2, h))
                | inl e2 ↦
                    let target = get (codes "user_id") values in
                    let (signed, admin) = admin_signed (current lib cfg sec now req db) u e in
                    let r = disable_user now u.id target db in
                    let (done, after) = disabled r (ground (arith, e, e1, e2, h)) in
                    (
                      values,
                      record { who = u; signed = signed; admin = admin; read = e1; meant = e2 },
                      ground
                          (arith, e, e1, e2, after, nobody now later u.id target token db r.1 done),
                    )
              ]
        ]
      ]
