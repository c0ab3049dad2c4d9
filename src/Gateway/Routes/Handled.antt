-- ===== src/Gateway/Routes/Handled.antt =====
-- identity-gateway/aw_gateway/main.py: the routes of `create_app` together.
use canvas_watcher.Base.{List, [], ◌∷◌, Text, text_eq, nat_eq}
use canvas_watcher.Gateway.Identity.Security.{Security}
use canvas_watcher.Gateway.Routes.Http.{Request, Libraries, Config, Answer, host_guard}
use canvas_watcher.Gateway.Routes.SignIn.{login_page, change_password_page, login, register, logout}
use canvas_watcher.Gateway.Routes.SignIn
use canvas_watcher.Gateway.Routes.Admin.{account, admin_page, create_invite, disable_account}
use canvas_watcher.Gateway.Routes.Frontend.{frontend, slash_redirect}
use canvas_watcher.Gateway.Routes.Tenant.{App, Draw, on_db, tenant_api}

-- A route of `create_app`, with the rest of the path where it has one.
pub data Route : Type 0 where
  get_login post_login get_password post_password post_register : Route
  get_account post_logout get_admin post_invite post_disable : Route
  api files : Text → Route
  get_root : Route

module _ (lib : Libraries) (cfg : Config) (sec : Security) where
  unfoldable pub handle : Route → Draw → Request → App → Answer × App
  handle get_login draw req app = on_db lib cfg sec app (login_page lib cfg sec draw.now req)
  handle post_login draw req app = on_db lib cfg sec app (login lib cfg sec draw.now draw.token req)
  handle get_password draw req app =
      on_db lib cfg sec app (change_password_page lib cfg sec draw.now req)
  handle post_password draw req app =
      on_db lib cfg sec app (SignIn.change_password lib cfg sec draw.now draw.token req)
  handle post_register draw req app =
      on_db lib cfg sec app (register lib cfg sec draw.now draw.token req)
  handle get_account draw req app = on_db lib cfg sec app (account lib cfg sec draw.now req)
  handle post_logout draw req app = on_db lib cfg sec app (logout lib cfg sec req)
  handle get_admin draw req app = on_db lib cfg sec app (admin_page lib cfg sec draw.now req)
  handle post_invite draw req app =
      on_db lib cfg sec app (create_invite lib cfg sec draw.now draw.token req)
  handle post_disable draw req app =
      on_db lib cfg sec app (disable_account lib cfg sec draw.now req)
  handle (api rest) draw req app = tenant_api lib cfg sec draw req rest app
  handle (files rest) draw req app = on_db lib cfg sec app (frontend lib cfg sec draw.now req rest)
  handle get_root draw req app = (slash_redirect, app)

  -- The requests of the list, one behind the other.
  unfoldable pub serve : List (Route × Draw × Request) → App → List Answer × App
  unfolding handle
  serve [] app = ([], app)
  serve ((route, draw, req) ∷ rest) app =
      let r = host_guard lib cfg sec req (handle route draw req) app in
      let others = serve rest r.1 in (r.0 ∷ others.0, others.1)
