-- ===== src/Gateway/Examples/Routes.antt =====
-- The theorems on the routes and on the proxy at concrete inputs.
use canvas_watcher.Base.{
  true, false, none, some, [], ◌∷◌, codes, ◌==◌, text_eq, nat_eq, ◌≡◌, refl, if◌then◌else◌,
  contains,
}
use canvas_watcher.Gateway.Identity.Schema.{Db, normal}
use canvas_watcher.Gateway.Identity.Attempts.{record_login_attempt, clear_login_attempts}
use canvas_watcher.Gateway.Routes.Http
use canvas_watcher.Gateway.Routes.Http.{
  Request, Libraries, Config, Answer, form, same_origin, get, single, before, csrf_ok, segments,
  cut_at, client_address, canonical_api_rest, last_segment,
}
use canvas_watcher.Gateway.Routes.SignIn.{
  login, login_with, first_sign_in, later_sign_in, logout, logout_with,
}
use canvas_watcher.Gateway.Routes.Tenant.{App, Draw, tenant_api, tenant_guard, tenant_route}
use canvas_watcher.Gateway.Routes.Frontend.{frontend, index_page, replace_first}
use canvas_watcher.Gateway.Identity.Accounts.{find_user, is_preview}
use canvas_watcher.Gateway.Identity.Security.{verify_csrf, csrf_token, verify_password}
use canvas_watcher.Gateway.Routes.Administrated.{ByAdmin, disable_account-ByAdmin}
use canvas_watcher.Gateway.Routes.Admin.{disable_account, administrator}
use canvas_watcher.Gateway.Identity.OwnerLaws.{names}
use canvas_watcher.Gateway.Identity.Sessions.{session}
use canvas_watcher.Gateway.Routes.Gate.{proxied-MayPass, signed_out-tenant_api, MayPass, is_public}
use canvas_watcher.Gateway.Routes.Login.{login-Proved, Proved}
use canvas_watcher.Gateway.Routes.Refused
use canvas_watcher.Gateway.Routes.Refused.{login-Kept, Kept}
use canvas_watcher.Gateway.Examples.Setup.{plain, password, runs, settled}

abbrev lib : Libraries
lib = record {
  ip_address = λ t. none;
  parse_qs = λ body.
      if body == codes "in"
      then some ((codes "username", codes "user" ∷ []) ∷ (codes "password", password ∷ []) ∷ [])
      else if body == codes "out"
      then some ((codes "csrf", codes "ka" ∷ []) ∷ (codes "user_id", codes "u" ∷ []) ∷ [])
      else some ((codes "csrf", body ∷ []) ∷ []);
  loads = λ body. none;
  loads_ticket = λ body. none;
  loads_exchange = λ body. none;
  authorization_url = λ body. none;
  verify_legacy = λ value encoded. false;
  tenant = λ slot call. Http.unavailable;
  static_file = λ rest. false;
  index_html = some (codes "<head></head>");
}

abbrev cfg : Config
cfg = record {
  public_origin = codes "https://w";
  expected_host = codes "w";
  slots = 5;
  csrf_key = codes "k";
}

abbrev draw : Draw
draw = record {
  now = 20;
  monotonic = 20;
  token = codes "t";
  token2 = codes "t2";
  token3 = codes "t3";
}

abbrev asks : Request
asks = record {
  method = codes "GET";
  host = codes "w";
  origin = some (codes "https://w");
  peer = none;
  real_ip = [];
  aw_session = codes "s";
  aw_csrf = codes "ks";
  csrf_header = [];
  broker_header = none;
  fetch_site = none;
  content_type = codes "application/x-www-form-urlencoded";
  body = [];
  query = [];
}

abbrev app : App
app = record { db = settled; rows = [] }

unfoldable computes : Unit {0}
unfolding disable_account administrator runs tenant_api tenant_guard tenant_route is_preview csrf_ok
    canonical_api_rest segments cut_at last_segment login login_with first_sign_in later_sign_in
    form same_origin get single before client_address find_user record_login_attempt
    clear_login_attempts verify_csrf csrf_token verify_password logout logout_with frontend
    index_page replace_first contains
computes = tt

goes_on : (tenant_api lib cfg plain draw asks (codes "tasks") app).0 ≡ Answer.proxied 2
unfolding computes
goes_on = refl

proxied-MayPass_example : MayPass lib cfg plain draw asks app 2
proxied-MayPass_example = proxied-MayPass lib cfg plain draw asks (codes "tasks") app 2 goes_on

abbrev leaves : Request
leaves = record asks { method = codes "POST"; body = codes "ks" }

left : (logout lib cfg plain leaves settled).0 ≡ Answer.signed_out
unfolding computes
left = refl

canonical : canonical_api_rest (codes "tasks") ≡ true
unfolding computes
canonical = refl

not_public : is_public lib cfg plain asks (codes "tasks") ≡ false
unfolding computes
not_public = refl

signed_out-tenant_api_example :
    tenant_api lib cfg plain draw asks
      (codes "tasks")
      (record { db = (logout lib cfg plain leaves settled).1; rows = [] })
    ≡ (
      Answer.json_error (codes "AUTH_REQUIRED") 401,
      record { db = (logout lib cfg plain leaves settled).1; rows = [] },
    )
signed_out-tenant_api_example =
    signed_out-tenant_api lib cfg plain draw leaves asks (codes "tasks") settled [] left refl
      canonical not_public

abbrev enters : Request
enters = record asks { method = codes "POST"; body = codes "in" }

entered :
    (login lib cfg plain 20 (codes "t") enters settled).0
    ≡ Answer.signed_in (codes "/watcher/") (codes "t") false
unfolding computes
entered = refl

login-Proved_example :
    (same_origin lib cfg plain enters ≡ true)
    × (codes "t" ≡ codes "t")
    × ((values : Http.Pairs) × (form lib cfg plain enters ≡ some values)
        × Proved lib cfg plain values (codes "/watcher/") settled)
login-Proved_example =
    login-Proved lib cfg plain 20 (codes "t") (codes "/watcher/") (codes "t") enters false settled
      entered

refused :
    Refused.is_signed lib cfg plain (login lib cfg plain 20 (codes "t") leaves settled).0 ≡ false
unfolding computes
refused = refl

login-Kept_example :
    Kept lib cfg plain settled (login lib cfg plain 20 (codes "t") leaves settled).1
login-Kept_example = login-Kept lib cfg plain 20 (codes "t") leaves settled refused

-- The owner's session, and a form that disables the user's account.
abbrev managed : Db
managed = record settled {
  sessions =
      record {
        token_hash = codes "a";
        user_id = codes "o";
        kind = normal;
        created_at = 7;
        expires_at = 604807;
      }
      ∷ settled.sessions;
}

abbrev disables : Request
disables = record asks {
  method = codes "POST";
  aw_session = codes "a";
  aw_csrf = codes "ka";
  body = codes "out";
}

redirected :
    (disable_account lib cfg plain 20 disables managed).0 ≡ Answer.redirect (codes "/watcher/admin")
unfolding computes
redirected = refl

disable_account-ByAdmin_example :
    (values : Http.Pairs) × ByAdmin lib cfg plain 20 disables managed values
    × (names
          (get (codes "user_id") values)
          (session plain 30 (codes "s") (disable_account lib cfg plain 20 disables managed).1)
        ≡ false)
disable_account-ByAdmin_example =
    disable_account-ByAdmin lib cfg plain 20 30 (codes "s") disables managed redirected

shown : (frontend lib cfg plain 20 asks [] settled).0 ≡ Answer.document (codes "<head></head>")
unfolding computes
shown = refl
