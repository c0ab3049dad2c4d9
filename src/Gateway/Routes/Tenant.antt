-- ===== src/Gateway/Routes/Tenant.antt =====
-- identity-gateway/aw_gateway/main.py: the routes of the API and of the frontend, which send a
-- request on to the tenant of a slot.
use canvas_watcher.Base.{
  ℕ, Bool, false, not, ◌&&◌, ◌||◌, Option, none, some, List, [], ◌∷◌, ◌++◌, Text, codes, ◌==◌,
  text_eq, nat_eq, map, leb, length, if◌then◌else◌, select, starts_with,
}
use canvas_watcher.Gateway.Identity.Schema.{User, Kind, Db, is_bootstrap}
use canvas_watcher.Gateway.Identity.Security.{Security}
use canvas_watcher.Gateway.Identity.Accounts.{is_preview}
use canvas_watcher.Gateway.Identity.Sessions.{session}
use canvas_watcher.Gateway.Identity.Callbacks.{register_oauth_callback, consume_oauth_callback}
use canvas_watcher.Gateway.Broker.{
  Payload, BackendTicket, Inner, Rows, create, browser_control, broker_claim, broker_completion,
  exchange, finish,
}
use canvas_watcher.Gateway.Broker
use canvas_watcher.Gateway.Routes.Http.{
  Pairs, Request, Url, Reply, TenantResult, reply, unavailable, invalid, TenantCall, Libraries,
  Config, Answer, json_error, healthy, proxied, replied, authorize, ticket, exchanged, next,
  catch_value, is_given, is_none, current, csrf_ok, limited_json, canonical_api_rest, segments,
  last_segment,
}

-- The gateway's state: its database and its broker map.
pub record App : Type 0 where
  pub db : Db
  pub rows : Rows

-- The readings of the clocks and the tokens that a request may issue.
pub record Draw : Type 0 where
  pub now : ℕ
  pub monotonic : ℕ
  pub token : Text
  pub token2 : Text
  pub token3 : Text

abbrev pub values_of : Text → Pairs → List Text
values_of key pairs = map (λ p. p.1) (select (λ p. p.0 == key) pairs)

-- `[(key, inner if key == "state" else value) for key, value in pairs]`
abbrev pub with_state : Text → Pairs → Pairs
with_state state pairs = map (λ p. (p.0, if p.0 == codes "state" then state else p.1)) pairs

-- The one state of the list, where its length is allowed.
unfoldable pub one_state : List Text → Option Text
one_state [] = none
one_state (s ∷ []) = if leb 1 (length s) && leb (length s) 128 then some s else none
one_state (s ∷ t ∷ rest) = none

abbrev pub oauth_unavailable : Answer
oauth_unavailable = json_error (codes "OAUTH_UNAVAILABLE") 503

abbrev pub own_call : TenantCall
own_call = record { query = none; inner = none }

abbrev pub with_inner : Inner → TenantCall
with_inner inner = record { query = none; inner = some inner }

abbrev pub challenge_invalid : Answer
challenge_invalid = json_error (codes "AUTH_CHALLENGE_INVALID") 409

abbrev pub instance_unavailable : Answer
instance_unavailable = json_error (codes "INSTANCE_UNAVAILABLE") 503

abbrev pub is_one : Option Text → Bool
is_one none = false
is_one (some t) = t == codes "1"

module _ (lib : Libraries) (cfg : Config) (sec : Security) where
  unfoldable pub callback_url : Text → Text
  callback_url provider =
      cfg.public_origin
      ++ (if provider == codes "canvas"
          then codes "/watcher/api/auth/canvas/oauth/callback"
          else codes "/watcher/api/integrations/google-calendar/oauth/callback")

  abbrev same_list : List Text → Text → Bool
  same_list [] u = false
  same_list (t ∷ []) u = t == u
  same_list (s ∷ t ∷ rest) u = false

  -- The state of an authorization URL that passes the checks of `oauth_start`.
  unfoldable pub checked_state : Text → Url → Option Text
  unfolding one_state callback_url select
  checked_state provider url =
      if url.scheme == codes "https"
        && is_given url.hostname
        && not (is_given url.username)
        && not (is_given url.password)
        && not (is_given url.fragment)
        && same_list (values_of (codes "redirect_uri") url.pairs) (callback_url provider)
      then one_state (values_of (codes "state") url.pairs)
      else none

  unfoldable pub oauth_start_url : Draw → User → Text → Option Url → Db → Answer × Db
  unfolding checked_state register_oauth_callback
  oauth_start_url draw user provider none db = (oauth_unavailable, db)
  oauth_start_url draw user provider (some url) db = elim (checked_state provider url) [
    | none ↦ (oauth_unavailable, db)
    | some state ↦
        catch_value oauth_unavailable
          (register_oauth_callback sec draw.now draw.token user.id user.slot provider state
            (if provider == codes "canvas" then 230 else 590) db)
          λ done db'. (authorize (record url { pairs = with_state draw.token url.pairs }), db')
  ]

  abbrev pub start_reply : Draw → User → Text → TenantResult → Db → Answer × Db
  start_reply draw user provider unavailable db = (oauth_unavailable, db)
  start_reply draw user provider invalid db = (oauth_unavailable, db)
  start_reply draw user provider (reply r) db =
      if not (r.status_code == 200)
      then (replied r, db)
      else oauth_start_url draw user provider (lib.authorization_url r.body) db

  unfoldable pub oauth_start : Draw → User → Text → Db → Answer × Db
  unfolding oauth_start_url
  oauth_start draw user provider db =
      start_reply draw user provider (lib.tenant user.slot own_call) db

  abbrev pub callback_reply : TenantResult → Answer
  callback_reply unavailable = oauth_unavailable
  callback_reply invalid = oauth_unavailable
  callback_reply (reply r) = replied r

  abbrev pub send_back : Request → Option (ℕ × Text) → Answer
  send_back req none = json_error (codes "OAUTH_STATE_INVALID") 400
  send_back req (some (slot, inner)) =
      callback_reply
        (lib.tenant slot (record { query = some (with_state inner req.query); inner = none }))

  unfoldable pub oauth_callback : Draw → Request → Text → Db → Answer × Db
  unfolding one_state consume_oauth_callback select
  oauth_callback draw req provider db = elim (one_state (values_of (codes "state") req.query)) [
    | none ↦ (json_error (codes "OAUTH_STATE_INVALID") 400, db)
    | some state ↦
        next (consume_oauth_callback sec draw.now state provider db)
          λ mapping db'. (send_back req mapping, db')
  ]

  abbrev pub new_ticket : Draw → User → Option BackendTicket → Rows → Answer × Rows
  new_ticket draw user none rows = (challenge_invalid, rows)
  new_ticket draw user (some b) rows =
      let r =
        create sec draw.monotonic b user.id user.slot draw.token draw.token2 draw.token3 rows in
      (elim r.0 [ Broker.ok t ↦ ticket t | Broker.err e ↦ challenge_invalid ], r.1)

  abbrev pub challenge_reply : Draw → User → TenantResult → Rows → Answer × Rows
  challenge_reply draw user unavailable rows = (instance_unavailable, rows)
  challenge_reply draw user invalid rows = (challenge_invalid, rows)
  challenge_reply draw user (reply r) rows =
      if not (r.status_code == 200)
      then (replied r, rows)
      else new_ticket draw user (lib.loads_ticket r.body) rows

  abbrev pub inner_reply : TenantResult → Answer
  inner_reply unavailable = instance_unavailable
  inner_reply invalid = challenge_invalid
  inner_reply (reply r) = replied r

  abbrev pub controlled : Broker.Result (ℕ × Inner) × Rows → Answer × Rows
  controlled (Broker.ok (slot, inner), rows) =
      (inner_reply (lib.tenant slot (with_inner inner)), rows)
  controlled (Broker.err e, rows) = (challenge_invalid, rows)

  abbrev pub browser_action : Draw → User → Text → Option Payload → Rows → Answer × Rows
  browser_action draw user action none rows = (challenge_invalid, rows)
  browser_action draw user action (some payload) rows =
      if action == codes "challenges"
      then challenge_reply draw user (lib.tenant user.slot own_call) rows
      else controlled (browser_control sec draw.monotonic payload user.id rows)

  unfoldable pub broker_browser : Draw → Request → User → Text → Rows → Answer × Rows
  unfolding limited_json create browser_control
  broker_browser draw req user action rows =
      if not (is_one req.broker_header)
      then (json_error (codes "AUTH_ORIGIN_DENIED") 403, rows)
      else browser_action draw user action (limited_json lib cfg sec 32768 req) rows

  abbrev pub claim_exchange : Draw → Payload → Option Text → Rows → Answer × Rows
  claim_exchange draw payload none rows = (challenge_invalid, rows)
  claim_exchange draw payload (some inner) rows =
      let r = exchange sec draw.monotonic payload inner draw.token rows in
      (elim r.0 [ Broker.ok t ↦ exchanged t | Broker.err e ↦ challenge_invalid ], r.1)

  abbrev pub completed : Draw → Payload → Reply → Rows → Answer × Rows
  completed draw payload r rows =
      let f = finish draw.monotonic payload rows in
      (elim f.0 [ Broker.ok u ↦ replied r | Broker.err e ↦ challenge_invalid ], f.1)

  abbrev pub return_reply : Draw → Bool → Payload → TenantResult → Rows → Answer × Rows
  return_reply draw is_claim payload unavailable rows = (instance_unavailable, rows)
  return_reply draw is_claim payload invalid rows = (challenge_invalid, rows)
  return_reply draw is_claim payload (reply r) rows =
      if not (r.status_code == 200)
      then (replied r, rows)
      else if is_claim
      then claim_exchange draw payload (lib.loads_exchange r.body) rows
      else completed draw payload r rows

  abbrev pub return_to : Draw → Bool → Payload → Broker.Result (ℕ × Inner) × Rows → Answer × Rows
  return_to draw is_claim payload (Broker.err e, rows) = (challenge_invalid, rows)
  return_to draw is_claim payload (Broker.ok (slot, inner), rows) =
      return_reply draw is_claim payload (lib.tenant slot (with_inner inner)) rows

  abbrev pub return_action : Draw → Bool → Option Payload → Rows → Answer × Rows
  return_action draw is_claim none rows = (challenge_invalid, rows)
  return_action draw is_claim (some payload) rows = return_to draw is_claim payload (
      if is_claim
      then broker_claim sec draw.monotonic payload rows
      else broker_completion sec draw.monotonic payload rows)

  unfoldable pub broker_return : Draw → Request → Text → Rows → Answer × Rows
  unfolding limited_json broker_claim broker_completion exchange finish
  broker_return draw req action rows =
      if not (is_none req.origin) || not (is_none req.fetch_site) || not (is_one req.broker_header)
      then (json_error (codes "AUTH_BROKER_ONLY") 403, rows)
      else return_action draw (action == codes "claim") (limited_json lib cfg sec 2097152 req) rows

  abbrev pub on_db : App → (Db → Answer × Db) → Answer × App
  on_db app route = let r = route app.db in (r.0, record app { db = r.1 })

  abbrev pub on_rows : App → (Rows → Answer × Rows) → Answer × App
  on_rows app route = let r = route app.rows in (r.0, record app { rows = r.1 })

  abbrev pub is_read : Text → Bool
  is_read method = method == codes "GET" || method == codes "HEAD" || method == codes "OPTIONS"

  -- Behind the guards of `tenant_api`, for a user with a normal session.
  unfoldable pub tenant_route : Draw → Request → Text → User → App → Answer × App
  unfolding oauth_start broker_browser segments last_segment starts_with
  tenant_route draw req rest user app =
      let is_get = req.method == codes "GET" in
      let is_post = req.method == codes "POST" in
      let action = last_segment (segments rest) in
      if is_post && rest == codes "auth/canvas/oauth/start"
      then on_db app (oauth_start draw user (codes "canvas"))
      else if is_post && rest == codes "integrations/google-calendar/connect"
      then on_db app (oauth_start draw user (codes "google"))
      else if starts_with rest (codes "auth/broker/")
      then (if is_get && action == codes "configuration"
          then (proxied user.slot, app)
          else if is_post
              && (action == codes "challenges"
                  || action == codes "status"
                  || action == codes "cancel")
          then on_rows app (broker_browser draw req user action)
          else (json_error (codes "AUTH_OPERATION_INVALID") 404, app))
      else (proxied user.slot, app)

  unfoldable pub tenant_guard : Draw → Request → Text → Option (User × Kind) → App → Answer × App
  unfolding is_preview csrf_ok tenant_route
  tenant_guard draw req rest none app = (json_error (codes "AUTH_REQUIRED") 401, app)
  tenant_guard draw req rest (some (user, kind)) app =
      if is_bootstrap kind
      then (json_error (codes "PASSWORD_CHANGE_REQUIRED") 403, app)
      else if is_preview user.id app.db
      then (json_error (codes "PREVIEW_STATIC_ONLY") 403, app)
      else if not (is_read req.method) && not (csrf_ok lib cfg sec req req.csrf_header)
      then (json_error (codes "CSRF_REQUIRED") 403, app)
      else tenant_route draw req rest user app

  unfoldable pub tenant_api : Draw → Request → Text → App → Answer × App
  unfolding canonical_api_rest oauth_callback broker_return session tenant_guard segments
      last_segment
  tenant_api draw req rest app =
      let is_get = req.method == codes "GET" in
      if not (canonical_api_rest rest)
      then (json_error (codes "INVALID_API_PATH") 400, app)
      else if is_get && rest == codes "auth/canvas/oauth/callback"
      then on_db app (oauth_callback draw req (codes "canvas"))
      else if is_get && rest == codes "integrations/google-calendar/oauth/callback"
      then on_db app (oauth_callback draw req (codes "google"))
      else if is_get && rest == codes "health"
      then (healthy, app)
      else if req.method == codes "POST"
          && (rest == codes "auth/broker/claim"
              || rest == codes "auth/broker/failed"
              || rest == codes "auth/broker/complete")
      then on_rows app (broker_return draw req (last_segment (segments rest)))
      else tenant_guard draw req rest (current lib cfg sec draw.now req app.db) app
