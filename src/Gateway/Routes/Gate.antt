-- ===== src/Gateway/Routes/Gate.antt =====
-- Whose requests `tenant_api` streams on to a tenant.
use canvas_watcher.Base.{
  ℕ, Bool, true, false, ◌&&◌, ◌||◌, Option, none, some, Text, codes, ◌==◌, text_eq, nat_eq, arith,
  if◌then◌else◌, Option-cases, Bool-cases, inl, inr, ◌≡◌, refl, text_beq_refl,
}
use canvas_watcher.Gateway.Identity.Schema.{User, bootstrap, normal, Db}
use canvas_watcher.Gateway.Identity.Tx.{Result, ok, err}
use canvas_watcher.Gateway.Identity.Security.{Security, token_digest}
use canvas_watcher.Gateway.Identity.Accounts.{is_preview}
use canvas_watcher.Gateway.Identity.Sessions.{session}
use canvas_watcher.Gateway.Identity.SessionLaws.{session-revoke_session}
use canvas_watcher.Gateway.Identity.Callbacks.{consume_oauth_callback}
use canvas_watcher.Gateway.Broker
use canvas_watcher.Gateway.Broker.{Payload, Rows, Inner, create, browser_control, exchange, finish}
use canvas_watcher.Gateway.Routes.Http.{
  json_error, Request, Url, Libraries, Config, Answer, proxied, signed_out, TenantResult, reply,
  unavailable, invalid, current, csrf_ok, limited_json, next, form, segments, last_segment,
  canonical_api_rest,
}
use canvas_watcher.Gateway.Routes.SignIn.{logout, logout_with}
use canvas_watcher.Gateway.Routes.Tenant
use canvas_watcher.Gateway.Routes.Tenant.{
  App, Draw, oauth_start, oauth_start_url, oauth_callback, broker_browser, broker_return,
  tenant_route, tenant_guard, tenant_api, is_read, one_state, values_of, own_call, checked_state,
}

-- The request is not streamed on.
abbrev is_own : Answer → Bool
is_own (proxied slot) = false
is_own other = true

module _ (lib : Libraries) (cfg : Config) (sec : Security) where
  next-own :
      {A : Type 0} (r : Result A × Db) (f : A → Db → Answer × Db)
      → ((a : A) (d : Db) → is_own (f a d).0 ≡ true)
      → is_own (next r f).0 ≡ true
  next-own (ok a, d) f h = h a d
  next-own (err e, d) f h = refl

  start_url-own :
      (draw : Draw) (user : User) (provider : Text) (url : Option Url) (db : Db)
      → is_own (oauth_start_url lib cfg sec draw user provider url db).0 ≡ true
  unfolding oauth_start_url
  start_url-own draw user provider none db = refl
  start_url-own draw user provider (some url) db =
      elim (Option-cases (checked_state lib cfg sec provider url)) [
        | inl e ↦ ground (arith, e)
        | inr (state, e) ↦ ground (arith, e)
      ]

  start_reply-own :
      (draw : Draw) (user : User) (provider : Text) (r : TenantResult) (db : Db)
      → is_own (Tenant.start_reply lib cfg sec draw user provider r db).0 ≡ true
  start_reply-own draw user provider unavailable db = refl
  start_reply-own draw user provider invalid db = refl
  start_reply-own draw user provider (reply r) db =
      ground (arith, start_url-own draw user provider (lib.authorization_url r.body) db)

  start_own :
      (draw : Draw) (user : User) (provider : Text) (db : Db)
      → is_own (oauth_start lib cfg sec draw user provider db).0 ≡ true
  unfolding oauth_start
  start_own draw user provider db =
      start_reply-own draw user provider (lib.tenant user.slot own_call) db

  send_back-own :
      (req : Request) (mapping : Option (ℕ × Text))
      → is_own (Tenant.send_back lib cfg sec req mapping) ≡ true
  send_back-own req none = refl
  send_back-own req (some (slot, inner)) = from _
    where
      from : (r : TenantResult) → is_own (Tenant.callback_reply lib cfg sec r) ≡ true
      from unavailable = refl
      from invalid = refl
      from (reply r) = refl

  callback_own :
      (draw : Draw) (req : Request) (provider : Text) (db : Db)
      → is_own (oauth_callback lib cfg sec draw req provider db).0 ≡ true
  unfolding oauth_callback
  callback_own draw req provider db =
      elim (Option-cases (one_state (values_of (codes "state") req.query))) [
        | inl e ↦ ground (arith, e)
        | inr (state, e) ↦ ground (
          arith,
          e,
          next-own (consume_oauth_callback sec draw.now state provider db)
              (λ mapping db'. (Tenant.send_back lib cfg sec req mapping, db'))
              (λ m d. send_back-own req m),
        )
      ]

  challenge_reply-own :
      (draw : Draw) (user : User) (r : TenantResult) (rows : Rows)
      → is_own (Tenant.challenge_reply lib cfg sec draw user r rows).0 ≡ true
  challenge_reply-own draw user unavailable rows = refl
  challenge_reply-own draw user invalid rows = refl
  challenge_reply-own draw user (reply r) rows = elim (Option-cases (lib.loads_ticket r.body)) [
    | inl e ↦ ground (arith, e)
    | inr (b, e) ↦ ground (arith, e)
  ]

  controlled_own :
      (r : Broker.Result (ℕ × Inner) × Rows) → is_own (Tenant.controlled lib cfg sec r).0 ≡ true
  controlled_own (Broker.err e, rows) = refl
  controlled_own (Broker.ok (slot, inner), rows) = from _
    where
      from : (r : TenantResult) → is_own (Tenant.inner_reply lib cfg sec r) ≡ true
      from unavailable = refl
      from invalid = refl
      from (reply r) = refl

  browser_own :
      (draw : Draw) (req : Request) (user : User) (action : Text) (rows : Rows)
      → is_own (broker_browser lib cfg sec draw req user action rows).0 ≡ true
  unfolding broker_browser
  browser_own draw req user action rows = elim (Option-cases (limited_json lib cfg sec 32768 req)) [
    | inl e ↦ ground (arith, e)
    | inr (payload, e) ↦ ground (
      arith,
      e,
      challenge_reply-own draw user (lib.tenant user.slot own_call) rows,
      controlled_own (browser_control sec draw.monotonic payload user.id rows),
    )
  ]

  exchange_own :
      (draw : Draw) (payload : Payload) (inner : Option Text) (rows : Rows)
      → is_own (Tenant.claim_exchange lib cfg sec draw payload inner rows).0 ≡ true
  exchange_own draw payload none rows = refl
  exchange_own draw payload (some inner) rows = ground arith

  return_reply-own :
      (draw : Draw) (is_claim : Bool) (payload : Payload) (r : TenantResult) (rows : Rows)
      → is_own (Tenant.return_reply lib cfg sec draw is_claim payload r rows).0 ≡ true
  return_reply-own draw is_claim payload unavailable rows = refl
  return_reply-own draw is_claim payload invalid rows = refl
  return_reply-own draw is_claim payload (reply r) rows =
      ground (arith, exchange_own draw payload (lib.loads_exchange r.body) rows)

  return_to-own :
      (draw : Draw) (is_claim : Bool) (payload : Payload) (r : Broker.Result (ℕ × Inner) × Rows)
      → is_own (Tenant.return_to lib cfg sec draw is_claim payload r).0 ≡ true
  return_to-own draw is_claim payload (Broker.err e, rows) = refl
  return_to-own draw is_claim payload (Broker.ok (slot, inner), rows) =
      return_reply-own draw is_claim payload (lib.tenant slot (Tenant.with_inner inner)) rows

  return_action-own :
      (draw : Draw) (is_claim : Bool) (payload : Option Payload) (rows : Rows)
      → is_own (Tenant.return_action lib cfg sec draw is_claim payload rows).0 ≡ true
  return_action-own draw is_claim none rows = refl
  return_action-own draw is_claim (some payload) rows = return_to-own draw is_claim payload (
      if is_claim
      then Broker.broker_claim sec draw.monotonic payload rows
      else Broker.broker_completion sec draw.monotonic payload rows)

  return_own :
      (draw : Draw) (req : Request) (action : Text) (rows : Rows)
      → is_own (broker_return lib cfg sec draw req action rows).0 ≡ true
  unfolding broker_return
  return_own draw req action rows = ground (
    arith,
    return_action-own draw (action == codes "claim") (limited_json lib cfg sec 2097152 req) rows,
  )

  -- What `tenant_api` has tested before it sends a request on to a tenant.
  pub record MayPass (draw : Draw) (req : Request) (app : App) (slot : ℕ) : Type 0 where
    pub who : User
    pub signed : session sec draw.now req.aw_session app.db ≡ some (who, normal)
    pub own_slot : who.slot ≡ slot
    pub full : is_preview who.id app.db ≡ false
    pub meant : (is_read lib cfg sec req.method || csrf_ok lib cfg sec req req.csrf_header) ≡ true

  route_slot :
      (draw : Draw) (req : Request) (rest : Text) (user : User) (app : App) (slot : ℕ)
      → (tenant_route lib cfg sec draw req rest user app).0 ≡ proxied slot
      → user.slot ≡ slot
  unfolding tenant_route
  route_slot draw req rest user app slot h =
      let k1 = start_own draw user (codes "canvas") app.db in
      let k2 = start_own draw user (codes "google") app.db in
      let k3 = browser_own draw req user (last_segment (segments rest)) app.rows in
      elim (Bool-cases (req.method == codes "POST" && rest == codes "auth/canvas/oauth/start")) [
        | inl e1 ↦ ground (arith, h, k1, e1)
        | inr e1 ↦
            elim (Bool-cases (
              req.method == codes "POST" && rest == codes "integrations/google-calendar/connect")) [
                | inl e2 ↦ ground (arith, h, k2, e1, e2)
                | inr e2 ↦ ground (arith, h, k3, e1, e2)
              ]
      ]

  guard_pass :
      (draw : Draw) (req : Request) (rest : Text) (app : App) (slot : ℕ)
      → (tenant_guard lib cfg sec draw req rest (current lib cfg sec draw.now req app.db) app).0
        ≡ proxied slot
      → MayPass draw req app slot
  unfolding tenant_guard
  guard_pass draw req rest app slot h =
      elim (Option-cases (current lib cfg sec draw.now req app.db)) [
        | inl e ↦ ground (arith, e, h)
        | inr ((user, bootstrap), e) ↦ ground (arith, e, h)
        | inr ((user, normal), e) ↦ record {
          who = user;
          signed = e;
          own_slot = ground (arith, e, h, route_slot draw req rest user app slot);
          full = ground (arith, e, h);
          meant = ground (arith, e, h);
        }
      ]

  -- Where `tenant_api` streams a request on by `proxy_to_tenant`, the session cookie names an account
  -- that is no preview, by a normal session that has not expired; the tenant is that of the account's
  -- slot; and the request only reads or carries the session's CSRF token from the gateway's own
  -- origin. What OAuth's start and callbacks and the broker's calls send by `buffered_tenant_request`
  -- is not meant.
  pub proxied-MayPass :
      (draw : Draw) (req : Request) (rest : Text) (app : App) (slot : ℕ)
      → (tenant_api lib cfg sec draw req rest app).0 ≡ proxied slot
      → MayPass draw req app slot
  unfolding tenant_api
  proxied-MayPass draw req rest app slot h =
      let k1 = callback_own draw req (codes "canvas") app.db in
      let k2 = callback_own draw req (codes "google") app.db in
      let k3 = return_own draw req (last_segment (segments rest)) app.rows in
      elim (Bool-cases (canonical_api_rest rest)) [
        | inr e ↦ ground (arith, e, h)
        | inl e ↦
            elim (Bool-cases
              (req.method == codes "GET" && rest == codes "auth/canvas/oauth/callback")) [
                | inl e1 ↦ ground (arith, e, e1, k1, h)
                | inr e1 ↦
                    elim (Bool-cases (
                      req.method == codes "GET"
                      && rest == codes "integrations/google-calendar/oauth/callback")) [
                        | inl e2 ↦ ground (arith, e, e1, e2, k2, h)
                        | inr e2 ↦
                            ground (arith, e, e1, e2, h, k3, guard_pass draw req rest app slot)
                      ]
              ]
      ]

  signed_out-current :
      (draw : Draw) (req later : Request) (db : Db)
      → (logout lib cfg sec req db).0 ≡ signed_out
      → later.aw_session ≡ req.aw_session
      → current lib cfg sec draw.now later (logout lib cfg sec req db).1 ≡ none
  unfolding logout logout_with
  signed_out-current draw req later db h same = elim (Option-cases (form lib cfg sec req)) [
    | inl e ↦ ground (arith, e, h)
    | inr (values, e) ↦ ground (
      arith,
      e,
      h,
      same,
      session-revoke_session sec draw.now req.aw_session later.aw_session db,
      text_beq_refl (token_digest sec req.aw_session),
    )
  ]

  -- The requests that need no session: OAuth's callbacks, the test of health, and the returns of the
  -- desktop broker.
  abbrev pub is_public : Request → Text → Bool
  is_public req rest =
      (req.method == codes "GET"
        && (rest == codes "auth/canvas/oauth/callback"
            || rest == codes "integrations/google-calendar/oauth/callback"
            || rest == codes "health"))
      || (req.method == codes "POST"
          && (rest == codes "auth/broker/claim"
              || rest == codes "auth/broker/failed"
              || rest == codes "auth/broker/complete"))

  refused_api :
      (draw : Draw) (req : Request) (rest : Text) (app : App)
      → canonical_api_rest rest ≡ true
      → is_public req rest ≡ false
      → current lib cfg sec draw.now req app.db ≡ none
      → tenant_api lib cfg sec draw req rest app ≡ (json_error (codes "AUTH_REQUIRED") 401, app)
  unfolding tenant_api tenant_guard
  refused_api draw req rest app c p n = elim (Bool-cases (req.method == codes "GET")) [
    | inl g ↦ elim (Bool-cases (req.method == codes "POST")) [
      | inl o ↦ ground (arith, c, p, n, g, o)
      | inr o ↦ ground (arith, c, p, n, g, o)
    ]
    | inr g ↦ ground (arith, c, p, n, g)
  ]

  -- Once a sign-out was answered, a request to the API with that session's cookie is refused with 401
  -- and changes nothing, so that nothing of it goes to a tenant, unless it is one of the public
  -- requests, which need no session: OAuth's callbacks, the test of health, and the returns of the
  -- desktop broker. The path is a canonical one.
  pub signed_out-tenant_api :
      (draw : Draw) (req later : Request) (rest : Text) (db : Db) (rows : Rows)
      → (logout lib cfg sec req db).0 ≡ signed_out
      → later.aw_session ≡ req.aw_session
      → canonical_api_rest rest ≡ true
      → is_public later rest ≡ false
      → tenant_api lib cfg sec draw later rest
          (record { db = (logout lib cfg sec req db).1; rows = rows })
        ≡ (
          json_error (codes "AUTH_REQUIRED") 401,
          record { db = (logout lib cfg sec req db).1; rows = rows },
        )
  signed_out-tenant_api draw req later rest db rows h same c p =
      refused_api draw later rest (record { db = (logout lib cfg sec req db).1; rows = rows }) c p
        (signed_out-current draw req later db h same)
