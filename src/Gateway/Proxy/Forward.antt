-- ===== src/Gateway/Proxy/Forward.antt =====
-- identity-gateway/aw_gateway/proxy.py: a request that goes on to the socket of one tenant. The file
-- system and the HTTP client are parameters.
use canvas_watcher.Base.{
  ℕ, ◌*◌, Bool, not, ◌&&◌, ◌||◌, Option, none, some, List, [], ◌∷◌, ◌++◌, Text, codes, ◌==◌,
  text_eq, nat_eq, ltb, length, any, if◌then◌else◌, select, lower, starts_with, drop_text,
}
use canvas_watcher.Gateway.Proxy.Config.{
  GatewayConfig, File, socket_path, token_path, load_tenant_token,
}

pub record Header : Type 0 where
  pub name : Text
  pub content : Text

pub record Incoming : Type 0 where
  pub method : Text
  pub path : Text
  pub query : Text
  pub headers : List Header
  pub body : Text

pub record Outgoing : Type 0 where
  pub method : Text
  pub url : Text
  pub headers : List Header
  pub body : Option Text

pub record Upstream : Type 0 where
  pub status_code : ℕ
  pub headers : List Header
  pub content : Text

pub record Outside : Type 0 where
  -- Path.is_socket
  pub is_socket : Text → Bool
  -- what `load_tenant_token` finds, `none` where an OSError is raised
  pub file : Text → Option File
  -- a request over a Unix socket, `none` where httpx raises
  pub send : Text → Outgoing → Option Upstream

abbrev pub hop_headers : List Text
hop_headers =
    codes "connection"
    ∷ codes "keep-alive"
    ∷ codes "proxy-authenticate"
    ∷ codes "proxy-authorization"
    ∷ codes "te"
    ∷ codes "trailer"
    ∷ codes "transfer-encoding"
    ∷ codes "upgrade"
    ∷ []

abbrev pub drop_request : List Text
drop_request =
    hop_headers
    ++ codes "host"
      ∷ codes "cookie"
      ∷ codes "authorization"
      ∷ codes "content-length"
      ∷ codes "x-aw-internal-token"
      ∷ codes "x-aw-user"
      ∷ codes "x-aw-slot"
      ∷ codes "x-aw-identity"
      ∷ codes "x-aw-csrf"
      ∷ []

abbrev pub drop_response : List Text
drop_response = hop_headers ++ codes "set-cookie" ∷ codes "content-length" ∷ []

abbrev pub drop_buffered_response : List Text
drop_buffered_response = drop_response ++ codes "content-encoding" ∷ []

unfoldable pub among : List Text → Text → Bool
unfolding any
among names name = any (λ n. n == name) names

-- The socket and the token of a slot; `bad_slot` where the configuration raises.
pub data Target : Type 0 where
  bad_slot not_ready : Target
  at : Text → Text → Target

abbrev pub with_token : Text → Option Text → Target
with_token socket none = not_ready
with_token socket (some token) = at socket token

abbrev pub token_of : Option File → Option Text
token_of none = none
token_of (some f) = load_tenant_token f

-- `s.removeprefix(prefix)`
unfoldable pub removeprefix : Text → Text → Text
unfolding starts_with
removeprefix prefix s = if starts_with s prefix then drop_text prefix s else s

-- `value.split(mark, 1)[1]`, of a text that has the mark
unfoldable pub after : Text → Text → Text
unfolding starts_with
after mark [] = []
after mark (c ∷ t) =
    let rest = after mark t in if starts_with (c ∷ t) mark then drop_text mark (c ∷ t) else rest

-- The condition of the comprehension in `_headers`.
unfoldable pub passes : Header → Bool
unfolding among lower starts_with
passes h =
    not (among drop_request (lower h.name))
    && not (starts_with (lower h.name) (codes "x-forwarded-"))

-- `TenantUnavailable`, and the `ValueError`s
pub data Buffered : Type 0 where
  response : Upstream → Buffered
  unavailable bad_value : Buffered

pub data Proxied : Type 0 where
  streamed : Upstream → Proxied
  gateway_error : Text → ℕ → Proxied
  raised : Proxied

module _ (out : Outside) (cfg : GatewayConfig) where
  abbrev paths_to : Option Text → Option Text → Target
  paths_to none token_file = bad_slot
  paths_to (some socket) none = bad_slot
  paths_to (some socket) (some token_file) =
      if not (out.is_socket socket)
      then not_ready
      else with_token socket (token_of (out.file token_file))

  -- `_target`
  unfoldable pub target : ℕ → Target
  unfolding socket_path token_path load_tenant_token
  target slot = paths_to (socket_path cfg slot) (token_path cfg slot)

  -- `_headers`
  abbrev pub own_headers : Text → List Header
  own_headers token =
      record { name = codes "host"; content = after (codes "://") cfg.public_origin }
      ∷ record {
        name = codes "x-forwarded-proto";
        content = if cfg.development then codes "http" else codes "https";
      }
      ∷ record { name = codes "x-aw-internal-token"; content = token }
      ∷ []

  unfoldable pub headers : Text → Incoming → List Header
  unfolding select passes after
  headers token req = select (λ h. passes h) req.headers ++ own_headers token

  abbrev pub with_query : Text → Text → Text
  with_query value [] = value
  with_query value (c ∷ q) = value ++ codes "?" ++ c ∷ q

  abbrev effective : Option Text → Incoming → Text
  effective none req = req.query
  effective (some q) req = q

  -- `_url`, `none` where it raises "Invalid tenant API path"
  unfoldable pub tenant_url : Option Text → Incoming → Option Text
  unfolding starts_with removeprefix
  tenant_url query req =
      let path = removeprefix cfg.base_path req.path in
      if not (starts_with path (codes "/api/"))
      then none
      else some (with_query (codes "http://tenant" ++ path) (effective query req))

  abbrev pub kept_headers : List Text → List Header → List Header
  kept_headers names hs = select (λ h. not (among names (lower h.name))) hs

  abbrev buffered_reply : Option Upstream → Buffered
  buffered_reply none = unavailable
  buffered_reply (some up) =
      if ltb (256 * 1024) (length up.content)
      then unavailable
      else response (record up { headers = kept_headers drop_buffered_response up.headers })

  abbrev body_of : Option Text → Incoming → Text
  body_of none req = req.body
  body_of (some b) req = b

  abbrev buffered_send : Text → Text → Option Text → Option Text → Text → Incoming → Buffered
  buffered_send socket token query none body req = bad_value
  buffered_send socket token query (some url) body req = buffered_reply (
      out.send socket
        (record { method = req.method; url = url; headers = headers token req; body = some body }))

  -- `query` and `body_override` are `none` where the request's own are sent.
  unfoldable pub buffered_tenant_request : Option Text → Option Text → ℕ → ℕ → Incoming → Buffered
  unfolding target tenant_url headers select among
  buffered_tenant_request query body_override max_body slot req = elim (target slot) [
    | bad_slot ↦ bad_value
    | not_ready ↦ unavailable
    | at socket token ↦
        if ltb max_body (length (body_of body_override req))
        then bad_value
        else buffered_send socket token query (tenant_url query req) (body_of body_override req) req
  ]

  abbrev pub proxy_reply : Option Upstream → Proxied
  proxy_reply none = gateway_error (codes "INSTANCE_UNAVAILABLE") 503
  proxy_reply (some up) = streamed (record up { headers = kept_headers drop_response up.headers })

  abbrev pub has_content : Text → Bool
  has_content method = not (method == codes "GET" || method == codes "HEAD")

  abbrev pub proxy_send : Text → Text → Option Text → Incoming → Proxied
  proxy_send socket token none req = gateway_error (codes "INVALID_API_PATH") 404
  proxy_send socket token (some url) req = proxy_reply (
      out.send socket (record {
        method = req.method;
        url = url;
        headers = headers token req;
        body = if has_content req.method then some req.body else none;
      }))

  unfoldable pub proxy_to_tenant : ℕ → Incoming → Proxied
  unfolding target tenant_url headers select among
  proxy_to_tenant slot req = elim (target slot) [
    | bad_slot ↦ raised
    | not_ready ↦ gateway_error (codes "INSTANCE_NOT_READY") 503
    | at socket token ↦ proxy_send socket token (tenant_url none req) req
  ]
