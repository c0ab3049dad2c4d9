-- ===== src/Gateway/Routes/Http.antt =====
-- identity-gateway/aw_gateway/main.py: what the routes read of a request, their answers, and the
-- guards that they share. The libraries that read addresses, forms, JSON and URLs, libcrypt, the
-- file system and the tenants' sockets are parameters.
use canvas_watcher.Base.{
  ℕ, Bool, true, false, not, ◌&&◌, ◌||◌, Option, none, some, List, [], ◌∷◌, Text, codes, ◌==◌,
  text_eq, nat_eq, ltb, length, any, all, if◌then◌else◌, strip,
}
use canvas_watcher.Gateway.Identity.Schema.{User, Kind, Db}
use canvas_watcher.Gateway.Identity.Tx.{identity, value, integrity, Result, ok, err}
use canvas_watcher.Gateway.Identity.Security.{Security, verify_csrf}
use canvas_watcher.Gateway.Identity.Sessions.{session}
use canvas_watcher.Gateway.Broker.{Payload, BackendTicket, OuterTicket, Inner}

abbrev pub Pairs : Type 0
Pairs = List (Text × Text)

-- A header that is missing is `none`, or empty where the code reads it with that default.
pub record Request : Type 0 where
  pub method : Text
  pub host : Text
  pub origin : Option Text
  pub peer : Option Text
  pub real_ip : Text
  pub aw_session : Text
  pub aw_csrf : Text
  pub csrf_header : Text
  pub broker_header : Option Text
  pub fetch_site : Option Text
  pub content_type : Text
  pub body : Text
  pub query : Pairs

-- An address as `str` writes it.
pub record Address : Type 0 where
  pub name : Text
  pub is_loopback : Bool

pub record Url : Type 0 where
  pub scheme : Text
  pub hostname : Text
  pub username : Text
  pub password : Text
  pub fragment : Text
  pub pairs : Pairs

pub record Reply : Type 0 where
  pub status_code : ℕ
  pub body : Text

-- `TenantUnavailable`, and the `ValueError`s of `buffered_tenant_request`
pub data TenantResult : Type 0 where
  reply : Reply → TenantResult
  unavailable invalid : TenantResult

-- What replaces the query and the body of the request.
pub record TenantCall : Type 0 where
  pub query : Option Pairs
  pub inner : Option Inner

pub record Libraries : Type 0 where
  -- ipaddress.ip_address, `none` where it raises
  pub ip_address : Text → Option Address
  -- parse_qs of the decoded body, `none` where one of them raises
  pub parse_qs : Text → Option (List (Text × List Text))
  -- json.loads of an object, of the backend's ticket, and the `exchange_token` of a claim
  pub loads : Text → Option Payload
  pub loads_ticket : Text → Option BackendTicket
  pub loads_exchange : Text → Option Text
  -- urlsplit and parse_qsl of the `authorization_url`
  pub authorization_url : Text → Option Url
  -- verify_legacy_password, by libcrypt
  pub verify_legacy : Text → Text → Bool
  -- buffered_tenant_request
  pub tenant : ℕ → TenantCall → TenantResult
  -- whether a path below the static root names a file, and the text of index.html
  pub static_file : Text → Bool
  pub index_html : Option Text

pub record Config : Type 0 where
  pub public_origin : Text
  pub expected_host : Text
  pub slots : ℕ
  pub csrf_key : Text

pub data Answer : Type 0 where
  -- a page, an error and a redirection of the gateway's own
  page : ℕ → Answer
  json_error : Text → ℕ → Answer
  redirect : Text → Answer
  -- the redirections that set and delete the cookies of a session
  signed_in : Text → Text → Bool → Answer
  signed_out : Answer
  invited : Text → Answer
  healthy : Answer
  -- `proxy_to_tenant`, and what `buffered_tenant_request` returned
  -- `proxy_to_tenant`; what `buffered_tenant_request` sends is a call of `tenant`
  proxied : ℕ → Answer
  replied : Reply → Answer
  authorize : Url → Answer
  ticket : OuterTicket → Answer
  exchanged : Text → Answer
  -- a file of the frontend, for ever or not, and its document
  asset : Text → Bool → Answer
  document : Text → Answer
  -- an exception that the route does not catch
  server_error : Answer

-- Behind a call of the store: its exceptions are not caught.
abbrev pub next {ℓ} : {A : Type ℓ} → Result A × Db → (A → Db → Answer × Db) → Answer × Db
next (ok a, db) f = f a db
next (err e, db) f = (server_error, db)

-- `except IdentityError`
abbrev pub catch_identity {ℓ} :
    {A : Type ℓ} → Answer → Result A × Db → (A → Db → Answer × Db) → Answer × Db
catch_identity failure (ok a, db) f = f a db
catch_identity failure (err (identity r), db) f = (failure, db)
catch_identity failure (err value, db) f = (server_error, db)
catch_identity failure (err integrity, db) f = (server_error, db)

-- `except (IdentityError, ValueError)`
abbrev pub catch_value {ℓ} :
    {A : Type ℓ} → Answer → Result A × Db → (A → Db → Answer × Db) → Answer × Db
catch_value failure (ok a, db) f = f a db
catch_value failure (err (identity r), db) f = (failure, db)
catch_value failure (err value, db) f = (failure, db)
catch_value failure (err integrity, db) f = (server_error, db)

-- `form.get(key, "")`
unfoldable pub get : Text → Pairs → Text
get key [] = []
get key ((k, v) ∷ rest) = let other = get key rest in if k == key then v else other

abbrev pub is_given : Text → Bool
is_given [] = false
is_given (c ∷ t) = true

abbrev pub or_empty : Option Text → Text
or_empty none = []
or_empty (some t) = t

abbrev pub is_none {ℓ} : {A : Type ℓ} → Option A → Bool
is_none none = true
is_none (some a) = false

-- `value.split(";", 1)[0]`
unfoldable pub before : ℕ → Text → Text
before mark [] = []
before mark (c ∷ t) = let rest = before mark t in if c == mark then [] else c ∷ rest

-- The first of the segments, and the others.
abbrev onto : ℕ → Text × List Text → Text × List Text
onto c (segment, rest) = (c ∷ segment, rest)

abbrev fresh : Text × List Text → Text × List Text
fresh (segment, rest) = ([], segment ∷ rest)

unfoldable pub cut_at : ℕ → Text → Text × List Text
cut_at mark [] = ([], [])
cut_at mark (c ∷ t) = let r = cut_at mark t in if c == mark then fresh r else onto c r

abbrev listed : Text × List Text → List Text
listed (segment, rest) = segment ∷ rest

-- `rest.split("/")`
unfoldable pub segments : Text → List Text
unfolding cut_at
segments t = listed (cut_at b'/' t)

unfoldable pub canonical_api_rest : Text → Bool
unfolding segments any all
canonical_api_rest rest =
    is_given rest
    && not (any (λ c. c == 92) rest)
    && all (λ s. not (s == [] || s == codes "." || s == codes "..")) (segments rest)

unfoldable pub last_segment : List Text → Text
last_segment [] = []
last_segment (s ∷ []) = s
last_segment (s ∷ t ∷ rest) = last_segment (t ∷ rest)

abbrev pub media_type : Request → Text
media_type req = strip (before b';' req.content_type)

module _ (lib : Libraries) (cfg : Config) (sec : Security) where
  abbrev pub current : ℕ → Request → Db → Option (User × Kind)
  current now req db = session sec now req.aw_session db

  unfoldable pub same_origin : Request → Bool
  same_origin req = or_empty req.origin == cfg.public_origin

  abbrev forwarded : Option Address → Text → Text
  forwarded none address = address
  forwarded (some a) address = a.name

  abbrev own_address : Option Address → Text → Text
  own_address none real_ip = codes "unknown"
  own_address (some a) real_ip =
      if a.is_loopback then forwarded (lib.ip_address real_ip) a.name else a.name

  unfoldable pub client_address : Request → Text
  client_address req = elim req.peer [
    | none ↦ own_address (lib.ip_address (codes "unknown")) req.real_ip
    | some peer ↦ own_address (lib.ip_address peer) req.real_ip
  ]

  unfoldable pub csrf_ok : Request → Text → Bool
  unfolding verify_csrf same_origin
  csrf_ok req presented =
      is_given req.aw_session
      && is_given presented
      && req.aw_csrf == presented
      && verify_csrf sec cfg.csrf_key req.aw_session presented
      && same_origin req

  -- The items of a form, each of which has one value.
  unfoldable pub single : List (Text × List Text) → Option Pairs
  single [] = some []
  single ((k, []) ∷ rest) = none
  single ((k, v ∷ w ∷ vs) ∷ rest) = none
  single ((k, v ∷ []) ∷ rest) = elim (single rest) [ none ↦ none | some ps ↦ some ((k, v) ∷ ps) ]

  abbrev single_of : Option (List (Text × List Text)) → Option Pairs
  single_of none = none
  single_of (some items) = single items

  -- `none` where it raises, which every caller catches.
  unfoldable pub form : Request → Option Pairs
  unfolding single before strip
  form req =
      if not (media_type req == codes "application/x-www-form-urlencoded")
      then none
      else if ltb 16384 (length req.body)
      then none
      else single_of (lib.parse_qs req.body)

  unfoldable pub limited_json : ℕ → Request → Option Payload
  unfolding before strip
  limited_json limit req =
      if not (media_type req == codes "application/json") || ltb limit (length req.body)
      then none
      else lib.loads req.body

  -- `host_guard`: the answer of the route, or the refusal.
  unfoldable pub host_guard {ℓ} : {S : Type ℓ} → Request → (S → Answer × S) → S → Answer × S
  host_guard req route s =
      if req.host == cfg.expected_host then route s else (json_error (codes "INVALID_HOST") 421, s)
