-- ===== src/Gateway/Examples/Proxy.antt =====
-- The theorems on the proxy at concrete inputs.
use canvas_watcher.Base.{
  ℕ, true, false, none, some, [], ◌∷◌, ◌++◌, Text, codes, ◌==◌, text_eq, nat_eq, ◌≡◌, refl,
  if◌then◌else◌, starts_with, select, lower, any, text_beq,
}
use canvas_watcher.Gateway.Proxy.Config.{
  GatewayConfig, File, Origin, accepted, socket_path, token_path, decimal, digits,
  load_tenant_token, strip_bytes, lstrip_bytes,
}
use canvas_watcher.Gateway.Proxy.Forward.{
  Incoming, Upstream, Outside, headers, target, tenant_url, removeprefix, among, passes, after,
  proxy_to_tenant, streamed,
}
use canvas_watcher.Gateway.Proxy.Private
use canvas_watcher.Gateway.Proxy.Streamed.{streamed-Sent, Sent}
use canvas_watcher.Gateway.Proxy.Private.{
  select-headers, told, socket_path-slot, load_tenant_token-visible,
}

abbrev cfg : GatewayConfig
cfg = record {
  socket_root = codes "/run";
  token_root = codes "/etc";
  public_origin = codes "https://w";
  base_path = codes "/watcher";
  slots = 5;
  development = false;
}

abbrev origin : Origin
origin = record { scheme = codes "https"; netloc = codes "w"; path = []; query = []; fragment = [] }

abbrev token : Text
token = codes "0123456789abcdef0123456789abcdef"

abbrev token_file : File
token_file = record { is_symlink = false; is_regular = true; mode = 416; bytes = token ++ 10 ∷ [] }

abbrev up : Upstream
up = record {
  status_code = 200;
  headers = record { name = codes "Set-Cookie"; content = codes "a=b" } ∷ [];
  content = codes "[]";
}

abbrev out : Outside
out = record {
  is_socket = λ path. path == codes "/run/t2/api.sock";
  file = λ path. if path == codes "/etc/tenant-2.token" then some token_file else none;
  send = λ socket o. some up;
}

abbrev asks : Incoming
asks = record {
  method = codes "GET";
  path = codes "/watcher/api/tasks";
  query = [];
  headers = record { name = codes "X-AW-User"; content = codes "o" } ∷ [];
  body = [];
}

unfoldable computes : Unit {0}
unfolding accepted socket_path token_path decimal digits load_tenant_token strip_bytes lstrip_bytes
    headers target tenant_url removeprefix among passes after proxy_to_tenant starts_with select
    lower any text_beq
computes = tt

dropped : Private.is_private (codes "x-aw-user") ≡ true
unfolding computes
dropped = refl

select-headers_example :
    select (λ h. lower h.name == codes "x-aw-user") (headers out cfg token asks)
    ≡ told out cfg token (codes "x-aw-user")
select-headers_example = select-headers out cfg token (codes "x-aw-user") asks dropped

answers : proxy_to_tenant out cfg 2 asks ≡ streamed (record up { headers = [] })
unfolding computes
answers = refl

streamed-Sent_example : Sent out cfg 2 asks (record up { headers = [] })
streamed-Sent_example = streamed-Sent out cfg 2 asks (record up { headers = [] }) answers

valid : accepted origin cfg ≡ true
unfolding computes
valid = refl

has_path : socket_path cfg 2 ≡ some (codes "/run/t2/api.sock")
unfolding computes
has_path = refl

abbrev slot : ℕ
slot = 2

loads : load_tenant_token token_file ≡ some token
unfolding computes
loads = refl
