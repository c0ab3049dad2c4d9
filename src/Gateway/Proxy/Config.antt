-- ===== src/Gateway/Proxy/Config.antt =====
-- identity-gateway/aw_gateway/config.py: the limits of a deployment, the paths of a slot, and the
-- files that hold its secrets. A file is what `stat` and `read_bytes` say of it, on POSIX.
use canvas_watcher.Base.{
  ℕ, zero, suc, ◌+◌, ◌/◌, ◌%◌, Bool, true, false, not, ◌&&◌, ◌||◌, Option, none, some, [], ◌∷◌,
  ◌++◌, Text, codes, ◌==◌, text_eq, nat_eq, ltb, leb, length, any, if◌then◌else◌,
}
use mathlib.Core.List.{reverse}

-- urlsplit of the public origin
pub record Origin : Type 0 where
  pub scheme : Text
  pub netloc : Text
  pub path : Text
  pub query : Text
  pub fragment : Text

pub record GatewayConfig : Type 0 where
  pub socket_root : Text
  pub token_root : Text
  pub public_origin : Text
  pub base_path : Text
  pub slots : ℕ
  pub development : Bool

abbrev is_empty : Text → Bool
is_empty [] = true
is_empty (c ∷ t) = false

-- Whether `__post_init__` accepts the configuration.
unfoldable pub accepted : Origin → GatewayConfig → Bool
accepted origin cfg =
    (origin.scheme == codes "https" || (cfg.development && origin.scheme == codes "http"))
    && not (is_empty origin.netloc)
    && is_empty origin.path
    && is_empty origin.query
    && is_empty origin.fragment
    && cfg.base_path == codes "/watcher"
    && leb 1 cfg.slots
    && leb cfg.slots 5

-- `str` of a number: at most as many digits as the fuel.
unfoldable pub digits : ℕ → ℕ → Text
digits zero n = []
digits (suc fuel) n =
    let rest = digits fuel (n / 10) in
    if ltb n 10 then (b'0' + n) ∷ [] else rest ++ (b'0' + n % 10) ∷ []

unfoldable pub decimal : ℕ → Text
unfolding digits
decimal n = digits (suc n) n

-- `none` where it raises "Invalid instance slot".
unfoldable pub socket_path : GatewayConfig → ℕ → Option Text
unfolding decimal
socket_path cfg slot =
    if not (leb 1 slot && leb slot cfg.slots)
    then none
    else some (cfg.socket_root ++ (codes "/t" ++ (decimal slot ++ codes "/api.sock")))

unfoldable pub token_path : GatewayConfig → ℕ → Option Text
unfolding decimal
token_path cfg slot =
    if not (leb 1 slot && leb slot cfg.slots)
    then none
    else some (cfg.token_root ++ codes "/tenant-" ++ decimal slot ++ codes ".token")

pub record File : Type 0 where
  pub is_symlink : Bool
  pub is_regular : Bool
  pub mode : ℕ
  pub bytes : Text

-- bytes.strip
unfoldable pub is_blank : ℕ → Bool
is_blank c = (leb 9 c && leb c 13) || c == 32

unfoldable pub lstrip_bytes : Text → Text
unfolding is_blank
lstrip_bytes [] = []
lstrip_bytes (c ∷ s) = let rest = lstrip_bytes s in if is_blank c then rest else c ∷ s

unfoldable pub strip_bytes : Text → Text
unfolding lstrip_bytes
strip_bytes s = reverse (lstrip_bytes (reverse (lstrip_bytes s)))

-- `none` where it raises; the mode's bits for the group and others are the last six.
unfoldable pub load_private_key : Bool → File → Option Text
load_private_key from_systemd f =
    if f.is_symlink || not f.is_regular || (not from_systemd && not (f.mode % 64 == 0))
    then none
    else if ltb (length f.bytes) 32 || ltb 256 (length f.bytes)
    then none
    else some f.bytes

unfoldable pub load_tenant_token : File → Option Text
unfolding strip_bytes any
load_tenant_token f =
    let value = strip_bytes f.bytes in
    if f.is_symlink || not f.is_regular || not (f.mode % 8 == 0)
    then none
    else if ltb (length value) 32
        || ltb 256 (length value)
        || any (λ byte. ltb byte 33 || ltb 126 byte) value
    then none
    else some value
