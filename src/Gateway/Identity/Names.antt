-- ===== src/Gateway/Identity/Names.antt =====
-- `normalize_username` and `normalize_email` of identity-gateway/aw_gateway/store.py.
use canvas_watcher.Base.{
  ℕ, Bool, true, false, not, ◌&&◌, ◌||◌, [], ◌∷◌, Text, codes, ◌==◌, nat_eq, strip, is_space, leb,
  any, all, length, count_where, starts_with, if◌then◌else◌,
}
use mathlib.Core.List.{reverse}
use canvas_watcher.Gateway.Identity.Tx.{Result, ok, err, identity, invalid_username, invalid_email}

-- The class `[A-Za-z0-9_.-]` of `_USERNAME`.
unfoldable pub name_char : ℕ → Bool
name_char c =
    (leb b'A' c && leb c b'Z')
    || (leb b'a' c && leb c b'z')
    || (leb b'0' c && leb c b'9')
    || c == b'_'
    || c == b'.'
    || c == b'-'

-- `_USERNAME.fullmatch`
unfoldable pub username_matches : Text → Bool
unfolding name_char all
username_matches v = all name_char v && leb 3 (length v) && leb (length v) 40

unfoldable pub normalize_username : Text → Result Text
unfolding username_matches
normalize_username value =
    let v = strip value in if username_matches v then ok v else err (identity invalid_username)

-- The two parts of `value.split("@", 1)`, for a value that holds an `@`.
unfoldable pub local_part : Text → Text
local_part [] = []
local_part (c ∷ s) = if c == b'@' then [] else c ∷ local_part s

unfoldable pub domain_part : Text → Text
domain_part [] = []
domain_part (c ∷ s) = if c == b'@' then s else domain_part s

unfoldable pub email_shape : Text → Bool
unfolding any count_where is_space
email_shape v = leb (length v) 254 && count_where (λ c. c == b'@') v == 1 && not (any is_space v)

is_empty : Text → Bool
is_empty [] = true
is_empty (c ∷ s) = false

unfoldable pub email_parts : Text → Text → Bool
unfolding is_empty any starts_with
email_parts local domain =
    not (is_empty local)
    && any (λ c. c == b'.') domain
    && not (starts_with domain (codes "."))
    && not (starts_with (reverse domain) (codes "."))

-- `str_lower` is `str.lower`.
unfoldable pub normalize_email : (Text → Text) → Text → Result Text
unfolding email_shape email_parts local_part domain_part
normalize_email str_lower value =
    let v = str_lower (strip value) in
    if email_shape v && email_parts (local_part v) (domain_part v)
    then ok v
    else err (identity invalid_email)
