-- ===== src/Gateway/Identity/Security.antt =====
-- identity-gateway/aw_gateway/security.py. The hashes are parameters: SHA-256, HMAC and the
-- password hashes are libraries', and so is Python's case mapping of Unicode. `compare_digest` of `hmac` answers whether two texts are equal.
use canvas_watcher.Base.{Bool, ◌||◌, Text, ◌==◌, text_eq, ltb, length, if◌then◌else◌}
use canvas_watcher.Gateway.Identity.Tx.{Result, ok, err, value}

pub record Security : Type 0 where
  -- hashlib.sha256(value).hexdigest()
  pub sha256_hex : Text → Text
  -- argon2.PasswordHasher().hash and .verify, `false` where it raises
  pub argon2_hash : Text → Text
  pub argon2_verify : Text → Text → Bool
  -- hmac.new(secret, value, sha256).hexdigest()
  pub hmac_hex : Text → Text → Text
  -- str.lower, over all of Unicode
  pub str_lower : Text → Text

module _ (sec : Security) where
  unfoldable pub token_digest : Text → Text
  token_digest v = sec.sha256_hex v

  unfoldable pub compare_token : Text → Text → Bool
  compare_token v expected = token_digest v == expected

  unfoldable pub hash_password : Text → Result Text
  hash_password v =
      if ltb (length v) 12 || ltb 256 (length v) then err value else ok (sec.argon2_hash v)

  unfoldable pub verify_password : Text → Text → Bool
  verify_password v encoded = sec.argon2_verify encoded v

  unfoldable pub csrf_token : Text → Text → Text
  csrf_token secret session_token = sec.hmac_hex secret session_token

  -- On texts of ASCII characters; on others `compare_digest` raises.
  unfoldable pub verify_csrf : Text → Text → Text → Bool
  unfolding csrf_token
  verify_csrf secret session_token provided = csrf_token secret session_token == provided
