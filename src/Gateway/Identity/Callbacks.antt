-- ===== src/Gateway/Identity/Callbacks.antt =====
-- `register_oauth_callback` and `consume_oauth_callback` of `IdentityStore`.
use canvas_watcher.Base.{
  ℕ, ◌+◌, Bool, true, false, ◌&&◌, Option, none, some, [], ◌∷◌, ◌||◌, Text, codes, ◌==◌, text_eq,
  nat_eq, ltb, leb, fetch_one, delete_where,
}
use canvas_watcher.Gateway.Identity.Schema.{User, Callback, Db, is_active}
use canvas_watcher.Gateway.Identity.Tx.{
  identity, Tx, pure, gets, write, ◌>>=◌, ◌>>◌, guard, modify, user_by_id, insert_callback,
  invalid_mapping, oauth_unavailable,
}
use canvas_watcher.Gateway.Identity.Security.{Security, token_digest}

-- An active user of the given slot.
unfoldable pub holds_slot : ℕ → Option User → Bool
holds_slot slot none = false
holds_slot slot (some u) = is_active u.status && u.slot == slot

is_provider : Text → Bool
is_provider p = p == codes "canvas" || p == codes "google"

is_given : Text → Bool
is_given [] = false
is_given (c ∷ s) = true

unfoldable pub register_oauth_callback :
    Security → ℕ → Text → Text → ℕ → Text → Text → ℕ → Tx (Unit {0})
unfolding holds_slot is_given is_provider
register_oauth_callback sec now outer_state user_id slot provider inner_state lifetime = do
  guard (is_provider provider && is_given inner_state && ltb 0 lifetime && leb lifetime 600)
      (identity invalid_mapping)
  write (do
    found ← gets (λ db. user_by_id user_id db.users)
    guard (holds_slot slot found) (identity oauth_unavailable)
    modify (λ db. record db {
      oauth_callbacks = delete_where (λ c. leb c.expires_at now) db.oauth_callbacks;
    })
    insert_callback (record {
      state_hash = token_digest sec outer_state;
      user_id = user_id;
      slot = slot;
      provider = provider;
      inner_state = inner_state;
      created_at = now;
      expires_at = now + lifetime;
    }))

unfoldable pub callback_row : Text → Text → ℕ → Db → Option Callback
unfolding holds_slot
callback_row digest provider now db =
    fetch_one
      (λ c.
        c.state_hash == digest
        && c.provider == provider
        && ltb now c.expires_at
        && holds_slot c.slot (user_by_id c.user_id db.users))
      db.oauth_callbacks

unfoldable pub consume_oauth_callback : Security → ℕ → Text → Text → Tx (Option (ℕ × Text))
unfolding callback_row
consume_oauth_callback sec now outer_state provider = write (do
  found ← gets (callback_row (token_digest sec outer_state) provider now)
  elim found [
    | none ↦ pure none
    | some mapping ↦ (do
      modify (λ db. record db {
        oauth_callbacks =
            delete_where (λ c. c.state_hash == token_digest sec outer_state) db.oauth_callbacks;
      })
      pure (some (mapping.slot, mapping.inner_state)))
  ])
