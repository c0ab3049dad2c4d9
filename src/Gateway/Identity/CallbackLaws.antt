-- ===== src/Gateway/Identity/CallbackLaws.antt =====
-- The OAuth state of one tenant: `register_oauth_callback` and `consume_oauth_callback`.
use canvas_watcher.Base.{
  ℕ, ◌+◌, Bool, true, false, ◌&&◌, none, some, List, [], ◌∷◌, ◌++◌, Text, ◌==◌, ◌≡◌, sym, text_eq,
  text_beq_iff, text_beq_refl, arith, any, ltb, leb, inl, inr, Option-cases, delete_where,
  fetch_one, if◌then◌else◌,
}
use mathlib.Core.Path.{subst}
use canvas_watcher.Base.Table.Rows.{
  fetch_one_holds, fetch_one-append, fetch_one-none_of_any, fetch_one-delete_where-none,
}
use canvas_watcher.Gateway.Identity.Schema.{Callback, Db, User}
use canvas_watcher.Gateway.Identity.Tx.{ok, user_by_id, insert_callback}
use canvas_watcher.Gateway.Identity.Security.{Security, token_digest}
use canvas_watcher.Gateway.Identity.Callbacks.{
  register_oauth_callback, consume_oauth_callback, callback_row, holds_slot,
}

abbrev live : Text → Text → ℕ → Db → Callback → Bool
live digest provider now db c =
    c.state_hash == digest
    && c.provider == provider
    && ltb now c.expires_at
    && holds_slot c.slot (user_by_id c.user_id db.users)

-- What a successful registration leaves.
registered :
    (sec : Security) (now : ℕ) (outer user_id : Text) (slot : ℕ) (provider inner : Text)
    (lifetime : ℕ) (db db' : Db)
    → register_oauth_callback sec now outer user_id slot provider inner lifetime db ≡ (ok tt, db')
    → (rows : List Callback) × (any (λ c. c.state_hash == token_digest sec outer) rows ≡ false)
      × (holds_slot slot (user_by_id user_id db.users) ≡ true)
      × (db' ≡ record db {
        oauth_callbacks =
            rows
            ++ record {
              state_hash = token_digest sec outer;
              user_id = user_id;
              slot = slot;
              provider = provider;
              inner_state = inner;
              created_at = now;
              expires_at = now + lifetime;
            }
              ∷ [];
      })
unfolding register_oauth_callback insert_callback
registered sec now outer user_id slot provider inner lifetime db db' h = (
  delete_where (λ c. leb c.expires_at now) db.oauth_callbacks,
  ground arith,
  ground arith,
  ground arith,
)

callback_row-snoc :
    (c : Callback) (provider : Text) (later : ℕ) (rows : List Callback) (db : Db)
    → any (λ r. r.state_hash == c.state_hash) rows ≡ false
    → holds_slot c.slot (user_by_id c.user_id db.users) ≡ true
    → callback_row c.state_hash provider later (record db { oauth_callbacks = rows ++ c ∷ [] })
      ≡ (if c.provider == provider && ltb later c.expires_at then some c else none)
unfolding callback_row fetch_one
callback_row-snoc c provider later rows db fresh holds =
    let p = live c.state_hash provider later db in
    rw (fetch_one-append p rows (c ∷ [])) (
      rw
        (fetch_one-none_of_any p (λ r. r.state_hash == c.state_hash) rows fresh
          (λ r e. ground arith))
        (ground (arith, text_beq_refl c.state_hash)))

-- If the registration of a state succeeds, consuming it gives back the slot and the inner state that
-- were registered, for the registered provider and before `lifetime` seconds have passed; for
-- another provider or later it gives nothing. No other call intervenes.
pub consume-register :
    (sec : Security) (now later : ℕ) (outer user_id : Text) (slot : ℕ)
    (provider provider' inner : Text) (lifetime : ℕ) (db db' : Db)
    → register_oauth_callback sec now outer user_id slot provider inner lifetime db ≡ (ok tt, db')
    → (consume_oauth_callback sec later outer provider' db').0
      ≡ ok
          (if provider == provider' && ltb later (now + lifetime) then some (slot, inner) else none)
unfolding consume_oauth_callback
consume-register sec now later outer user_id slot provider provider' inner lifetime db db' h =
    let (rows, fresh, holds, e) =
      registered sec now outer user_id slot provider inner lifetime db db' h in
    let c : Callback = record {
      state_hash = token_digest sec outer;
      user_id = user_id;
      slot = slot;
      provider = provider;
      inner_state = inner;
      created_at = now;
      expires_at = now + lifetime;
    } in
    ground (arith, e, callback_row-snoc c provider' later rows db fresh holds)

callback_row-deleted :
    (digest provider : Text) (later : ℕ) (db : Db)
    → callback_row digest provider later (record db {
      oauth_callbacks = delete_where (λ c. c.state_hash == digest) db.oauth_callbacks;
    })
      ≡ none
unfolding callback_row
callback_row-deleted digest provider later db =
    fetch_one-delete_where-none _ (λ c. c.state_hash == digest) db.oauth_callbacks
      (λ c e. ground arith)

-- A state is consumed once: after `consume_oauth_callback` gave a mapping, it gives nothing for that
-- state, for any provider and at any time, as long as no other call intervenes.
pub consume_once :
    (sec : Security) (now later : ℕ) (outer provider provider' : Text) (r : ℕ × Text) (db db' : Db)
    → consume_oauth_callback sec now outer provider db ≡ (ok (some r), db')
    → consume_oauth_callback sec later outer provider' db' ≡ (ok none, db')
unfolding consume_oauth_callback
consume_once sec now later outer provider provider' r db db' h =
    elim (Option-cases (callback_row (token_digest sec outer) provider now db)) [
      | inl e ↦ ground arith
      | inr (c, e) ↦
          ground (arith, callback_row-deleted (token_digest sec outer) provider' later db)
    ]

-- A consumed mapping names an active account that holds the slot.
pub consume-holds_slot :
    (sec : Security) (now : ℕ) (outer provider : Text) (slot : ℕ) (inner : Text) (db db' : Db)
    → consume_oauth_callback sec now outer provider db ≡ (ok (some (slot, inner)), db')
    → (u : User) × (user_by_id u.id db.users ≡ some u) × (holds_slot slot (some u) ≡ true)
unfolding consume_oauth_callback
consume-holds_slot sec now outer provider slot inner db db' h =
    elim (Option-cases (callback_row (token_digest sec outer) provider now db)) [
      | inl e ↦ absurd (ground arith)
      | inr (c, e) ↦ elim (Option-cases (user_by_id c.user_id db.users)) [
        | inl missing ↦ absurd (ground (arith, row_holds c e))
        | inr (u, found) ↦ (
          u,
          subst (λ i. user_by_id i db.users ≡ some u)
              (sym (
                (text_beq_iff u.id c.user_id).0
                  (fetch_one_holds (λ v. v.id == c.user_id) db.users u found)))
              found,
          ground (arith, row_holds c e),
        )
      ]
    ]
  where
    row_holds :
        (c : Callback)
        → callback_row (token_digest sec outer) provider now db ≡ some c
        → live (token_digest sec outer) provider now db c ≡ true
    row_holds c e = unfold callback_row in fetch_one_holds _ db.oauth_callbacks c e
