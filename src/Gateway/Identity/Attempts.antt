-- ===== src/Gateway/Identity/Attempts.antt =====
-- `record_login_attempt` and `clear_login_attempts` of `IdentityStore`: a sliding window.
use canvas_watcher.Base.{
  ℕ, ◌+◌, Bool, true, false, ◌&&◌, List, ◌∷◌, [], ◌++◌, Text, ◌==◌, text_eq, ltb, leb,
  if◌then◌else◌, count_where, delete_where,
}
use canvas_watcher.Gateway.Identity.Schema.{Attempt}
use canvas_watcher.Gateway.Identity.Tx.{Tx, pure, gets, write, ◌>>=◌, ◌>>◌, modify}
use canvas_watcher.Gateway.Identity.Security.{Security, token_digest}

-- `occurred_at < now - window`; the difference may be negative in Python.
abbrev pub is_old : ℕ → ℕ → Attempt → Bool
is_old window now a = ltb (a.occurred_at + window) now

-- `key=? AND occurred_at >= now - window`
abbrev pub counts : Text → ℕ → ℕ → Attempt → Bool
counts key window now a = a.key == key && leb now (a.occurred_at + window)

-- What the transaction does to the table.
unfoldable pub record_attempt : Text → ℕ → ℕ → ℕ → List Attempt → Bool × List Attempt
unfolding count_where delete_where
record_attempt key limit window now rows =
    let kept = delete_where (is_old window now) rows in
    if leb limit (count_where (counts key window now) kept)
    then (false, kept)
    else (true, kept ++ record { key = key; occurred_at = now } ∷ [])

unfoldable pub record_login_attempt : Security → ℕ → ℕ → ℕ → Text → Tx Bool
unfolding record_attempt
record_login_attempt sec limit window now key = write (do
  rows ← gets (λ db. db.login_attempts)
  let r = record_attempt (token_digest sec key) limit window now rows
  modify (λ db. record db { login_attempts = r.1 })
  pure r.0)

unfoldable pub clear_login_attempts : Security → Text → Tx (Unit {0})
clear_login_attempts sec key = write (
    modify (λ db. record db {
      login_attempts = delete_where (λ a. a.key == token_digest sec key) db.login_attempts;
    }))
