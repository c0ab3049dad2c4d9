-- ===== src/Gateway/Identity/Invariant.antt =====
-- What holds of the identity database between two transactions.
use mathlib.Core.Option
use canvas_watcher.Base.{
  ℕ, ◌≤◌, Bool, true, false, not, ◌&&◌, Option, none, some, List, [], ◌∷◌, ◌++◌, Text, ◌==◌,
  text_beq_iff, beq_comm, lower, text_eq, nat_eq, ◌≡◌, refl, ◌∙◌, arith, any, All, Pairwise,
  All-map, All-append, Pairwise-snoc, any-false, delete_where, update_where, when_then,
}
use canvas_watcher.Base.Table.Rows.{
  fetch_one-append, fetch_one-update_where, fetch_one_holds, All-delete_where, All-update_where,
  Pairwise-update_where,
}
use canvas_watcher.Gateway.Identity.Schema.{User, Session, Db, Kind, bootstrap, normal, is_active}
use canvas_watcher.Gateway.Identity.Tx.{clashes, user_by_id}

-- The sessions that an account may have: none unless it is active, the bootstrap session only
-- while the password must be changed, and others only after that.
abbrev pub admits : Kind → Option User → Bool
admits kind none = false
admits bootstrap (some u) = is_active u.status && u.must_change_password
admits normal (some u) = is_active u.status && not u.must_change_password

abbrev pub session_ok : List User → Session → Bool
session_ok users s = admits s.kind (user_by_id s.user_id users)

-- The UNIQUE columns differ between accounts, and each account has one of the instances.
pub record Accounts (slots : ℕ) (users : List User) : Type 0 where
  pub distinct : Pairwise (λ u v. clashes u v ≡ false) users
  pub in_range : All (λ u. (1 ≤ u.slot) × (u.slot ≤ slots)) users

pub record SessionsOk (users : List User) (sessions : List Session) : Type 0 where
  pub each : All (λ s. session_ok users s ≡ true) sessions

pub record IsSound (slots : ℕ) (db : Db) : Type 0 where
  pub accounts : Accounts slots db.users
  pub sessions : SessionsOk db.users db.sessions

clashes_comm : (u v : User) → clashes u v ≡ clashes v u
unfolding clashes
clashes_comm u v = ground (
  arith,
  beq_comm u.id v.id,
  beq_comm (lower u.username) (lower v.username),
  beq_comm (lower u.email) (lower v.email),
)

pub Accounts-append :
    (slots : ℕ) (u : User) (users : List User)
    → Accounts slots users
    → any (clashes u) users ≡ false
    → 1 ≤ u.slot
    → u.slot ≤ slots
    → Accounts slots (users ++ u ∷ [])
Accounts-append slots u users h fresh lo hi = record {
  distinct =
      Pairwise-snoc _ users u h.distinct
        (All-map users (λ v e. clashes_comm v u ∙ e) (any-false (clashes u) users fresh));
  in_range = All-append _ users (u ∷ []) h.in_range ((lo, hi), tt);
}

-- An UPDATE that writes no UNIQUE column.
abbrev pub KeepsKeys : (User → User) → Type 0
KeepsKeys f =
    (u : User)
    → ((f u).id ≡ u.id)
      × ((f u).username ≡ u.username)
      × ((f u).email ≡ u.email)
      × ((f u).slot ≡ u.slot)

pub Accounts-update :
    (slots : ℕ) (q : User → Bool) (f : User → User) (users : List User)
    → KeepsKeys f
    → Accounts slots users
    → Accounts slots (update_where q f users)
Accounts-update slots q f users keys h = record {
  distinct = Pairwise-update_where _ q f users (λ u v e. still_distinct u v e) h.distinct;
  in_range = All-update_where _ _ q f users (λ u r. still_in_range u r) h.in_range;
}
  where
    still_distinct :
        (u v : User) → clashes u v ≡ false → clashes (when_then q f u) (when_then q f v) ≡ false
    still_distinct u v e = unfold clashes in ground (arith, keys u, keys v)

    still_in_range :
        (u : User)
        → (1 ≤ u.slot) × (u.slot ≤ slots)
        → (1 ≤ (when_then q f u).slot) × ((when_then q f u).slot ≤ slots)
    still_in_range u r = ground (arith, keys u)

-- A new account takes no session away.
pub SessionsOk-append :
    (u : User) (users : List User) (sessions : List Session)
    → SessionsOk users sessions
    → SessionsOk (users ++ u ∷ []) sessions
SessionsOk-append u users sessions h = record {
  each = All-map sessions (λ s e. session_ok-append s (fetch_one-append _ users (u ∷ [])) e) h.each;
}
  where
    session_ok-append :
        (s : Session)
        → (user_by_id s.user_id (users ++ u ∷ []) ≡ elim (user_by_id s.user_id users) [
          | none ↦ user_by_id s.user_id (u ∷ [])
          | some x ↦ some x
        ])
        → session_ok users s ≡ true
        → session_ok (users ++ u ∷ []) s ≡ true
    session_ok-append s p e = ground arith

pub session_ok-updated :
    (q : User → Bool) (f : User → User) (users : List User) (s : Session)
    → KeepsKeys f
    → session_ok (update_where q f users) s
      ≡ admits s.kind (Option.map (when_then q f) (user_by_id s.user_id users))
session_ok-updated q f users s keys =
    rw (fetch_one-update_where (λ u. u.id == s.user_id) q f users (λ u. rw (keys u).0 refl))

admits-map :
    (kind : Kind) (q : User → Bool) (f : User → User) (o : Option User)
    → ((u : User)
        → o ≡ some u
        → q u ≡ true
        → admits kind (some u) ≡ true
        → admits kind (some (f u)) ≡ true)
    → admits kind o ≡ true
    → admits kind (Option.map (when_then q f) o) ≡ true
admits-map kind q f none still h = h
admits-map kind q f (some u) still h = ground (arith, still u refl)

pub session_ok-update :
    (q : User → Bool) (f : User → User) (users : List User) (s : Session)
    → KeepsKeys f
    → ((u : User)
        → user_by_id s.user_id users ≡ some u
        → q u ≡ true
        → admits s.kind (some u) ≡ true
        → admits s.kind (some (f u)) ≡ true)
    → session_ok users s ≡ true
    → session_ok (update_where q f users) s ≡ true
session_ok-update q f users s keys still h =
    rw (fetch_one-update_where (λ u. u.id == s.user_id) q f users (λ u. rw (keys u).0 refl))
      (admits-map s.kind q f (user_by_id s.user_id users) still h)

-- An UPDATE of accounts that could have no session, or of columns that sessions do not depend on.
pub SessionsOk-update :
    (q : User → Bool) (f : User → User) (users : List User) (sessions : List Session)
    → KeepsKeys f
    → ((kind : Kind) (u : User)
        → q u ≡ true
        → admits kind (some u) ≡ true
        → admits kind (some (f u)) ≡ true)
    → SessionsOk users sessions
    → SessionsOk (update_where q f users) sessions
SessionsOk-update q f users sessions keys still h = record {
  each =
      All-map sessions (λ s e. session_ok-update q f users s keys (λ u _. still s.kind u) e) h.each;
}

-- An UPDATE of one account, behind which its sessions are deleted.
pub SessionsOk-update_delete :
    (id : Text) (q : User → Bool) (f : User → User) (users : List User) (sessions : List Session)
    → KeepsKeys f
    → ((u : User) → q u ≡ true → u.id ≡ id)
    → SessionsOk users sessions
    → SessionsOk (update_where q f users) (delete_where (λ s. s.user_id == id) sessions)
SessionsOk-update_delete id q f users sessions keys only h = record {
  each =
      All-map (delete_where (λ s. s.user_id == id) sessions) (λ s e. other s e.0 e.1)
        (All-delete_where _ (λ s. s.user_id == id) sessions h.each);
}
  where
    other :
        (s : Session)
        → session_ok users s ≡ true
        → (s.user_id == id) ≡ false
        → session_ok (update_where q f users) s ≡ true
    other s e ne =
        session_ok-update q f users s keys
          (λ u found hit _. ground (
            arith,
            only u hit,
            fetch_one_holds (λ v. v.id == s.user_id) users u found,
            text_beq_iff u.id s.user_id,
            text_beq_iff s.user_id id,
          ))
          e

pub SessionsOk-delete :
    (p : Session → Bool) (users : List User) (sessions : List Session)
    → SessionsOk users sessions
    → SessionsOk users (delete_where p sessions)
SessionsOk-delete p users sessions h = record {
  each = All-map (delete_where p sessions) (λ s e. e.0) (All-delete_where _ p sessions h.each);
}

pub SessionsOk-snoc :
    (s : Session) (users : List User) (sessions : List Session)
    → SessionsOk users sessions
    → session_ok users s ≡ true
    → SessionsOk users (sessions ++ s ∷ [])
SessionsOk-snoc s users sessions h e = record {
  each = All-append _ sessions (s ∷ []) h.each (e, tt);
}
