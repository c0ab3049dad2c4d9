-- ===== src/Gateway/Examples/Sessions.antt =====
-- The theorems on sessions and accounts at concrete inputs.
use canvas_watcher.Base.{
  not, ◌&&◌, ◌==◌, ℕ, ◌+◌, true, false, none, some, List, [], ◌∷◌, codes, text_eq, nat_eq, ◌≡◌, ◌≢◌,
  refl, ap, ◌*◌, arith, ltb, if◌then◌else◌, text_beq,
}
use mathlib.Core.Option
use canvas_watcher.Gateway.Identity.Schema.{User, Db, normal, empty_db}
use canvas_watcher.Gateway.Identity.Tx.{ok, user_by_id}
use canvas_watcher.Gateway.Identity.Security.{token_digest}
use canvas_watcher.Gateway.Identity.Accounts.{disable_user}
use canvas_watcher.Gateway.Identity.Sessions.{
  claim_owner, finish_owner_password_change, create_session, session, claimable,
}
use canvas_watcher.Gateway.Identity.Invariant.{IsSound}
use canvas_watcher.Gateway.Identity.Calls.{
  Call, owner, claim, change_password, invite, redeem, activate, sign_in, run, run-IsSound,
}
use canvas_watcher.Gateway.Identity.SessionLaws.{session-create_session, session-disable_user}
use canvas_watcher.Gateway.Identity.OwnerLaws.{
  claim_owner_once, named, names, session-finish_owner_password_change,
}
use canvas_watcher.Gateway.Examples.Setup.{plain, code, password, runs, u, o, o', settled}

-- The owner signs in for the first time, invites a user, and the user is activated and signs in.
abbrev script : List (ℕ × Call)
script =
    (1, owner (codes "o") (codes "Owner") (codes "owner@x.edu") (codes "$6$x") code)
    ∷ (2, claim (codes "o") code (codes "b"))
    ∷ (3, change_password (codes "b") password (codes "n"))
    ∷ (4, invite (codes "o") (codes "u@x.edu") (codes "i"))
    ∷ (5, redeem (codes "u") (codes "i") (codes "user") (codes "u@x.edu") password)
    ∷ (6, activate (codes "u"))
    ∷ (7, sign_in (codes "u") (codes "s"))
    ∷ []

run-IsSound_example : IsSound 5 (run plain 5 script empty_db)
run-IsSound_example = run-IsSound plain 5 script (omega arith)

abbrev before : Db
before = run plain 5 script empty_db

-- The invited user is signed in, at the first free slot.
signed_in : Option.map (λ r. r.0.slot) (session plain 8 (codes "s") before) ≡ some 2
unfolding runs
signed_in = refl

abbrev signed : Db
signed = (create_session plain 10 (codes "u") (codes "t") settled).1

signs_in : create_session plain 10 (codes "u") (codes "t") settled ≡ (ok tt, signed)
unfolding runs
signs_in = refl

session-create_session_example :
    (x : User) × (user_by_id (codes "u") settled.users ≡ some x)
    × (session plain 20 (codes "t") signed
        ≡ (if ltb 20 (10 + 7 * 86400) then some (x, normal) else none))
session-create_session_example =
    session-create_session plain 10 20 (codes "u") (codes "t") settled signed
      (λ e. cc (ap (λ t. text_beq t []) e)) signs_in

abbrev owner_signed : Db
owner_signed = record settled {
  sessions =
      record {
        token_hash = codes "t";
        user_id = codes "o";
        kind = normal;
        created_at = 7;
        expires_at = 604807;
      }
      ∷ [];
}

disables_again :
    disable_user 11 (codes "o") (codes "u") owner_signed
    ≡ (ok tt, (disable_user 11 (codes "o") (codes "u") owner_signed).1)
unfolding runs
disables_again = refl

owner_named :
    session plain 20 (codes "t") (disable_user 11 (codes "o") (codes "u") owner_signed).1
    ≡ some (o', normal)
unfolding runs
owner_named = refl

session-disable_user_example : (codes "o") ≢ (codes "u")
session-disable_user_example =
    session-disable_user plain 11 20 (codes "o") (codes "u") (codes "t") owner_signed
      (disable_user 11 (codes "o") (codes "u") owner_signed).1 disables_again o' normal owner_named

s_named : session plain 20 (codes "s") (run plain 5 script empty_db) ≡ some (u, normal)
unfolding runs
s_named = refl

abbrev fresh : Db
fresh = record empty_db { users = o ∷ [] }

abbrev after_claim : Db
after_claim = (claim_owner plain 2 (codes "o") code (codes "b") fresh).1

claims : claim_owner plain 2 (codes "o") code (codes "b") fresh ≡ (ok true, after_claim)
unfolding runs claimable
claims = refl

claim_owner_once_example :
    (claim_owner plain 3 (codes "o") code (codes "c") after_claim).0 ≡ ok false
claim_owner_once_example =
    claim_owner_once plain 2 3 (codes "o") code code (codes "b") (codes "c") fresh after_claim
      claims

abbrev after_change : Db
after_change = (finish_owner_password_change plain 3 (codes "b") password (codes "n") after_claim).1

changes :
    finish_owner_password_change plain 3 (codes "b") password (codes "n") after_claim
    ≡ (ok (codes "o"), after_change)
unfolding runs claimable
changes = refl

abbrev changed_owner : User
changed_owner = record o {
  password_hash = some password;
  legacy_hash = none;
  bootstrap_digest = none;
  bootstrap_claimed_at = some 2;
  must_change_password = false;
}

n_given : codes "n" ≢ []
n_given e = cc e

session-finish_owner_password_change_example :
    ((u : User) × (user_by_id (codes "o") after_change.users ≡ some u)
      × (session plain 9 (codes "n") after_change ≡ named 3 9 u))
    × ((names (codes "o") (session plain 9 (codes "b") after_change)
          && not (token_digest plain (codes "b") == token_digest plain (codes "n")))
        ≡ false)
session-finish_owner_password_change_example =
    session-finish_owner_password_change plain 3 9 (codes "b") password (codes "n") (codes "o")
      (codes "b") after_claim after_change n_given changes

-- The account of the owner behind the change.
n_named : session plain 9 (codes "n") after_change ≡ some (changed_owner, normal)
unfolding runs claimable
n_named = refl
