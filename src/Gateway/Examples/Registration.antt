-- ===== src/Gateway/Examples/Registration.antt =====
-- The theorems on registration, the rate limit and OAuth states at concrete inputs.
use canvas_watcher.Base.{
  ◌+◌, ◌&&◌, none, some, List, [], ◌∷◌, codes, ◌==◌, text_eq, nat_eq, ◌≡◌, ◌≢◌, refl, ltb,
  if◌then◌else◌,
}
use canvas_watcher.Gateway.Identity.Schema.{Attempt, Db}
use canvas_watcher.Gateway.Identity.Tx.{ok}
use canvas_watcher.Gateway.Identity.Accounts.{redeem_invitation}
use canvas_watcher.Gateway.Identity.Callbacks.{register_oauth_callback, consume_oauth_callback}
use canvas_watcher.Gateway.Identity.InvitationLaws.{redeem_invitation_once}
use canvas_watcher.Gateway.Identity.CallbackLaws.{consume-register}
use canvas_watcher.Gateway.Examples.Setup.{plain, password, runs, o', settled}

abbrev invited : Db
invited = record settled {
  users = o' ∷ [];
  sessions = [];
  invitations =
      record {
        token_hash = codes "i";
        email = codes "u@x.edu";
        created_by = codes "o";
        created_at = 4;
        expires_at = 604804;
        redeemed_by = none;
      }
      ∷ [];
}

abbrev registered : Db
registered =
    (redeem_invitation plain 5 (codes "u") 5 (codes "i") (codes "user") (codes "U@x.edu") password
      invited).1

redeems :
    redeem_invitation plain 5
      (codes "u")
      5
      (codes "i")
      (codes "user")
      (codes "U@x.edu")
      password
      invited
    ≡ (ok (codes "u", 2), registered)
unfolding runs
redeems = refl

redeem_invitation_once_example :
    (redeem_invitation plain 5
      (codes "v")
      6
      (codes "i")
      (codes "other")
      (codes "u@x.edu")
      password
      registered).0
    ≢ ok (codes "v", 3)
redeem_invitation_once_example =
    redeem_invitation_once plain 5 (codes "u") 5 (codes "i") (codes "user") (codes "U@x.edu")
      password (codes "u") 2 invited registered redeems (codes "v") 6 (codes "other")
      (codes "u@x.edu") password (codes "v", 3)

abbrev tried : List Attempt
tried = record { key = codes "k"; occurred_at = 10 } ∷ []

abbrev waiting : Db
waiting =
    (register_oauth_callback plain 30 (codes "q") (codes "u") 2 (codes "canvas") (codes "inner") 230
      settled).1

registers :
    register_oauth_callback plain 30
      (codes "q")
      (codes "u")
      2
      (codes "canvas")
      (codes "inner")
      230
      settled
    ≡ (ok tt, waiting)
unfolding runs
registers = refl

consume-register_example :
    (consume_oauth_callback plain 40 (codes "q") (codes "canvas") waiting).0
    ≡ ok (
        if codes "canvas" == codes "canvas" && ltb 40 (30 + 230)
        then some (2, codes "inner")
        else none)
consume-register_example =
    consume-register plain 30 40 (codes "q") (codes "u") 2 (codes "canvas") (codes "canvas")
      (codes "inner") 230 settled waiting registers

abbrev consumed : Db
consumed = (consume_oauth_callback plain 40 (codes "q") (codes "canvas") waiting).1

consumes :
    consume_oauth_callback plain 40 (codes "q") (codes "canvas") waiting
    ≡ (ok (some (2, codes "inner")), consumed)
unfolding runs
consumes = refl
