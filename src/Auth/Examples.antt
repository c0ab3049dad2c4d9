-- ===== src/Auth/Examples.antt =====
-- The theorems on sign-in attempts at concrete inputs. The hash keeps the text.
use canvas_watcher.Base.{
  ℕ, Bool, ◌+◌, ℕ, ◌≤◌, true, false, none, some, List, [], ◌∷◌, Text, codes, ◌≡◌, ◌≢◌, ◌==◌,
  text_eq, refl, arith, text_beq, any, length, select, fetch_one, update_where,
}
use canvas_watcher.Auth.Challenge.{
  Target, Challenge, ChallengeStore, waiting_for_user, login_opened, cancelled, ok, find_row, put,
  checked_row, create, claim, begin_completion, control, finish, user_cancelled,
}
use canvas_watcher.Auth.Calls.{Call, claims, creates, step, run, Only}
use canvas_watcher.Auth.Decided.{decided_stays, decided_never_published}

runs : Unit {0}
unfolding run step create claim begin_completion control finish checked_row find_row put text_beq
    any select fetch_one update_where
runs = tt

abbrev digest : Text → Text
digest t = t

abbrev target : Target
target = record { credential_id = some (codes "c1"); rest = [] }

-- An attempt for canvas was created at 100.
abbrev waiting : Challenge
waiting = record {
  id = codes "a";
  provider = codes "canvas";
  target = target;
  deadline = 340;
  ticket_hash = codes "t";
  control_hash = codes "k";
  exchange_hash = [];
  state = waiting_for_user;
  claimed = false;
  finishing = false;
  reason = none;
}

abbrev store : Challenge → ChallengeStore
store row = record { instance_id = codes "i"; ttl = 240; rows = row ∷ [] }

created_at_100 :
    create digest 100
      (codes "canvas")
      target
      (codes "a")
      (codes "t")
      (codes "k")
      (record { instance_id = codes "i"; ttl = 240; rows = [] })
    ≡ (ok (codes "a"), store waiting)
unfolding runs
created_at_100 = refl

abbrev closed : Challenge
closed = record waiting { state = cancelled; reason = some user_cancelled }

abbrev calls : List (ℕ × Call)
calls =
    (120, claims (codes "a") (codes "i") (codes "canvas") (codes "t") (codes "x"))
    ∷ (121, creates (codes "canvas") target (codes "b") (codes "t2") (codes "k2"))
    ∷ []

fresh : (codes "b" == codes "a") ≡ false
unfolding text_beq
fresh = refl

decided_stays_example : Only (codes "a") closed (run digest calls (store closed)).rows
decided_stays_example =
    decided_stays digest (codes "a") closed calls (store closed) refl (tt, (fresh, tt))
      ((λ e. refl), tt)

-- Outside the store, the credentials published so far are counted.
abbrev count_up : ℕ → Bool × ℕ
count_up n = (true, n + 1)

publishes_once : (finish 101 (codes "a") (codes "canvas") count_up 0 (store waiting)).1.0 ≡ 1
unfolding runs
publishes_once = refl

decided_never_published_example :
    ((finish 122 (codes "a") (codes "canvas") count_up 0 (run digest calls (store closed))).0
      ≢ ok tt)
    × ((finish 122 (codes "a") (codes "canvas") count_up 0 (run digest calls (store closed))).1.0
        ≡ 0)
decided_never_published_example =
    decided_never_published digest 122 (codes "a") (codes "canvas") count_up 0 closed calls
      (store closed) refl (tt, (fresh, tt)) ((λ e. refl), tt)

found : find_row (codes "a") (store waiting).rows ≡ some waiting
unfolding runs
found = refl

closes :
    (control digest 110 (codes "a") (codes "i") (codes "canvas") (codes "k") true (store waiting)).0
    ≡ ok (cancelled, some user_cancelled)
unfolding runs
closes = refl

claims_at_120 :
    (claim digest 120
      (codes "a")
      (codes "i")
      (codes "canvas")
      (codes "t")
      (codes "x")
      (store waiting)).0
    ≡ ok (target, 340)
unfolding runs
claims_at_120 = refl

abbrev open_login : Challenge
open_login = record waiting { state = login_opened; claimed = true; exchange_hash = codes "x" }

begins_at_130 :
    (begin_completion digest 130
      (codes "a")
      (codes "i")
      (codes "canvas")
      (codes "x")
      (store open_login)).0
    ≡ ok (record open_login { finishing = true })
unfolding runs
begins_at_130 = refl

one_row : length (store waiting).rows ≤ 64
one_row = ground arith
