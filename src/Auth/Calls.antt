-- ===== src/Auth/Calls.antt =====
-- Sequences of calls of `ChallengeStore`, each with its reading of the clock.
use canvas_watcher.Base.{ℕ, Bool, true, false, List, [], ◌∷◌, Text, ◌==◌, text_eq, ◌≡◌, All}
use canvas_watcher.Auth.Challenge.{
  Target, Challenge, ChallengeStore, create, claim, begin_completion, control, finish, fail,
}

-- The calls on the store; of `publish` a call of `finish` says whether it returns.
pub data Call : Type 0 where
  claims : Text → Text → Text → Text → Text → Call
  begins : Text → Text → Text → Text → Call
  controls : Text → Text → Text → Text → Bool → Call
  finishes : Text → Text → Bool → Call
  fails : Text → Text → Call
  creates : Text → Target → Text → Text → Text → Call

unfoldable pub step : (Text → Text) → ℕ → Call → ChallengeStore → ChallengeStore
step digest now (claims id instance_id provider token exchange) s =
    (claim digest now id instance_id provider token exchange s).1
step digest now (begins id instance_id provider token) s =
    (begin_completion digest now id instance_id provider token s).1
step digest now (controls id instance_id provider token cancel) s =
    (control digest now id instance_id provider token cancel s).1
step digest now (finishes id provider publishes) s =
    (finish now id provider (λ w. (publishes, w)) tt s).1.1
step digest now (fails id reason) s = fail id reason s
step digest now (creates provider target id ticket control) s =
    (create digest now provider target id ticket control s).1

unfoldable pub run : (Text → Text) → List (ℕ × Call) → ChallengeStore → ChallengeStore
unfolding step
run digest [] s = s
run digest ((now, call) ∷ rest) s = run digest rest (step digest now call s)

-- Every row of the key is `r`; a dict has one at most.
abbrev pub Only : Text → Challenge → List Challenge → Type 0
Only id r rows = All (λ x. (x.id == id) ≡ true → x ≡ r) rows

-- The call creates no attempt of the key; keys are random.
abbrev pub NotNew : Text → Call → Type 0
NotNew id (creates provider target id' ticket control) = (id' == id) ≡ false
NotNew id _ = Unit {0}
