-- ===== src/Credentials/Examples.antt =====
-- The theorems on the credentials at concrete inputs.
use canvas_watcher.Base.{Bool, true, false, none, some, List, [], ◌∷◌, codes, ◌≡◌, refl}
use canvas_watcher.Credentials.Store.{
  oauth, CanvasCredential, token_of, oauth_of, nothing, no_slots, Account, Active, snapshot,
  remove_canvas_slot, set_canvas_slot, activate_best, best,
}
use canvas_watcher.Credentials.Calls.{Call, Kept, run, step}
use canvas_watcher.Credentials.Held.{Held, run-Held}
use canvas_watcher.Credentials.Durable.{Durable, run-Durable}

abbrev fresh : Account
fresh = record {
  active = nothing;
  canvas_mode = none;
  preferred = none;
  blocked = false;
  slots = no_slots;
  generations = λ m. 0;
  states = λ m. none;
  fallback = none;
}

abbrev token : CanvasCredential
token = token_of (codes "https://c") (codes "t")

abbrev grant : CanvasCredential
grant = oauth_of (codes "https://c") (codes "a") (codes "r") 900

abbrev start : Kept
start = record { memory = fresh; vault = snapshot fresh }

-- The second write fails.
abbrev calls : List (Bool × Call)
calls =
    (true, Call.install token)
    ∷ (false, Call.select oauth)
    ∷ (true, Call.install grant)
    ∷ (true, Call.remove oauth (some 1) (codes "INVALID"))
    ∷ []

-- The token of the application is in use again.
falls_back : (run calls start).memory.active ≡ Active.canvas token
unfolding run step set_canvas_slot activate_best best remove_canvas_slot
falls_back = refl

run-Held_example : Held (run calls start).memory
run-Held_example =
    run-Held calls start
      (record { typed = record { fits_oauth = tt; fits_pat = tt; fits_browser = tt }; used = tt })

run-Durable_example : Durable (run calls start)
run-Durable_example =
    run-Durable calls start (refl, (refl, (refl, (refl, tt))))
      (record { agrees = refl; no_ntlm = refl })
