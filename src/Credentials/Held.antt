-- ===== src/Credentials/Held.antt =====
-- The active credential of an account, and what the vault keeps of it.
use canvas_watcher.Base.{
  ℕ, Bool, true, false, Option, none, some, List, [], ◌∷◌, Text, ◌≡◌, refl, ap, suc, arith,
  if◌then◌else◌, nat_eq,
}
use canvas_watcher.Credentials.Store
use canvas_watcher.Credentials.Calls
use canvas_watcher.Credentials.Store.{
  Mode, oauth, pat, browser_session, CanvasCredential, token_of, cookies_of, oauth_of,
  NtlmCredential, Active, nothing, ntlm, canvas, Slots, slot_of, auth_mode, Account, Entry,
  snapshot, set_canvas_slot, installed, remove_canvas_slot, best, activate_best, select_canvas_mode,
  clear_memory, block_canvas,
}
use canvas_watcher.Credentials.Calls.{Call, Kept, step, run}

abbrev Fits : Mode → Option CanvasCredential → Type 0
Fits m none = Unit
Fits m (some c) = auth_mode c ≡ m

-- Each credential stands in the slot of its own mode.
pub record Typed (s : Slots) : Type 0 where
  pub fits_oauth : Fits oauth s.oauth_slot
  pub fits_pat : Fits pat s.pat_slot
  pub fits_browser : Fits browser_session s.browser_slot

abbrev Holds : Option CanvasCredential → Slots → Type 0
Holds none s = Unit
Holds (some c) s = slot_of (auth_mode c) s ≡ some c

-- An active Canvas credential is that of its slot.
abbrev pub Used : Active → Slots → Type 0
Used nothing s = Unit
Used (ntlm n) s = Unit
Used (canvas c) s = slot_of (auth_mode c) s ≡ some c

pub record Held (a : Account) : Type 0 where
  pub typed : Typed a.slots
  pub used : Used a.active a.slots

Fits-slot : (m : Mode) (s : Slots) → Typed s → Fits m (slot_of m s)
Fits-slot oauth s t = t.fits_oauth
Fits-slot pat s t = t.fits_pat
Fits-slot browser_session s t = t.fits_browser

Fits-Holds :
    (m : Mode) (o : Option CanvasCredential) (s : Slots) → slot_of m s ≡ o → Fits m o → Holds o s
Fits-Holds m none s e f = tt
Fits-Holds m (some c) s e f = rw f e

slot_Holds : (m : Mode) (s : Slots) → Typed s → Holds (slot_of m s) s
slot_Holds m s t = Fits-Holds m (slot_of m s) s refl (Fits-slot m s t)

first_Holds :
    (o p : Option CanvasCredential) (s : Slots)
    → Holds o s
    → Holds p s
    → Holds (Store.first_of o p) s
first_Holds none p s h k = k
first_Holds (some c) p s h k = h

preferred_Holds : (o : Option Mode) (s : Slots) → Typed s → Holds (Store.preferred_slot o s) s
preferred_Holds none s t = tt
preferred_Holds (some m) s t = slot_Holds m s t

best-Holds : (a : Account) → Typed a.slots → Holds (best a) a.slots
unfolding best
best-Holds a t = first_Holds _ _ a.slots (preferred_Holds a.preferred a.slots t) (
    first_Holds _ _ a.slots (slot_Holds oauth a.slots t)
      (first_Holds _ _ a.slots (slot_Holds pat a.slots t) (slot_Holds browser_session a.slots t)))

activated-Held :
    (o : Option CanvasCredential) (a : Account)
    → Typed a.slots
    → Holds o a.slots
    → Held (Store.activated o a)
activated-Held none a t h = record { typed = t; used = tt }
activated-Held (some c) a t h = record { typed = t; used = h }

set_slot-Typed :
    (m : Mode) (o : Option CanvasCredential) (s : Slots)
    → Fits m o
    → Typed s
    → Typed (Store.set_slot m o s)
set_slot-Typed oauth o s f t = record {
  fits_oauth = f;
  fits_pat = t.fits_pat;
  fits_browser = t.fits_browser;
}
set_slot-Typed pat o s f t = record {
  fits_oauth = t.fits_oauth;
  fits_pat = f;
  fits_browser = t.fits_browser;
}
set_slot-Typed browser_session o s f t = record {
  fits_oauth = t.fits_oauth;
  fits_pat = t.fits_pat;
  fits_browser = f;
}

unblocked : (b : Bool) (a : Account) → Held a → Held (if b then record a { blocked = false } else a)
unblocked true a h = record { typed = h.typed; used = h.used }
unblocked false a h = h

set_canvas_slot-Held : (c : CanvasCredential) (a : Account) → Held a → Held (set_canvas_slot c a)
unfolding set_canvas_slot activate_best
set_canvas_slot-Held c a h =
    let b = installed c a in
    let t = set_slot-Typed (auth_mode c) (some c) a.slots refl h.typed in
    unblocked (Store.is_pat (auth_mode c)) (activate_best b)
      (activated-Held (best b) b t (best-Holds b t))

fallen-Held :
    (m : Mode) (state : Text) (o : Option CanvasCredential) (a : Account)
    → Typed a.slots
    → Holds o a.slots
    → Held (Store.fallen m state o a)
fallen-Held m state none a t h = record { typed = t; used = tt }
fallen-Held m state (some c) a t h = record { typed = t; used = h }

-- Where the slot was empty, nothing that is used leaves it.
kept_Used :
    (m : Mode) (x : Active) (s : Slots)
    → slot_of m s ≡ none
    → Used x s
    → Used x (Store.set_slot m none s)
kept_Used m nothing s e u = tt
kept_Used m (ntlm n) s e u = tt
kept_Used oauth (canvas (token_of b t)) s e u = u
kept_Used oauth (canvas (cookies_of b t)) s e u = u
kept_Used oauth (canvas (oauth_of b t f k)) s e u = cc (e, u)
kept_Used pat (canvas (token_of b t)) s e u = cc (e, u)
kept_Used pat (canvas (cookies_of b t)) s e u = u
kept_Used pat (canvas (oauth_of b t f k)) s e u = u
kept_Used browser_session (canvas (token_of b t)) s e u = u
kept_Used browser_session (canvas (cookies_of b t)) s e u = cc (e, u)
kept_Used browser_session (canvas (oauth_of b t f k)) s e u = u

removed_Held :
    (m : Mode) (state : Text) (a : Account) (o : Option CanvasCredential)
    → slot_of m a.slots ≡ o
    → Held a
    → Held (Store.removed_from m state o (Store.emptied m state a)).1
removed_Held m state a none e h = record {
  typed = set_slot-Typed m none a.slots tt h.typed;
  used = kept_Used m a.active a.slots e h.used;
}
removed_Held m state a (some c) e h =
    let b = Store.emptied m state a in
    let t = set_slot-Typed m none a.slots tt h.typed in
    fallen-Held m state (best b) b t (best-Holds b t)

remove_canvas_slot-Held :
    (m : Mode) (g : Option ℕ) (state : Text) (a : Account)
    → Held a
    → Held (remove_canvas_slot m g state a).1
unfolding remove_canvas_slot
remove_canvas_slot-Held m g state a h =
    ground (arith, h, removed_Held m state a (slot_of m a.slots) refl h)

selected-Held :
    (m : Mode) (o : Option CanvasCredential) (a : Account)
    → Holds o a.slots
    → Held a
    → Held (Store.selected m o a)
selected-Held m none a k h = record { typed = h.typed; used = h.used }
selected-Held m (some c) a k h = record { typed = h.typed; used = k }

drop_Held :
    (m : Mode) (o : Option CanvasCredential) (a : Account)
    → Held a
    → Held (Store.drop_present m o a)
drop_Held m none a h = h
drop_Held m (some c) a h = remove_canvas_slot-Held m none _ a h

clear_memory-Held : (a : Account) → Held a → Held (clear_memory a)
unfolding clear_memory
clear_memory-Held a h =
    let a1 = Store.drop_present oauth a.slots.oauth_slot a in
    let a2 = Store.drop_present pat a.slots.pat_slot a1 in
    let h3 =
      drop_Held browser_session a.slots.browser_slot a2
        (drop_Held pat a.slots.pat_slot a1 (drop_Held oauth a.slots.oauth_slot a h)) in
    record { typed = h3.typed; used = tt }

durably-Held :
    (writes : Bool) (e : Entry) (memory : Account) (k : Kept)
    → Held memory
    → Held k.memory
    → Held (Calls.durably writes e memory k).memory
durably-Held true e memory k h g = h
durably-Held false e memory k h g = g

swapped-Held : (n : Option NtlmCredential) (a : Account) → Held a → Held (Calls.swapped n a)
swapped-Held none a h = record { typed = h.typed; used = tt }
swapped-Held (some n) a h = record { typed = h.typed; used = tt }

step-Held : (writes : Bool) (c : Call) (k : Kept) → Held k.memory → Held (step writes c k).memory
unfolding step
step-Held writes (Call.install c) k h =
    durably-Held writes _ _ k (set_canvas_slot-Held c k.memory h) h
step-Held writes (Call.put_ntlm n) k h =
    durably-Held writes _ _ k (record { typed = h.typed; used = tt }) h
step-Held writes (Call.swap_ntlm n) k h = durably-Held writes _ _ k (swapped-Held n k.memory h) h
step-Held writes (Call.remove m g state) k h = ground (
  arith,
  h,
  durably-Held writes (Store.remove_entry m k.memory) (remove_canvas_slot m g state k.memory).1 k
      (remove_canvas_slot-Held m g state k.memory h) h,
)
step-Held writes (Call.select m) k h =
    unfold select_canvas_mode in
    durably-Held writes _ _ k
      (selected-Held m (slot_of m k.memory.slots) k.memory (slot_Holds m k.memory.slots h.typed) h)
      h
step-Held writes Call.block k h =
    unfold block_canvas in
    durably-Held writes _ _ k
      (clear_memory-Held (record k.memory { blocked = true })
        (record { typed = h.typed; used = h.used }))
      h
step-Held writes Call.clear k h = durably-Held writes _ _ k (clear_memory-Held k.memory h) h

-- Behind any calls, whichever of their writes fail, the active Canvas credential of an account is
-- one that stands in the slot of its own mode: none that was replaced or removed.
pub run-Held : (calls : List (Bool × Call)) (k : Kept) → Held k.memory → Held (run calls k).memory
unfolding run
run-Held [] k h = h
run-Held ((writes, c) ∷ calls) k h = run-Held calls (step writes c k) (step-Held writes c k h)

activated-generations :
    (o : Option CanvasCredential) (a : Account) → (Store.activated o a).generations ≡ a.generations
activated-generations none a = refl
activated-generations (some c) a = refl

-- Each installation counts.
set_canvas_slot-generations :
    (c : CanvasCredential) (a : Account)
    → (set_canvas_slot c a).generations (auth_mode c) ≡ suc (a.generations (auth_mode c))
unfolding set_canvas_slot activate_best
set_canvas_slot-generations (token_of b t) a =
    let c = token_of b t in
    ap (λ g. g pat) (activated-generations (best (installed c a)) (installed c a))
set_canvas_slot-generations (cookies_of b t) a =
    let c = cookies_of b t in
    ap (λ g. g browser_session) (activated-generations (best (installed c a)) (installed c a))
set_canvas_slot-generations (oauth_of b t f k) a =
    let c = oauth_of b t f k in
    ap (λ g. g oauth) (activated-generations (best (installed c a)) (installed c a))

-- Once a credential was installed, a removal for the generation before it is refused and changes
-- nothing.
pub remove_canvas_slot_stale :
    (c : CanvasCredential) (state : Text) (a : Account)
    → remove_canvas_slot
        (auth_mode c)
        (some (a.generations (auth_mode c)))
        state
        (set_canvas_slot c a)
      ≡ (false, set_canvas_slot c a)
unfolding remove_canvas_slot
remove_canvas_slot_stale c state a = ground (arith, set_canvas_slot-generations c a)
