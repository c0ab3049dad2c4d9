-- ===== src/Credentials/Store.antt =====
-- backend/app/auth/store.py, `CredentialStore`. Its maps are keyed by the credential's id, and every
-- method is about one id: an account is what they hold for it. The vault keeps an entry for each id;
-- that of the clock of an OAuth token is kept as it is. Overwritten secrets are not modelled, nor
-- the times of the statuses.
use canvas_watcher.Base.{
  ℕ, suc, Bool, true, false, not, ◌||◌, Option, none, some, List, Text, codes, ◌==◌, text_eq,
  nat_eq, if◌then◌else◌,
}

pub data Mode : Type 0 where
  oauth pat browser_session : Mode

abbrev pub same_mode : Mode → Mode → Bool
same_mode oauth oauth = true
same_mode pat pat = true
same_mode browser_session browser_session = true
same_mode _ _ = false

pub record NtlmCredential : Type 0 where
  pub username : Text
  pub password : Text

pub data CanvasCredential : Type 0 where
  -- base_url, token
  token_of : Text → Text → CanvasCredential
  -- base_url, cookies
  cookies_of : Text → List (Text × Text) → CanvasCredential
  -- base_url, token, refresh_token, expires_clock
  oauth_of : Text → Text → Text → ℕ → CanvasCredential

abbrev pub auth_mode : CanvasCredential → Mode
auth_mode (token_of base token) = pat
auth_mode (cookies_of base cookies) = browser_session
auth_mode (oauth_of base token refresh clock) = oauth

pub data Active : Type 0 where
  nothing : Active
  ntlm : NtlmCredential → Active
  canvas : CanvasCredential → Active

pub record Slots : Type 0 where
  pub oauth_slot : Option CanvasCredential
  pub pat_slot : Option CanvasCredential
  pub browser_slot : Option CanvasCredential

abbrev pub slot_of : Mode → Slots → Option CanvasCredential
slot_of oauth s = s.oauth_slot
slot_of pat s = s.pat_slot
slot_of browser_session s = s.browser_slot

abbrev pub set_slot : Mode → Option CanvasCredential → Slots → Slots
set_slot oauth c s = record s { oauth_slot = c }
set_slot pat c s = record s { pat_slot = c }
set_slot browser_session c s = record s { browser_slot = c }

abbrev pub no_slots : Slots
no_slots = record { oauth_slot = none; pat_slot = none; browser_slot = none }

pub record Account : Type 0 where
  pub active : Active
  pub canvas_mode : Option Mode
  pub preferred : Option Mode
  pub blocked : Bool
  pub slots : Slots
  pub generations : Mode → ℕ
  -- the state of each slot's status, and the last fallback
  pub states : Mode → Option Text
  pub fallback : Option (Mode × Mode × Text)

-- What the vault keeps for an id.
pub record Entry : Type 0 where
  pub entry_ntlm : Option NtlmCredential
  pub entry_slots : Slots
  pub entry_preferred : Mode
  pub entry_blocked : Bool

abbrev pub preferred_mode : Account → Mode
preferred_mode a = elim a.preferred [ none ↦ oauth | some m ↦ m ]

abbrev pub ntlm_of : Active → Option NtlmCredential
ntlm_of nothing = none
ntlm_of (ntlm n) = some n
ntlm_of (canvas c) = none

-- `_snapshot`, for the id
unfoldable pub snapshot : Account → Entry
snapshot a = record {
  entry_ntlm = ntlm_of a.active;
  entry_slots = a.slots;
  entry_preferred = preferred_mode a;
  entry_blocked = a.blocked;
}

abbrev pub at_mode {ℓ} : {A : Type ℓ} → Mode → A → (Mode → A) → Mode → A
at_mode mode x f m = if same_mode mode m then x else f m

abbrev pub first_of : Option CanvasCredential → Option CanvasCredential → Option CanvasCredential
first_of none o = o
first_of (some c) o = some c

abbrev pub preferred_slot : Option Mode → Slots → Option CanvasCredential
preferred_slot none s = none
preferred_slot (some m) s = slot_of m s

-- `next((slots[mode] for mode in priority if mode in slots), None)`
unfoldable pub best : Account → Option CanvasCredential
best a =
    first_of (preferred_slot a.preferred a.slots)
      (first_of a.slots.oauth_slot (first_of a.slots.pat_slot a.slots.browser_slot))

abbrev pub activated : Option CanvasCredential → Account → Account
activated none a = record a { active = nothing }
activated (some c) a = record a { active = canvas c; canvas_mode = some (auth_mode c) }

unfoldable pub activate_best : Account → Account
unfolding best
activate_best a = activated (best a) a

abbrev valid_state : Option Text
valid_state = some (codes "VALID")

-- The memory's part of `_install_slot`
abbrev pub installed : CanvasCredential → Account → Account
installed c a = record a {
  slots = set_slot (auth_mode c) (some c) a.slots;
  generations = at_mode (auth_mode c) (suc (a.generations (auth_mode c))) a.generations;
  states = at_mode (auth_mode c) valid_state a.states;
}

abbrev pub is_pat : Mode → Bool
is_pat pat = true
is_pat oauth = false
is_pat browser_session = false

-- The entry that `_install_slot` writes.
abbrev pub install_entry : CanvasCredential → Account → Entry
install_entry c a = record {
  entry_ntlm = none;
  entry_slots = set_slot (auth_mode c) (some c) a.slots;
  entry_preferred = preferred_mode a;
  entry_blocked = if is_pat (auth_mode c) then false else a.blocked;
}

-- `set_canvas`, `set_canvas_session` and `set_canvas_oauth` behind the write of the vault
unfoldable pub set_canvas_slot : CanvasCredential → Account → Account
unfolding activate_best
set_canvas_slot c a =
    let b = activate_best (installed c a) in
    if is_pat (auth_mode c) then record b { blocked = false } else b

abbrev pub set_ntlm : NtlmCredential → Account → Account
set_ntlm n a = record a { active = ntlm n }

abbrev pub ntlm_entry : Option NtlmCredential → Account → Entry
ntlm_entry n a = record (snapshot a) { entry_ntlm = n }

-- The slot's removal, before the best of the others becomes active.
abbrev pub emptied : Mode → Text → Account → Account
emptied mode state a = record a {
  slots = set_slot mode none a.slots;
  generations = at_mode mode (suc (a.generations mode)) a.generations;
  states = at_mode mode (some state) a.states;
  blocked = is_pat mode || a.blocked;
}

abbrev pub remove_entry : Mode → Account → Entry
remove_entry mode a = record (snapshot a) {
  entry_slots = set_slot mode none a.slots;
  entry_blocked = is_pat mode || a.blocked;
}

abbrev pub fallen : Mode → Text → Option CanvasCredential → Account → Account
fallen mode state none a = record a { active = nothing }
fallen mode state (some c) a = record a {
  active = canvas c;
  canvas_mode = some (auth_mode c);
  fallback = some (mode, auth_mode c, state);
}

abbrev pub removed_from : Mode → Text → Option CanvasCredential → Account → Bool × Account
removed_from mode state none b = (false, b)
removed_from mode state (some c) b = (true, fallen mode state (best b) b)

abbrev pub is_stale : Option ℕ → ℕ → Bool
is_stale none current = false
is_stale (some g) current = not (current == g)

-- `remove_canvas_slot` behind the write of the vault, or its refusal
unfoldable pub remove_canvas_slot : Mode → Option ℕ → Text → Account → Bool × Account
unfolding best
remove_canvas_slot mode generation state a =
    if is_stale generation (a.generations mode)
    then (false, a)
    else removed_from mode state (slot_of mode a.slots) (emptied mode state a)

abbrev pub selected : Mode → Option CanvasCredential → Account → Account
selected mode none a = record a { canvas_mode = some mode; preferred = some mode }
selected mode (some c) a = record a {
  canvas_mode = some mode;
  preferred = some mode;
  active = canvas c;
}

unfoldable pub select_canvas_mode : Mode → Account → Account
select_canvas_mode mode a = selected mode (slot_of mode a.slots) a

abbrev pub select_entry : Mode → Account → Entry
select_entry mode a = record (snapshot a) { entry_preferred = mode }

-- `for mode in list(slots): self.remove_canvas_slot(credential_id, mode)`
abbrev pub drop_present : Mode → Option CanvasCredential → Account → Account
drop_present mode none a = a
drop_present mode (some c) a = (remove_canvas_slot mode none (codes "INVALID") a).1

unfoldable pub clear_memory : Account → Account
unfolding remove_canvas_slot
clear_memory a =
    let a1 = drop_present oauth a.slots.oauth_slot a in
    let a2 = drop_present pat a.slots.pat_slot a1 in
    let a3 = drop_present browser_session a.slots.browser_slot a2 in record a3 { active = nothing }

abbrev pub is_some {ℓ} : {A : Type ℓ} → Option A → Bool
is_some none = false
is_some (some a) = true

abbrev pub clear_entry : Account → Entry
clear_entry a = record {
  entry_ntlm = none;
  entry_slots = no_slots;
  entry_preferred = preferred_mode a;
  entry_blocked = a.blocked || is_some a.slots.pat_slot;
}

abbrev pub block_entry : Account → Entry
block_entry a = record {
  entry_ntlm = none;
  entry_slots = no_slots;
  entry_preferred = preferred_mode a;
  entry_blocked = true;
}

unfoldable pub block_canvas : Account → Account
unfolding clear_memory
block_canvas a = clear_memory (record a { blocked = true })
