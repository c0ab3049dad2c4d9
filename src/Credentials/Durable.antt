-- ===== src/Credentials/Durable.antt =====
-- The vault keeps what the memory has.
use canvas_watcher.Base.{
  Bool, true, false, ◌&&◌, ◌||◌, Option, none, some, List, [], ◌∷◌, Text, ◌≡◌, refl, arith, All,
  if◌then◌else◌, nat_eq, Bool-cases, inl, inr, sym, ◌∙◌, ap, codes,
}
use canvas_watcher.Credentials.Store
use canvas_watcher.Credentials.Calls
use canvas_watcher.Credentials.Store.{
  Mode, oauth, pat, browser_session, CanvasCredential, Active, nothing, ntlm, canvas, Slots,
  no_slots, slot_of, set_slot, auth_mode, Account, Entry, snapshot, set_canvas_slot, installed,
  install_entry, remove_canvas_slot, remove_entry, best, activate_best, select_canvas_mode,
  select_entry, clear_memory, clear_entry, block_canvas, block_entry, ntlm_of, is_some, is_pat,
}
use canvas_watcher.Credentials.Calls.{Call, Kept, step, run}

-- The calls on the credentials of Canvas.
abbrev pub is_canvas_call : Call → Bool
is_canvas_call (Call.install c) = true
is_canvas_call (Call.put_ntlm n) = false
is_canvas_call (Call.swap_ntlm n) = false
is_canvas_call (Call.remove m g state) = true
is_canvas_call (Call.select m) = true
is_canvas_call Call.block = true
is_canvas_call Call.clear = true

pub record Durable (k : Kept) : Type 0 where
  pub agrees : k.vault ≡ snapshot k.memory
  pub no_ntlm : ntlm_of k.memory.active ≡ none

activated-snapshot :
    (o : Option CanvasCredential) (a : Account)
    → (snapshot (Store.activated o a) ≡ record (snapshot a) { entry_ntlm = none })
      × (ntlm_of (Store.activated o a).active ≡ none)
unfolding snapshot
activated-snapshot none a = (refl, refl)
activated-snapshot (some c) a = (refl, refl)

fallen-snapshot :
    (m : Mode) (state : Text) (o : Option CanvasCredential) (a : Account)
    → (snapshot (Store.fallen m state o a) ≡ record (snapshot a) { entry_ntlm = none })
      × (ntlm_of (Store.fallen m state o a).active ≡ none)
unfolding snapshot
fallen-snapshot m state none a = (refl, refl)
fallen-snapshot m state (some c) a = (refl, refl)

abbrev unblocking : Bool → Account → Account
unblocking b a = if b then record a { blocked = false } else a

unblocking-snapshot :
    (b : Bool) (a : Account)
    → (snapshot (unblocking b a)
        ≡ record (snapshot a) { entry_blocked = if b then false else a.blocked })
      × (ntlm_of (unblocking b a).active ≡ ntlm_of a.active)
unfolding snapshot
unblocking-snapshot true a = (refl, refl)
unblocking-snapshot false a = (refl, refl)

abbrev Same : Entry → Account → Type 0
Same e a = (e ≡ snapshot a) × (ntlm_of a.active ≡ none)

install_Same : (c : CanvasCredential) (a : Account) → Same (install_entry c a) (set_canvas_slot c a)
unfolding set_canvas_slot activate_best snapshot
install_Same c a =
    let b = installed c a in
    let o = best b in
    let s = activated-snapshot o b in
    let u = unblocking-snapshot (is_pat (auth_mode c)) (Store.activated o b) in
    (ground (arith, s.0, u.0), u.1 ∙ s.1)

removed_Same :
    (m : Mode) (state : Text) (o : Option CanvasCredential) (a : Account)
    → ntlm_of a.active ≡ none
    → Same (remove_entry m a) (Store.removed_from m state o (Store.emptied m state a)).1
unfolding snapshot
removed_Same m state none a h = (refl, h)
removed_Same m state (some c) a h =
    let b = Store.emptied m state a in
    let s = fallen-snapshot m state (best b) b in (ground (arith, s.0, h), s.1)

selected-Same :
    (m : Mode) (o : Option CanvasCredential) (a : Account)
    → ntlm_of a.active ≡ none
    → Same (select_entry m a) (Store.selected m o a)
unfolding snapshot
selected-Same m none a h = (refl, h)
selected-Same m (some c) a h = (ground (arith, h), refl)

-- What dropping one slot does to the parts of the snapshot.
pub record Dropped (m : Mode) (o : Option CanvasCredential) (a b : Account) : Type 0 where
  pub slots : b.slots ≡ set_slot m none a.slots
  pub preferred : b.preferred ≡ a.preferred
  pub blocked : b.blocked ≡ (a.blocked || (is_pat m && is_some o))

fallen_parts :
    (m : Mode) (state : Text) (o : Option CanvasCredential) (a : Account)
    → ((Store.fallen m state o a).slots ≡ a.slots)
      × ((Store.fallen m state o a).preferred ≡ a.preferred)
      × ((Store.fallen m state o a).blocked ≡ a.blocked)
fallen_parts m state none a = (refl, refl, refl)
fallen_parts m state (some c) a = (refl, refl, refl)

same_slots : (m : Mode) (s : Slots) → slot_of m s ≡ none → set_slot m none s ≡ s
same_slots oauth s e = ground (arith, e)
same_slots pat s e = ground (arith, e)
same_slots browser_session s e = ground (arith, e)

drop_Dropped :
    (m : Mode) (o : Option CanvasCredential) (a : Account)
    → slot_of m a.slots ≡ o
    → Dropped m o a (Store.drop_present m o a)
unfolding remove_canvas_slot
drop_Dropped m none a e = record {
  slots = sym (same_slots m a.slots e);
  preferred = refl;
  blocked = ground arith;
}
drop_Dropped m (some c) a e =
    let b = Store.emptied m (codes "INVALID") a in
    let f = fallen_parts m (codes "INVALID") (best b) b in
    record {
      slots = ground (arith, e, f.0);
      preferred = ground (arith, e, f.1);
      blocked = ground (arith, e, f.2);
    }

clear_Same : (a : Account) → Same (clear_entry a) (clear_memory a)
unfolding clear_memory snapshot
clear_Same a =
    let a1 = Store.drop_present oauth a.slots.oauth_slot a in
    let d1 = drop_Dropped oauth a.slots.oauth_slot a refl in
    let a2 = Store.drop_present pat a.slots.pat_slot a1 in
    let e2 : a1.slots.pat_slot ≡ a.slots.pat_slot = ap (λ s. s.pat_slot) d1.slots in
    let d2 = drop_Dropped pat a.slots.pat_slot a1 e2 in
    let a3 = Store.drop_present browser_session a.slots.browser_slot a2 in
    let e3 : a2.slots.browser_slot ≡ a.slots.browser_slot =
      ap (λ s. s.browser_slot) d2.slots ∙ ap (λ s. s.browser_slot) d1.slots in
    let d3 = drop_Dropped browser_session a.slots.browser_slot a2 e3 in
    (
      ground (
        arith, d1.slots, d2.slots, d3.slots, d1.preferred, d2.preferred, d3.preferred, d1.blocked,
        d2.blocked, d3.blocked,
      ),
      refl,
    )

durably-Durable :
    (writes : Bool) (e : Entry) (memory : Account) (k : Kept)
    → Same e memory
    → Durable k
    → Durable (Calls.durably writes e memory k)
durably-Durable true e memory k s h = record { agrees = s.0; no_ntlm = s.1 }
durably-Durable false e memory k s h = h

step-Durable :
    (writes : Bool) (c : Call) (k : Kept)
    → is_canvas_call c ≡ true
    → Durable k
    → Durable (step writes c k)
unfolding step
step-Durable writes (Call.install c) k i h =
    durably-Durable writes _ _ k (install_Same c k.memory) h
step-Durable writes (Call.put_ntlm n) k i h = cc i
step-Durable writes (Call.swap_ntlm n) k i h = cc i
step-Durable writes (Call.remove m g state) k i h =
    elim (Bool-cases (Store.is_stale g (k.memory.generations m))) [
      | inl e ↦ ground (arith, e, h)
      | inr e ↦ rw e (
          durably-Durable writes _ _ k
            (removed_Same m state (slot_of m k.memory.slots) k.memory h.no_ntlm) h)
    ]
step-Durable writes (Call.select m) k i h =
    unfold select_canvas_mode in
    durably-Durable writes _ _ k (selected-Same m (slot_of m k.memory.slots) k.memory h.no_ntlm) h
step-Durable writes Call.block k i h =
    unfold block_canvas in
    durably-Durable writes _ _ k (clear_Same (record k.memory { blocked = true })) h
step-Durable writes Call.clear k i h = durably-Durable writes _ _ k (clear_Same k.memory) h

-- On an account without an NTLM credential, whose vault keeps what the memory has, this stays so
-- behind any calls on its Canvas credentials, whichever of their writes fail.
pub run-Durable :
    (calls : List (Bool × Call)) (k : Kept)
    → All (λ c. is_canvas_call c.1 ≡ true) calls
    → Durable k
    → Durable (run calls k)
unfolding run
run-Durable [] k i h = h
run-Durable ((writes, c) ∷ calls) k i h =
    run-Durable calls (step writes c k) i.1 (step-Durable writes c k i.0 h)
