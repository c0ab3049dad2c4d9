-- ===== src/Credentials/Calls.antt =====
-- The changing methods of `CredentialStore`, with the write of the vault before the change: where
-- it raises, memory and vault stay.
use canvas_watcher.Base.{ℕ, Bool, Option, none, some, List, [], ◌∷◌, Text, if◌then◌else◌}
use canvas_watcher.Credentials.Store.{
  Mode, NtlmCredential, CanvasCredential, nothing, ntlm, Account, Entry, snapshot, set_canvas_slot,
  install_entry, set_ntlm, ntlm_entry, remove_canvas_slot, remove_entry, is_stale,
  select_canvas_mode, select_entry, clear_memory, clear_entry, block_canvas, block_entry,
}

pub data Call : Type 0 where
  -- `set_canvas`, `set_canvas_session` or `set_canvas_oauth`
  install : CanvasCredential → Call
  put_ntlm : NtlmCredential → Call
  -- `replace_ntlm`, where the observed credential is the present one
  swap_ntlm : Option NtlmCredential → Call
  remove : Mode → Option ℕ → Text → Call
  select : Mode → Call
  block clear : Call

pub record Kept : Type 0 where
  pub memory : Account
  pub vault : Entry

abbrev pub swapped : Option NtlmCredential → Account → Account
swapped none a = record a { active = nothing }
swapped (some n) a = record a { active = ntlm n }

-- `_persist_change` behind `writes`: whether the vault's write succeeds.
abbrev pub durably : Bool → Entry → Account → Kept → Kept
durably writes entry memory k = if writes then record { memory = memory; vault = entry } else k

unfoldable pub step : Bool → Call → Kept → Kept
unfolding snapshot set_canvas_slot remove_canvas_slot select_canvas_mode clear_memory block_canvas
step writes (install c) k = durably writes (install_entry c k.memory) (set_canvas_slot c k.memory) k
step writes (put_ntlm n) k = durably writes (ntlm_entry (some n) k.memory) (set_ntlm n k.memory) k
step writes (swap_ntlm n) k = durably writes (ntlm_entry n k.memory) (swapped n k.memory) k
step writes (remove mode generation state) k =
    if is_stale generation (k.memory.generations mode)
    then k
    else durably writes (remove_entry mode k.memory)
        (remove_canvas_slot mode generation state k.memory).1 k
step writes (select mode) k =
    durably writes (select_entry mode k.memory) (select_canvas_mode mode k.memory) k
step writes block k = durably writes (block_entry k.memory) (block_canvas k.memory) k
step writes clear k = durably writes (clear_entry k.memory) (clear_memory k.memory) k

unfoldable pub run : List (Bool × Call) → Kept → Kept
unfolding step
run [] k = k
run ((writes, c) ∷ calls) k = run calls (step writes c k)
