-- ===== src/Update/Rounds.antt =====
-- The rounds of the loop in `fwup_populate_update_table`, one after the other.
use fwupd_efi.Base.{ℕ, ◌*◌, ◌≡◌, refl, true, false, none, some, List, [], ◌==◌}
use fwupd_efi.Memory.{Buffer}
use fwupd_efi.Efi.{
  Name, Guid, Result, ok, err, efi_error, empty_guid, buffer_too_small, not_found, out_of_resources,
}
use fwupd_efi.Firmware.Services.{Services, NextReply}
use fwupd_efi.Firmware.Monad.{World, value}
use fwupd_efi.Firmware.Calls.{get_next_variable_name}
use fwupd_efi.Common.{malloc0}
use fwupd_efi.Update.{Update, gnvn_buf_size, visit}

-- The state of the loop at its head: the name and the GUID in the buffers, the table so far, the world.
pub record Head (F : Services) : Type 0 where
  pub name : Name
  pub vendor : Guid
  pub updates : List Update
  pub world : World F.State

-- One round after which the loop goes on.
pub data Round {F : Services} (s : Head F) : Head F → Type 0 where
  name_too_long :
      {r : NextReply} {w : World F.State}
      → get_next_variable_name F gnvn_buf_size s.name s.vendor s.world ≡ value (r, w)
      → (r.status == buffer_too_small) ≡ true
      → Round s (record { name = r.name; vendor = r.vendor; updates = s.updates; world = w })
  visited :
      {r : NextReply} {w v : World F.State} {us : List Update}
      → get_next_variable_name F gnvn_buf_size s.name s.vendor s.world ≡ value (r, w)
      → efi_error r.status ≡ false
      → visit F r.name r.vendor s.updates w ≡ value (ok us, v)
      → Round s (record { name = r.name; vendor = r.vendor; updates = us; world = v })

-- Any number of rounds.
pub data Rounds {F : Services} (s : Head F) : Head F → Type 0 where
  no_round : Rounds s s
  one_more : {t u : Head F} → Rounds s t → Round t u → Rounds s u

-- The round in which the loop ends, and what it returns.
pub data Stops {F : Services} (s : Head F) : Result (List Update) → Type 0 where
  names_ended :
      {r : NextReply} {w : World F.State}
      → get_next_variable_name F gnvn_buf_size s.name s.vendor s.world ≡ value (r, w)
      → (r.status == not_found) ≡ true
      → Stops s (ok s.updates)
  next_failed :
      {r : NextReply} {w : World F.State}
      → get_next_variable_name F gnvn_buf_size s.name s.vendor s.world ≡ value (r, w)
      → (r.status == not_found) ≡ false
      → (r.status == buffer_too_small) ≡ false
      → efi_error r.status ≡ true
      → Stops s (err r.status)
  visit_failed :
      {r : NextReply} {w v : World F.State} {rc : ℕ}
      → get_next_variable_name F gnvn_buf_size s.name s.vendor s.world ≡ value (r, w)
      → efi_error r.status ≡ false
      → visit F r.name r.vendor s.updates w ≡ value (err rc, v)
      → Stops s (err rc)

-- The entries that a call from the world `w` has collected when it returns: none where it got no buffer
-- for the names, and else those of the table before the round in which the loop ended.
pub data Collected (F : Services) (w : World F.State)
    : Result (List Update) → List Update → Type 0 where
  no_buffer :
      {v : World F.State}
      → malloc0 F (gnvn_buf_size * 2) w ≡ value (none, v)
      → Collected F w (err out_of_resources) []
  after_rounds :
      {b : Buffer} {v : World F.State} {s : Head F} {r : Result (List Update)}
      → malloc0 F (gnvn_buf_size * 2) w ≡ value (some b, v)
      → Rounds (record { name = []; vendor = empty_guid; updates = []; world = v }) s
      → Stops s r
      → Collected F w r s.updates

-- With success they are the table.
pub Collected-same :
    {F : Services} {w : World F.State} {us vs : List Update} → Collected F w (ok us) vs → vs ≡ us
Collected-same (after_rounds m rs (names_ended e t)) = refl
