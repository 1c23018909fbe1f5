-- ===== src/Variable/Shown.antt =====
-- What a variable holds, as the program's steps leave it. Only the debug log is written by logging.
use fwupd_efi.Base.{◌≡◌, ◌∙◌, false, Option, length, arith}
use fwupd_efi.Efi.{Name, Guid, fwupdate_guid}
use fwupd_efi.Firmware.Services.{Services}
use fwupd_efi.Firmware.Monad.{World}
use fwupd_efi.Firmware.Store.{Stored, IsStore, same_variable}
use fwupd_efi.Debug.{log_name}
use fwupd_efi.Debug.Keeps.{LogKeeps}
use fwupd_efi.Debug.States.{Spares, SetSpares, spares_logging}
use fwupd_efi.Variable.Readable.{Readable}

-- The variable holds `o`.
abbrev pub Shows :
    (F : Services)
    → (F.State → Name → Guid → Option Stored)
    → Name
    → Guid
    → Option Stored
    → World F.State
    → Type 0
Shows F shown name guid o w = shown w.fw name guid ≡ o

module _ (F : Services) {shown : F.State → Name → Guid → Option Stored} (store : IsStore F shown)
    (name : Name) (guid : Guid) (o : Option Stored) where
  shown_spared : Spares F (λ s. shown s name guid ≡ o)
  shown_spared = record {
    getting = λ s name' guid' size room h. store.get_apart s name' guid' size room name guid ∙ h;
    allocating = λ s size h. store.allocate_apart s size name guid ∙ h;
    freeing = λ s addr h. store.free_apart s addr name guid ∙ h;
    formatting = λ s fmt args h. store.format_apart s fmt args name guid ∙ h;
    joining = λ s fmt func tmp h. store.join_apart s fmt func tmp name guid ∙ h;
    printing = λ s units h. store.print_apart s units name guid ∙ h;
  }

  shown_written :
      same_variable log_name fwupdate_guid name guid ≡ false
      → SetSpares F (λ s. shown s name guid ≡ o) log_name fwupdate_guid
  shown_written e s attrs bytes h =
      store.set_apart s log_name fwupdate_guid attrs bytes name guid e ∙ h

  -- Logging leaves every variable but its own as it was.
  pub shown_logging :
      same_variable log_name fwupdate_guid name guid ≡ false
      → LogKeeps F (Shows F shown name guid o)
  shown_logging e =
      spares_logging F (λ s d. shown s name guid ≡ o) (λ d. shown_spared) (λ d. shown_written e)

-- Every variable of a store but the debug log can be read.
pub shown_readable :
    (F : Services) {shown : F.State → Name → Guid → Option Stored} (store : IsStore F shown)
    (name : Name) (guid : Guid)
    → same_variable log_name fwupdate_guid name guid ≡ false
    → Readable F name guid (Shows F shown name guid)
shown_readable F store name guid e = record {
  missing = λ w size room h. store.missing w.fw name guid size room h;
  too_small =
      λ w v h. store.too_small w.fw name guid 0 false v h (store.holds_data w.fw name guid v h);
  fits = λ w v h. store.fits w.fw name guid (length v.bytes) v h (omega arith);
  room = store.pool_room;
  logs = λ o. shown_logging F store name guid o e;
}
