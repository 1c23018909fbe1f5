-- ===== src/Update/Keeps.antt =====
-- What reading and validating an update variable keeps, if its calls keep it.
use fwupd_efi.Base.{List, Option, none, some, String}
use fwupd_efi.Memory.{Buffer}
use fwupd_efi.Efi.{Name, fwupdate_guid}
use fwupd_efi.Firmware.Services.{Services, Arg, Text}
use fwupd_efi.Firmware.Monad.{World}
use fwupd_efi.Firmware.Calls.{str_duplicate}
use fwupd_efi.Firmware.Keeps.{Keeps, keeps_rules}
use fwupd_efi.Debug.Keeps.{LogKeeps, get_variable-Keeps}
use fwupd_efi.Variable.{Variable}
use fwupd_efi.Variable.Keeps.{cleanup_free-Keeps}
use fwupd_efi.Update.{
  Update, warn, fill_update, reject, check_info, populate_update_info, free_name, free_info,
}

module _ (F : Services) {P : World F.State → Type 0} (c : LogKeeps F P) where
  pub warn-Keeps : (fmt : String) (args : List Arg) → Keeps P (warn F fmt args)
  unfolding warn
  warn-Keeps fmt args = c.logging _ _ fmt args

  pub free_name-Keeps : (n : Option Text) → Keeps P (free_name F n)
  unfolding free_name
  free_name-Keeps none = c.reading.freeing 0
  free_name-Keeps (some t) = c.reading.freeing t.addr

  pub free_info-Keeps : (b : Option Buffer) → Keeps P (free_info F b)
  unfolding free_info
  free_info-Keeps none = c.reading.freeing 0
  free_info-Keeps (some b) = c.reading.freeing b.addr

  module _ (duplicating : (name : Name) → Keeps P (str_duplicate F name)) where
    fill_update-Keeps :
        (name : Name) (out : Update) (v : Variable) → Keeps P (fill_update F name out v)
    unfolding fill_update
    fill_update-Keeps name out v = search (keeps_rules, duplicating, warn-Keeps) depth 10

    reject-Keeps : (out : Update) (v : Variable) → Keeps P (reject F out v)
    unfolding reject
    reject-Keeps out v = search (keeps_rules, cleanup_free-Keeps F c.reading)

    pub check_info-Keeps :
        (name : Name) (out : Update) (v : Variable) → Keeps P (check_info F name out v)
    unfolding check_info
    check_info-Keeps name out v =
        search (keeps_rules, warn-Keeps, fill_update-Keeps, reject-Keeps) depth 10

    pub populate_update_info-Keeps :
        (name : Name) (out : Update) → Keeps P (populate_update_info F name out)
    unfolding populate_update_info
    populate_update_info-Keeps name out =
        search (keeps_rules, get_variable-Keeps F c name fwupdate_guid, check_info-Keeps)
