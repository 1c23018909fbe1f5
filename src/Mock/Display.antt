-- ===== src/Mock/Display.antt =====
-- Services with two displays, of which the first cannot be opened.
use fwupd_efi.Base.{◌+◌, ◌==◌, [], ◌∷◌, refl, if◌then◌else◌}
use fwupd_efi.Efi.{success, unsupported}
use fwupd_efi.Firmware.Services.{Services}
use fwupd_efi.Capsule.Display.{ShowsDisplay}
use fwupd_efi.Mock.{services}

abbrev pub displaying : Services
displaying = record services {
  locate_handle = λ s guid. (record { status = success; handles = 3 ∷ 5 ∷ []; pool = 20480 }, s);
  open_protocol = λ s handle guid agent.
      (record { status = if handle == 3 then unsupported else success; handle = handle }, s);
  gop_mode = λ s iface. iface + 1;
}

pub displaying-ShowsDisplay : ShowsDisplay displaying 0
displaying-ShowsDisplay = record {
  listed = record { status = success; handles = 3 ∷ 5 ∷ []; pool = 20480 };
  opened =
      λ handle. record { status = if handle == 3 then unsupported else success; handle = handle };
  mode = λ iface. iface + 1;
  listed_same = λ s. refl;
  opened_same = λ s handle. refl;
  mode_same = λ s iface. refl;
}
