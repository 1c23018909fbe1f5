-- ===== src/Mock/Boot.antt =====
-- Services for a whole run: those of `Mock`, with pages that run out, a file of 100 bytes, and a device
-- path of an end node behind every handle.
use fwupd_efi.Base.{
  [], ℕ, ◌^◌, ◌<◌, ◌≡◌, refl, arith, false, true, leb, ltb, codes, same, if◌then◌else◌, ◌==◌,
}
use fwupd_efi.Efi.{
  success, out_of_resources, efi_error, dp_node_length, dp_is_end, dp_type, dp_subtype,
}
use fwupd_efi.Firmware.Services.{Services}
use fwupd_efi.Firmware.Lawful.{Enumerates}
use fwupd_efi.Firmware.Sound.{Sound}
use fwupd_efi.DevicePath.Spec.{PathAt, end_node}
use fwupd_efi.Mock.{services, file_byte, no_bytes, services-Lawful, services-Enumerates, rank}

-- An end node.
abbrev end_byte : ℕ → ℕ
end_byte j = if j == 0 then 127 else if j == 1 then 255 else if j == 2 then 4 else 0

abbrev pages_status : ℕ → ℕ
pages_status n = if ltb n (2 ^ 50) then success else out_of_resources

abbrev pub booting : Services
booting = record services {
  allocate_pages = λ s type pages addr.
      (record { status = pages_status pages; memory = 4096; byte = no_bytes }, s);
  read = λ s fh n.
      (record { status = success; size = if leb 100 n then 100 else n; bytes = file_byte }, s);
  device_path_of = λ s iface. record { addr = 8192; size = 4; byte = end_byte };
}

few_pages : (n : ℕ) → efi_error (pages_status n) ≡ false → n < 2 ^ 50
unfolding efi_error
few_pages n h = ground arith

no_shim_debug : (booting.get_variable 0 (codes "SHIM_DEBUG") [] 1 true).0.size ≡ 0
unfolding same
no_shim_debug = refl

end_path : PathAt end_byte 0 4
unfolding dp_node_length dp_is_end dp_type dp_subtype
end_path = end_node (omega arith) refl refl

pub booting-Sound : Sound booting
booting-Sound = record {
  lawful = record {
    stored_fits = services-Lawful.stored_fits;
    none_stored = services-Lawful.none_stored;
    pool_size = services-Lawful.pool_size;
  };
  pool_left = λ s size h e. ground arith;
  pages_fit = λ s type n addr h. few_pages n h;
  read_fits = λ s fh n h. ground arith;
  read_bytes = λ s fh n h j k. ground arith;
  shim_debug_small = λ s. omega (arith, no_shim_debug);
  located = λ s guid path off p. p;
  shown_path = λ s iface. (4, end_path, omega arith);
  duplicated = λ s path off n b p h e. ground arith;
}

pub booting-Enumerates : Enumerates booting rank 1024
booting-Enumerates = services-Enumerates
