-- ===== src/OpenFile/Calls.antt =====
-- The calls of `fwup_open_file` return.
use fwupd_efi.Base.{
  ℕ, zero, suc, ◌+◌, ◌≤◌, ◌<◌, arith, true, false, Option, none, some, List, String,
}
use fwupd_efi.Memory.{Buffer}
use fwupd_efi.Efi.{Name, Guid, Result, ok, err, efi_error, dp_node_length, dp_is_end}
use fwupd_efi.Firmware.Services.{Services, Arg}
use fwupd_efi.Firmware.Monad.{pure, ◌>>◌}
use fwupd_efi.Firmware.Calls.{
  locate_handle_buffer, handle_protocol, open_volume, open_file_call, allocated, device_path_to_str,
  match_device_paths,
}
use fwupd_efi.Firmware.Total.{
  Total, Any, Succeeds, Total-bind, Total-pure, Total-if, Total-bounds, Total-emit, safe_rules,
}
use fwupd_efi.DevicePath.Spec.{PathAt, PathAt-rest, PathAt-first, PathAt-four_le}
use fwupd_efi.Debug.{fwup_log}
use fwupd_efi.Variable.{Level}
use fwupd_efi.Debug.Total.{fwup_log-Safe, free_pool-Safe}
use fwupd_efi.OpenFile.{match_path, free_devices, open_on}

module _ (F : Services) where
  pub to_str-Safe : (path : Buffer) (off : ℕ) → Total Any (device_path_to_str F path off) Any
  unfolding device_path_to_str
  to_str-Safe path off = search safe_rules

  pub match-Safe :
      (path : Buffer) (off : ℕ) (other : Buffer)
      → Total Any (match_device_paths F path off other) Any
  unfolding match_device_paths
  match-Safe path off other = search safe_rules

  pub handle_protocol-Safe :
      (handle : ℕ) (guid : Guid) → Total Any (handle_protocol F handle guid) Any
  unfolding handle_protocol
  handle_protocol-Safe handle guid = search safe_rules

  pub open_volume-Safe : (drive : ℕ) → Total Any (open_volume F drive) Any
  unfolding open_volume
  open_volume-Safe drive = search safe_rules

  pub open_file_call-Safe : (root : ℕ) (name : Name) → Total Any (open_file_call F root name) Any
  unfolding open_file_call
  open_file_call-Safe root name = search safe_rules depth 8

  pub locate_handle_buffer-Safe : (guid : Guid) → Total Any (locate_handle_buffer F guid) Any
  unfolding locate_handle_buffer
  locate_handle_buffer-Safe guid = search safe_rules

  -- An error is logged and returned.
  pub log_fails :
      {A : Type 0} {Q : Result A → Type 0} (level : Level) (func fmt : String) (args : List Arg)
      (rc : ℕ)
      → Q (err rc)
      → Total Any (fwup_log F level func fmt args >> pure (err rc)) Q
  log_fails level func fmt args rc q =
      Total-bind _ _ (fwup_log-Safe F _ _ _ _) λ _ _. Total-pure (err rc) q

  pub free_devices-Safe : (p : ℕ) → Total Any (free_devices F p) Any
  unfolding free_devices
  free_devices-Safe p = search (safe_rules, free_pool-Safe)

  pub open_on-Succeeds : (device : ℕ) (name : Name) → Total Any (open_on F device name) Succeeds
  unfolding open_on
  open_on-Succeeds device name = Total-bind _ _ (handle_protocol-Safe device _) λ drive _.
      Total-if (efi_error drive.status) _ _ (λ t. log_fails _ _ _ _ drive.status t)
        λ _. Total-bind _ _ (fwup_log-Safe F _ _ _ _) λ _ _.
          Total-bind _ _ (open_volume-Safe drive.handle) λ root _.
            Total-if (efi_error root.status) _ _ (λ t. log_fails _ _ _ _ root.status t)
              λ _. Total-bind _ _ (fwup_log-Safe F _ _ _ _) λ _ _.
                Total-bind _ _ (open_file_call-Safe root.handle name) λ fh _.
                  Total-if (efi_error fh.status) _ _ (λ t. log_fails _ _ _ _ fh.status t)
                    λ _.
                      Total-bind _ _ (fwup_log-Safe F _ _ _ _) λ _ _. Total-pure (ok fh.handle) tt

  pub match_path-Safe :
      (fuel : ℕ) (path : Buffer) (off n : ℕ) (parent : Buffer)
      → PathAt path.byte off n
      → off + n ≤ path.size
      → n < fuel
      → Total Any (match_path F fuel path off parent) Any
  unfolding match_path
  match_path-Safe zero path off n parent p h l = elim l [ ]
  match_path-Safe (suc fuel) path off n parent p h l =
      Total-bind _ _ (Total-bounds path off 4 (omega (arith, h, PathAt-four_le p))) λ _ _.
        Total-if (dp_is_end path.byte off) _ _ (λ _. Total-pure false tt)
          λ f.
            let (k, q, e) = PathAt-rest f p in
            Total-bind _ _ (to_str-Safe parent 0) λ _ _.
              Total-bind _ _ (to_str-Safe path off) λ _ _.
                Total-bind _ _ (fwup_log-Safe F _ _ _ _) λ _ _.
                  Total-bind _ _ (match-Safe path off parent) λ same _.
                    Total-if same _ _ (λ _. Total-pure true tt)
                      λ _.
                        match_path-Safe fuel path (off + dp_node_length path.byte off) k parent q
                          (omega (arith, h, e)) (omega (arith, l, e, (PathAt-first p).0))

  pub allocated-same :
      {A : Type 0} {Q : Option A → Type 0} (addr : A → ℕ) (o : Option A)
      → Q o
      → Total Any (allocated F addr o) Q
  unfolding allocated
  allocated-same addr none q = Total-pure none q
  allocated-same addr (some a) q = Total-bind _ _ (Total-emit _) λ _ _. Total-pure (some a) q
