-- ===== src/OpenFile/Search.antt =====
-- `fwup_search_file` over sound firmware.
use fwupd_efi.Base.{
  ℕ, ◌+◌, ◌≤◌, ◌≡◌, ◌∙◌, ap, sym, refl, arith, true, Option, none, some, List, [], ◌∷◌,
}
use mathlib.Core.Path.{subst}
use fwupd_efi.Memory.{Buffer}
use fwupd_efi.Efi.{
  Result, ok, err, efi_error, unsupported-efi_error, invalid_parameter-efi_error,
  simple_file_system_protocol, device_path_protocol,
}
use fwupd_efi.Firmware.Services.{Services}
use fwupd_efi.Firmware.Monad.{Checked, value, lift}
use fwupd_efi.Firmware.Calls.{locate_device_path, duplicate_device_path, device_path_of}
use fwupd_efi.Firmware.Total.{
  Total, Any, Total-bind, Total-pure, Total-if, Total-on_result, Total-lift, Total-call,
}
use fwupd_efi.Firmware.Sound.{Sound}
use fwupd_efi.DevicePath.Spec.{PathAt, PathIn}
use fwupd_efi.Debug.Total.{fwup_log-Safe}
use fwupd_efi.Variable.Total.{cleanup_free-Safe}
use fwupd_efi.OpenFile.{
  Found, file_node, path_end, skip_nodes, path_fuel, matched, search_devices, search_from,
  search_copy, search_file, locate,
}
use fwupd_efi.OpenFile.Walk.{IsCopied, Walked, to_file, to_end, find_file_node-Walked}
use fwupd_efi.OpenFile.Calls.{
  to_str-Safe, handle_protocol-Safe, locate_handle_buffer-Safe, free_devices-Safe, match_path-Safe,
  allocated-same,
}

-- The file node that was found on a device.
abbrev pub IsLocated : Buffer → Result (ℕ × ℕ) → Type 0
IsLocated file (ok (off, device)) = PathIn file off
IsLocated file (err rc) = efi_error rc ≡ true

module _ (F : Services) where
  module _ (file : Buffer) (dp count rest : ℕ) (skips : skip_nodes count file dp ≡ value rest)
      (p : PathIn file rest) where
    matched-IsLocated : (device : ℕ) → Total Any (matched F file dp count device) (IsLocated file)
    unfolding matched
    matched-IsLocated device =
        Total-bind {Q = λ r. r ≡ rest} _ _ (Total-lift _ rest skips refl) λ r e.
          Total-bind _ _ (to_str-Safe F file r) λ _ _.
            Total-bind _ _ (fwup_log-Safe F _ _ _ _)
              λ _ _. Total-pure (ok (r, device)) (subst (λ r. PathIn file r) (sym e) p)

    module _ (sound : Sound F) where
      search_devices-IsLocated :
          (devices : List ℕ) (parent : Buffer)
          → Total Any (search_devices F devices file dp parent count) (IsLocated file)
      unfolding search_devices device_path_of
      search_devices-IsLocated [] parent =
          Total-bind _ _ (to_str-Safe F file dp) λ _ _.
            Total-bind _ _ (fwup_log-Safe F _ _ _ _) λ _ _. Total-pure _ unsupported-efi_error
      search_devices-IsLocated (device ∷ devices) parent =
          Total-bind _ _ (handle_protocol-Safe F device device_path_protocol) λ r _.
            Total-if (efi_error r.status) _ _ (λ _. search_devices-IsLocated devices parent)
              λ _.
                Total-bind {Q = λ b. PathIn b 0} _ _ (Total-call _ λ s. sound.shown_path s r.handle)
                  λ path (n, q, h). Total-bind _ _ (to_str-Safe F path 0) λ _ _.
                    Total-bind _ _ (fwup_log-Safe F _ _ _ _) λ _ _.
                      Total-bind _ _
                        (match_path-Safe F (path_fuel path) path 0 n parent q h (omega (arith, h)))
                        λ hit _.
                          Total-if hit _ _ (λ _. matched-IsLocated device)
                            λ _. search_devices-IsLocated devices parent

  -- A duplicate of the path.
  abbrev IsCopyOf : Buffer → ℕ → ℕ → Option Buffer → Type 0
  IsCopyOf path off n o =
      (b : Buffer) → o ≡ some b → (n ≤ b.size) × IsCopied b.byte path.byte 0 off n

  module _ (sound : Sound F) where
    duplicate-IsCopyOf :
        (path : Buffer) (off n : ℕ)
        → PathAt path.byte off n
        → off + n ≤ path.size
        → Total Any (duplicate_device_path F path off) (IsCopyOf path off n)
    unfolding duplicate_device_path
    duplicate-IsCopyOf path off n p h =
        Total-bind {Q = IsCopyOf path off n} _ _
          (Total-call _ λ s b e.
            let (k, c) = sound.duplicated s path off n b p h e in
            (k, λ j i x y z. c j (omega (arith, x, y, z)) ∙ ap path.byte (omega (arith, x, z))))
          λ o d. allocated-same F {Q = IsCopyOf path off n} _ o d

    module _ (devices : List ℕ) (file : Buffer) (dp : ℕ) where
      -- The steps on the path itself lead to a node.
      abbrev IsFound : Found → Type 0
      IsFound (file_node off k) =
          (rest : ℕ) × (skip_nodes k file dp ≡ value rest) × PathIn file rest
      IsFound path_end = Unit {0}

      search_from-IsLocated :
          (parent : Buffer) (f : Found)
          → IsFound f
          → Total Any (search_from F devices file dp parent f) (IsLocated file)
      unfolding search_from
      search_from-IsLocated parent path_end h = Total-pure _ invalid_parameter-efi_error
      search_from-IsLocated parent (file_node off k) (rest, g, p) =
          Total-bind _ _ (to_str-Safe F _ 0) λ _ _.
            Total-bind _ _ (fwup_log-Safe F _ _ _ _)
              λ _ _. search_devices-IsLocated file dp k rest g p sound devices _

      find-IsFound :
          {r : Checked Found} → Walked file dp 0 0 r → Total {S = F.State} Any (lift r) IsFound
      find-IsFound (to_file off k rest e g p d) =
          Total-lift _ (file_node off (0 + k)) e
            (rest, ap (λ i. skip_nodes i file dp) (omega arith) ∙ g, p)
      find-IsFound (to_end e k) = Total-lift _ path_end e tt

      search_copy-IsLocated :
          (n : ℕ) (o : Option Buffer)
          → PathAt file.byte dp n
          → dp + n ≤ file.size
          → IsCopyOf file dp n o
          → Total Any (search_copy F devices file dp o) (IsLocated file)
      unfolding search_copy
      search_copy-IsLocated n none p h d = Total-pure _ invalid_parameter-efi_error
      search_copy-IsLocated n (some parent) p h d =
          let (i, c) = d parent refl in
          Total-bind _ _
            (find-IsFound (
              find_file_node-Walked file parent (path_fuel parent) dp 0 n 0 p h (omega (arith, i)) c
                (omega (arith, i))))
            λ f k. search_from-IsLocated parent f k

    search_file-IsLocated :
        (file : Buffer) (dp : ℕ)
        → PathIn file dp
        → Total Any (search_file F file dp) (IsLocated file)
    unfolding search_file
    search_file-IsLocated file dp (n, p, h) =
        Total-bind _ _ (locate_handle_buffer-Safe F simple_file_system_protocol) λ r _.
          Total-if (efi_error r.status) _ _
            (λ t.
              Total-bind _ _ (fwup_log-Safe F _ _ _ _)
                λ _ _. Total-bind _ _ (free_devices-Safe F r.pool) λ _ _. Total-pure _ t)
            λ _. Total-bind _ _ (to_str-Safe F file dp) λ _ _.
              Total-bind _ _ (fwup_log-Safe F _ _ _ _) λ _ _.
                Total-bind _ _ (duplicate-IsCopyOf file dp n p h) λ parent d.
                  Total-bind _ _ (search_copy-IsLocated r.handles file dp n parent p h d) λ out k.
                    Total-bind _ _ (free_devices-Safe F r.pool)
                      λ _ _. Total-bind _ _ (cleanup_free-Safe F _) λ _ _. Total-pure out k

    pub locate-IsLocated :
        (file : Buffer) (dp : ℕ) → PathIn file dp → Total Any (locate F file dp) (IsLocated file)
    unfolding locate locate_device_path
    locate-IsLocated file dp h =
        Total-bind {Q = λ r. PathIn file r.offset} _ _
          (Total-call _ λ s. sound.located s _ file dp h)
          λ r p.
            Total-if (efi_error r.status) _ _
              (λ _. Total-bind _ _ (search_file-IsLocated file r.offset p) λ out k.
                Total-on_result out _ _
                  (λ rc e.
                    Total-bind _ _ (fwup_log-Safe F _ _ _ _)
                      λ _ _. Total-pure (err rc) (subst (IsLocated file) e k))
                  (λ found e. Total-pure _ (subst (IsLocated file) e k)))
              (λ _. Total-pure _ p)
