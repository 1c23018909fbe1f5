-- ===== src/OpenFile/Finds.antt =====
-- What `fwup_search_file` finds: where the file is on the path, and the device before it.
use fwupd_efi.Base.{ℕ, ◌+◌, ◌≤◌, ◌≡◌, ◌∙◌, ap, sym, refl, arith, true, false, Option, none, some}
use mathlib.Core.Path.{subst}
use fwupd_efi.Memory.{Buffer}
use fwupd_efi.Efi.{
  Result, err, efi_error, invalid_parameter, dp_is_file, set_dp_end, simple_file_system_protocol,
}
use fwupd_efi.Firmware.Services.{Services}
use fwupd_efi.Firmware.Monad.{Checked, value, lift}
use fwupd_efi.Firmware.Calls.{locate_handle_buffer, duplicate_device_path}
use fwupd_efi.Firmware.Total.{
  Total, Any, Total-bind, Total-pure, Total-if, Total-call, Total-lift, Total-post,
}
use fwupd_efi.Firmware.Sound.{Sound}
use fwupd_efi.DevicePath.Spec.{PathAt, PathIn, NodeOf}
use fwupd_efi.Debug.Total.{fwup_log-Safe}
use fwupd_efi.Variable.Total.{cleanup_free-Safe}
use fwupd_efi.OpenFile.{
  Found, file_node, path_end, skip_nodes, path_fuel, search_from, search_copy, search_file,
}
use fwupd_efi.OpenFile.Walk.{IsCopied, FirstFile, Walked, to_file, to_end, find_file_node-Walked}
use fwupd_efi.OpenFile.Calls.{to_str-Safe, free_devices-Safe, allocated-same}
use fwupd_efi.OpenFile.Device.{Shows, FindsFirst, search_devices-FindsFirst}

-- `cut` is the path before the first file node, which is at `rest`: a copy of the path, with an end node
-- in the place of that node.
pub record IsParent (file : Buffer) (dp rest : ℕ) (cut : Buffer) : Type 0 where
  pub copy : Buffer
  pub off : ℕ
  pub n : ℕ
  pub path : PathAt file.byte dp n
  pub is_copy : IsCopied copy.byte file.byte 0 dp n
  pub first_file : FirstFile file dp 0 off rest
  pub end_put : cut ≡ record copy { byte = set_dp_end copy.byte off }

module _ {F : Services} (shows : Shows F) (file : Buffer) (dp : ℕ) where
  -- Memory for a copy of the path has run out.
  abbrev NoCopy : Type 0
  NoCopy = (s : F.State) × ((F.duplicate_device_path s file dp).0 ≡ none)

  pub data IsSearched : Result (ℕ × ℕ) → Type 0 where
    no_handles : efi_error shows.listed.status ≡ true → IsSearched (err shows.listed.status)
    no_copy : NoCopy → IsSearched (err invalid_parameter)
    no_file_node :
        ((x : ℕ) → NodeOf file.byte dp x → dp_is_file file.byte x ≡ false)
        → IsSearched (err invalid_parameter)
    searched :
        {r : Result (ℕ × ℕ)} (rest : ℕ) (cut : Buffer)
        → IsParent file dp rest cut
        → FindsFirst shows cut rest shows.listed.handles r
        → IsSearched r

  abbrev Copied : ℕ → Option Buffer → Type 0
  Copied n none = NoCopy
  Copied n (some b) = (n ≤ b.size) × IsCopied b.byte file.byte 0 dp n

  -- What the walk over the copy finds.
  abbrev Reached : Buffer → Found → Type 0
  Reached copy (file_node off k) =
      (rest : ℕ) × (skip_nodes k file dp ≡ value rest) × FirstFile file dp 0 off rest
  Reached copy path_end = (x : ℕ) → NodeOf file.byte dp x → dp_is_file file.byte x ≡ false

  walk-Reached :
      (copy : Buffer) {r : Checked Found}
      → Walked file dp 0 0 r
      → Total {S = F.State} Any (lift r) (Reached copy)
  walk-Reached copy (to_file off k rest e g p d) =
      Total-lift _ (file_node off (0 + k)) e
        (rest, ap (λ i. skip_nodes i file dp) (omega arith) ∙ g, d)
  walk-Reached copy (to_end e k) = Total-lift _ path_end e k

  search_from-IsSearched :
      (n : ℕ) (copy : Buffer) (f : Found)
      → PathAt file.byte dp n
      → IsCopied copy.byte file.byte 0 dp n
      → Reached copy f
      → Total Any (search_from F shows.listed.handles file dp copy f) IsSearched
  unfolding search_from
  search_from-IsSearched n copy path_end p c k = Total-pure _ (no_file_node k)
  search_from-IsSearched n copy (file_node off k) p c (rest, g, d) =
      Total-bind _ _ (to_str-Safe F _ 0) λ _ _. Total-bind _ _ (fwup_log-Safe F _ _ _ _) λ _ _.
        Total-post _ (search_devices-FindsFirst shows _ file dp k rest g shows.listed.handles)
          λ r h.
            searched rest _
              (record {
                copy = copy;
                off = off;
                n = n;
                path = p;
                is_copy = c;
                first_file = d;
                end_put = refl;
              })
              h

  search_copy-IsSearched :
      (n : ℕ) (o : Option Buffer)
      → PathAt file.byte dp n
      → dp + n ≤ file.size
      → Copied n o
      → Total Any (search_copy F shows.listed.handles file dp o) IsSearched
  unfolding search_copy
  search_copy-IsSearched n none p h d = Total-pure _ (no_copy d)
  search_copy-IsSearched n (some copy) p h (i, c) =
      Total-bind _ _
        (walk-Reached copy (
          find_file_node-Walked file copy (path_fuel copy) dp 0 n 0 p h (omega (arith, i)) c
            (omega (arith, i))))
        λ f k. search_from-IsSearched n copy f p c k

  module _ (sound : Sound F) where
    copy_reply-Copied :
        (n : ℕ) (s : F.State) (o : Option Buffer)
        → PathAt file.byte dp n
        → dp + n ≤ file.size
        → (F.duplicate_device_path s file dp).0 ≡ o
        → Copied n o
    copy_reply-Copied n s none p h e = (s, e)
    copy_reply-Copied n s (some b) p h e =
        let (k, c) = sound.duplicated s file dp n b p h e in
        (k, λ j i x y z. c j (omega (arith, x, y, z)) ∙ ap file.byte (omega (arith, x, z)))

    duplicate-Copied :
        (n : ℕ)
        → PathAt file.byte dp n
        → dp + n ≤ file.size
        → Total Any (duplicate_device_path F file dp) (Copied n)
    unfolding duplicate_device_path
    duplicate-Copied n p h =
        Total-bind {Q = Copied n} _ _ (Total-call _ λ s. copy_reply-Copied n s _ p h refl)
          λ o d. allocated-same F {Q = Copied n} _ o d

    listed-same :
        Total Any (locate_handle_buffer F simple_file_system_protocol) (λ r. shows.listed ≡ r)
    unfolding locate_handle_buffer
    listed-same = Total-call _ λ s. sym (shows.listed_same s)

    -- Over sound firmware whose answers about its handles stay the same, and on a device path in a
    -- buffer, `fwup_search_file` returns without a fault. It reports the error of `LocateHandleBuffer`;
    -- `EFI_INVALID_PARAMETER` if the path could not be copied or has no file node; and else it leads to
    -- the first file node of the path, with the first handle that has a device path of which the rest
    -- from some node on matches the path before that file node, or it reports `EFI_UNSUPPORTED` if no
    -- handle has.
    pub search_file-IsSearched : PathIn file dp → Total Any (search_file F file dp) IsSearched
    unfolding search_file
    search_file-IsSearched (n, p, h) = Total-bind _ _ listed-same λ r e.
        Total-if (efi_error r.status) _ _
          (λ t. Total-bind _ _ (fwup_log-Safe F _ _ _ _) λ _ _.
            Total-bind _ _ (free_devices-Safe F r.pool) λ _ _. Total-pure _ (
              subst (λ l. IsSearched (err l.status)) e
                (no_handles (ap (λ l. efi_error l.status) e ∙ t))))
          λ _. Total-bind _ _ (to_str-Safe F file dp) λ _ _.
            Total-bind _ _ (fwup_log-Safe F _ _ _ _) λ _ _.
              Total-bind _ _ (duplicate-Copied n p h) λ copy d.
                Total-bind _ _
                  (subst (λ l. Total Any (search_copy F l.handles file dp copy) IsSearched) e
                    (search_copy-IsSearched n copy p h d))
                  λ out k.
                    Total-bind _ _ (free_devices-Safe F r.pool)
                      λ _ _. Total-bind _ _ (cleanup_free-Safe F _) λ _ _. Total-pure out k
