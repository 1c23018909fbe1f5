-- ===== src/OpenFile/Device.antt =====
-- Which device `fwup_search_file` finds: the first one of whose device path a suffix is the path before
-- the file.
use fwupd_efi.Base.{
  ℕ, zero, suc, ◌+◌, ◌≤◌, ◌<◌, ◌≡◌, ◌∙◌, ap, sym, refl, arith, Bool, true, false, List, [], ◌∷◌,
}
use mathlib.Core.Path.{subst}
use fwupd_efi.Memory.{Buffer}
use fwupd_efi.Efi.{
  Result, ok, err, efi_error, unsupported, dp_node_length, dp_is_end, device_path_protocol,
  simple_file_system_protocol,
}
use fwupd_efi.Firmware.Services.{Services, HandleReply, HandlesReply}
use fwupd_efi.Firmware.Monad.{value}
use fwupd_efi.Firmware.Calls.{handle_protocol, device_path_of, match_device_paths}
use fwupd_efi.Firmware.Total.{
  Total, Any, Total-bind, Total-pure, Total-if, Total-call, Total-bounds, Total-lift, Total-post,
}
use fwupd_efi.DevicePath.Spec.{
  NodeOf, first_node, later_node, PathAt, PathIn, PathAt-rest, PathAt-first, PathAt-four_le,
}
use fwupd_efi.Debug.Total.{fwup_log-Safe}
use fwupd_efi.OpenFile.{skip_nodes, path_fuel, match_path, matched, search_devices}
use fwupd_efi.OpenFile.Calls.{to_str-Safe}

-- What the firmware answers about its handles, at all times: those with a file system, the protocol with
-- the device path, the path itself, which is whole, and whether it matches another from an offset on.
pub record Shows (F : Services) : Type 0 where
  pub listed : HandlesReply
  pub interface : ℕ → HandleReply
  pub path : ℕ → Buffer
  pub matches : Buffer → ℕ → Buffer → Bool
  pub listed_same :
      (s : F.State) → (F.locate_handle_buffer s simple_file_system_protocol).0 ≡ listed
  pub interface_same :
      (s : F.State) (h : ℕ) → (F.handle_protocol s h device_path_protocol).0 ≡ interface h
  pub path_same : (s : F.State) (i : ℕ) → F.device_path_of s i ≡ path i
  pub matches_same :
      (s : F.State) (p : Buffer) (off : ℕ) (o : Buffer)
      → (F.match_device_paths s p off o).0 ≡ matches p off o
  pub whole : (i : ℕ) → PathIn (path i) 0

module _ {F : Services} (shows : Shows F) (parent : Buffer) where
  abbrev IsHit : Buffer → ℕ → Bool → Type 0
  IsHit p off true = (x : ℕ) × NodeOf p.byte off x × (shows.matches p x parent ≡ true)
  IsHit p off false = (x : ℕ) → NodeOf p.byte off x → shows.matches p x parent ≡ false

  -- A device shows a path, of which a suffix matches, or none does.
  abbrev pub Offers : ℕ → Type 0
  Offers d =
      (efi_error (shows.interface d).status ≡ false)
      × IsHit (shows.path (shows.interface d).handle) 0 true

  -- The first device that offers the path, and `rest`; or `EFI_UNSUPPORTED` if none does.
  pub data FindsFirst (rest : ℕ) : List ℕ → Result (ℕ × ℕ) → Type 0 where
    no_device : FindsFirst rest [] (err unsupported)
    this_device : {d : ℕ} {ds : List ℕ} → Offers d → FindsFirst rest (d ∷ ds) (ok (rest, d))
    later_device :
        {d : ℕ} {ds : List ℕ} {r : Result (ℕ × ℕ)}
        → ¬ Offers d
        → FindsFirst rest ds r
        → FindsFirst rest (d ∷ ds) r

  none_after_end : (p : Buffer) (off : ℕ) → dp_is_end p.byte off ≡ true → IsHit p off false
  none_after_end p off t x (first_node f) = cc
  none_after_end p off t x (later_node f n) = cc

  none_here :
      (p : Buffer) (off : ℕ)
      → shows.matches p off parent ≡ false
      → IsHit p (off + dp_node_length p.byte off) false
      → IsHit p off false
  none_here p off m k x (first_node f) = m
  none_here p off m k x (later_node f n) = k x n

  later-IsHit :
      (p : Buffer) (off : ℕ) (b : Bool)
      → dp_is_end p.byte off ≡ false
      → shows.matches p off parent ≡ false
      → IsHit p (off + dp_node_length p.byte off) b
      → IsHit p off b
  later-IsHit p off true f m (x, n, h) = (x, later_node f n, h)
  later-IsHit p off false f m k = none_here p off m k

  match-same :
      (p : Buffer) (off : ℕ)
      → Total Any (match_device_paths F p off parent) (λ b. shows.matches p off parent ≡ b)
  unfolding match_device_paths
  match-same p off = Total-call _ λ s. sym (shows.matches_same s p off parent)

  match_path-IsHit :
      (fuel : ℕ) (p : Buffer) (off n : ℕ)
      → PathAt p.byte off n
      → off + n ≤ p.size
      → n < fuel
      → Total Any (match_path F fuel p off parent) (IsHit p off)
  unfolding match_path
  match_path-IsHit zero p off n q h l = elim l [ ]
  match_path-IsHit (suc fuel) p off n q h l =
      Total-bind _ _ (Total-bounds p off 4 (omega (arith, h, PathAt-four_le q))) λ _ _.
        Total-if (dp_is_end p.byte off) _ _ (λ t. Total-pure false (none_after_end p off t))
          λ f.
            let (k, r, e) = PathAt-rest f q in
            Total-bind _ _ (to_str-Safe F parent 0) λ _ _.
              Total-bind _ _ (to_str-Safe F p off) λ _ _.
                Total-bind _ _ (fwup_log-Safe F _ _ _ _) λ _ _.
                  Total-bind _ _ (match-same p off) λ b m.
                    Total-if b _ _ (λ t. Total-pure true (off, first_node f, m ∙ t))
                      λ g.
                        Total-post _
                          (match_path-IsHit fuel p (off + dp_node_length p.byte off) k r
                            (omega (arith, h, e)) (omega (arith, l, e, (PathAt-first q).0)))
                          λ c i. later-IsHit p off c f (m ∙ g) i

  -- The walk over the path behind an interface.
  shown-IsHit :
      (i : ℕ) (p : Buffer)
      → shows.path i ≡ p
      → Total Any (match_path F (path_fuel p) p 0 parent) (IsHit (shows.path i) 0)
  shown-IsHit i p e =
      let (n, q, h) = shows.whole i in
      subst (λ c. Total Any (match_path F (path_fuel c) c 0 parent) (IsHit (shows.path i) 0)) e
        (match_path-IsHit (path_fuel (shows.path i)) (shows.path i) 0 n q h (omega (arith, h)))

  no_interface :
      (d : ℕ) (r : HandleReply) → shows.interface d ≡ r → efi_error r.status ≡ true → ¬ Offers d
  no_interface d r i t (o, h) = cc

  offered :
      (d : ℕ) (r : HandleReply)
      → shows.interface d ≡ r
      → efi_error r.status ≡ false
      → IsHit (shows.path r.handle) 0 true
      → Offers d
  offered d r i f k = (
    ap (λ j. efi_error j.status) i ∙ f,
    subst (λ j. IsHit (shows.path j.handle) 0 true) (sym i) k,
  )

  not_offered : (d : ℕ) → IsHit (shows.path (shows.interface d).handle) 0 false → ¬ Offers d
  not_offered d k (o, (x, n, m)) = cc (k x n)

  module _ (file : Buffer) (dp count rest : ℕ) (skips : skip_nodes count file dp ≡ value rest) where
    interface-same :
        (d : ℕ) → Total Any (handle_protocol F d device_path_protocol) (λ r. shows.interface d ≡ r)
    unfolding handle_protocol
    interface-same d = Total-call _ λ s. sym (shows.interface_same s d)

    path-same : (i : ℕ) → Total Any (device_path_of F i) (λ b. shows.path i ≡ b)
    unfolding device_path_of
    path-same i = Total-call _ λ s. sym (shows.path_same s i)

    matched-FindsFirst :
        (d : ℕ) (ds : List ℕ)
        → Offers d
        → Total Any (matched F file dp count d) (FindsFirst rest (d ∷ ds))
    unfolding matched
    matched-FindsFirst d ds o =
        Total-bind {Q = λ r. r ≡ rest} _ _ (Total-lift _ rest skips refl) λ r e.
          Total-bind _ _ (to_str-Safe F file r) λ _ _.
            Total-bind _ _ (fwup_log-Safe F _ _ _ _) λ _ _.
              Total-pure (ok (r, d))
                (subst (λ i. FindsFirst rest (d ∷ ds) (ok (i, d))) (sym e) (this_device o))

    pub search_devices-FindsFirst :
        (ds : List ℕ) → Total Any (search_devices F ds file dp parent count) (FindsFirst rest ds)
    unfolding search_devices
    search_devices-FindsFirst [] =
        Total-bind _ _ (to_str-Safe F file dp)
          λ _ _. Total-bind _ _ (fwup_log-Safe F _ _ _ _) λ _ _. Total-pure _ no_device
    search_devices-FindsFirst (d ∷ ds) = Total-bind _ _ (interface-same d) λ r i.
        Total-if (efi_error r.status) _ _
          (λ t.
            Total-post _ (search_devices-FindsFirst ds)
              λ _ h. later_device (no_interface d r i t) h)
          λ f. Total-bind _ _ (path-same r.handle) λ path e.
            Total-bind _ _ (to_str-Safe F path 0) λ _ _.
              Total-bind _ _ (fwup_log-Safe F _ _ _ _) λ _ _.
                Total-bind _ _ (shown-IsHit r.handle path e) λ hit k.
                  Total-if hit _ _
                    (λ t.
                      matched-FindsFirst d ds
                        (offered d r i f (subst (IsHit (shows.path r.handle) 0) t k)))
                    λ g. Total-post _ (search_devices-FindsFirst ds) λ _ h.
                      later_device
                        (not_offered d (
                          subst (λ j. IsHit (shows.path j.handle) 0 false) (sym i)
                            (subst (IsHit (shows.path r.handle) 0) g k)))
                        h
