-- ===== src/Variable/Map.antt =====
-- The store of variables as a whole: a map, of which the debug log is left out.
use fwupd_efi.Base.{
  ℕ, ◌<◌, ◌≡◌, refl, ◌∙◌, Bool, true, false, Option, some, List, [], ◌∷◌, length, same,
  if◌then◌else◌, Bool-cases, inl, inr, String, arith,
}
use fwupd_efi.Efi.{Name, Guid, efi_error, fwupdate_guid}
use fwupd_efi.Firmware.Services.{Services, Arg}
use fwupd_efi.Firmware.Monad.{World}
use fwupd_efi.Firmware.Calls.{set_variable_call}
use fwupd_efi.Firmware.Keeps.{Keeps, Keeps-all}
use fwupd_efi.Firmware.Reaches.{Reaches, Reaches-bind, Reaches-pure, Reaches-call, Reaches-emit}
use fwupd_efi.Firmware.Store.{Stored, IsStore, same_variable, is_plain}
use fwupd_efi.Debug.{log_name, fwup_log}
use fwupd_efi.Variable.{Level, set_variable}
use fwupd_efi.Variable.Shown.{shown_logging}

abbrev pub Map : Type 0
Map = Name → Guid → Option Stored

abbrev pub put : Map → Name → Guid → Stored → Map
put map name guid v name' guid' =
    if same_variable name guid name' guid' then some v else map name' guid'

-- A variable that is not the debug log.
pub record Other : Type 0 where
  pub name : Name
  pub guid : Guid
  pub apart : same_variable log_name fwupdate_guid name guid ≡ false

abbrev pub IsShown : (F : Services) → (F.State → Map) → Map → World F.State → Type 0
IsShown F shown map w = (v : Other) → shown w.fw v.name v.guid ≡ map v.name v.guid

same-equal : (xs ys : List ℕ) → same xs ys ≡ true → xs ≡ ys
unfolding same
same-equal [] [] h = refl
same-equal [] (y ∷ ys) h = ground arith
same-equal (x ∷ xs) [] h = ground arith
same-equal (x ∷ xs) (y ∷ ys) h = elim (Bool-cases (same xs ys)) [
  | inl t ↦ cc (same-equal xs ys t, same_head t)
  | inr f ↦ absurd (same_tail f)
]
  where
    same_head : same xs ys ≡ true → x ≡ y
    same_head t = ground arith

    same_tail : same xs ys ≡ false → ⊥
    same_tail f = ground arith

same_variable-name :
    (name : Name) (guid : Guid) (name' : Name) (guid' : Guid)
    → same_variable name guid name' guid' ≡ true
    → same name name' ≡ true
same_variable-name name guid name' guid' h = ground arith

same_variable-guid :
    (name : Name) (guid : Guid) (name' : Name) (guid' : Guid)
    → same_variable name guid name' guid' ≡ true
    → same guid guid' ≡ true
same_variable-guid name guid name' guid' h = ground arith

-- The map after `SetVariable` returned `rc`.
abbrev pub put_if : Map → Name → Guid → Stored → ℕ → Map
put_if map name guid v rc name' guid' =
    if efi_error rc then map name' guid' else put map name guid v name' guid'

by_status :
    {A : Type 0} (failed here : Bool) {x m v : A}
    → (here ≡ false → x ≡ m)
    → (here ≡ true → failed ≡ true → x ≡ m)
    → (here ≡ true → failed ≡ false → x ≡ v)
    → x ≡ (if failed then m else if here then v else m)
by_status true true a b c = b refl refl
by_status true false a b c = a refl
by_status false true a b c = c refl refl
by_status false false a b c = a refl

module _ (F : Services) {shown : F.State → Map} (store : IsStore F shown) (map : Map) where
  pub log_map-Keeps :
      (level : Level) (func fmt : String) (args : List Arg)
      → Keeps (IsShown F shown map) (fwup_log F level func fmt args)
  log_map-Keeps level func fmt args =
      Keeps-all _ _ λ v. (shown_logging F store v.name v.guid _ v.apart).logging level func fmt args

  set-shown :
      (name : Name) (guid : Guid) (v : Stored)
      → is_plain v.attrs ≡ true
      → 0 < length v.bytes
      → (s : F.State) (k : Other) → shown s k.name k.guid ≡ map k.name k.guid
      → shown (F.set_variable s name guid v.attrs v.bytes).1 k.name k.guid
        ≡ put_if map name guid v (F.set_variable s name guid v.attrs v.bytes).0 k.name k.guid
  set-shown name guid v p n s k h =
      by_status (efi_error (F.set_variable s name guid v.attrs v.bytes).0)
        (same_variable name guid k.name k.guid)
        (λ f. store.set_apart s name guid v.attrs v.bytes k.name k.guid f ∙ h)
        (λ t e. cc (h, same_name t, same_guid t, store.set_failed s name guid v.attrs v.bytes e))
        (λ t e. cc (same_name t, same_guid t, store.set_stored s name guid v.attrs v.bytes p n e))
    where
      same_name : same_variable name guid k.name k.guid ≡ true → name ≡ k.name
      same_name t = same-equal name k.name (same_variable-name name guid k.name k.guid t)

      same_guid : same_variable name guid k.name k.guid ≡ true → guid ≡ k.guid
      same_guid t = same-equal guid k.guid (same_variable-guid name guid k.name k.guid t)

  -- `fwup_set_variable` on the store is `put` on the map, if it succeeds.
  pub set_variable-put_if :
      (name : Name) (guid : Guid) (v : Stored)
      → is_plain v.attrs ≡ true
      → 0 < length v.bytes
      → Reaches
          (IsShown F shown map)
          (set_variable F name guid v.bytes v.attrs)
          (λ rc w. IsShown F shown (put_if map name guid v rc) w)
  unfolding set_variable set_variable_call
  set_variable-put_if name guid v p n =
      Reaches-bind _ _ (Reaches-call _ λ w h k. set-shown name guid v p n w.fw k (h k)) λ rc.
        Reaches-bind {Q = λ _. IsShown F shown (put_if map name guid v rc)} _ _
          (Reaches-emit _ λ w h. h) λ _. Reaches-pure _ λ w h. h
