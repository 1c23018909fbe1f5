-- ===== src/Apply/Statuses.antt =====
-- `fwup_set_update_statuses` over a store of variables: it puts the entries of the table into the map,
-- one by one.
use fwupd_efi.Base.{
  ℕ, ◌≤◌, ◌<◌, ◌≡◌, refl, sym, ap, Bool, if◌then◌else◌, ◌∙◌, arith, true, false, some, List, [],
  ◌∷◌, ◌++◌, length,
}
use mathlib.Core.Path.{subst}
use fwupd_efi.Memory.{Buffer, bytes_at}
use fwupd_efi.Efi.{Name, efi_error, fwupdate_guid}
use fwupd_efi.Firmware.Services.{Services, Text}
use fwupd_efi.Firmware.Monad.{World}
use fwupd_efi.Firmware.Reaches.{
  Reaches, Reaches-bind, Reaches-pure, Reaches-if, Reaches-from, Reaches-bounds, Reaches-deref,
  Reaches-on_some, Reaches-then, Reaches-post,
}
use fwupd_efi.Firmware.Store.{Stored, IsStore, is_plain}
use fwupd_efi.Debug.Total.{fwup_log-Safe}
use fwupd_efi.Variable.{set_variable}
use fwupd_efi.Variable.Map.{Map, put, put_if, IsShown, log_map-Keeps, set_variable-put_if}
use fwupd_efi.Update.{Update}
use fwupd_efi.Apply.{set_update_statuses}

-- What an entry of the table stands for: its name, and the variable that its buffer holds.
pub record Entry : Type 0 where
  pub name : Name
  pub content : Stored

pub record IsEntry (u : Update) (e : Entry) : Type 0 where
  pub text : Text
  pub named : u.name ≡ some text
  pub units : text.units ≡ e.name
  pub buffer : Buffer
  pub held : u.info ≡ some buffer
  pub in_buffer : u.size ≤ buffer.size
  pub attrs : u.attrs ≡ e.content.attrs
  pub bytes : bytes_at buffer.byte 0 u.size ≡ e.content.bytes
  pub plain : is_plain e.content.attrs ≡ true
  pub some_bytes : 0 < length e.content.bytes

abbrev pub AreEntries : List Update → List Entry → Type 0
AreEntries [] [] = Unit {0}
AreEntries (u ∷ us) (e ∷ es) = IsEntry u e × AreEntries us es
AreEntries _ _ = ⊥

-- The entries are put into the map, the first one first.
abbrev pub put_all : Map → List Entry → Map
put_all map [] = map
put_all map (e ∷ es) = put_all (put map e.name fwupdate_guid e.content) es

-- The entries that were written, and those that were not.
pub record Written (F : Services) (shown : F.State → Map) (map : Map) (es : List Entry) (rc : ℕ)
    (w : World F.State) : Type 0 where
  pub written : List Entry
  pub rest : List Entry
  pub all : es ≡ written ++ rest
  pub now : IsShown F shown (put_all map written) w
  pub complete : efi_error rc ≡ false → rest ≡ []

contrary : {b : Bool} → b ≡ true → b ≡ false → ⊥
contrary t f = cc

if_true : {A : Type 0} (x y : A) {b : Bool} → b ≡ true → (if b then x else y) ≡ x
if_true x y t = cc t

if_false : {A : Type 0} (x y : A) {b : Bool} → b ≡ false → (if b then x else y) ≡ y
if_false x y f = cc f

module _ (F : Services) {shown : F.State → Map} (store : IsStore F shown) where
  same_set :
      {n n' : Name} {b b' : List ℕ} {a a' : ℕ}
      → n ≡ n'
      → b ≡ b'
      → a ≡ a'
      → set_variable F n fwupdate_guid b a ≡ set_variable F n' fwupdate_guid b' a'
  same_set p q r = cc

  set_entry :
      (map : Map) (u : Update) (e : Entry) (i : IsEntry u e)
      → Reaches
          (IsShown F shown map)
          (set_variable F i.text.units fwupdate_guid (bytes_at i.buffer.byte 0 u.size) u.attrs)
          (λ rc w. IsShown F shown (put_if map e.name fwupdate_guid e.content rc) w)
  set_entry map u e i =
      subst
        (λ m.
          Reaches (IsShown F shown map) m
            (λ rc w. IsShown F shown (put_if map e.name fwupdate_guid e.content rc) w))
        (sym (same_set i.units i.bytes i.attrs))
        (set_variable-put_if F store map e.name fwupdate_guid e.content i.plain i.some_bytes)

  -- The map after a failed write, and after a write.
  not_put :
      (map : Map) (e : Entry) (rc : ℕ) (w : World F.State)
      → efi_error rc ≡ true
      → IsShown F shown (put_if map e.name fwupdate_guid e.content rc) w
      → IsShown F shown map w
  not_put map e rc w t h v = h v ∙ if_true _ _ t

  was_put :
      (map : Map) (e : Entry) (rc : ℕ) (w : World F.State)
      → efi_error rc ≡ false
      → IsShown F shown (put_if map e.name fwupdate_guid e.content rc) w
      → IsShown F shown (put map e.name fwupdate_guid e.content) w
  was_put map e rc w f h v = h v ∙ if_false _ _ f

  Written-more :
      {map : Map} {e : Entry} {es : List Entry} {rc : ℕ} {w : World F.State}
      → Written F shown (put map e.name fwupdate_guid e.content) es rc w
      → Written F shown map (e ∷ es) rc w
  Written-more {e} h = record {
    written = e ∷ h.written;
    rest = h.rest;
    all = ap (λ l. e ∷ l) h.all;
    now = h.now;
    complete = h.complete;
  }

  Written-none :
      {map : Map} (es : List Entry) {rc : ℕ} {w : World F.State}
      → efi_error rc ≡ true
      → IsShown F shown map w
      → Written F shown map es rc w
  Written-none es t k = record {
    written = [];
    rest = es;
    all = refl;
    now = k;
    complete = λ f. absurd (contrary t f);
  }

  -- Over a store of variables, for a table whose entries have a name, a buffer with their data, and
  -- attributes that give access and do not append: `fwup_set_update_statuses` returns without a fault;
  -- it has put the first entries into the store, in their order, and nothing else but the debug log
  -- was changed; if its status is no error, it has put them all.
  pub set_update_statuses-Written :
      (map : Map) (us : List Update) (es : List Entry)
      → AreEntries us es
      → Reaches
          (IsShown F shown map)
          (set_update_statuses F us)
          (λ rc w. Written F shown map es rc w)
  unfolding set_update_statuses
  set_update_statuses-Written map [] [] h =
      Reaches-pure _
        λ w k. record { written = []; rest = []; all = refl; now = k; complete = λ _. refl }
  set_update_statuses-Written map [] (e ∷ es) h = absurd h
  set_update_statuses-Written map (u ∷ us) [] h = absurd h
  set_update_statuses-Written map (u ∷ us) (e ∷ es) (i, h) =
      Reaches-on_some u.name i.text _ _ i.named (
        Reaches-deref u.info i.buffer _ i.held (
          Reaches-bind _ _ (Reaches-bounds i.buffer 0 u.size (omega (arith, i.in_buffer))) λ _.
            Reaches-bind _ _ (set_entry map u e i) λ rc.
              Reaches-if (efi_error rc) _ _
                (λ t.
                  Reaches-from _ (λ w. not_put map e rc w t)
                    (Reaches-then _ _ (fwup_log-Safe F _ _ _ _) (log_map-Keeps F store map _ _ _ _)
                      λ _. Reaches-pure _ λ w k. Written-none (e ∷ es) t k))
                (λ f.
                  Reaches-from _ (λ w. was_put map e rc w f)
                    (Reaches-post _ (λ rc w. Written-more)
                      (set_update_statuses-Written (put map e.name fwupdate_guid e.content) us es
                        h)))))
