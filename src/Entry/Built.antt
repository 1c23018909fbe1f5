-- ===== src/Entry/Built.antt =====
-- The loop of `efi_main` over the updates makes valid capsules, each with its descriptor.
use fwupd_efi.Base.{ℕ, suc, ◌+◌, ◌≡◌, ◌∙◌, sym, ap, Bool, Option}
use fwupd_efi.Base.{List, [], ◌∷◌, ◌++◌, String, arith, length, ◌==◌, if◌then◌else◌}
use mathlib.Core.Path.{subst}
use fwupd_efi.Memory.{Buffer}
use fwupd_efi.Efi.{success}
use fwupd_efi.Firmware.Services.{Services, Arg, Capsule, Block}
use fwupd_efi.Firmware.Monad.{Event}
use fwupd_efi.Firmware.Keeps.{Keeps, Committed}
use fwupd_efi.Firmware.Leads.{
  Leads, Leads-step, Leads-bind, Leads-pure, Leads-given, Leads-on_result_given,
}
use fwupd_efi.Debug.Quiet.{quiet_log}
use fwupd_efi.Capsule.{cbd_set_terminator}
use fwupd_efi.Update.{Update}
use fwupd_efi.Apply.Valid.{IsValidCapsule, IsValidResult, add_update_capsule-IsValidResult}
use fwupd_efi.Entry.Defs.{Built, blocks_at, say, warn, build_capsules}
use fwupd_efi.Entry.Blocks.{
  AllValid, AllValid-snoc, terminator, blocks_at-suc, blocks_at-replaced, blocks_at-snoc,
}

-- Every capsule so far is valid with its descriptor.
abbrev pub IsBuilt : Built → Type 0
IsBuilt b = AllValid b.capsules (blocks_at b.cbd 0 (length b.capsules))

pub replaced-AllValid :
    (b : Built)
    → IsBuilt b
    → AllValid b.capsules
        (blocks_at (cbd_set_terminator b.cbd (length b.capsules)) 0 (length b.capsules))
unfolding cbd_set_terminator
replaced-AllValid b v =
    subst (AllValid b.capsules)
      (sym (
        blocks_at-replaced b.cbd terminator 0 (length b.capsules) (length b.capsules)
          (omega arith)))
      v

pub terminated :
    (cbd : ℕ → Block) (n : ℕ)
    → blocks_at (cbd_set_terminator cbd n) 0 (n + 1)
      ≡ blocks_at (cbd_set_terminator cbd n) 0 n ++ terminator ∷ []
unfolding cbd_set_terminator
terminated cbd n =
    ap (blocks_at (cbd_set_terminator cbd n) 0) {y = suc n} (omega arith)
    ∙ blocks_at-suc (cbd_set_terminator cbd n) 0 n
    ∙ ap (λ b. blocks_at (cbd_set_terminator cbd n) 0 n ++ b ∷ []) (ground arith)

add_built :
    (b : Built) (c : Capsule) (k : Block) (rc : ℕ)
    → IsBuilt b
    → IsValidCapsule c k
    → IsBuilt (record {
      capsules = b.capsules ++ c ∷ [];
      cbd = λ i. if i == length b.capsules then k else b.cbd i;
      rc = rc;
    })
add_built b c k rc v w =
    subst (AllValid (b.capsules ++ c ∷ [])) (sym (blocks_at-snoc b.cbd k b.capsules c))
      (AllValid-snoc b.capsules _ v w)

module _ (F : Services) (fixed : Bool) {t : List Event} where
  pub warn-Quiet : (fmt : String) (args : List Arg) → Keeps (Committed t) (warn F fixed fmt args)
  unfolding warn
  warn-Quiet fmt args = search quiet_log

  pub say-Quiet : (fmt : String) (args : List Arg) → Keeps (Committed t) (say F fixed fmt args)
  unfolding say
  say-Quiet fmt args = search quiet_log

  pub build_capsules-IsBuilt :
      (image : ℕ) (array : Option Buffer) (updates : List Update) (b : Built)
      → IsBuilt b
      → Leads
          (Committed t)
          (build_capsules F fixed image array updates b)
          (λ b' w. IsBuilt b' × Committed t w)
  unfolding build_capsules
  build_capsules-IsBuilt image array [] b v = Leads-pure _ λ w c. (v, c)
  build_capsules-IsBuilt image array (u ∷ updates) b v = Leads-step _ _ (search quiet_log) λ _.
      Leads-bind _ _ (add_update_capsule-IsValidResult F fixed u image) λ r. Leads-given _ λ valid.
        Leads-on_result_given IsValidResult r _ _ valid
          (λ rc _. Leads-step _ _ (search quiet_log) λ info.
            Leads-step _ _ (search warn-Quiet)
              λ _. build_capsules-IsBuilt image array updates (record b { rc = rc }) v)
          (λ made made_valid. Leads-step _ _ (search quiet_log) λ _.
            build_capsules-IsBuilt image array updates
              (record {
                capsules = b.capsules ++ made.0 ∷ [];
                cbd = λ i. if i == length b.capsules then made.1 else b.cbd i;
                rc = success;
              })
              (add_built b made.0 made.1 success v made_valid))
