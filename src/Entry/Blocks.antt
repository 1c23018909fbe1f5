-- ===== src/Entry/Blocks.antt =====
-- The block descriptors beside the capsules.
use fwupd_efi.Base.{
  ℕ, zero, suc, ◌+◌, ◌≤◌, ◌≡◌, ◌∙◌, refl, ap, List, [], ◌∷◌, ◌++◌, arith, length, length-append,
  ◌==◌, if◌then◌else◌,
}
use fwupd_efi.Firmware.Services.{Capsule, Block}
use fwupd_efi.Apply.Valid.{IsValidCapsule}
use fwupd_efi.Entry.Defs.{blocks_at}

abbrev pub terminator : Block
terminator = record { length = 0; pointer = 0 }

-- Each capsule is valid with the descriptor at its place.
abbrev pub AllValid : List Capsule → List Block → Type 0
AllValid [] [] = Unit {0}
AllValid (c ∷ cs) (b ∷ bs) = IsValidCapsule c b × AllValid cs bs
AllValid _ _ = ⊥

pub AllValid-snoc :
    (cs : List Capsule) (bs : List Block) {c : Capsule} {b : Block}
    → AllValid cs bs
    → IsValidCapsule c b
    → AllValid (cs ++ c ∷ []) (bs ++ b ∷ [])
AllValid-snoc [] [] v w = (w, tt)
AllValid-snoc [] (b ∷ bs) v w = absurd v
AllValid-snoc (c ∷ cs) [] v w = absurd v
AllValid-snoc (c ∷ cs) (b ∷ bs) v w = (v.0, AllValid-snoc cs bs v.1 w)

pub blocks_at-suc :
    (cbd : ℕ → Block) (i n : ℕ) → blocks_at cbd i (suc n) ≡ blocks_at cbd i n ++ cbd (i + n) ∷ []
blocks_at-suc cbd i zero = ap (λ k. cbd k ∷ []) (omega arith)
blocks_at-suc cbd i (suc n) =
    ap (λ l. cbd i ∷ l) (blocks_at-suc cbd (i + 1) n)
    ∙ ap (λ k. cbd i ∷ (blocks_at cbd (i + 1) n ++ cbd k ∷ [])) (omega arith)

pub blocks_at-replaced :
    (cbd : ℕ → Block) (b : Block) (i n k : ℕ)
    → i + n ≤ k
    → blocks_at (λ j. if j == k then b else cbd j) i n ≡ blocks_at cbd i n
blocks_at-replaced cbd b i zero k h = refl
blocks_at-replaced cbd b i (suc n) k h = ground (arith, blocks_at-replaced cbd b (i + 1) n k)

pub blocks_at-snoc :
    (cbd : ℕ → Block) (b : Block) (cs : List Capsule) (c : Capsule)
    → blocks_at (λ i. if i == length cs then b else cbd i) 0 (length (cs ++ c ∷ []))
      ≡ blocks_at cbd 0 (length cs) ++ b ∷ []
blocks_at-snoc cbd b cs c =
    ap (blocks_at (λ i. if i == length cs then b else cbd i) 0) {y = suc (length cs)}
      (omega (arith, length-append {0} cs (c ∷ [])))
    ∙ blocks_at-suc (λ i. if i == length cs then b else cbd i) 0 (length cs)
    ∙ ground (arith, blocks_at-replaced cbd b 0 (length cs) (length cs))
