-- ===== src/Memory/Laws.antt =====
-- Reads after writes.
use fwupd_efi.Base.{
  ℕ, ◌+◌, ◌-◌, ◌^◌, ◌<◌, ◌≤◌, ◌≡◌, ◌⊎◌, arith, zero, suc, List, [], ◌∷◌, length, refl, ap, ◌∙◌,
}
use fwupd_efi.Memory.{blit, get32, put32, bytes_at, byte_of}

-- A byte outside the written range keeps its value.
pub blit_outside :
    (m : ℕ → ℕ) (off n : ℕ) (src : ℕ → ℕ) (j : ℕ)
    → (j < off) ⊎ (off + n ≤ j)
    → blit m off n src j ≡ m j
blit_outside m off n src j h = ground arith

pub blit_inside :
    (m : ℕ → ℕ) (off n : ℕ) (src : ℕ → ℕ) (j : ℕ)
    → off ≤ j
    → j < off + n
    → blit m off n src j ≡ src (j - off)
blit_inside m off n src j h k = ground arith

pub get32-put32 : (m : ℕ → ℕ) (i v : ℕ) → v < 2 ^ 32 → get32 (put32 m i v) i ≡ v
get32-put32 m i v h = ground arith

bytes_at-shift :
    (m m' : ℕ → ℕ) (off n : ℕ)
    → ((j : ℕ) → m (j + 1) ≡ m' j)
    → bytes_at m (off + 1) n ≡ bytes_at m' off n
bytes_at-shift m m' off zero h = refl
bytes_at-shift m m' off (suc n) h = cc (h off, bytes_at-shift m m' (off + 1) n h)

byte_of-rest : (x : ℕ) (xs : List ℕ) (j : ℕ) → byte_of (x ∷ xs) (j + 1) ≡ byte_of xs j
byte_of-rest x xs j = next (j + 1) (omega arith) ∙ ap (byte_of xs) (omega arith)
  where
    next : (i : ℕ) → 0 < i → byte_of (x ∷ xs) i ≡ byte_of xs (i - 1)
    next i h = ground arith

pub bytes_at-byte_of : (xs : List ℕ) → bytes_at (byte_of xs) 0 (length xs) ≡ xs
bytes_at-byte_of [] = refl
bytes_at-byte_of (x ∷ xs) =
    ap (λ l. x ∷ l) (bytes_at-shift _ _ 0 (length xs) (byte_of-rest x xs) ∙ bytes_at-byte_of xs)
