-- ===== src/Capsule/Checksum.antt =====
-- The checksum of the UX capsule header.
use fwupd_efi.Base.{
  ℕ, zero, suc, ◌+◌, ◌%◌, ◌≤◌, ◌<◌, ◌≡◌, ◌≢◌, ◌∙◌, ap, refl, ◌⊎◌, arith, List, [], ◌∷◌,
}
use mathlib.Core.Path.{fun_ext}
use fwupd_efi.Memory.{poke, bytes_at}
use fwupd_efi.Efi.{ux_sizeof, ux_checksum}
use fwupd_efi.Capsule.{update_ux_checksum, checksum_loop}

-- The sum of the bytes of a list.
abbrev pub total : List ℕ → ℕ
total [] = 0
total (b ∷ bs) = b + total bs

-- The loop adds the bytes from `i` on up, modulo 256.
pub checksum_loop-total :
    (n : ℕ) (m : ℕ → ℕ) (i sum : ℕ)
    → checksum_loop n m i sum % 256 ≡ (sum + total (bytes_at m i n)) % 256
unfolding checksum_loop
checksum_loop-total zero m i sum = omega arith
checksum_loop-total (suc n) m i sum =
    omega (arith, checksum_loop-total n m (i + 1) ((sum + m i) % 256))

pub checksum_loop-lt : (n : ℕ) (m : ℕ → ℕ) (i sum : ℕ) → sum < 256 → checksum_loop n m i sum < 256
unfolding checksum_loop
checksum_loop-lt zero m i sum h = h
checksum_loop-lt (suc n) m i sum h = checksum_loop-lt n m (i + 1) ((sum + m i) % 256) (omega arith)

-- A byte before or behind the range does not count.
total-poke :
    (n : ℕ) (m : ℕ → ℕ) (i k v : ℕ)
    → (k < i) ⊎ (i + n ≤ k)
    → total (bytes_at (poke m k v) i n) ≡ total (bytes_at m i n)
total-poke zero m i k v h = refl
total-poke (suc n) m i k v h = ground (arith, total-poke n m (i + 1) k v)

poke-poke : (m : ℕ → ℕ) (k v w : ℕ) → poke (poke m k v) k w ≡ poke m k w
poke-poke m k v w = fun_ext λ j. ground arith

poke-clear : (m : ℕ → ℕ) (k v : ℕ) → poke (poke (poke m k 0) k v) k 0 ≡ poke m k 0
poke-clear m k v = poke-poke (poke m k 0) k v 0 ∙ poke-poke m k 0 0

poke_at : (m : ℕ → ℕ) (k v : ℕ) → poke m k v k ≡ v
poke_at m k v = ground arith

small : {x : ℕ} → x < 256 → x ≡ x % 256
small h = omega arith

-- With the checksum cleared, the header's bytes are the first one and those from the third on.
cleared-total :
    (n : ℕ) (m : ℕ → ℕ) (off : ℕ)
    → total (bytes_at (poke m (off + 1) 0) off (suc (suc n)))
      ≡ m off + total (bytes_at m (off + 2) n)
cleared-total n m off = ground (arith, total-poke n m (off + 1 + 1) (off + 1) 0, shift)
  where
    shift : total (bytes_at m (off + 1 + 1) n) ≡ total (bytes_at m (off + 2) n)
    shift = ap (λ k. total (bytes_at m k n)) (omega arith)

-- `fwup_update_ux_capsule_checksum` writes no byte but the checksum, and the checksum is the sum,
-- modulo 256, of the other fifteen bytes of the header.
pub update_ux_checksum_lem :
    (m : ℕ → ℕ) (off : ℕ)
    → ((j : ℕ) → j ≢ off + ux_checksum → update_ux_checksum m off j ≡ m j)
      × (update_ux_checksum m off (off + ux_checksum)
          ≡ (m off + total (bytes_at m (off + 2) 14)) % 256)
unfolding update_ux_checksum
update_ux_checksum_lem m off = (
  (λ j h. ground arith),
  poke_at (poke m (off + ux_checksum) 0) (off + ux_checksum) _
      ∙ small (checksum_loop-lt ux_sizeof (poke m (off + ux_checksum) 0) off 0 (omega arith))
      ∙ checksum_loop-total ux_sizeof (poke m (off + ux_checksum) 0) off 0
      ∙ ap (λ k. (0 + k) % 256) (cleared-total 14 m off)
      ∙ omega arith,
)

-- Updating the checksum again changes nothing.
pub update_ux_checksum_idem :
    (m : ℕ → ℕ) (off : ℕ)
    → update_ux_checksum (update_ux_checksum m off) off ≡ update_ux_checksum m off
unfolding update_ux_checksum
update_ux_checksum_idem m off =
    ap (λ c. poke c (off + ux_checksum) (checksum_loop ux_sizeof c off 0))
      (poke-clear m (off + ux_checksum)
        (checksum_loop ux_sizeof (poke m (off + ux_checksum) 0) off 0))
