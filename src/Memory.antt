-- ===== src/Memory.antt =====
-- Memory that the program reads and writes through pointers: a buffer with its address, its size and
-- its bytes. Reads and writes past the size are faults of the caller (see `Firmware`).
pub mod Laws
use fwupd_efi.Base.{ℕ, ◌+◌, ◌-◌, ◌*◌, ◌/◌, ◌%◌, ◌^◌, Bool, List, [], ◌∷◌, zero, suc}
use fwupd_efi.Base.{ltb, leb, ◌==◌, ◌&&◌, if◌then◌else◌}

pub record Buffer : Type 0 where
  pub addr : ℕ
  pub size : ℕ
  pub byte : ℕ → ℕ

-- One byte written.
abbrev pub poke : (ℕ → ℕ) → ℕ → ℕ → ℕ → ℕ
poke m i v j = if j == i then v else m j

-- `n` bytes of `src` written from `off` on, as `CopyMem` and the firmware's services do.
abbrev pub blit : (ℕ → ℕ) → ℕ → ℕ → (ℕ → ℕ) → ℕ → ℕ
blit m off n src j = if leb off j && ltb j (off + n) then src (j - off) else m j

-- Little-endian fields of packed structures.
abbrev pub get16 : (ℕ → ℕ) → ℕ → ℕ
get16 m i = m i + 256 * m (i + 1)

abbrev pub get32 : (ℕ → ℕ) → ℕ → ℕ
get32 m i = m i + 256 * m (i + 1) + 65536 * m (i + 2) + 16777216 * m (i + 3)

abbrev pub get64 : (ℕ → ℕ) → ℕ → ℕ
get64 m i = get32 m i + 2 ^ 32 * get32 m (i + 4)

-- The bytes of a 32-bit value.
abbrev pub bytes32 : ℕ → ℕ → ℕ
bytes32 v j =
    if j == 0
    then v % 256
    else if j == 1
    then v / 256 % 256
    else if j == 2
    then v / 65536 % 256
    else v / 16777216 % 256

abbrev pub put32 : (ℕ → ℕ) → ℕ → ℕ → ℕ → ℕ
put32 m i v = blit m i 4 (bytes32 v)

-- The list of `n` bytes from `off` on.
abbrev pub bytes_at : (ℕ → ℕ) → ℕ → ℕ → List ℕ
bytes_at m off zero = []
bytes_at m off (suc n) = m off ∷ bytes_at m (off + 1) n

-- The bytes of a list, from its first one on.
abbrev pub byte_of : List ℕ → ℕ → ℕ
byte_of [] j = 0
byte_of (x ∷ xs) j = let rest = byte_of xs (j - 1) in if j == 0 then x else rest
