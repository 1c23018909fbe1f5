-- ===== src/Variable/Copy.antt =====
-- What `fwup_get_variable` makes of a stored variable: the buffer that it fills is a copy of the data.
use fwupd_efi.Base.{
  ℕ, zero, suc, ◌+◌, ◌≤◌, ◌<◌, ◌≡◌, refl, ap, ◌∙◌, arith, Option, none, some, length,
}
use fwupd_efi.Memory.{Buffer, blit, bytes_at}
use fwupd_efi.Memory.Laws.{blit_inside}
use fwupd_efi.Efi.{Result, ok, err, not_found, out_of_resources}
use fwupd_efi.Firmware.Services.{Services, VariableReply}
use fwupd_efi.Firmware.Store.{Stored, Given}
use fwupd_efi.Variable.{Variable, filled}

-- The result is the stored variable.
pub record IsCopy (v : Stored) (r : Variable) : Type 0 where
  pub buffer : Buffer
  pub in_buffer : r.buf ≡ some buffer
  pub room : r.size ≤ buffer.size
  pub size : r.size ≡ length v.bytes
  pub attrs : r.attrs ≡ v.attrs
  pub bytes : bytes_at buffer.byte 0 r.size ≡ v.bytes

-- `AllocatePool` gives no memory of this size in some state.
abbrev pub CanFail : Services → ℕ → Type 0
CanFail F size = (s : F.State) × ((F.allocate_pool s size).0 ≡ none)

-- What `AllocatePool` gives for a size.
abbrev pub Allocated : Services → ℕ → Option Buffer → Type 0
Allocated F size none = CanFail F size
Allocated F size (some b) = size ≤ b.size

-- Memory from the pool has at least the size that was asked for.
abbrev pub HasRoom : Services → Type 0
HasRoom F =
    (s : F.State) (size : ℕ) (b : Buffer) → (F.allocate_pool s size).0 ≡ some b → size ≤ b.size

-- What `fwup_get_variable` makes of what is stored; memory for the data may run out.
abbrev pub Reads : Services → Option Stored → Result Variable → Type 0
Reads F none (ok r) = ⊥
Reads F none (err rc) = rc ≡ not_found
Reads F (some v) (ok r) = IsCopy v r
Reads F (some v) (err rc) = (rc ≡ out_of_resources) × CanFail F (length v.bytes)

pub bytes_at-ext :
    (m m' : ℕ → ℕ) (off n : ℕ)
    → ((j : ℕ) → off ≤ j → j < off + n → m j ≡ m' j)
    → bytes_at m off n ≡ bytes_at m' off n
bytes_at-ext m m' off zero h = refl
bytes_at-ext m m' off (suc n) h = cc (
  h off (omega arith) (omega arith),
  bytes_at-ext m m' (off + 1) n (λ j a b. h j (omega arith) (omega arith)),
)

bytes_at-blit : (m : ℕ → ℕ) (n : ℕ) (src : ℕ → ℕ) → bytes_at (blit m 0 n src) 0 n ≡ bytes_at src 0 n
bytes_at-blit m n src =
    bytes_at-ext _ _ 0 n λ j a b. blit_inside m 0 n src j a b ∙ ap src (omega arith)

pub filled-IsCopy :
    (F : Services) (v : Stored) (b : Buffer) (r : VariableReply)
    → Given v r
    → length v.bytes ≤ b.size
    → IsCopy v (record { buf = filled F (some b) r.size r.bytes; size = r.size; attrs = r.attrs })
filled-IsCopy F v b r g h = record {
  buffer = record b { byte = blit b.byte 0 r.size r.bytes };
  in_buffer = refl;
  room = omega (arith, g.size, h);
  size = g.size;
  attrs = g.attrs;
  bytes = bytes_at-blit b.byte r.size r.bytes ∙ g.bytes;
}
