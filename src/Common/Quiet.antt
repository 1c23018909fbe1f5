-- ===== src/Common/Quiet.antt =====
-- The functions of efi/fwup-common.c make no commit.
use fwupd_efi.Base.{ℕ, zero, suc, ◌+◌, ◌*◌, List, Option, none, some}
use fwupd_efi.Memory.{Buffer}
use fwupd_efi.Efi.{Result}
use fwupd_efi.Firmware.Services.{Services, PagesReply}
use fwupd_efi.Firmware.Monad.{Event, M}
use fwupd_efi.Firmware.Keeps.{Keeps, Committed}
use fwupd_efi.Debug.Quiet.{quiet_log}
use fwupd_efi.Common.{
  Blocks, done, full, on_blocks, msleep, malloc0, raw_after, malloc_raw, free_raw, time, read_block,
  read_blocks, move_blocks, read_loop, read_file,
}

module _ {W B : Type 0} {P : W → Type 0} where
  Keeps-on_blocks :
      (r : Blocks) (g : Result (Buffer × ℕ) → M W B) (f : Buffer → M W B)
      → ((e : Result (Buffer × ℕ)) → Keeps P (g e))
      → ((b : Buffer) → Keeps P (f b))
      → Keeps P (on_blocks r g f)
  Keeps-on_blocks (done e) g f k l = k e
  Keeps-on_blocks (full b) g f k l = l b

module _ (F : Services) {t : List Event} where
  pub msleep-Quiet : (msecs : ℕ) → Keeps (Committed t) (msleep F msecs)
  unfolding msleep
  msleep-Quiet msecs = search quiet_log depth 10

  pub malloc0-Quiet : (size : ℕ) → Keeps (Committed t) (malloc0 F size)
  unfolding malloc0
  malloc0-Quiet size = search quiet_log depth 10

  raw_after-Quiet : (size : ℕ) (r : PagesReply) → Keeps (Committed t) (raw_after F size r)
  unfolding raw_after
  raw_after-Quiet size r = search quiet_log depth 10

  pub malloc_raw-Quiet : (size : ℕ) → Keeps (Committed t) (malloc_raw F size)
  unfolding malloc_raw
  malloc_raw-Quiet size = search (quiet_log, raw_after-Quiet) depth 10

  pub free_raw-Quiet : (addr : ℕ) (size : ℕ) → Keeps (Committed t) (free_raw F addr size)
  unfolding free_raw
  free_raw-Quiet addr size = search quiet_log depth 10

  pub time-Quiet : (b : Buffer) (off : ℕ) → Keeps (Committed t) (time F b off)
  unfolding time
  time-Quiet b off = search quiet_log depth 10

  read_block-Quiet :
      (fh : ℕ) (buf : Buffer) (n_blocks : ℕ) (i : ℕ)
      → Keeps (Committed t) (read_block F fh buf n_blocks i)
  unfolding read_block
  read_block-Quiet fh buf n_blocks i = search (quiet_log, free_raw-Quiet) depth 10

  read_blocks-Quiet :
      (rounds : ℕ) (fh : ℕ) (buf : Buffer) (n_blocks : ℕ) (i : ℕ)
      → Keeps (Committed t) (read_blocks F rounds fh buf n_blocks i)
  unfolding read_blocks
  read_blocks-Quiet zero fh buf n_blocks i = search quiet_log depth 10
  read_blocks-Quiet (suc rounds) fh buf n_blocks i =
      search
        (
          quiet_log,
          read_block-Quiet,
          Keeps-on_blocks,
          λ (b : Buffer). read_blocks-Quiet rounds fh b n_blocks (i + 1),
        )
        depth 10

  move_blocks-Quiet :
      (buf : Option Buffer) (newb : Buffer) (n : ℕ) → Keeps (Committed t) (move_blocks F buf newb n)
  unfolding move_blocks
  move_blocks-Quiet none newb n = search quiet_log depth 10
  move_blocks-Quiet (some buf) newb n = search (quiet_log, free_raw-Quiet) depth 10

  read_loop-Quiet :
      (fuel : ℕ) (fh : ℕ) (buf : Option Buffer) (n_blocks : ℕ) (i : ℕ)
      → Keeps (Committed t) (read_loop F fuel fh buf n_blocks i)
  unfolding read_loop
  read_loop-Quiet zero fh buf n_blocks i = search quiet_log depth 10
  read_loop-Quiet (suc fuel) fh buf n_blocks i =
      search
        (
          quiet_log,
          malloc_raw-Quiet,
          read_blocks-Quiet,
          move_blocks-Quiet,
          Keeps-on_blocks,
          λ (b : Buffer). read_loop-Quiet fuel fh (some b) (n_blocks * 2) (n_blocks * 2),
        )
        depth 10

  pub read_file-Quiet : (fh : ℕ) → Keeps (Committed t) (read_file F fh)
  unfolding read_file
  read_file-Quiet fh = search (quiet_log, read_loop-Quiet) depth 10
