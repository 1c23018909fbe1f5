-- ===== src/Common.antt =====
-- efi/fwup-common.c: waiting, pool and page memory, the time, and reading a whole file.
pub mod Quiet
pub mod Pages
pub mod File
pub mod Whole
pub mod Raw
pub mod Total
pub mod Paged
pub mod Leaks
use fwupd_efi.Base.{ℕ, zero, suc, ◌+◌, ◌-◌, ◌*◌, ◌/◌, ◌%◌, ◌^◌, Bool, true, false, ◌&&◌}
use fwupd_efi.Base.{List, [], ◌∷◌, Option, none, some, String, ◌==◌, ltb, if◌then◌else◌}
use fwupd_efi.Memory.{Buffer, blit}
use fwupd_efi.Efi.{Result, ok, err, efi_error, out_of_resources}
use fwupd_efi.Firmware.Services.{Services, Arg, num, any_pages, max_address, PagesReply, FileReply}
use fwupd_efi.Firmware.Services.{TimeReply}
use fwupd_efi.Firmware.Monad.{M, pure, on_option, on_result, fail, bounds, no_fuel, ◌>>=◌, ◌>>◌}
use fwupd_efi.Firmware.Calls.{
  W, stall, allocate_pages, free_pages, allocate_zero_pool, get_time, read_call,
}
use fwupd_efi.Variable.{warning}
use fwupd_efi.Debug.{fwup_log}

-- The pages that hold `size` bytes.
unfoldable pub page_count : ℕ → ℕ
page_count size = size / 4096 + (if size % 4096 == 0 then 0 else 1)

abbrev pub block_size : ℕ
block_size = 512

-- Where the reading of blocks stops.
pub data Blocks : Type 0 where
  done : Result (Buffer × ℕ) → Blocks
  full : Buffer → Blocks

abbrev pub on_blocks :
    {W B : Type 0} → Blocks → (Result (Buffer × ℕ) → M W B) → (Buffer → M W B) → M W B
on_blocks (done e) g f = g e
on_blocks (full b) g f = f b

module _ (F : Services) where
  -- `fwup_msleep`
  unfoldable pub msleep : ℕ → M (W F) (Unit {0})
  msleep msecs = stall F msecs

  -- `fwup_malloc0`
  unfoldable pub malloc0 : ℕ → M (W F) (Option Buffer)
  malloc0 size = do
    addr ← allocate_zero_pool F size
    on_option addr
        (do fwup_log F warning "fwup_malloc0" "Could not allocate %d" (num size ∷ []); pure none)
        (λ b. pure (some b))

  -- `fwup_malloc_raw` after `AllocatePages`
  unfoldable pub raw_after : ℕ → PagesReply → M (W F) (Option Buffer)
  raw_after size r =
      if efi_error r.status
      then (do
        fwup_log F warning "fwup_malloc_raw" "Could not allocate %d" (num size ∷ [])
        pure none)
      else (if F.pointer_size == 4 && ltb 0xffffffff r.memory
          then (do
            _ ← free_pages F r.memory (page_count size)
            fwup_log F warning "fwup_malloc_raw" "Got bad allocation at 0x%016x" (num r.memory ∷ [])
            pure none)
          else pure (some (record { addr = r.memory; size = size; byte = r.byte })))

  -- `fwup_malloc_raw`
  unfoldable pub malloc_raw : ℕ → M (W F) (Option Buffer)
  malloc_raw size = do
    let narrow = F.pointer_size == 4
    r ←
        allocate_pages F (if narrow then max_address else any_pages) (page_count size)
          (if narrow then 0xffffffff - 8192 else 0)
    raw_after size r

  -- `fwup_free_raw`
  unfoldable pub free_raw : ℕ → ℕ → M (W F) ℕ
  free_raw addr size = free_pages F addr (page_count size)

  -- `fwup_time`: the time goes to sixteen bytes of the buffer.
  unfoldable pub time : Buffer → ℕ → M (W F) Buffer
  time b off = do
    bounds b off 16
    r ← get_time F
    pure (record b { byte = if efi_error r.status then b.byte else blit b.byte off 16 r.time })

  -- One `Read` of a block into `buf[i * bs]`, and the tests of its reply.
  unfoldable pub read_block : ℕ → Buffer → ℕ → ℕ → M (W F) Blocks
  read_block fh buf n_blocks i = do
    bounds buf (i * block_size) block_size
    r ← read_call F fh block_size
    if efi_error r.status
        then (do
          _ ← free_raw buf.addr (block_size * n_blocks)
          fwup_log F warning "fwup_read_file" "Could not read file: %r" (num r.status ∷ [])
          pure (done (err r.status)))
        else (let filled = record buf { byte = blit buf.byte (i * block_size) r.size r.bytes } in
            if r.size == block_size
            then pure (full filled)
            else pure (done (ok (filled, (block_size * i + r.size) % 2 ^ 64))))

  -- `for (; i < n_blocks; i++)`, with the number of rounds that are left.
  unfoldable pub read_blocks : ℕ → ℕ → Buffer → ℕ → ℕ → M (W F) Blocks
  read_blocks zero fh buf n_blocks i = pure (full buf)
  read_blocks (suc rounds) fh buf n_blocks i = do
    r ← read_block fh buf n_blocks i
    on_blocks r (λ e. pure (done e)) (λ b. read_blocks rounds fh b n_blocks (i + 1))

  -- The old blocks are copied to the new pages and freed.
  unfoldable pub move_blocks : Option Buffer → Buffer → ℕ → M (W F) Buffer
  move_blocks none newb n = pure newb
  move_blocks (some buf) newb n = do
    bounds newb 0 n
    bounds buf 0 n
    _ ← free_raw buf.addr n
    pure (record newb { byte = blit newb.byte 0 n buf.byte })

  -- The outer loop, in which the buffer doubles. `i` is a number of blocks at its head.
  unfoldable pub read_loop : ℕ → ℕ → Option Buffer → ℕ → ℕ → M (W F) (Result (Buffer × ℕ))
  read_loop zero fh buf n_blocks i = fail no_fuel
  read_loop (suc fuel) fh buf n_blocks i = do
    newb ← malloc_raw (n_blocks * block_size * 2 % 2 ^ 64)
    on_option newb (pure (err out_of_resources)) (λ b. do
      moved ← move_blocks buf b (block_size * n_blocks)
      r ← read_blocks (n_blocks * 2 - i) fh moved (n_blocks * 2) i
      on_blocks r (λ e. pure e) (λ b'. read_loop fuel fh (some b') (n_blocks * 2) (n_blocks * 2)))

  -- `fwup_read_file`. The buffer's size would not fit 64 bits after 43 rounds.
  unfoldable pub read_file : ℕ → M (W F) (Result (Buffer × ℕ))
  read_file fh = read_loop 43 fh none 4096 0
