-- ===== src/Common/Whole.antt =====
-- `fwup_read_file` reads the whole file.
use fwupd_efi.Base.{
  ℕ, zero, suc, ◌-◌, ◌*◌, ◌%◌, ◌^◌, ◌≤◌, ◌<◌, ◌≡◌, ◌∙◌, ap, refl, arith, Bool, true, false, Option,
  none, some, ◌==◌, ltb, ◌&&◌,
}
use fwupd_efi.Memory.{Buffer}
use fwupd_efi.Memory.Laws.{blit_inside}
use fwupd_efi.Efi.{Result, ok, err, efi_error}
use fwupd_efi.Firmware.Services.{Services, AllocateType, PagesReply}
use fwupd_efi.Firmware.Monad.{World, M, pure, on_option, ◌>>=◌}
use fwupd_efi.Firmware.Reaches.{
  Reaches, Reaches-bind, Reaches-pure, Reaches-if, Reaches-given, Reaches-call, Reaches-bounds,
  Reaches-emit, Reaches-from,
}
use fwupd_efi.Firmware.Calls.{allocate_pages, free_pages}
use fwupd_efi.Common.{
  Blocks, done, full, on_blocks, block_size, raw_after, malloc_raw, free_raw, move_blocks,
  read_blocks, read_loop, read_file,
}
use fwupd_efi.Common.File.{IsFile, Holds, ReadTo, contrary, read_blocks-ReadTo}

-- The whole file is in the buffer, and the size that is returned is its own.
abbrev pub IsWhole : (ℕ → ℕ) → ℕ → Result (Buffer × ℕ) → Type 0
IsWhole content len (ok (b, n)) = (n ≡ len) × (len ≤ b.size) × Holds content b len
IsWhole content len (err rc) = ⊥

module _ (F : Services) (fh : ℕ) (pos : F.State → ℕ) (content : ℕ → ℕ) (len : ℕ)
    (file : IsFile F fh pos content len) (short : len < 2 ^ 62) where
  -- The file was read up to `k`.
  abbrev At : ℕ → World F.State → Type 0
  At k w = pos w.fw ≡ k

  -- The pages were allocated.
  allocate-At :
      (type : AllocateType) (n addr k : ℕ)
      → Reaches (At k) (allocate_pages F type n addr) (λ r w. (efi_error r.status ≡ false) × At k w)
  unfolding allocate_pages
  allocate-At type n addr k =
      Reaches-bind {Q = λ r w. (efi_error r.status ≡ false) × At k w} _ _
        (Reaches-call _
          λ w e. (file.pages_ok w.fw type n addr, file.pages_apart w.fw type n addr ∙ e))
        λ r.
          Reaches-given {X = efi_error r.status ≡ false} _ (λ w p. p)
            λ f.
              Reaches-bind {Q = λ _. At k} _ _
                (Reaches-if (efi_error r.status) _ _ (λ _. Reaches-pure tt λ w e. e)
                  (λ _. Reaches-emit _ λ w e. e))
                λ _. Reaches-pure r λ w e. (f, e)

  free_raw-At : (addr n k : ℕ) → Reaches (At k) (free_raw F addr n) (λ _. At k)
  unfolding free_raw free_pages
  free_raw-At addr n k =
      Reaches-bind {Q = λ _. At k} _ _ (Reaches-call _ λ w e. file.freed_apart w.fw addr _ ∙ e)
        λ rc.
          Reaches-bind {Q = λ _. At k} _ _ (Reaches-emit _ λ w e. e) λ _. Reaches-pure rc λ w e. e

  abbrev Sized : ℕ → Option Buffer → Type 0
  Sized size none = ⊥
  Sized size (some b) = b.size ≡ size

  not_narrow : (c : Bool) → (F.pointer_size == 4 && c) ≡ true → ⊥
  not_narrow c h = ground (arith, file.wide)

  raw_after-Sized :
      (size k : ℕ) (r : PagesReply)
      → efi_error r.status ≡ false
      → Reaches (At k) (raw_after F size r) (λ o w. Sized size o × At k w)
  unfolding raw_after
  raw_after-Sized size k r f =
      Reaches-if (efi_error r.status) _ _ (λ t. absurd (contrary t f))
        λ _.
          Reaches-if (F.pointer_size == 4 && ltb 0xffffffff r.memory) _ _
            (λ t. absurd (not_narrow _ t)) (λ _. Reaches-pure (some _) λ w e. (refl, e))

  malloc_raw-Sized :
      (size k : ℕ) → Reaches (At k) (malloc_raw F size) (λ o w. Sized size o × At k w)
  unfolding malloc_raw
  malloc_raw-Sized size k = Reaches-bind _ _ (allocate-At _ _ _ k) λ r.
      Reaches-given {X = efi_error r.status ≡ false} _ (λ w p. p) λ f. raw_after-Sized size k r f

  move_blocks-Holds :
      (buf newb : Buffer) (n k : ℕ)
      → n ≤ newb.size
      → n ≤ buf.size
      → Holds content buf n
      → Reaches
          (At k)
          (move_blocks F (some buf) newb n)
          (λ c w. ((c.size ≡ newb.size) × Holds content c n) × At k w)
  unfolding move_blocks
  move_blocks-Holds buf newb n k h l m =
      Reaches-bind _ _ (Reaches-bounds newb 0 n (omega arith)) λ _.
        Reaches-bind _ _ (Reaches-bounds buf 0 n (omega arith)) λ _.
          Reaches-bind _ _ (free_raw-At buf.addr n k) λ _. Reaches-pure _ λ w e. (
            (
              refl,
              λ j i.
                  blit_inside newb.byte 0 n buf.byte j (omega arith) (omega arith)
                  ∙ ap buf.byte (omega arith)
                  ∙ m j i,
            ),
            e,
          )

  -- What follows the blocks of one buffer: the end, or the next round.
  after_blocks :
      (next : Buffer → M (World F.State) (Result (Buffer × ℕ))) (size n : ℕ) (r : Blocks)
      → ((c : Buffer)
          → (n * block_size ≤ len) × (c.size ≡ size) × Holds content c (n * block_size)
          → Reaches (At (n * block_size)) (next c) (λ a _. IsWhole content len a))
      → Reaches
          (ReadTo F fh pos content len file short size n r)
          (on_blocks r (λ e. pure e) next)
          (λ a _. IsWhole content len a)
  after_blocks next size n (done (ok (c, m))) k =
      Reaches-pure _ λ w p. (p.0, omega (arith, p.1, p.2), p.3)
  after_blocks next size n (done (err rc)) k = Reaches-pure _ λ w p. absurd p
  after_blocks next size n (full c) k =
      Reaches-given
        {X = (n * block_size ≤ len) × (c.size ≡ size) × Holds content c (n * block_size)} _
        (λ w p. ((p.0, p.1, p.2), p.3)) (k c)

  -- The bytes that fit after some more rounds.
  abbrev grow : ℕ → ℕ → ℕ
  grow zero n = n * block_size
  grow (suc fuel) n = grow fuel (n * 2)

  -- The blocks from `i` on, and what follows them.
  blocks-IsWhole :
      (next : Buffer → M (World F.State) (Result (Buffer × ℕ))) (b : Buffer) (n i : ℕ)
      → i ≤ n
      → (i * block_size ≤ len) × (b.size ≡ n * block_size) × Holds content b (i * block_size)
      → ((c : Buffer)
          → (n * block_size ≤ len) × (c.size ≡ n * block_size) × Holds content c (n * block_size)
          → Reaches (At (n * block_size)) (next c) (λ a _. IsWhole content len a))
      → Reaches
          (At (i * block_size))
          (read_blocks F (n - i) fh b n i >>= λ r. on_blocks r (λ e. pure e) next)
          (λ a _. IsWhole content len a)
  blocks-IsWhole next b n i h s k =
      Reaches-bind _ _
        (Reaches-from _ (λ w e. (s.0, s.1, s.2, e))
          (read_blocks-ReadTo F fh pos content len file short (n - i) b (n * block_size) n i
            (omega arith) (omega arith)))
        λ r. after_blocks next (n * block_size) n r k

  double : (n : ℕ) → n * block_size ≤ len → n * block_size * 2 % 2 ^ 64 ≡ n * 2 * block_size
  double n h = omega arith

  -- The pages that were asked for are there.
  with_pages :
      {k size : ℕ} (o : Option Buffer) (m : M (World F.State) (Result (Buffer × ℕ)))
      (f : Buffer → M (World F.State) (Result (Buffer × ℕ)))
      → Sized size o
      → ((b : Buffer) → b.size ≡ size → Reaches (At k) (f b) (λ a _. IsWhole content len a))
      → Reaches (At k) (on_option o m f) (λ a _. IsWhole content len a)
  with_pages none m f z k = absurd z
  with_pages (some b) m f z k = k b z

  more-IsWhole :
      (fuel n : ℕ) (buf : Buffer)
      → len < grow fuel n
      → (n * block_size ≤ len) × (buf.size ≡ n * block_size) × Holds content buf (n * block_size)
      → Reaches
          (At (n * block_size))
          (read_loop F fuel fh (some buf) n n)
          (λ a _. IsWhole content len a)
  unfolding read_loop
  more-IsWhole zero n buf h s = absurd (omega (arith, s.0))
  more-IsWhole (suc fuel) n buf h s = Reaches-bind _ _ (malloc_raw-Sized _ (n * block_size)) λ o.
      Reaches-given {X = Sized (n * block_size * 2 % 2 ^ 64) o} _ (λ w p. p)
        λ z. with_pages o _ _ z λ b e.
          Reaches-bind _ _
            (move_blocks-Holds buf b (block_size * n) (n * block_size) (omega (arith, e, s.0))
              (omega (arith, s.1)) (λ j l. s.2 j (omega arith)))
            λ c.
              Reaches-given {X = (c.size ≡ b.size) × Holds content c (block_size * n)} _ (λ w p. p)
                λ t.
                  blocks-IsWhole _ c (n * 2) n (omega arith)
                    (s.0, omega (arith, t.0, e, double n s.0), λ j l. t.1 j (omega arith))
                    λ d u. more-IsWhole fuel (n * 2) d h u

  -- Over a file of less than 2^62 bytes that is read from its start, on a 64-bit machine that has the
  -- pages, `fwup_read_file` returns without a fault, with the size of the file and a buffer that holds
  -- all its bytes.
  pub read_file-IsWhole : Reaches (At 0) (read_file F fh) (λ a _. IsWhole content len a)
  unfolding read_file read_loop move_blocks
  read_file-IsWhole = Reaches-bind _ _ (malloc_raw-Sized _ 0) λ o.
      Reaches-given {X = Sized (4096 * block_size * 2 % 2 ^ 64) o} _ (λ w p. p)
        λ z. with_pages o _ _ z λ b e.
          Reaches-bind {Q = λ c w. (c ≡ b) × At 0 w} _ _ (Reaches-pure b λ w p. (refl, p)) λ c.
            Reaches-given {X = c ≡ b} _ (λ w p. p)
              λ t.
                blocks-IsWhole _ c (4096 * 2) 0 (omega arith)
                  (omega arith, ap (λ x. x.size) t ∙ e, λ j l. absurd (omega arith))
                  λ d u. more-IsWhole 42 (4096 * 2) d (omega arith) u
