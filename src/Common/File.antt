-- ===== src/Common/File.antt =====
-- `fwup_read_file` over services that read a file: what one block and the blocks of one buffer read.
use fwupd_efi.Base.{
  ℕ, zero, suc, ◌+◌, ◌-◌, ◌*◌, ◌%◌, ◌^◌, ◌≤◌, ◌<◌, ◌≡◌, ◌⊎◌, inl, inr, ◌∙◌, ap, arith, Bool, true,
  false, ◌==◌,
}
use mathlib.Core.Path.{subst}
use fwupd_efi.Memory.{Buffer, blit}
use fwupd_efi.Memory.Laws.{blit_inside, blit_outside}
use fwupd_efi.Efi.{ok, err, efi_error}
use fwupd_efi.Firmware.Services.{Services, AllocateType, FileReply}
use fwupd_efi.Firmware.Monad.{World, M, pure}
use fwupd_efi.Firmware.Reaches.{
  Reaches, Reaches-bind, Reaches-pure, Reaches-if, Reaches-given, Reaches-call, Reaches-bounds,
}
use fwupd_efi.Firmware.Calls.{read_call}
use fwupd_efi.Common.{Blocks, done, full, on_blocks, block_size, read_block, read_blocks}

-- The file `fh` has `len` bytes, and `pos` says how far it was read: a `Read` gets the bytes that were
-- asked for, or those that are left. Pages can be allocated, and handling them does not touch the file.
pub record IsFile (F : Services) (fh : ℕ) (pos : F.State → ℕ) (content : ℕ → ℕ) (len : ℕ)
    : Type 0 where
  pub wide : F.pointer_size ≡ 8
  pub read_ok : (s : F.State) (n : ℕ) → efi_error (F.read s fh n).0.status ≡ false
  pub read_all : (s : F.State) (n : ℕ) → pos s + n ≤ len → (F.read s fh n).0.size ≡ n
  pub read_rest : (s : F.State) (n : ℕ) → len < pos s + n → (F.read s fh n).0.size ≡ len - pos s
  pub read_bytes :
      (s : F.State) (n j : ℕ)
      → j < (F.read s fh n).0.size
      → (F.read s fh n).0.bytes j ≡ content (pos s + j)
  pub read_on : (s : F.State) (n : ℕ) → pos (F.read s fh n).1 ≡ pos s + (F.read s fh n).0.size
  pub pages_ok :
      (s : F.State) (type : AllocateType) (n addr : ℕ)
      → efi_error (F.allocate_pages s type n addr).0.status ≡ false
  pub pages_apart :
      (s : F.State) (type : AllocateType) (n addr : ℕ)
      → pos (F.allocate_pages s type n addr).1 ≡ pos s
  pub freed_apart : (s : F.State) (addr n : ℕ) → pos (F.free_pages s addr n).1 ≡ pos s

-- The first `n` bytes of the buffer are those of the file.
abbrev pub Holds : (ℕ → ℕ) → Buffer → ℕ → Type 0
Holds content b n = (j : ℕ) → j < n → b.byte j ≡ content j

pub contrary : {c : Bool} → c ≡ true → c ≡ false → ⊥
contrary t f = cc

module _ (F : Services) (fh : ℕ) (pos : F.State → ℕ) (content : ℕ → ℕ) (len : ℕ)
    (file : IsFile F fh pos content len) (short : len < 2 ^ 62) where
  -- After `i` whole blocks, or at the end of the file, in a buffer of `size` bytes.
  abbrev pub ReadTo : ℕ → ℕ → Blocks → World F.State → Type 0
  ReadTo size i (full b) w =
      (i * block_size ≤ len)
      × (b.size ≡ size)
      × Holds content b (i * block_size)
      × (pos w.fw ≡ i * block_size)
  ReadTo size i (done (ok (b, n))) w =
      (n ≡ len) × (len ≤ size) × (b.size ≡ size) × Holds content b len
  ReadTo size i (done (err rc)) w = ⊥

  -- What a `Read` of one block at block `i` replies.
  record BlockReply (i : ℕ) (r : FileReply) : Type 0 where
    no_error : efi_error r.status ≡ false
    sized :
        ((i * block_size + block_size ≤ len) × (r.size ≡ block_size))
        ⊎ ((len < i * block_size + block_size) × (r.size ≡ len - i * block_size))
    copied : (j : ℕ) → j < r.size → r.bytes j ≡ content (i * block_size + j)

  read-BlockReply :
      (i : ℕ)
      → Reaches
          (λ w. pos w.fw ≡ i * block_size)
          (read_call F fh block_size)
          (λ r w. BlockReply i r × (pos w.fw ≡ i * block_size + r.size))
  unfolding read_call
  read-BlockReply i = Reaches-call _ λ w e. (
    record {
      no_error = file.read_ok w.fw block_size;
      sized = elim (le_or_lt (i * block_size + block_size) len) [
        | inl h ↦ inl (h, file.read_all w.fw block_size (omega arith))
        | inr h ↦ inr (h, omega (arith, file.read_rest w.fw block_size (omega arith)))
      ];
      copied = λ j h. file.read_bytes w.fw block_size j h ∙ ap (λ p. content (p + j)) e;
    },
    omega (arith, file.read_on w.fw block_size),
  )
    where
      le_or_lt : (a b : ℕ) → (a ≤ b) ⊎ (b < a)
      le_or_lt a b = omega arith

  -- The block that was read, behind those that were there.
  Holds-blit :
      (b : Buffer) (i n : ℕ) (src : ℕ → ℕ)
      → Holds content b i
      → ((j : ℕ) → j < n → src j ≡ content (i + j))
      → Holds content (record b { byte = blit b.byte i n src }) (i + n)
  Holds-blit b i n src h k j l = elim (split j i) [
    | inl m ↦ blit_outside b.byte i n src j (inl m) ∙ h j m
    | inr m ↦ blit_inside b.byte i n src j m l ∙ k (j - i) (omega arith) ∙ ap content (omega arith)
  ]
    where
      split : (a b : ℕ) → (a < b) ⊎ (b ≤ a)
      split a b = omega arith

  -- The buffer with the block that was read at block `i`.
  abbrev grown : Buffer → ℕ → FileReply → Buffer
  grown b i r = record b { byte = blit b.byte (i * block_size) r.size r.bytes }

  whole_block :
      (b : Buffer) (size i : ℕ) (r : FileReply) (w : World F.State)
      → b.size ≡ size
      → Holds content b (i * block_size)
      → BlockReply i r
      → (r.size == block_size) ≡ true
      → pos w.fw ≡ i * block_size + r.size
      → ReadTo size (i + 1) (full (grown b i r)) w
  whole_block b size i r w q k a t e = (
    whole_fits a.sized,
    q,
    (λ j l. Holds-blit b _ r.size r.bytes k a.copied j (ground arith)),
    ground arith,
  )
    where
      whole_fits :
          ((i * block_size + block_size ≤ len) × (r.size ≡ block_size))
            ⊎ ((len < i * block_size + block_size) × (r.size ≡ len - i * block_size))
          → (i + 1) * block_size ≤ len
      whole_fits (inl h) = omega arith
      whole_fits (inr h) = ground arith

  last_block :
      (b : Buffer) (size i : ℕ) (r : FileReply) (w : World F.State)
      → i * block_size ≤ len
      → i * block_size + block_size ≤ size
      → b.size ≡ size
      → Holds content b (i * block_size)
      → BlockReply i r
      → (r.size == block_size) ≡ false
      → ReadTo size (i + 1) (done (ok (grown b i r, (block_size * i + r.size) % 2 ^ 64))) w
  last_block b size i r w l m q k a t = elim a.sized [
    | inl h ↦ absurd (ground arith)
    | inr h ↦ (
      omega arith,
      omega arith,
      q,
      λ j n. Holds-blit b _ r.size r.bytes k a.copied j (omega arith),
    )
  ]

  abbrev Started : Buffer → ℕ → ℕ → Type 0
  Started b size i = (i * block_size ≤ len) × (b.size ≡ size) × Holds content b (i * block_size)

  read_block-ReadTo :
      (b : Buffer) (size n i : ℕ)
      → i * block_size + block_size ≤ size
      → Reaches (ReadTo size i (full b)) (read_block F fh b n i) (ReadTo size (i + 1))
  unfolding read_block
  read_block-ReadTo b size n i h =
      Reaches-given {X = Started b size i} _ (λ w p. ((p.0, p.1, p.2), p.3))
        λ x.
          Reaches-bind _ _ (Reaches-bounds b (i * block_size) block_size (omega (arith, x.1))) λ _.
            Reaches-bind _ _ (read-BlockReply i) λ r.
              Reaches-given _ (λ w p. p)
                λ a.
                  Reaches-if (efi_error r.status) _ _ (λ t. absurd (contrary t a.no_error))
                    λ _.
                      Reaches-if (r.size == block_size) _ _
                        (λ t. Reaches-pure _ λ w e. whole_block b size i r w x.1 x.2 a t e)
                        (λ t. Reaches-pure _ λ w e. last_block b size i r w x.0 h x.1 x.2 a t)

  -- The rest of the blocks after one.
  next_blocks :
      (rest : Buffer → M (World F.State) Blocks) (size n i : ℕ) (r : Blocks)
      → ((c : Buffer) → Reaches (ReadTo size i (full c)) (rest c) (ReadTo size n))
      → Reaches (ReadTo size i r) (on_blocks r (λ e. pure (done e)) rest) (ReadTo size n)
  next_blocks rest size n i (done (ok (c, m))) k = Reaches-pure _ λ w p. p
  next_blocks rest size n i (done (err rc)) k = Reaches-pure _ λ w p. absurd p
  next_blocks rest size n i (full c) k = k c

  pub read_blocks-ReadTo :
      (rounds : ℕ) (b : Buffer) (size n i : ℕ)
      → i + rounds ≡ n
      → n * block_size ≤ size
      → Reaches (ReadTo size i (full b)) (read_blocks F rounds fh b n i) (ReadTo size n)
  unfolding read_blocks
  read_blocks-ReadTo zero b size n i h k =
      Reaches-pure _ λ w p. subst (λ m. ReadTo size m (full b) w) (omega arith) p
  read_blocks-ReadTo (suc rounds) b size n i h k =
      Reaches-bind _ _ (read_block-ReadTo b size n i (omega arith)) λ r.
        next_blocks _ size n (i + 1) r
          λ c. read_blocks-ReadTo rounds c size n (i + 1) (omega arith) k
