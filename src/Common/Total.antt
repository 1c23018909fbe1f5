-- ===== src/Common/Total.antt =====
-- `fwup_read_file` over sound firmware.
use fwupd_efi.Base.{
  ℕ, zero, suc, ◌+◌, ◌-◌, ◌*◌, ◌%◌, ◌^◌, ◌≤◌, ◌<◌, ◌≡◌, ◌∙◌, ◌⊎◌, inl, inr, ap, sym, refl, arith,
  true, false, some, ◌==◌,
}
use mathlib.Core.Path.{subst}
use fwupd_efi.Memory.{Buffer, blit}
use fwupd_efi.Memory.Laws.{blit_inside, blit_outside}
use fwupd_efi.Efi.{Result, ok, err, efi_error, out_of_resources-efi_error}
use fwupd_efi.Firmware.Services.{Services, FileReply}
use fwupd_efi.Firmware.Monad.{World, M, ◌>>=◌, pure}
use fwupd_efi.Firmware.Calls.{read_call}
use fwupd_efi.Firmware.Total.{
  Total, Any, Total-bind, Total-pure, Total-if, Total-on_option, Total-bounds, Total-call,
}
use fwupd_efi.Firmware.Sound.{Sound}
use fwupd_efi.Debug.Total.{fwup_log-Safe}
use fwupd_efi.Common.Raw.{free_raw-Safe, malloc_raw-Allocates}
use fwupd_efi.Common.{
  Blocks, done, full, on_blocks, block_size, read_block, read_blocks, move_blocks, read_loop,
  read_file,
}

-- The first `n` places of the buffer hold bytes.
abbrev pub HasBytes : Buffer → ℕ → Type 0
HasBytes b n = (j : ℕ) → j < n → b.byte j < 256

-- The size that is returned lies within the buffer, which holds bytes up to there.
abbrev pub IsRead : Result (Buffer × ℕ) → Type 0
IsRead (ok (b, n)) = (n ≤ b.size) × HasBytes b n
IsRead (err rc) = efi_error rc ≡ true

-- The blocks before `i` were read, or the reading is over.
abbrev ReadTo : ℕ → ℕ → Blocks → Type 0
ReadTo size i (full b) = (b.size ≡ size) × HasBytes b (i * block_size)
ReadTo size i (done r) = IsRead r

HasBytes-blit :
    (b : Buffer) (i n : ℕ) (src : ℕ → ℕ)
    → HasBytes b i
    → ((j : ℕ) → j < n → src j < 256)
    → HasBytes (record b { byte = blit b.byte i n src }) (i + n)
HasBytes-blit b i n src h k j l = elim (split j i) [
  | inl m ↦ subst (λ v. v < 256) (sym (blit_outside b.byte i n src j (inl m))) (h j m)
  | inr m ↦
      subst (λ v. v < 256) (sym (blit_inside b.byte i n src j m l))
        (k (j - i) (omega (arith, m, l)))
]
  where
    split : (a b : ℕ) → (a < b) ⊎ (b ≤ a)
    split a b = omega arith

module _ (F : Services) where
  module _ (sound : Sound F) where
    -- What `Read` gives of one block.
    abbrev IsBlock : FileReply → Type 0
    IsBlock r =
        efi_error r.status ≡ false
        → (r.size ≤ block_size) × ((j : ℕ) → j < r.size → r.bytes j < 256)

    read_call-IsBlock : (fh : ℕ) → Total Any (read_call F fh block_size) IsBlock
    unfolding read_call
    read_call-IsBlock fh =
        Total-call _ λ s f. (sound.read_fits s fh block_size f, sound.read_bytes s fh block_size f)

    module _ (fh : ℕ) where
      read_block-ReadTo :
          (b : Buffer) (n i : ℕ)
          → i * block_size + block_size ≤ b.size
          → HasBytes b (i * block_size)
          → Total Any (read_block F fh b n i) (ReadTo b.size (i + 1))
      unfolding read_block
      read_block-ReadTo b n i h k =
          Total-bind _ _ (Total-bounds b (i * block_size) block_size (omega (arith, h))) λ _ _.
            Total-bind _ _ (read_call-IsBlock fh) λ r q.
              Total-if (efi_error r.status) _ _
                (λ t. Total-bind _ _ (free_raw-Safe F _ _) λ _ _.
                  Total-bind _ _ (fwup_log-Safe F _ _ _ _)
                    λ _ _. Total-pure (done (err r.status)) t)
                λ f.
                  let (l, m) = q f in
                  let bytes = HasBytes-blit b (i * block_size) r.size r.bytes k m in
                  Total-if (r.size == block_size) _ _
                    (λ e. Total-pure (full _) (refl, λ j x. bytes j (ground (arith, x, e))))
                    (λ e.
                      Total-pure (done (ok _))
                        (omega (arith, h, l), λ j x. bytes j (omega (arith, x))))

      after_block :
          (next : Buffer → M (World F.State) Blocks) (old size i k : ℕ) (r : Blocks)
          → ReadTo old i r
          → ((c : Buffer)
              → c.size ≡ old
              → HasBytes c (i * block_size)
              → Total Any (next c) (ReadTo size k))
          → Total Any (on_blocks r (λ e. pure (done e)) next) (ReadTo size k)
      after_block next old size i k (done r) q f = Total-pure (done r) q
      after_block next old size i k (full c) (l, m) f = f c l m

      after_blocks :
          (next : Buffer → M (World F.State) (Result (Buffer × ℕ))) (size i : ℕ) (r : Blocks)
          → ReadTo size i r
          → ((c : Buffer) → c.size ≡ size → HasBytes c (i * block_size) → Total Any (next c) IsRead)
          → Total Any (on_blocks r (λ e. pure e) next) IsRead
      after_blocks next size i (done r) q f = Total-pure r q
      after_blocks next size i (full c) (l, m) f = f c l m

      read_blocks-ReadTo :
          (rounds : ℕ) (b : Buffer) (size n i : ℕ)
          → b.size ≡ size
          → (i + rounds) * block_size ≤ size
          → HasBytes b (i * block_size)
          → Total Any (read_blocks F rounds fh b n i) (ReadTo size (i + rounds))
      unfolding read_blocks
      read_blocks-ReadTo zero b size n i e h k =
          Total-pure (full b) (e, λ j x. k j (omega (arith, x)))
      read_blocks-ReadTo (suc rounds) b size n i e h k =
          Total-bind _ _ (read_block-ReadTo b n i (omega (arith, h, e)) k) λ r q.
            after_block _ b.size size (i + 1) (i + suc rounds) r q λ c l m.
              subst (λ k. Total Any (read_blocks F rounds fh c n (i + 1)) (ReadTo size k))
                (omega arith)
                (read_blocks-ReadTo rounds c size n (i + 1) (l ∙ e) (omega (arith, h)) m)

      -- The bytes that fit after some more rounds.
      abbrev grow : ℕ → ℕ → ℕ
      grow zero n = n * block_size
      grow (suc fuel) n = grow fuel (n * 2)

      move_some :
          (buf newb : Buffer) (n : ℕ)
          → n ≤ newb.size
          → n ≤ buf.size
          → HasBytes buf n
          → Total Any (move_blocks F (some buf) newb n) (λ c. (c.size ≡ newb.size) × HasBytes c n)
      unfolding move_blocks
      move_some buf newb n h k m = Total-bind _ _ (Total-bounds newb 0 n (omega (arith, h))) λ _ _.
          Total-bind _ _ (Total-bounds buf 0 n (omega (arith, k))) λ _ _.
            Total-bind _ _ (free_raw-Safe F buf.addr n) λ _ _. Total-pure _ (
              refl,
              λ j l.
                  HasBytes-blit newb 0 n buf.byte (λ i x. absurd (omega (arith, x))) m j
                    (omega (arith, l)),
            )

      -- The blocks from `i` on, and what follows them.
      filled-IsRead :
          (next : Buffer → M (World F.State) (Result (Buffer × ℕ))) (b : Buffer) (n i : ℕ)
          → i ≤ n
          → b.size ≡ n * block_size
          → HasBytes b (i * block_size)
          → ((c : Buffer)
              → c.size ≡ n * block_size
              → HasBytes c (n * block_size)
              → Total Any (next c) IsRead)
          → Total Any
              (read_blocks F (n - i) fh b n i >>= λ r. on_blocks r (λ e. pure e) next)
              IsRead
      filled-IsRead next b n i h e m k =
          Total-bind _ _ (read_blocks-ReadTo (n - i) b (n * block_size) n i e (omega (arith, h)) m)
            λ r q.
              after_blocks next (n * block_size) n r
                (subst (λ x. ReadTo (n * block_size) x r) (omega (arith, h)) q) k

      doubled : (n : ℕ) → n * block_size < 2 ^ 62 → n * block_size * 2 % 2 ^ 64 ≡ n * 2 * block_size
      doubled n h = omega (arith, h)

      more-IsRead :
          (fuel n : ℕ) (buf : Buffer)
          → 2 ^ 62 ≤ grow fuel n
          → n * block_size < 2 ^ 62
          → buf.size ≡ n * block_size
          → HasBytes buf (n * block_size)
          → Total Any (read_loop F fuel fh (some buf) n n) IsRead
      unfolding read_loop
      more-IsRead zero n buf g l e m = absurd (omega (arith, g, l))
      more-IsRead (suc fuel) n buf g l e m = Total-bind _ _ (malloc_raw-Allocates F sound _) λ o a.
          Total-on_option o _ _ (λ _. Total-pure _ out_of_resources-efi_error)
            λ b q.
              let (r, s) = a b q in
              let d = doubled n l in
              Total-bind _ _
                (move_some buf b (block_size * n) (omega (arith, r, d)) (omega (arith, e))
                  (λ j x. m j (omega (arith, x))))
                λ c (t, u).
                  filled-IsRead _ c (n * 2) n (omega arith) (t ∙ r ∙ d)
                    (λ j x. u j (omega (arith, x)))
                    λ c2 v w. more-IsRead fuel (n * 2) c2 g (omega (arith, s, d)) v w

      -- Over sound firmware `fwup_read_file` returns without a fault, and the size that it reports lies
      -- within the buffer, which holds bytes up to there.
      pub read_file-IsRead : Total Any (read_file F fh) IsRead
      unfolding read_file read_loop move_blocks
      read_file-IsRead = Total-bind _ _ (malloc_raw-Allocates F sound _) λ o a.
          Total-on_option o _ _ (λ _. Total-pure _ out_of_resources-efi_error)
            λ b q.
              let (r, s) = a b q in
              Total-bind {Q = λ c. c ≡ b} _ _ (Total-pure b refl) λ c t.
                filled-IsRead _ c 8192 0 (omega arith) (ap (λ x. x.size) t ∙ r)
                  (λ j x. absurd (omega (arith, x)))
                  λ c2 v w. more-IsRead 42 8192 c2 (omega arith) (omega arith) v w
