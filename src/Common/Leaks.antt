-- ===== src/Common/Leaks.antt =====
-- The pages that `fwup_read_file` leaves.
use fwupd_efi.Base.{
  ℕ, zero, suc, ◌+◌, ◌-◌, ◌*◌, ◌%◌, ◌^◌, ◌<◌, ◌≡◌, ◌∙◌, ◌⊎◌, inl, inr, refl, arith, Option, none,
  some, List, [], ◌++◌, ◌==◌,
}
use fwupd_efi.Memory.{Buffer}
use fwupd_efi.Efi.{Result, ok, err, efi_error, out_of_resources}
use fwupd_efi.Firmware.Services.{Services}
use fwupd_efi.Firmware.Monad.{World, M, pure, fail, on_option}
use fwupd_efi.Firmware.Keeps.{Keeps-bounds}
use fwupd_efi.Firmware.Leads.{Leads, Leads-bind, Leads-step, Leads-pure, Leads-if, Leads-given}
use fwupd_efi.Firmware.Reaches.{Reaches, Reaches-Leads, Leads-Total}
use fwupd_efi.Firmware.Sound.{Sound}
use fwupd_efi.Firmware.Paged.{Paged, read_call-Paged}
use fwupd_efi.Common.{
  Blocks, done, full, on_blocks, block_size, malloc_raw, read_block, read_blocks, move_blocks,
  read_loop, read_file,
}
use fwupd_efi.Common.Raw.{Allocates, malloc_raw-Allocates}
use fwupd_efi.Common.Total.{IsRead, read_file-IsRead}
use fwupd_efi.Common.Paged.{pages, fwup_log-Paged, malloc_raw-Paged, free_raw-Paged}

-- With success the buffer's pages are live, beside those that were. With an error none is, but that pages of
-- the file's beginning may be where no more could be allocated.
abbrev pub Left : {S : Type 0} → List (ℕ × ℕ) → Result (Buffer × ℕ) → World S → Type 0
Left xs (ok (b, n)) w = Paged (pages (some b) ++ xs) w
Left xs (err rc) w =
    (o : Option Buffer) × ((o ≡ none) ⊎ (rc ≡ out_of_resources)) × Paged (pages o ++ xs) w

abbrev LeftBlocks : {S : Type 0} → List (ℕ × ℕ) → ℕ → Blocks → World S → Type 0
LeftBlocks xs size (done r) w = Left xs r w
LeftBlocks xs size (full b) w = (b.size ≡ size) × Paged (pages (some b) ++ xs) w

module _ (F : Services) where
  module _ (xs : List (ℕ × ℕ)) (fh : ℕ) where
    read_block-LeftBlocks :
        (b : Buffer) (n i : ℕ)
        → b.size ≡ n * block_size
        → Leads
            (Paged (pages (some b) ++ xs))
            (read_block F fh b n i)
            (LeftBlocks xs (n * block_size))
    unfolding read_block
    read_block-LeftBlocks b n i e = Leads-step _ _ (Keeps-bounds _ _ _) λ _.
        Leads-step _ _ (read_call-Paged F _ _) λ r.
          Leads-if (efi_error r.status) _ _
            (λ _. Leads-bind _ _ (free_raw-Paged F [] xs b (block_size * n) (omega (arith, e))) λ _.
              Leads-step _ _ (fwup_log-Paged F _ _ _ _)
                λ _. Leads-pure _ λ w h. (none, inl refl, h))
            λ _.
              Leads-if (r.size == block_size) _ _ (λ _. Leads-pure (full _) λ w h. (e, h))
                (λ _. Leads-pure (done (ok _)) λ w h. h)

    after_block :
        (next : Buffer → M (World F.State) Blocks) (size : ℕ) (r : Blocks)
        → ((c : Buffer)
            → c.size ≡ size
            → Leads (Paged (pages (some c) ++ xs)) (next c) (LeftBlocks xs size))
        → Leads (LeftBlocks xs size r) (on_blocks r (λ e. pure (done e)) next) (LeftBlocks xs size)
    after_block next size (done r) f = Leads-pure (done r) λ w h. h
    after_block next size (full c) f = Leads-given _ λ q. f c q

    read_blocks-LeftBlocks :
        (rounds : ℕ) (b : Buffer) (n i : ℕ)
        → b.size ≡ n * block_size
        → Leads
            (Paged (pages (some b) ++ xs))
            (read_blocks F rounds fh b n i)
            (LeftBlocks xs (n * block_size))
    unfolding read_blocks
    read_blocks-LeftBlocks zero b n i e = Leads-pure (full b) λ w h. (e, h)
    read_blocks-LeftBlocks (suc rounds) b n i e =
        Leads-bind _ _ (read_block-LeftBlocks b n i e)
          λ r. after_block _ (n * block_size) r λ c q. read_blocks-LeftBlocks rounds c n (i + 1) q

    after_blocks :
        (next : Buffer → M (World F.State) (Result (Buffer × ℕ))) (size : ℕ) (r : Blocks)
        → ((c : Buffer) → c.size ≡ size → Leads (Paged (pages (some c) ++ xs)) (next c) (Left xs))
        → Leads (LeftBlocks xs size r) (on_blocks r (λ e. pure e) next) (Left xs)
    after_blocks next size (done r) f = Leads-pure r λ w h. h
    after_blocks next size (full c) f = Leads-given _ λ q. f c q

    move_some :
        (buf newb : Buffer) (n : ℕ)
        → buf.size ≡ n
        → Leads
            (Paged (pages (some newb) ++ (pages (some buf) ++ xs)))
            (move_blocks F (some buf) newb n)
            (λ c w. (c.size ≡ newb.size) × Paged (pages (some c) ++ xs) w)
    unfolding move_blocks
    move_some buf newb n e = Leads-step _ _ (Keeps-bounds _ _ _) λ _.
        Leads-step _ _ (Keeps-bounds _ _ _) λ _.
          Leads-bind _ _ (free_raw-Paged F (pages (some newb)) xs buf n e)
            λ _. Leads-pure _ λ w h. (refl, h)

    doubled : (n : ℕ) → n * block_size < 2 ^ 62 → n * block_size * 2 % 2 ^ 64 ≡ n * 2 * block_size
    doubled n h = omega (arith, h)

    -- Where there is no memory for a larger buffer, the smaller one stays.
    new_pages :
        (next : Buffer → M (World F.State) (Result (Buffer × ℕ))) (buf : Buffer) (o : Option Buffer)
        → ((b : Buffer)
            → o ≡ some b
            → Leads (Paged (pages (some b) ++ (pages (some buf) ++ xs))) (next b) (Left xs))
        → Leads
            (Paged (pages o ++ (pages (some buf) ++ xs)))
            (on_option o (pure (err out_of_resources)) next)
            (Left xs)
    new_pages next buf none f = Leads-pure _ λ w h. (some buf, inr refl, h)
    new_pages next buf (some b) f = f b refl

    first_pages :
        (next : Buffer → M (World F.State) (Result (Buffer × ℕ))) (o : Option Buffer)
        → ((b : Buffer) → o ≡ some b → Leads (Paged (pages (some b) ++ xs)) (next b) (Left xs))
        → Leads (Paged (pages o ++ xs)) (on_option o (pure (err out_of_resources)) next) (Left xs)
    first_pages next none f = Leads-pure _ λ w h. (none, inl refl, h)
    first_pages next (some b) f = f b refl

    module _ (sound : Sound F) where
      malloc-Leads :
          (ys : List (ℕ × ℕ)) (size : ℕ)
          → Leads
              (Paged ys)
              (malloc_raw F size)
              (λ o w. Allocates F size o × Paged (pages o ++ ys) w)
      malloc-Leads ys size =
          Leads-Total _ (malloc_raw-Allocates F sound size) (malloc_raw-Paged F ys size)

      more-Left :
          (fuel n : ℕ) (buf : Buffer)
          → n * block_size < 2 ^ 62
          → buf.size ≡ n * block_size
          → Leads (Paged (pages (some buf) ++ xs)) (read_loop F fuel fh (some buf) n n) (Left xs)
      unfolding read_loop fail
      more-Left zero n buf l e = record { at = λ w h. tt }
      more-Left (suc fuel) n buf l e = Leads-bind _ _ (malloc-Leads _ _) λ o. Leads-given _ λ a.
          new_pages _ buf o λ b q.
            let (r, s) = a b q in
            let d = doubled n l in
            Leads-bind _ _ (move_some buf b (block_size * n) (omega (arith, e))) λ c.
              Leads-given _ λ t.
                Leads-bind _ _ (read_blocks-LeftBlocks (n * 2 - n) c (n * 2) n (t ∙ r ∙ d)) λ v.
                  after_blocks _ (n * 2 * block_size) v
                    λ c2 u. more-Left fuel (n * 2) c2 (omega (arith, s, d)) u

      file-Left : Leads (Paged xs) (read_file F fh) (Left xs)
      unfolding read_file read_loop move_blocks
      file-Left = Leads-bind _ _ (malloc-Leads _ _) λ o. Leads-given _ λ a. first_pages _ o λ b q.
          let (r, s) = a b q in
          Leads-bind {Q = λ c w. (c.size ≡ b.size) × Paged (pages (some c) ++ xs) w} _ _
            (Leads-pure b λ w h. (refl, h))
            λ c. Leads-given _ λ t.
              Leads-bind _ _ (read_blocks-LeftBlocks 8192 c 8192 0 (t ∙ r)) λ v.
                after_blocks _ (8192 * block_size) v λ c2 u. more-Left 42 8192 c2 (omega arith) u

      -- Over sound firmware and from any ranges of pages that are live, `fwup_read_file` returns without a
      -- fault. With success the pages of the buffer are live beside those that were, and none else. With an
      -- error the same pages are live as before, unless memory ran out: then the pages of one more buffer
      -- may be.
      pub read_file-Left : Reaches (Paged xs) (read_file F fh) (λ r w. IsRead r × Left xs r w)
      read_file-Left = Reaches-Leads _ (read_file-IsRead F sound fh) file-Left
