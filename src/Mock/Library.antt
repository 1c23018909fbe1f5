-- ===== src/Mock/Library.antt =====
-- A C library for tests, which counts the calls of `malloc` and `calloc`.
use fwupd_efi.Base.{ℕ, ◌+◌, ◌*◌, ◌^◌, Option, none, some, ltb, arith, if◌then◌else◌}
use fwupd_efi.Memory.{Buffer}
use fwupd_efi.Harness.{Libc, no_byte}
use fwupd_efi.Harness.Safe.{IsMalloc}
use fwupd_efi.Selftest.Ready.{IsRoomy}

abbrev get_memory : ℕ → ℕ → Option Buffer
get_memory s size =
    if ltb size (2 ^ 63)
    then some (record { addr = 4096 + 256 * s; size = size; byte = no_byte })
    else none

abbrev pub library : Libc
library = record {
  State = ℕ;
  wchar_size = 4;
  malloc = λ s size. (get_memory s size, s + 1);
  calloc = λ s count size. (some (4096 + 256 * s), s + 1);
  free = λ s addr. s;
}

pub library-IsMalloc : IsMalloc library
library-IsMalloc s size b e = (ground arith, ground arith)

pub library-IsRoomy : IsRoomy library
library-IsRoomy = record {
  malloc_size = library-IsMalloc;
  wchar_small = omega arith;
  malloc_some = λ s size h e. ground arith;
  calloc_some = λ s count size h e. ground arith;
}
