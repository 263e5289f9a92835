-- ===== src/Examples/Flashing.antt =====
-- The write buffer of target_flash.c at a concrete region.
use blackmagic.Base.{
  ℕ, ◌+◌, ◌<◌, none, some, [], ◌∷◌, Bytes, get_or, replicate, true, false, ◌≡◌, refl, arith,
}
use blackmagic.Flash.{Flash, flash_buffered_flush, flash_buffered_write, uint32_max}
use blackmagic.Flash.{Target}
use blackmagic.Base.{All, length}
use blackmagic.Flash.Routines.{target_flash_complete}
use blackmagic.Flash.Routines.Completion.{Idle, target_flash_complete-Idle}
use blackmagic.Flash.Memory.{Memory, overlay, IsMemory}
use blackmagic.Flash.Buffering.{Outside}
use blackmagic.Flash.Stored.{Fresh, flash_buffered_write-flush}

-- A region with writes of 4 bytes and a buffer of 16 bytes, over a memory.
abbrev region : Flash Memory
region = record {
  start = 0;
  size = 1024;
  blocksize = 256;
  writesize = 4;
  writebufsize = 16;
  erased = 255;
  ready = false;
  prepare = none;
  erase = λ addr len m. (true, overlay addr (replicate len 255) m);
  write = λ addr bytes m. (true, overlay addr bytes m);
  done = none;
  buf = some (replicate 16 0);
  buf_addr_base = uint32_max;
  buf_addr_low = uint32_max;
  buf_addr_high = 0;
}

abbrev erased_memory : Memory
erased_memory a = 255

-- Twenty bytes from address 6 on: two windows of the buffer.
abbrev source : Bytes
source =
    1 ∷ 2 ∷ 3 ∷ 4 ∷ 5 ∷ 6 ∷ 7 ∷ 8 ∷ 9 ∷ 10 ∷ 11 ∷ 12 ∷ 13 ∷ 14 ∷ 15 ∷ 16 ∷ 17 ∷ 18 ∷ 19 ∷ 20 ∷ []

region-IsMemory : IsMemory region
region-IsMemory = record { writes = λ addr bytes m. refl; no_prepare = refl }

region-Fresh : Fresh region
region-Fresh = record {
  small = 2;
  large = 2;
  rest = 28;
  exponents = refl;
  writesize_is = refl;
  writebufsize_is = refl;
  buf = replicate 16 0;
  buf_is = refl;
  base_is = refl;
  low_is = refl;
  high_is = refl;
}

flash_buffered_write-flush_example :
    (f1 f2 : Flash Memory) × (m1 m2 : Memory) × (flash_buffered_write 20 region erased_memory 6
        source true
      ≡ some (true, f1, m1))
    × (flash_buffered_flush f1 m1 ≡ (true, f2, m2))
    × ((j : ℕ) → j < 20 → m2 (6 + j) ≡ get_or source j 0)
    × ((a : ℕ) → Outside 4 6 26 a → m2 a ≡ 255)
flash_buffered_write-flush_example =
    flash_buffered_write-flush region erased_memory 6 source region-IsMemory region-Fresh
      (omega arith)

-- A target in flash mode with a prepared region that has bytes in its buffer.
abbrev written : Flash Memory
written = record region { ready = true; buf_addr_base = 16; buf_addr_low = 17; buf_addr_high = 19 }

abbrev target : Target Memory
target = record {
  flash = region ∷ written ∷ [];
  flash_mode = true;
  enter_flash_mode = none;
  exit_flash_mode = none;
  reset = none;
  malloc = λ n m. (true, m);
  device = erased_memory;
}

target_flash_complete-Idle_example :
    (let t' = (target_flash_complete target).1 in
      (t'.flash_mode ≡ false) × All Idle t'.flash × (length t'.flash ≡ 2))
target_flash_complete-Idle_example = target_flash_complete-Idle target refl
