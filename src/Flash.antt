-- ===== src/Flash.antt =====
-- target_flash.c: buffered erasing and programming of the flash regions of a target.
-- A region is a `target_flash_s`; the functions that its driver supplies act on the device, whose
-- state is a type `D`, and a function pointer that may be NULL is an option. The pointers
-- `target_flash_s *` are positions in the target's list. The debug messages are left out.
pub mod Routines
pub mod Memory
pub mod Programming
pub mod Buffering
pub mod Delivery
pub mod Stored
use blackmagic.Base.{
  ℕ, zero, suc, ◌+◌, ◌-◌, ◌*◌, ◌/◌, ◌%◌, ◌^◌, ◌<◌, ◌≤◌, min, max, bit_and, bit_or, bit_xor, Option,
  none, some, List, [], ◌∷◌, ◌++◌, map, append-nil, append_assoc, Bytes, length, get_elem?, get_or,
  set, take, drop, replicate, All, subst, Bool, true, false, not, ◌&&◌, ◌||◌, ltb, leb, ◌==◌,
  if◌then◌else◌, ◌≡◌, ◌≢◌, refl, sym, ap, ◌∙◌, arith, ◌⊎◌, inl, inr, Bool-cases, Option-cases,
}
use blackmagic.Base.{write_at}
use blackmagic.Base.Words.{u32, align_down}

-- What a driver function answers, with the device after the call.
abbrev pub Call : Type 0 → Type 0
Call D = D → Bool × D

-- `target_flash_s`; `buf` is `none` for a NULL pointer.
pub record Flash (D : Type 0) : Type 0 where
  pub start : ℕ
  pub size : ℕ
  pub blocksize : ℕ
  pub writesize : ℕ
  pub writebufsize : ℕ
  pub erased : ℕ
  pub ready : Bool
  pub prepare : Option (Call D)
  pub erase : ℕ → ℕ → Call D
  pub write : ℕ → Bytes → Call D
  pub done : Option (Call D)
  pub buf : Option Bytes
  pub buf_addr_base : ℕ
  pub buf_addr_low : ℕ
  pub buf_addr_high : ℕ

-- The part of `target_s` that the flash routines use. `malloc` is the C library's: whether an
-- allocation of that size succeeds now.
pub record Target (D : Type 0) : Type 0 where
  pub flash : List (Flash D)
  pub flash_mode : Bool
  pub enter_flash_mode : Option (Call D)
  pub exit_flash_mode : Option (Call D)
  pub reset : Option (D → D)
  pub malloc : ℕ → Call D
  pub device : D

abbrev pub uint32_max : ℕ
uint32_max = 2 ^ 32 - 1

abbrev pub map_buffer : (Bytes → Bytes) → Option Bytes → Option Bytes
map_buffer g none = none
map_buffer g (some b) = some (g b)

module _ {D : Type 0} where
  abbrev call : Option (Call D) → D → Bool × D
  call none d = (true, d)
  call (some op) d = op d

  -- `f->start <= addr && addr < f->start + f->length`; the sum is of 32 bits.
  abbrev pub covers : Flash D → ℕ → Bool
  covers f addr = leb f.start addr && ltb addr (u32 (f.start + f.size))

  -- `target_flash_for_addr`: the position of the first region that covers the address.
  pub flash_for_addr : List (Flash D) → ℕ → Option ℕ
  flash_for_addr [] addr = none
  flash_for_addr (f ∷ fs) addr =
      if covers f addr
      then some 0
      else elim (flash_for_addr fs addr) [ none ↦ none | some i ↦ some (suc i) ]

  -- `target_reset`, which is target.c's.
  abbrev target_reset : Option (D → D) → D → D
  target_reset none d = d
  target_reset (some op) d = op d

  -- The change of mode: by the target's own function, or by a reset.
  abbrev change_mode : Option (Call D) → Target D → Bool × D
  change_mode (some op) t = op t.device
  change_mode none t = (true, target_reset t.reset t.device)

  -- `target_enter_flash_mode`.
  unfoldable pub enter_flash_mode : Target D → Bool × Target D
  enter_flash_mode t =
      if t.flash_mode
      then (true, t)
      else (let (ret, d) = change_mode t.enter_flash_mode t in
          (ret, record t { device = d; flash_mode = if ret then true else t.flash_mode }))

  -- `target_exit_flash_mode`.
  unfoldable pub exit_flash_mode : Target D → Bool × Target D
  exit_flash_mode t =
      if not t.flash_mode
      then (true, t)
      else (let (ret, d) = change_mode t.exit_flash_mode t in
          (ret, record t { device = d; flash_mode = false }))

  -- `flash_prepare`.
  unfoldable pub flash_prepare : Flash D → D → Bool × Flash D × D
  flash_prepare f d =
      if f.ready
      then (true, f, d)
      else (let (ret, d') = call f.prepare d in
          (ret, record f { ready = if ret then true else f.ready }, d'))

  -- `flash_done`: the buffer is freed on the way.
  unfoldable pub flash_done : Flash D → D → Bool × Flash D × D
  flash_done f d =
      if not f.ready
      then (true, f, d)
      else (let (ret, d') = call f.done d in (ret, record f { buf = none; ready = false }, d'))

  -- `flash_buffer_alloc`. A failed `malloc` leaves a NULL pointer.
  unfoldable pub flash_buffer_alloc : (ℕ → Call D) → Flash D → D → Bool × Flash D × D
  flash_buffer_alloc malloc f d =
      let (ok, d') = malloc f.writebufsize d in
      if ok
      then (
        true,
        record f {
          buf = some (replicate f.writebufsize 0);
          buf_addr_base = uint32_max;
          buf_addr_low = uint32_max;
          buf_addr_high = 0;
        },
        d',
      )
      else (false, record f { buf = none }, d')

  -- The loop of `flash_buffered_flush`: `offset` goes up to `len` in steps of the write size, and
  -- `ret &= f->write(...)` collects the answers. `src` is the buffer from the first address on.
  -- The fuel bounds the rounds.
  pub write_chunks : ℕ → Flash D → ℕ → Bytes → ℕ → ℕ → Bool → D → Bool × D
  write_chunks zero f addr src len offset ret d = (ret, d)
  write_chunks (suc fuel) f addr src len offset ret d =
      let (ok, d') = f.write (u32 (addr + offset)) (take f.writesize (drop offset src)) d in
      let rest = write_chunks fuel f addr src len (offset + f.writesize) (ret && ok) d' in
      if ltb offset len then rest else (ret, d)

  -- The write buffer with something in it: the test at the head of `flash_buffered_flush`.
  abbrev pub pending : Flash D → Bool
  pending f =
      not (f.buf_addr_base == uint32_max)
      && not (f.buf_addr_low == uint32_max)
      && ltb f.buf_addr_low f.buf_addr_high

  -- What `flash_buffered_flush` does with a buffer that has something in it.
  flush_buffer : Bytes → Flash D → D → Bool × Flash D × D
  flush_buffer buf f d =
      let (ready, f', d') = flash_prepare f d in
      let aligned_addr = align_down f.buf_addr_low f.writesize in
      let src = drop (aligned_addr - f.buf_addr_base) buf in
      let len = f.buf_addr_high - aligned_addr in
      let (ret, d'') = write_chunks (suc len) f' aligned_addr src len 0 true d' in
      if ready
      then (
        ret,
        record f' { buf_addr_base = uint32_max; buf_addr_low = uint32_max; buf_addr_high = 0 },
        d'',
      )
      else (false, f', d')

  flush_if : Option Bytes → Flash D → D → Bool × Flash D × D
  unfolding flush_buffer
  flush_if none f d = (true, f, d)
  flush_if (some buf) f d = if pending f then flush_buffer buf f d else (true, f, d)

  -- `flash_buffered_flush`.
  unfoldable pub flash_buffered_flush : Flash D → D → Bool × Flash D × D
  unfolding flush_if
  flash_buffered_flush f d = flush_if f.buf f d

  -- The head of a round of `flash_buffered_write`: a new base address flushes and clears the buffer.
  pub select_base : Flash D → D → ℕ → Bool × Flash D × D
  select_base f d base_addr =
      let (ok, f', d') = flash_buffered_flush f d in
      if base_addr == f.buf_addr_base then (true, f, d) else (
        ok,
        record f' {
          buf_addr_base = base_addr;
          buf = map_buffer (λ b. replicate f.writebufsize f.erased) f'.buf;
        },
        d',
      )

  -- The rest of a round: the chunk is copied into the buffer.
  pub fill_buffer : Flash D → ℕ → Bytes → Flash D
  fill_buffer f dest chunk = record f {
    buf = map_buffer (λ b. write_at b (dest % f.writebufsize) chunk) f.buf;
    buf_addr_low = min f.buf_addr_low dest;
    buf_addr_high = max f.buf_addr_high (u32 (dest + length chunk));
  }

  -- `flash_buffered_write`, on fuel: `none` when the fuel runs out.
  pub flash_buffered_write : ℕ → Flash D → D → ℕ → Bytes → Bool → Option (Bool × Flash D × D)
  flash_buffered_write fuel f d dest [] ret = some (ret, f, d)
  flash_buffered_write zero f d dest (b ∷ src) ret = none
  flash_buffered_write (suc fuel) f d dest (b ∷ src) ret =
      let (ok, f', d') = select_base f d (align_down dest f.writebufsize) in
      let local_len = min (f.writebufsize - dest % f.writebufsize) (length (b ∷ src)) in
      flash_buffered_write fuel (fill_buffer f' dest (take local_len (b ∷ src))) d'
        (u32 (dest + local_len)) (drop local_len (b ∷ src)) (ret && ok)
