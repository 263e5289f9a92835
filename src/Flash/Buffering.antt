-- ===== src/Flash/Buffering.antt =====
-- target_flash.c: `flash_buffered_write` keeps every byte that it is given, in the buffer or in the
-- memory, and changes no byte outside the write units of what it is given.
use blackmagic.Base.{
  ℕ, ◌+◌, ◌-◌, ◌*◌, ◌/◌, ◌%◌, ◌^◌, ◌<◌, ◌≤◌, min, max, some, Bytes, length, get_or, true, false,
  ltb, ◌≡◌, ap, ◌∙◌, arith, ◌⊎◌, inl, inr, Bool-cases,
}
use native.Mathlib.Nat.{div-add-mod'}
use blackmagic.Base.{length-write_at, get_or-write_at, get_or-write_at_before, write_at}
use blackmagic.Base.Words.{u32}
use blackmagic.Flash.{Flash, fill_buffer, uint32_max, map_buffer}
use blackmagic.Flash.Memory.{Memory}
use blackmagic.Flash.Programming.{Window}

-- Whether an address lies outside the write units of the interval from `s0` to `dest`.
abbrev pub Outside : ℕ → ℕ → ℕ → ℕ → Type 0
Outside ws s0 dest a = (a < s0 / ws * ws) ⊎ (dest + ws ≤ a)

Outside-mono : (ws s0 dest n a : ℕ) → Outside ws s0 (dest + n) a → Outside ws s0 dest a
Outside-mono ws s0 dest n a (inl h) = inl h
Outside-mono ws s0 dest n a (inr h) = inr (omega arith)

-- `s0` is where the writes started, `want` what they were given, `m0` the memory before them.
module _ (s0 : ℕ) (want m0 : Memory) where
  -- Nothing is written yet, and the buffer is empty.
  pub record Empty (f : Flash Memory) (m : Memory) (dest : ℕ) : Type 0 where
    pub base_is : f.buf_addr_base ≡ uint32_max
    pub low_is : f.buf_addr_low ≡ uint32_max
    pub high_is : f.buf_addr_high ≡ 0
    pub at_start : dest ≡ s0
    pub same : (a : ℕ) → m a ≡ m0 a

  -- Everything up to `dest` is written; the last part of it is in the buffer.
  pub record Occupied (f : Flash Memory) (buf : Bytes) (m : Memory) (dest : ℕ) : Type 0 where
    pub window : Window f buf
    pub high_is : f.buf_addr_high ≡ dest
    pub above : s0 ≤ f.buf_addr_low
    pub whole : (f.buf_addr_low ≡ s0) ⊎ (f.buf_addr_low ≡ f.buf_addr_base)
    pub done : (a : ℕ) → s0 ≤ a → a < f.buf_addr_low → m a ≡ want a
    pub held : (a : ℕ) → f.buf_addr_low ≤ a → a < dest → get_or buf (a - f.buf_addr_base) 0 ≡ want a
    pub outside : (a : ℕ) → Outside f.writesize s0 dest a → m a ≡ m0 a

  pub data Written (f : Flash Memory) (m : Memory) (dest : ℕ) : Type 0 where
    empty : (buf : Bytes) → f.buf ≡ some buf → Empty f m dest → Written f m dest
    occupied : (buf : Bytes) → Occupied f buf m dest → Written f m dest

  -- One chunk: some bytes of what is wanted, inside one window.
  pub record Chunk (wbs dest : ℕ) (chunk : Bytes) : Type 0 where
    pub pos : 0 < length chunk
    pub inside : dest % wbs + length chunk ≤ wbs
    pub fits : dest + length chunk < 2 ^ 32
    pub wanted : (j : ℕ) → j < length chunk → get_or chunk j 0 ≡ want (dest + j)

  -- What the buffer holds behind the copy of a chunk.
  filled :
      (buf chunk : Bytes) (base wbs dest a : ℕ)
      → Chunk wbs dest chunk
      → length buf ≡ wbs
      → dest ≡ base + dest % wbs
      → dest ≤ a
      → a < dest + length chunk
      → get_or (write_at buf (dest % wbs) chunk) (a - base) 0 ≡ want a
  filled buf chunk base wbs dest a ch room at le lt =
      let index : a - base ≡ dest % wbs + (a - dest) = omega arith in
      let address : dest + (a - dest) ≡ a = omega arith in
      ap (λ k. get_or (write_at buf (dest % wbs) chunk) k 0) index
      ∙ get_or-write_at buf (dest % wbs) chunk (a - dest) 0 (omega (arith, ch.inside)) (omega arith)
      ∙ ch.wanted (a - dest) (omega arith)
      ∙ ap want address

  -- A chunk goes into a buffer that was just cleared.
  pub fill_fresh :
      (f : Flash Memory) (buf chunk : Bytes) (m : Memory) (dest : ℕ)
      → Chunk f.writebufsize dest chunk
      → f.buf ≡ some buf
      → length buf ≡ f.writebufsize
      → f.buf_addr_base ≡ dest / f.writebufsize * f.writebufsize
      → f.buf_addr_low ≡ uint32_max
      → f.buf_addr_high ≡ 0
      → s0 ≤ dest
      → (dest ≡ s0) ⊎ (dest ≡ f.buf_addr_base)
      → ((a : ℕ) → s0 ≤ a → a < dest → m a ≡ want a)
      → ((a : ℕ) → Outside f.writesize s0 dest a → m a ≡ m0 a)
      → Written (fill_buffer f dest chunk) m (dest + length chunk)
  unfolding fill_buffer
  fill_fresh f buf chunk m dest ch is_buf room base low high above whole done outside =
      let wbs = f.writebufsize in
      let at : dest ≡ f.buf_addr_base + dest % wbs = omega (arith, div-add-mod' dest wbs) in
      let low' : min f.buf_addr_low dest ≡ dest = omega (arith, ch.fits) in
      let high' : max f.buf_addr_high (u32 (dest + length chunk)) ≡ dest + length chunk =
        omega (arith, ch.fits) in
      occupied (write_at buf (dest % wbs) chunk) (record {
        window = record {
          is_buf = ap (map_buffer (λ b. write_at b (dest % wbs) chunk)) is_buf;
          room = length-write_at buf (dest % wbs) chunk ∙ room;
          at = dest / wbs;
          base_is = base;
          low_in = omega arith;
          nonempty = omega (arith, ch.pos);
          high_in = omega (arith, ch.inside);
          fits = omega (arith, ch.fits);
        };
        high_is = high';
        above = omega arith;
        whole = rw low' whole;
        done = λ a le lt. done a le (omega arith);
        held = λ a le lt. filled buf chunk f.buf_addr_base wbs dest a ch room at (omega arith) lt;
        outside = λ a o. outside a (Outside-mono f.writesize s0 dest (length chunk) a o);
      })

  -- A chunk goes behind what the buffer holds.
  pub fill_more :
      (f : Flash Memory) (buf chunk : Bytes) (m : Memory) (dest : ℕ)
      → Chunk f.writebufsize dest chunk
      → Occupied f buf m dest
      → f.buf_addr_base ≡ dest / f.writebufsize * f.writebufsize
      → Written (fill_buffer f dest chunk) m (dest + length chunk)
  unfolding fill_buffer
  fill_more f buf chunk m dest ch oc base =
      let win = oc.window in
      let wbs = f.writebufsize in
      let at : dest ≡ f.buf_addr_base + dest % wbs = omega (arith, div-add-mod' dest wbs) in
      let low' : min f.buf_addr_low dest ≡ f.buf_addr_low =
        omega (arith, oc.high_is, win.nonempty) in
      let high' : max f.buf_addr_high (u32 (dest + length chunk)) ≡ dest + length chunk =
        omega (arith, oc.high_is, ch.fits) in
      occupied (write_at buf (dest % wbs) chunk) (record {
        window = record {
          is_buf = ap (map_buffer (λ b. write_at b (dest % wbs) chunk)) win.is_buf;
          room = length-write_at buf (dest % wbs) chunk ∙ win.room;
          at = dest / wbs;
          base_is = base;
          low_in = omega (arith, win.low_in);
          nonempty = omega (arith, ch.pos, oc.high_is, win.nonempty);
          high_in = omega (arith, ch.inside);
          fits = omega (arith, ch.fits);
        };
        high_is = high';
        above = omega (arith, oc.above);
        whole = rw low' oc.whole;
        done = λ a le lt. oc.done a le (omega arith);
        held = λ a le lt. held_after a (omega arith) lt (Bool-cases (ltb a dest));
        outside = λ a o. oc.outside a (Outside-mono f.writesize s0 dest (length chunk) a o);
      })
    where
      held_after :
          (a : ℕ)
          → f.buf_addr_low ≤ a
          → a < dest + length chunk
          → (ltb a dest ≡ true) ⊎ (ltb a dest ≡ false)
          → get_or (write_at buf (dest % f.writebufsize) chunk) (a - f.buf_addr_base) 0 ≡ want a
      held_after a le lt (inl e) =
          get_or-write_at_before buf (dest % f.writebufsize) chunk (a - f.buf_addr_base) 0
            (ground (arith, div-add-mod' dest f.writebufsize))
          ∙ oc.held a le (ground arith)
      held_after a le lt (inr e) =
          filled buf chunk f.buf_addr_base f.writebufsize dest a ch oc.window.room
            (omega (arith, div-add-mod' dest f.writebufsize)) (ground arith) lt
