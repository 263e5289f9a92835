-- ===== src/Flash/Stored.antt =====
-- target_flash.c: after `flash_buffered_write` and a flush the memory holds what was written.
use blackmagic.Base.{
  ℕ, zero, suc, ◌+◌, ◌-◌, ◌*◌, ◌%◌, ◌^◌, ◌<◌, ◌≤◌, min, Option, some, [], ◌∷◌, Bytes, length,
  get_or, take, drop, subst, Bool, true, ◌&&◌, ◌≡◌, refl, ap, ◌∙◌, arith,
}
use blackmagic.Base.{length-take, length-drop, get_or-take, get_or-drop}
use blackmagic.Base.Words.{u32, align_down}
use native.Mathlib.Nat.{mod-lt, mul-le-mul_right}
use blackmagic.Flash.{
  Flash, flash_buffered_flush, flash_buffered_write, select_base, fill_buffer, uint32_max,
}
use blackmagic.Flash.Memory.{Memory, IsMemory, Sizes, Sizes-pow}
use blackmagic.Flash.Programming.{cleared, flush-Window}
use blackmagic.Flash.Buffering.{Outside, Written, empty, occupied, Chunk}
use blackmagic.Flash.Delivery.{
  flush_idle, Round, Round-Empty, Round-Occupied, done_after, Outside-after,
}

-- The length of the chunk of a round.
abbrev chunk_length : ℕ → ℕ → Bytes → ℕ
chunk_length wbs dest src = min (wbs - dest % wbs) (length src)

buffer_pos : {ws wbs : ℕ} → Sizes ws wbs → 0 < wbs
buffer_pos {ws} sz =
    let scaled : 1 * ws ≤ sz.count * ws = mul-le-mul_right ws sz.count_pos in
    omega (arith, sz.multiple, sz.ws_pos)

-- The bytes to write are those that are wanted from an address on.
abbrev Wanted : Memory → ℕ → Bytes → Type 0
Wanted want dest src = (j : ℕ) → j < length src → get_or src j 0 ≡ want (dest + j)

Wanted-drop :
    (want : Memory) (dest n : ℕ) (src : Bytes)
    → Wanted want dest src
    → Wanted want (dest + n) (drop n src)
Wanted-drop want dest n src w j lt =
    get_or-drop n src j 0 ∙ w (n + j) (omega (arith, length-drop n src)) ∙ ap want (omega arith)

Wanted-self : (src : Bytes) (dest : ℕ) → Wanted (λ a. get_or src (a - dest) 0) dest src
Wanted-self src dest j lt = ap (λ k. get_or src k 0) (omega arith)

write_nothing :
    (fuel : ℕ) (f : Flash Memory) (m : Memory) (dest : ℕ)
    → flash_buffered_write fuel f m dest [] true ≡ some (true, f, m)
unfolding flash_buffered_write
write_nothing zero f m dest = refl
write_nothing (suc fuel) f m dest = refl

fill_buffer-Sizes :
    (f : Flash Memory) (dest : ℕ) (chunk : Bytes)
    → Sizes f.writesize f.writebufsize
    → (let g = fill_buffer f dest chunk in Sizes g.writesize g.writebufsize)
unfolding fill_buffer
fill_buffer-Sizes f dest chunk sz = sz

fill_buffer-writesize :
    (f : Flash Memory) (dest : ℕ) (chunk : Bytes)
    → (let g = fill_buffer f dest chunk in g.writesize) ≡ f.writesize
unfolding fill_buffer
fill_buffer-writesize f dest chunk = refl

fill_buffer-IsMemory :
    (f : Flash Memory) (dest : ℕ) (chunk : Bytes) → IsMemory f → IsMemory (fill_buffer f dest chunk)
unfolding fill_buffer
fill_buffer-IsMemory f dest chunk mem = record { writes = mem.writes; no_prepare = mem.no_prepare }

-- What is left of a write behind a round of some bytes, from the outcome of the change of base on.
abbrev behind :
    ℕ → ℕ → Bytes → Bool × Flash Memory × Memory → ℕ → ℕ → Option (Bool × Flash Memory × Memory)
behind fuel dest src r n next =
    flash_buffered_write fuel (fill_buffer r.1 dest (take n src)) r.2 next (drop n src)
      (true && r.0)

write_step :
    (fuel : ℕ) (f : Flash Memory) (m : Memory) (dest b : ℕ) (src : Bytes)
    → (let n = chunk_length f.writebufsize dest (b ∷ src) in
        flash_buffered_write (suc fuel) f m dest (b ∷ src) true
        ≡ behind fuel dest
            (b ∷ src)
            (select_base f m (align_down dest f.writebufsize))
            n
            (u32 (dest + n)))
unfolding flash_buffered_write
write_step fuel f m dest b src = refl

write_round :
    (fuel : ℕ) (f f' : Flash Memory) (m m' : Memory) (dest b : ℕ) (src : Bytes)
    → (let n = chunk_length f.writebufsize dest (b ∷ src) in
        dest + n < 2 ^ 32
        → select_base f m (align_down dest f.writebufsize) ≡ (true, f', m')
        → flash_buffered_write (suc fuel) f m dest (b ∷ src) true
          ≡ flash_buffered_write fuel
              (fill_buffer f' dest (take n (b ∷ src)))
              m'
              (dest + n)
              (drop n (b ∷ src))
              true)
write_round fuel f f' m m' dest b src fits eq =
    let n = chunk_length f.writebufsize dest (b ∷ src) in
    let small : u32 (dest + n) ≡ dest + n = omega arith in
    write_step fuel f m dest b src
    ∙ ap (λ r. behind fuel dest (b ∷ src) r n (u32 (dest + n))) eq
    ∙ ap (λ k. behind fuel dest (b ∷ src) (true, f', m') n k) small

module _ (s0 : ℕ) (want m0 : Memory) where
  round :
      (f : Flash Memory) (chunk : Bytes) (m : Memory) (dest : ℕ)
      → Sizes f.writesize f.writebufsize
      → IsMemory f
      → Chunk s0 want m0 f.writebufsize dest chunk
      → Written s0 want m0 f m dest
      → Round s0 want m0 f m dest chunk
  round f chunk m dest sz mem ch (empty buf is_buf em) =
      Round-Empty s0 want m0 f buf chunk m dest sz mem ch is_buf em
  round f chunk m dest sz mem ch (occupied buf oc) =
      Round-Occupied s0 want m0 f buf chunk m dest sz mem ch oc

  first-Chunk :
      (wbs dest : ℕ) (src : Bytes)
      → 0 < wbs
      → 0 < length src
      → dest + length src < 2 ^ 32
      → Wanted want dest src
      → Chunk s0 want m0 wbs dest (take (chunk_length wbs dest src) src)
  first-Chunk wbs dest src pos some_left fits wanted =
      let n = chunk_length wbs dest src in
      let len : length (take n src) ≡ n = omega (arith, length-take n src) in
      let below : dest % wbs < wbs = mod-lt dest pos in
      record {
        pos = omega arith;
        inside = omega arith;
        fits = omega arith;
        wanted = λ j lt. get_or-take n src j 0 (omega arith) ∙ wanted j (omega arith);
      }

  -- The state after a write of some bytes.
  record Delivered (fuel : ℕ) (f : Flash Memory) (m : Memory) (dest : ℕ) (src : Bytes)
      : Type 0 where
    flash : Flash Memory
    memory : Memory
    returned : flash_buffered_write fuel f m dest src true ≡ some (true, flash, memory)
    mem : IsMemory flash
    sizes : Sizes flash.writesize flash.writebufsize
    same_ws : flash.writesize ≡ f.writesize
    after : Written s0 want m0 flash memory (dest + length src)

  deliver :
      (fuel : ℕ) (f : Flash Memory) (m : Memory) (dest : ℕ) (src : Bytes)
      → length src ≤ fuel
      → dest + length src < 2 ^ 32
      → Wanted want dest src
      → Sizes f.writesize f.writebufsize
      → IsMemory f
      → Written s0 want m0 f m dest
      → Delivered fuel f m dest src
  deliver fuel f m dest [] enough fits wanted sz mem w = record {
    flash = f;
    memory = m;
    returned = write_nothing fuel f m dest;
    mem = mem;
    sizes = sz;
    same_ws = refl;
    after = subst (Written s0 want m0 f m) (omega arith) w;
  }
  deliver zero f m dest (b ∷ src) enough fits wanted sz mem w = absurd (omega arith)
  deliver (suc fuel) f m dest (b ∷ src) enough fits wanted sz mem w =
      let wbs = f.writebufsize in
      let n = chunk_length wbs dest (b ∷ src) in
      let chunk = take n (b ∷ src) in
      let pos : 0 < wbs = buffer_pos sz in
      let ch : Chunk s0 want m0 wbs dest chunk =
        first-Chunk wbs dest (b ∷ src) pos (omega arith) fits wanted in
      let r : Round s0 want m0 f m dest chunk = round f chunk m dest sz mem ch w in
      let len : length chunk ≡ n = omega (arith, length-take n (b ∷ src)) in
      let left : length (drop n (b ∷ src)) ≡ suc (length src) - n = length-drop n (b ∷ src) in
      let n_pos : 0 < n = omega (arith, ch.pos) in
      let rest : Delivered fuel (fill_buffer r.flash dest chunk) r.memory (dest + n)
          (drop n (b ∷ src)) =
        deliver fuel (fill_buffer r.flash dest chunk) r.memory (dest + n) (drop n (b ∷ src))
          (omega arith) (omega arith) (Wanted-drop want dest n (b ∷ src) wanted)
          (fill_buffer-Sizes r.flash dest chunk r.sizes)
          (fill_buffer-IsMemory r.flash dest chunk r.mem)
          (subst (λ k. Written s0 want m0 (fill_buffer r.flash dest chunk) r.memory (dest + k)) len
            r.after) in
      record {
        flash = rest.flash;
        memory = rest.memory;
        returned =
            write_round fuel f r.flash m r.memory dest b src (omega arith) r.selected
            ∙ rest.returned;
        mem = rest.mem;
        sizes = rest.sizes;
        same_ws = rest.same_ws ∙ fill_buffer-writesize r.flash dest chunk ∙ r.same_ws;
        after = subst (Written s0 want m0 rest.flash rest.memory) (omega arith) rest.after;
      }

  -- What a flush after the writes leaves in the memory.
  record Flushed (f : Flash Memory) (m : Memory) (dest : ℕ) : Type 0 where
    flash : Flash Memory
    memory : Memory
    flushed : flash_buffered_flush f m ≡ (true, flash, memory)
    done : (a : ℕ) → s0 ≤ a → a < dest → memory a ≡ want a
    outside : (a : ℕ) → Outside f.writesize s0 dest a → memory a ≡ m0 a

  flush-Written :
      (f : Flash Memory) (m : Memory) (dest : ℕ)
      → Sizes f.writesize f.writebufsize
      → IsMemory f
      → Written s0 want m0 f m dest
      → Flushed f m dest
  flush-Written f m dest sz mem (empty buf is_buf em) = record {
    flash = f;
    memory = m;
    flushed = flush_idle f buf m is_buf (ground (arith, em.base_is));
    done = λ a le lt. absurd (omega (arith, em.at_start));
    outside = λ a o. em.same a;
  }
  flush-Written f m dest sz mem (occupied buf oc) =
      let (s, m', eq, val) = flush-Window f buf m sz mem oc.window in
      record {
        flash = cleared f;
        memory = m';
        flushed = eq;
        done = done_after s0 want m0 f buf m m' dest oc s val;
        outside = Outside-after s0 want m0 f buf m m' dest oc s val sz.ws_pos;
      }

-- A region whose buffer was just allocated, of sizes that are powers of two.
pub record Fresh (f : Flash Memory) : Type 0 where
  pub small : ℕ
  pub large : ℕ
  pub rest : ℕ
  pub exponents : small + large + rest ≡ 32
  pub writesize_is : f.writesize ≡ 2 ^ small
  pub writebufsize_is : f.writebufsize ≡ 2 ^ (small + large)
  pub buf : Bytes
  pub buf_is : f.buf ≡ some buf
  pub base_is : f.buf_addr_base ≡ uint32_max
  pub low_is : f.buf_addr_low ≡ uint32_max
  pub high_is : f.buf_addr_high ≡ 0

Fresh-Sizes : (f : Flash Memory) → Fresh f → Sizes f.writesize f.writebufsize
Fresh-Sizes f fr =
    rw fr.writesize_is (rw fr.writebufsize_is (Sizes-pow fr.small fr.large fr.rest fr.exponents))

-- `flash_buffered_write` of some bytes to an address, on a region whose driver writes to a memory
-- and whose write buffer was just allocated, followed by `flash_buffered_flush`: both succeed, every
-- byte stands at its address, and no address outside the write units of these bytes has changed.
-- The sizes are powers of two, the bytes end below 2^32, and as much fuel as bytes is enough.
pub flash_buffered_write-flush :
    (f : Flash Memory) (m : Memory) (dest : ℕ) (src : Bytes)
    → IsMemory f
    → Fresh f
    → dest + length src < 2 ^ 32
    → (f1 f2 : Flash Memory) × (m1 m2 : Memory) × (flash_buffered_write
          (length src)
          f
          m
          dest
          src
          true
        ≡ some (true, f1, m1))
      × (flash_buffered_flush f1 m1 ≡ (true, f2, m2))
      × ((j : ℕ) → j < length src → m2 (dest + j) ≡ get_or src j 0)
      × ((a : ℕ) → Outside f.writesize dest (dest + length src) a → m2 a ≡ m a)
flash_buffered_write-flush f m dest src mem fr fits =
    let want : Memory = λ a. get_or src (a - dest) 0 in
    let d : Delivered dest want m (length src) f m dest src =
      deliver dest want m (length src) f m dest src (omega arith) fits (Wanted-self src dest)
        (Fresh-Sizes f fr) mem
        (empty fr.buf fr.buf_is (record {
          base_is = fr.base_is;
          low_is = fr.low_is;
          high_is = fr.high_is;
          at_start = refl;
          same = λ a. refl;
        })) in
    let e : Flushed dest want m d.flash d.memory (dest + length src) =
      flush-Written dest want m d.flash d.memory (dest + length src) d.sizes d.mem d.after in
    (
      d.flash,
      e.flash,
      d.memory,
      e.memory,
      d.returned,
      e.flushed,
      λ j lt.
          e.done (dest + j) (omega arith) (omega arith) ∙ ap (λ k. get_or src k 0) (omega arith),
      λ a o. e.outside a (rw d.same_ws o),
    )
