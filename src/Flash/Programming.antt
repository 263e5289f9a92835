-- ===== src/Flash/Programming.antt =====
-- target_flash.c: what has been written through the buffer stands in the memory after a flush.
use blackmagic.Base.{
  ℕ, suc, ◌+◌, ◌-◌, ◌*◌, ◌/◌, ◌^◌, ◌<◌, ◌≤◌, some, Bytes, length, get_or, drop, true, ◌&&◌, ltb,
  leb, if◌then◌else◌, ◌≡◌, refl, sym, ap, ◌∙◌, arith, inl, inr, Bool-cases,
}
use blackmagic.Base.{get_or-drop, length-drop}
use blackmagic.Base.Words.{align_down}
use native.Mathlib.Nat.{
  mul-le-mul_right, lt_of_mul-lt-mul_right, le-div_iff_mul-le, mul_assoc, div-mul-le_self,
  lt-div-mul-add,
}
use blackmagic.Flash.{
  flush_if, flush_buffer, Flash, write_chunks, flash_prepare, flash_buffered_flush, uint32_max,
  pending,
}
use blackmagic.Flash.Memory.{Memory, IsMemory, Rounds, Rounds-exist, write_chunks-memory, Sizes}

-- Whole multiples that lie below one another lie a whole step apart.
step_below : (a b w : ℕ) → a * w < b * w → a * w + w ≤ b * w
step_below a b w h =
    let lt : a < b = lt_of_mul-lt-mul_right w h in
    let scaled : suc a * w ≤ b * w = mul-le-mul_right w lt in omega arith

unit-le-start : (k ws low : ℕ) → 0 < ws → k * ws ≤ low → k * ws ≤ low / ws * ws
unit-le-start k ws low pos h = mul-le-mul_right ws ((le-div_iff_mul-le pos).1 h)

-- A whole number of units that ends less than a unit behind a whole end ends at or before it.
units-le : (q n t ws : ℕ) → q * ws + n * ws < t * ws + ws → q * ws + n * ws ≤ t * ws
units-le q n t ws h =
    let lt : (q + n) * ws < (t + 1) * ws = omega arith in
    let le : q + n < t + 1 = lt_of_mul-lt-mul_right ws lt in
    let le' : q + n ≤ t = omega arith in
    let scaled : (q + n) * ws ≤ t * ws = mul-le-mul_right ws le' in omega arith

-- The state in which the buffer holds what was written to an interval of one window.
pub record Window (f : Flash Memory) (buf : Bytes) : Type 0 where
  pub is_buf : f.buf ≡ some buf
  pub room : length buf ≡ f.writebufsize
  pub at : ℕ
  pub base_is : f.buf_addr_base ≡ at * f.writebufsize
  pub low_in : f.buf_addr_base ≤ f.buf_addr_low
  pub nonempty : f.buf_addr_low < f.buf_addr_high
  pub high_in : f.buf_addr_high ≤ f.buf_addr_base + f.writebufsize
  pub fits : f.buf_addr_high < 2 ^ 32

abbrev pub prepared : Flash Memory → Flash Memory
prepared f = record f { ready = true }

abbrev pub cleared : Flash Memory → Flash Memory
cleared f = record f {
  ready = true;
  buf_addr_base = uint32_max;
  buf_addr_low = uint32_max;
  buf_addr_high = 0;
}

flash_prepare-prepared :
    (f : Flash Memory) (m : Memory) → IsMemory f → flash_prepare f m ≡ (true, prepared f, m)
unfolding flash_prepare
flash_prepare-prepared f m mem = ground arith

-- A flush of an occupied buffer, as far as the loop.
flush_start :
    (f : Flash Memory) (buf : Bytes) (m m' : Memory) (addr : ℕ)
    → IsMemory f
    → f.buf ≡ some buf
    → pending f ≡ true
    → align_down f.buf_addr_low f.writesize ≡ addr
    → (let len = f.buf_addr_high - addr in
        write_chunks (suc len) (prepared f) addr (drop (addr - f.buf_addr_base) buf) len 0 true m)
      ≡ (true, m')
    → flash_buffered_flush f m ≡ (true, cleared f, m')
unfolding flash_buffered_flush flush_buffer
flush_start f buf m m' addr mem is_buf occupied aligned eq =
    ap (λ o. flush_if o f m) is_buf
    ∙ rw occupied (rw (flash_prepare-prepared f m mem) (rw aligned (rw eq)))

-- Where a flush starts and stops to write.
pub record Span (f : Flash Memory) : Type 0 where
  pub start : ℕ
  pub end : ℕ
  pub start_is : start ≡ f.buf_addr_low / f.writesize * f.writesize
  pub base-le-start : f.buf_addr_base ≤ start
  pub start-le-low : start ≤ f.buf_addr_low
  pub high-le-end : f.buf_addr_high ≤ end
  pub end-lt : end < f.buf_addr_high + f.writesize

-- Where a flush starts.
abbrev flush_from : Flash Memory → ℕ
flush_from f = f.buf_addr_low / f.writesize * f.writesize

-- The addresses that a flush of a window touches.
module _ (f : Flash Memory) (buf : Bytes) (sz : Sizes f.writesize f.writebufsize)
    (win : Window f buf) where
  base_units : f.buf_addr_base ≡ win.at * sz.count * f.writesize
  base_units =
      win.base_is ∙ ap (λ k. win.at * k) sz.multiple ∙ sym (mul_assoc win.at sz.count f.writesize)

  start_bounds :
      (f.buf_addr_base ≤ flush_from f)
      × (flush_from f ≤ f.buf_addr_low)
      × (f.buf_addr_low < flush_from f + f.writesize)
  start_bounds = (
    omega (
      arith,
      base_units,
      unit-le-start (win.at * sz.count) f.writesize f.buf_addr_low sz.ws_pos
          (omega (arith, base_units)),
    ),
    div-mul-le_self f.buf_addr_low f.writesize,
    lt-div-mul-add sz.ws_pos,
  )

  window_top : f.buf_addr_base + f.writebufsize ≤ 2 ^ 32
  window_top = omega (arith, step_below win.at sz.buffers f.writebufsize (omega arith))

  end-le-top :
      (n : ℕ)
      → flush_from f + n * f.writesize < f.buf_addr_high + f.writesize
      → flush_from f + n * f.writesize ≤ f.buf_addr_base + f.writebufsize
  end-le-top n h = omega (
    arith,
    base_units,
    units-le (f.buf_addr_low / f.writesize) n (win.at * sz.count + sz.count) f.writesize
        (omega (arith, base_units)),
  )

  -- The rounds of a flush, and where they end.
  record FlushSpan : Type 0 where
    steps : ℕ
    rounds : Rounds f.writesize (f.buf_addr_high - flush_from f) 0 steps
    high-le : f.buf_addr_high ≤ flush_from f + steps
    lt : flush_from f + steps < f.buf_addr_high + f.writesize
    in_window : flush_from f + steps ≤ f.buf_addr_base + f.writebufsize

  flush_span : FlushSpan
  flush_span =
      let len = f.buf_addr_high - flush_from f in
      let (steps, n, rounds, n_is, enough, near) =
        Rounds-exist (suc len) f.writesize len 0 sz.ws_pos (omega arith) in
      let n_is' : steps ≡ n * f.writesize = omega arith in
      let bounds = start_bounds in
      let n_lt : flush_from f + steps < f.buf_addr_high + f.writesize = ground arith in
      record {
        steps = steps;
        rounds = rounds;
        high-le = omega arith;
        lt = n_lt;
        in_window = rw n_is' (end-le-top n (rw n_is' at n_lt));
      }

pending-Window :
    (f : Flash Memory) (buf : Bytes) → Window f buf → 0 < f.writebufsize → pending f ≡ true
pending-Window f buf win pos = ground arith

-- A byte that a flush writes is the byte of the buffer for its address.
flushed_byte :
    (buf : Bytes) (base start stop a : ℕ) (m : Memory)
    → base ≤ start
    → (if leb (start + 0) a && ltb a (start + stop)
        then get_or (drop (start - base) buf) (a - start) 0
        else m a)
      ≡ (if leb start a && ltb a (start + stop) then get_or buf (a - base) 0 else m a)
flushed_byte buf base start stop a m h = elim (Bool-cases (leb start a)) [
  | inl e ↦
      let index : start - base + (a - start) ≡ a - base = ground arith in
      let byte : get_or (drop (start - base) buf) (a - start) 0 ≡ get_or buf (a - base) 0 =
        get_or-drop (start - base) buf (a - start) 0 ∙ ap (λ k. get_or buf k 0) index in
      ground arith
  | inr e ↦ ground arith
]

-- A flush of a window writes the buffer to the whole write units that hold the interval, inside
-- the window, and to nothing else.
pub flush-Window :
    (f : Flash Memory) (buf : Bytes) (m : Memory)
    → Sizes f.writesize f.writebufsize
    → IsMemory f
    → Window f buf
    → (s : Span f) × (m' : Memory) × (flash_buffered_flush f m ≡ (true, cleared f, m'))
      × ((a : ℕ)
          → m' a
            ≡ (if leb s.start a && ltb a s.end then get_or buf (a - f.buf_addr_base) 0 else m a))
flush-Window f buf m sz mem win =
    let from = flush_from f in
    let len = f.buf_addr_high - from in
    let src = drop (from - f.buf_addr_base) buf in
    let sp = flush_span f buf sz win in
    let bounds = start_bounds f buf sz win in
    let room : sp.steps ≤ length src =
      omega (arith, length-drop (from - f.buf_addr_base) buf, sp.in_window) in
    let top : from + sp.steps ≤ 2 ^ 32 = omega (arith, window_top f buf sz win, sp.in_window) in
    let mem' : IsMemory (prepared f) = record {
      writes = mem.writes;
      no_prepare = mem.no_prepare;
    } in
    let (m', eq, val) =
      write_chunks-memory (prepared f) len (suc len) from src m sp.rounds mem' sz.ws_pos
        (omega arith) room top in
    let wbs_pos : 0 < f.writebufsize = omega arith in
    (
      record {
        start = from;
        end = from + sp.steps;
        start_is = refl;
        base-le-start = bounds.0;
        start-le-low = bounds.1;
        high-le-end = sp.high-le;
        end-lt = sp.lt;
      },
      m',
      flush_start f buf m m' from mem win.is_buf (pending-Window f buf win wbs_pos)
          (sz.align_write f.buf_addr_low (omega arith)) eq,
      λ a. val a ∙ flushed_byte buf f.buf_addr_base from sp.steps a m bounds.0,
    )
