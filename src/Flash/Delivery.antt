-- ===== src/Flash/Delivery.antt =====
-- target_flash.c: one round of `flash_buffered_write`, and what a flush leaves of what was written.
use blackmagic.Base.{
  ℕ, suc, ◌+◌, ◌-◌, ◌*◌, ◌/◌, ◌<◌, ◌≤◌, some, Bytes, length, get_or, replicate, true, false, ◌&&◌,
  ltb, leb, ◌==◌, if◌then◌else◌, ◌≡◌, ◌≢◌, refl, sym, ap, ◌∙◌, arith, ◌⊎◌, inl, inr, Bool-cases,
}
use native.Mathlib.Nat.{div-mul-le_self, mul-le-mul_right, le-div_iff_mul-le}
use blackmagic.Base.{length-replicate}
use blackmagic.Base.Words.{align_down}
use blackmagic.Flash.{
  Flash, flash_buffered_flush, select_base, fill_buffer, map_buffer, pending, flush_if,
}
use blackmagic.Flash.Memory.{Memory, IsMemory, Sizes}
use blackmagic.Flash.Programming.{Span, cleared, flush-Window}
use blackmagic.Flash.Buffering.{Outside, Empty, Occupied, Written, Chunk, fill_fresh, fill_more}

-- A flush with nothing in the buffer does nothing.
pub flush_idle :
    (f : Flash Memory) (buf : Bytes) (m : Memory)
    → f.buf ≡ some buf
    → pending f ≡ false
    → flash_buffered_flush f m ≡ (true, f, m)
unfolding flash_buffered_flush
flush_idle f buf m is_buf idle = ap (λ o. flush_if o f m) is_buf ∙ rw idle

select_same :
    (f : Flash Memory) (m : Memory) (base : ℕ)
    → base ≡ f.buf_addr_base
    → select_base f m base ≡ (true, f, m)
unfolding select_base
select_same f m base e = ground arith

select_new :
    (f f' : Flash Memory) (m m' : Memory) (base : ℕ)
    → base ≢ f.buf_addr_base
    → flash_buffered_flush f m ≡ (true, f', m')
    → select_base f m base ≡ (
      true,
      record f' {
        buf_addr_base = base;
        buf = map_buffer (λ b. replicate f.writebufsize f.erased) f'.buf;
      },
      m',
    )
unfolding select_base
select_new f f' m m' base ne eq =
    let test : (base == f.buf_addr_base) ≡ false = ground arith in rw test (rw eq)

-- A later window starts at or behind the end of an earlier one.
next_window :
    (at w dest : ℕ)
    → 0 < w
    → at * w < dest
    → dest ≤ at * w + w
    → dest / w * w ≢ at * w
    → dest ≡ dest / w * w
next_window at w dest pos lt le ne =
    let q = dest / w in
    let above : at ≤ q = (le-div_iff_mul-le pos).1 (omega arith) in
    let other : at ≢ q = λ e. ne (ap (λ k. k * w) (sym e)) in
    let later : suc at ≤ q = omega arith in
    let scaled : suc at * w ≤ q * w = mul-le-mul_right w later in
    omega (arith, div-mul-le_self dest w)

module _ (s0 : ℕ) (want m0 : Memory) where
  -- The head of a round: the buffer is on the window of the chunk afterwards.
  pub record Round (f : Flash Memory) (m : Memory) (dest : ℕ) (chunk : Bytes) : Type 0 where
    pub flash : Flash Memory
    pub memory : Memory
    pub selected : select_base f m (align_down dest f.writebufsize) ≡ (true, flash, memory)
    pub mem : IsMemory flash
    pub sizes : Sizes flash.writesize flash.writebufsize
    pub same_ws : flash.writesize ≡ f.writesize
    pub same_wbs : flash.writebufsize ≡ f.writebufsize
    pub after : Written s0 want m0 (fill_buffer flash dest chunk) memory (dest + length chunk)

  pub Round-Empty :
      (f : Flash Memory) (buf chunk : Bytes) (m : Memory) (dest : ℕ)
      → Sizes f.writesize f.writebufsize
      → IsMemory f
      → Chunk s0 want m0 f.writebufsize dest chunk
      → f.buf ≡ some buf
      → Empty s0 want m0 f m dest
      → Round f m dest chunk
  Round-Empty f buf chunk m dest sz mem ch is_buf em =
      let base = dest / f.writebufsize * f.writebufsize in
      let aligned : align_down dest f.writebufsize ≡ base =
        sz.align_buffer dest (omega (arith, ch.fits)) in
      let ne : base ≢ f.buf_addr_base =
        λ e. omega (arith, ch.fits, ch.pos, em.base_is, div-mul-le_self dest f.writebufsize) in
      let idle : pending f ≡ false = ground (arith, em.base_is) in
      record {
        flash = record f {
          buf_addr_base = base;
          buf = map_buffer (λ b. replicate f.writebufsize f.erased) f.buf;
        };
        memory = m;
        selected = rw aligned (select_new f f m m base ne (flush_idle f buf m is_buf idle));
        mem = record { writes = mem.writes; no_prepare = mem.no_prepare };
        sizes = sz;
        same_ws = refl;
        same_wbs = refl;
        after =
            fill_fresh s0 want m0
              (record f {
                buf_addr_base = base;
                buf = map_buffer (λ b. replicate f.writebufsize f.erased) f.buf;
              })
              (replicate f.writebufsize f.erased) chunk m dest ch
              (ap (map_buffer (λ b. replicate f.writebufsize f.erased)) is_buf)
              (length-replicate f.writebufsize f.erased) refl em.low_is em.high_is
              (omega (arith, em.at_start)) (inl em.at_start)
              (λ a le lt. absurd (omega (arith, em.at_start))) (λ a o. em.same a);
      }

  -- What a flush of the window leaves of the bytes before `dest`, and of those outside.
  module _ (f : Flash Memory) (buf : Bytes) (m m' : Memory) (dest : ℕ)
      (oc : Occupied s0 want m0 f buf m dest) (s : Span f)
      (val : (a : ℕ)
        → m' a ≡ (
            if leb s.start a && ltb a s.end then get_or buf (a - f.buf_addr_base) 0 else m a)) where
    pub done_after : (a : ℕ) → s0 ≤ a → a < dest → m' a ≡ want a
    done_after a le lt = elim (Bool-cases (ltb a f.buf_addr_low)) [
      | inl e ↦
          let below : a < s.start = omega_below (ground arith) oc.whole in
          val a ∙ ground (arith, oc.done a le (ground arith))
      | inr e ↦
          let start : s.start ≤ a = ground (arith, s.start-le-low) in
          let stop : a < s.end = omega (arith, s.high-le-end, oc.high_is) in
          val a ∙ ground (arith, oc.held a (ground arith) lt)
    ]
      where
        omega_below :
            a < f.buf_addr_low
            → (f.buf_addr_low ≡ s0) ⊎ (f.buf_addr_low ≡ f.buf_addr_base)
            → a < s.start
        omega_below h (inl e) = absurd (omega arith)
        omega_below h (inr e) = omega (arith, s.base-le-start)

    pub Outside-after : 0 < f.writesize → (a : ℕ) → Outside f.writesize s0 dest a → m' a ≡ m0 a
    Outside-after pos a (inl h) =
        let units : s0 / f.writesize ≤ f.buf_addr_low / f.writesize =
          (le-div_iff_mul-le pos).1 (omega (arith, div-mul-le_self s0 f.writesize, oc.above)) in
        let scaled : s0 / f.writesize * f.writesize ≤ f.buf_addr_low / f.writesize * f.writesize =
          mul-le-mul_right f.writesize units in
        let below : a < s.start = omega (arith, s.start_is) in
        val a ∙ ground (arith, oc.outside a (inl h))
    Outside-after pos a (inr h) =
        let above : s.end ≤ a = omega (arith, s.end-lt, oc.high_is) in
        val a ∙ ground (arith, oc.outside a (inr h))

  pub Round-Occupied :
      (f : Flash Memory) (buf chunk : Bytes) (m : Memory) (dest : ℕ)
      → Sizes f.writesize f.writebufsize
      → IsMemory f
      → Chunk s0 want m0 f.writebufsize dest chunk
      → Occupied s0 want m0 f buf m dest
      → Round f m dest chunk
  Round-Occupied f buf chunk m dest sz mem ch oc =
      elim (Bool-cases (dest / f.writebufsize * f.writebufsize == f.buf_addr_base)) [
        | inl e ↦ record {
          flash = f;
          memory = m;
          selected = select_same f m (align_down dest f.writebufsize) (aligned ∙ ground arith);
          mem = mem;
          sizes = sz;
          same_ws = refl;
          same_wbs = refl;
          after = fill_more s0 want m0 f buf chunk m dest ch oc (ground arith);
        }
        | inr e ↦
            let win = oc.window in
            let (s, m', eq, val) = flush-Window f buf m sz mem win in
            let ne : base ≢ f.buf_addr_base = λ h. ground arith in
            let at_base : dest ≡ base = at_window_start ne in
            record {
              flash = moved;
              memory = m';
              selected = rw aligned (select_new f (cleared f) m m' base ne eq);
              mem = record { writes = mem.writes; no_prepare = mem.no_prepare };
              sizes = sz;
              same_ws = refl;
              same_wbs = refl;
              after =
                  fill_fresh s0 want m0 moved (replicate f.writebufsize f.erased) chunk m' dest ch
                    (ap (map_buffer (λ b. replicate f.writebufsize f.erased)) win.is_buf)
                    (length-replicate f.writebufsize f.erased) refl refl refl
                    (omega (arith, oc.above, win.nonempty, oc.high_is)) (inr at_base)
                    (done_after f buf m m' dest oc s val)
                    (Outside-after f buf m m' dest oc s val sz.ws_pos);
            }
      ]
    where
      base : ℕ
      base = dest / f.writebufsize * f.writebufsize

      moved : Flash Memory
      moved = record (cleared f) {
        buf_addr_base = base;
        buf = map_buffer (λ b. replicate f.writebufsize f.erased) f.buf;
      }

      aligned : align_down dest f.writebufsize ≡ base
      aligned = sz.align_buffer dest (omega (arith, ch.fits))

      at_window_start : base ≢ f.buf_addr_base → dest ≡ base
      at_window_start ne =
          let win = oc.window in
          let pos : 0 < f.writebufsize = omega (arith, ch.inside, ch.pos) in
          next_window win.at f.writebufsize dest pos
            (omega (arith, win.base_is, win.low_in, win.nonempty, oc.high_is))
            (omega (arith, win.base_is, win.high_in, oc.high_is)) (λ e. ne (e ∙ sym win.base_is))
