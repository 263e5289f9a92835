-- ===== src/Flash/Memory.antt =====
-- target_flash.c against a region whose driver writes to a plain memory: what is in the memory
-- after a flush of the write buffer.
use blackmagic.Base.{
  ℕ, zero, suc, ◌+◌, ◌-◌, ◌*◌, ◌/◌, ◌^◌, ◌<◌, ◌≤◌, none, Bytes, length, get_or, take, drop, true,
  ◌&&◌, ltb, leb, if◌then◌else◌, ◌≡◌, refl, sym, ap, ◌∙◌, arith, ◌⊎◌, inl, inr, Bool-cases,
}
use blackmagic.Base.{get_or-drop, get_or-take, length-take, length-drop}
use native.Mathlib.Nat.{one-le-pow, mul_comm}
use blackmagic.Base.Words.{u32, align_down, align_down-pow, pow-add}
use blackmagic.Flash.{Flash, write_chunks}

-- A memory of bytes by address.
abbrev pub Memory : Type 0
Memory = ℕ → ℕ

-- The memory with some bytes written from an address on.
abbrev pub overlay : ℕ → Bytes → Memory → Memory
overlay addr bytes m a =
    if leb addr a && ltb a (addr + length bytes) then get_or bytes (a - addr) 0 else m a

-- A region whose driver writes to a memory and never fails.
pub record IsMemory (f : Flash Memory) : Type 0 where
  pub writes :
      (addr : ℕ) (bytes : Bytes) (m : Memory) → f.write addr bytes m ≡ (true, overlay addr bytes m)
  pub no_prepare : f.prepare ≡ none

-- The rounds of the loop of `flash_buffered_flush` from an offset on, up to where it stops.
pub data Rounds (step len : ℕ) : ℕ → ℕ → Type 0 where
  stop : {offset : ℕ} → len ≤ offset → Rounds step len offset offset
  round :
      {offset end : ℕ}
      → offset < len
      → Rounds step len (offset + step) end
      → Rounds step len offset end

-- The loop ends, at a whole number of steps that is the first not below the length.
pub Rounds-exist :
    (fuel step len offset : ℕ)
    → 0 < step
    → len - offset < fuel
    → (end : ℕ) × (n : ℕ) × Rounds step len offset end
      × (end ≡ offset + n * step)
      × (len ≤ end)
      × ((end ≡ offset) ⊎ (end < len + step))
Rounds-exist zero step len offset h lt = absurd (omega arith)
Rounds-exist (suc fuel) step len offset h lt = elim (Bool-cases (ltb offset len)) [
  | inl e ↦
      let (end, n, r, at, enough, near) =
        Rounds-exist fuel step len (offset + step) h (ground arith) in
      (end, suc n, round (ground arith) r, omega arith, enough, inr (near_end e near))
  | inr e ↦ (offset, 0, stop (ground arith), omega arith, ground arith, inl refl)
]
  where
    near_end :
        {end : ℕ}
        → ltb offset len ≡ true
        → (end ≡ offset + step) ⊎ (end < len + step)
        → end < len + step
    near_end e d = ground arith

Rounds-le : {step len offset end : ℕ} → Rounds step len offset end → offset ≤ end
Rounds-le (stop h) = omega arith
Rounds-le (round h r) = omega (arith, Rounds-le r)

Rounds-len : {step len offset end : ℕ} → Rounds step len offset end → len ≤ end
Rounds-len (stop h) = h
Rounds-len (round h r) = Rounds-len r

-- A byte of one chunk is that byte of the source.
chunk_byte :
    (src : Bytes) (offset n i : ℕ)
    → i < n
    → get_or (take n (drop offset src)) i 0 ≡ get_or src (offset + i) 0
chunk_byte src offset n i h = get_or-take n (drop offset src) i 0 h ∙ get_or-drop offset src i 0

length_chunk :
    (src : Bytes) (offset n : ℕ) → offset + n ≤ length src → length (take n (drop offset src)) ≡ n
length_chunk src offset n h = omega (arith, length-take n (drop offset src), length-drop offset src)

-- A memory with one chunk written, and then what is behind it, up to an end.
overlay_chunk :
    (src : Bytes) (addr offset n end a : ℕ) (m : Memory)
    → offset + n ≤ end
    → end ≤ length src
    → (if leb (addr + (offset + n)) a && ltb a (addr + end)
        then get_or src (a - addr) 0
        else overlay (addr + offset) (take n (drop offset src)) m a)
      ≡ (if leb (addr + offset) a && ltb a (addr + end) then get_or src (a - addr) 0 else m a)
overlay_chunk src addr offset n end a m h room =
    elim (Bool-cases (leb (addr + offset) a && ltb a (addr + offset + n))) [
      | inl e ↦
          let index : offset + (a - (addr + offset)) ≡ a - addr = ground arith in
          let byte : get_or (take n (drop offset src)) (a - (addr + offset)) 0
              ≡ get_or src (a - addr) 0 =
            chunk_byte src offset n (a - (addr + offset)) (ground arith)
            ∙ ap (λ k. get_or src k 0) index in
          ground (arith, length_chunk src offset n)
      | inr e ↦ ground (arith, length_chunk src offset n)
    ]

write_chunks_stop :
    (fuel : ℕ) (f : Flash Memory) (addr : ℕ) (src : Bytes) (len offset : ℕ) (m : Memory)
    → len ≤ offset
    → write_chunks (suc fuel) f addr src len offset true m ≡ (true, m)
unfolding write_chunks
write_chunks_stop fuel f addr src len offset m h = ground arith

write_chunks_round :
    (fuel : ℕ) (f : Flash Memory) (addr : ℕ) (src : Bytes) (len offset : ℕ) (m : Memory)
    → IsMemory f
    → offset < len
    → addr + offset < 2 ^ 32
    → write_chunks (suc fuel) f addr src len offset true m
      ≡ write_chunks fuel f addr src len
          (offset + f.writesize)
          true
          (overlay (addr + offset) (take f.writesize (drop offset src)) m)
unfolding write_chunks
write_chunks_round fuel f addr src len offset m mem h bound =
    let small : u32 (addr + offset) ≡ addr + offset = omega arith in
    let test : ltb offset len ≡ true = ground arith in
    rw test (rw small (rw (mem.writes (addr + offset) (take f.writesize (drop offset src)) m)))

-- What the loop leaves in the memory.
pub write_chunks-memory :
    (f : Flash Memory) (len fuel : ℕ) {offset end : ℕ} (addr : ℕ) (src : Bytes) (m : Memory)
    → Rounds f.writesize len offset end
    → IsMemory f
    → 0 < f.writesize
    → len - offset < fuel
    → end ≤ length src
    → addr + end ≤ 2 ^ 32
    → (m' : Memory) × (write_chunks fuel f addr src len offset true m ≡ (true, m'))
      × ((a : ℕ)
          → m' a ≡ (
              if leb (addr + offset) a && ltb a (addr + end) then get_or src (a - addr) 0 else m a))
write_chunks-memory f len zero addr src m r mem pos lt room top = absurd (omega arith)
write_chunks-memory f len (suc fuel) addr src m (stop {offset} h) mem pos lt room top =
    (m, write_chunks_stop fuel f addr src len offset m h, λ a. ground arith)
write_chunks-memory f len (suc fuel) addr src m (round {offset} {end} h r) mem pos lt room top =
    let m1 = overlay (addr + offset) (take f.writesize (drop offset src)) m in
    let (m', eq, val) =
      write_chunks-memory f len fuel addr src m1 r mem pos (omega arith) room top in
    let bound : addr + offset < 2 ^ 32 = omega (arith, Rounds-len r) in
    (
      m',
      write_chunks_round fuel f addr src len offset m mem h bound ∙ eq,
      λ a. val a ∙ overlay_chunk src addr offset f.writesize end a m (Rounds-le r) room,
    )

-- The sizes of a region: the write size divides the size of the buffer, both divide the address
-- space, and the masks of the code round down to their multiples.
pub record Sizes (ws wbs : ℕ) : Type 0 where
  pub count : ℕ
  pub buffers : ℕ
  pub ws_pos : 0 < ws
  pub count_pos : 0 < count
  pub multiple : wbs ≡ count * ws
  pub whole : 2 ^ 32 ≡ buffers * wbs
  pub align_write : (x : ℕ) → x < 2 ^ 32 → align_down x ws ≡ x / ws * ws
  pub align_buffer : (x : ℕ) → x < 2 ^ 32 → align_down x wbs ≡ x / wbs * wbs

-- Powers of two are such sizes.
pub Sizes-pow : (j i n : ℕ) → j + i + n ≡ 32 → Sizes (2 ^ j) (2 ^ (j + i))
Sizes-pow j i n e = record {
  count = 2 ^ i;
  buffers = 2 ^ n;
  ws_pos = one-le-pow j 2 (omega arith);
  count_pos = one-le-pow i 2 (omega arith);
  multiple = pow-add j i ∙ mul_comm (2 ^ j) (2 ^ i);
  whole = ap (λ k. 2 ^ k) (sym e) ∙ pow-add (j + i) n ∙ mul_comm (2 ^ (j + i)) (2 ^ n);
  align_write = λ x h. align_down-pow j x (omega arith) h;
  align_buffer = λ x h. align_down-pow (j + i) x (omega arith) h;
}
