-- ===== src/Crc/Chunks.antt =====
-- crc32.c: `generic_crc32` over a memory that can be read, in blocks of any size.
use blackmagic.Base.{
  ℕ, zero, suc, ◌+◌, ◌-◌, ◌^◌, ◌<◌, ◌≤◌, min, Option, none, some, [], ◌∷◌, ◌++◌, Bytes, take, Bool,
  false, if◌then◌else◌, ◌≡◌, refl, sym, ap, ◌∙◌, arith,
}
use blackmagic.Base.Words.{u32, align_down, align_down-pow}
use blackmagic.Crc.{Host, tick, crc32_calc, crc32_bytes, crc32_blocks, generic_crc32}

-- The bytes of a memory from an address on.
pub region : (ℕ → ℕ) → ℕ → ℕ → Bytes
region m base zero = []
region m base (suc n) = m base ∷ region m (base + 1) n

take-region : (m : ℕ → ℕ) (k n base : ℕ) → k ≤ n → take k (region m base n) ≡ region m base k
unfolding region
take-region m zero n base h = refl
take-region m (suc k) zero base h = absurd (omega arith)
take-region m (suc k) (suc n) base h =
    ap (λ r. m base ∷ r) (take-region m k n (base + 1) (omega arith))

region-add :
    (m : ℕ → ℕ) (k n base : ℕ) → region m base (k + n) ≡ region m base k ++ region m (base + k) n
unfolding region
region-add m zero n base =
    let count : 0 + n ≡ n = omega arith in
    let start : base ≡ base + 0 = omega arith in
    ap (region m base) count ∙ ap (λ a. region m a n) start
region-add m (suc k) n base =
    let count : suc k + n ≡ suc (k + n) = omega arith in
    ap (region m base) count
    ∙ ap (λ r. m base ∷ r)
        (region-add m k n (base + 1)
          ∙ ap (λ a. region m (base + 1) k ++ region m a n) (omega arith))

crc32_bytes-append :
    (crc : ℕ) (xs ys : Bytes) → crc32_bytes crc (xs ++ ys) ≡ crc32_bytes (crc32_bytes crc xs) ys
unfolding crc32_bytes
crc32_bytes-append crc [] ys = refl
crc32_bytes-append crc (x ∷ xs) ys = crc32_bytes-append (crc32_calc crc x) xs ys

-- A target whose memory reads as the bytes of `m`.
pub record ReadsMemory {W : Type 0} (host : Host W) (m : ℕ → ℕ) : Type 0 where
  pub reads : (a n : ℕ) (w : W) → host.mem_read a n w ≡ (false, region m a n, w)

module _ {W : Type 0} (host : Host W) (m : ℕ → ℕ) (rm : ReadsMemory host m) where
  aligned_enough : (n : ℕ) → n + 3 < 2 ^ 32 → n ≤ align_down (n + 3) 4
  aligned_enough n h = omega (arith, align_down-pow 2 (n + 3) (omega arith) h)

  -- What is left of a block behind its read.
  abbrev behind : ℕ → ℕ → ℕ → ℕ → ℕ → ℕ → ℕ → Bool × Bytes × W → Option (Option ℕ × W)
  behind fuel size last crc n next len r =
      if r.0
      then some (none, r.2)
      else crc32_blocks host fuel size last (crc32_bytes crc (take n r.1)) next (suc len - n) r.2

  blocks_step :
      (fuel size last crc base len : ℕ) (w : W)
      → (let n = min size (suc len) in
          crc32_blocks host (suc fuel) size last crc base (suc len) w
          ≡ behind fuel size
              (tick host last w).0
              crc
              n
              (u32 (base + n))
              len
              (host.mem_read base (align_down (n + 3) 4) (tick host last w).1))
  unfolding crc32_blocks
  blocks_step fuel size last crc base len w = refl

  blocks_round :
      (fuel size last crc base len : ℕ) (w : W)
      → (let n = min size (suc len) in
          n + 3 < 2 ^ 32
          → base + n < 2 ^ 32
          → crc32_blocks host (suc fuel) size last crc base (suc len) w
            ≡ crc32_blocks host fuel size
                (tick host last w).0
                (crc32_bytes crc (region m base n))
                (base + n)
                (suc len - n)
                (tick host last w).1)
  blocks_round fuel size last crc base len w h fits =
      let n = min size (suc len) in
      let last' = (tick host last w).0 in
      let w1 = (tick host last w).1 in
      let k = align_down (n + 3) 4 in
      let small : u32 (base + n) ≡ base + n = omega arith in
      blocks_step fuel size last crc base len w
      ∙ ap (λ r. behind fuel size last' crc n (u32 (base + n)) len r) (rm.reads base k w1)
      ∙ ap
          (λ x.
            crc32_blocks host fuel size last' (crc32_bytes crc x) (u32 (base + n)) (suc len - n) w1)
          (take-region m n k base (aligned_enough n h))
      ∙ ap
          (λ x.
            crc32_blocks host fuel size last' (crc32_bytes crc (region m base n)) x (suc len - n)
              w1)
          small

  -- The checksum of a part is that of its first bytes, carried on over the others.
  crc32_bytes-region :
      (crc base n len : ℕ)
      → n ≤ len
      → crc32_bytes (crc32_bytes crc (region m base n)) (region m (base + n) (len - n))
        ≡ crc32_bytes crc (region m base len)
  crc32_bytes-region crc base n len h =
      let whole : n + (len - n) ≡ len = omega arith in
      sym (crc32_bytes-append crc (region m base n) (region m (base + n) (len - n)))
      ∙ ap (crc32_bytes crc) (sym (region-add m n (len - n) base) ∙ ap (region m base) whole)

  crc32_blocks-region :
      (fuel size last crc base len : ℕ) (w : W)
      → 0 < size
      → len ≤ fuel
      → base + len < 2 ^ 32 - 3
      → (w' : W) × (crc32_blocks host fuel size last crc base len w
          ≡ some (some (crc32_bytes crc (region m base len)), w'))
  unfolding crc32_blocks region crc32_bytes
  crc32_blocks-region fuel size last crc base zero w pos enough fits = (w, blocks_done fuel)
    where
      blocks_done : (k : ℕ) → crc32_blocks host k size last crc base zero w ≡ some (some crc, w)
      blocks_done zero = refl
      blocks_done (suc k) = refl
  crc32_blocks-region zero size last crc base (suc len) w pos enough fits = absurd (omega arith)
  crc32_blocks-region (suc fuel) size last crc base (suc len) w pos enough fits =
      let n = min size (suc len) in
      let (w', eq) =
        crc32_blocks-region fuel size (tick host last w).0 (crc32_bytes crc (region m base n))
          (base + n) (suc len - n) (tick host last w).1 pos (omega arith) (omega arith) in
      (
        w',
        blocks_round fuel size last crc base len w (omega arith) (omega arith)
            ∙ eq
            ∙ ap (λ x. some (some x, w')) (crc32_bytes-region crc base n (suc len) (omega arith)),
      )

-- `generic_crc32` ends, and answers the checksum of exactly the bytes of the memory from the base
-- on, whatever the size of its buffer is, from one byte on, and whatever the clock shows, when every
-- read gives the bytes of the memory. The part ends more than three bytes below 2^32, and as much
-- fuel as bytes is enough.
pub generic_crc32-region :
    {W : Type 0} (host : Host W) (m : ℕ → ℕ) (size base len : ℕ) (w : W)
    → ReadsMemory host m
    → 0 < size
    → base + len < 2 ^ 32 - 3
    → (w' : W) × (generic_crc32 host len size base len w
        ≡ some (some (crc32_bytes 0xffffffff (region m base len)), w'))
unfolding generic_crc32
generic_crc32-region host m size base len w rm pos fits =
    crc32_blocks-region host m rm len size (host.time_ms w).0 0xffffffff base len (host.time_ms w).1
      pos (omega arith) fits
