-- ===== src/Crc/Division.antt =====
-- crc32.c: the table of the code against the division by its polynomial.
use blackmagic.Base.{
  ℕ, zero, suc, ◌*◌, ◌^◌, ◌<◌, bit_xor, get_or, true, ltb, if◌then◌else◌, ◌≡◌, refl,
}
use blackmagic.Base.Words.{u32}
use blackmagic.Base.{agree, agree-below}
use blackmagic.Crc.{crc32_table}

-- One step of the division by the polynomial 0x04c11db7: the top bit is shifted out.
abbrev pub divide_bit : ℕ → ℕ
divide_bit r = if ltb r (2 ^ 31) then u32 (r * 2) else bit_xor (u32 (r * 2)) 0x04c11db7

-- `n` such steps.
unfoldable pub divide_bits : ℕ → ℕ → ℕ
divide_bits zero r = r
divide_bits (suc n) r = divide_bits n (divide_bit r)

table_agrees : agree (λ i. get_or crc32_table i 0) (λ i. divide_bits 8 (i * 2 ^ 24)) 256 ≡ true
unfolding agree divide_bits
table_agrees = refl

-- Every entry of the table of the code is the remainder of its position: eight steps of the bitwise
-- division by 0x04c11db7 from the position in the top byte.
pub crc32_table-divide_bits :
    (i : ℕ) → i < 256 → get_or crc32_table i 0 ≡ divide_bits 8 (i * 2 ^ 24)
crc32_table-divide_bits i lt =
    agree-below (λ i. get_or crc32_table i 0) (λ i. divide_bits 8 (i * 2 ^ 24)) 256 i lt
      table_agrees
