-- ===== src/Hex/RoundTrip.antt =====
-- hex_utils.c: what `hexify` writes is read back by `unhexify`, in either case of the letters.
use blackmagic.Base.{
  ℕ, ◌+◌, ◌-◌, ◌*◌, ◌/◌, ◌%◌, ◌^◌, ◌<◌, bit_and, some, [], ◌∷◌, ◌++◌, Bytes, length, All, ltb,
  if◌then◌else◌, ◌≡◌, refl, arith,
}
use blackmagic.Base.Words.{bit_or_fields, bit_and_mask}
use blackmagic.Hex.{hex_digit, hexify, unhex_digit, unhex_pair, unhexify}

-- The two digits that stand for `v` in either case.
abbrev pub lower_digit : ℕ → ℕ
lower_digit v = if ltb 9 v then b'a' + (v - 10) else b'0' + v

-- `unhex_digit` reads back the digit of every nibble, and its lower-case form.
pub unhex_digit-hex_digit :
    (v : ℕ) → v < 16 → (unhex_digit (hex_digit v) ≡ v) × (unhex_digit (lower_digit v) ≡ v)
unfolding hex_digit unhex_digit
unhex_digit-hex_digit v h = ground arith

-- Hexadecimal text has two characters for each byte.
pub length-hexify : (bs : Bytes) → length (hexify bs) ≡ 2 * length bs
unfolding hexify
length-hexify [] = refl
length-hexify (b ∷ bs) = omega (arith, length-hexify bs)

-- A byte from its two digits.
unhex_pair-hex_digit :
    (b : ℕ) → b < 256 → unhex_pair (hex_digit (b / 2 ^ 4)) (hex_digit (bit_and b 0xf)) ≡ b
unhex_pair-hex_digit b h = ground (
  arith,
  bit_and_mask 4 b,
  unhex_digit-hex_digit (b / 16),
  unhex_digit-hex_digit (b % 16),
  bit_or_fields 4 (b / 16) (b % 16),
)

-- `unhexify` reads back the bytes that `hexify` wrote, whatever text follows them.
pub unhexify-hexify :
    (bs rest : Bytes) → All (λ b. b < 256) bs → unhexify (length bs) (hexify bs ++ rest) ≡ some bs
unfolding hexify unhexify
unhexify-hexify [] rest h = refl
unhexify-hexify (b ∷ bs) rest h =
    ground (arith, unhex_pair-hex_digit b h.0, unhexify-hexify bs rest h.1)
