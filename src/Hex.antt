-- ===== src/Hex.antt =====
-- hex_utils.c: bytes to and from text in hexadecimal digits. A `char` is its code, below 256, so
-- the sums and differences of `char` and `uint8_t` values are taken modulo 256.
pub mod RoundTrip
use blackmagic.Base.{
  ℕ, zero, suc, ◌+◌, ◌-◌, ◌*◌, ◌/◌, ◌%◌, ◌^◌, bit_and, bit_or, Option, none, some, List, [], ◌∷◌,
  Bytes, ltb, if◌then◌else◌,
}
use blackmagic.Base.Words.{u8}

-- `hex_digit`.
unfoldable pub hex_digit : ℕ → ℕ
hex_digit value =
    let digit = value in
    let digit' = if ltb 9 value then u8 (digit + (b'A' - b'0' - 10)) else digit in
    u8 (digit' + b'0')

-- `hexify`: the digits written, without the NUL behind them.
unfoldable pub hexify : Bytes → Bytes
unfolding hex_digit
hexify [] = []
hexify (b ∷ buf) = hex_digit (b / 2 ^ 4) ∷ hex_digit (bit_and b 0xf) ∷ hexify buf

-- `unhex_digit`; the two subtractions wrap in `uint8_t`.
unfoldable pub unhex_digit : ℕ → ℕ
unhex_digit hex =
    let tmp = u8 (hex + 256 - b'0') in
    let tmp' = if ltb 9 tmp then u8 (tmp + 256 - (b'A' - b'0' - 10)) else tmp in
    if ltb 16 tmp' then u8 (tmp' + 256 - (b'a' - b'A')) else tmp'

-- One byte of `unhexify`, from two digits.
abbrev pub unhex_pair : ℕ → ℕ → ℕ
unhex_pair hi lo = u8 (bit_or (unhex_digit hi * 2 ^ 4) (unhex_digit lo))

-- `unhexify`: `size` bytes from the digits at `hex`; `none` is a read past the end of the text.
unfoldable pub unhexify : ℕ → Bytes → Option Bytes
unfolding unhex_digit
unhexify zero hex = some []
unhexify (suc size) (hi ∷ lo ∷ hex) = elim (unhexify size hex) [
  | none ↦ none
  | some dst ↦ some (unhex_pair hi lo ∷ dst)
]
unhexify (suc size) _ = none
