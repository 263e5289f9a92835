-- ===== src/Remote/Numbers.antt =====
-- remote.c: the number in a response is read back by `remote_hex_string_to_num`.
use blackmagic.Base.{
  ℕ, zero, suc, ◌+◌, ◌-◌, ◌*◌, ◌/◌, ◌%◌, ◌^◌, ◌<◌, ◌≤◌, max, bit_and, [], ◌∷◌, Bytes, length, drop,
  true, false, ◌==◌, ◌≡◌, refl, ◌∙◌, arith, inl, inr, Bool-cases,
}
use native.Mathlib.Nat.{pow-suc}
use blackmagic.Base.Words.{bit_and_mask, bit_or_fields}
use blackmagic.Hex.{hex_digit}
use blackmagic.Remote.{
  is_hex, hex_to_num, read_hex, hex_string_to_num, low_digits, some_digits, backwards, respond,
}

-- The digit of a nibble is read as that nibble.
hex_to_num-hex_digit :
    (v : ℕ) → v < 16 → (is_hex (hex_digit v) ≡ true) × (hex_to_num (hex_digit v) ≡ v)
unfolding hex_digit
hex_to_num-hex_digit v h = ground arith

-- One digit behind a number that leaves room for it.
read_hex-hex_digit :
    (max v ret : ℕ) (str : Bytes)
    → 0 < max
    → v < 16
    → ret * 16 < 2 ^ 64
    → read_hex max (hex_digit v ∷ str) ret ≡ read_hex (max - 1) str (ret * 16 + v)
unfolding read_hex
read_hex-hex_digit max v ret str hm hv hr =
    ground (arith, hex_to_num-hex_digit v hv, bit_or_fields 4 ret v hv)

length-low_digits : (room param : ℕ) → length (low_digits room param) ≤ room
unfolding low_digits
length-low_digits zero param = omega arith
length-low_digits (suc room) param = ground (arith, length-low_digits room (param / 16))

read_hex-low_digits :
    (room param max : ℕ) (behind : Bytes)
    → param < 2 ^ 64
    → param < 16 ^ room
    → room ≤ max
    → read_hex max (backwards (low_digits room param) behind) 0
      ≡ read_hex (max - length (low_digits room param)) behind param
unfolding low_digits
read_hex-low_digits zero param max behind h64 h hm =
    let e : param ≡ 0 = omega arith in let f : max - 0 ≡ max = omega arith in rw (e, f)
read_hex-low_digits (suc room) param max behind h64 h hm = elim (Bool-cases (param == 0)) [
  | inl e ↦ let z : param ≡ 0 = ground arith in let f : max - 0 ≡ max = omega arith in rw (z, f)
  | inr e ↦
      let n = length (low_digits room (param / 16)) in
      rw e (
        read_hex-low_digits room (param / 16) max (hex_digit (bit_and param 0xf) ∷ behind)
          (omega arith) (omega (arith, pow-suc 16 room)) (omega arith)
        ∙ rw (bit_and_mask 4 param) (
            read_hex-hex_digit (max - n) (param % 16) (param / 16) behind
              (omega (arith, length-low_digits room (param / 16))) (omega arith) (omega arith)
            ∙ (let a : param / 16 * 16 + param % 16 ≡ param = omega arith in
                let b : max - n - 1 ≡ max - suc n = omega arith in rw (a, b))))
]

read_hex_end : (max ret : ℕ) → read_hex max (b'#' ∷ []) ret ≡ ret
unfolding read_hex
read_hex_end max ret = ground arith

read_hex_zero : read_hex 16 (b'0' ∷ b'#' ∷ []) 0 ≡ 0
unfolding read_hex
read_hex_zero = refl

low_digits-zero : (room : ℕ) → low_digits (suc room) 0 ≡ []
unfolding low_digits
low_digits-zero room = refl

some_digits-low_digits :
    (room param : ℕ)
    → (param == 0) ≡ false
    → some_digits (low_digits (suc room) param) ≡ low_digits (suc room) param
unfolding low_digits
some_digits-low_digits room param e = rw e

-- What `remote_respond` writes behind the response
-- code is read back by `remote_hex_string_to_num` as the same number, for every 64-bit value.
pub hex_string_to_num-respond :
    (code param : ℕ) → param < 2 ^ 64 → hex_string_to_num 16 (drop 2 (respond code param)) ≡ param
unfolding hex_string_to_num respond
hex_string_to_num-respond code param h = elim (Bool-cases (param == 0)) [
  | inl e ↦ let z : param ≡ 0 = ground arith in rw z (rw (low_digits-zero 15) read_hex_zero)
  | inr e ↦ rw (some_digits-low_digits 15 param e) (
      read_hex-low_digits 16 param 16 (b'#' ∷ []) h h (omega arith)
      ∙ read_hex_end (16 - length (low_digits 16 param)) param)
]
