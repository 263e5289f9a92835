-- ===== src/Morse.antt =====
-- morse.c: the indicator that blinks a message, as the firmware builds it.
pub mod Signals
use blackmagic.Base.{
  ℕ, zero, suc, ◌+◌, ◌-◌, ◌*◌, ◌/◌, ◌%◌, ◌^◌, ◌<◌, ◌≤◌, min, max, bit_and, bit_or, bit_xor, Option,
  none, some, List, [], ◌∷◌, ◌++◌, map, append-nil, append_assoc, Bytes, length, get_elem?, get_or,
  set, take, drop, replicate, All, subst, Bool, true, false, not, ◌&&◌, ◌||◌, ltb, leb, ◌==◌,
  if◌then◌else◌, ◌≡◌, ◌≢◌, refl, sym, ap, ◌∙◌, arith, ◌⊎◌, inl, inr, Bool-cases, Option-cases,
}

-- `morse_letter`: a pattern that is sent from its lowest bit, and its length.
pub record MorseLetter : Type 0 where
  pub code : ℕ
  pub bits : ℕ

abbrev pub letter : ℕ → ℕ → MorseLetter
letter code bits = record { code = code; bits = bits }

abbrev pub morse_letter : List MorseLetter
morse_letter =
    letter 0x001d 8
    ∷ letter 0x0157 12
    ∷ letter 0x05d7 14
    ∷ letter 0x0057 10
    ∷ letter 0x0001 4
    ∷ letter 0x0175 12
    ∷ letter 0x0177 12
    ∷ letter 0x0055 10
    ∷ letter 0x0005 6
    ∷ letter 0x1ddd 16
    ∷ letter 0x01d7 12
    ∷ letter 0x015d 12
    ∷ letter 0x0077 10
    ∷ letter 0x0017 8
    ∷ letter 0x0777 14
    ∷ letter 0x05dd 14
    ∷ letter 0x1d77 16
    ∷ letter 0x005d 10
    ∷ letter 0x0015 8
    ∷ letter 0x0007 6
    ∷ letter 0x0075 10
    ∷ letter 0x01d5 12
    ∷ letter 0x01dd 12
    ∷ letter 0x0757 14
    ∷ letter 0x1dd7 16
    ∷ letter 0x0577 14
    ∷ []

-- The variables of the file and the static ones of `morse_update`. The message is the memory that
-- its pointer leads to, with the character that ends it, or none for the null pointer.
pub record Morse : Type 0 where
  pub morse_msg : Option Bytes
  pub msg_index : ℕ
  pub morse_repeat : Bool
  pub code : ℕ
  pub bits : ℕ

abbrev pub size_max : ℕ
size_max = 2 ^ 32 - 1

unfoldable pub morse : Option Bytes → Bool → Morse → Morse
morse msg repeat m = record m { morse_msg = msg; msg_index = 0; morse_repeat = repeat }

-- A read of the message; none outside of it.
unfoldable pub read_msg : Morse → ℕ → Option ℕ
read_msg m i = elim m.morse_msg [ none ↦ none | some msg ↦ get_elem? msg i ]

-- The pattern of a character.
abbrev pub pattern_of : ℕ → MorseLetter
pattern_of c =
    if leb b'A' c && leb c b'Z' then get_or morse_letter (c - b'A') (letter 0 0) else letter 0 4

unfoldable pub load : ℕ → ℕ → Morse → Morse
load c index m = record m {
  msg_index = index;
  code = (pattern_of c).code;
  bits = (pattern_of c).bits;
}

-- The end of `morse_update`: a bit of the pattern.
unfoldable pub send_bit : Morse → Bool × Morse
send_bit m = (m.code % 2 == 1, record m { code = m.code / 2; bits = m.bits - 1 })

unfoldable pub next_character : Morse → Option (Bool × Morse)
next_character m = elim (read_msg m m.msg_index) [
  | none ↦ none
  | some c ↦
      if c == 0
      then (if m.morse_repeat
          then elim (read_msg m 0) [ none ↦ none | some c0 ↦ some (send_bit (load c0 1 m)) ]
          else some (false, record m { msg_index = size_max }))
      else some (send_bit (load c ((m.msg_index + 1) % 2 ^ 32) m))
]

-- None where the message is read outside of its memory.
unfoldable pub morse_update : Morse → Option (Bool × Morse)
morse_update m =
    if m.msg_index == size_max
    then some (false, m)
    else (if m.bits == 0 then next_character m else some (send_bit m))
