-- ===== src/Session/Scanf.antt =====
-- gdb_main.c: the calls of `sscanf`. A text ends at its NUL or at the end of the list.
use blackmagic.Base.{
  ℕ, zero, suc, ◌+◌, ◌-◌, ◌*◌, ◌^◌, Option, none, some, [], ◌∷◌, Bytes, length, Bool, true, false,
  ◌&&◌, ◌||◌, ltb, leb, ◌==◌, if◌then◌else◌,
}
use blackmagic.Base.Words.{u32}

abbrev is_space : ℕ → Bool
is_space c = c == b' ' || (leb 9 c && leb c 13)

-- The text behind leading white space.
unfoldable pub skip_spaces : Bytes → Bytes
skip_spaces [] = []
skip_spaces (c ∷ cs) = if is_space c then skip_spaces cs else c ∷ cs

-- The text behind a literal prefix.
unfoldable pub strip : Bytes → Bytes → Option Bytes
strip [] text = some text
strip (p ∷ ps) [] = none
strip (p ∷ ps) (c ∷ cs) = if p == c then strip ps cs else none

-- The value of a digit of a base up to 16.
abbrev pub digit_of : ℕ → ℕ → Option ℕ
digit_of base c =
    let v =
      if leb b'0' c && leb c b'9'
      then c - b'0'
      else if leb b'A' c && leb c b'F'
      then c - b'A' + 10
      else if leb b'a' c && leb c b'f'
      then c - b'a' + 10
      else 16 in
    if ltb v base then some v else none

-- Digits, at most `n` of them: whether there are any, their value behind `acc`, what follows.
unfoldable pub digits : ℕ → ℕ → Bool → ℕ → Bytes → Bool × ℕ × Bytes
digits base zero any acc text = (any, acc, text)
digits base (suc n) any acc [] = (any, acc, [])
digits base (suc n) any acc (c ∷ cs) = elim (digit_of base c) [
  | none ↦ (any, acc, c ∷ cs)
  | some d ↦ digits base n true (acc * base + d) cs
]

-- What `%x` allows before the digits.
abbrev pub behind_0x : ℕ → Bytes → ℕ × Bytes
behind_0x width (zero_ ∷ x ∷ cs) =
    if leb 2 width && zero_ == b'0' && (x == b'x' || x == b'X')
    then (width - 2, cs)
    else (width, zero_ ∷ x ∷ cs)
behind_0x width text = (width, text)

abbrev pub behind_sign : ℕ → Bytes → Bool × ℕ × Bytes
behind_sign width [] = (false, width, [])
behind_sign width (c ∷ cs) =
    if leb 1 width && (c == b'-' || c == b'+')
    then (c == b'-', width - 1, cs)
    else (false, width, c ∷ cs)

-- A conversion `%x` (base 16) or `%u` (base 10) of up to `width` characters to 32 bits; `oversized`
-- is the value of a number that has no representation.
unfoldable pub scan_number : (ℕ → ℕ) → ℕ → ℕ → Bytes → Option (ℕ × Bytes)
unfolding skip_spaces digits
scan_number oversized base width text =
    let (negative, w1, text1) = behind_sign width (skip_spaces text) in
    let (w2, text2) = if base == 16 then behind_0x w1 text1 else (w1, text1) in
    let (any, v, rest) = digits base w2 false 0 text2 in
    let v' = if ltb v (2 ^ 32) then v else u32 (oversized v) in
    if any then some (if negative then u32 (2 ^ 32 - v') else v', rest) else none

-- The width of a conversion that names none: no longer than the text.
abbrev pub unlimited : Bytes → ℕ
unlimited text = length text

-- `"<prefix>%x<separator>%x"`: the two numbers as far as they are read. `width` is 8 for `%08x`.
unfoldable pub scan_pair :
    (ℕ → ℕ) → Bytes → Bytes → Option ℕ → Bytes → Option ℕ × Option (ℕ × Bytes)
unfolding strip scan_number
scan_pair oversized prefix separator width text =
    let wide : ℕ = elim width [ none ↦ unlimited text | some n ↦ n ] in
    elim (strip prefix text) [
      | none ↦ (none, none)
      | some at ↦ elim (scan_number oversized 16 wide at) [
        | none ↦ (none, none)
        | some (addr, rest) ↦ elim (strip separator rest) [
          | none ↦ (some addr, none)
          | some behind ↦ (some addr, scan_number oversized 16 wide behind)
        ]
      ]
    ]

-- A number behind a prefix.
unfoldable pub scan_one : (ℕ → ℕ) → Bytes → Option ℕ → Bytes → Option (ℕ × Bytes)
unfolding strip scan_number
scan_one oversized prefix width text =
    let wide : ℕ = elim width [ none ↦ unlimited text | some n ↦ n ] in
    elim (strip prefix text) [ none ↦ none | some at ↦ scan_number oversized 16 wide at ]

-- A value that is read, or that of the variable before.
abbrev pub or_else : ℕ → Option ℕ → ℕ
or_else d none = d
or_else d (some v) = v

abbrev pub number_of : Option (ℕ × Bytes) → Option ℕ
number_of none = none
number_of (some r) = some r.0

-- `%n`: the characters of the text before a position.
abbrev pub offset_of : Bytes → Option Bytes → Option ℕ
offset_of text none = none
offset_of text (some rest) = some (length text - length rest)

-- The literal text that stands before a `%n`, behind a number.
unfoldable pub literal_behind : Bytes → Option (ℕ × Bytes) → Option Bytes
unfolding strip
literal_behind lit none = none
literal_behind lit (some r) = strip lit r.1

-- `%*[zZ]`.
unfoldable pub skip_z : Bytes → Option Bytes
skip_z [] = none
skip_z (c ∷ cs) =
    let rest = skip_z cs in
    let more : Bytes = elim rest [ none ↦ cs | some r ↦ r ] in
    if c == b'z' || c == b'Z' then some more else none
