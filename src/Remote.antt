-- ===== src/Remote.antt =====
-- remote.c: the numbers of the remote protocol, and the responses that the firmware puts out.
-- A response is the list of characters that are put out for it.
pub mod Dispatch
pub mod Numbers
pub mod Responses
use blackmagic.Base.{
  ℕ, zero, suc, ◌+◌, ◌-◌, ◌*◌, ◌/◌, ◌%◌, ◌^◌, ◌<◌, ◌≤◌, min, max, bit_and, bit_or, bit_xor, Option,
  none, some, List, [], ◌∷◌, ◌++◌, map, append-nil, append_assoc, Bytes, length, get_elem?, get_or,
  set, take, drop, replicate, All, subst, Bool, true, false, not, ◌&&◌, ◌||◌, ltb, leb, ◌==◌,
  if◌then◌else◌, ◌≡◌, ◌≢◌, refl, sym, ap, ◌∙◌, arith, ◌⊎◌, inl, inr, Bool-cases, Option-cases,
}
use blackmagic.Hex.{hex_digit, hexify}

-- `ISHEX`, `TOUPPER` and `HTON`.
abbrev pub is_hex : ℕ → Bool
is_hex x = (leb b'0' x && leb x b'9') || (leb b'A' x && leb x b'F') || (leb b'a' x && leb x b'f')

abbrev pub to_upper : ℕ → ℕ
to_upper x = if leb b'a' x && leb x b'z' then x - (b'a' - b'A') else x

abbrev pub hex_to_num : ℕ → ℕ
hex_to_num x = if leb x b'9' then x - b'0' else to_upper x - b'A' + 10

-- `remote_hex_string_to_num` with what it has read so far; the shift is of 64 bits. The text ends
-- with the buffer.
pub read_hex : ℕ → Bytes → ℕ → ℕ
read_hex max [] ret = ret
read_hex max (value ∷ str) ret =
    let rest = read_hex (max - 1) str (bit_or (ret * 2 ^ 4 % 2 ^ 64) (hex_to_num value)) in
    if max == 0 then ret else if not (is_hex value) then ret else rest

unfoldable pub hex_string_to_num : ℕ → Bytes → ℕ
unfolding read_hex
hex_string_to_num max str = read_hex max str 0

-- `remote_send_buf`: the bytes one by one through `hexify`.
unfoldable pub send_buf : Bytes → Bytes
send_buf [] = []
send_buf (b ∷ buffer) = hexify (b ∷ []) ++ send_buf buffer

-- `remote_respond_buf`.
unfoldable pub respond_buf : ℕ → Bytes → Bytes
unfolding send_buf
respond_buf code buffer = b'&' ∷ code ∷ (send_buf buffer ++ (b'#' ∷ []))

-- The first loop of `remote_respond`: the digits of `param`, lowest first, at most `room` of them.
pub low_digits : ℕ → ℕ → Bytes
low_digits zero param = []
low_digits (suc room) param =
    let rest = hex_digit (bit_and param 0xf) ∷ low_digits room (param / 2 ^ 4) in
    if param == 0 then [] else rest

-- A response to 0 is the digit `0`.
abbrev pub some_digits : Bytes → Bytes
some_digits [] = b'0' ∷ []
some_digits (c ∷ cs) = c ∷ cs

-- The second loop puts the digits out from the last to the first.
abbrev pub backwards : Bytes → Bytes → Bytes
backwards [] behind = behind
backwards (c ∷ cs) behind = backwards cs (c ∷ behind)

-- `remote_respond`.
unfoldable pub respond : ℕ → ℕ → Bytes
respond code param = b'&' ∷ code ∷ backwards (some_digits (low_digits 16 param)) (b'#' ∷ [])

-- The loop of `remote_respond_string`.
pub sanitise : Bytes → Bytes
sanitise [] = []
sanitise (chr ∷ str) =
    (if chr == b'$' || chr == b'!' || chr == b'#' then b' ' else chr) ∷ sanitise str

-- `remote_respond_string`.
unfoldable pub respond_string : ℕ → Bytes → Bytes
unfolding sanitise
respond_string code str = b'&' ∷ code ∷ (sanitise str ++ (b'#' ∷ []))
