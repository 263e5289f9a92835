-- ===== src/Packet.antt =====
-- gdb_packet.c: reception and transmission of packets of the GDB remote protocol.
-- `gdb_getpacket` is a machine that takes one character at a time: each phase is one of the places
-- where the code calls `gdb_if_getchar`. A character is its code, below 256. The machine is that of
-- the firmware build (`PC_HOSTED == 0`). The `DEBUG_GDB` lines are left out.
pub mod Bounds
pub mod Frame
pub mod Transmit
pub mod RoundTrip
use blackmagic.Base.{
  ℕ, zero, suc, ◌+◌, ◌-◌, ◌*◌, ◌/◌, ◌%◌, ◌^◌, ◌<◌, ◌≤◌, min, max, bit_and, bit_or, bit_xor, Option,
  none, some, List, [], ◌∷◌, ◌++◌, map, append-nil, append_assoc, Bytes, length, get_elem?, get_or,
  set, take, drop, replicate, All, Bool, true, false, not, ◌&&◌, ◌||◌, ltb, leb, ◌==◌,
  if◌then◌else◌, ◌≡◌, ◌≢◌, refl, sym, ap, ◌∙◌, arith, ◌⊎◌, inl, inr, Bool-cases, Option-cases,
}
use blackmagic.Base.Words.{u8}
use blackmagic.Hex.{hex_digit}

-- What the functions do to the outside: `gdb_if_putchar(c, flush)`, and the packets that are handed
-- to `remote_packet_process`, with the buffer as it was then.
pub data Event : Type 0 where
  put : ℕ → Bool → Event
  remote_call : ℕ → Bytes → Event

-- Where `gdb_getpacket` waits for a character. `check_low` holds `recv_csum[0]`.
pub data Phase : Type 0 where
  start remote_body body escaped check_high : Phase
  check_low : ℕ → Phase

-- The variables of `gdb_getpacket`, the caller's buffer, and the events so far.
pub record Receiver : Type 0 where
  pub packet : Bytes
  pub offset : ℕ
  pub csum : ℕ
  pub out : List Event

pub data Progress : Type 0 where
  more : Phase → Receiver → Progress
  done : ℕ → Receiver → Progress

-- `strtol(recv_csum, NULL, 16)` of a text of two characters: the sign and the magnitude.
abbrev is_space : ℕ → Bool
is_space c = c == b' ' || (leb 9 c && leb c 13)

abbrev is_hex : ℕ → Bool
is_hex c = (leb b'0' c && leb c b'9') || (leb b'A' c && leb c b'F') || (leb b'a' c && leb c b'f')

abbrev hex_value : ℕ → ℕ
hex_value c = if leb c b'9' then c - b'0' else if leb c b'F' then c - b'A' + 10 else c - b'a' + 10

pub strtol_hex : ℕ → ℕ → Bool × ℕ
strtol_hex a b =
    if is_hex a
    then (false, if is_hex b then 16 * hex_value a + hex_value b else hex_value a)
    else if is_space a || a == b'+' || a == b'-'
    then (a == b'-', if is_hex b then hex_value b else 0)
    else (false, 0)

-- `csum == strtol(...)`, both sides as `long`.
unfoldable pub checksum_matches : ℕ → ℕ → ℕ → Bool
unfolding strtol_hex
checksum_matches csum a b =
    let (negative, value) = strtol_hex a b in csum == value && (not negative || value == 0)

-- `size` is the argument, and `remote` what `remote_packet_process` leaves in the buffer.
module _ (size : ℕ) (remote : ℕ → Bytes → Bytes) where
  -- In the spin loop for a start of packet.
  step_start : Receiver → ℕ → Progress
  step_start r c =
      let r' = record r { packet = set r.packet 0 c } in
      if c == 0x04
      then done 1 r'
      else if c == b'!'
      then more remote_body (record r' { offset = 0 })
      else if c == b'$'
      then more body (record r' { offset = 0; csum = 0 })
      else more start r'

  -- Behind a remote packet `packet[0]` is reset, and the wait for a start goes on.
  abbrev leave_remote : Receiver → Bytes → List Event → Progress
  leave_remote r packet out = more start (record r { packet = set packet 0 0; out = out })

  step_remote : Receiver → ℕ → Progress
  step_remote r c =
      if c == b'!'
      then more remote_body (record r { offset = 0 })
      else if c == b'#'
      then (let packet = set r.packet r.offset 0 in
          leave_remote r (remote r.offset packet) (r.out ++ (remote_call r.offset packet ∷ [])))
      else if c == b'$'
      then leave_remote r (set r.packet 0 b'$') r.out
      else if ltb r.offset size
      then more remote_body (record r { packet = set r.packet r.offset c; offset = r.offset + 1 })
      else leave_remote r r.packet r.out

  -- In the capture loop.
  step_body : Receiver → ℕ → Progress
  step_body r c =
      if c == b'#'
      then more check_high r
      else if r.offset == size
      then more check_high r
      else if c == b'$'
      then more body (record r { offset = 0; csum = 0 })
      else if c == b'}'
      then more escaped r
      else more body (record r {
        packet = set r.packet r.offset c;
        offset = r.offset + 1;
        csum = u8 (r.csum + c);
      })

  -- Behind `}`. A raw `#` here ends the loop by its test `c != '#'`.
  step_escaped : Receiver → ℕ → Progress
  step_escaped r c = more (if c == b'#' then check_high else body) (record r {
    packet = set r.packet r.offset (bit_xor c 0x20);
    offset = r.offset + 1;
    csum = u8 (r.csum + (c + b'}'));
  })

  -- Behind both digits of the checksum.
  step_check : Receiver → ℕ → ℕ → Progress
  step_check r a b =
      if checksum_matches r.csum a b
      then done r.offset
          (record r { packet = set r.packet r.offset 0; out = r.out ++ (put b'+' true ∷ []) })
      else more start (record r { out = r.out ++ (put b'-' true ∷ []) })

  unfoldable pub step : Phase → Receiver → ℕ → Progress
  unfolding step_start step_remote step_body step_escaped step_check
  step start r c = step_start r c
  step remote_body r c = step_remote r c
  step body r c = step_body r c
  step escaped r c = step_escaped r c
  step check_high r c = more (check_low c) r
  step (check_low a) r c = step_check r a c

-- How `gdb_getpacket` stands on a finite input: it waits for more, or has returned a length.
pub data Reception : Type 0 where
  waiting : Phase → Receiver → Reception
  received : ℕ → Receiver → Bytes → Reception

module _ (size : ℕ) (remote : ℕ → Bytes → Bytes) where
  unfoldable pub run : Phase → Receiver → Bytes → Reception
  run p r [] = waiting p r
  run p r (c ∷ cs) = elim (step size remote p r c) [
    | more q s ↦ run q s cs
    | done n s ↦ received n s cs
  ]

  -- `gdb_getpacket(packet, size)` on the characters that arrive. `csum` is not read before it is set.
  unfoldable pub getpacket : Bytes → Bytes → Reception
  unfolding run
  getpacket packet = run start (record { packet = packet; offset = 0; csum = 0; out = [] })

-- `gdb_next_char`: the characters put out and the checksum after them.
pub next_char : ℕ → ℕ → Bytes × ℕ
next_char value csum =
    if value == b'$' || value == b'#' || value == b'}' || value == b'*'
    then (b'}' ∷ bit_xor value 0x20 ∷ [], u8 (csum + (b'}' + bit_xor value 0x20)))
    else (value ∷ [], u8 (csum + value))

-- The loop over the bytes of a packet.
unfoldable pub put_chars : Bytes → ℕ → Bytes × ℕ
unfolding next_char
put_chars [] csum = ([], csum)
put_chars (b ∷ bs) csum =
    let (first, csum') = next_char b csum in
    let (rest, total) = put_chars bs csum' in (first ++ rest, total)

-- `snprintf(xmit_csum, sizeof(xmit_csum), "%02X", csum)`.
abbrev pub checksum_text : ℕ → Bytes
checksum_text csum = hex_digit (csum / 16) ∷ hex_digit (csum % 16) ∷ []

-- The last character is put with the flush flag, the others without.
abbrev pub put_all : Bytes → List Event
put_all [] = []
put_all (c ∷ []) = put c true ∷ []
put_all (c ∷ d ∷ cs) = put c false ∷ put_all (d ∷ cs)

-- The characters of one transmission with the given marker in front.
unfoldable pub frame : ℕ → Bytes → Bytes
unfolding put_chars
frame marker bs =
    let (text, csum) = put_chars bs 0 in marker ∷ (text ++ (b'#' ∷ checksum_text csum))

-- The loop `do … while (gdb_if_getchar_to(2000) != '+' && tries++ < 3U)`; `reply` gives what
-- `gdb_if_getchar_to` returns for each try (`none` on a timeout), `left` is `3 - tries`.
unfoldable pub transmit : (ℕ → Option ℕ) → Bytes → ℕ → ℕ → List Event
transmit reply text zero tries = put_all text
transmit reply text (suc left) tries =
    let again = transmit reply text left (tries + 1) in
    put_all text ++ elim (reply tries) [ none ↦ again | some c ↦ if c == b'+' then [] else again ]

-- `gdb_putpacket`.
unfoldable pub putpacket : (ℕ → Option ℕ) → Bytes → List Event
putpacket reply packet = transmit reply (frame b'$' packet) 3 0

-- `gdb_putpacket2`.
unfoldable pub putpacket2 : (ℕ → Option ℕ) → Bytes → Bytes → List Event
putpacket2 reply packet1 packet2 =
    let (text1, csum1) = put_chars packet1 0 in
    let (text2, csum2) = put_chars packet2 csum1 in
    transmit reply (b'$' ∷ (text1 ++ (text2 ++ (b'#' ∷ checksum_text csum2)))) 3 0

-- `gdb_put_notification`.
unfoldable pub put_notification : Bytes → List Event
put_notification packet = put_all (frame b'%' packet)

-- The characters among the events.
abbrev pub sent : List Event → Bytes
sent [] = []
sent (put c flush ∷ es) = c ∷ sent es
sent (remote_call n buf ∷ es) = sent es
