-- ===== src/Packet/Frame.antt =====
-- gdb_packet.c: how `gdb_getpacket` takes in one frame of the transmitter.
use blackmagic.Base.{
  ℕ, ◌+◌, ◌/◌, ◌%◌, ◌<◌, ◌≤◌, bit_xor, [], ◌∷◌, ◌++◌, append_assoc, Bytes, length, set, subst, Bool,
  true, false, ◌||◌, ◌==◌, ◌≡◌, ◌≢◌, refl, sym, ap, ◌∙◌, arith, ◌⊎◌, inl, inr, Bool-cases,
}
use blackmagic.Base.{write_at}
use native.Mathlib.Nat.{add-zero}
use blackmagic.Hex.{hex_digit}
use blackmagic.Packet.{
  start, body, check_low, Receiver, step, received, run, next_char, put_chars, checksum_text, frame,
  checksum_matches, put,
}

-- The bytes that the transmitter escapes.
abbrev special : ℕ → Bool
special b = b == b'$' || b == b'#' || b == b'}' || b == b'*'

-- Escaping twice gives the byte back, and no escaped byte is the end marker.
escape_twice :
    (b : ℕ) → special b ≡ true → (bit_xor (bit_xor b 0x20) 0x20 ≡ b) × (bit_xor b 0x20 ≢ b'#')
escape_twice b h =
    let P : ℕ → Type 0 = λ x. (bit_xor (bit_xor x 0x20) 0x20 ≡ x) × (bit_xor x 0x20 ≢ b'#') in
    elim cases [
      | inl e ↦ subst P (sym e) (refl, omega arith)
      | inr (inl e) ↦ subst P (sym e) (refl, omega arith)
      | inr (inr (inl e)) ↦ subst P (sym e) (refl, omega arith)
      | inr (inr (inr e)) ↦ subst P (sym e) (refl, omega arith)
    ]
  where
    cases : (b ≡ b'$') ⊎ ((b ≡ b'#') ⊎ ((b ≡ b'}') ⊎ (b ≡ b'*')))
    cases = ground arith

-- What the checksum is after the bytes of a packet.
abbrev pub total : Bytes → ℕ → ℕ
total bs csum = (put_chars bs csum).1

module _ (size : ℕ) (remote : ℕ → Bytes → Bytes) where
  abbrev pub capture : Receiver → Bytes → Receiver
  capture r bs = record r {
    packet = write_at r.packet r.offset bs;
    offset = r.offset + length bs;
    csum = total bs r.csum;
  }

  -- One byte of a packet, escaped or not, is captured.
  run-next_char :
      (r : Receiver) (b : ℕ) (rest : Bytes)
      → r.offset < size
      → run size remote body r ((next_char b r.csum).0 ++ rest)
        ≡ run size remote body
            (record r {
              packet = set r.packet r.offset b;
              offset = r.offset + 1;
              csum = (next_char b r.csum).1;
            })
            rest
  unfolding run step next_char
  run-next_char r b rest h = elim (Bool-cases (special b)) [
    | inl e ↦ ground (arith, escape_twice b e)
    | inr e ↦ ground arith
  ]

  -- The bytes of a packet are captured one after the other.
  run_chars :
      (bs : Bytes) (r : Receiver) (rest : Bytes)
      → r.offset + length bs ≤ size
      → run size remote body r ((put_chars bs r.csum).0 ++ rest)
        ≡ run size remote body (capture r bs) rest
  unfolding put_chars
  run_chars [] r rest h = rw add-zero
  run_chars (b ∷ bs) r rest h =
      let (first, csum) = next_char b r.csum in
      let r' = record r { packet = set r.packet r.offset b; offset = r.offset + 1; csum = csum } in
      ap (run size remote body r) (append_assoc first (put_chars bs csum).0 rest)
      ∙ run-next_char r b ((put_chars bs csum).0 ++ rest) (omega arith)
      ∙ run_chars bs r' rest (omega arith)
      ∙ ground arith

  -- What is captured of a frame that is met in the wait for a start.
  abbrev pub captured : Receiver → Bytes → Receiver
  captured r bs = capture (record r { packet = set r.packet 0 b'$'; offset = 0; csum = 0 }) bs

  pub run_frame :
      (bs : Bytes) (r : Receiver) (a b : ℕ) (rest : Bytes)
      → length bs ≤ size
      → run size remote start r (b'$' ∷ ((put_chars bs 0).0 ++ (b'#' ∷ a ∷ b ∷ rest)))
        ≡ run size remote (check_low a) (captured r bs) (b ∷ rest)
  unfolding run step
  run_frame bs r a b rest h = ground (
    arith,
    run_chars bs (record r { packet = set r.packet 0 b'$'; offset = 0; csum = 0 })
        (b'#' ∷ a ∷ b ∷ rest) (omega arith),
  )

total-lt : (bs : Bytes) (csum : ℕ) → csum < 256 → total bs csum < 256
unfolding put_chars
total-lt [] csum h = h
total-lt (b ∷ bs) csum h = total-lt bs (next_char b csum).1 (ground arith)

-- The receiver reads the checksum that the transmitter writes.
pub checksum_matches_text :
    (csum : ℕ)
    → csum < 256
    → checksum_matches csum (hex_digit (csum / 16)) (hex_digit (csum % 16)) ≡ true
unfolding checksum_matches hex_digit
checksum_matches_text csum h = ground arith

module _ (size : ℕ) (remote : ℕ → Bytes → Bytes) where
  -- What the receiver returns on a good checksum, and the state it goes on in on a bad one.
  abbrev pub accepted : Receiver → Receiver
  accepted r = record r { packet = set r.packet r.offset 0; out = r.out ++ (put b'+' true ∷ []) }

  abbrev pub refused : Receiver → Receiver
  refused r = record r { out = r.out ++ (put b'-' true ∷ []) }

  run_good :
      (r : Receiver) (a b : ℕ) (rest : Bytes)
      → checksum_matches r.csum a b ≡ true
      → run size remote (check_low a) r (b ∷ rest) ≡ received r.offset (accepted r) rest
  unfolding run step
  run_good r a b rest h = ground arith

  pub run_bad :
      (r : Receiver) (a b : ℕ) (rest : Bytes)
      → checksum_matches r.csum a b ≡ false
      → run size remote (check_low a) r (b ∷ rest) ≡ run size remote start (refused r) rest
  unfolding run step
  run_bad r a b rest h = ground arith

  -- A whole frame of the transmitter is accepted, from any state that waits for a start.
  pub accept_frame :
      (bs : Bytes) (r : Receiver) (rest : Bytes)
      → length bs ≤ size
      → run size remote start r (frame b'$' bs ++ rest)
        ≡ received (0 + length bs) (accepted (captured size remote r bs)) rest
  unfolding frame
  accept_frame bs r rest h =
      let csum = total bs 0 in
      ap (λ t. run size remote start r (b'$' ∷ t))
        (append_assoc (put_chars bs 0).0 (b'#' ∷ checksum_text csum) rest)
      ∙ run_frame size remote bs r (hex_digit (csum / 16)) (hex_digit (csum % 16)) rest h
      ∙ run_good (captured size remote r bs) (hex_digit (csum / 16)) (hex_digit (csum % 16)) rest
          (checksum_matches_text csum (total-lt bs 0 (omega arith)))
