-- ===== src/Examples/Packets.antt =====
-- Packets and hexadecimal text of gdb_packet.c and hex_utils.c at concrete inputs.
use blackmagic.Base.{
  ℕ, zero, suc, ◌<◌, ◌≤◌, Option, some, [], ◌∷◌, ◌++◌, Bytes, replicate, true, false, ◌≡◌, ◌≢◌,
  refl, arith, ◌⊎◌,
}
use blackmagic.Hex.{hex_digit, hexify, unhex_digit, unhexify}
use blackmagic.Hex.RoundTrip.{unhex_digit-hex_digit, unhexify-hexify, lower_digit}
use blackmagic.Packet.{
  put, getpacket, putpacket, putpacket2, put_all, frame, put_chars, checksum_matches, sent,
}
use blackmagic.Packet.Bounds.{ReceptionInv, getpacket_bounds}
use blackmagic.Packet.RoundTrip.{Delivers, getpacket-putpacket, getpacket_retry}
use blackmagic.Packet.Frame.{total}
use blackmagic.Packet.Transmit.{repeats, putpacket_tries, putpacket2-append}

-- The text `m}`, whose last byte is escaped in a packet.
abbrev text : Bytes
text = b'm' ∷ b'}' ∷ []

abbrev no_remote : ℕ → Bytes → Bytes
no_remote n packet = packet

abbrev acknowledge : ℕ → Option ℕ
acknowledge n = some b'+'

abbrev refuse_first : ℕ → Option ℕ
refuse_first zero = some b'-'
refuse_first (suc n) = some b'+'

frame_of_text : frame b'$' text ≡ b'$' ∷ b'm' ∷ b'}' ∷ b']' ∷ b'#' ∷ b'4' ∷ b'7' ∷ []
unfolding frame hex_digit
frame_of_text = refl

unhex_digit-hex_digit_example :
    (unhex_digit (hex_digit 11) ≡ 11) × (unhex_digit (lower_digit 11) ≡ 11)
unhex_digit-hex_digit_example = unhex_digit-hex_digit 11 (omega arith)

unhexify-hexify_example :
    unhexify 2 (hexify (0x1f ∷ 0xe0 ∷ []) ++ (b'#' ∷ [])) ≡ some (0x1f ∷ 0xe0 ∷ [])
unhexify-hexify_example =
    unhexify-hexify (0x1f ∷ 0xe0 ∷ []) (b'#' ∷ []) (omega arith, (omega arith, record {}))

getpacket_bounds_example :
    ReceptionInv 2 3 (getpacket 2 no_remote (replicate 3 0) (b'$' ∷ b'a' ∷ b'}' ∷ b'b' ∷ b'c' ∷ []))
getpacket_bounds_example =
    getpacket_bounds 2 no_remote (replicate 3 0) (b'$' ∷ b'a' ∷ b'}' ∷ b'b' ∷ b'c' ∷ [])
      (omega arith) (λ n buf. refl)

getpacket-putpacket_example :
    Delivers text
      (put b'+' true ∷ [])
      (b'$' ∷ [])
      (getpacket 8 no_remote (replicate 9 0) (sent (putpacket acknowledge text) ++ (b'$' ∷ [])))
getpacket-putpacket_example =
    getpacket-putpacket 8 no_remote acknowledge text (replicate 9 0) (b'$' ∷ []) refl (omega arith)
      (omega arith)

wrong_checksum : checksum_matches (total (b'm' ∷ []) 0) b'0' b'0' ≡ false
unfolding checksum_matches put_chars
wrong_checksum = refl

getpacket_retry_example : Delivers text (put b'-' true ∷ put b'+' true ∷ []) [] (
    getpacket 8 no_remote
      (replicate 9 0)
      (b'$' ∷ ((put_chars (b'm' ∷ []) 0).0 ++ (b'#' ∷ b'0' ∷ b'0' ∷ (frame b'$' text ++ [])))))
getpacket_retry_example =
    getpacket_retry 8 no_remote (b'm' ∷ []) text (replicate 9 0) [] b'0' b'0' wrong_checksum
      (omega arith) (omega arith) (omega arith)

putpacket_tries_example :
    (n : ℕ) × (putpacket refuse_first text ≡ repeats (suc n) (put_all (frame b'$' text)))
    × (n ≤ 3)
    × ((i : ℕ) → i < n → refuse_first i ≢ some b'+')
    × ((n ≡ 3) ⊎ (refuse_first n ≡ some b'+'))
putpacket_tries_example = putpacket_tries refuse_first text

putpacket2-append_example :
    putpacket2 refuse_first text (b'$' ∷ []) ≡ putpacket refuse_first (text ++ (b'$' ∷ []))
putpacket2-append_example = putpacket2-append refuse_first text (b'$' ∷ [])
