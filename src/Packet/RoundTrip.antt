-- ===== src/Packet/RoundTrip.antt =====
-- gdb_packet.c: what `gdb_putpacket` transmits is what `gdb_getpacket` returns.
use blackmagic.Base.{
  ℕ, ◌+◌, ◌<◌, ◌≤◌, Option, some, List, [], ◌∷◌, ◌++◌, append-nil, Bytes, length, get_elem?, set,
  take, subst, true, false, ◌≡◌, refl, sym, ap, ◌∙◌, arith,
}
use blackmagic.Base.{
  length-set, write_at, length-write_at, take-set_le, get_elem?-set_self, take-write_at_zero,
}
use native.Mathlib.Nat.{zero-add}
use blackmagic.Packet.{
  Event, start, Receiver, Reception, received, run, getpacket, put_chars, frame, checksum_matches,
  sent, putpacket, transmit, put_all, put,
}
use blackmagic.Packet.Frame.{total, captured, run_frame, accepted, refused, run_bad, accept_frame}

sent-put_all : (text : Bytes) → sent (put_all text) ≡ text
sent-put_all [] = refl
sent-put_all (c ∷ []) = refl
sent-put_all (c ∷ d ∷ text) = ap (λ t. c ∷ t) (sent-put_all (d ∷ text))

putpacket_acked :
    (reply : ℕ → Option ℕ) (bs : Bytes)
    → reply 0 ≡ some b'+'
    → sent (putpacket reply bs) ≡ frame b'$' bs
unfolding putpacket transmit
putpacket_acked reply bs e = rw (e, transmit) (rw append-nil (sent-put_all (frame b'$' bs)))

-- What the caller of `gdb_getpacket` finds: the length, the bytes with a NUL behind them, and the
-- events, with the input that is left.
pub record Delivers (bs : Bytes) (out : List Event) (rest : Bytes) (result : Reception)
    : Type 0 where
  pub state : Receiver
  pub returned : result ≡ received (length bs) state rest
  pub bytes : take (length bs) state.packet ≡ bs
  pub terminated : get_elem? state.packet (length bs) ≡ some 0
  pub events : state.out ≡ out

module _ (size : ℕ) (remote : ℕ → Bytes → Bytes) where
  accept_frame-Delivers :
      (bs : Bytes) (r : Receiver) (rest : Bytes)
      → length bs ≤ size
      → size < length r.packet
      → Delivers bs
          (r.out ++ (put b'+' true ∷ []))
          rest
          (run size remote start r (frame b'$' bs ++ rest))
  accept_frame-Delivers bs r rest h room =
      let start_room : length (set r.packet 0 b'$') ≡ length r.packet =
        length-set r.packet 0 b'$' in
      let text = write_at (set r.packet 0 b'$') 0 bs in
      let text_room : length text ≡ length r.packet =
        length-write_at (set r.packet 0 b'$') 0 bs ∙ start_room in
      let last = accepted size remote (captured size remote r bs) in
      record {
        state = last;
        returned =
            accept_frame size remote bs r rest h
            ∙ ap (λ n. received n last rest) (zero-add (length bs));
        bytes =
            take-set_le text (length bs) (0 + length bs) 0 (omega arith)
            ∙ take-write_at_zero (set r.packet 0 b'$') bs (omega arith);
        terminated =
            ap (λ n. get_elem? (set text n 0) (length bs)) (zero-add (length bs))
            ∙ get_elem?-set_self text (length bs) 0 (omega arith);
        events = refl;
      }

  -- What `gdb_putpacket` transmits for a packet of at most `size` bytes, when the other side
  -- answers `+`, is read by `gdb_getpacket` into a buffer of more than `size` bytes as that packet
  -- with a NUL behind it; its length is returned, `+` is put out, and the input behind the packet
  -- is left.
  pub getpacket-putpacket :
      (reply : ℕ → Option ℕ) (bs packet rest : Bytes)
      → reply 0 ≡ some b'+'
      → length bs ≤ size
      → size < length packet
      → Delivers bs
          (put b'+' true ∷ [])
          rest
          (getpacket size remote packet (sent (putpacket reply bs) ++ rest))
  unfolding getpacket
  getpacket-putpacket reply bs packet rest answer h room = rw (putpacket_acked reply bs answer) (
      accept_frame-Delivers bs (record { packet = packet; offset = 0; csum = 0; out = [] }) rest h
        room)

  -- A frame of at most `size` bytes whose checksum does not match is answered by `-`, and a frame
  -- of at most `size` bytes that follows it is then read as in `getpacket-putpacket`.
  pub getpacket_retry :
      (bad bs packet rest : Bytes) (a b : ℕ)
      → checksum_matches (total bad 0) a b ≡ false
      → length bad ≤ size
      → length bs ≤ size
      → size < length packet
      → Delivers bs (put b'-' true ∷ put b'+' true ∷ []) rest (
          getpacket size remote packet
            (b'$' ∷ ((put_chars bad 0).0 ++ (b'#' ∷ a ∷ b ∷ (frame b'$' bs ++ rest)))))
  unfolding getpacket
  getpacket_retry bad bs packet rest a b mismatch hb h room =
      let first : Receiver = record { packet = packet; offset = 0; csum = 0; out = [] } in
      let again = refused size remote (captured size remote first bad) in
      let input = frame b'$' bs ++ rest in
      let room' : size < length again.packet =
        omega (arith, length-write_at (set packet 0 b'$') 0 bad, length-set packet 0 b'$') in
      subst (Delivers bs (put b'-' true ∷ put b'+' true ∷ []) rest)
        (sym (
          run_frame size remote bad first a b input hb
          ∙ run_bad size remote (captured size remote first bad) a b input mismatch))
        (accept_frame-Delivers bs again rest h room')
