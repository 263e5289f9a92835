-- ===== src/Packet/Transmit.antt =====
-- gdb_packet.c: how often `gdb_putpacket` transmits, and that a packet in two parts is one packet.
use blackmagic.Base.{
  ℕ, zero, suc, ◌+◌, ◌<◌, ◌≤◌, Option, none, some, List, [], ◌∷◌, ◌++◌, append-nil, append_assoc,
  Bytes, ◌==◌, ◌≡◌, ◌≢◌, refl, sym, ap, ◌∙◌, arith, ◌⊎◌, inl, inr, Bool-cases,
}
use native.Mathlib.Nat.{add-zero, zero-add}
use blackmagic.Packet.{Event, next_char, put_chars, frame, put_all, transmit, putpacket, putpacket2}

-- `n` transmissions of the same text.
abbrev pub repeats : ℕ → List Event → List Event
repeats zero es = []
repeats (suc n) es = es ++ repeats n es

-- `n` tries from try number `tries` on are made, as the replies ask for.
record Transmits (reply : ℕ → Option ℕ) (text : Bytes) (left tries : ℕ) : Type 0 where
  n : ℕ
  all : transmit reply text left tries ≡ repeats (suc n) (put_all text)
  bounded : n ≤ left
  refused : (i : ℕ) → i < n → reply (tries + i) ≢ some b'+'
  stopped : (n ≡ left) ⊎ (reply (tries + n) ≡ some b'+')

transmit_again :
    (reply : ℕ → Option ℕ) (text : Bytes) (left tries : ℕ)
    → reply tries ≢ some b'+'
    → transmit reply text (suc left) tries ≡ put_all text ++ transmit reply text left (tries + 1)
unfolding transmit
transmit_again reply text left tries ne = ground arith

transmit-Transmits :
    (reply : ℕ → Option ℕ) (text : Bytes) (left tries : ℕ) → Transmits reply text left tries
unfolding transmit
transmit-Transmits reply text zero tries = record {
  n = 0;
  all = sym (append-nil (put_all text));
  bounded = omega arith;
  refused = λ i h. absurd (omega arith);
  stopped = inl refl;
}
transmit-Transmits reply text (suc left) tries = elim (acknowledged (reply tries)) [
  | inl e ↦ record {
    n = 0;
    all = rw (e, transmit) refl;
    bounded = omega arith;
    refused = λ i h. absurd (omega arith);
    stopped = inr (rw add-zero e);
  }
  | inr ne ↦
      let later = transmit-Transmits reply text left (tries + 1) in
      record {
        n = suc later.n;
        all = transmit_again reply text left tries ne ∙ ap (λ es. put_all text ++ es) later.all;
        bounded = omega (arith, later.bounded);
        refused = elim [
          | zero ↦ λ h. rw add-zero ne
          | suc i ↦ λ h. rw (shift i) (later.refused i (omega arith))
        ];
        stopped = later_stops later.n later.stopped;
      }
]
  where
    shift : (i : ℕ) → tries + suc i ≡ tries + 1 + i
    shift i = omega arith

    later_stops :
        (n : ℕ)
        → (n ≡ left) ⊎ (reply (tries + 1 + n) ≡ some b'+')
        → (suc n ≡ suc left) ⊎ (reply (tries + suc n) ≡ some b'+')
    later_stops n (inl e) = inl (ap suc e)
    later_stops n (inr e) = inr (rw (shift n) e)

    acknowledged : (o : Option ℕ) → (o ≡ some b'+') ⊎ (o ≢ some b'+')
    acknowledged none = inr (λ e. cc)
    acknowledged (some c) = elim (Bool-cases (c == b'+')) [
      | inl e ↦ inl (ground arith)
      | inr e ↦ inr (λ p. ground arith)
    ]

-- `gdb_putpacket` transmits its frame once and then once more after every reply but `+`, up to
-- three times: `n + 1` times for an `n` of at most 3, where none of the replies 0 to `n - 1` is
-- `+`, and where `n` is 3 or reply `n` is `+`.
pub putpacket_tries :
    (reply : ℕ → Option ℕ) (bs : Bytes)
    → (n : ℕ) × (putpacket reply bs ≡ repeats (suc n) (put_all (frame b'$' bs)))
      × (n ≤ 3)
      × ((i : ℕ) → i < n → reply i ≢ some b'+')
      × ((n ≡ 3) ⊎ (reply n ≡ some b'+'))
unfolding putpacket
putpacket_tries reply bs =
    let t = transmit-Transmits reply (frame b'$' bs) 3 0 in
    (t.n, t.all, t.bounded, λ i h. rw zero-add at (t.refused i h), rw zero-add at t.stopped)

put_chars-append :
    (xs ys : Bytes) (csum : ℕ)
    → let (text1, csum1) = put_chars xs csum in
      let (text2, csum2) = put_chars ys csum1 in put_chars (xs ++ ys) csum ≡ (text1 ++ text2, csum2)
unfolding put_chars
put_chars-append [] ys csum = refl
put_chars-append (x ∷ xs) ys csum =
    let (first, csum') = next_char x csum in
    let (text1, csum1) = put_chars xs csum' in
    ground (arith, put_chars-append xs ys csum', append_assoc first text1 (put_chars ys csum1).0)

-- `gdb_putpacket2` transmits its two parts as `gdb_putpacket` transmits them joined, with the
-- same replies.
pub putpacket2-append :
    (reply : ℕ → Option ℕ) (packet1 packet2 : Bytes)
    → putpacket2 reply packet1 packet2 ≡ putpacket reply (packet1 ++ packet2)
unfolding putpacket2 putpacket frame
putpacket2-append reply packet1 packet2 = rw (put_chars-append packet1 packet2 0) (rw append_assoc)
