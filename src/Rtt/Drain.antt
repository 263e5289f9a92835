-- ===== src/Rtt/Drain.antt =====
-- rtt.c: what `print_rtt` does to the tail of a channel's ring, whatever the memory of the target
-- answers.
use blackmagic.Base.{
  ℕ, ◌+◌, ◌-◌, ◌*◌, ◌%◌, ◌≤◌, min, [], ◌++◌, Bytes, ◌&&◌, ◌||◌, ltb, leb, ◌==◌, if◌then◌else◌, ◌≡◌,
  refl, ap, ◌∙◌, arith, ◌⊎◌, inl, inr, Bool-cases,
}
use native.Mathlib.Nat.{mod-eq_of_lt, mod_self}
use blackmagic.Base.{if_lem}
use blackmagic.Base.Words.{u32}
use blackmagic.Rtt.{
  Io, Channel, Retval, bytes_of, aligned_mem_read, read_part, publish, print_low, print_rtt,
}
use blackmagic.Rtt.Rings.{unread, InRing}

-- `c'` is the channel after some bytes went out of the ring: no more than were unread.
pub record Drained (c c' : Channel) : Type 0 where
  pub same_addr : c'.buf_addr ≡ c.buf_addr
  pub same_size : c'.buf_size ≡ c.buf_size
  pub same_head : c'.head ≡ c.head
  pub in_ring : InRing c'
  pub less : unread c' ≤ unread c

Drained-refl : (c : Channel) → InRing c → Drained c c
Drained-refl c i = record {
  same_addr = refl;
  same_size = refl;
  same_head = refl;
  in_ring = i;
  less = omega arith;
}

-- What `print_rtt` answers about a channel.
abbrev pub PrintOutcome : {W : Type 0} → Channel → Retval × Channel × W → Type 0
PrintOutcome c r = (r.1 ≡ c) ⊎ Drained c r.1

-- A tail that moves on by some bytes, at most to the head or to the end of the ring.
advance :
    (c : Channel) (n : ℕ)
    → InRing c
    → (if ltb c.head c.tail then c.tail + n ≤ c.buf_size else c.tail + n ≤ c.head)
    → Drained c (record c { tail = (c.tail + n) % c.buf_size })
advance c n ring h = elim (Bool-cases (ltb (c.tail + n) c.buf_size)) [
  | inl e ↦
      let at : (c.tail + n) % c.buf_size ≡ c.tail + n = mod-eq_of_lt (ground arith) in
      rw at (record {
        same_addr = refl;
        same_size = refl;
        same_head = refl;
        in_ring = record { head_in = ring.head_in; tail_in = ground arith };
        less = ground arith;
      })
  | inr e ↦
      let end : c.tail + n ≡ c.buf_size = ground (arith, ring.head_in) in
      let at : (c.tail + n) % c.buf_size ≡ 0 = ap (λ k. k % c.buf_size) end ∙ mod_self c.buf_size in
      rw at (record {
        same_addr = refl;
        same_size = refl;
        same_head = refl;
        in_ring = record { head_in = ring.head_in; tail_in = omega (arith, ring.head_in) };
        less = ground (arith, ring.head_in);
      })
]

Drained-trans : {a b c : Channel} → Drained a b → Drained b c → Drained a c
Drained-trans p q = record {
  same_addr = q.same_addr ∙ p.same_addr;
  same_size = q.same_size ∙ p.same_size;
  same_head = q.same_head ∙ p.same_head;
  in_ring = q.in_ring;
  less = omega (arith, p.less, q.less);
}

module _ {W : Type 0} (io : Io W) where
  -- One read of `print_rtt` that stays below the end of what it reads.
  read_part-Drained :
      (len free : ℕ) (c : Channel) (w : W)
      → InRing c
      → (if ltb c.head c.tail then c.tail + len ≤ c.buf_size else c.tail + len ≤ c.head)
      → Drained c (read_part io len free c w).2
  unfolding read_part
  read_part-Drained len free c w ring h =
      if_lem (Drained c) (aligned_mem_read io (u32 (c.buf_addr + c.tail)) (min len free) w).0
        (λ _. Drained-refl c ring) (λ _. advance c (min len free) ring (ground arith))

  publish_channel :
      (cbaddr i : ℕ) (text : Bytes) (c : Channel) (w : W) → (publish io cbaddr i text c w).1 ≡ c
  unfolding publish
  publish_channel cbaddr i text c w =
      if_lem (λ (r : Retval × Channel × W). r.1 ≡ c)
        (io.mem_write (u32 (cbaddr + 24 + i * 24 + 16)) (bytes_of c.tail) w).0 (λ _. refl)
        (λ _. refl)

  publish-Drained :
      (cbaddr i : ℕ) (text : Bytes) (a c : Channel) (w : W)
      → Drained a c
      → Drained a (publish io cbaddr i text c w).1
  publish-Drained cbaddr i text a c w d = rw (publish_channel cbaddr i text c w) d

  print_low-Drained :
      (cbaddr i free : ℕ) (text : Bytes) (c : Channel) (w : W)
      → InRing c
      → Drained c (print_low io cbaddr i free text c w).1
  unfolding print_low
  print_low-Drained cbaddr i free text c w ring =
      if_lem (λ (r : Retval × Channel × W). Drained c r.1) (ltb c.tail c.head && ltb 0 free)
        (λ e.
          let len = c.head - c.tail in
          let d : Drained c (read_part io len free c w).2 =
            read_part-Drained len free c w ring (ground arith) in
          if_lem (λ (r : Retval × Channel × W). Drained c r.1) (read_part io len free c w).0
            (λ _. Drained-refl c ring)
            (λ _.
              publish-Drained cbaddr i (text ++ (read_part io len free c w).1) c
                (read_part io len free c w).2 (read_part io len free c w).3 d))
        (λ _. publish-Drained cbaddr i text c c w (Drained-refl c ring))

  -- `print_rtt` leaves the channel as it was, or head and tail lay in the ring: then they still do,
  -- the head, the address and the size of the ring are the same, and no more is unread than before.
  pub print_rtt-PrintOutcome :
      (up_size cbaddr i : ℕ) (c : Channel) (w : W)
      → PrintOutcome c (print_rtt io up_size cbaddr i c w)
  unfolding print_rtt
  print_rtt-PrintOutcome up_size cbaddr i c w =
      if_lem (PrintOutcome c) (c.buf_addr == 0 || c.buf_size == 0) (λ _. inl refl)
        (λ _.
          if_lem (PrintOutcome c) (leb c.buf_size c.head || leb c.buf_size c.tail) (λ _. inl refl)
            (λ e.
              if_lem (PrintOutcome c) (c.head == c.tail) (λ _. inl refl)
                (λ _.
                  let ring : InRing c = record { head_in = ground arith; tail_in = ground arith } in
                  let free = up_size - 8 in
                  let len = c.buf_size - c.tail in
                  if_lem (PrintOutcome c) (ltb c.head c.tail)
                    (λ lt.
                      let part = read_part io len free c w in
                      let d : Drained c part.2 =
                        read_part-Drained len free c w ring (ground arith) in
                      if_lem (PrintOutcome c) part.0 (λ _. inl refl)
                        (λ _. inr (
                          Drained-trans d (
                            print_low-Drained cbaddr i (free - min len free) part.1 part.2 part.3
                              d.in_ring))))
                    (λ _. inr (print_low-Drained cbaddr i free [] c w ring)))))
