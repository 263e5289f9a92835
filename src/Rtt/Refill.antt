-- ===== src/Rtt/Refill.antt =====
-- rtt.c: the loop of `read_rtt` on the queue of the bytes for the target.
use blackmagic.Base.{
  ℕ, zero, suc, ◌+◌, ◌-◌, ◌%◌, ◌^◌, ◌<◌, ◌≤◌, some, [], ◌∷◌, ◌++◌, append_assoc, Bytes, length,
  Bool, true, false, ◌==◌, ◌≡◌, ◌≢◌, refl, sym, ap, ◌∙◌, arith, inl, inr, Bool-cases, Option-cases,
}
use blackmagic.Base.{ap₂}
use blackmagic.Base.Words.{u32}
use blackmagic.Rtt.{Io, Channel, fill_ring}
use blackmagic.Rtt.Rings.{
  unread, InRing, Filled, Filled-refl, one_more, fill_ring_full, fill_ring_end, fill_ring_failed,
  fill_ring_step,
}
use blackmagic.Rtt.Memory.{
  Memory, place, address, place_below, u32_twice, apart, queue, ring_bytes_same, queue_more,
}

module _ {W : Type 0} (io : Io W) (m : Memory io) where
  -- What has become of the queue: `lost` is missing between the ring and the host.
  abbrev pub Queued : Channel → W → Channel → W → Bytes → Type 0
  Queued c w c' w' lost = queue io m c' w' ++ (lost ++ m.input w') ≡ queue io m c w ++ m.input w

  -- The outcome of the loop: a byte is lost when its write fails, and no other.
  pub record Refill (fuel : ℕ) (c : Channel) (w : W) : Type 0 where
    pub failed : Bool
    pub channel : Channel
    pub world : W
    pub lost : Bytes
    pub returned : fill_ring io fuel c w ≡ some (failed, channel, world)
    pub filled : Filled c channel
    pub queued : Queued c w channel world lost
    pub complete : failed ≡ false → lost ≡ []
    pub at_most_one : length lost ≤ 1

  -- The memory of the ring behind a character of the host, and behind a write to the head.
  drawn : (c : Channel) (w : W) → queue io m c (io.getchar w).1 ≡ queue io m c w
  drawn c w =
      ring_bytes_same io m c 0 (unread c) w (io.getchar w).1 (λ j lt. m.same_memory w (address c j))

  below :
      (c : Channel) (x : ℕ) (w : W)
      → InRing c
      → c.buf_size ≤ 2 ^ 32
      → (j : ℕ) → j < unread c
      → (let w' = (io.mem_write (u32 (c.buf_addr + c.head)) (x ∷ []) (io.getchar w).1).1 in
          m.look w' (address c j) ≡ m.look w (address c j))
  below c x w i small j lt =
      let (inside, ne) = place_below c j i lt in
      let head_lt = i.head_in in
      m.elsewhere (io.getchar w).1 (u32 (c.buf_addr + c.head)) (address c j) (x ∷ [])
        (only_first c (place c j) (omega (arith, inside)) (omega (arith, head_lt)) ne)
      ∙ m.same_memory w (address c j)
    where
      only_first :
          (c : Channel) (p : ℕ)
          → p < 2 ^ 32
          → c.head < 2 ^ 32
          → p ≢ c.head
          → (j : ℕ) → j < 1
          → u32 (c.buf_addr + p) ≢ u32 (u32 (c.buf_addr + c.head) + j)
      only_first c p lp lh ne zero lt = apart c.buf_addr p c.head lp lh ne
      only_first c p lp lh ne (suc j) lt = absurd (omega arith)

  -- The state behind a character and the write of it to the head.
  abbrev written : Channel → ℕ → W → W
  written c x w = (io.mem_write (u32 (c.buf_addr + c.head)) (x ∷ []) (io.getchar w).1).1

  -- The character that is on its way, in front of those that wait.
  on_its_way :
      (c : Channel) (x : ℕ) (w : W)
      → (io.getchar w).0 ≡ some x
      → x ∷ m.input (written c x w) ≡ m.input w
  on_its_way c x w g =
      ap (λ l. x ∷ l) (m.same_input (io.getchar w).1 (u32 (c.buf_addr + c.head)) (x ∷ []))
      ∙ sym (m.taken w x g)

  failed_store :
      (c : Channel) (x : ℕ) (w : W)
      → InRing c
      → c.buf_size ≤ 2 ^ 32
      → (io.getchar w).0 ≡ some x
      → Queued c w c (written c x w) (x ∷ [])
  failed_store c x w i small g =
      ap₂ (λ l r. l ++ r)
        (ring_bytes_same io m c 0 (unread c) w (written c x w)
          (λ j lt. below c x w i small j (omega (arith, lt))))
        (on_its_way c x w g)

  good_store :
      (c : Channel) (next x : ℕ) (w : W)
      → InRing c
      → c.buf_size ≤ 2 ^ 32
      → unread (record c { head = next }) ≡ unread c + 1
      → (io.getchar w).0 ≡ some x
      → (io.mem_write (u32 (c.buf_addr + c.head)) (x ∷ []) (io.getchar w).1).0 ≡ false
      → Queued c w (record c { head = next }) (written c x w) []
  good_store c next x w i small one g f =
      let w2 = written c x w in
      ap (λ l. l ++ m.input w2)
        (queue_more io m c next x w w2 i small one
          (ap (λ a. m.look w2 a) (u32_twice (c.buf_addr + c.head))
            ∙ m.stored (io.getchar w).1 (u32 (c.buf_addr + c.head)) x f)
          (below c x w i small))
      ∙ append_assoc (queue io m c w) (x ∷ []) (m.input w2)
      ∙ ap (λ l. queue io m c w ++ l) (on_its_way c x w g)

  -- One round of the loop in front of the others.
  advance :
      (fuel : ℕ) (c : Channel) (next : ℕ) (w w2 : W)
      → fill_ring io (suc fuel) c w ≡ fill_ring io fuel (record c { head = next }) w2
      → unread (record c { head = next }) ≡ unread c + 1
      → Queued c w (record c { head = next }) w2 []
      → Refill fuel (record c { head = next }) w2
      → Refill (suc fuel) c w
  advance fuel c next w w2 step one good rest = record {
    failed = rest.failed;
    channel = rest.channel;
    world = rest.world;
    lost = rest.lost;
    returned = step ∙ rest.returned;
    filled = record {
      same_addr = rest.filled.same_addr;
      same_size = rest.filled.same_size;
      same_tail = rest.filled.same_tail;
      in_ring = rest.filled.in_ring;
      more = omega (arith, rest.filled.more, one);
    };
    queued = rest.queued ∙ good;
    complete = rest.complete;
    at_most_one = rest.at_most_one;
  }

  received :
      (fuel : ℕ) (c : Channel) (w : W) (x : ℕ)
      → InRing c
      → c.buf_size ≤ 2 ^ 32
      → c.buf_size - unread c ≤ suc fuel
      → (c.tail == (c.head + 1) % c.buf_size) ≡ false
      → (io.getchar w).0 ≡ some x
      → (let c1 = record c { head = (c.head + 1) % c.buf_size } in
          InRing c1 → c1.buf_size - unread c1 ≤ fuel → Refill fuel c1 (written c x w))
      → Refill (suc fuel) c w
  received fuel c w x i small enough e g continue =
      elim (Bool-cases (io.mem_write (u32 (c.buf_addr + c.head)) (x ∷ []) (io.getchar w).1).0) [
        | inl f ↦ record {
          failed = true;
          channel = c;
          world = written c x w;
          lost = x ∷ [];
          returned = fill_ring_failed io fuel x c w e g f;
          filled = Filled-refl c i;
          queued = failed_store c x w i small g;
          complete = λ h. absurd (ground (arith, h));
          at_most_one = omega arith;
        }
        | inr f ↦
            let next = (c.head + 1) % c.buf_size in
            let (in_ring, one) = one_more c next i refl (ground arith) in
            advance fuel c next w (written c x w) (fill_ring_step io fuel x c w e g f) one
              (good_store c next x w i small one g f) (continue in_ring (omega (arith, one)))
      ]

  pub fill_ring-Refill :
      (fuel : ℕ) (c : Channel) (w : W)
      → InRing c
      → c.buf_size ≤ 2 ^ 32
      → c.buf_size - unread c ≤ fuel
      → Refill fuel c w
  fill_ring-Refill zero c w i small enough = absurd (ground (arith, i.head_in, i.tail_in))
  fill_ring-Refill (suc fuel) c w i small enough =
      elim (Bool-cases (c.tail == (c.head + 1) % c.buf_size)) [
        | inl e ↦ record {
          failed = false;
          channel = c;
          world = w;
          lost = [];
          returned = fill_ring_full io fuel c w e;
          filled = Filled-refl c i;
          queued = refl;
          complete = λ h. refl;
          at_most_one = omega arith;
        }
        | inr e ↦ elim (Option-cases (io.getchar w).0) [
          | inl g ↦ record {
            failed = false;
            channel = c;
            world = (io.getchar w).1;
            lost = [];
            returned = fill_ring_end io fuel c w e g;
            filled = Filled-refl c i;
            queued = ap₂ (λ l r. l ++ r) (drawn c w) (m.quiet w g);
            complete = λ h. refl;
            at_most_one = omega arith;
          }
          | inr (x, g) ↦ received fuel c w x i small enough e g (λ i1 enough1.
              fill_ring-Refill fuel (record c { head = (c.head + 1) % c.buf_size }) (written c x w)
                i1 small enough1)
        ]
      ]
