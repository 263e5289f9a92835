-- ===== src/Rtt/Memory.antt =====
-- rtt.c: the bytes of a ring that are unread, in the memory of the target.
use blackmagic.Base.{
  ℕ, zero, suc, ◌+◌, ◌-◌, ◌^◌, ◌<◌, ◌≤◌, none, some, [], ◌∷◌, ◌++◌, Bytes, length, false, ltb,
  if◌then◌else◌, ◌≡◌, ◌≢◌, refl, ap, ◌∙◌, arith,
}
use blackmagic.Base.{ap₂}
use blackmagic.Base.Words.{u32}
use blackmagic.Rtt.{Io, Channel}
use blackmagic.Rtt.Rings.{unread, InRing}

-- The memory of the target as bytes at addresses of 32 bits, and the characters of the host that
-- wait. A write that succeeds stores its byte, and none reaches another address.
pub record Memory {W : Type 0} (io : Io W) : Type 0 where
  pub look : W → ℕ → ℕ
  pub input : W → Bytes
  pub taken : (w : W) (x : ℕ) → (io.getchar w).0 ≡ some x → input w ≡ x ∷ input (io.getchar w).1
  pub quiet : (w : W) → (io.getchar w).0 ≡ none → input (io.getchar w).1 ≡ input w
  pub same_memory : (w : W) (a : ℕ) → look (io.getchar w).1 a ≡ look w a
  pub stored :
      (w : W) (a x : ℕ)
      → (io.mem_write a (x ∷ []) w).0 ≡ false
      → look (io.mem_write a (x ∷ []) w).1 (u32 a) ≡ x
  pub elsewhere :
      (w : W) (a b : ℕ) (bs : Bytes)
      → ((j : ℕ) → j < length bs → b ≢ u32 (a + j))
      → look (io.mem_write a bs w).1 b ≡ look w b
  pub same_input : (w : W) (a : ℕ) (bs : Bytes) → input (io.mem_write a bs w).1 ≡ input w

-- The position of the byte with the number `k` behind the tail.
abbrev pub place : Channel → ℕ → ℕ
place c k = if ltb (c.tail + k) c.buf_size then c.tail + k else c.tail + k - c.buf_size

abbrev pub address : Channel → ℕ → ℕ
address c k = u32 (c.buf_addr + place c k)

pub place-unread : (c : Channel) → InRing c → place c (unread c) ≡ c.head
place-unread c i = ground (arith, i.head_in, i.tail_in)

pub place_below :
    (c : Channel) (k : ℕ)
    → InRing c
    → k < unread c
    → (place c k < c.buf_size) × (place c k ≢ c.head)
place_below c k i lt = (ground (arith, i.head_in, i.tail_in), ground (arith, i.head_in, i.tail_in))

pub u32_twice : (x : ℕ) → u32 x ≡ u32 (u32 x)
u32_twice x = omega arith

pub apart : (b p h : ℕ) → p < 2 ^ 32 → h < 2 ^ 32 → p ≢ h → u32 (b + p) ≢ u32 (u32 (b + h) + 0)
apart b p h lp lh ne e = absurd (omega (arith, ne, e))

module _ {W : Type 0} (io : Io W) (m : Memory io) where
  -- `n` bytes of the ring from the one with the number `k` on, and all that are unread.
  abbrev pub ring_bytes : Channel → ℕ → ℕ → W → Bytes
  ring_bytes c k zero w = []
  ring_bytes c k (suc n) w = m.look w (address c k) ∷ ring_bytes c (suc k) n w

  abbrev pub queue : Channel → W → Bytes
  queue c w = ring_bytes c 0 (unread c) w

  ring_bytes-snoc :
      (c : Channel) (k n : ℕ) (w : W)
      → ring_bytes c k (suc n) w ≡ ring_bytes c k n w ++ (m.look w (address c (k + n)) ∷ [])
  ring_bytes-snoc c k zero w = ap (λ i. m.look w (address c i) ∷ []) (omega arith)
  ring_bytes-snoc c k (suc n) w =
      let shift : suc k + n ≡ k + suc n = omega arith in
      ap (λ l. m.look w (address c k) ∷ l)
        (ring_bytes-snoc c (suc k) n w
          ∙ ap (λ i. ring_bytes c (suc k) n w ++ (m.look w (address c i) ∷ [])) shift)

  pub ring_bytes_same :
      (c : Channel) (k n : ℕ) (w w' : W)
      → ((j : ℕ) → j < k + n → m.look w' (address c j) ≡ m.look w (address c j))
      → ring_bytes c k n w' ≡ ring_bytes c k n w
  ring_bytes_same c k zero w w' h = refl
  ring_bytes_same c k (suc n) w w' h =
      ap₂ (λ x l. x ∷ l) (h k (omega arith))
        (ring_bytes_same c (suc k) n w w' (λ j lt. h j (omega arith)))

  -- A byte that is stored at the head is the last one of the queue.
  pub queue_more :
      (c : Channel) (next x : ℕ) (w w' : W)
      → InRing c
      → c.buf_size ≤ 2 ^ 32
      → unread (record c { head = next }) ≡ unread c + 1
      → m.look w' (u32 (c.buf_addr + c.head)) ≡ x
      → ((j : ℕ) → j < unread c → m.look w' (address c j) ≡ m.look w (address c j))
      → queue (record c { head = next }) w' ≡ queue c w ++ (x ∷ [])
  queue_more c next x w w' i small one at_head same =
      let grown : unread (record c { head = next }) ≡ suc (unread c) = omega (arith, one) in
      let first : 0 + unread c ≡ unread c = omega arith in
      ap (λ n. ring_bytes c 0 n w') grown
      ∙ ring_bytes-snoc c 0 (unread c) w'
      ∙ ap₂ (λ l y. l ++ (y ∷ []))
          (ring_bytes_same c 0 (unread c) w w' (λ j lt. same j (omega arith)))
          (ap (λ n. m.look w' (address c n)) first
            ∙ ap (λ p. m.look w' (u32 (c.buf_addr + p))) (place-unread c i)
            ∙ at_head)
