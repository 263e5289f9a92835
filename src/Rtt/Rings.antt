-- ===== src/Rtt/Rings.antt =====
-- rtt.c: the ring of a channel, and the steps of the loop that fills it.
use blackmagic.Base.{
  ℕ, suc, ◌+◌, ◌-◌, ◌%◌, ◌<◌, ◌≤◌, none, some, [], ◌∷◌, true, false, ltb, leb, ◌==◌, if◌then◌else◌,
  ◌≡◌, ◌≢◌, refl, ap, ◌∙◌, arith, ◌⊎◌, inl, inr, Bool-cases,
}
use native.Mathlib.Nat.{mod-eq_of_lt, mod_self}
use blackmagic.Base.Words.{u32}
use blackmagic.Rtt.{Io, Channel, fill_ring}

-- The number of bytes that stand in the ring unread.
abbrev pub unread : Channel → ℕ
unread c = if leb c.tail c.head then c.head - c.tail else c.head + c.buf_size - c.tail

-- Head and tail lie in the ring.
pub record InRing (c : Channel) : Type 0 where
  pub head_in : c.head < c.buf_size
  pub tail_in : c.tail < c.buf_size

-- `c'` is the channel after some bytes went into the ring: no fewer are unread.
pub record Filled (c c' : Channel) : Type 0 where
  pub same_addr : c'.buf_addr ≡ c.buf_addr
  pub same_size : c'.buf_size ≡ c.buf_size
  pub same_tail : c'.tail ≡ c.tail
  pub in_ring : InRing c'
  pub more : unread c ≤ unread c'

pub Filled-refl : (c : Channel) → InRing c → Filled c c
Filled-refl c i = record {
  same_addr = refl;
  same_size = refl;
  same_tail = refl;
  in_ring = i;
  more = omega arith;
}

-- The position behind one in the ring.
next_cases :
    (h n : ℕ) → h < n → ((h + 1) % n ≡ h + 1) × (h + 1 < n) ⊎ ((h + 1) % n ≡ 0) × (h + 1 ≡ n)
next_cases h n lt = elim (Bool-cases (ltb (h + 1) n)) [
  | inl e ↦ inl (mod-eq_of_lt (ground arith), ground arith)
  | inr e ↦ let end : h + 1 ≡ n = ground arith in inr (ap (λ k. k % n) end ∙ mod_self n, end)
]

-- One more byte in a ring that is not full.
pub one_more :
    (c : Channel) (next : ℕ)
    → InRing c
    → next ≡ (c.head + 1) % c.buf_size
    → c.tail ≢ next
    → (let c' = record c { head = next } in InRing c' × (unread c' ≡ unread c + 1))
one_more c next i is_next ne = elim (next_cases c.head c.buf_size i.head_in) [
  | inl (e, lt) ↦ (record { head_in = omega arith; tail_in = i.tail_in }, ground (arith, i.tail_in))
  | inr (e, at) ↦ (record { head_in = omega arith; tail_in = i.tail_in }, ground (arith, i.tail_in))
]

module _ {W : Type 0} (io : Io W) where
  pub fill_ring_full :
      (fuel : ℕ) (c : Channel) (w : W)
      → (c.tail == (c.head + 1) % c.buf_size) ≡ true
      → fill_ring io (suc fuel) c w ≡ some (false, c, w)
  unfolding fill_ring
  fill_ring_full fuel c w e = rw e refl

  pub fill_ring_end :
      (fuel : ℕ) (c : Channel) (w : W)
      → (c.tail == (c.head + 1) % c.buf_size) ≡ false
      → (io.getchar w).0 ≡ none
      → fill_ring io (suc fuel) c w ≡ some (false, c, (io.getchar w).1)
  unfolding fill_ring
  fill_ring_end fuel c w e g = rw e (rw g refl)

  pub fill_ring_failed :
      (fuel x : ℕ) (c : Channel) (w : W)
      → (c.tail == (c.head + 1) % c.buf_size) ≡ false
      → (io.getchar w).0 ≡ some x
      → (let r = io.mem_write (u32 (c.buf_addr + c.head)) (x ∷ []) (io.getchar w).1 in
          r.0 ≡ true → fill_ring io (suc fuel) c w ≡ some (true, c, r.1))
  unfolding fill_ring
  fill_ring_failed fuel x c w e g f = rw e (rw g (rw f refl))

  pub fill_ring_step :
      (fuel x : ℕ) (c : Channel) (w : W)
      → (c.tail == (c.head + 1) % c.buf_size) ≡ false
      → (io.getchar w).0 ≡ some x
      → (let r = io.mem_write (u32 (c.buf_addr + c.head)) (x ∷ []) (io.getchar w).1 in
          r.0 ≡ false
          → fill_ring io (suc fuel) c w
            ≡ fill_ring io fuel (record c { head = (c.head + 1) % c.buf_size }) r.1)
  unfolding fill_ring
  fill_ring_step fuel x c w e g f = rw e (rw g (rw f refl))
