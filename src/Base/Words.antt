-- ===== src/Base/Words.antt =====
-- Machine words as native numbers, and the bit operations as arithmetic.
use Prim.Native.Nat.{
  ℕ, zero, suc, ◌+◌, ◌-◌, ◌*◌, ◌/◌, ◌%◌, ◌^◌, ◌≤◌, ◌<◌, min, max, bit_and, bit_or, digits,
  bit_and-bitwise, bit_or-bitwise, bit_xor, bit_xor-bitwise, differ,
}
use native.Mathlib.Nat.{
  pow-suc, one-le-pow, add-zero, add-suc, div-lt_iff_lt-mul, div-add-mod', mod-lt,
}
use mathlib.Core.Path.{◌≡◌, refl, ap, sym, ◌∙◌}
use native.Mathlib.Omega.{arith}

-- The casts to `uint8_t` and `uint32_t`.
abbrev pub u8 : ℕ → ℕ
u8 x = x % 2 ^ 8

abbrev pub u32 : ℕ → ℕ
u32 x = x % 2 ^ 32

-- `x & ~(size - 1U)` in 32 bits.
pub align_down : ℕ → ℕ → ℕ
align_down x size = bit_and x ((2 ^ 32 - 1) - (size - 1))

-- The binary digits of two numbers, put together by `op` for as many rounds as are given; `last` is
-- what becomes of the second number when the first has run out.
module _ (last : ℕ → ℕ) (op : ℕ → ℕ → ℕ) where
  combine : (rounds x y : ℕ) → ℕ
  combine rounds x y = digits last op rounds x y

  -- Rounds beyond the digits of the first number change nothing.
  combine_rounds : (x y j k : ℕ) → x ≤ j → x ≤ k → combine j x y ≡ combine k x y
  unfolding combine
  combine_rounds (suc v) y (suc j) (suc k) below below' =
      ap (λ t. t * 2 + op (suc v % 2) (y % 2))
        (combine_rounds (suc v / 2) (y / 2) j k (omega arith) (omega arith))
  combine_rounds zero y (suc j) (suc k) below below' = refl
  combine_rounds zero y zero zero below below' = refl
  combine_rounds zero y zero (suc k) below below' = refl
  combine_rounds zero y (suc j) zero below below' = refl
  combine_rounds (suc x) y zero k below below' = absurd (omega arith)
  combine_rounds (suc x) y (suc j) zero below below' = absurd (omega arith)

  -- The lowest digits, and what is above them.
  combine_lowest :
      (x y : ℕ)
      → combine (suc x) (suc x) y
        ≡ combine (suc x / 2) (suc x / 2) (y / 2) * 2 + op (suc x % 2) (y % 2)
  unfolding combine
  combine_lowest x y =
      let half = suc x / 2 in
      ap (λ t. t * 2 + op (suc x % 2) (y % 2))
        (combine_rounds half (y / 2) x half (omega arith) (omega arith))

zero-bit_and : (y : ℕ) → bit_and 0 y ≡ 0
zero-bit_and y = bit_and-bitwise 0 y

zero-bit_or : (y : ℕ) → bit_or 0 y ≡ y
zero-bit_or y = bit_or-bitwise 0 y

combined_and : (x y : ℕ) → bit_and x y ≡ combine (λ t. 0) min x x y
unfolding combine
combined_and = bit_and-bitwise

combined_or : (x y : ℕ) → bit_or x y ≡ combine (λ t. t) max x x y
unfolding combine
combined_or = bit_or-bitwise

-- The laws for the lowest bit.
pub bit_and-halves : (a b : ℕ) → bit_and a b ≡ bit_and (a / 2) (b / 2) * 2 + min (a % 2) (b % 2)
bit_and-halves zero y = omega (arith, zero-bit_and y, zero-bit_and (y / 2))
bit_and-halves (suc x) y =
    combined_and (suc x) y
    ∙ combine_lowest (λ t. 0) min x y
    ∙ ap (λ t. t * 2 + min (suc x % 2) (y % 2)) (sym (combined_and (suc x / 2) (y / 2)))

pub bit_or-halves : (a b : ℕ) → bit_or a b ≡ bit_or (a / 2) (b / 2) * 2 + max (a % 2) (b % 2)
bit_or-halves zero y = omega (arith, zero-bit_or y, zero-bit_or (y / 2))
bit_or-halves (suc x) y =
    combined_or (suc x) y
    ∙ combine_lowest (λ t. t) max x y
    ∙ ap (λ t. t * 2 + max (suc x % 2) (y % 2)) (sym (combined_or (suc x / 2) (y / 2)))

-- A mask of `n` ones keeps every number below `2 ^ n`.
pub bit_and_ones : (n a : ℕ) → a < 2 ^ n → bit_and a (2 ^ n - 1) ≡ a
bit_and_ones zero zero h = zero-bit_and (2 ^ 0 - 1)
bit_and_ones zero (suc a) h = absurd (omega arith)
bit_and_ones (suc n) a h = ground (
  arith,
  pow-suc 2 n,
  one-le-pow n 2,
  bit_and-halves a (2 ^ suc n - 1),
  bit_and_ones n (a / 2) (omega (arith, pow-suc 2 n)),
)

-- A shift by one place more doubles.
shift-suc : (n places : ℕ) → n * 2 ^ suc places ≡ 2 * (n * 2 ^ places)
shift-suc n places =
    let doubled : n * 2 ^ suc places ≡ n * (2 ^ places * 2) = ap (λ t. n * t) (pow-suc 2 places) in
    omega (arith, doubled)

-- A number with `k` low bits `r` above a mask with `k` low bits clear.
bit_and_clear :
    (k n q r : ℕ)
    → r < 2 ^ k
    → q < 2 ^ n
    → bit_and (q * 2 ^ k + r) ((2 ^ n - 1) * 2 ^ k) ≡ q * 2 ^ k
bit_and_clear zero n q r hr hq = ground (arith, bit_and_ones n q hq)
bit_and_clear (suc k) n q r hr hq = ground (
  arith,
  bit_and-halves (q * 2 ^ suc k + r) ((2 ^ n - 1) * 2 ^ suc k),
  shift-suc q k,
  shift-suc (2 ^ n - 1) k,
  pow-suc 2 k,
  bit_and_clear k n q (r / 2) (omega (arith, pow-suc 2 k)) hq,
)

-- Powers of two of a sum.
pub pow-add : (n k : ℕ) → 2 ^ (n + k) ≡ 2 ^ n * 2 ^ k
pow-add n zero = rw add-zero (omega arith)
pow-add n (suc k) =
    rw add-suc
      (omega (arith, pow-suc 2 (n + k), ap (λ (t : ℕ). 2 ^ n * t) (pow-suc 2 k), pow-add n k))

word_split : (k : ℕ) → k ≤ 32 → 32 ≡ 32 - k + k
word_split k h = omega arith

mask_high : (p q n : ℕ) → n ≡ p * q → 0 < p → 0 < q → (n - 1) - (q - 1) ≡ (p - 1) * q
mask_high zero q n e hp hq = absurd (omega arith)
mask_high (suc p) q n e hp hq = grind arith

-- `x & ~(size - 1U)` rounds down to a multiple of `size`, for a power of two.
pub align_down-pow : (k x : ℕ) → k ≤ 32 → x < 2 ^ 32 → align_down x (2 ^ k) ≡ x / 2 ^ k * 2 ^ k
unfolding align_down
align_down-pow k x hk hx =
    let split : 2 ^ 32 ≡ 2 ^ (32 - k) * 2 ^ k =
      ap (λ t. 2 ^ t) (word_split k hk) ∙ pow-add (32 - k) k in
    let mask : (2 ^ 32 - 1) - (2 ^ k - 1) ≡ (2 ^ (32 - k) - 1) * 2 ^ k =
      mask_high (2 ^ (32 - k)) (2 ^ k) (2 ^ 32) split (one-le-pow (32 - k) 2 (omega arith))
        (one-le-pow k 2 (omega arith)) in
    let quotient : x / 2 ^ k < 2 ^ (32 - k) =
      (div-lt_iff_lt-mul (one-le-pow k 2 (omega arith))).1 (rw (← split) hx) in
    rw mask (
      ap (λ t. bit_and t ((2 ^ (32 - k) - 1) * 2 ^ k)) (sym (div-add-mod' x (2 ^ k)))
      ∙ bit_and_clear k (32 - k) (x / 2 ^ k) (x % 2 ^ k) (mod-lt x (one-le-pow k 2 (omega arith)))
          quotient)

-- `(q << k) | r` is a sum when `r` fits in `k` bits.
bit_or-zero : (n a : ℕ) → a ≤ n → bit_or a 0 ≡ a
bit_or-zero zero zero h = zero-bit_or 0
bit_or-zero zero (suc a) h = absurd (omega arith)
bit_or-zero (suc n) zero h = zero-bit_or 0
bit_or-zero (suc n) (suc a) h =
    omega (arith, bit_or-halves (suc a) 0, bit_or-zero n (suc a / 2) (omega arith))

pub bit_or_fields : (k q r : ℕ) → r < 2 ^ k → bit_or (q * 2 ^ k) r ≡ q * 2 ^ k + r
bit_or_fields zero q r fits = ground (arith, bit_or-zero (q * 1) (q * 1))
bit_or_fields (suc k) q r fits = ground (
  arith,
  bit_or-halves (q * 2 ^ suc k) r,
  shift-suc q k,
  pow-suc 2 k,
  bit_or_fields k q (r / 2) (omega (arith, pow-suc 2 k)),
)

bit_and-zero : (n a : ℕ) → a ≤ n → bit_and a 0 ≡ 0
bit_and-zero n zero h = zero-bit_and 0
bit_and-zero zero (suc a) h = absurd (omega arith)
bit_and-zero (suc n) (suc a) h =
    omega (arith, bit_and-halves (suc a) 0, bit_and-zero n (suc a / 2) (omega arith))

-- A mask of `k` low bits is the remainder by `2 ^ k`.
bit_and_low : (k q r : ℕ) → r < 2 ^ k → bit_and (q * 2 ^ k + r) (2 ^ k - 1) ≡ r
bit_and_low zero q r fits = ground (arith, bit_and-zero (q * 1 + r) (q * 1 + r))
bit_and_low (suc k) q r fits = ground (
  arith,
  bit_and-halves (q * 2 ^ suc k + r) (2 ^ suc k - 1),
  shift-suc q k,
  pow-suc 2 k,
  one-le-pow k 2,
  bit_and_low k q (r / 2) (omega (arith, pow-suc 2 k)),
)

pub bit_and_mask : (k a : ℕ) → bit_and a (2 ^ k - 1) ≡ a % 2 ^ k
bit_and_mask k a =
    ap (λ t. bit_and t (2 ^ k - 1)) (sym (div-add-mod' a (2 ^ k)))
    ∙ bit_and_low k (a / 2 ^ k) (a % 2 ^ k) (mod-lt a (one-le-pow k 2 (omega arith)))

zero-bit_xor : (y : ℕ) → bit_xor 0 y ≡ y
zero-bit_xor y = bit_xor-bitwise 0 y

combined_xor : (x y : ℕ) → bit_xor x y ≡ combine (λ t. t) differ x x y
unfolding combine
combined_xor = bit_xor-bitwise

differ_bits : (x y : ℕ) → x < 2 → y < 2 → differ x y ≡ (x + y) % 2
differ_bits zero zero hx hy = refl
differ_bits zero (suc zero) hx hy = refl
differ_bits (suc zero) zero hx hy = refl
differ_bits (suc zero) (suc zero) hx hy = refl
differ_bits zero (suc (suc y)) hx hy = absurd (omega arith)
differ_bits (suc zero) (suc (suc y)) hx hy = absurd (omega arith)
differ_bits (suc (suc x)) y hx hy = absurd (omega arith)

-- The lowest bit of an exclusive or.
pub bit_xor_parity : (a b : ℕ) → bit_xor a b % 2 ≡ (a + b) % 2
bit_xor_parity zero y = omega (arith, zero-bit_xor y)
bit_xor_parity (suc x) y =
    let rest = combine (λ t. t) differ (suc x / 2) (suc x / 2) (y / 2) in
    let split : bit_xor (suc x) y ≡ rest * 2 + differ (suc x % 2) (y % 2) =
      combined_xor (suc x) y ∙ combine_lowest (λ t. t) differ x y in
    omega (arith, split, differ_bits (suc x % 2) (y % 2) (omega arith) (omega arith))

bit_or_comm_below : (n a b : ℕ) → a ≤ n → bit_or a b ≡ bit_or b a
bit_or_comm_below n zero b h = zero-bit_or b ∙ sym (bit_or-zero b b (omega arith))
bit_or_comm_below zero (suc a) b h = absurd (omega arith)
bit_or_comm_below (suc n) (suc a) b h = omega (
  arith,
  bit_or-halves (suc a) b,
  bit_or-halves b (suc a),
  bit_or_comm_below n (suc a / 2) (b / 2) (omega arith),
)

-- A bit above a number is added to it.
pub bit_or_above : (k r : ℕ) → r < 2 ^ k → bit_or r (2 ^ k) ≡ r + 2 ^ k
bit_or_above k r h =
    let one : 1 * 2 ^ k ≡ 2 ^ k = omega arith in
    bit_or_comm_below r r (2 ^ k) (omega arith)
    ∙ ap (λ t. bit_or t r) (sym one)
    ∙ bit_or_fields k 1 r h
    ∙ omega arith
