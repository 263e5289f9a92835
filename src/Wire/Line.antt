-- ===== src/Wire/Line.antt =====
-- target/swdptap_generic.c on a line that gives back the bits that were put out.
use blackmagic.Base.{
  ℕ, zero, suc, ◌+◌, ◌*◌, ◌/◌, ◌%◌, ◌^◌, ◌<◌, ◌≤◌, bit_and, bit_or, List, [], ◌∷◌, ◌++◌, append-nil,
  append_assoc, length, Bool, true, false, ◌==◌, if◌then◌else◌, ◌≡◌, refl, sym, ap, ◌∙◌, arith,
}
use blackmagic.Base.Words.{u32, bit_and_mask, bit_or_above}
use blackmagic.Base.{ap₂}
use native.Mathlib.Nat.{mul-add, mul_assoc, pow-suc, pow-le-pow_right}
use blackmagic.Wire.{Pins, read_bits, seq_in, seq_out}

-- The first bit that is waiting, or a low line.
abbrev pub first : List Bool → Bool × List Bool
first [] = (false, [])
first (b ∷ bs) = (b, bs)

-- A line on which the bits wait in the order in which they were put out.
abbrev pub line : Pins (List Bool)
line = record { bit_in = first; bit_out = λ b bs. bs ++ (b ∷ []) }

-- The lowest `n` bits of a number, lowest first.
abbrev pub bits : ℕ → ℕ → List Bool
bits zero x = []
bits (suc n) x = (x % 2 == 1) ∷ bits n (x / 2)

-- The number that bits stand for.
abbrev pub value : List Bool → ℕ
value [] = 0
value (b ∷ bs) = (if b then 1 else 0) + 2 * value bs

low_bit : (x : ℕ) → (bit_and x 1 == 1) ≡ (x % 2 == 1)
low_bit x = ap (λ t. t == 1) (bit_and_mask 1 x)

-- What `swdptap_seq_out` puts out: the bits, lowest first.
pub seq_out-bits : (ms n : ℕ) (w : List Bool) → seq_out line ms n w ≡ w ++ bits n ms
unfolding seq_out
seq_out-bits ms zero w = sym (append-nil w)
seq_out-bits ms (suc n) w =
    seq_out-bits (ms / 2) n (w ++ ((bit_and ms 1 == 1) ∷ []))
    ∙ append_assoc w ((bit_and ms 1 == 1) ∷ []) (bits n (ms / 2))
    ∙ ap (λ b. w ++ (b ∷ bits n (ms / 2))) (low_bit ms)

-- The bits of a number stand for it.
pub value-bits : (n x : ℕ) → x < 2 ^ n → value (bits n x) ≡ x
value-bits zero x h = omega arith
value-bits (suc n) x h =
    let rest : value (bits n (x / 2)) ≡ x / 2 = value-bits n (x / 2) (omega (arith, pow-suc 2 n)) in
    ground (arith, rest)

pub length-bits : (n x : ℕ) → length (bits n x) ≡ n
length-bits zero x = refl
length-bits (suc n) x = ap suc (length-bits n (x / 2))

index_fits : (k : ℕ) → k < 32 → 2 ^ k < 2 ^ 32
index_fits k h =
    omega (arith, pow-suc 2 k, pow-le-pow_right {n = 2} (omega arith) {i = suc k} {j = 32} h)

-- What one bit adds to the value read so far.
pub next_value :
    (b : Bool) (k ret : ℕ)
    → k < 32
    → ret < 2 ^ k
    → (if b then bit_or ret (2 ^ k % 2 ^ 32) else ret) ≡ ret + 2 ^ k * (if b then 1 else 0)
next_value true k ret h lt =
    let small : 2 ^ k % 2 ^ 32 ≡ 2 ^ k = omega (arith, index_fits k h) in
    ap (λ i. bit_or ret i) small ∙ bit_or_above k ret lt ∙ omega arith
next_value false k ret h lt = omega arith

-- The index of the next bit.
pub next_index : (k : ℕ) → k < 32 → u32 (2 ^ k % 2 ^ 32 * 2) ≡ 2 ^ suc k % 2 ^ 32
next_index k h = omega (arith, index_fits k h, pow-suc 2 k)

pub next_value-lt :
    (b : Bool) (k ret : ℕ) → ret < 2 ^ k → ret + 2 ^ k * (if b then 1 else 0) < 2 ^ suc k
next_value-lt true k ret h = omega (arith, pow-suc 2 k)
next_value-lt false k ret h = omega (arith, pow-suc 2 k)

pub value_step :
    (b : Bool) (bs : List Bool) (k ret : ℕ)
    → ret + 2 ^ k * (if b then 1 else 0) + 2 ^ suc k * value bs ≡ ret + 2 ^ k * value (b ∷ bs)
value_step b bs k ret =
    let c : ℕ = if b then 1 else 0 in
    omega (
      arith,
      mul-add (2 ^ k) c (2 * value bs),
      mul_assoc (2 ^ k) 2 (value bs),
      ap (λ (t : ℕ). t * value bs) (pow-suc 2 k),
    )

-- The loop reads the bits that wait, lowest first.
read_bits-value :
    (bs rest : List Bool) (k ret : ℕ)
    → k + length bs ≤ 32
    → ret < 2 ^ k
    → read_bits line (length bs) (2 ^ k % 2 ^ 32) ret (bs ++ rest) ≡ (ret + 2 ^ k * value bs, rest)
unfolding read_bits
read_bits-value [] rest k ret h lt = ap (λ r. (r, rest)) (omega arith)
read_bits-value (b ∷ bs) rest k ret h lt =
    ap₂ (λ i r. read_bits line (length bs) i r (bs ++ rest)) (next_index k (omega arith))
      (next_value b k ret (omega arith) lt)
    ∙ read_bits-value bs rest (suc k) (ret + 2 ^ k * (if b then 1 else 0)) (omega arith)
        (next_value-lt b k ret lt)
    ∙ ap (λ r. (r, rest)) (value_step b bs k ret)

-- `swdptap_seq_in` reads as many bits as it is asked for, lowest first, and leaves what follows.
pub seq_in-value :
    (bs rest : List Bool) → length bs ≤ 32 → seq_in line (length bs) (bs ++ rest) ≡ (value bs, rest)
unfolding seq_in
seq_in-value bs rest h =
    read_bits-value bs rest 0 0 (omega arith) (omega arith) ∙ ap (λ r. (r, rest)) (omega arith)

-- What `swdptap_seq_out` puts out on a line of up to 32 cycles, `swdptap_seq_in` reads back.
pub seq_in-seq_out :
    (ms n : ℕ) → n ≤ 32 → ms < 2 ^ n → seq_in line n (seq_out line ms n []) ≡ (ms, [])
seq_in-seq_out ms n h lt =
    let ok : length (bits n ms) ≤ 32 = omega (arith, length-bits n ms) in
    ap (λ w. seq_in line n w) (seq_out-bits ms n [] ∙ sym (append-nil (bits n ms)))
    ∙ ap (λ k. seq_in line k (bits n ms ++ [])) (sym (length-bits n ms))
    ∙ seq_in-value (bits n ms) [] ok
    ∙ ap (λ x. (x, [])) (value-bits n ms lt)
