-- ===== src/Wire/Parity.antt =====
-- target/swdptap_generic.c: the parity bit behind a sequence.
use blackmagic.Base.{
  ℕ, zero, suc, ◌+◌, ◌-◌, ◌*◌, ◌/◌, ◌%◌, ◌^◌, ◌<◌, ◌≤◌, bit_and, bit_xor, List, [], ◌∷◌, ◌++◌,
  append-nil, append_assoc, length, Bool, true, false, not, ◌==◌, if◌then◌else◌, ◌≡◌, refl, sym, ap,
  ◌∙◌, arith,
}
use blackmagic.Base.{ap₂, length-append}
use blackmagic.Base.Words.{u8, bit_and_mask, bit_xor_parity}
use blackmagic.Wire.{read_bits_parity, seq_in_parity, write_bits_parity, seq_out_parity}
use blackmagic.Wire.Line.{
  first, line, bits, value, value-bits, length-bits, next_value, next_index, next_value-lt,
  value_step,
}

-- Whether the number of ones is odd.
abbrev pub odd : List Bool → Bool
odd [] = false
odd (b ∷ bs) = if b then not (odd bs) else odd bs

-- The bits with the one at a position changed.
abbrev pub flip : ℕ → List Bool → List Bool
flip i [] = []
flip zero (b ∷ bs) = not b ∷ bs
flip (suc i) (b ∷ bs) = b ∷ flip i bs

-- What a number with one more bit leaves of the parity so far, as a number.
abbrev bit : Bool → ℕ
bit b = if b then 1 else 0

bit_xor_one : (p : ℕ) → p < 2 → bit_xor p 1 ≡ 1 - p
bit_xor_one zero h = refl
bit_xor_one (suc zero) h = refl
bit_xor_one (suc (suc p)) h = absurd (omega arith)

next_parity :
    (b : Bool) (p : Bool) → (if b then bit_xor (bit p) 1 else bit p) ≡ bit (if b then not p else p)
next_parity true true = bit_xor_one 1 (omega arith)
next_parity true false = bit_xor_one 0 (omega arith)
next_parity false p = refl

-- The parity behind some bits, from the parity before them.
abbrev carried : Bool → List Bool → Bool
carried p [] = p
carried p (b ∷ bs) = carried (if b then not p else p) bs

carried-odd : (p : Bool) (bs : List Bool) → carried p bs ≡ (if p then not (odd bs) else odd bs)
carried-odd p [] = ground arith
carried-odd p (b ∷ bs) = ground (arith, carried-odd (if b then not p else p) bs)

read_bits_parity-value :
    (bs rest : List Bool) (k ret : ℕ) (p : Bool)
    → k + length bs ≤ 32
    → ret < 2 ^ k
    → read_bits_parity line (length bs) (2 ^ k % 2 ^ 32) (bit p) ret (bs ++ rest)
      ≡ (bit (carried p bs), ret + 2 ^ k * value bs, rest)
unfolding read_bits_parity
read_bits_parity-value [] rest k ret p h lt = ap (λ r. (bit p, r, rest)) (omega arith)
read_bits_parity-value (b ∷ bs) rest k ret p h lt =
    ap₂
      (λ i r.
        read_bits_parity line (length bs) i (if b then bit_xor (bit p) 1 else bit p) r (bs ++ rest))
      (next_index k (omega arith)) (next_value b k ret (omega arith) lt)
    ∙ ap
        (λ q.
          read_bits_parity line (length bs) (2 ^ suc k % 2 ^ 32) q
            (ret + 2 ^ k * (if b then 1 else 0)) (bs ++ rest))
        (next_parity b p)
    ∙ read_bits_parity-value bs rest (suc k) (ret + 2 ^ k * (if b then 1 else 0))
        (if b then not p else p) (omega arith) (next_value-lt b k ret lt)
    ∙ ap (λ r. (bit (carried p (b ∷ bs)), r, rest)) (value_step b bs k ret)

parity_test :
    (b p : Bool) → not ((if b then bit_xor (bit p) 1 else bit p) == 0) ≡ (if b then not p else p)
parity_test b p = ap (λ q. not (q == 0)) (next_parity b p) ∙ bit_set (if b then not p else p)
  where
    bit_set : (q : Bool) → not (bit q == 0) ≡ q
    bit_set true = refl
    bit_set false = refl

-- `swdptap_seq_in_parity` answers an error exactly when the number of ones among the bits and the
-- one behind them is odd, and the value of the bits.
pub seq_in_parity-odd :
    (bs rest : List Bool) (b : Bool)
    → length bs ≤ 32
    → seq_in_parity line (length bs) (bs ++ (b ∷ rest)) ≡ (odd (b ∷ bs), value bs, rest)
unfolding seq_in_parity
seq_in_parity-odd bs rest b h =
    let end : ℕ × ℕ × List Bool → Bool × ℕ × List Bool =
      λ r. (not ((if (first r.2).0 then bit_xor r.0 1 else r.0) == 0), r.1, (first r.2).1) in
    let read : read_bits_parity line (length bs) 1 0 0 (bs ++ (b ∷ rest))
        ≡ (bit (odd bs), value bs, b ∷ rest) =
      read_bits_parity-value bs (b ∷ rest) 0 0 false (omega arith) (omega arith)
      ∙ ap₂ (λ p v. (bit p, v, b ∷ rest)) (carried-odd false bs) (omega arith) in
    ap end read ∙ ap (λ e. (e, value bs, rest)) (parity_test b (odd bs))

parity_step :
    (parity ms next : ℕ) (q : Bool)
    → next % 2 ≡ (parity + ms) % 2
    → (next + bit q) % 2 ≡ (parity + bit (if ms % 2 == 1 then not q else q)) % 2
parity_step parity ms next q h = ground arith

write_bits_parity-bits :
    (ms n parity : ℕ) (w : List Bool)
    → (let r = write_bits_parity line ms n parity w in
        (r.1 ≡ w ++ bits n ms) × (r.0 % 2 ≡ (parity + bit (odd (bits n ms))) % 2))
unfolding write_bits_parity
write_bits_parity-bits ms zero parity w = (sym (append-nil w), omega arith)
write_bits_parity-bits ms (suc n) parity w =
    let c : Bool = bit_and ms 1 == 1 in
    let next = u8 (bit_xor parity ms) in
    let (sent, kept) = write_bits_parity-bits (ms / 2) n next (w ++ (c ∷ [])) in
    (
      sent
          ∙ append_assoc w (c ∷ []) (bits n (ms / 2))
          ∙ ap (λ b. w ++ (b ∷ bits n (ms / 2))) (ap (λ t. t == 1) (bit_and_mask 1 ms)),
      kept
          ∙ parity_step parity ms next (odd (bits n (ms / 2)))
              (omega (arith, bit_xor_parity parity ms)),
    )

bit_one : (q : Bool) → ((0 + bit q) % 2 == 1) ≡ q
bit_one true = refl
bit_one false = refl

-- What `swdptap_seq_out_parity` puts out: the bits, lowest first, and one more that makes the number
-- of ones even.
pub seq_out_parity-bits :
    (ms n : ℕ) (w : List Bool)
    → seq_out_parity line ms n w ≡ w ++ (bits n ms ++ (odd (bits n ms) ∷ []))
unfolding seq_out_parity
seq_out_parity-bits ms n w =
    let (sent, kept) = write_bits_parity-bits ms n 0 w in
    let r = write_bits_parity line ms n 0 w in
    let low : (bit_and r.0 1 == 1) ≡ odd (bits n ms) =
      ap (λ t. t == 1) (bit_and_mask 1 r.0 ∙ kept) ∙ bit_one (odd (bits n ms)) in
    ap₂ (λ v b. v ++ (b ∷ [])) sent low ∙ append_assoc w (bits n ms) (odd (bits n ms) ∷ [])

odd-flip : (i : ℕ) (bs : List Bool) → i < length bs → odd (flip i bs) ≡ not (odd bs)
odd-flip i [] h = absurd (omega arith)
odd-flip zero (b ∷ bs) h = ground arith
odd-flip (suc i) (b ∷ bs) h = ground (arith, odd-flip i bs (omega arith))

odd-append : (xs : List Bool) (b : Bool) → odd (xs ++ (b ∷ [])) ≡ odd (b ∷ xs)
odd-append [] b = refl
odd-append (x ∷ xs) b = ground (arith, odd-append xs b)

length-flip : (i : ℕ) (bs : List Bool) → length (flip i bs) ≡ length bs
length-flip i [] = refl
length-flip zero (b ∷ bs) = refl
length-flip (suc i) (b ∷ bs) = ap suc (length-flip i bs)

even_total : (bs : List Bool) → odd (odd bs ∷ bs) ≡ false
even_total bs = ground arith

last_split :
    (n : ℕ) (ys : List Bool)
    → length ys ≡ suc n
    → (bs : List Bool) × (b : Bool) × (ys ≡ bs ++ (b ∷ [])) × (length bs ≡ n)
last_split n [] e = absurd (omega arith)
last_split zero (y ∷ []) e = ([], y, refl, refl)
last_split zero (y ∷ z ∷ ys) e = absurd (omega arith)
last_split (suc n) (y ∷ ys) e =
    let (bs, b, split, len) = last_split n ys (omega arith) in
    (y ∷ bs, b, ap (λ t. y ∷ t) split, ap suc len)

-- The error that `swdptap_seq_in_parity` answers, for all the bits that it reads.
seq_in_parity_error :
    (n : ℕ) (ys : List Bool) → n ≤ 32 → length ys ≡ suc n → (seq_in_parity line n ys).0 ≡ odd ys
seq_in_parity_error n ys h e =
    let (bs, b, split, len) = last_split n ys e in
    ap₂ (λ k t. (seq_in_parity line k t).0) (sym len) split
    ∙ ap (λ r. r.0) (seq_in_parity-odd bs [] b (omega arith))
    ∙ sym (odd-append bs b)
    ∙ ap odd (sym split)

-- What `swdptap_seq_out_parity` puts out on a line of up to 32 cycles, `swdptap_seq_in_parity` reads
-- back without an error.
pub seq_in_parity-seq_out_parity :
    (ms n : ℕ)
    → n ≤ 32
    → ms < 2 ^ n
    → seq_in_parity line n (seq_out_parity line ms n []) ≡ (false, ms, [])
seq_in_parity-seq_out_parity ms n h lt =
    let bs = bits n ms in
    ap (λ w. seq_in_parity line n w) (seq_out_parity-bits ms n [])
    ∙ ap (λ k. seq_in_parity line k (bs ++ (odd bs ∷ []))) (sym (length-bits n ms))
    ∙ seq_in_parity-odd bs [] (odd bs) (omega (arith, length-bits n ms))
    ∙ ap₂ (λ e v. (e, v, [])) (even_total bs) (value-bits n ms lt)

-- When any one of the bits that `swdptap_seq_out_parity` puts out is changed on the line, the
-- parity bit included, `swdptap_seq_in_parity` answers an error, on a line of up to 32 cycles.
pub seq_in_parity-flip :
    (ms n i : ℕ)
    → n ≤ 32
    → i ≤ n
    → (seq_in_parity line n (flip i (seq_out_parity line ms n []))).0 ≡ true
seq_in_parity-flip ms n i h le =
    let bs = bits n ms in
    let all : List Bool = bs ++ (odd bs ∷ []) in
    let len : length all ≡ suc n =
      omega (arith, length-append bs (odd bs ∷ []), length-bits n ms) in
    ap (λ w. (seq_in_parity line n (flip i w)).0) (seq_out_parity-bits ms n [])
    ∙ seq_in_parity_error n (flip i all) h (length-flip i all ∙ len)
    ∙ odd-flip i all (omega arith)
    ∙ ap not (odd-append bs (odd bs) ∙ even_total bs)
