-- ===== src/Swd/Bus.antt =====
-- target/adiv5_swdp.c on the sequences of target/swdptap_generic.c: a read, bit by bit.
use blackmagic.Base.{
  ℕ, zero, suc, ◌/◌, bit_xor, Option, some, List, [], ◌∷◌, ◌++◌, length, drop, Bool, true, false,
  not, ◌==◌, if◌then◌else◌, ◌≡◌, refl, sym, ap, ◌∙◌, arith,
}
use blackmagic.Base.{if_lem}
use blackmagic.Remote.Dispatch.{Outcome, returned, raised, error}
use blackmagic.Wire.{Pins, read_bits, read_bits_parity, seq_in, seq_in_parity, seq_out}
use blackmagic.Wire.Line.{first, line, value, seq_in-value}
use blackmagic.Wire.Parity.{odd, seq_in_parity-odd}
use blackmagic.Swd.{
  SwdProc, SwdPort, low_access, request_loop, finish_access, generic, make_packet_request,
  ack_fault, ack_wait, all_clear, then_,
}
use blackmagic.Swd.Faults.{is_dropped}

module _ {W : Type 0} (swd : SwdProc W) where
  loop_ok :
      (fuel request time : ℕ) (dp : SwdPort) (w w1 : W)
      → swd.in_ 3 (swd.out request 8 w) ≡ (1, w1)
      → request_loop swd (suc fuel) request time dp w ≡ some (returned 1 (dp, w1))
  unfolding request_loop
  loop_ok fuel request time dp w w1 e =
      let again : ℕ → SwdPort → W → Option (Outcome (SwdPort × W) ℕ) = λ ack dp' w'.
        (let (late, w2) = swd.expired time w' in
          if late
          then some (returned ack (dp', w2))
          else request_loop swd fuel request time dp' w2) in
      let next : ℕ × W → Option (Outcome (SwdPort × W) ℕ) = λ r.
        if r.0 == ack_fault
        then then_ (low_access swd fuel false 0 all_clear dp r.1) (λ x s. again r.0 s.0 s.1)
        else if r.0 == ack_wait
        then again r.0 dp r.1
        else some (returned r.0 (dp, r.1)) in
      ap next e

  -- An access whose request is answered by `OK` goes on to the data.
  access_ok :
      (fuel : ℕ) (rnw : Bool) (addr value : ℕ) (dp : SwdPort) (w w1 : W)
      → is_dropped addr dp ≡ false
      → swd.in_ 3 (swd.out (make_packet_request rnw addr) 8 (swd.set_timeout w).1) ≡ (1, w1)
      → low_access swd (suc (suc fuel)) rnw addr value dp w
        ≡ some (finish_access swd rnw value 1 dp w1)
  unfolding low_access
  access_ok fuel rnw addr value dp w w1 drop e =
      let P : Option (Outcome (SwdPort × W) ℕ) → Type 0 =
        λ r. r ≡ some (finish_access swd rnw value 1 dp w1) in
      let next : Option (Outcome (SwdPort × W) ℕ) → Option (Outcome (SwdPort × W) ℕ) = λ o.
        then_ o (λ ack s.
          (let wait =
              then_ (low_access swd (suc fuel) false 0 1 s.0 s.1)
                (λ x s'. some (returned 0 (record s'.0 { fault = ack_wait }, s'.1))) in
            if ack == ack_wait then wait else some (finish_access swd rnw value ack s.0 s.1))) in
      if_lem P (is_dropped addr dp) (λ d. absurd (ground (arith, drop, d)))
        (λ d. ap next (
          loop_ok fuel (make_packet_request rnw addr) (swd.set_timeout w).0 dp (swd.set_timeout w).1
            w1 e))

-- A bus on which the bits of the target wait; what the probe puts out is lost.
abbrev pub bus : Pins (List Bool)
bus = record { bit_in = first; bit_out = λ b w. w }

-- The functions of the probe on this bus, with a clock that stands still.
abbrev pub bus_proc : SwdProc (List Bool)
bus_proc = generic bus (λ w. 0)

seq_out-bus : (ms n : ℕ) (w : List Bool) → seq_out bus ms n w ≡ w
unfolding seq_out
seq_out-bus ms zero w = refl
seq_out-bus ms (suc n) w = seq_out-bus (ms / 2) n w

read_bits-bus :
    (n index ret : ℕ) (w : List Bool) → read_bits bus n index ret w ≡ read_bits line n index ret w
unfolding read_bits
read_bits-bus zero index ret w = refl
read_bits-bus (suc n) index ret w = read_bits-bus n _ _ (first w).1

read_bits_parity-bus :
    (n index parity ret : ℕ) (w : List Bool)
    → read_bits_parity bus n index parity ret w ≡ read_bits_parity line n index parity ret w
unfolding read_bits_parity
read_bits_parity-bus zero index parity ret w = refl
read_bits_parity-bus (suc n) index parity ret w = read_bits_parity-bus n _ _ _ (first w).1

seq_in-bus : (n : ℕ) (w : List Bool) → seq_in bus n w ≡ seq_in line n w
unfolding seq_in
seq_in-bus n w = read_bits-bus n 1 0 w

seq_in_parity-bus : (n : ℕ) (w : List Bool) → seq_in_parity bus n w ≡ seq_in_parity line n w
unfolding seq_in_parity
seq_in_parity-bus n w =
    ap (λ r. (not ((if (first r.2).0 then bit_xor r.0 1 else r.0) == 0), r.1, (first r.2).1))
      (read_bits_parity-bus n 1 0 0 w)

-- An answer of three bits.
read_ack :
    (a b c : Bool) (rest : List Bool)
    → seq_in bus 3 (a ∷ b ∷ c ∷ rest) ≡ (value (a ∷ b ∷ c ∷ []), rest)
read_ack a b c rest =
    seq_in-bus 3 (a ∷ b ∷ c ∷ rest) ∙ seq_in-value (a ∷ b ∷ c ∷ []) rest (omega arith)

read_word :
    (bs rest : List Bool) (b : Bool)
    → length bs ≡ 32
    → seq_in_parity bus 32 (bs ++ (b ∷ rest)) ≡ (odd (b ∷ bs), value bs, rest)
read_word bs rest b h =
    seq_in_parity-bus 32 (bs ++ (b ∷ rest))
    ∙ ap (λ n. seq_in_parity line n (bs ++ (b ∷ rest))) (sym h)
    ∙ seq_in_parity-odd bs rest b (omega arith)

-- What a read gives from the 32 bits and the parity bit behind the answer `OK`.
abbrev pub read_result : List Bool → Bool → List Bool → SwdPort → Outcome (SwdPort × List Bool) ℕ
read_result bs b rest dp =
    if odd (b ∷ bs)
    then raised error (record dp { fault = 1 }, rest)
    else returned (value bs) (dp, rest)

finish_access-bus :
    (bs rest : List Bool) (b : Bool) (dp : SwdPort)
    → length bs ≡ 32
    → finish_access bus_proc true 0 1 dp (bs ++ (b ∷ rest)) ≡ read_result bs b rest dp
unfolding finish_access
finish_access-bus bs rest b dp h =
    ap
      (λ (r : Bool × ℕ × List Bool).
        if r.0 then raised error (record dp { fault = 1 }, r.2) else returned r.1 (dp, r.2))
      (read_word bs rest b h)

-- A read of 32 bits whose request is answered by `OK` returns the value of the bits exactly when
-- the number of ones, with the parity bit, is even; else it raises an error and leaves a fault.
pub low_access-read_result :
    (fuel addr : ℕ) (dp : SwdPort) (bs rest : List Bool) (b : Bool)
    → is_dropped addr dp ≡ false
    → length bs ≡ 32
    → low_access bus_proc
        (suc (suc fuel))
        true
        addr
        0
        dp
        (true ∷ false ∷ false ∷ (bs ++ (b ∷ rest)))
      ≡ some (read_result bs b rest dp)
low_access-read_result fuel addr dp bs rest b drop h =
    let w = true ∷ false ∷ false ∷ (bs ++ (b ∷ rest)) in
    let ack : seq_in bus 3 (seq_out bus (make_packet_request true addr) 8 w)
        ≡ (1, bs ++ (b ∷ rest)) =
      ap (seq_in bus 3) (seq_out-bus (make_packet_request true addr) 8 w)
      ∙ read_ack true false false (bs ++ (b ∷ rest)) in
    access_ok bus_proc fuel true addr 0 dp w (bs ++ (b ∷ rest)) drop ack
    ∙ ap (λ r. some r) (finish_access-bus bs rest b dp h)
