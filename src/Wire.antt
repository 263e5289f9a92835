-- ===== src/Wire.antt =====
-- target/swdptap_generic.c and target/jtagtap_generic.c: sequences of bits on the pins of the probe.
-- The pins are a parameter over a state `W` of the outside.
pub mod Line
pub mod Parity
use blackmagic.Base.{
  ℕ, zero, suc, ◌+◌, ◌-◌, ◌*◌, ◌/◌, ◌%◌, ◌^◌, ◌<◌, ◌≤◌, min, max, bit_and, bit_or, bit_xor, Option,
  none, some, List, [], ◌∷◌, ◌++◌, map, append-nil, append_assoc, Bytes, length, get_elem?, get_or,
  set, take, drop, replicate, All, subst, Bool, true, false, not, ◌&&◌, ◌||◌, ltb, leb, ◌==◌,
  if◌then◌else◌, ◌≡◌, ◌≢◌, refl, sym, ap, ◌∙◌, arith, ◌⊎◌, inl, inr, Bool-cases, Option-cases,
}
use blackmagic.Base.Words.{u8, u32}

-- `swdptap_bit_in` and `swdptap_bit_out`.
pub record Pins (W : Type 0) : Type 0 where
  pub bit_in : W → Bool × W
  pub bit_out : Bool → W → W

module _ {W : Type 0} (pins : Pins W) where
  -- The loop of `swdptap_seq_in`.
  unfoldable pub read_bits : ℕ → ℕ → ℕ → W → ℕ × W
  read_bits zero index ret w = (ret, w)
  read_bits (suc ticks) index ret w =
      let (b, w') = pins.bit_in w in
      read_bits ticks (u32 (index * 2)) (if b then bit_or ret index else ret) w'

  -- `swdptap_seq_in`.
  unfoldable pub seq_in : ℕ → W → ℕ × W
  unfolding read_bits
  seq_in ticks w = read_bits ticks 1 0 w

  -- The loop of `swdptap_seq_in_parity`: the parity, the value.
  unfoldable pub read_bits_parity : ℕ → ℕ → ℕ → ℕ → W → ℕ × ℕ × W
  read_bits_parity zero index parity ret w = (parity, ret, w)
  read_bits_parity (suc ticks) index parity ret w =
      let (b, w') = pins.bit_in w in
      read_bits_parity ticks (u32 (index * 2)) (if b then bit_xor parity 1 else parity)
        (if b then bit_or ret index else ret) w'

  -- `swdptap_seq_in_parity`: whether the parity is wrong, and the value.
  unfoldable pub seq_in_parity : ℕ → W → Bool × ℕ × W
  unfolding read_bits_parity
  seq_in_parity ticks w =
      let (parity, ret, w') = read_bits_parity ticks 1 0 0 w in
      let (b, w'') = pins.bit_in w' in
      (not ((if b then bit_xor parity 1 else parity) == 0), ret, w'')

  -- `swdptap_seq_out`.
  unfoldable pub seq_out : ℕ → ℕ → W → W
  seq_out ms zero w = w
  seq_out ms (suc ticks) w = seq_out (ms / 2) ticks (pins.bit_out (bit_and ms 1 == 1) w)

  -- The loop of `swdptap_seq_out_parity`; `parity ^= MS` keeps eight bits.
  unfoldable pub write_bits_parity : ℕ → ℕ → ℕ → W → ℕ × W
  write_bits_parity ms zero parity w = (parity, w)
  write_bits_parity ms (suc ticks) parity w =
      write_bits_parity (ms / 2) ticks (u8 (bit_xor parity ms)) (pins.bit_out (bit_and ms 1 == 1) w)

  -- `swdptap_seq_out_parity`.
  unfoldable pub seq_out_parity : ℕ → ℕ → W → W
  unfolding write_bits_parity
  seq_out_parity ms ticks w =
      let (parity, w') = write_bits_parity ms ticks 0 w in pins.bit_out (bit_and parity 1 == 1) w'

-- `jtag_proc.jtagtap_next`: TMS and TDI in, TDO out.
abbrev pub Next : Type 0 → Type 0
Next W = Bool → Bool → W → Bool × W

-- `data_in[cycle >> 3] & (1 << (cycle & 7))`.
abbrev pub bit_at : Bytes → ℕ → Bool
bit_at bytes cycle = not (bit_and (get_or bytes (cycle / 8) 0) (2 ^ (cycle % 8)) == 0)

module _ {W : Type 0} (next : Next W) where
  -- `jtagtap_tms_seq`, for `left` more cycles.
  pub tms_seq : ℕ → ℕ → ℕ → W → W
  tms_seq tms_states cycle zero w = w
  tms_seq tms_states cycle (suc left) w =
      tms_seq tms_states (cycle + 1) left (next (bit_and (tms_states / 2 ^ cycle) 1 == 1) true w).1

  -- `jtagtap_tdi_seq` from a cycle on, for `left` more cycles.
  pub tdi_seq : Bool → Bytes → ℕ → ℕ → W → W
  tdi_seq final_tms bytes cycle zero w = w
  tdi_seq final_tms bytes cycle (suc left) w =
      tdi_seq final_tms bytes (cycle + 1) left
        (next (left == 0 && final_tms) (bit_at bytes cycle) w).1

  -- `jtagtap_tdi_tdo_seq` from a cycle on, for `left` more cycles.
  pub tdi_tdo_seq : Bool → Bytes → ℕ → ℕ → ℕ → Bytes → W → Bytes × W
  tdi_tdo_seq final_tms bytes cycle zero value out w = (out, w)
  tdi_tdo_seq final_tms bytes cycle (suc left) value out w =
      let bit = cycle % 8 in
      let (tdo, w') = next (left == 0 && final_tms) (bit_at bytes cycle) w in
      let value' = if tdo then bit_or value (2 ^ bit) else value in
      tdi_tdo_seq final_tms bytes (cycle + 1) left (if bit == 7 then 0 else value')
        (if bit == 7 then set out (cycle / 8) value' else out) w'
