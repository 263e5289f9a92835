-- ===== src/Swd.antt =====
-- target/adiv5_swdp.c: accesses to the debug port of a target over two wires.
-- The functions of `swd_proc` and the clock are parameters over a state `W` of the outside.
pub mod Requests
pub mod Bus
pub mod Faults
use blackmagic.Base.{
  ℕ, zero, suc, ◌+◌, ◌-◌, ◌*◌, ◌/◌, ◌%◌, ◌^◌, ◌<◌, ◌≤◌, min, max, bit_and, bit_or, bit_xor, Option,
  none, some, List, [], ◌∷◌, ◌++◌, map, append-nil, append_assoc, Bytes, length, get_elem?, get_or,
  set, take, drop, replicate, All, subst, Bool, true, false, not, ◌&&◌, ◌||◌, ltb, leb, ◌==◌,
  if◌then◌else◌, ◌≡◌, ◌≢◌, refl, sym, ap, ◌∙◌, arith, ◌⊎◌, inl, inr, Bool-cases, Option-cases,
}
use blackmagic.Base.Words.{u8, u32}
use blackmagic.Remote.Dispatch.{Outcome, returned, raised, Exception, error}
use blackmagic.Wire.{Pins, seq_in, seq_in_parity, seq_out, seq_out_parity}

-- `swd_proc`, with `platform_timeout_set` for 250 ms, which gives the time it sets, and
-- `platform_timeout_is_expired`.
-- `in_parity` answers whether the parity is wrong, and the value.
pub record SwdProc (W : Type 0) : Type 0 where
  pub out : ℕ → ℕ → W → W
  pub in_ : ℕ → W → ℕ × W
  pub in_parity : ℕ → W → Bool × ℕ × W
  pub out_parity : ℕ → ℕ → W → W
  pub set_timeout : W → ℕ × W
  pub expired : ℕ → W → Bool × W

-- The fields of `adiv5_debug_port_s` that the accesses use.
pub record SwdPort : Type 0 where
  pub version : ℕ
  pub targetsel : ℕ
  pub fault : ℕ

-- The answers of a target.
abbrev pub ack_ok : ℕ
ack_ok = 1

abbrev pub ack_wait : ℕ
ack_wait = 2

abbrev pub ack_fault : ℕ
ack_fault = 4

abbrev pub ack_no_response : ℕ
ack_no_response = 7

-- `make_packet_request`.
unfoldable pub make_packet_request : Bool → ℕ → ℕ
make_packet_request rnw addr =
    let ap = not (bit_and addr 0x100 == 0) in
    let addr' = bit_and (bit_and addr 0xff) 0xc in
    let request : ℕ = 0x81 in
    let request1 = if ap then bit_xor request 0x22 else request in
    let request2 = if rnw then bit_xor request1 0x24 else request1 in
    let request3 = bit_or request2 (bit_and (addr' * 2) 0x18) in
    if addr' == 4 || addr' == 8 then bit_xor request3 0x20 else request3

-- What follows a call that may raise an exception or run out of fuel.
abbrev pub then_ :
    {S A B : Type 0} → Option (Outcome S A) → (A → S → Option (Outcome S B)) → Option (Outcome S B)
then_ none k = none
then_ (some (returned a s)) k = k a s
then_ (some (raised e s)) k = some (raised e s)

-- The bits of the abort register that clear the errors in a status.
abbrev pub clear_bits : ℕ → ℕ
clear_bits err =
    let orun = if bit_and err 0x2 == 0 then 0 else 0x10 in
    let cmp = if bit_and err 0x10 == 0 then 0 else 0x2 in
    let sticky = if bit_and err 0x20 == 0 then 0 else 0x4 in
    let wdata = if bit_and err 0x80 == 0 then 0 else 0x8 in
    bit_or (bit_or (bit_or orun cmp) sticky) wdata

-- A fault in the loop of `firmware_swdp_low_access` clears the errors by another access.
abbrev pub all_clear : ℕ
all_clear = 0x1e

module _ {W : Type 0} (swd : SwdProc W) where
  -- `swd_line_reset`.
  unfoldable pub line_reset : W → W
  line_reset w = swd.out 0x0fffffff 32 (swd.out 0xffffffff 32 w)

  -- `firmware_dp_low_write`: whether it failed.
  unfoldable pub dp_low_write : ℕ → ℕ → W → Bool × W
  dp_low_write addr value w =
      let (res, w') = swd.in_ 3 (swd.out (make_packet_request false addr) 8 w) in
      (not (res == ack_ok), swd.out 0 8 (swd.out_parity value 32 w'))

  -- `firmware_dp_low_read`.
  unfoldable pub dp_low_read : ℕ → W → ℕ × W
  dp_low_read addr w =
      let (res, w') = swd.in_ 3 (swd.out (make_packet_request true addr) 8 w) in
      let (bad, value, w'') = swd.in_parity 32 w' in (if res == ack_ok then value else 0, w'')

  -- `firmware_swdp_error`: the errors that were set.
  unfoldable pub swdp_error : Bool → SwdPort → W → ℕ × SwdPort × W
  unfolding line_reset dp_low_write dp_low_read
  swdp_error protocol_recovery dp w =
      let w1 = line_reset w in
      let w2 = if leb 2 dp.version then (dp_low_write 0xc dp.targetsel w1).1 else w1 in
      let w3 = (dp_low_read 0x0 w2).1 in
      let w4 = if leb 2 dp.version && not (dp.fault == 0) || protocol_recovery then w3 else w in
      let (status, w5) = dp_low_read 0x4 w4 in
      let err = bit_and status 0xb2 in
      let clr = clear_bits err in
      let w6 = if clr == 0 then w5 else (dp_low_write 0x0 clr w5).1 in
      (err, record dp { fault = 0 }, w6)

  -- The end of `firmware_swdp_low_access` for every answer but a wait.
  unfoldable pub finish_access : Bool → ℕ → ℕ → SwdPort → W → Outcome (SwdPort × W) ℕ
  finish_access rnw value ack dp w =
      let (bad, response, w') = swd.in_parity 32 w in
      if ack == ack_fault || ack == ack_no_response
      then returned 0 (record dp { fault = ack }, w)
      else if not (ack == ack_ok)
      then raised error (dp, w)
      else if not rnw
      then returned 0 (dp, swd.out 0 8 (swd.out_parity value 32 w))
      else if bad
      then raised error (record dp { fault = 1 }, w')
      else returned response (dp, w')

  -- `firmware_swdp_low_access`, and its loop, on fuel (`none` when it runs out). The loop gives the
  -- last answer of the target.
  unfoldable mutual
    unfolding finish_access

    pub request_loop : ℕ → ℕ → ℕ → SwdPort → W → Option (Outcome (SwdPort × W) ℕ)
    request_loop zero request time dp w = none
    request_loop (suc fuel) request time dp w =
        let (ack, w1) = swd.in_ 3 (swd.out request 8 w) in
        let again : SwdPort → W → Option (Outcome (SwdPort × W) ℕ) = λ dp' w'.
          (let (late, w2) = swd.expired time w' in
            let rest = request_loop fuel request time dp' w2 in
            if late then some (returned ack (dp', w2)) else rest) in
        let cleared : Option (Outcome (SwdPort × W) ℕ) =
          then_ (low_access fuel false 0 all_clear dp w1) (λ x s. again s.0 s.1) in
        let waiting = again dp w1 in
        if ack == ack_fault
        then cleared
        else if ack == ack_wait
        then waiting
        else some (returned ack (dp, w1))

    pub low_access : ℕ → Bool → ℕ → ℕ → SwdPort → W → Option (Outcome (SwdPort × W) ℕ)
    low_access zero rnw addr value dp w = none
    low_access (suc fuel) rnw addr value dp w =
        let aborted : SwdPort → W → Option (Outcome (SwdPort × W) ℕ) = λ dp' w'.
          then_ (low_access fuel false 0 1 dp' w')
            (λ x s. some (returned 0 (record s.0 { fault = ack_wait }, s.1))) in
        let (time, w0) = swd.set_timeout w in
        let run : Option (Outcome (SwdPort × W) ℕ) =
          then_ (request_loop fuel (make_packet_request rnw addr) time dp w0) (λ ack s.
            (let wait = aborted s.0 s.1 in
              if ack == ack_wait then wait else some (finish_access rnw value ack s.0 s.1))) in
        if not (bit_and addr 0x100 == 0) && not (dp.fault == 0)
        then some (returned 0 (dp, w))
        else run

  -- `adiv5_dp_recoverable_access`.
  unfoldable pub recoverable_access :
      ℕ → Bool → ℕ → ℕ → SwdPort → W → Option (Outcome (SwdPort × W) ℕ)
  unfolding swdp_error
  recoverable_access fuel rnw addr value dp w =
      then_ (low_access fuel rnw addr value dp w) (λ result s.
        (let (bad, response, w1) = swd.in_parity 32 s.1 in
          let (err, dp2, w2) = swdp_error true s.0 w1 in
          let retry = low_access fuel rnw addr value dp2 w2 in
          if s.0.fault == ack_no_response then retry else some (returned result s)))

  -- `firmware_swdp_read`.
  unfoldable pub swdp_read : ℕ → ℕ → SwdPort → W → Option (Outcome (SwdPort × W) ℕ)
  unfolding recoverable_access
  swdp_read fuel addr dp w =
      let first = recoverable_access fuel true addr 0 dp w in
      if bit_and addr 0x100 == 0
      then first
      else then_ first (λ x s. low_access fuel true 0xc 0 s.0 s.1)

  -- `firmware_swdp_abort`.
  unfoldable pub swdp_abort : ℕ → ℕ → SwdPort → W → Option (Outcome (SwdPort × W) ℕ)
  swdp_abort fuel abort dp w = low_access fuel false 0 abort dp w

  -- `firmware_ap_write` and `firmware_ap_read`, for an access port.
  unfoldable pub ap_write : ℕ → ℕ → ℕ → ℕ → SwdPort → W → Option (Outcome (SwdPort × W) ℕ)
  ap_write fuel apsel addr value dp w =
      then_
        (recoverable_access fuel false 0x8 (bit_or (u32 (apsel * 2 ^ 24)) (bit_and addr 0xf0)) dp w)
        (λ x s. low_access fuel false addr value s.0 s.1)

  unfoldable pub ap_read : ℕ → ℕ → ℕ → SwdPort → W → Option (Outcome (SwdPort × W) ℕ)
  ap_read fuel apsel addr dp w =
      then_
        (recoverable_access fuel false 0x8 (bit_or (u32 (apsel * 2 ^ 24)) (bit_and addr 0xf0)) dp w)
        (λ x s. swdp_read fuel addr s.0 s.1)

-- The sequences of swdptap_generic.c on some pins, and the timeout of timing.c; `time_ms` is the clock.
abbrev pub generic : {W : Type 0} → Pins W → (W → ℕ) → SwdProc W
generic pins time_ms = record {
  out = seq_out pins;
  in_ = seq_in pins;
  in_parity = seq_in_parity pins;
  out_parity = seq_out_parity pins;
  set_timeout = λ w. (u32 (time_ms w + 250), w);
  expired = λ time w. (ltb time (time_ms w), w);
}
