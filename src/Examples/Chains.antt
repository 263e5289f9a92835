-- ===== src/Examples/Chains.antt =====
-- The scan of a JTAG chain, from target/jtag_scan.c, and accesses over it, from
-- target/adiv5_jtagdp.c, at concrete inputs.
use blackmagic.Base.{◌+◌, take, ltb, if◌then◌else◌}
use blackmagic.Base.{
  ℕ, suc, ◌-◌, Option, none, some, List, [], ◌∷◌, Bytes, replicate, true, ◌==◌, ◌≡◌, refl, arith,
}
use blackmagic.Remote.Dispatch.{Outcome}
use blackmagic.Jtag.{
  read_idcodes, idcode_loop, validate_irs, validate_loop, sanity_check, bypass_loop,
}
use blackmagic.Jtag.{
  JtagProc, Descr, get_quirks, Device, Chain, scanned, overrun, empty_device, read_irs, shift_dr,
}
use blackmagic.Jtag.Dp.{JtagPort, Timer, jtagdp_low_access, jtagdp_low_access_ends}
use blackmagic.Jtag.Lengths.{chain_proc, register_bits, fuel_for, assign, read_irs-assign}
use blackmagic.Jtag.Overrun.{read_irs-overrun}
use blackmagic.Jtag.Scan.{Platform, find_irs, finish_scan, probe_devices, find_descr, jtag_scan}
use blackmagic.Jtag.Given.{ArePlaced, jtag_scan-ArePlaced}

abbrev lengths : List ℕ
lengths = 4 ∷ 5 ∷ 2 ∷ []

-- A table with one row, for debug ports of Arm.
abbrev table : List Descr
table = record { code = 0x0ba00477; mask = 0x0fff0fff; ir_value = 0; ir_length = 0 } ∷ []

abbrev devices : List Device
devices = replicate 3 empty_device

read_irs-assign_example :
    read_irs chain_proc table empty_device
      (suc (fuel_for lengths 0))
      devices
      (register_bits lengths)
    ≡ some (scanned (assign 0 lengths devices) [])
unfolding get_quirks
read_irs-assign_example =
    read_irs-assign table empty_device lengths 0 devices
      ((omega arith, omega arith), ((omega arith, omega arith), ((omega arith, omega arith), tt)))
      (omega arith) (refl, (refl, (refl, tt))) refl

read_irs-overrun_example :
    read_irs chain_proc table empty_device
      (suc (fuel_for lengths 0))
      (replicate 2 empty_device)
      (register_bits lengths)
    ≡ some overrun
unfolding get_quirks
read_irs-overrun_example =
    read_irs-overrun table empty_device lengths 0 (replicate 2 empty_device)
      ((omega arith, omega arith), ((omega arith, omega arith), ((omega arith, omega arith), tt)))
      (omega arith) (refl, (refl, tt)) refl

-- A chain of two devices of Arm; the state counts the codes and the bits that have been read.
abbrev two_devices : JtagProc (ℕ × ℕ)
two_devices = record {
  reset = λ w. w;
  next = λ tms tdi w. if tms then (true, w) else (w.1 == 2, (w.0, w.1 + 1));
  tms_seq = λ states n w. w;
  tdi_seq = λ final bytes n w. w;
  tdi_tdo_seq = λ final bytes n out w.
      (if ltb w.0 2 then 0x77 ∷ 0x04 ∷ 0xa0 ∷ 0x0b ∷ [] else replicate 4 0xff, (w.0 + 1, w.1));
}

abbrev platform : Platform (ℕ × ℕ)
platform = record {
  target_list_free = λ w. w;
  jtagtap_init = λ w. w;
  gdb_outf = λ w. w;
  handler = λ row device chain w. w;
}

jtag_scan-ArePlaced_example :
    ArePlaced two_devices platform table
      (4 ∷ 5 ∷ [])
      (jtag_scan two_devices platform table empty_device 0 (4 ∷ 5 ∷ []) (0, 0))
jtag_scan-ArePlaced_example =
    jtag_scan-ArePlaced two_devices platform table empty_device 0 4 (5 ∷ []) (0, 0) (omega arith)
      (omega arith)

-- What is behind a scan of this chain.
abbrev answer : Option (ℕ × Chain × (ℕ × ℕ)) → ℕ × List Device
answer none = (0, [])
answer (some (n, chain, w)) = (n, take n chain.devs)

two_found : (answer (jtag_scan two_devices platform table empty_device 0 (4 ∷ 5 ∷ []) (0, 0))).0 ≡ 2
unfolding jtag_scan find_irs finish_scan probe_devices find_descr read_idcodes idcode_loop
    validate_irs validate_loop sanity_check bypass_loop
two_found = refl

-- A probe whose target always asks to wait; the state is the time that is left.
abbrev waiting : JtagProc ℕ
waiting = record {
  reset = λ w. w;
  next = λ tms tdi w. (true, w);
  tms_seq = λ states n w. w;
  tdi_seq = λ final bytes n w. w;
  tdi_tdo_seq = λ final bytes n out w. (1 ∷ out, w);
}

abbrev countdown : Timer ℕ
countdown = record { set_timeout = λ w. 5; expired = λ w. (w == 0, w - 1) }

abbrev one_device : Chain
one_device = record { devs = empty_device ∷ []; count = 1 }

shift_keeps :
    (i n : ℕ) (out : Option Bytes) (b : Bytes) (chain : Chain) (w : ℕ)
    → (shift_dr waiting i out b n chain w).1 ≡ w
unfolding shift_dr
shift_keeps i n none b chain w = refl
shift_keeps i n (some o) b chain w = refl

jtagdp_low_access_ends_example :
    (r : Outcome (JtagPort × Chain × ℕ) ℕ) × (jtagdp_low_access waiting countdown
        (replicate 8 0)
        6
        true
        4
        0
        (record { dev_index = 0; fault = 0 })
        one_device
        9
      ≡ some r)
jtagdp_low_access_ends_example =
    jtagdp_low_access_ends waiting countdown (λ w. w)
      (record { ends = λ w e. ground (arith, e); runs = λ w lt. omega arith; shifts = shift_keeps })
      (replicate 8 0) 6 true 4 0 (record { dev_index = 0; fault = 0 }) one_device 9
      (λ w. omega arith)
