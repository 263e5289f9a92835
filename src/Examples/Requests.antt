-- ===== src/Examples/Requests.antt =====
-- Requests of the remote protocol of remote.c at concrete inputs.
use blackmagic.Base.{
  ℕ, ◌<◌, Option, none, some, [], ◌∷◌, ◌++◌, Bytes, drop, All, subst, true, false, ◌≡◌, refl, ap,
  arith,
}
use blackmagic.Hex.{hexify, hex_digit}
use blackmagic.Remote.{hex_string_to_num, respond, respond_buf}
use blackmagic.Remote.Dispatch.{
  Outcome, returned, raised, timeout, swd, DebugPort, Probe, answered, null_call, outside,
  process_adiv5, process_jtag, process_high_level, adiv5_respond, packet_process,
}
use blackmagic.Remote.Numbers.{hex_string_to_num-respond}
use blackmagic.Remote.Responses.{AccessesEnd, IsServed, Answers, packet_process-Answers}
use blackmagic.Session.{codes}

-- A probe behind which two bytes of memory are read, and every access to a register times out.
abbrev probe : Probe ℕ
probe = record {
  swdptap_init = λ w. w;
  seq_in_parity = λ n w. (false, 0, w);
  seq_in = λ n w. (0, w);
  seq_out = λ n x w. w;
  seq_out_parity = λ n x w. w;
  jtagtap_init = λ w. w;
  jtagtap_reset = λ w. w;
  jtagtap_tms_seq = λ n x w. w;
  jtagtap_cycle = λ a b n w. w;
  jtagtap_tdi_tdo_seq = λ b n x w. (x, w);
  jtagtap_next = λ a b w. (a, w);
  target_voltage = λ w. b'3' ∷ b'V' ∷ [];
  nrst_set_val = λ b w. w;
  nrst_get_val = λ w. false;
  max_frequency_set = λ n w. w;
  max_frequency_get = λ w. 1000000;
  has_power_switch = true;
  power_conflict_threshold = 5;
  target_get_power = λ w. false;
  target_voltage_sense = λ w. 0;
  target_set_power = λ b w. w;
  target_clk_output_enable = λ b w. w;
  ident = b'B' ∷ b'M' ∷ b'#' ∷ [];
  jtag_add_device = λ n d w. w;
  fault = λ w. 0;
  dp_read = λ dp a w. some (raised timeout w);
  low_access = λ dp a b c w. some (raised timeout w);
  ap_read = λ dp a b w. some (raised timeout w);
  ap_write = λ dp a b c w. some (raised timeout w);
  mem_read = λ dp a b c n w. some (returned (0x12 ∷ 0xff ∷ []) w);
  mem_write_sized = λ dp a b c bs n w. some (raised timeout w);
}

abbrev result : Option (Outcome ℕ Bytes) → Bytes
result (some (returned bs w)) = bs
result (some (raised x w)) = []
result none = []

probe-AccessesEnd : AccessesEnd probe
probe-AccessesEnd = record {
  dp_reads = λ dp a w i. (raised timeout w, refl);
  lows = λ dp rnw a v w i. (raised timeout w, refl);
  ap_reads = λ dp apsel a w i. (raised timeout w, refl);
  ap_writes = λ dp apsel a v w i. (raised timeout w, refl);
  mem_reads = λ dp apsel csw a len w i. (returned (0x12 ∷ 0xff ∷ []) w, refl);
  mem_writes = λ dp apsel csw a bs align w i. (raised timeout w, refl);
  reads_bytes = λ dp apsel csw a len w w' bs e.
      subst (All (λ b. b < 256)) (ap result e) (omega arith, (omega arith, tt));
}

-- A request to read two bytes of memory through an access port, `Am` and its numbers.
abbrev request : Bytes
request = codes "Am000000000020000000" ++ codes "0000000002"

abbrev port : DebugPort
port = record { link = some swd; dev_index = 0 }

request-IsServed : IsServed request port
request-IsServed = record {
  adiv5 = λ e. (swd, refl);
  shift = λ e f. absurd (ground (arith, e));
  device = λ e f. absurd (ground (arith, e));
}

packet_process-Answers_example : Answers (packet_process probe 30 request port 0)
packet_process-Answers_example =
    packet_process-Answers probe 30 request port 0 probe-AccessesEnd request-IsServed

memory_read : packet_process probe 30 request port 0 ≡ answered port 0 (codes "&K12FF#")
unfolding packet_process process_adiv5 adiv5_respond respond_buf hexify hex_digit hex_string_to_num
memory_read = refl

-- A request behind which no function is installed, one to shift 65 bits, and one for a device behind
-- the end of the chain.
not_installed : packet_process probe 30 request (record port { link = none }) 0 ≡ null_call
unfolding packet_process process_adiv5 hex_string_to_num
not_installed = refl

too_many_bits : packet_process probe 5 (codes "JD410") port 0 ≡ outside
unfolding packet_process process_jtag hex_string_to_num
too_many_bits = refl

no_place : packet_process probe 22 (codes "HJ20000000000000000000") port 0 ≡ outside
unfolding packet_process process_high_level hex_string_to_num
no_place = refl

hex_string_to_num-respond_example :
    hex_string_to_num 16 (drop 2 (respond b'K' 0xdeadbeef)) ≡ 0xdeadbeef
hex_string_to_num-respond_example = hex_string_to_num-respond b'K' 0xdeadbeef (omega arith)
