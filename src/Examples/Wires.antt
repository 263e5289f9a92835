-- ===== src/Examples/Wires.antt =====
-- The sequences of bits and the accesses over two wires, from target/swdptap_generic.c and
-- target/adiv5_swdp.c, at concrete inputs.
use blackmagic.Base.{ℕ, ◌+◌, none, some, [], ◌∷◌, ◌++◌, true, false, ◌≡◌, refl, arith}
use blackmagic.Wire.{seq_in, seq_in_parity, seq_out, seq_out_parity}
use blackmagic.Wire.Line.{line, bits, value, seq_in-seq_out}
use blackmagic.Wire.Parity.{flip, seq_in_parity-seq_out_parity, seq_in_parity-flip}
use blackmagic.Swd.{SwdProc, SwdPort, ack_fault, low_access, make_packet_request}
use blackmagic.Swd.Requests.{request_bits, make_packet_request-bits}
use blackmagic.Swd.Faults.{low_access-ack_fault}
use blackmagic.Swd.Bus.{bus_proc, read_result, low_access-read_result}

seq_in-seq_out_example : seq_in line 8 (seq_out line 0xa5 8 []) ≡ (0xa5, [])
seq_in-seq_out_example = seq_in-seq_out 0xa5 8 (omega arith) (omega arith)

seq_in_parity-seq_out_parity_example :
    seq_in_parity line 32 (seq_out_parity line 0xdeadbeef 32 []) ≡ (false, 0xdeadbeef, [])
seq_in_parity-seq_out_parity_example =
    seq_in_parity-seq_out_parity 0xdeadbeef 32 (omega arith) (omega arith)

seq_in_parity-flip_example :
    (seq_in_parity line 32 (flip 7 (seq_out_parity line 0xdeadbeef 32 []))).0 ≡ true
seq_in_parity-flip_example = seq_in_parity-flip 0xdeadbeef 32 7 (omega arith) (omega arith)

make_packet_request-bits_example : make_packet_request true 0x10c ≡ value (request_bits true 0x10c)
make_packet_request-bits_example = make_packet_request-bits true 0x10c (omega arith)

abbrev port : SwdPort
port = record { version = 1; targetsel = 0; fault = 0 }

-- The probe on a target that answers every request by a fault.
abbrev faulty : SwdProc ℕ
faulty = record {
  out = λ ms n w. w + 1;
  in_ = λ n w. (ack_fault, w + 1);
  in_parity = λ n w. (false, 0, w);
  out_parity = λ ms n w. w;
  set_timeout = λ w. (w, w);
  expired = λ time w. (true, w);
}

low_access-ack_fault_example : low_access faulty 20 true 4 0 port 0 ≡ none
low_access-ack_fault_example = low_access-ack_fault faulty (λ w. refl) 20 true 4 0 port 0 refl

low_access-read_result_example :
    low_access bus_proc 3 true 4 0 port
      (true ∷ false ∷ false ∷ (bits 32 0x2ba01477 ++ (false ∷ [])))
    ≡ some (read_result (bits 32 0x2ba01477) false [] port)
low_access-read_result_example =
    low_access-read_result 1 4 port (bits 32 0x2ba01477) [] false refl refl
