-- ===== src/Session/Answers.antt =====
-- gdb_main.c: the packets that are answered by exactly one packet.
use blackmagic.Base.{
  ℕ, ◌/◌, Option, none, some, [], ◌∷◌, Bytes, length, get_or, drop, Bool, true, ◌||◌, ltb, ◌==◌,
  if◌then◌else◌, ◌≡◌, arith,
}
use blackmagic.Base.{if_lem}
use blackmagic.Hex.{unhexify, hexify}
use blackmagic.Session.{Session, Run, past_end, Targets, codes, return_zero}
use blackmagic.Session.Commands.{handle_z_packet, scan_z, z_answer}
use blackmagic.Session.Loop.{
  main_loop, optional_packet, write_memory, if_target, read_registers, write_registers, read_memory,
  write_memory_hex, write_memory_binary, read_register, write_register, select_thread,
}
use blackmagic.Session.Scanf.{scan_pair, scan_one, number_of, or_else}
use blackmagic.Session.Tracked.{option_lem}
use blackmagic.Session.Replies.{packets, SendsOne, outside, P, told, handle_v_packet-SendsOne}

-- The packets of registers, memory and breakpoints, of threads, of the protocol, and the `v` packets.
abbrev pub is_answered : ℕ → Bool
is_answered c =
    c == b'g'
    || c == b'm'
    || c == b'G'
    || c == b'M'
    || c == b'H'
    || c == b'p'
    || c == b'P'
    || c == b'!'
    || c == b'X'
    || c == b'v'
    || c == b'Z'
    || c == b'z'

module _ {W : Type 0} (targets : Targets W) where
  with_target :
      (s : Session W) (k : ℕ → Run W)
      → ((t : ℕ) → P targets s (k t))
      → P targets s (if_target targets s k)
  with_target s k f =
      option_lem (P targets s) s.cur_target (λ e. told targets s (codes "EFF") s.world) (λ t e. f t)

  decoded :
      (s : Session W) (o : Option Bytes) {f : Bytes → Run W}
      → ((bytes : Bytes) → P targets s (f bytes))
      → P targets s (elim o [ none ↦ past_end | some bytes ↦ f bytes ])
  decoded s o g = option_lem (P targets s) o (λ e. outside) (λ bytes e. g bytes)

  read_registers-SendsOne :
      (s : Session W) (t : ℕ) → P targets s (return_zero (read_registers targets t s))
  unfolding read_registers
  read_registers-SendsOne s t =
      let (regs, w) = targets.regs_read t s.world in
      if_lem (λ (s' : Session W). P targets s (return_zero s')) (targets.regs_size t s.world == 0)
        (λ e. told targets s (codes "00") s.world) (λ e. told targets s (hexify regs) w)

  read_memory-SendsOne :
      (s : Session W) (t : ℕ) (b : Bytes) (n : ℕ)
      → P targets s (return_zero (read_memory targets t b n s))
  unfolding read_memory
  read_memory-SendsOne s t b n =
      let numbers = scan_pair targets.oversized (b'm' ∷ []) (b',' ∷ []) none b in
      let addr = or_else (targets.uninitialised 0) numbers.0 in
      let len = or_else (targets.uninitialised 1) (number_of numbers.1) in
      let (failed, mem, w) = targets.mem_read t addr len s.world in
      if_lem (λ (s' : Session W). P targets s (return_zero s')) (ltb (n / 2) len)
        (λ e. told targets s (codes "E02") s.world)
        (λ e. told targets s (if failed then codes "E01" else hexify mem) w)

  write_registers-SendsOne :
      (s : Session W) (t : ℕ) (b : Bytes) → P targets s (write_registers targets t b s)
  unfolding write_registers
  write_registers-SendsOne s t b =
      if_lem (P targets s) (targets.regs_size t s.world == 0)
        (λ e. told targets s (codes "OK") s.world)
        (λ e.
          decoded s (unhexify (targets.regs_size t s.world) (drop 1 b))
            (λ bytes. told targets s (codes "OK") (targets.regs_write t bytes s.world)))

  write_memory-SendsOne :
      (s : Session W) (t addr len room : ℕ) (o : Option Bytes)
      → P targets s (write_memory targets t addr len room o s)
  unfolding write_memory
  write_memory-SendsOne s t addr len room none =
      if_lem (P targets s) (ltb room len) (λ e. told targets s (codes "E02") s.world) (λ e. outside)
  write_memory-SendsOne s t addr len room (some src) =
      let (failed, w) = targets.mem_write t addr src s.world in
      if_lem (P targets s) (ltb room len) (λ e. told targets s (codes "E02") s.world)
        (λ e. told targets s (if failed then codes "E01" else codes "OK") w)

  write_memory_hex-SendsOne :
      (s : Session W) (t : ℕ) (b : Bytes) (size : ℕ)
      → P targets s (write_memory_hex targets t b size s)
  unfolding write_memory_hex
  write_memory_hex-SendsOne s t b size = write_memory-SendsOne s t _ _ _ _

  write_memory_binary-SendsOne :
      (s : Session W) (t : ℕ) (b : Bytes) (size : ℕ)
      → P targets s (write_memory_binary targets t b size s)
  unfolding write_memory_binary
  write_memory_binary-SendsOne s t b size = write_memory-SendsOne s t _ _ _ _

  read_register-SendsOne :
      (s : Session W) (t : ℕ) (b : Bytes) → P targets s (return_zero (read_register targets t b s))
  unfolding read_register
  read_register-SendsOne s t b =
      let reg =
        or_else (targets.uninitialised 0)
          (number_of (scan_one targets.oversized (b'p' ∷ []) none b)) in
      let (val, w) = targets.reg_read t reg 8 s.world in
      if_lem (λ (s' : Session W). P targets s (return_zero s')) (targets.has_reg_read t s.world)
        (λ e. told targets s (if length val == 0 then codes "EFF" else hexify val) w)
        (λ e. told targets s (codes "00") s.world)

  write_register-SendsOne :
      (s : Session W) (t : ℕ) (b : Bytes) → P targets s (write_register targets t b s)
  unfolding write_register
  write_register-SendsOne s t b =
      let reg =
        or_else (targets.uninitialised 0)
          (number_of (scan_one targets.oversized (b'P' ∷ []) none b)) in
      if_lem (P targets s) (targets.has_reg_write t s.world)
        (λ e. decoded s _ (λ bytes.
          (let (success, w) = targets.reg_write t reg bytes s.world in
            told targets s (if success then codes "OK" else codes "EFF") w)))
        (λ e. told targets s (codes "OK") s.world)

  handle_z_packet-SendsOne :
      (s : Session W) (t : ℕ) (b : Bytes)
      → P targets s (return_zero (handle_z_packet targets t b s))
  unfolding handle_z_packet
  handle_z_packet-SendsOne s t b =
      let (kind, addr, len) = scan_z targets b in
      let (ret, w) =
        if get_or b 0 0 == b'Z'
        then targets.breakwatch_set t kind addr len s.world
        else targets.breakwatch_clear t kind addr len s.world in
      told targets s (z_answer targets ret) w

  optional_packet-SendsOne :
      (b : Bytes) (size : ℕ) (in_syscall : Bool) (s : Session W)
      → (let c = get_or b 0 0 in
          c == b'p' || c == b'P' || c == b'!' || c == b'X' || c == b'v' || c == b'Z' || c == b'z')
        ≡ true
      → P targets s (optional_packet targets b size in_syscall s)
  unfolding optional_packet
  optional_packet-SendsOne b size in_syscall s h =
      let c = get_or b 0 0 in
      if_lem (P targets s) (c == b'p') (λ e0. with_target s _ (λ t. read_register-SendsOne s t b))
        (λ e0.
          if_lem (P targets s) (c == b'P')
            (λ e1. with_target s _ (λ t. write_register-SendsOne s t b))
            (λ e1.
              if_lem (P targets s) (c == b'F') (λ e2. absurd (ground (arith, h, e2)))
                (λ e2.
                  if_lem (P targets s) (c == b'!') (λ e3. told targets s (codes "OK") s.world)
                    (λ e3.
                      if_lem (P targets s) (c == 4 || c == b'D')
                        (λ e4. absurd (ground (arith, h, e4)))
                        (λ e4.
                          if_lem (P targets s) (c == b'k') (λ e5. absurd (ground (arith, h, e5)))
                            (λ e5.
                              if_lem (P targets s) (c == b'r' || c == b'R')
                                (λ e6. absurd (ground (arith, h, e6)))
                                (λ e6.
                                  if_lem (P targets s) (c == b'X')
                                    (λ e7.
                                      with_target s _
                                        (λ t. write_memory_binary-SendsOne s t b size))
                                    (λ e7.
                                      if_lem (P targets s) (c == b'q')
                                        (λ e8. absurd (ground (arith, h, e8)))
                                        (λ e8.
                                          if_lem (P targets s) (c == b'v')
                                            (λ e9. handle_v_packet-SendsOne targets s b size)
                                            (λ e9.
                                              if_lem (P targets s) (c == b'Z' || c == b'z')
                                                (λ e10.
                                                  with_target s _
                                                    (λ t. handle_z_packet-SendsOne s t b))
                                                (λ e10. absurd (ground (arith, h)))))))))))))

  -- The packets of registers, memory and breakpoints, `H`, `!` and the `v` packets are each answered by
  -- exactly one packet when the handler returns, whatever their text is and whatever the target
  -- answers; notifications and texts for the console come besides.
  pub main_loop-SendsOne :
      (b : Bytes) (n size : ℕ) (in_syscall : Bool) (s : Session W)
      → is_answered (get_or b 0 0) ≡ true
      → SendsOne (packets s.out) (main_loop targets b n size in_syscall s)
  unfolding main_loop
  main_loop-SendsOne b n size in_syscall s h =
      let c = get_or b 0 0 in
      if_lem (P targets s) (c == b'g') (λ e0. with_target s _ (λ t. read_registers-SendsOne s t))
        (λ e0.
          if_lem (P targets s) (c == b'm')
            (λ e1. with_target s _ (λ t. read_memory-SendsOne s t b n))
            (λ e1.
              if_lem (P targets s) (c == b'G')
                (λ e2. with_target s _ (λ t. write_registers-SendsOne s t b))
                (λ e2.
                  if_lem (P targets s) (c == b'M')
                    (λ e3. with_target s _ (λ t. write_memory_hex-SendsOne s t b size))
                    (λ e3.
                      if_lem (P targets s) (c == b'H')
                        (λ e4. told targets s (select_thread targets b) s.world)
                        (λ e4.
                          if_lem (P targets s) (c == b's' || c == b'c' || c == b'C')
                            (λ e5. absurd (ground (arith, h, e5)))
                            (λ e5.
                              if_lem (P targets s) (c == b'?')
                                (λ e6. absurd (ground (arith, h, e6)))
                                (λ e6.
                                  optional_packet-SendsOne b size in_syscall s
                                    (ground (arith, h)))))))))
