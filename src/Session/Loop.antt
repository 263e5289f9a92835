-- ===== src/Session/Loop.antt =====
-- gdb_main.c: the packets of the debugger, and the poll of a target that runs.
-- `pbuf` is the whole packet buffer; the packet in it has `size` characters and a NUL behind it.
use blackmagic.Base.{
  ℕ, ◌+◌, ◌-◌, ◌/◌, ◌%◌, ◌^◌, Option, none, some, [], ◌∷◌, ◌++◌, Bytes, length, get_or, drop, Bool,
  true, false, not, ◌||◌, ltb, leb, ◌==◌, if◌then◌else◌,
}
use blackmagic.Base.Words.{u32}
use blackmagic.Hex.{hexify, unhexify}
use blackmagic.Rtt.{HaltReason, running, halt_error, request, watchpoint, fault}
use blackmagic.Session.{
  Session, Run, done, null_target, past_end, Targets, codes, put, upon, return_zero,
}
use blackmagic.Session.Scanf.{
  scan_pair, scan_one, scan_number, number_of, literal_behind, offset_of, or_else, unlimited,
}
use blackmagic.Session.Attaching.{target_attach, handle_kill_target, with_cur}
use blackmagic.Session.Queries.{handle_q_packet, c_string}
use blackmagic.Session.Commands.{handle_v_packet, handle_z_packet, slice}

-- The last argument of a write: `size - n`, as an unsigned number.
abbrev pub left_of : ℕ → ℕ → ℕ
left_of size n = u32 (size + 2 ^ 32 - n % 2 ^ 32)

module _ {W : Type 0} (targets : Targets W) where
  -- The numbers of `"<c>%x,%x"`, from the values of the two variables.
  abbrev two_numbers : ℕ → ℕ → ℕ → Bytes → ℕ × ℕ
  two_numbers d1 d2 c pbuf =
      let (addr, len) = scan_pair targets.oversized (c ∷ []) (b',' ∷ []) none pbuf in
      (or_else d1 addr, or_else d2 (number_of len))

  -- `%n` behind the two numbers and a `:`.
  abbrev behind_numbers : ℕ → Bytes → ℕ
  behind_numbers c pbuf =
      let (addr, len) = scan_pair targets.oversized (c ∷ []) (b',' ∷ []) none pbuf in
      or_else (targets.uninitialised 2) (offset_of pbuf (literal_behind (b':' ∷ []) len))

  -- The write of `len` bytes to memory from a packet that has room for `room` of them.
  unfoldable pub write_memory : ℕ → ℕ → ℕ → ℕ → Option Bytes → Session W → Run W
  write_memory t addr len room none s =
      if ltb room len then return_zero (put (codes "E02") s) else past_end
  write_memory t addr len room (some src) s =
      let (failed, w) = targets.mem_write t addr src s.world in
      if ltb room len
      then return_zero (put (codes "E02") s)
      else return_zero (put (if failed then codes "E01" else codes "OK") (record s { world = w }))

  -- `g`.
  unfoldable pub read_registers : ℕ → Session W → Session W
  read_registers t s =
      let (regs, w) = targets.regs_read t s.world in
      if targets.regs_size t s.world == 0
      then put (codes "00") s
      else put (hexify regs) (record s { world = w })

  -- `G`.
  unfoldable pub write_registers : ℕ → Bytes → Session W → Run W
  write_registers t pbuf s =
      let written : Run W = elim (unhexify (targets.regs_size t s.world) (drop 1 pbuf)) [
        | none ↦ past_end
        | some regs ↦ return_zero (put (codes "OK") (upon (targets.regs_write t regs) s))
      ] in
      if targets.regs_size t s.world == 0 then return_zero (put (codes "OK") s) else written

  -- `m`.
  unfoldable pub read_memory : ℕ → Bytes → ℕ → Session W → Session W
  read_memory t pbuf pbuf_size s =
      let (addr, len) = two_numbers (targets.uninitialised 0) (targets.uninitialised 1) b'm' pbuf in
      let (failed, mem, w) = targets.mem_read t addr len s.world in
      if ltb (pbuf_size / 2) len
      then put (codes "E02") s
      else put (if failed then codes "E01" else hexify mem) (record s { world = w })

  -- `M`.
  unfoldable pub write_memory_hex : ℕ → Bytes → ℕ → Session W → Run W
  write_memory_hex t pbuf size s =
      let (addr, len) = two_numbers 0 0 b'M' pbuf in
      let hex = behind_numbers b'M' pbuf in
      write_memory t addr len (left_of size hex / 2) (unhexify len (drop hex pbuf)) s

  -- `X`.
  unfoldable pub write_memory_binary : ℕ → Bytes → ℕ → Session W → Run W
  write_memory_binary t pbuf size s =
      let (addr, len) = two_numbers (targets.uninitialised 0) (targets.uninitialised 1) b'X' pbuf in
      let bin = behind_numbers b'X' pbuf in
      write_memory t addr len (left_of size bin) (slice pbuf bin len) s

  -- `H`: the thread of the operations that follow.
  unfoldable pub select_thread : Bytes → Bytes
  select_thread pbuf =
      let thread : Option (ℕ × Bytes) =
        scan_number targets.oversized 16 (unlimited (drop 2 pbuf)) (drop 2 pbuf) in
      let there = not (get_or pbuf 1 0 == 0) in
      let thread_id = if there then or_else 0 (number_of thread) else 0 in
      if leb thread_id 1 then codes "OK" else codes "E01"

  -- `p`.
  unfoldable pub read_register : ℕ → Bytes → Session W → Session W
  read_register t pbuf s =
      let reg =
        or_else (targets.uninitialised 0)
          (number_of (scan_one targets.oversized (b'p' ∷ []) none pbuf)) in
      let (val, w) = targets.reg_read t reg 8 s.world in
      if targets.has_reg_read t s.world
      then put (if length val == 0 then codes "EFF" else hexify val) (record s { world = w })
      else put (codes "00") s

  -- `P`: as many bytes as the text behind the `=` has.
  unfoldable pub write_register : ℕ → Bytes → Session W → Run W
  write_register t pbuf s =
      let scanned = scan_one targets.oversized (b'P' ∷ []) none pbuf in
      let reg = or_else (targets.uninitialised 0) (number_of scanned) in
      let n =
        or_else (targets.uninitialised 1) (offset_of pbuf (literal_behind (b'=' ∷ []) scanned)) in
      let val = unhexify (length (c_string (drop n pbuf)) / 2) (drop n pbuf) in
      let written : Run W = elim val [
        | none ↦ past_end
        | some bytes ↦
            let (success, w) = targets.reg_write t reg bytes s.world in
            return_zero (put (if success then codes "OK" else codes "EFF") (record s { world = w }))
      ] in
      if targets.has_reg_write t s.world then written else return_zero (put (codes "OK") s)

  -- `s`, `c`, `C`, which go on as `?`.
  unfoldable pub resume : Bool → Session W → Session W
  resume single_step s = elim s.cur_target [
    | none ↦ put (codes "X1D") s
    | some t ↦ record s {
      world = targets.set_run_state true (targets.halt_resume t single_step s.world);
      running = true;
    }
  ]

  -- `?`.
  unfoldable pub halt_reason : Session W → Session W
  halt_reason s = elim s.cur_target [
    | none ↦ put (codes "W00") s
    | some t ↦ record s { running = true }
  ]

  -- `D` and the end of a connection; only `D` is answered.
  unfoldable pub detach : Bool → Session W → Session W
  detach answered s =
      let s1 : Session W = elim s.cur_target [
        | none ↦ s
        | some t ↦ record s {
          world = targets.detach t (targets.set_run_state true s.world);
          last_target = some t;
          cur_target = none;
        }
      ] in
      if answered then put (codes "OK") s1 else s1

  -- `r` and `R`. The reset follows also when the attach fails.
  unfoldable pub restart : Session W → Run W
  restart s = elim s.cur_target [
    | some t ↦ return_zero (upon (targets.reset t) s)
    | none ↦ elim s.last_target [
      | none ↦ return_zero s
      | some l ↦
          let s1 = with_cur (target_attach targets l s) in
          elim s1.cur_target [
            | none ↦ null_target
            | some t ↦ return_zero (upon (λ w. targets.reset t (targets.morse none false w)) s1)
          ]
    ]
  ]

  -- `ERROR_IF_NO_TARGET`, and what follows it.
  abbrev pub if_target : Session W → (ℕ → Run W) → Run W
  if_target s k = elim s.cur_target [ none ↦ return_zero (put (codes "EFF") s) | some t ↦ k t ]

  -- `gdb_main_loop`, the optional packets.
  unfoldable pub optional_packet : Bytes → ℕ → Bool → Session W → Run W
  optional_packet pbuf size in_syscall s =
      let c = get_or pbuf 0 0 in
      let (ret, replied) = targets.hostio_reply pbuf size s in
      if c == b'p'
      then if_target s (λ t. return_zero (read_register t pbuf s))
      else if c == b'P'
      then if_target s (λ t. write_register t pbuf s)
      else if c == b'F'
      then (if in_syscall then done ret replied else return_zero (put [] s))
      else if c == b'!'
      then return_zero (put (codes "OK") s)
      else if c == 4 || c == b'D'
      then return_zero (detach (c == b'D') s)
      else if c == b'k'
      then return_zero (handle_kill_target targets s)
      else if c == b'r' || c == b'R'
      then restart s
      else if c == b'X'
      then if_target s (λ t. write_memory_binary t pbuf size s)
      else if c == b'q'
      then handle_q_packet targets pbuf size s
      else if c == b'v'
      then handle_v_packet targets pbuf size s
      else if c == b'Z' || c == b'z'
      then if_target s (λ t. return_zero (handle_z_packet targets t pbuf s))
      else return_zero (put [] s)

  -- `gdb_main_loop`.
  unfoldable pub main_loop : Bytes → ℕ → ℕ → Bool → Session W → Run W
  main_loop pbuf pbuf_size size in_syscall s =
      let c = get_or pbuf 0 0 in
      if c == b'g'
      then if_target s (λ t. return_zero (read_registers t s))
      else if c == b'm'
      then if_target s (λ t. return_zero (read_memory t pbuf pbuf_size s))
      else if c == b'G'
      then if_target s (λ t. write_registers t pbuf s)
      else if c == b'M'
      then if_target s (λ t. write_memory_hex t pbuf size s)
      else if c == b'H'
      then return_zero (put (select_thread pbuf) s)
      else if c == b's' || c == b'c' || c == b'C'
      then return_zero (resume (c == b's') s)
      else if c == b'?'
      then return_zero (halt_reason s)
      else optional_packet pbuf size in_syscall s

  -- `gdb_main`.
  unfoldable pub gdb_main : Bytes → ℕ → ℕ → Session W → Run W
  gdb_main pbuf pbuf_size size s = main_loop pbuf pbuf_size size false s

  -- `gdb_halt_target`.
  unfoldable pub halt_target : Session W → Session W
  halt_target s = elim s.cur_target [
    | none ↦ put (codes "W00") s
    | some t ↦ upon (targets.halt_request t) s
  ]

  -- The signal that a reason is told as.
  abbrev pub stop_reply : HaltReason → ℕ → Bytes
  stop_reply halt_error watch = codes "X1D"
  stop_reply request watch = codes "T02"
  stop_reply watchpoint watch =
      codes "T05watch:"
      ++ hexify (watch / 2 ^ 24 ∷ watch / 2 ^ 16 % 256 ∷ watch / 2 ^ 8 % 256 ∷ watch % 256 ∷ [])
      ++ codes ";"
  stop_reply fault watch = codes "T0B"
  stop_reply _ watch = codes "T05"

  -- `gdb_poll_target` from a reason for which the target does not run.
  abbrev pub halted : HaltReason → ℕ → Session W → Session W
  halted reason watch s =
      let stopped = record s { running = false; world = targets.set_run_state false s.world } in
      let told = put (stop_reply reason watch) stopped in
      elim reason [
        | halt_error ↦ upon (targets.morse (some (codes "TARGET LOST.")) true) told
        | _ ↦ told
      ]

  abbrev pub after_reason : HaltReason → ℕ → Session W → Session W
  after_reason running watch s = s
  after_reason reason watch s = halted reason watch s

  -- `gdb_poll_target`.
  unfoldable pub poll_target : Session W → Session W
  poll_target s = elim s.cur_target [
    | none ↦ put (codes "W00") s
    | some t ↦ let (reason, watch, s1) = targets.halt_poll t s in after_reason reason watch s1
  ]
