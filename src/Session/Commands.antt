-- ===== src/Session/Commands.antt =====
-- gdb_main.c: the verbose packets, and those of breakpoints.
use blackmagic.Base.{
  ℕ, zero, suc, ◌+◌, ◌-◌, ◌%◌, ◌^◌, Option, none, some, [], ◌∷◌, Bytes, length, get_or, take, drop,
  Bool, true, false, leb, ◌==◌, if◌then◌else◌,
}
use blackmagic.Base.Words.{u32}
use blackmagic.Session.{
  Session, Run, null_target, past_end, Targets, ℤ, pos, negsuc, codes, put, upon, return_zero,
}
use blackmagic.Session.Scanf.{
  scan_pair, scan_one, scan_number, number_of, strip, literal_behind, offset_of, or_else, skip_z,
  unlimited,
}
use blackmagic.Session.Attaching.{target_attach, target_attach_n, handle_kill_target, with_cur}
use blackmagic.Session.Cmdline.{cmdline}

-- `strcmp(packet, text) == 0`.
abbrev pub at_end : Option Bytes → Bool
at_end none = false
at_end (some []) = true
at_end (some (c ∷ cs)) = c == 0

abbrev pub is_text : Bytes → Bytes → Bool
is_text text packet = at_end (strip text packet)

abbrev pub is_some : {A : Type 0} → Option A → Bool
is_some none = false
is_some (some a) = true

-- The bytes of a buffer from a position on: `none` when they are not all in it.
abbrev pub slice : Bytes → ℕ → ℕ → Option Bytes
slice packet bin count =
    if leb (bin + count) (length packet) then some (take count (drop bin packet)) else none

module _ {W : Type 0} (targets : Targets W) where
  -- `vAttach`, behind the call of `target_attach_n`.
  abbrev pub attached : Session W → Session W
  attached s = elim s.cur_target [
    | none ↦ put (codes "E01") s
    | some t ↦ put (codes "T05thread:1;") (upon (targets.morse none false) s)
  ]

  -- `vRun` with a command line.
  unfoldable pub run_target : Bytes → Session W → Session W
  run_target line s =
      let s0 = record s { rtt_found = false } in
      let restart : ℕ → Session W → Session W =
        λ t s'. upon (λ w. targets.reset t (targets.set_cmdline t line w)) s' in
      elim s.cur_target [
        | some t ↦ put (codes "T05") (restart t s0)
        | none ↦ elim s.last_target [
          | none ↦ put (codes "E01") s0
          | some l ↦
              let s1 = with_cur (target_attach targets l s0) in
              elim s1.cur_target [
                | none ↦ put (codes "E01") s1
                | some t ↦ put (codes "T05") (upon (targets.morse none false) (restart t s1))
              ]
        ]
      ]

  -- `vFlashErase`.
  unfoldable pub flash_erase : ℕ → ℕ → Session W → Session W
  flash_erase addr len s = elim s.cur_target [
    | none ↦ put (codes "EFF") s
    | some t ↦
        let (erased, w) = targets.flash_erase t addr len s.world in
        let w' = (targets.flash_complete t w).1 in
        if erased
        then put (codes "OK") (record s { world = w })
        else put (codes "EFF") (record s { world = w' })
  ]

  -- `vFlashWrite`; the flash is completed when the write fails, also without a target.
  unfoldable pub flash_write : ℕ → Option Bytes → Session W → Run W
  flash_write addr none s = elim s.cur_target [ none ↦ null_target | some t ↦ past_end ]
  flash_write addr (some src) s = elim s.cur_target [
    | none ↦ null_target
    | some t ↦
        let (written, w) = targets.flash_write t addr src s.world in
        let w' = (targets.flash_complete t w).1 in
        if written
        then return_zero (put (codes "OK") (record s { world = w }))
        else return_zero (put (codes "EFF") (record s { world = w' }))
  ]

  -- `vFlashDone`.
  unfoldable pub flash_done : Session W → Run W
  flash_done s = elim s.cur_target [
    | none ↦ null_target
    | some t ↦
        let (complete, w) = targets.flash_complete t s.world in
        return_zero (put (if complete then codes "OK" else codes "EFF") (record s { world = w }))
  ]

  -- `vStopped`.
  unfoldable pub stopped : Session W → Session W
  stopped s =
      if s.detach_notify
      then record (put (codes "W00") s) { detach_notify = false }
      else put (codes "OK") s

  -- `vRun`; its command line is read before the target is restarted.
  unfoldable pub run_packet : Bytes → Session W → Run W
  run_packet packet s = elim (strip (codes "vRun") packet) [
    | none ↦ return_zero s
    | some behind ↦ elim (cmdline targets.uninitialised behind) [
      | none ↦ past_end
      | some line ↦ return_zero (run_target line s)
    ]
  ]

  -- The rest of `handle_v_packet`, behind `vRun`.
  unfoldable pub handle_flash_packet : Bytes → ℕ → Session W → Run W
  handle_flash_packet packet plen s =
      let (erase_addr, erase_len) =
        scan_pair targets.oversized (codes "vFlashErase:") (b',' ∷ []) (some 8) packet in
      let write = scan_one targets.oversized (codes "vFlashWrite:") (some 8) packet in
      let bin =
        or_else (targets.uninitialised 0) (offset_of packet (literal_behind (b':' ∷ []) write)) in
      let count = u32 (plen + 2 ^ 32 - bin % 2 ^ 32) in
      if is_some erase_len
      then return_zero (flash_erase (or_else 0 erase_addr) (or_else 0 (number_of erase_len)) s)
      else if is_some write
      then flash_write (or_else 0 (number_of write)) (slice packet bin count) s
      else if is_text (codes "vFlashDone") packet
      then flash_done s
      else if is_text (codes "vStopped") packet
      then return_zero (stopped s)
      else return_zero (put [] s)

  -- `handle_v_packet`.
  unfoldable pub handle_v_packet : Bytes → ℕ → Session W → Run W
  handle_v_packet packet plen s =
      let attach = scan_one targets.oversized (codes "vAttach;") (some 8) packet in
      if is_some attach
      then return_zero
          (attached (with_cur (target_attach_n targets (or_else 0 (number_of attach)) s)))
      else if is_some (strip (codes "vKill;") packet)
      then return_zero (put (codes "OK") (handle_kill_target targets s))
      else if is_some (strip (codes "vRun") packet)
      then run_packet packet s
      else handle_flash_packet packet plen s

  -- The answer to a breakpoint.
  abbrev pub z_answer : ℤ → Bytes
  z_answer (negsuc n) = codes "E01"
  z_answer (pos zero) = codes "OK"
  z_answer (pos (suc n)) = []

  -- The three numbers of `"%*[zZ]%u,%08x,%u"`, those that are not read not being initialised.
  unfoldable pub scan_z : Bytes → ℕ × ℕ × ℕ
  scan_z packet =
      let at : Option (ℕ × Bytes) = elim (skip_z packet) [
        | none ↦ none
        | some rest ↦ scan_number targets.oversized 10 (unlimited rest) rest
      ] in
      let addr : Option (ℕ × Bytes) = elim (literal_behind (b',' ∷ []) at) [
        | none ↦ none
        | some rest ↦ scan_number targets.oversized 16 8 rest
      ] in
      let len : Option (ℕ × Bytes) = elim (literal_behind (b',' ∷ []) addr) [
        | none ↦ none
        | some rest ↦ scan_number targets.oversized 10 (unlimited rest) rest
      ] in
      (
        or_else (targets.uninitialised 0) (number_of at),
        or_else (targets.uninitialised 1) (number_of addr),
        or_else (targets.uninitialised 2) (number_of len),
      )

  -- `handle_z_packet`, for the current target.
  unfoldable pub handle_z_packet : ℕ → Bytes → Session W → Session W
  unfolding scan_z
  handle_z_packet t packet s =
      let (kind, addr, len) = scan_z packet in
      let (ret, w) =
        if get_or packet 0 0 == b'Z'
        then targets.breakwatch_set t kind addr len s.world
        else targets.breakwatch_clear t kind addr len s.world in
      put (z_answer ret) (record s { world = w })
