-- ===== src/Session/Queries.antt =====
-- gdb_main.c: the query packets.
use blackmagic.Base.{
  ℕ, zero, suc, ◌+◌, ◌-◌, ◌/◌, ◌%◌, min, Option, none, some, List, [], ◌∷◌, ◌++◌, Bytes, length,
  take, drop, Bool, true, false, ltb, ◌==◌, if◌then◌else◌,
}
use blackmagic.Hex.{hexify, unhexify}
use blackmagic.Session.{Session, Run, past_end, Targets, ℤ, pos, negsuc, codes, put, return_zero}
use blackmagic.Session.Scanf.{scan_pair, strip}

-- A digit of `%x`.
abbrev pub digit_char : ℕ → ℕ
digit_char d = if ltb d 10 then b'0' + d else b'a' + d - 10

-- `%lx`.
unfoldable pub lower_hex : ℕ → ℕ → Bytes
lower_hex zero n = []
lower_hex (suc fuel) n =
    let c = digit_char (n % 16) in
    let high = lower_hex fuel (n / 16) in if ltb n 16 then c ∷ [] else high ++ (c ∷ [])

-- The text of a C string: up to its NUL.
unfoldable pub c_string : Bytes → Bytes
c_string [] = []
c_string (c ∷ cs) = let rest = c_string cs in if c == 0 then [] else c ∷ rest

-- `handle_q_string_reply`: what it answers.
unfoldable pub string_reply : (ℕ → ℕ) → Bytes → Bytes → Bytes
string_reply oversized reply param =
    let scanned = scan_pair oversized [] (b',' ∷ []) (some 8) param in
    elim scanned.0 [
      | none ↦ codes "E01"
      | some addr ↦ elim scanned.1 [
        | none ↦ codes "E01"
        | some (len, rest) ↦
            if ltb (length reply) addr
            then codes "E01"
            else if addr == length reply
            then codes "l"
            else b'm' ∷ take (min len (length reply - addr)) (drop addr reply)
      ]
    ]

module _ {W : Type 0} (targets : Targets W) where
  abbrev handle_q_string_reply : Bytes → Bytes → Session W → Session W
  handle_q_string_reply reply param s = put (string_reply targets.oversized reply param) s

  -- The answer to a command of the monitor.
  unfoldable pub after_command : ℤ × Session W → Session W
  after_command (negsuc n, s) = put [] s
  after_command (pos zero, s) = put (codes "OK") s
  after_command (pos (suc n), s) = put (hexify (codes "Failed\n")) s

  -- `exec_q_rcmd`. The command ends at a NUL among its bytes.
  unfoldable pub exec_q_rcmd : Bytes → ℕ → Session W → Run W
  unfolding after_command
  exec_q_rcmd packet size s = elim (unhexify (size / 2) packet) [
    | none ↦ past_end
    | some cmd ↦ return_zero (after_command (targets.command_process (c_string cmd) s))
  ]

  -- `exec_q_supported`, with the size in hexadecimal.
  unfoldable pub exec_q_supported : Bytes → ℕ → Session W → Run W
  exec_q_supported packet size s =
      return_zero (put (codes "PacketSize=400;qXfer:memory-map:read+;qXfer:features:read+") s)

  -- The target that a query is about: the one before, when there is none.
  abbrev pub queried : Session W → Option ℕ
  queried s = elim s.cur_target [ none ↦ s.last_target | some t ↦ some t ]

  -- `exec_q_memory_map`.
  unfoldable pub exec_q_memory_map : Bytes → ℕ → Session W → Run W
  exec_q_memory_map packet size s = elim (queried s) [
    | none ↦ return_zero (put (codes "E01") s)
    | some t ↦
        return_zero (handle_q_string_reply (c_string (targets.mem_map t 1024 s.world)) packet s)
  ]

  -- `exec_q_feature_read`.
  unfoldable pub exec_q_feature_read : Bytes → ℕ → Session W → Run W
  exec_q_feature_read packet size s = elim (queried s) [
    | none ↦ return_zero (put (codes "E01") s)
    | some t ↦
        let (description, w) = targets.regs_description t s.world in
        let reply : Bytes = elim description [ none ↦ [] | some d ↦ c_string d ] in
        return_zero (handle_q_string_reply reply packet (record s { world = w }))
  ]

  -- The answer of `exec_q_crc` from the checksum.
  abbrev crc_answer : Option ℕ → Bytes
  crc_answer none = codes "E03"
  crc_answer (some crc) = b'C' ∷ lower_hex 8 crc

  -- `exec_q_crc`: a packet without two numbers is not answered.
  unfoldable pub exec_q_crc : Bytes → ℕ → Session W → Run W
  unfolding lower_hex
  exec_q_crc packet size s =
      let scanned = scan_pair targets.oversized [] (b',' ∷ []) none packet in
      elim scanned.0 [
        | none ↦ return_zero s
        | some addr ↦ elim scanned.1 [
          | none ↦ return_zero s
          | some (len, rest) ↦ elim s.cur_target [
            | none ↦ return_zero (put (codes "E01") s)
            | some t ↦
                let (crc, w) = targets.crc32 t addr len s.world in
                return_zero (put (crc_answer crc) (record s { world = w }))
          ]
        ]
      ]

  -- `exec_q_c`.
  unfoldable pub exec_q_c : Bytes → ℕ → Session W → Run W
  exec_q_c packet size s = return_zero (put (codes "QC1") s)

  -- `exec_q_thread_info`; `first` tells `qf` from `qs`.
  unfoldable pub exec_q_thread_info : Bool → Bytes → ℕ → Session W → Run W
  exec_q_thread_info first packet size s =
      return_zero (put (if first then codes "m1" else codes "l") s)

-- A row of a table of commands: the prefix and the function.
abbrev pub Executer : Type 0 → Type 0
Executer W = Bytes × (Bytes → ℕ → Session W → Run W)

-- `exec_command`: `none` when no prefix fits.
unfoldable pub exec_command :
    {W : Type 0} → Bytes → ℕ → List (Executer W) → Session W → Option (Run W)
unfolding strip
exec_command packet size [] s = none
exec_command packet size ((prefix, func) ∷ exec) s =
    let rest = exec_command packet size exec s in
    elim (strip prefix packet) [
      | none ↦ rest
      | some behind ↦ some (func behind (size - length prefix) s)
    ]

module _ {W : Type 0} (targets : Targets W) where
  -- `q_commands`.
  unfoldable pub q_commands : List (Executer W)
  q_commands =
      (codes "qRcmd,", exec_q_rcmd targets)
      ∷ (codes "qSupported", exec_q_supported targets)
      ∷ (codes "qXfer:memory-map:read::", exec_q_memory_map targets)
      ∷ (codes "qXfer:features:read:target.xml:", exec_q_feature_read targets)
      ∷ (codes "qCRC:", exec_q_crc targets)
      ∷ (codes "qC", exec_q_c targets)
      ∷ (codes "qfThreadInfo", exec_q_thread_info targets true)
      ∷ (codes "qsThreadInfo", exec_q_thread_info targets false)
      ∷ []

  -- `handle_q_packet`.
  unfoldable pub handle_q_packet : Bytes → ℕ → Session W → Run W
  unfolding exec_command q_commands
  handle_q_packet packet size s = elim (exec_command packet size q_commands s) [
    | none ↦ return_zero (put [] s)
    | some run ↦ run
  ]
