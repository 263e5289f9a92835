-- ===== src/Session/Answering.antt =====
-- gdb_main.c: what a query does to the targets that the session points at.
use blackmagic.Base.{
  ℕ, zero, suc, ◌-◌, ◌/◌, Option, none, some, List, [], ◌∷◌, Bytes, length, subst,
}
use blackmagic.Hex.{unhexify}
use blackmagic.Session.{Session, Run, Targets, ℤ, pos, negsuc}
use blackmagic.Session.Scanf.{scan_pair, strip}
use blackmagic.Session.Queries.{
  Executer, exec_command, handle_q_packet, q_commands, after_command, exec_q_rcmd, exec_q_supported,
  exec_q_memory_map, queried, c_string, exec_q_feature_read, exec_q_crc, exec_q_c,
  exec_q_thread_info,
}
use blackmagic.Session.Tracked.{IsTracked, option_lem}
use blackmagic.Session.Keeping.{Keeps, AfterPacket, tracked, outside}

module _ {W : Type 0} (targets : Targets W) (keeps : Keeps targets) where
  module _ (c : ℕ) (s : Session W) (h : IsTracked s) where
    after_command-IsTracked :
        (ret : ℤ) (s' : Session W) → IsTracked s' → IsTracked (after_command targets (ret, s'))
    unfolding after_command
    after_command-IsTracked (negsuc n) s' h' = h'
    after_command-IsTracked (pos zero) s' h' = h'
    after_command-IsTracked (pos (suc n)) s' h' = h'

    exec_q_rcmd-AfterPacket : (b : Bytes) (n : ℕ) → AfterPacket s c (exec_q_rcmd targets b n s)
    unfolding exec_q_rcmd
    exec_q_rcmd-AfterPacket b n =
        option_lem (λ (r : Run W). AfterPacket s c r) (unhexify (n / 2) b) (λ e. outside)
          (λ bytes e.
            (let call = targets.command_process (c_string bytes) s in
              tracked (
                after_command-IsTracked call.0 call.1
                  (keeps.command_process (c_string bytes) s h))))

    exec_q_memory_map-AfterPacket :
        (b : Bytes) (n : ℕ) → AfterPacket s c (exec_q_memory_map targets b n s)
    unfolding exec_q_memory_map
    exec_q_memory_map-AfterPacket b n =
        option_lem (λ (r : Run W). AfterPacket s c r) (queried targets s) (λ e. tracked h)
          (λ t e. tracked h)

    exec_q_feature_read-AfterPacket :
        (b : Bytes) (n : ℕ) → AfterPacket s c (exec_q_feature_read targets b n s)
    unfolding exec_q_feature_read
    exec_q_feature_read-AfterPacket b n =
        option_lem (λ (r : Run W). AfterPacket s c r) (queried targets s) (λ e. tracked h)
          (λ t e. tracked h)

    exec_q_crc-AfterPacket : (b : Bytes) (n : ℕ) → AfterPacket s c (exec_q_crc targets b n s)
    unfolding exec_q_crc
    exec_q_crc-AfterPacket b n =
        let P : Run W → Type 0 = AfterPacket s c in
        let scanned = scan_pair targets.oversized [] (b',' ∷ []) none b in
        option_lem P scanned.0 (λ e. tracked h)
          (λ addr e.
            option_lem P scanned.1 (λ e'. tracked h)
              (λ len e'. option_lem P s.cur_target (λ e''. tracked h) (λ t e''. tracked h)))

    -- Every function of a table keeps track of the targets.
    abbrev Safe : List (Executer W) → Type 0
    Safe [] = Unit
    Safe ((prefix, func) ∷ exec) = ((b : Bytes) (n : ℕ) → AfterPacket s c (func b n s)) × Safe exec

    -- The same of a run that there may be.
    abbrev Answered : Option (Run W) → Type 0
    Answered none = Unit
    Answered (some run) = AfterPacket s c run

    exec_command-Answered :
        (b : Bytes) (n : ℕ) (exec : List (Executer W))
        → Safe exec
        → Answered (exec_command b n exec s)
    unfolding exec_command
    exec_command-Answered b n [] safe = tt
    exec_command-Answered b n ((prefix, func) ∷ exec) (safe, rest) =
        option_lem Answered (strip prefix b) {n = exec_command b n exec s}
          {f = λ behind. some (func behind (n - length prefix) s)}
          (λ e. exec_command-Answered b n exec rest) (λ behind e. safe behind (n - length prefix))

    q_commands-Safe : Safe (q_commands targets)
    unfolding q_commands exec_q_supported exec_q_c exec_q_thread_info
    q_commands-Safe = (
      exec_q_rcmd-AfterPacket,
      (
        (λ b n. tracked h),
        (
          exec_q_memory_map-AfterPacket,
          (
            exec_q_feature_read-AfterPacket,
            (
              exec_q_crc-AfterPacket,
              ((λ b n. tracked h), ((λ b n. tracked h), ((λ b n. tracked h), tt))),
            ),
          ),
        ),
      ),
    )

    pub handle_q_packet-AfterPacket :
        (b : Bytes) (n : ℕ) → AfterPacket s c (handle_q_packet targets b n s)
    unfolding handle_q_packet
    handle_q_packet-AfterPacket b n =
        let answered : Answered (exec_command b n (q_commands targets) s) =
          exec_command-Answered b n (q_commands targets) q_commands-Safe in
        option_lem (λ (r : Run W). AfterPacket s c r) (exec_command b n (q_commands targets) s)
          (λ e. tracked h) (λ run e. subst Answered e answered)
