-- ===== src/Examples/Sessions.antt =====
-- The session with the debugger, from gdb_main.c, at concrete inputs.
use blackmagic.Base.{
  ℕ, zero, suc, ◌+◌, ◌-◌, ◌^◌, none, some, [], ◌∷◌, ◌++◌, Bytes, replicate, true, false, ◌≡◌, refl,
  arith,
}
use blackmagic.Rtt.{breakpoint}
use blackmagic.Session.{pos, Session, Run, done, Targets, codes, put, return_zero}
use blackmagic.Session.Attaching.{
  destroy_callback, target_attach, attach_nth, target_attach_n, free_targets,
}
use blackmagic.Session.Commands.{handle_v_packet}
use blackmagic.Session.Release.{contains}
use blackmagic.Session.Scanf.{scan_one, scan_pair, scan_number, strip, skip_spaces, digits}
use blackmagic.Hex.{unhexify, unhex_digit}
use blackmagic.Session.Cmdline.{strlen, cmdline_loop, cmdline}
use blackmagic.Session.CommandLine.{Stays, cmdline-Stays}
use blackmagic.Session.Detached.{main_loop-is_access}
use blackmagic.Session.Keeping.{Keeps, AfterPacket}
use blackmagic.Session.Loop.{main_loop, optional_packet, gdb_main}
use blackmagic.Session.Packets.{main_loop-AfterPacket}
use blackmagic.Session.Reachable.{
  initial, start, on_packet, Reachable-IsTracked, free_targets-Reachable,
}
use blackmagic.Session.Replies.{packets, SendsOne}
use blackmagic.Session.Answers.{main_loop-SendsOne}
use blackmagic.Session.Transfer.{fetch, fetch-string_reply}

-- A probe with one target, whose state is the number of calls; a poll finds it at a breakpoint.
abbrev calm : Targets ℕ
calm = record {
  target_list = λ w. 1 ∷ [];
  attach = λ t w. (true, w + 1);
  detach = λ t w. w + 1;
  reset = λ t w. w + 1;
  set_cmdline = λ t line w. w + 1;
  regs_size = λ t w. 4;
  regs_read = λ t w. (replicate 4 0, w + 1);
  regs_write = λ t regs w. w + 1;
  has_reg_read = λ t w. true;
  reg_read = λ t reg max w. (replicate 4 0, w + 1);
  has_reg_write = λ t w. true;
  reg_write = λ t reg val w. (true, w + 1);
  mem_read = λ t addr len w. (false, replicate len 0xff, w + 1);
  mem_write = λ t addr src w. (false, w + 1);
  halt_resume = λ t step w. w + 1;
  halt_request = λ t w. w + 1;
  halt_poll = λ t s. (breakpoint, 0, s);
  breakwatch_set = λ t kind addr len w. (pos 0, w + 1);
  breakwatch_clear = λ t kind addr len w. (pos 0, w + 1);
  flash_erase = λ t addr len w. (true, w + 1);
  flash_write = λ t addr src w. (true, w + 1);
  flash_complete = λ t w. (true, w + 1);
  mem_map = λ t len w. codes "<memory-map></memory-map>";
  regs_description = λ t w. (none, w);
  crc32 = λ t addr len w. (some 0, w + 1);
  command_process = λ c s. (pos 0, s);
  hostio_reply = λ b n s. (pos 0, s);
  morse = λ message repeat w. w;
  set_run_state = λ state w. w;
  clk_output_enable = λ enable w. w;
  uninitialised = λ i. 0;
  oversized = λ n. 2 ^ 32 - 1;
}

abbrev calm_keeps : Keeps calm
calm_keeps = record {
  command_process = λ c s h. h;
  hostio_reply = λ b n s h. h;
  halt_poll = λ t s h. h;
}

-- The packet that attaches to the first target, in the buffer.
abbrev attach_packet : Bytes
attach_packet = codes "vAttach;1" ++ (0 ∷ [])

-- The session behind that packet.
abbrev session_of : Run ℕ → Session ℕ
session_of (done i s) = s
session_of _ = initial 0

attached : Session ℕ
attached = session_of (gdb_main calm attach_packet 1024 9 (initial 0))

attached_run : gdb_main calm attach_packet 1024 9 (initial 0) ≡ done (pos 0) attached
unfolding attached gdb_main main_loop optional_packet handle_v_packet target_attach_n attach_nth
    target_attach destroy_callback scan_one scan_pair scan_number strip skip_spaces digits
attached_run = refl

-- The session points at the target, which has it as its controller.
attached-cur_target : attached.cur_target ≡ some 1
unfolding attached gdb_main main_loop optional_packet handle_v_packet target_attach_n attach_nth
    target_attach destroy_callback scan_one scan_pair scan_number strip skip_spaces digits
attached-cur_target = refl

attached-controlled : (u : ℕ) → attached.controlled u ≡ true → contains u (1 ∷ []) ≡ true
unfolding attached gdb_main main_loop optional_packet handle_v_packet target_attach_n attach_nth
    target_attach destroy_callback scan_one scan_pair scan_number strip skip_spaces digits
attached-controlled u e = ground (arith, e)

free_targets-Reachable_example :
    ((free_targets calm (λ t w. true) (1 ∷ []) attached).cur_target ≡ none)
    × ((free_targets calm (λ t w. true) (1 ∷ []) attached).last_target ≡ none)
free_targets-Reachable_example =
    free_targets-Reachable calm calm_keeps 0 attached (λ t w. true) (1 ∷ [])
      (on_packet attach_packet 1024 9 start attached_run) attached-controlled

main_loop-AfterPacket_example :
    AfterPacket attached b'r' (main_loop calm (b'r' ∷ 0 ∷ []) 1024 1 false attached)
main_loop-AfterPacket_example =
    main_loop-AfterPacket calm calm_keeps (b'r' ∷ 0 ∷ []) 1024 1 false attached (
      Reachable-IsTracked calm calm_keeps 0 attached
        (on_packet attach_packet 1024 9 start attached_run))

main_loop-is_access_example :
    main_loop calm (codes "m20000000,4") 1024 11 false (initial 0)
    ≡ return_zero (put (codes "EFF") (initial 0))
main_loop-is_access_example =
    main_loop-is_access calm (codes "m20000000,4") 1024 11 false (initial 0) refl refl

main_loop-SendsOne_example :
    SendsOne
      (packets attached.out)
      (main_loop calm (codes "vStopped" ++ (0 ∷ [])) 1024 8 false attached)
main_loop-SendsOne_example =
    main_loop-SendsOne calm (codes "vStopped" ++ (0 ∷ [])) 1024 8 false attached refl

fetch-string_reply_example :
    fetch (λ n. n) 26 0 5 (codes "<memory-map></memory-map>")
    ≡ some (codes "<memory-map></memory-map>")
fetch-string_reply_example =
    fetch-string_reply (λ n. n) 5 (codes "<memory-map></memory-map>") (omega arith) (omega arith)
      (omega arith)

cmdline-Stays_example : Stays (cmdline (λ i. 1) (codes ";6162;63" ++ (0 ∷ 1 ∷ [])))
cmdline-Stays_example = cmdline-Stays (λ i. 1) (codes ";6162;63") 1 [] refl

-- The character of the code 0 keeps `strlen` at 0, and the loop writes behind the buffer.
abbrev many_pairs : ℕ → Bytes
many_pairs zero = 0 ∷ 0 ∷ 0 ∷ []
many_pairs (suc n) = b'4' ∷ b'1' ∷ many_pairs n

cmdline_zero : cmdline (λ i. 1) (b';' ∷ b'0' ∷ b'0' ∷ many_pairs 100) ≡ none
unfolding cmdline cmdline_loop strlen unhexify unhex_digit
cmdline_zero = refl
