-- ===== src/Session/Packets.antt =====
-- gdb_main.c: what any packet does to the targets that the session points at.
use blackmagic.Base.{
  ℕ, Option, none, some, [], ◌∷◌, Bytes, get_or, Bool, true, false, ◌||◌, ◌==◌, ◌≡◌, arith,
}
use blackmagic.Base.{if_lem}
use blackmagic.Session.{Session, Run, Targets, codes}
use blackmagic.Session.Scanf.{scan_pair, scan_one, number_of, or_else, strip}
use blackmagic.Session.Cmdline.{cmdline}
use blackmagic.Session.Attaching.{target_attach, target_attach_n, with_cur}
use blackmagic.Session.Commands.{
  handle_v_packet, run_target, attached, run_packet, handle_flash_packet, flash_erase, flash_write,
  flash_done, stopped, is_some, is_text,
}
use blackmagic.Session.Loop.{main_loop, optional_packet, if_target}
use blackmagic.Session.Tracked.{
  IsTracked, option_lem, target_attach-IsTracked, target_attach_n-IsTracked,
  handle_kill_target-IsTracked,
}
use blackmagic.Session.Keeping.{
  Keeps, AfterPacket, tracked, no_target, outside, is_untested, if_target-AfterPacket,
  read_memory-IsTracked, read_registers-IsTracked, read_register-IsTracked,
  write_registers-AfterPacket, write_memory_hex-AfterPacket, write_memory_binary-AfterPacket,
  write_register-AfterPacket, resume-IsTracked, halt_reason-IsTracked, detach-IsTracked,
  restart-AfterPacket, handle_z_packet-IsTracked,
}
use blackmagic.Session.Answering.{handle_q_packet-AfterPacket}

module _ {W : Type 0} (targets : Targets W) (keeps : Keeps targets) where
  module _ (s : Session W) (h : IsTracked s) where
    run_target-IsTracked : (line : Bytes) → IsTracked (run_target targets line s)
    unfolding run_target
    run_target-IsTracked line =
        let P : Session W → Type 0 = λ s'. IsTracked s' in
        option_lem P s.cur_target
          (λ none_cur.
            option_lem P s.last_target (λ e. h)
              (λ l e.
                (let (left, reached) =
                    target_attach-IsTracked targets l (record s { rtt_found = false }) h in
                  option_lem P (target_attach targets l (record s { rtt_found = false })).0
                    (λ e'. reached) (λ t e'. reached))))
          (λ t e. h)

    flash_erase-IsTracked : (addr len : ℕ) → IsTracked (flash_erase targets addr len s)
    unfolding flash_erase
    flash_erase-IsTracked addr len =
        option_lem (λ (s' : Session W). IsTracked s') s.cur_target (λ e. h)
          (λ t e.
            if_lem (λ (s' : Session W). IsTracked s') (targets.flash_erase t addr len s.world).0
              (λ e'. h) (λ e'. h))

    module _ (c : ℕ) (r : is_untested c ≡ true) where
      flash_write-AfterPacket :
          (addr : ℕ) (o : Option Bytes) → AfterPacket s c (flash_write targets addr o s)
      unfolding flash_write
      flash_write-AfterPacket addr none =
          option_lem (λ (run : Run W). AfterPacket s c run) s.cur_target (λ e. no_target e r)
            (λ t e. outside)
      flash_write-AfterPacket addr (some src) =
          option_lem (λ (run : Run W). AfterPacket s c run) s.cur_target (λ e. no_target e r)
            (λ t e.
              if_lem (λ (run : Run W). AfterPacket s c run)
                (targets.flash_write t addr src s.world).0 (λ e'. tracked h) (λ e'. tracked h))

      flash_done-AfterPacket : AfterPacket s c (flash_done targets s)
      unfolding flash_done
      flash_done-AfterPacket =
          option_lem (λ (run : Run W). AfterPacket s c run) s.cur_target (λ e. no_target e r)
            (λ t e. tracked h)

      stopped-IsTracked : IsTracked (stopped targets s)
      unfolding stopped
      stopped-IsTracked =
          if_lem (λ (s' : Session W). IsTracked s') s.detach_notify (λ e. h) (λ e. h)

      attached-IsTracked : (s' : Session W) → IsTracked s' → IsTracked (attached targets s')
      attached-IsTracked s' h' =
          option_lem (λ (u : Session W). IsTracked u) s'.cur_target (λ e. h') (λ t e. h')

      run_packet-AfterPacket : (b : Bytes) → AfterPacket s c (run_packet targets b s)
      unfolding run_packet
      run_packet-AfterPacket b =
          let P : Run W → Type 0 = AfterPacket s c in
          option_lem P (strip (codes "vRun") b) (λ e. tracked h)
            (λ behind e.
              option_lem P (cmdline targets.uninitialised behind) (λ e'. outside)
                (λ line e'. tracked (run_target-IsTracked line)))

      handle_flash_packet-AfterPacket :
          (b : Bytes) (n : ℕ) → AfterPacket s c (handle_flash_packet targets b n s)
      unfolding handle_flash_packet
      handle_flash_packet-AfterPacket b n =
          let P : Run W → Type 0 = AfterPacket s c in
          let erase = scan_pair targets.oversized (codes "vFlashErase:") (b',' ∷ []) (some 8) b in
          let write = scan_one targets.oversized (codes "vFlashWrite:") (some 8) b in
          if_lem P (is_some erase.1)
            (λ e.
              tracked (flash_erase-IsTracked (or_else 0 erase.0) (or_else 0 (number_of erase.1))))
            (λ e.
              if_lem P (is_some write)
                (λ e'. flash_write-AfterPacket (or_else 0 (number_of write)) _)
                (λ e'.
                  if_lem P (is_text (codes "vFlashDone") b) (λ e''. flash_done-AfterPacket)
                    (λ e''.
                      if_lem P (is_text (codes "vStopped") b) (λ d. tracked stopped-IsTracked)
                        (λ d. tracked h))))

      handle_v_packet-AfterPacket :
          (b : Bytes) (n : ℕ) → AfterPacket s c (handle_v_packet targets b n s)
      unfolding handle_v_packet
      handle_v_packet-AfterPacket b n =
          let P : Run W → Type 0 = AfterPacket s c in
          let attach = scan_one targets.oversized (codes "vAttach;") (some 8) b in
          let called = target_attach_n targets (or_else 0 (number_of attach)) s in
          if_lem P (is_some attach)
            (λ e. tracked (
              attached-IsTracked (with_cur called)
                (target_attach_n-IsTracked targets (or_else 0 (number_of attach)) s h)))
            (λ e.
              if_lem P (is_some (strip (codes "vKill;") b))
                (λ e'. tracked (handle_kill_target-IsTracked targets s h))
                (λ e'.
                  if_lem P (is_some (strip (codes "vRun") b)) (λ e''. run_packet-AfterPacket b)
                    (λ e''. handle_flash_packet-AfterPacket b n)))

  with_target :
      (s : Session W) (h : IsTracked s) {c : ℕ} {k : ℕ → Run W}
      → ((t : ℕ) → s.cur_target ≡ some t → AfterPacket s c (k t))
      → AfterPacket s c (if_target targets s k)
  with_target s h {c} {k} f = if_target-AfterPacket targets keeps c s h k f

  optional_packet-AfterPacket :
      (b : Bytes) (size : ℕ) (in_syscall : Bool) (s : Session W)
      → IsTracked s
      → AfterPacket s (get_or b 0 0) (optional_packet targets b size in_syscall s)
  unfolding optional_packet
  optional_packet-AfterPacket b size in_syscall s h =
      let c = get_or b 0 0 in
      let P : Run W → Type 0 = AfterPacket s c in
      if_lem P (c == b'p')
        (λ e. with_target s h (λ t e'. tracked (read_register-IsTracked targets keeps c s h t b)))
        (λ e.
          if_lem P (c == b'P')
            (λ e. with_target s h (λ t e'. write_register-AfterPacket targets keeps c s h t b))
            (λ e.
              if_lem P (c == b'F')
                (λ e.
                  if_lem P in_syscall (λ e'. tracked (keeps.hostio_reply b size s h))
                    (λ e'. tracked h))
                (λ e.
                  if_lem P (c == b'!') (λ e. tracked h)
                    (λ e.
                      if_lem P (c == 4 || c == b'D')
                        (λ e. tracked (detach-IsTracked targets keeps c s h (c == b'D')))
                        (λ e.
                          if_lem P (c == b'k')
                            (λ e. tracked (handle_kill_target-IsTracked targets s h))
                            (λ e.
                              if_lem P (c == b'r' || c == b'R')
                                (λ e. restart-AfterPacket targets keeps c s h (ground (arith, e)))
                                (λ e.
                                  if_lem P (c == b'X')
                                    (λ e. with_target s h (λ t e'.
                                      write_memory_binary-AfterPacket targets keeps c s h t b size))
                                    (λ e.
                                      if_lem P (c == b'q')
                                        (λ e.
                                          handle_q_packet-AfterPacket targets keeps c s h b size)
                                        (λ e.
                                          if_lem P (c == b'v')
                                            (λ e.
                                              handle_v_packet-AfterPacket s h c (ground (arith, e))
                                                b size)
                                            (λ e.
                                              if_lem P (c == b'Z' || c == b'z')
                                                (λ e. with_target s h (λ t e'. tracked (
                                                  handle_z_packet-IsTracked targets keeps c s h t
                                                    b)))
                                                (λ e. tracked h)))))))))))

  -- When the session points only at targets of which it is told when they are freed, then the same
  -- holds behind any packet that returns, when the three calls that may free targets keep to it.
  -- A packet uses a NULL target only when it is `r`, `R` or `v` and there is no current target.
  pub main_loop-AfterPacket :
      (b : Bytes) (n size : ℕ) (in_syscall : Bool) (s : Session W)
      → IsTracked s
      → AfterPacket s (get_or b 0 0) (main_loop targets b n size in_syscall s)
  unfolding main_loop
  main_loop-AfterPacket b n size in_syscall s h =
      let c = get_or b 0 0 in
      let P : Run W → Type 0 = AfterPacket s c in
      if_lem P (c == b'g')
        (λ e. with_target s h (λ t e'. tracked (read_registers-IsTracked targets keeps c s h t)))
        (λ e.
          if_lem P (c == b'm')
            (λ e.
              with_target s h (λ t e'. tracked (read_memory-IsTracked targets keeps c s h t b n)))
            (λ e.
              if_lem P (c == b'G')
                (λ e. with_target s h (λ t e'. write_registers-AfterPacket targets keeps c s h t b))
                (λ e.
                  if_lem P (c == b'M')
                    (λ e.
                      with_target s h
                        (λ t e'. write_memory_hex-AfterPacket targets keeps c s h t b size))
                    (λ e.
                      if_lem P (c == b'H') (λ e. tracked h)
                        (λ e.
                          if_lem P (c == b's' || c == b'c' || c == b'C')
                            (λ e. tracked (resume-IsTracked targets keeps c s h (c == b's')))
                            (λ e.
                              if_lem P (c == b'?')
                                (λ e. tracked (halt_reason-IsTracked targets keeps c s h))
                                (λ e. optional_packet-AfterPacket b size in_syscall s h)))))))
