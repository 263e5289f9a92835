-- ===== src/Session/Replies.antt =====
-- gdb_main.c: how many packets answer a packet of the debugger.
use blackmagic.Base.{
  ℕ, suc, ◌+◌, ◌-◌, Option, none, some, List, [], ◌∷◌, ◌++◌, Bytes, true, false, ◌==◌,
  if◌then◌else◌, ◌≡◌, refl, ap, ◌∙◌, arith,
}
use blackmagic.Base.{if_lem}
use blackmagic.Session.{
  Session, Run, done, null_target, past_end, Reply, packet, notification, console, Targets, ℤ,
  codes, put, return_zero, upon,
}
use blackmagic.Session.Attaching.{
  points_at, destroy_callback, target_attach, attach_nth, target_attach_n, with_cur,
  handle_kill_target,
}
use blackmagic.Session.Cmdline.{cmdline}
use blackmagic.Session.Commands.{
  attached, run_target, run_packet, flash_erase, flash_write, flash_done, stopped,
  handle_flash_packet, handle_v_packet, is_some, is_text,
}
use blackmagic.Session.Scanf.{scan_pair, scan_one, number_of, or_else, strip}
use blackmagic.Session.Tracked.{option_lem}

-- The packets among what has been sent.
abbrev pub packets : List Reply → ℕ
packets [] = 0
packets (packet x ∷ out) = suc (packets out)
packets (notification x ∷ out) = packets out
packets (console x ∷ out) = packets out

packets-append : (xs ys : List Reply) → packets (xs ++ ys) ≡ packets xs + packets ys
packets-append [] ys = omega arith
packets-append (packet x ∷ xs) ys = omega (arith, packets-append xs ys)
packets-append (notification x ∷ xs) ys = packets-append xs ys
packets-append (console x ∷ xs) ys = packets-append xs ys

-- A run that returns has sent exactly one packet more than `n`.
pub data SendsOne {W : Type 0} (n : ℕ) : Run W → Type 0 where
  one : {i : ℤ} {s : Session W} → packets s.out ≡ n + 1 → SendsOne n (done i s)
  no_target : SendsOne n null_target
  outside : SendsOne n past_end

module _ {W : Type 0} where
  pub put-SendsOne :
      (n : ℕ) (x : Bytes) (s : Session W) → packets s.out ≡ n → SendsOne n (return_zero (put x s))
  put-SendsOne n x s e = one (packets-append s.out (packet x ∷ []) ∙ omega (arith, e))

  -- The callback sends no packet.
  destroy_callback-packets :
      (t : ℕ) (s : Session W) → packets (destroy_callback t s).out ≡ packets s.out
  unfolding destroy_callback
  destroy_callback-packets t s =
      let P : Session W → Type 0 = λ s'. packets s'.out ≡ packets s.out in
      let told =
        notification (codes "%Stop:W00")
        ∷ console (codes "You are now detached from the previous target.\n")
        ∷ [] in
      let same : packets (s.out ++ told) ≡ packets s.out =
        packets-append s.out told ∙ omega arith in
      if_lem
        (λ (s1 : Session W).
          P (if points_at s1.last_target t then record s1 { last_target = none } else s1))
        (points_at s.cur_target t)
        (λ e. if_lem P (points_at s.last_target t) (λ e'. same) (λ e'. same))
        (λ e. if_lem P (points_at s.last_target t) (λ e'. refl) (λ e'. refl))

module _ {W : Type 0} (targets : Targets W) where
  target_attach-packets :
      (t : ℕ) (s : Session W) → packets (target_attach targets t s).1.out ≡ packets s.out
  unfolding target_attach
  target_attach-packets t s =
      let P : Option ℕ × Session W → Type 0 = λ r. packets r.1.out ≡ packets s.out in
      let s1 : Session W = if s.controlled t then destroy_callback t s else s in
      let called : packets s1.out ≡ packets s.out =
        if_lem (λ (s' : Session W). packets s'.out ≡ packets s.out) (s.controlled t)
          (λ e. destroy_callback-packets t s) (λ e. refl) in
      if_lem P (targets.attach t (targets.clk_output_enable true s1.world)).0 (λ e. called)
        (λ e. called)

  attach_nth-packets :
      (n : ℕ) (ts : List ℕ) (s : Session W)
      → packets (attach_nth targets n ts s).1.out ≡ packets s.out
  unfolding attach_nth
  attach_nth-packets n [] s = refl
  attach_nth-packets n (t ∷ ts) s =
      let P : Option ℕ × Session W → Type 0 = λ r. packets r.1.out ≡ packets s.out in
      if_lem P (n == 1) (λ e. target_attach-packets t s)
        (λ e. if_lem P (n == 0) (λ e'. refl) (λ e'. attach_nth-packets (n - 1) ts s))

  target_attach_n-packets :
      (n : ℕ) (s : Session W) → packets (target_attach_n targets n s).1.out ≡ packets s.out
  unfolding target_attach_n
  target_attach_n-packets n s = attach_nth-packets n (targets.target_list s.world) s

  module _ (s : Session W) where
    abbrev pub P : Run W → Type 0
    P r = SendsOne (packets s.out) r

    run_target-SendsOne : (line : Bytes) → P (return_zero (run_target targets line s))
    unfolding run_target
    run_target-SendsOne line =
        let n = packets s.out in
        let s0 = record s { rtt_found = false } in
        let Q : Session W → Type 0 = λ s'. P (return_zero s') in
        let again : ℕ → Session W → Session W =
          λ t s'. upon (λ w. targets.reset t (targets.set_cmdline t line w)) s' in
        option_lem Q s.cur_target
          (λ e.
            option_lem Q s.last_target (λ e'. put-SendsOne n (codes "E01") s0 refl)
              (λ l e'.
                (let s1 = with_cur (target_attach targets l s0) in
                  let same : packets s1.out ≡ n = target_attach-packets l s0 in
                  option_lem Q s1.cur_target (λ f. put-SendsOne n (codes "E01") s1 same)
                    (λ t f.
                      put-SendsOne n (codes "T05") (upon (targets.morse none false) (again t s1))
                        same))))
          (λ t e. put-SendsOne n (codes "T05") (again t s0) refl)

    attached-SendsOne :
        (s1 : Session W) → packets s1.out ≡ packets s.out → P (return_zero (attached targets s1))
    attached-SendsOne s1 same =
        option_lem (λ (s' : Session W). P (return_zero s')) s1.cur_target
          (λ e. put-SendsOne (packets s.out) (codes "E01") s1 same)
          (λ t e.
            put-SendsOne (packets s.out) (codes "T05thread:1;") (upon (targets.morse none false) s1)
              same)

    run_packet-SendsOne :
        (b : Bytes) → is_some (strip (codes "vRun") b) ≡ true → P (run_packet targets b s)
    unfolding run_packet
    run_packet-SendsOne b h =
        option_lem P (strip (codes "vRun") b) (λ e. absurd (ground (arith, ap is_some e, h)))
          (λ behind e.
            option_lem P (cmdline targets.uninitialised behind) (λ e'. outside)
              (λ line e'. run_target-SendsOne line))

    -- One packet, with the outside changed before it.
    pub told : (x : Bytes) (w : W) → P (return_zero (put x (record s { world = w })))
    told x w = put-SendsOne (packets s.out) x (record s { world = w }) refl

    flash_erase-SendsOne : (addr len : ℕ) → P (return_zero (flash_erase targets addr len s))
    unfolding flash_erase
    flash_erase-SendsOne addr len =
        let Q : Session W → Type 0 = λ s'. P (return_zero s') in
        option_lem Q s.cur_target (λ e. told (codes "EFF") s.world)
          (λ t e.
            (let (erased, w) = targets.flash_erase t addr len s.world in
              if_lem Q erased (λ e'. told (codes "OK") w)
                (λ e'. told (codes "EFF") (targets.flash_complete t w).1)))

    flash_write-SendsOne : (addr : ℕ) (o : Option Bytes) → P (flash_write targets addr o s)
    unfolding flash_write
    flash_write-SendsOne addr none = option_lem P s.cur_target (λ e. no_target) (λ t e. outside)
    flash_write-SendsOne addr (some src) =
        option_lem P s.cur_target (λ e. no_target)
          (λ t e.
            (let (written, w) = targets.flash_write t addr src s.world in
              if_lem P written (λ e'. told (codes "OK") w)
                (λ e'. told (codes "EFF") (targets.flash_complete t w).1)))

    flash_done-SendsOne : P (flash_done targets s)
    unfolding flash_done
    flash_done-SendsOne =
        option_lem P s.cur_target (λ e. no_target)
          (λ t e.
            (let (complete, w) = targets.flash_complete t s.world in
              told (if complete then codes "OK" else codes "EFF") w))

    stopped-SendsOne : P (return_zero (stopped targets s))
    unfolding stopped
    stopped-SendsOne =
        let Q : Session W → Type 0 = λ s'. P (return_zero s') in
        let sent : (x : Bytes) → packets (s.out ++ (packet x ∷ [])) ≡ packets s.out + 1 =
          λ x. packets-append s.out (packet x ∷ []) in
        if_lem Q s.detach_notify (λ e. one (sent (codes "W00"))) (λ e. one (sent (codes "OK")))

    handle_flash_packet-SendsOne : (b : Bytes) (n : ℕ) → P (handle_flash_packet targets b n s)
    unfolding handle_flash_packet
    handle_flash_packet-SendsOne b n =
        let erase = scan_pair targets.oversized (codes "vFlashErase:") (b',' ∷ []) (some 8) b in
        let write = scan_one targets.oversized (codes "vFlashWrite:") (some 8) b in
        if_lem P (is_some erase.1)
          (λ e. flash_erase-SendsOne (or_else 0 erase.0) (or_else 0 (number_of erase.1)))
          (λ e.
            if_lem P (is_some write) (λ e'. flash_write-SendsOne (or_else 0 (number_of write)) _)
              (λ e'.
                if_lem P (is_text (codes "vFlashDone") b) (λ e''. flash_done-SendsOne)
                  (λ e''.
                    if_lem P (is_text (codes "vStopped") b) (λ d. stopped-SendsOne)
                      (λ d. told [] s.world))))

    killed : packets (handle_kill_target targets s).out ≡ packets s.out
    unfolding handle_kill_target
    killed =
        option_lem (λ (s' : Session W). packets s'.out ≡ packets s.out) s.cur_target (λ e. refl)
          (λ t e. refl)

    -- Every `v` packet that returns is answered by exactly one packet, whatever the text of it is and
    -- whatever the target answers; notifications and texts for the console come besides.
    pub handle_v_packet-SendsOne :
        (b : Bytes) (n : ℕ) → SendsOne (packets s.out) (handle_v_packet targets b n s)
    unfolding handle_v_packet
    handle_v_packet-SendsOne b n =
        let attach = scan_one targets.oversized (codes "vAttach;") (some 8) b in
        let number = or_else 0 (number_of attach) in
        let called = target_attach_n targets number s in
        if_lem P (is_some attach)
          (λ e. attached-SendsOne (with_cur called) (target_attach_n-packets number s))
          (λ e.
            if_lem P (is_some (strip (codes "vKill;") b))
              (λ e'.
                put-SendsOne (packets s.out) (codes "OK") (handle_kill_target targets s) killed)
              (λ e'.
                if_lem P (is_some (strip (codes "vRun") b)) (λ h. run_packet-SendsOne b h)
                  (λ e''. handle_flash_packet-SendsOne b n)))
