-- ===== src/Session/Keeping.antt =====
-- gdb_main.c: what a packet does to the targets that the session points at.
use blackmagic.Base.{
  ℕ, ◌/◌, Option, none, some, [], ◌∷◌, Bytes, drop, Bool, true, false, ◌||◌, ltb, ◌==◌, ◌≡◌, refl,
}
use blackmagic.Base.{if_lem}
use blackmagic.Hex.{unhexify}
use blackmagic.Session.{Session, Run, done, null_target, past_end, Targets, ℤ}
use blackmagic.Session.Scanf.{scan_pair, number_of, or_else}
use blackmagic.Session.Attaching.{target_attach}
use blackmagic.Session.Commands.{handle_z_packet}
use blackmagic.Session.Loop.{
  write_memory, if_target, read_registers, write_registers, read_memory, write_memory_hex,
  write_memory_binary, read_register, write_register, resume, halt_reason, detach, restart,
}
use blackmagic.Session.Tracked.{IsTracked, option_lem, target_attach-IsTracked, let_go}

-- The calls that may free targets keep track of them.
pub record Keeps {W : Type 0} (targets : Targets W) : Type 0 where
  pub command_process :
      (c : Bytes) (s : Session W) → IsTracked s → IsTracked (targets.command_process c s).1
  pub hostio_reply :
      (b : Bytes) (n : ℕ) (s : Session W) → IsTracked s → IsTracked (targets.hostio_reply b n s).1
  pub halt_poll : (t : ℕ) (s : Session W) → IsTracked s → IsTracked (targets.halt_poll t s).2

-- The packets that use a target without a test: `r`, `R` and some of `v`.
abbrev pub is_untested : ℕ → Bool
is_untested c = c == b'r' || c == b'R' || c == b'v'

-- What a packet with the first character `c` leaves of a session: a NULL target is used only by
-- some packets, and only when there is no current target.
pub data AfterPacket {W : Type 0} (s : Session W) (c : ℕ) : Run W → Type 0 where
  tracked : {i : ℤ} {s' : Session W} → IsTracked s' → AfterPacket s c (done i s')
  no_target : s.cur_target ≡ none → is_untested c ≡ true → AfterPacket s c null_target
  outside : AfterPacket s c past_end

module _ {W : Type 0} (targets : Targets W) (keeps : Keeps targets) where
  module _ (c : ℕ) (s : Session W) (h : IsTracked s) where
    pub if_target-AfterPacket :
        (k : ℕ → Run W)
        → ((t : ℕ) → s.cur_target ≡ some t → AfterPacket s c (k t))
        → AfterPacket s c (if_target targets s k)
    if_target-AfterPacket k f =
        option_lem (λ (r : Run W). AfterPacket s c r) s.cur_target (λ e. tracked h) f

    pub read_memory-IsTracked :
        (t : ℕ) (pbuf : Bytes) (n : ℕ) → IsTracked (read_memory targets t pbuf n s)
    unfolding read_memory
    read_memory-IsTracked t pbuf n =
        let (addr, len) = scan_pair targets.oversized (b'm' ∷ []) (b',' ∷ []) none pbuf in
        if_lem (λ (s' : Session W). IsTracked s')
          (ltb (n / 2) (or_else (targets.uninitialised 1) (number_of len))) (λ e. h) (λ e. h)

    pub read_registers-IsTracked : (t : ℕ) → IsTracked (read_registers targets t s)
    unfolding read_registers
    read_registers-IsTracked t =
        if_lem (λ (s' : Session W). IsTracked s') (targets.regs_size t s.world == 0) (λ e. h)
          (λ e. h)

    pub read_register-IsTracked :
        (t : ℕ) (pbuf : Bytes) → IsTracked (read_register targets t pbuf s)
    unfolding read_register
    read_register-IsTracked t pbuf =
        if_lem (λ (s' : Session W). IsTracked s') (targets.has_reg_read t s.world) (λ e. h) (λ e. h)

    -- A write of decoded bytes, or an access behind the buffer.
    decoded :
        (o : Option Bytes) {f : Bytes → Run W}
        → ((bytes : Bytes) → AfterPacket s c (f bytes))
        → AfterPacket s c (elim o [ none ↦ past_end | some bytes ↦ f bytes ])
    decoded o g =
        option_lem (λ (r : Run W). AfterPacket s c r) o (λ e. outside) (λ bytes e. g bytes)

    pub write_registers-AfterPacket :
        (t : ℕ) (pbuf : Bytes) → AfterPacket s c (write_registers targets t pbuf s)
    unfolding write_registers
    write_registers-AfterPacket t pbuf =
        if_lem (λ (r : Run W). AfterPacket s c r) (targets.regs_size t s.world == 0)
          (λ e. tracked h)
          (λ e. decoded (unhexify (targets.regs_size t s.world) (drop 1 pbuf)) (λ bytes. tracked h))

    write_memory-AfterPacket :
        (t addr len room : ℕ) (o : Option Bytes)
        → AfterPacket s c (write_memory targets t addr len room o s)
    unfolding write_memory
    write_memory-AfterPacket t addr len room none =
        if_lem (λ (r : Run W). AfterPacket s c r) (ltb room len) (λ e. tracked h) (λ e. outside)
    write_memory-AfterPacket t addr len room (some src) =
        if_lem (λ (r : Run W). AfterPacket s c r) (ltb room len) (λ e. tracked h) (λ e. tracked h)

    pub write_memory_hex-AfterPacket :
        (t : ℕ) (pbuf : Bytes) (size : ℕ) → AfterPacket s c (write_memory_hex targets t pbuf size s)
    unfolding write_memory_hex
    write_memory_hex-AfterPacket t pbuf size = write_memory-AfterPacket t _ _ _ _

    pub write_memory_binary-AfterPacket :
        (t : ℕ) (pbuf : Bytes) (size : ℕ)
        → AfterPacket s c (write_memory_binary targets t pbuf size s)
    unfolding write_memory_binary
    write_memory_binary-AfterPacket t pbuf size = write_memory-AfterPacket t _ _ _ _

    pub write_register-AfterPacket :
        (t : ℕ) (pbuf : Bytes) → AfterPacket s c (write_register targets t pbuf s)
    unfolding write_register
    write_register-AfterPacket t pbuf =
        if_lem (λ (r : Run W). AfterPacket s c r) (targets.has_reg_write t s.world)
          (λ e. decoded _ (λ bytes. tracked h)) (λ e. tracked h)

    pub resume-IsTracked : (single_step : Bool) → IsTracked (resume targets single_step s)
    unfolding resume
    resume-IsTracked single_step =
        option_lem (λ (s' : Session W). IsTracked s') s.cur_target (λ e. h) (λ t e. h)

    pub halt_reason-IsTracked : IsTracked (halt_reason targets s)
    unfolding halt_reason
    halt_reason-IsTracked =
        option_lem (λ (s' : Session W). IsTracked s') s.cur_target (λ e. h) (λ t e. h)

    pub detach-IsTracked : (answered : Bool) → IsTracked (detach targets answered s)
    unfolding detach
    detach-IsTracked answered =
        let gone : IsTracked (detach targets false s) =
          option_lem (λ (s' : Session W). IsTracked s') s.cur_target (λ e. h)
            (λ t e. let_go targets t s s e h refl) in
        if_lem (λ (s' : Session W). IsTracked s') answered (λ e. gone) (λ e. gone)

    pub restart-AfterPacket : is_untested c ≡ true → AfterPacket s c (restart targets s)
    unfolding restart
    restart-AfterPacket r =
        let P : Run W → Type 0 = AfterPacket s c in
        option_lem P s.cur_target
          (λ none_cur.
            option_lem P s.last_target (λ e. tracked h)
              (λ l e.
                option_lem P (target_attach targets l s).0 (λ e'. no_target none_cur r)
                  (λ t e'. tracked (target_attach-IsTracked targets l s h).1)))
          (λ t e. tracked h)

    pub handle_z_packet-IsTracked :
        (t : ℕ) (pbuf : Bytes) → IsTracked (handle_z_packet targets t pbuf s)
    unfolding handle_z_packet
    handle_z_packet-IsTracked t pbuf = h
