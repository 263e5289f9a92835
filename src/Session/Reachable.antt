-- ===== src/Session/Reachable.antt =====
-- gdb_main.c, main.c: the sessions that can come up, step by step.
use blackmagic.Base.{ℕ, none, List, [], Bytes, subst, Bool, true, false, ◌≡◌, arith}
use blackmagic.Rtt.{
  HaltReason, running, halt_error, request, stepping, breakpoint, watchpoint, fault,
}
use blackmagic.Session.{Session, Run, done, Targets, ℤ, upon}
use blackmagic.Session.Attaching.{free_targets}
use blackmagic.Session.Loop.{gdb_main, main_loop, after_reason, halt_target, poll_target}
use blackmagic.Session.Tracked.{IsTracked, option_lem, free_targets-IsTracked}
use blackmagic.Session.Keeping.{Keeps, AfterPacket, tracked, no_target, outside}
use blackmagic.Session.Packets.{main_loop-AfterPacket}
use blackmagic.Session.Release.{contains, free_targets-none}

-- The variables of gdb_main.c at the start, before any target is known.
abbrev pub initial : {W : Type 0} → W → Session W
initial w = record {
  cur_target = none;
  last_target = none;
  running = false;
  detach_notify = false;
  rtt_found = false;
  controlled = λ t. false;
  out = [];
  world = w;
}

-- The state of a session behind some steps of `main`: a packet of the debugger, a poll, a request to
-- halt, the end of all targets, and anything else that happens outside.
pub data Reachable {W : Type 0} (targets : Targets W) (w : W) : Session W → Type 0 where
  start : Reachable targets w (initial w)
  on_packet :
      {s s' : Session W} {i : ℤ} (b : Bytes) (n size : ℕ)
      → Reachable targets w s
      → gdb_main targets b n size s ≡ done i s'
      → Reachable targets w s'
  on_poll : {s : Session W} → Reachable targets w s → Reachable targets w (poll_target targets s)
  on_halt : {s : Session W} → Reachable targets w s → Reachable targets w (halt_target targets s)
  on_free :
      {s : Session W} (attached : ℕ → W → Bool) (ts : List ℕ)
      → Reachable targets w s
      → Reachable targets w (free_targets targets attached ts s)
  on_world : {s : Session W} (f : W → W) → Reachable targets w s → Reachable targets w (upon f s)

module _ {W : Type 0} (targets : Targets W) (keeps : Keeps targets) where
  abbrev Kept : Run W → Type 0
  Kept (done i s) = IsTracked s
  Kept _ = Unit

  -- What a packet leaves when it returns.
  returned-IsTracked :
      {s : Session W} {c : ℕ} {i : ℤ} {s' : Session W} (run : Run W)
      → AfterPacket s c run
      → run ≡ done i s'
      → IsTracked s'
  returned-IsTracked run (tracked h) e = subst Kept e h
  returned-IsTracked run (no_target a b) e = absurd (ground arith)
  returned-IsTracked run outside e = absurd (ground arith)

  poll_target-IsTracked : (s : Session W) → IsTracked s → IsTracked (poll_target targets s)
  unfolding poll_target
  poll_target-IsTracked s h =
      option_lem (λ (s' : Session W). IsTracked s') s.cur_target (λ e. h)
        (λ t e.
          (let call = targets.halt_poll t s in polled call.0 call.1 call.2 (keeps.halt_poll t s h)))
    where
      polled :
          (reason : HaltReason) (watch : ℕ) (s' : Session W)
          → IsTracked s'
          → IsTracked (after_reason targets reason watch s')
      polled running watch s' h' = h'
      polled halt_error watch s' h' = h'
      polled request watch s' h' = h'
      polled stepping watch s' h' = h'
      polled breakpoint watch s' h' = h'
      polled watchpoint watch s' h' = h'
      polled fault watch s' h' = h'

  pub Reachable-IsTracked : (w : W) (s : Session W) → Reachable targets w s → IsTracked s
  unfolding gdb_main halt_target
  Reachable-IsTracked w s start = (λ t e. absurd (ground arith), λ t e. absurd (ground arith))
  Reachable-IsTracked w s (on_packet {s = s0} b n size r e) =
      returned-IsTracked (main_loop targets b n size false s0)
        (main_loop-AfterPacket targets keeps b n size false s0 (Reachable-IsTracked w s0 r)) e
  Reachable-IsTracked w s (on_poll {s = s0} r) =
      poll_target-IsTracked s0 (Reachable-IsTracked w s0 r)
  Reachable-IsTracked w s (on_halt {s = s0} r) =
      option_lem (λ (s' : Session W). IsTracked s') s0.cur_target (λ e. Reachable-IsTracked w s0 r)
        (λ t e. Reachable-IsTracked w s0 r)
  Reachable-IsTracked w s (on_free {s = s0} attached ts r) =
      free_targets-IsTracked targets attached ts s0 (Reachable-IsTracked w s0 r)
  Reachable-IsTracked w s (on_world {s = s0} f r) = Reachable-IsTracked w s0 r

  -- Along any steps of the main loop from the start, the session is told of every target that it
  -- points at: when all the targets with a controller are freed, it points at none any more. The
  -- three calls that may free targets by themselves are taken to keep track of them.
  pub free_targets-Reachable :
      (w : W) (s : Session W) (attached : ℕ → W → Bool) (ts : List ℕ)
      → Reachable targets w s
      → ((u : ℕ) → s.controlled u ≡ true → contains u ts ≡ true)
      → ((free_targets targets attached ts s).cur_target ≡ none)
        × ((free_targets targets attached ts s).last_target ≡ none)
  free_targets-Reachable w s attached ts r all =
      free_targets-none targets attached ts s (Reachable-IsTracked w s r) all
