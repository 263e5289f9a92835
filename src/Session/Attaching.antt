-- ===== src/Session/Attaching.antt =====
-- gdb_main.c, target/target.c: how targets come to the session and leave it.
use blackmagic.Base.{
  ℕ, ◌-◌, Option, none, some, List, [], ◌∷◌, ◌++◌, Bool, true, false, ◌==◌, if◌then◌else◌,
}
use blackmagic.Session.{Session, notification, console, Targets, codes, upon}

-- Whether a variable points at a target.
abbrev pub points_at : Option ℕ → ℕ → Bool
points_at none t = false
points_at (some h) t = h == t

module _ {W : Type 0} where
  -- `cur_target = target_attach...` from what the call gives.
  abbrev pub with_cur : Option ℕ × Session W → Session W
  with_cur r = record r.1 { cur_target = r.0 }

  -- `gdb_target_destroy_callback`.
  unfoldable pub destroy_callback : ℕ → Session W → Session W
  destroy_callback t s =
      let s1 =
        if points_at s.cur_target t
        then record s {
          out =
              s.out
              ++ (notification (codes "%Stop:W00")
                  ∷ console (codes "You are now detached from the previous target.\n")
                  ∷ []);
          cur_target = none;
          detach_notify = true;
        }
        else s in
      if points_at s1.last_target t then record s1 { last_target = none } else s1

  -- `t->tc = tc`.
  abbrev pub set_controller : Bool → ℕ → Session W → Session W
  set_controller c t s = record s { controlled = λ h. if h == t then c else s.controlled h }

module _ {W : Type 0} (targets : Targets W) where
  -- `target_attach` with the controller of the session: the target, or `none` for NULL.
  unfoldable pub target_attach : ℕ → Session W → Option ℕ × Session W
  unfolding destroy_callback
  target_attach t s =
      let s1 = if s.controlled t then destroy_callback t s else s in
      let s2 = upon (targets.clk_output_enable true) (set_controller true t s1) in
      let (attached, w) = targets.attach t s2.world in
      if attached
      then (some t, record s2 { world = w })
      else (none, record s2 { world = targets.clk_output_enable false w })

  -- The loop of `target_attach_n`, which counts from 1.
  unfoldable pub attach_nth : ℕ → List ℕ → Session W → Option ℕ × Session W
  unfolding target_attach
  attach_nth n [] s = (none, s)
  attach_nth n (t ∷ ts) s =
      let rest = attach_nth (n - 1) ts s in
      if n == 1 then target_attach t s else if n == 0 then (none, s) else rest

  -- `target_attach_n`.
  unfoldable pub target_attach_n : ℕ → Session W → Option ℕ × Session W
  unfolding attach_nth
  target_attach_n n s = attach_nth n (targets.target_list s.world) s

  -- `target_list_free`, as far as the session sees it: the targets are detached and announced, and
  -- their memory is given back.
  unfoldable pub free_targets : (ℕ → W → Bool) → List ℕ → Session W → Session W
  unfolding destroy_callback
  free_targets attached [] s = s
  free_targets attached (t ∷ ts) s =
      let s1 = if attached t s.world then upon (targets.detach t) s else s in
      let s2 = if s1.controlled t then destroy_callback t s1 else s1 in
      free_targets attached ts (set_controller false t s2)

  -- `handle_kill_target`.
  unfoldable pub handle_kill_target : Session W → Session W
  handle_kill_target s = elim s.cur_target [
    | none ↦ s
    | some t ↦ record s {
      world = targets.detach t (targets.reset t s.world);
      last_target = some t;
      cur_target = none;
    }
  ]
