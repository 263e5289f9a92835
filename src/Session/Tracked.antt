-- ===== src/Session/Tracked.antt =====
-- gdb_main.c, target/target.c: no variable of the session points at a target that is freed.
use blackmagic.Base.{
  ℕ, ◌-◌, Option, none, some, List, [], ◌∷◌, Bool, true, false, ◌==◌, if◌then◌else◌, ◌≡◌, refl, ap,
  ◌∙◌, arith, inl, inr, Bool-cases,
}
use blackmagic.Base.{if_lem, ==_iff}
use blackmagic.Session.{Session, Targets, upon}
use blackmagic.Session.Attaching.{
  points_at, destroy_callback, set_controller, with_cur, target_attach, attach_nth, target_attach_n,
  free_targets, handle_kill_target,
}

-- The targets that the session points at have it as their controller, so that it is told when they
-- are freed.
abbrev pub IsTracked : {W : Type 0} → Session W → Type 0
IsTracked s =
    ((t : ℕ) → points_at s.cur_target t ≡ true → s.controlled t ≡ true)
    × ((t : ℕ) → points_at s.last_target t ≡ true → s.controlled t ≡ true)

-- Cases of an optional value, with what they say of it.
pub option_lem {ℓ} :
    {A : Type 0} {B : Type 0} (P : B → Type ℓ) (o : Option A) {n : B} {f : A → B}
    → (o ≡ none → P n)
    → ((a : A) → o ≡ some a → P (f a))
    → P (elim o [ none ↦ n | some a ↦ f a ])
option_lem P none hn hs = hn refl
option_lem P (some a) hn hs = hs a refl

module _ {W : Type 0} where
  -- The callback leaves no variable that points at the target.
  pub destroy_callback-gone :
      (t : ℕ) (s : Session W)
      → (points_at (destroy_callback t s).cur_target t ≡ false)
        × (points_at (destroy_callback t s).last_target t ≡ false)
  unfolding destroy_callback
  destroy_callback-gone t s =
      let P : Session W → Type 0 =
        λ s'. (points_at s'.cur_target t ≡ false) × (points_at s'.last_target t ≡ false) in
      if_lem
        (λ (s1 : Session W).
          P (if points_at s1.last_target t then record s1 { last_target = none } else s1))
        (points_at s.cur_target t)
        (λ e. if_lem P (points_at s.last_target t) (λ e'. (refl, refl)) (λ e'. (refl, e')))
        (λ e. if_lem P (points_at s.last_target t) (λ e'. (e, refl)) (λ e'. (e, e')))

  pub destroy_callback-IsTracked :
      (t : ℕ) (s : Session W) → IsTracked s → IsTracked (destroy_callback t s)
  unfolding destroy_callback
  destroy_callback-IsTracked t s (cur, last) =
      let P : Session W → Type 0 = IsTracked in
      let none_points : (h : ℕ) → points_at none h ≡ true → s.controlled h ≡ true =
        λ h e. absurd (ground arith) in
      if_lem
        (λ (s1 : Session W).
          P (if points_at s1.last_target t then record s1 { last_target = none } else s1))
        (points_at s.cur_target t)
        (λ e.
          if_lem P (points_at s.last_target t) (λ e'. (none_points, none_points))
            (λ e'. (none_points, last)))
        (λ e. if_lem P (points_at s.last_target t) (λ e'. (cur, none_points)) (λ e'. (cur, last)))

  -- The callback leaves the controllers of the targets.
  pub destroy_callback-controlled :
      (t : ℕ) (s : Session W) → (destroy_callback t s).controlled ≡ s.controlled
  unfolding destroy_callback
  destroy_callback-controlled t s =
      let P : Session W → Type 0 = λ s'. s'.controlled ≡ s.controlled in
      if_lem
        (λ (s1 : Session W).
          P (if points_at s1.last_target t then record s1 { last_target = none } else s1))
        (points_at s.cur_target t)
        (λ e. if_lem P (points_at s.last_target t) (λ e'. refl) (λ e'. refl))
        (λ e. if_lem P (points_at s.last_target t) (λ e'. refl) (λ e'. refl))

  take_control : (t : ℕ) (s : Session W) → IsTracked s → IsTracked (set_controller true t s)
  take_control t s (cur, last) = (
    λ h e. if_lem (λ b. b ≡ true) (h == t) (λ e'. refl) (λ e'. cur h e),
    λ h e. if_lem (λ b. b ≡ true) (h == t) (λ e'. refl) (λ e'. last h e),
  )

-- Only one handle at a time is pointed at.
differ :
    (o : Option ℕ) (t u : ℕ) → (u == t) ≡ true → points_at o t ≡ false → points_at o u ≡ true → ⊥
differ o t u same away is_u = ground (arith, (==_iff u t).0 same)

not_pointed :
    (o : Option ℕ) (t : ℕ) (c : Bool)
    → c ≡ false
    → (points_at o t ≡ true → c ≡ true)
    → points_at o t ≡ false
not_pointed o t c e f = elim (Bool-cases (points_at o t)) [
  | inl at ↦ absurd (ground (arith, f at))
  | inr away ↦ away
]

module _ {W : Type 0} (targets : Targets W) where
  -- An attached target has the session as its controller.
  pub target_attach-IsTracked :
      (t : ℕ) (s : Session W)
      → IsTracked s
      → IsTracked (target_attach targets t s).1 × IsTracked (with_cur (target_attach targets t s))
  unfolding target_attach
  target_attach-IsTracked t s h =
      let P : Option ℕ × Session W → Type 0 = λ r. IsTracked r.1 × IsTracked (with_cur r) in
      let s1 : Session W = if s.controlled t then destroy_callback t s else s in
      let tracked1 : IsTracked s1 =
        if_lem (λ (s' : Session W). IsTracked s') (s.controlled t)
          (λ e. destroy_callback-IsTracked t s h) (λ e. h) in
      let tracked2 : IsTracked (set_controller true t s1) = take_control t s1 tracked1 in
      let call = targets.attach t (targets.clk_output_enable true s1.world) in
      if_lem P call.0 (λ e. (tracked2, ((λ u e'. own t u s1 e'), tracked2.1)))
        (λ e. (tracked2, ((λ u e'. absurd (ground arith)), tracked2.1)))
    where
      own :
          (t u : ℕ) (s1 : Session W)
          → points_at (some t) u ≡ true
          → (if u == t then true else s1.controlled u) ≡ true
      own t u s1 e = ground arith

  pub attach_nth-IsTracked :
      (n : ℕ) (ts : List ℕ) (s : Session W)
      → IsTracked s
      → IsTracked (with_cur (attach_nth targets n ts s))
  unfolding attach_nth
  attach_nth-IsTracked n [] s (cur, last) = (λ u e. absurd (ground arith), last)
  attach_nth-IsTracked n (t ∷ ts) s h =
      let P : Option ℕ × Session W → Type 0 = λ r. IsTracked (with_cur r) in
      if_lem P (n == 1) (λ e. (target_attach-IsTracked t s h).1)
        (λ e.
          if_lem P (n == 0) (λ e'. (λ u e''. absurd (ground arith), h.1))
            (λ e'. attach_nth-IsTracked (n - 1) ts s h))

  pub target_attach_n-IsTracked :
      (n : ℕ) (s : Session W) → IsTracked s → IsTracked (with_cur (target_attach_n targets n s))
  unfolding target_attach_n
  target_attach_n-IsTracked n s h = attach_nth-IsTracked n (targets.target_list s.world) s h

  -- What a target is let go as: the last one.
  pub let_go :
      (t : ℕ) (s s' : Session W)
      → s.cur_target ≡ some t
      → IsTracked s
      → s'.controlled ≡ s.controlled
      → IsTracked (record s' { cur_target = none; last_target = some t })
  let_go t s s' e (cur, last) same = (
    λ u e'. absurd (ground arith),
    λ u e'. ap (λ f. f u) same ∙ cur u (ap (λ o. points_at o u) e ∙ e'),
  )

  pub handle_kill_target-IsTracked :
      (s : Session W) → IsTracked s → IsTracked (handle_kill_target targets s)
  unfolding handle_kill_target
  handle_kill_target-IsTracked s h =
      option_lem (λ (s' : Session W). IsTracked s') s.cur_target (λ e. h)
        (λ t e. let_go t s s e h refl)

  release :
      (t : ℕ) (s : Session W)
      → IsTracked s
      → points_at s.cur_target t ≡ false
      → points_at s.last_target t ≡ false
      → IsTracked (set_controller false t s)
  release t s (cur, last) no_cur no_last = (
    λ u e.
        if_lem (λ b. b ≡ true) (u == t) (λ e'. absurd (differ s.cur_target t u e' no_cur e))
          (λ e'. cur u e),
    λ u e.
        if_lem (λ b. b ≡ true) (u == t) (λ e'. absurd (differ s.last_target t u e' no_last e))
          (λ e'. last u e),
  )

  free_one :
      (t : ℕ) (s : Session W)
      → IsTracked s
      → IsTracked (set_controller false t (if s.controlled t then destroy_callback t s else s))
  free_one t s h =
      if_lem (λ (s' : Session W). IsTracked (set_controller false t s')) (s.controlled t)
        (λ e.
          (let (no_cur, no_last) = destroy_callback-gone t s in
            release t (destroy_callback t s) (destroy_callback-IsTracked t s h) no_cur no_last))
        (λ e.
          release t s h (not_pointed s.cur_target t (s.controlled t) e (h.0 t))
            (not_pointed s.last_target t (s.controlled t) e (h.1 t)))

  -- `target_list_free` keeps the invariant and leaves none of its targets with a controller.
  pub free_targets-IsTracked :
      (attached : ℕ → W → Bool) (ts : List ℕ) (s : Session W)
      → IsTracked s
      → IsTracked (free_targets targets attached ts s)
  unfolding free_targets
  free_targets-IsTracked attached [] s h = h
  free_targets-IsTracked attached (t ∷ ts) s h =
      let s1 : Session W = if attached t s.world then upon (targets.detach t) s else s in
      let h1 : IsTracked s1 =
        if_lem (λ (s' : Session W). IsTracked s') (attached t s.world) (λ e. h) (λ e. h) in
      free_targets-IsTracked attached ts
        (set_controller false t (if s1.controlled t then destroy_callback t s1 else s1))
        (free_one t s1 h1)
