-- ===== src/Session/Release.antt =====
-- target/target.c, gdb_main.c: the session when all targets are freed.
use blackmagic.Base.{
  ℕ, Option, none, some, List, [], ◌∷◌, Bool, true, false, ◌||◌, ◌==◌, if◌then◌else◌, ◌≡◌, refl,
  sym, ap, ◌∙◌, arith,
}
use blackmagic.Base.{if_lem}
use blackmagic.Session.{Session, Targets, upon}
use blackmagic.Session.Attaching.{points_at, destroy_callback, set_controller, free_targets}
use blackmagic.Session.Tracked.{IsTracked, destroy_callback-controlled, free_targets-IsTracked}

-- Whether a target is in a list of targets.
abbrev pub contains : ℕ → List ℕ → Bool
contains u [] = false
contains u (t ∷ ts) = u == t || contains u ts

module _ {W : Type 0} (targets : Targets W) where
  -- The controllers behind one target.
  after_one :
      (c : Bool) (t u : ℕ) (s : Session W)
      → (if u == t then false else (if c then destroy_callback t s else s).controlled u)
        ≡ (if u == t then false else s.controlled u)
  after_one c t u s =
      ap (λ (b : Bool). if u == t then false else b)
        (if_lem (λ (s' : Session W). s'.controlled u ≡ s.controlled u) c
          (λ e. ap (λ f. f u) (destroy_callback-controlled t s)) (λ e. refl))

  remaining :
      (c : Bool) (t u : ℕ) (ts : List ℕ)
      → (c ≡ true → contains u (t ∷ ts) ≡ true)
      → (if u == t then false else c) ≡ true
      → contains u ts ≡ true
  remaining c t u ts h e = ground (arith, h)

  free_targets-controlled :
      (attached : ℕ → W → Bool) (ts : List ℕ) (s : Session W)
      → ((u : ℕ) → s.controlled u ≡ true → contains u ts ≡ true)
      → (u : ℕ) → (free_targets targets attached ts s).controlled u ≡ true
      → ⊥
  unfolding free_targets
  free_targets-controlled attached [] s h u e = absurd (ground (arith, h u e))
  free_targets-controlled attached (t ∷ ts) s h u e =
      let s1 : Session W = if attached t s.world then upon (targets.detach t) s else s in
      let same : (v : ℕ) → s1.controlled v ≡ s.controlled v = λ v.
        if_lem (λ (s' : Session W). s'.controlled v ≡ s.controlled v) (attached t s.world)
          (λ e'. refl) (λ e'. refl) in
      free_targets-controlled attached ts
        (set_controller false t (if s1.controlled t then destroy_callback t s1 else s1))
        (λ v c. remaining (s.controlled v) t v ts (h v) (
          sym (
            after_one (s1.controlled t) t v s1
            ∙ ap (λ (b : Bool). if v == t then false else b) (same v))
          ∙ c))
        u e

  -- When all targets are freed that have the session as their controller, the session points at no
  -- target any more, neither as the current nor as the last one.
  pub free_targets-none :
      (attached : ℕ → W → Bool) (ts : List ℕ) (s : Session W)
      → IsTracked s
      → ((u : ℕ) → s.controlled u ≡ true → contains u ts ≡ true)
      → ((free_targets targets attached ts s).cur_target ≡ none)
        × ((free_targets targets attached ts s).last_target ≡ none)
  free_targets-none attached ts s h all =
      let s' = free_targets targets attached ts s in
      let (cur, last) = free_targets-IsTracked targets attached ts s h in
      (
        unpointed s'.cur_target (λ t e. free_targets-controlled attached ts s all t (cur t e)),
        unpointed s'.last_target (λ t e. free_targets-controlled attached ts s all t (last t e)),
      )
    where
      unpointed : (o : Option ℕ) → ((t : ℕ) → points_at o t ≡ true → ⊥) → o ≡ none
      unpointed none f = refl
      unpointed (some t) f = absurd (f t (ground arith))
