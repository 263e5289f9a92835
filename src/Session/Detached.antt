-- ===== src/Session/Detached.antt =====
-- gdb_main.c: the packets without a target, and the poll of a target that runs.
use blackmagic.Base.{ℕ, none, some, Bytes, get_or, Bool, true, ◌||◌, ◌==◌, ◌≡◌, ap, arith}
use blackmagic.Base.{if_lem}
use blackmagic.Session.{Session, Run, Targets, codes, put, return_zero}
use blackmagic.Session.Loop.{main_loop, optional_packet, if_target}

-- The packets of registers, memory and breakpoints.
abbrev pub is_access : ℕ → Bool
is_access c =
    c == b'g'
    || c == b'm'
    || c == b'G'
    || c == b'M'
    || c == b'p'
    || c == b'P'
    || c == b'X'
    || c == b'Z'
    || c == b'z'

module _ {W : Type 0} (targets : Targets W) where
  refused :
      (s : Session W) (k : ℕ → Run W)
      → s.cur_target ≡ none
      → if_target targets s k ≡ return_zero (put (codes "EFF") s)
  refused s k e =
      ap (λ o. elim o as (λ x. Run W) [ none ↦ return_zero (put (codes "EFF") s) | some t ↦ k t ]) e

  optional_packet-is_access :
      (b : Bytes) (size : ℕ) (in_syscall : Bool) (s : Session W)
      → s.cur_target ≡ none
      → (let c = get_or b 0 0 in c == b'p' || c == b'P' || c == b'X' || c == b'Z' || c == b'z')
        ≡ true
      → optional_packet targets b size in_syscall s ≡ return_zero (put (codes "EFF") s)
  unfolding optional_packet
  optional_packet-is_access b size in_syscall s e h =
      let c = get_or b 0 0 in
      let P : Run W → Type 0 = λ r. r ≡ return_zero (put (codes "EFF") s) in
      if_lem P (c == b'p') (λ e0. refused s _ e)
        (λ e0.
          if_lem P (c == b'P') (λ e1. refused s _ e)
            (λ e1.
              if_lem P (c == b'F') (λ e2. absurd (ground (arith, h, e2)))
                (λ e2.
                  if_lem P (c == b'!') (λ e3. absurd (ground (arith, h, e3)))
                    (λ e3.
                      if_lem P (c == 4 || c == b'D') (λ e4. absurd (ground (arith, h, e4)))
                        (λ e4.
                          if_lem P (c == b'k') (λ e5. absurd (ground (arith, h, e5)))
                            (λ e5.
                              if_lem P (c == b'r' || c == b'R')
                                (λ e6. absurd (ground (arith, h, e6)))
                                (λ e6.
                                  if_lem P (c == b'X') (λ e7. refused s _ e)
                                    (λ e7.
                                      if_lem P (c == b'q') (λ e8. absurd (ground (arith, h, e8)))
                                        (λ e8.
                                          if_lem P (c == b'v')
                                            (λ e9. absurd (ground (arith, h, e9)))
                                            (λ e9.
                                              if_lem P (c == b'Z' || c == b'z')
                                                (λ e10. refused s _ e)
                                                (λ e10. absurd (ground (arith, h)))))))))))))

  -- Without a target every packet of registers, memory and breakpoints is answered by `EFF`, and
  -- nothing else changes.
  pub main_loop-is_access :
      (b : Bytes) (n size : ℕ) (in_syscall : Bool) (s : Session W)
      → s.cur_target ≡ none
      → is_access (get_or b 0 0) ≡ true
      → main_loop targets b n size in_syscall s ≡ return_zero (put (codes "EFF") s)
  unfolding main_loop
  main_loop-is_access b n size in_syscall s e h =
      let c = get_or b 0 0 in
      let P : Run W → Type 0 = λ r. r ≡ return_zero (put (codes "EFF") s) in
      if_lem P (c == b'g') (λ e0. refused s _ e)
        (λ e0.
          if_lem P (c == b'm') (λ e1. refused s _ e)
            (λ e1.
              if_lem P (c == b'G') (λ e2. refused s _ e)
                (λ e2.
                  if_lem P (c == b'M') (λ e3. refused s _ e)
                    (λ e3.
                      if_lem P (c == b'H') (λ e4. absurd (ground (arith, h, e4)))
                        (λ e4.
                          if_lem P (c == b's' || c == b'c' || c == b'C')
                            (λ e5. absurd (ground (arith, h, e5)))
                            (λ e5.
                              if_lem P (c == b'?') (λ e6. absurd (ground (arith, h, e6)))
                                (λ e6.
                                  optional_packet-is_access b size in_syscall s e
                                    (ground (arith, h)))))))))
