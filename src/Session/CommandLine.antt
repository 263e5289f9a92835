-- ===== src/Session/CommandLine.antt =====
-- gdb_main.c: the command line of a `vRun` packet stays in its buffer.
use blackmagic.Base.{
  ℕ, ◌+◌, ◌<◌, ◌≤◌, Option, none, some, [], ◌∷◌, ◌++◌, map, Bytes, length, subst, true, false, ◌&&◌,
  ◌||◌, leb, ◌==◌, ◌≡◌, refl, sym, ap, ◌∙◌, arith,
}
use blackmagic.Base.{if_lem, ap₂, length-append}
use blackmagic.Hex.{unhex_pair, unhexify}
use blackmagic.Remote.{is_hex}
use blackmagic.Session.Cmdline.{strlen, put_space, put_byte, cmdline_loop}
use blackmagic.Session.Cmdline.{below, empty_line, cmdline}
use blackmagic.Session.CommandStep.{
  no_double_zero, pair_nonzero, NonZero, strlen-NonZero, Written, put_space-Written,
  put_byte-Written, IsLine,
}

-- The end of the loop: a command line that stays in the buffer.
pub Stays : Option Bytes → Type 0
Stays o = (out : Bytes) × (o ≡ some out) × (strlen out ≤ 82) × (length out ≡ 83)

line-Stays : (buf : Bytes) (p : ℕ) → IsLine buf p → Stays (some buf)
unfolding Stays
line-Stays buf p line = (
  buf,
  refl,
  omega (arith, ap strlen line.holds ∙ strlen-NonZero line.text line.behind line.clean, line.size),
  omega (arith, ap length line.holds, length-append line.text (0 ∷ line.behind), line.size),
)

-- What follows a step keeps to the buffer when it does from every line.
then-Stays :
    (o : Option (Bytes × ℕ)) (k : Bytes → ℕ → Option Bytes)
    → Written o
    → ((b : Bytes) (q : ℕ) → IsLine b q → Stays (k b q))
    → Stays (elim o [ none ↦ none | some (b, q) ↦ k b q ])
unfolding Written
then-Stays o k (b, q, e, line) f =
    subst
      (λ (o' : Option (Bytes × ℕ)).
        Stays (elim o' as (λ t. Option Bytes) [ none ↦ none | some (b', q') ↦ k b' q' ]))
      (sym e) (f b q line)

-- Room for a step, from the test of the loop.
line-Written :
    (buf : Bytes) (p x y : ℕ)
    → IsLine buf p
    → leb 83 (strlen buf + 3) ≡ false
    → 0 < x
    → Written (put_space buf p) × Written (put_byte buf p (some (x ∷ y ∷ [])))
line-Written buf p x y line room hx =
    let len : strlen buf ≡ length line.text =
      ap strlen line.holds ∙ strlen-NonZero line.text line.behind line.clean in
    split line.text line.behind line.holds line.at line.clean line.size (ground (arith, len, room))
  where
    split :
        (text behind : Bytes)
        → buf ≡ text ++ (0 ∷ behind)
        → p ≡ length text
        → NonZero text
        → length text + length behind ≡ 82
        → length text ≤ 79
        → Written (put_space buf p) × Written (put_byte buf p (some (x ∷ y ∷ [])))
    split text [] e eq h size le = absurd (omega arith)
    split text (r1 ∷ []) e eq h size le = absurd (omega arith)
    split text (r1 ∷ r2 ∷ []) e eq h size le = absurd (omega arith)
    split text (r1 ∷ r2 ∷ r3 ∷ post) e eq h size le = (
      subst Written (sym (ap₂ put_space e eq)) (put_space-Written text r1 r2 (r3 ∷ post) h size),
      subst Written (sym (ap₂ (λ b q. put_byte b q (some (x ∷ y ∷ []))) e eq))
          (put_byte-Written text x y r1 r2 r3 post h hx size),
    )

unhex_two :
    (c d x : ℕ) (cs tail : Bytes)
    → (y : ℕ) × (unhexify 2 (c ∷ d ∷ (cs ++ (0 ∷ x ∷ tail))) ≡ some (unhex_pair c d ∷ y ∷ []))
unfolding unhexify
unhex_two c d x [] tail = (unhex_pair 0 x, refl)
unhex_two c d x (e ∷ []) tail = (unhex_pair e 0, refl)
unhex_two c d x (e ∷ f ∷ cs) tail = (unhex_pair e f, refl)

-- One round of the loop.
round-Stays :
    (c d : ℕ) (cs buf : Bytes) (p : ℕ)
    → IsLine buf p
    → ((b : Bytes) (q : ℕ) → IsLine b q → Stays (cmdline_loop (d ∷ cs) b q))
    → ((is_hex c && is_hex d) ≡ true
        → (y : ℕ) × (unhexify 2 (c ∷ d ∷ cs) ≡ some (unhex_pair c d ∷ y ∷ []))
          × (0 < unhex_pair c d)
          × ((b : Bytes) (q : ℕ) → IsLine b q → Stays (cmdline_loop cs b q)))
    → Stays (cmdline_loop (c ∷ d ∷ cs) buf p)
unfolding cmdline_loop
round-Stays c d cs buf p line space pair =
    if_lem Stays (c == 0 || leb 83 (strlen buf + 3)) (λ e. line-Stays buf p line)
      (λ e.
        if_lem Stays (c == b';')
          (λ e'.
            then-Stays (put_space buf p) (λ b q. cmdline_loop (d ∷ cs) b q)
              (line-Written buf p 1 0 line (ground (arith, e)) (omega arith)).0 space)
          (λ e'.
            if_lem Stays (is_hex c && is_hex d)
              (λ h.
                (let (y, e2, positive, rest) = pair h in
                  then-Stays (put_byte buf p (unhexify 2 (c ∷ d ∷ cs))) (λ b q. cmdline_loop cs b q)
                    (subst (λ o. Written (put_byte buf p o)) (sym e2)
                      (line-Written buf p (unhex_pair c d) y line (ground (arith, e)) positive).1)
                    rest))
              (λ h. line-Stays buf p line)))

no_double_zero-tail :
    (c : ℕ) (cs : Bytes) → no_double_zero (c ∷ cs) ≡ true → no_double_zero cs ≡ true
no_double_zero-tail c [] h = refl
no_double_zero-tail c (d ∷ cs) h = ground (arith, h)

-- The loop that reads the command line of a `vRun` packet ends without a write outside the buffer
-- of 83 characters, and the command line has at most 82 of them, for every packet text without two
-- zeros behind each other, its NUL, and at least one character that stands behind this in memory.
pub cmdline_loop-Stays :
    (text : Bytes) (x : ℕ) (tail buf : Bytes) (p : ℕ)
    → no_double_zero text ≡ true
    → IsLine buf p
    → Stays (cmdline_loop (text ++ (0 ∷ x ∷ tail)) buf p)
unfolding cmdline_loop
cmdline_loop-Stays [] x tail buf p h line = line-Stays buf p line
cmdline_loop-Stays (c ∷ []) x tail buf p h line =
    round-Stays c 0 (x ∷ tail) buf p line (λ b q l. cmdline_loop-Stays [] x tail b q refl l)
      (λ e. absurd (ground (arith, e)))
cmdline_loop-Stays (c ∷ d ∷ cs) x tail buf p h line =
    round-Stays c d (cs ++ (0 ∷ x ∷ tail)) buf p line
      (λ b q l. cmdline_loop-Stays (d ∷ cs) x tail b q (no_double_zero-tail c (d ∷ cs) h) l)
      (λ e.
        (let (y, e2) = unhex_two c d x cs tail in
          (
            y,
            e2,
            pair_nonzero c d (ground (arith, e)) (ground (arith, e)) (ground (arith, h)),
            λ b q l.
                cmdline_loop-Stays cs x tail b q
                  (no_double_zero-tail d cs (no_double_zero-tail c (d ∷ cs) h)) l,
          )))

start : (uninitialised : ℕ → ℕ) → IsLine (empty_line uninitialised) 0
unfolding NonZero
start uninitialised = record {
  text = [];
  behind = map uninitialised (below 82);
  holds = refl;
  at = refl;
  clean = tt;
  size = refl;
}

-- The command line of a `vRun` packet is read without a write outside its buffer, and has at most 82
-- characters, for every packet text without two zeros behind each other, its NUL, and at least one
-- character that stands behind this in memory.
pub cmdline-Stays :
    (uninitialised : ℕ → ℕ) (text : Bytes) (x : ℕ) (tail : Bytes)
    → no_double_zero text ≡ true
    → Stays (cmdline uninitialised (text ++ (0 ∷ x ∷ tail)))
unfolding cmdline
cmdline-Stays uninitialised [] x tail h =
    cmdline_loop-Stays [] x tail (empty_line uninitialised) 0 refl (start uninitialised)
cmdline-Stays uninitialised (c ∷ text) x tail h =
    if_lem (λ (tok : Bytes). Stays (cmdline_loop tok (empty_line uninitialised) 0)) (c == b';')
      (λ e.
        cmdline_loop-Stays text x tail (empty_line uninitialised) 0 (no_double_zero-tail c text h)
          (start uninitialised))
      (λ e.
        cmdline_loop-Stays (c ∷ text) x tail (empty_line uninitialised) 0 h (start uninitialised))
