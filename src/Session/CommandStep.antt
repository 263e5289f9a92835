-- ===== src/Session/CommandStep.antt =====
-- gdb_main.c: one step of the command line of a `vRun` packet, in its buffer.
use blackmagic.Base.{
  ℕ, zero, suc, ◌+◌, ◌-◌, ◌*◌, ◌%◌, ◌^◌, ◌<◌, ◌≤◌, bit_or, Option, none, some, [], ◌∷◌, ◌++◌,
  append_assoc, Bytes, length, set, All, subst, Bool, true, false, not, ◌&&◌, ◌||◌, leb, ◌==◌,
  if◌then◌else◌, ◌≡◌, refl, sym, ap, ◌∙◌, arith,
}
use blackmagic.Base.{if_lem, ap₂, agree, agree-below, length-append, write_at}
use blackmagic.Base.Words.{bit_or_fields}
use blackmagic.Hex.{unhex_digit, unhex_pair}
use blackmagic.Remote.{is_hex}
use blackmagic.Session.Cmdline.{strlen, write_in, put_space, put_byte}

-- No two zeros stand behind each other.
abbrev pub no_double_zero : Bytes → Bool
no_double_zero [] = true
no_double_zero (c ∷ []) = true
no_double_zero (c ∷ d ∷ cs) = not (c == b'0' && d == b'0') && no_double_zero (d ∷ cs)

digit_value : ℕ → ℕ
digit_value c =
    if is_hex c
    then (if leb c b'9' then c - b'0' else if leb c b'F' then c - b'A' + 10 else c - b'a' + 10)
    else 0

digits_agree : agree (λ c. if is_hex c then unhex_digit c else 0) digit_value 103 ≡ true
unfolding agree unhex_digit digit_value
digits_agree = refl

unhex_digit-value :
    (c : ℕ) → is_hex c ≡ true → (unhex_digit c < 16) × (unhex_digit c ≡ 0 → c ≡ b'0')
unfolding digit_value
unhex_digit-value c h =
    let e =
      agree-below (λ c'. if is_hex c' then unhex_digit c' else 0) digit_value 103 c (ground arith)
        digits_agree in
    let e' : unhex_digit c ≡ digit_value c =
      sym (
        if_lem (λ t. t ≡ unhex_digit c) (is_hex c) (λ g. refl) (λ g. absurd (ground (arith, g, h))))
      ∙ e in
    (ground (arith, e', h), λ z. ground (arith, e', h, z))

-- Two digits that are not never_ends zero are not the byte 0.
pub pair_nonzero :
    (c d : ℕ)
    → is_hex c ≡ true
    → is_hex d ≡ true
    → not (c == b'0' && d == b'0') ≡ true
    → 0 < unhex_pair c d
pair_nonzero c d hc hd h =
    let (lc, zc) = unhex_digit-value c hc in
    let (ld, zd) = unhex_digit-value d hd in
    let fields = bit_or_fields 4 (unhex_digit c) (unhex_digit d) (omega arith) in
    nonzero (unhex_digit c) (unhex_digit d) c d (bit_or (unhex_digit c * 2 ^ 4) (unhex_digit d)) lc
      ld zc zd h fields
  where
    nonzero :
        (a b c d x : ℕ)
        → a < 16
        → b < 16
        → (a ≡ 0 → c ≡ b'0')
        → (b ≡ 0 → d ≡ b'0')
        → not (c == b'0' && d == b'0') ≡ true
        → x ≡ a * 2 ^ 4 + b
        → 0 < x % 256
    nonzero zero zero c d x la lb fa fb h e = absurd (ground (arith, fa refl, fb refl, h))
    nonzero zero (suc b) c d x la lb fa fb h e = omega arith
    nonzero (suc a) b c d x la lb fa fb h e = omega arith

unfoldable pub NonZero : Bytes → Type 0
NonZero xs = All (λ c. 0 < c) xs

NonZero-append : (xs ys : Bytes) → NonZero xs → NonZero ys → NonZero (xs ++ ys)
unfolding NonZero
NonZero-append [] ys hx hy = hy
NonZero-append (x ∷ xs) ys (h, hx) hy = (h, NonZero-append xs ys hx hy)

pub strlen-NonZero : (pre post : Bytes) → NonZero pre → strlen (pre ++ (0 ∷ post)) ≡ length pre
unfolding strlen NonZero
strlen-NonZero [] post h = refl
strlen-NonZero (c ∷ pre) post (hc, h) =
    if_lem (λ (n : ℕ). n ≡ suc (length pre)) (c == 0) (λ e. absurd (ground arith))
      (λ e. ap suc (strlen-NonZero pre post h))

write_at-suc : (x i : ℕ) (xs src : Bytes) → write_at (x ∷ xs) (suc i) src ≡ x ∷ write_at xs i src
write_at-suc x i xs [] = refl
write_at-suc x i xs (b ∷ src) = write_at-suc x (suc i) (set xs i b) src

write_at-behind :
    (pre rest src : Bytes) → write_at (pre ++ rest) (length pre) src ≡ pre ++ write_at rest 0 src
write_at-behind [] rest src = refl
write_at-behind (x ∷ pre) rest src =
    write_at-suc x (length pre) (pre ++ rest) src ∙ ap (λ t. x ∷ t) (write_at-behind pre rest src)

-- A write behind a text that leaves room for it.
write_in-behind :
    (pre rest src : Bytes)
    → length src ≤ length rest
    → write_in (pre ++ rest) (length pre) src ≡ some (pre ++ write_at rest 0 src)
write_in-behind pre rest src h =
    if_lem (λ (o : Option Bytes). o ≡ some (pre ++ write_at rest 0 src))
      (leb (length pre + length src) (length (pre ++ rest)))
      (λ e. ap (λ t. some t) (write_at-behind pre rest src))
      (λ e. absurd (ground (arith, length-append pre rest, h, e)))

-- The buffer of 83 characters holds a text and a NUL at the position.
pub record IsLine (buf : Bytes) (p : ℕ) : Type 0 where
  pub text : Bytes
  pub behind : Bytes
  pub holds : buf ≡ text ++ (0 ∷ behind)
  pub at : p ≡ length text
  pub clean : NonZero text
  pub size : length text + length behind ≡ 82

-- What a step leaves.
unfoldable pub Written : Option (Bytes × ℕ) → Type 0
Written o = (b : Bytes) × (q : ℕ) × (o ≡ some (b, q)) × IsLine b q

pub put_space-Written :
    (text : Bytes) (r1 r2 : ℕ) (post : Bytes)
    → NonZero text
    → length text + length (r1 ∷ r2 ∷ post) ≡ 82
    → Written (put_space (text ++ (0 ∷ r1 ∷ r2 ∷ post)) (length text))
unfolding Written NonZero
put_space-Written text r1 r2 post h size =
    let next : Option Bytes → Option (Bytes × ℕ) =
      λ o. elim o [ none ↦ none | some b ↦ some (b, length text + 1) ] in
    let out = text ++ (b' ' ∷ 0 ∷ r2 ∷ post) in
    (
      out,
      length text + 1,
      ap next (write_in-behind text (0 ∷ r1 ∷ r2 ∷ post) (b' ' ∷ 0 ∷ []) (omega arith)),
      record {
        text = text ++ (b' ' ∷ []);
        behind = r2 ∷ post;
        holds = sym (append_assoc text (b' ' ∷ []) (0 ∷ r2 ∷ post));
        at = sym (length-append text (b' ' ∷ []));
        clean = NonZero-append text (b' ' ∷ []) h (omega arith, tt);
        size = omega (arith, length-append text (b' ' ∷ []));
      },
    )

-- The end of `put_byte`, once the two bytes are in the buffer.
abbrev finish_byte : Bytes → ℕ → ℕ → Bool → Option (Bytes × ℕ)
finish_byte b p x escape =
    let b1 : Bytes = if escape then write_at b p (b'\\' ∷ x ∷ []) else b in
    let q = if escape then p + 2 else p + 1 in
    elim (write_in b1 q (0 ∷ [])) [ none ↦ none | some b2 ↦ some (b2, q) ]

end_line :
    (text more : Bytes) (r : ℕ) (post b : Bytes) (q : ℕ)
    → NonZero text
    → NonZero more
    → length text + length more + length post ≡ 82
    → b ≡ text ++ (more ++ (r ∷ post))
    → q ≡ length text + length more
    → Written (elim (write_in b q (0 ∷ [])) [ none ↦ none | some b2 ↦ some (b2, q) ])
unfolding Written
end_line text more r post b q h hm size e eq =
    let next : Option Bytes → Option (Bytes × ℕ) =
      λ o. elim o [ none ↦ none | some b2 ↦ some (b2, q) ] in
    let joined : b ≡ (text ++ more) ++ (r ∷ post) = e ∙ sym (append_assoc text more (r ∷ post)) in
    let place : q ≡ length (text ++ more) = eq ∙ sym (length-append text more) in
    (
      (text ++ more) ++ (0 ∷ post),
      q,
      ap next (
          ap₂ (λ xs i. write_in xs i (0 ∷ [])) joined place
          ∙ write_in-behind (text ++ more) (r ∷ post) (0 ∷ []) (omega arith)),
      record {
        text = text ++ more;
        behind = post;
        holds = refl;
        at = place;
        clean = NonZero-append text more h hm;
        size = omega (arith, length-append text more);
      },
    )

finish_byte-Written :
    (text : Bytes) (x y r2 r3 : ℕ) (post : Bytes) (escape : Bool)
    → NonZero text
    → 0 < x
    → length text + length (y ∷ r2 ∷ r3 ∷ post) ≡ 82
    → Written (finish_byte (text ++ (x ∷ y ∷ r2 ∷ r3 ∷ post)) (length text) x escape)
unfolding NonZero
finish_byte-Written text x y r2 r3 post true h hx size =
    let b0 = text ++ (x ∷ y ∷ r2 ∷ r3 ∷ post) in
    end_line text (b'\\' ∷ x ∷ []) r2 (r3 ∷ post) (write_at b0 (length text) (b'\\' ∷ x ∷ []))
      (length text + 2) h (omega arith, (hx, tt)) (omega arith)
      (write_at-behind text (x ∷ y ∷ r2 ∷ r3 ∷ post) (b'\\' ∷ x ∷ [])) (omega arith)
finish_byte-Written text x y r2 r3 post false h hx size =
    end_line text (x ∷ []) y (r2 ∷ r3 ∷ post) (text ++ (x ∷ y ∷ r2 ∷ r3 ∷ post)) (length text + 1) h
      (hx, tt) (omega arith) refl (omega arith)

pub put_byte-Written :
    (text : Bytes) (x y r1 r2 r3 : ℕ) (post : Bytes)
    → NonZero text
    → 0 < x
    → length text + length (r1 ∷ r2 ∷ r3 ∷ post) ≡ 82
    → Written (put_byte (text ++ (0 ∷ r1 ∷ r2 ∷ r3 ∷ post)) (length text) (some (x ∷ y ∷ [])))
put_byte-Written text x y r1 r2 r3 post h hx size =
    let next : Option Bytes → Option (Bytes × ℕ) = λ o. elim o [
      | none ↦ none
      | some b ↦ finish_byte b (length text) x (x == b' ' || x == b'\\')
    ] in
    subst Written
      (sym (ap next (write_in-behind text (0 ∷ r1 ∷ r2 ∷ r3 ∷ post) (x ∷ y ∷ []) (omega arith))))
      (finish_byte-Written text x y r2 r3 post (x == b' ' || x == b'\\') h hx (omega arith))
