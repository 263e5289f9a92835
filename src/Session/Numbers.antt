-- ===== src/Session/Numbers.antt =====
-- gdb_main.c: a number in hexadecimal digits, as `sscanf` reads it.
use blackmagic.Base.{
  ℕ, zero, suc, ◌+◌, ◌-◌, ◌*◌, ◌/◌, ◌%◌, ◌^◌, ◌<◌, ◌≤◌, Option, none, some, [], ◌∷◌, ◌++◌, Bytes,
  length, subst, Bool, true, false, not, ◌||◌, ltb, ◌==◌, if◌then◌else◌, ◌≡◌, ◌≢◌, refl, sym, ap,
  ◌∙◌, arith,
}
use blackmagic.Base.{if_lem, ltb→lt, length-append}
use native.Mathlib.Nat.{pow-suc}
use blackmagic.Base.Words.{u32}
use blackmagic.Remote.{is_hex}
use blackmagic.Session.Scanf.{
  digit_of, digits, behind_0x, behind_sign, scan_number, skip_spaces, or_else,
}
use blackmagic.Session.Queries.{digit_char, lower_hex}

-- The value of a digit.
abbrev pub dig : ℕ → ℕ
dig c = or_else 0 (digit_of 16 c)

-- The number that digits stand for, behind a number.
abbrev pub hex_of : ℕ → Bytes → ℕ
hex_of acc [] = acc
hex_of acc (c ∷ cs) = hex_of (acc * 16 + dig c) cs

digit_of-dig : (c : ℕ) → is_hex c ≡ true → digit_of 16 c ≡ some (dig c)
digit_of-dig c h = ground arith

dig-digit : (d : ℕ) → d < 16 → dig (digit_char d) ≡ d
dig-digit d h = ground arith

is_hex-digit : (d : ℕ) → d < 16 → is_hex (digit_char d) ≡ true
is_hex-digit d h = ground arith

hex_of-append : (acc : ℕ) (xs ys : Bytes) → hex_of acc (xs ++ ys) ≡ hex_of (hex_of acc xs) ys
hex_of-append acc [] ys = refl
hex_of-append acc (x ∷ xs) ys = hex_of-append (acc * 16 + dig x) xs ys

-- A text of digits only.
abbrev pub AllHex : Bytes → Type 0
AllHex [] = Unit
AllHex (c ∷ cs) = (is_hex c ≡ true) × AllHex cs

AllHex-append : (xs : Bytes) (c : ℕ) → AllHex xs → is_hex c ≡ true → AllHex (xs ++ (c ∷ []))
AllHex-append [] c h hc = (hc, tt)
AllHex-append (x ∷ xs) c (hx, h) hc = (hx, AllHex-append xs c h hc)

lower_hex-AllHex : (k n : ℕ) → AllHex (lower_hex k n)
unfolding lower_hex
lower_hex-AllHex zero n = tt
lower_hex-AllHex (suc k) n =
    let c_hex = is_hex-digit (n % 16) (omega arith) in
    if_lem AllHex (ltb n 16) (λ e. (c_hex, tt))
      (λ e. AllHex-append _ _ (lower_hex-AllHex k (n / 16)) c_hex)

hex_of-lower_hex : (k n : ℕ) → n < 16 ^ k → hex_of 0 (lower_hex k n) ≡ n
unfolding lower_hex
hex_of-lower_hex zero n h = omega arith
hex_of-lower_hex (suc k) n h =
    let P : Bytes → Type 0 = λ xs. hex_of 0 xs ≡ n in
    let last : dig (digit_char (n % 16)) ≡ n % 16 = dig-digit (n % 16) (omega arith) in
    if_lem P (ltb n 16) (λ e. (let lt : n < 16 = ltb→lt n 16 e in omega (arith, last)))
      (λ e.
        hex_of-append 0 (lower_hex k (n / 16)) (digit_char (n % 16) ∷ [])
        ∙ (let high = hex_of-lower_hex k (n / 16) (omega (arith, pow-suc 16 k)) in
            omega (arith, last, high)))

length-lower_hex : (k n : ℕ) → length (lower_hex k n) ≤ k
unfolding lower_hex
length-lower_hex zero n = omega arith
length-lower_hex (suc k) n =
    if_lem (λ (xs : Bytes). length xs ≤ suc k) (ltb n 16) (λ e. omega arith)
      (λ e. omega (
        arith,
        length-append (lower_hex k (n / 16)) (digit_char (n % 16) ∷ []),
        length-lower_hex k (n / 16),
      ))

-- The conversion takes the digits that there are, when what follows is none.
abbrev pub Stops : Bytes → Type 0
Stops [] = Unit
Stops (c ∷ cs) = (digit_of 16 c ≡ none) × (c ≢ b'x') × (c ≢ b'X')

digits-Stops :
    (rest : Bytes) (w acc : ℕ) (any : Bool)
    → Stops rest
    → digits 16 w any acc rest ≡ (any || false, acc, rest)
unfolding digits
digits-Stops rest zero acc any stop = ap (λ b. (b, acc, rest)) (ground arith)
digits-Stops [] (suc w) acc any stop = ap (λ b. (b, acc, [])) (ground arith)
digits-Stops (c ∷ rest) (suc w) acc any (no_digit, not_x, not_X) =
    let next : Option ℕ → Bool × ℕ × Bytes =
      λ o. elim o [ none ↦ (any, acc, c ∷ rest) | some d ↦ digits 16 w true (acc * 16 + d) rest ] in
    ap next no_digit ∙ ap (λ b. (b, acc, c ∷ rest)) (ground arith)

digits-AllHex :
    (xs rest : Bytes) (w acc : ℕ) (any : Bool)
    → AllHex xs
    → Stops rest
    → length xs ≤ w
    → digits 16 w any acc (xs ++ rest) ≡ (any || not (length xs == 0), hex_of acc xs, rest)
unfolding digits
digits-AllHex [] rest w acc any h stop le = digits-Stops rest w acc any stop
digits-AllHex (x ∷ xs) rest zero acc any h stop le = absurd (omega arith)
digits-AllHex (x ∷ xs) rest (suc w) acc any (hx, h) stop le =
    let next : Option ℕ → Bool × ℕ × Bytes = λ o. elim o [
      | none ↦ (any, acc, x ∷ (xs ++ rest))
      | some d ↦ digits 16 w true (acc * 16 + d) (xs ++ rest)
    ] in
    ap next (digit_of-dig x hx)
    ∙ digits-AllHex xs rest w (acc * 16 + dig x) true h stop (omega arith)
    ∙ ap (λ b. (b, hex_of (acc * 16 + dig x) xs, rest)) (ground arith)

-- Nothing that `%x` allows before the digits is taken from digits.
skip_spaces-digit : (x : ℕ) (cs : Bytes) → is_hex x ≡ true → skip_spaces (x ∷ cs) ≡ x ∷ cs
unfolding skip_spaces
skip_spaces-digit x cs h = ground arith

behind_sign-digit :
    (w x : ℕ) (cs : Bytes) → is_hex x ≡ true → behind_sign w (x ∷ cs) ≡ (false, w, x ∷ cs)
behind_sign-digit w x cs h = ground arith

behind_0x-digits :
    (w x : ℕ) (xs rest : Bytes)
    → AllHex xs
    → Stops rest
    → behind_0x w (x ∷ (xs ++ rest)) ≡ (w, x ∷ (xs ++ rest))
behind_0x-digits w x [] [] h stop = refl
behind_0x-digits w x [] (c ∷ rest) h (no_digit, not_x, not_X) = ground arith
behind_0x-digits w x (y ∷ xs) rest (hy, h) stop = ground arith

scan_number-AllHex :
    (oversized : ℕ → ℕ) (w x : ℕ) (xs rest : Bytes)
    → AllHex (x ∷ xs)
    → Stops rest
    → length (x ∷ xs) ≤ w
    → hex_of 0 (x ∷ xs) < 2 ^ 32
    → scan_number oversized 16 w (x ∷ (xs ++ rest)) ≡ some (hex_of 0 (x ∷ xs), rest)
unfolding scan_number
scan_number-AllHex oversized w x xs rest (hx, h) stop le small =
    let text : Bytes = x ∷ (xs ++ rest) in
    let v = hex_of 0 (x ∷ xs) in
    let answer : Bool → Bool × ℕ × Bytes → Option (ℕ × Bytes) = λ negative r.
      (let v' = if ltb r.1 (2 ^ 32) then r.1 else u32 (oversized r.1) in
        if r.0 then some (if negative then u32 (2 ^ 32 - v') else v', r.2) else none) in
    let read : Bool → ℕ × Bytes → Option (ℕ × Bytes) =
      λ negative r. answer negative (digits 16 r.0 false 0 r.1) in
    let number : ℕ → Option (ℕ × Bytes) = λ t. some (t, rest) in
    let any : (false || not (length (x ∷ xs) == 0)) ≡ true = ground arith in
    let fits : (if ltb v (2 ^ 32) then v else u32 (oversized v)) ≡ v = ground arith in
    let signed : Bool × ℕ × Bytes → Option (ℕ × Bytes) = λ r. read r.0 (behind_0x r.1 r.2) in
    ap (λ t. signed (behind_sign w t)) (skip_spaces-digit x (xs ++ rest) hx)
    ∙ ap signed (behind_sign-digit w x (xs ++ rest) hx)
    ∙ ap (read false) (behind_0x-digits w x xs rest h stop)
    ∙ ap (answer false) (digits-AllHex (x ∷ xs) rest w 0 false (hx, h) stop le)
    ∙ ap (λ b. answer false (b, v, rest)) any
    ∙ ap number fits

lower_hex-nonempty : (k n : ℕ) → (x : ℕ) × (xs : Bytes) × (lower_hex (suc k) n ≡ x ∷ xs)
unfolding lower_hex
lower_hex-nonempty k n =
    if_lem (λ (t : Bytes). (x : ℕ) × (xs : Bytes) × (t ≡ x ∷ xs)) (ltb n 16)
      (λ e. (digit_char (n % 16), [], refl))
      (λ e. front (lower_hex k (n / 16)) (digit_char (n % 16)))
  where
    front : (ys : Bytes) (c : ℕ) → (x : ℕ) × (xs : Bytes) × (ys ++ (c ∷ []) ≡ x ∷ xs)
    front [] c = (c, [], refl)
    front (y ∷ ys) c = (y, ys ++ (c ∷ []), refl)

-- A 32-bit number in up to eight digits is read back, whatever follows that is no digit.
pub scan_number-lower_hex :
    (oversized : ℕ → ℕ) (n : ℕ) (rest : Bytes)
    → n < 2 ^ 32
    → Stops rest
    → scan_number oversized 16 8 (lower_hex 8 n ++ rest) ≡ some (n, rest)
scan_number-lower_hex oversized n rest h stop =
    let (x, xs, e) = lower_hex-nonempty 7 n in
    let v : hex_of 0 (x ∷ xs) ≡ n = ap (hex_of 0) (sym e) ∙ hex_of-lower_hex 8 n (omega arith) in
    let le : length (x ∷ xs) ≤ 8 = omega (arith, ap length (sym e), length-lower_hex 8 n) in
    ap (λ t. scan_number oversized 16 8 (t ++ rest)) e
    ∙ scan_number-AllHex oversized 8 x xs rest (subst AllHex e (lower_hex-AllHex 8 n)) stop le
        (omega (arith, v))
    ∙ ap (λ (t : ℕ). some (t, rest)) v
