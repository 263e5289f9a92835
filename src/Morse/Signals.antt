-- ===== src/Morse/Signals.antt =====
-- morse.c: what the indicator sends, against the alphabet of dots and dashes.
use blackmagic.Base.{ap₂, agree, agree-below, length-append}
use blackmagic.Base.{
  ℕ, zero, suc, ◌+◌, ◌-◌, ◌/◌, ◌%◌, ◌^◌, ◌<◌, ◌≤◌, min, Option, none, some, List, [], ◌∷◌, ◌++◌,
  map, append_assoc, Bytes, length, get_elem?, get_or, drop, replicate, All, subst, Bool, true,
  false, ◌&&◌, leb, ◌==◌, if◌then◌else◌, ◌≡◌, refl, sym, ap, ◌∙◌, arith,
}
use blackmagic.Morse.{
  letter, MorseLetter, morse_letter, Morse, size_max, morse, read_msg, pattern_of, load, send_bit,
  next_character, morse_update,
}

pub data Mark : Type 0 where
  dot : Mark
  dash : Mark

-- The letters from A, by dots and dashes.
abbrev alphabet : List (List Mark)
alphabet =
    let e = dot in
    let t = dash in
    (e ∷ t ∷ [])
    ∷ (t ∷ e ∷ e ∷ e ∷ [])
    ∷ (t ∷ e ∷ t ∷ e ∷ [])
    ∷ (t ∷ e ∷ e ∷ [])
    ∷ (e ∷ [])
    ∷ (e ∷ e ∷ t ∷ e ∷ [])
    ∷ (t ∷ t ∷ e ∷ [])
    ∷ (e ∷ e ∷ e ∷ e ∷ [])
    ∷ (e ∷ e ∷ [])
    ∷ (e ∷ t ∷ t ∷ t ∷ [])
    ∷ (t ∷ e ∷ t ∷ [])
    ∷ (e ∷ t ∷ e ∷ e ∷ [])
    ∷ (t ∷ t ∷ [])
    ∷ (t ∷ e ∷ [])
    ∷ (t ∷ t ∷ t ∷ [])
    ∷ (e ∷ t ∷ t ∷ e ∷ [])
    ∷ (t ∷ t ∷ e ∷ t ∷ [])
    ∷ (e ∷ t ∷ e ∷ [])
    ∷ (e ∷ e ∷ e ∷ [])
    ∷ (t ∷ [])
    ∷ (e ∷ e ∷ t ∷ [])
    ∷ (e ∷ e ∷ e ∷ t ∷ [])
    ∷ (e ∷ t ∷ t ∷ [])
    ∷ (t ∷ e ∷ e ∷ t ∷ [])
    ∷ (t ∷ e ∷ t ∷ t ∷ [])
    ∷ (t ∷ t ∷ e ∷ e ∷ [])
    ∷ []

-- A dot is one unit, a dash three, with one unit between marks and three behind a letter.
abbrev tones : List Mark → List Bool
tones [] = false ∷ false ∷ []
tones (dot ∷ ms) = true ∷ false ∷ tones ms
tones (dash ∷ ms) = true ∷ true ∷ true ∷ false ∷ tones ms

-- Every other character is a pause of four units.
abbrev tones_of : ℕ → List Bool
tones_of c =
    if leb b'A' c && leb c b'Z' then tones (get_or alphabet (c - b'A') []) else replicate 4 false

abbrev pub signal : Bytes → List Bool
signal [] = []
signal (c ∷ text) = tones_of c ++ signal text

-- `n` bits from the lowest.
abbrev pub low_bits : ℕ → ℕ → List Bool
low_bits zero code = []
low_bits (suc n) code = (code % 2 == 1) ∷ low_bits n (code / 2)

abbrev cons_some : Bool → Option (List Bool) → Option (List Bool)
cons_some b none = none
cons_some b (some bs) = some (b ∷ bs)

abbrev from_update : Option (Bool × Morse) → (Morse → Option (List Bool)) → Option (List Bool)
from_update none k = none
from_update (some (b, m)) k = cons_some b (k m)

-- What `n` calls of `morse_update` return.
unfoldable pub updates : ℕ → Morse → Option (List Bool)
updates zero m = some []
updates (suc n) m = from_update (morse_update m) (updates n)

abbrev bits_of : MorseLetter → List Bool
bits_of l = low_bits l.bits l.code

alphabet_lem : map bits_of morse_letter ≡ map tones alphabet
alphabet_lem = refl

state : Option Bytes → ℕ → Bool → ℕ → ℕ → Morse
state msg i rep code bits = record {
  morse_msg = msg;
  msg_index = i;
  morse_repeat = rep;
  code = code;
  bits = bits;
}

halve : ℕ → ℕ → ℕ
halve zero code = code
halve (suc n) code = halve n (code / 2)

update-some :
    (m m' : Morse) (b : Bool) (bs : List Bool) (n : ℕ)
    → morse_update m ≡ some (b, m')
    → updates n m' ≡ some bs
    → updates (suc n) m ≡ some (b ∷ bs)
unfolding updates
update-some m m' b bs n e h =
    subst (λ o. from_update o (updates n) ≡ some (b ∷ bs)) (sym e) (ap (cons_some b) h)

zero_plus : (k : ℕ) → k ≡ 0 + k
zero_plus k = omega arith

suc_plus : (n k : ℕ) → suc (n + k) ≡ suc n + k
suc_plus n k = omega arith

less_one : (n : ℕ) → suc n - 1 ≡ n
less_one n = omega arith

not_zero : (n : ℕ) → (suc n == 0) ≡ false
not_zero n = ground arith

next_index : (i : ℕ) → i < size_max → (i + 1) % 2 ^ 32 ≡ suc i
next_index i lt = omega (arith, lt)

not_last : (i : ℕ) → i < size_max → (i == size_max) ≡ false
not_last i lt = ground arith

busy :
    (msg : Option Bytes) (i : ℕ) (rep : Bool) (code n : ℕ)
    → (i == size_max) ≡ false
    → morse_update (state msg i rep code (suc n))
      ≡ some (code % 2 == 1, state msg i rep (code / 2) n)
unfolding morse_update send_bit state
busy msg i rep code n e =
    let m = state msg i rep code (suc n) in
    let sent = λ (k : ℕ). some (code % 2 == 1, state msg i rep (code / 2) k) in
    subst (λ k. morse_update m ≡ sent k) (less_one n)
      (ap
          (λ b.
            if b
            then some (false, m)
            else (if suc n == 0 then next_character m else some (send_bit m)))
          e
        ∙ ap (λ b. if b then next_character m else some (send_bit m)) (not_zero n))

-- The bits of a pattern leave from the lowest, before a character is read.
emit :
    (n k code i : ℕ) (msg : Option Bytes) (rep : Bool) (bs : List Bool)
    → (i == size_max) ≡ false
    → updates k (state msg i rep (halve n code) 0) ≡ some bs
    → updates (n + k) (state msg i rep code n) ≡ some (low_bits n code ++ bs)
unfolding morse_update send_bit state halve
emit zero k code i msg rep bs e h =
    subst (λ t. updates t (state msg i rep code 0) ≡ some bs) (zero_plus k) h
emit (suc n) k code i msg rep bs e h =
    subst (λ t. updates t (state msg i rep code (suc n)) ≡ some (low_bits (suc n) code ++ bs))
      (suc_plus n k)
      (update-some (state msg i rep code (suc n)) (state msg i rep (code / 2) n) (code % 2 == 1)
        (low_bits n (code / 2) ++ bs) (n + k) (busy msg i rep code n e)
        (emit n k (code / 2) i msg rep bs e h))

-- A call that reads a character of the message and sends the first bit of its pattern.
first :
    (i c code n old : ℕ) (text : Bytes)
    → i < size_max
    → get_elem? text i ≡ some c
    → (c == 0) ≡ false
    → pattern_of c ≡ record { code = code; bits = suc n }
    → morse_update (state (some text) i false old 0)
      ≡ some (code % 2 == 1, state (some text) (suc i) false (code / 2) n)
unfolding morse_update next_character read_msg load send_bit state
first i c code n old text lt e nz p =
    let m = state (some text) i false old 0 in
    let ended = some (false, record m { msg_index = size_max }) in
    let sent = λ (index : ℕ) (pattern : MorseLetter).
      some (send_bit (record m { msg_index = index; code = pattern.code; bits = pattern.bits })) in
    let ended_or =
      λ (x : ℕ). if x == 0 then ended else some (send_bit (load x ((i + 1) % 2 ^ 32) m)) in
    ap (λ b. if b then some (false, m) else next_character m) (not_last i lt)
    ∙ ap (λ o. elim o [ none ↦ none | some x ↦ ended_or x ]) e
    ∙ ap (λ b. if b then ended else some (send_bit (load c ((i + 1) % 2 ^ 32) m))) nz
    ∙ ap₂ sent (next_index i lt) p
    ∙ ap (λ k. some (code % 2 == 1, state (some text) (suc i) false (code / 2) k)) (less_one n)

length-low_bits : (n code : ℕ) → length (low_bits n code) ≡ n
length-low_bits zero code = refl
length-low_bits (suc n) code = ap suc (length-low_bits n (code / 2))

get_or-map :
    {A B : Type 0} (f : A → B) (xs : List A) (i : ℕ) (a : A) (b : B)
    → i < length xs
    → get_or (map f xs) i b ≡ f (get_or xs i a)
get_or-map f [] i a b lt = absurd (omega arith)
get_or-map f (x ∷ xs) zero a b lt = refl
get_or-map f (x ∷ xs) (suc i) a b lt = get_or-map f xs i a b (omega arith)

bits_positive : agree (λ i. min 1 (get_or morse_letter i (letter 0 0)).bits) (λ i. 1) 26 ≡ true
unfolding agree
bits_positive = refl

letter-tones :
    (i : ℕ)
    → i < 26
    → low_bits (get_or morse_letter i (letter 0 0)).bits (get_or morse_letter i (letter 0 0)).code
      ≡ tones (get_or alphabet i [])
letter-tones i lt =
    sym (get_or-map bits_of morse_letter i (letter 0 0) [] lt)
    ∙ ap (λ xs. get_or xs i []) alphabet_lem
    ∙ get_or-map tones alphabet i [] [] lt

positive : (n : ℕ) → min 1 n ≡ 1 → 1 ≤ n
positive n e = omega (arith, e)

capital : (c : ℕ) → (leb b'A' c && leb c b'Z') ≡ true → c - b'A' < 26
capital c h = ground arith

letter-bits : (i : ℕ) → i < 26 → 1 ≤ (get_or morse_letter i (letter 0 0)).bits
letter-bits i lt =
    let e =
      agree-below (λ i. min 1 (get_or morse_letter i (letter 0 0)).bits) (λ i. 1) 26 i lt
        bits_positive in
    positive (get_or morse_letter i (letter 0 0)).bits e

pattern_if :
    (b : Bool) (i : ℕ)
    → (b ≡ true → i < 26)
    → let p = if b then get_or morse_letter i (letter 0 0) else letter 0 4 in
      (low_bits p.bits p.code ≡ (if b then tones (get_or alphabet i []) else replicate 4 false))
      × (1 ≤ p.bits)
pattern_if true i h = (letter-tones i (h refl), letter-bits i (h refl))
pattern_if false i h = (refl, omega arith)

-- The pattern of a character is its marks.
pattern_lem :
    (c : ℕ)
    → (low_bits (pattern_of c).bits (pattern_of c).code ≡ tones_of c) × (1 ≤ (pattern_of c).bits)
pattern_lem c = pattern_if (leb b'A' c && leb c b'Z') (c - b'A') (capital c)

get_elem?-drop :
    {A : Type 0} (xs ys : List A) (i : ℕ) (x : A) → drop i xs ≡ x ∷ ys → get_elem? xs i ≡ some x
get_elem?-drop [] ys zero x e = ap (λ l. get_elem? l 0) e
get_elem?-drop [] ys (suc i) x e = ap (λ l. get_elem? l 0) e
get_elem?-drop (a ∷ xs) ys zero x e = ap (λ l. get_elem? l 0) e
get_elem?-drop (a ∷ xs) ys (suc i) x e = get_elem?-drop xs ys i x e

drop-tail :
    {A : Type 0} (xs ys : List A) (i : ℕ) (x : A) → drop i xs ≡ x ∷ ys → drop (suc i) xs ≡ ys
drop-tail [] ys zero x e = ap (drop 1) e
drop-tail [] ys (suc i) x e = ap (drop 1) e
drop-tail (a ∷ xs) ys zero x e = ap (drop 1) e
drop-tail (a ∷ xs) ys (suc i) x e = drop-tail xs ys i x e

-- Behind the message nothing is read.
silent :
    (k code : ℕ) (msg : Option Bytes)
    → updates k (state msg size_max false code 0) ≡ some (replicate k false)
unfolding morse_update state updates
silent zero code msg = refl
silent (suc k) code msg = ap (cons_some false) (silent k code msg)

ended :
    (i old : ℕ) (text : Bytes)
    → i < size_max
    → get_elem? text i ≡ some 0
    → morse_update (state (some text) i false old 0)
      ≡ some (false, state (some text) size_max false old 0)
unfolding morse_update next_character read_msg state
ended i old text lt e =
    let m = state (some text) i false old 0 in
    let read = λ (x : ℕ).
      if x == 0
      then some (false, record m { msg_index = size_max })
      else some (send_bit (load x ((i + 1) % 2 ^ 32) m)) in
    ap (λ b. if b then some (false, m) else next_character m) (not_last i lt)
    ∙ ap (λ o. elim o [ none ↦ none | some x ↦ read x ]) e

-- A character: the bits of its pattern, and what follows.
send_character :
    (n i c code old k : ℕ) (text : Bytes) (bs : List Bool)
    → suc i < size_max
    → get_elem? text i ≡ some c
    → (c == 0) ≡ false
    → pattern_of c ≡ letter code n
    → 1 ≤ n
    → ((last : ℕ) → updates k (state (some text) (suc i) false last 0) ≡ some bs)
    → updates (n + k) (state (some text) i false old 0) ≡ some (low_bits n code ++ bs)
send_character zero i c code old k text bs lt e nz p pos h = absurd (omega arith)
send_character (suc n) i c code old k text bs lt e nz p pos h =
    subst (λ t. updates t (state (some text) i false old 0) ≡ some (low_bits (suc n) code ++ bs))
      (suc_plus n k)
      (update-some (state (some text) i false old 0) (state (some text) (suc i) false (code / 2) n)
        (code % 2 == 1) (low_bits n (code / 2) ++ bs) (n + k)
        (first i c code n old text (omega (arith, lt)) e nz p)
        (emit n k (code / 2) (suc i) (some text) false bs (not_last (suc i) lt)
          (h (halve n (code / 2)))))

units :
    (c : ℕ) (suf : Bytes) (k : ℕ)
    → (pattern_of c).bits + (length (signal suf) + k) ≡ length (signal (c ∷ suf)) + k
units c suf k =
    let (e, pos) = pattern_lem c in
    omega (
      arith,
      sym (length-low_bits (pattern_of c).bits (pattern_of c).code) ∙ ap length e,
      length-append (tones_of c) (signal suf),
    )

message :
    (suf text : Bytes) (i old k : ℕ)
    → drop i text ≡ suf ++ (0 ∷ [])
    → i + length suf < size_max
    → All (λ c. (c == 0) ≡ false) suf
    → updates (length (signal suf) + k) (state (some text) i false old 0)
      ≡ some (signal suf ++ replicate k false)
unfolding updates
message [] text i old zero d lt nz = refl
message [] text i old (suc k) d lt nz =
    subst (λ t. updates t (state (some text) i false old 0) ≡ some (replicate (suc k) false))
      (zero_plus (suc k))
      (update-some (state (some text) i false old 0) (state (some text) size_max false old 0) false
        (replicate k false) k (ended i old text (omega (arith, lt)) (get_elem?-drop text [] i 0 d))
        (silent k old (some text)))
message (c ∷ suf) text i old k d lt (nz, nzs) =
    let p = pattern_of c in
    let (e, pos) = pattern_lem c in
    let sent =
      send_character p.bits i c p.code old (length (signal suf) + k) text
        (signal suf ++ replicate k false) (omega (arith, lt))
        (get_elem?-drop text (suf ++ (0 ∷ [])) i c d) nz refl pos
        (λ last.
          message suf text (suc i) last k (drop-tail text (suf ++ (0 ∷ [])) i c d)
            (omega (arith, lt)) nzs) in
    subst
      (λ t.
        updates t (state (some text) i false old 0) ≡ some (signal (c ∷ suf) ++ replicate k false))
      (units c suf k)
      (sent
        ∙ ap some (
            ap (λ l. l ++ (signal suf ++ replicate k false)) e
            ∙ sym (append_assoc (tones_of c) (signal suf) (replicate k false))))

-- A message that is not repeated is sent behind the bits that are left of the last one: the tones of
-- the alphabet for each character, and then nothing, whatever the number of further calls. No call
-- reads outside of the message, which is shorter than the greatest index and has no character 0.
pub morse-signal :
    (text : Bytes) (m : Morse) (k : ℕ)
    → length text < size_max
    → All (λ c. (c == 0) ≡ false) text
    → updates (m.bits + (length (signal text) + k)) (morse (some (text ++ (0 ∷ []))) false m)
      ≡ some (low_bits m.bits m.code ++ (signal text ++ replicate k false))
unfolding morse state
morse-signal text m k lt nz =
    let whole = text ++ (0 ∷ []) in
    emit m.bits (length (signal text) + k) m.code 0 (some whole) false
      (signal text ++ replicate k false) refl
      (message text whole 0 (halve m.bits m.code) k refl (omega (arith, lt)) nz)
