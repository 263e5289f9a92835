-- ===== src/Session/Transfer.antt =====
-- gdb_main.c: the transfer of a text in pieces, as the debugger asks for it.
use blackmagic.Base.{
  ℕ, zero, suc, ◌+◌, ◌-◌, ◌^◌, ◌<◌, ◌≤◌, min, Option, none, some, [], ◌∷◌, ◌++◌, append-nil, Bytes,
  length, take, drop, ltb, ◌==◌, if◌then◌else◌, ◌≡◌, ◌≢◌, refl, sym, ap, ◌∙◌, arith,
}
use blackmagic.Base.{if_lem, length-take, length-drop, ==_iff}
use blackmagic.Session.{codes}
use blackmagic.Session.Scanf.{scan_number, scan_pair, strip}
use blackmagic.Session.Queries.{string_reply, lower_hex}
use blackmagic.Session.Numbers.{scan_number-lower_hex}

-- The place and the length of a piece, as the debugger writes them.
abbrev pub request : ℕ → ℕ → Bytes
request addr len = lower_hex 8 addr ++ (b',' ∷ lower_hex 8 len)

-- The debugger joins the pieces until an answer says that there are no more; `none` is an error.
unfoldable pub fetch : (ℕ → ℕ) → ℕ → ℕ → ℕ → Bytes → Option Bytes
fetch oversized zero addr len reply = none
fetch oversized (suc fuel) addr len reply = elim (string_reply oversized reply (request addr len)) [
  | [] ↦ none
  | c ∷ piece ↦
      let rest : Option Bytes = elim (fetch oversized fuel (addr + length piece) len reply) [
        | none ↦ none
        | some text ↦ some (piece ++ text)
      ] in
      if c == b'm' then rest else if c == b'l' then some [] else none
]

-- The answer to a piece within the text.
abbrev piece_of : Bytes → ℕ → ℕ → Bytes
piece_of reply addr len = take (min len (length reply - addr)) (drop addr reply)

scan_pair-request :
    (oversized : ℕ → ℕ) (addr len : ℕ)
    → addr < 2 ^ 32
    → len < 2 ^ 32
    → scan_pair oversized [] (b',' ∷ []) (some 8) (request addr len) ≡ (some addr, some (len, []))
unfolding scan_pair
scan_pair-request oversized addr len h h' =
    let behind = b',' ∷ lower_hex 8 len in
    let next : Option (ℕ × Bytes) → Option ℕ × Option (ℕ × Bytes) = λ o. elim o [
      | none ↦ (none, none)
      | some (a, rest) ↦ elim (strip (b',' ∷ []) rest) [
        | none ↦ (some a, none)
        | some at ↦ (some a, scan_number oversized 16 8 at)
      ]
    ] in
    let second : scan_number oversized 16 8 (lower_hex 8 len) ≡ some (len, []) =
      ap (scan_number oversized 16 8) (sym (append-nil (lower_hex 8 len)))
      ∙ scan_number-lower_hex oversized len [] h' tt in
    ap next (
      scan_number-lower_hex oversized addr behind h
        (refl, (λ e. absurd (omega arith)), (λ e. absurd (omega arith))))
    ∙ ap (λ o. (some addr, o)) second

string_reply-request :
    (oversized : ℕ → ℕ) (reply : Bytes) (addr len : ℕ)
    → addr < 2 ^ 32
    → len < 2 ^ 32
    → string_reply oversized reply (request addr len) ≡ (
        if ltb (length reply) addr
        then codes "E01"
        else if addr == length reply
        then codes "l"
        else b'm' ∷ piece_of reply addr len)
unfolding string_reply
string_reply-request oversized reply addr len h h' =
    let answer : Option ℕ × Option (ℕ × Bytes) → Bytes = λ r. elim r.0 [
      | none ↦ codes "E01"
      | some a ↦ elim r.1 [
        | none ↦ codes "E01"
        | some (n, rest) ↦
            if ltb (length reply) a
            then codes "E01"
            else if a == length reply
            then codes "l"
            else b'm' ∷ take (min n (length reply - a)) (drop a reply)
      ]
    ] in
    ap answer (scan_pair-request oversized addr len h h')

take-append-drop : (n : ℕ) (xs : Bytes) → take n xs ++ drop n xs ≡ xs
take-append-drop zero xs = refl
take-append-drop (suc n) [] = refl
take-append-drop (suc n) (x ∷ xs) = ap (λ t. x ∷ t) (take-append-drop n xs)

drop_nil : (n : ℕ) → drop {A = ℕ} n [] ≡ []
drop_nil zero = refl
drop_nil (suc n) = refl

drop-drop : (k n : ℕ) (xs : Bytes) → drop k (drop n xs) ≡ drop (n + k) xs
drop-drop k zero xs = ap (λ i. drop i xs) (omega arith)
drop-drop k (suc n) [] = drop_nil k ∙ sym (drop_nil (suc n + k))
drop-drop k (suc n) (x ∷ xs) =
    let shift : suc (n + k) ≡ suc n + k = omega arith in
    drop-drop k n xs ∙ ap (λ i. drop i (x ∷ xs)) shift

drop_all : (n : ℕ) (xs : Bytes) → length xs ≤ n → drop n xs ≡ []
drop_all zero [] h = refl
drop_all (suc n) [] h = refl
drop_all zero (x ∷ xs) h = absurd (omega arith)
drop_all (suc n) (x ∷ xs) h = drop_all n xs (omega arith)

fetch-drop :
    (oversized : ℕ → ℕ) (fuel addr len : ℕ) (reply : Bytes)
    → length reply < 2 ^ 32
    → 0 < len
    → len < 2 ^ 32
    → addr ≤ length reply
    → length reply < addr + fuel
    → fetch oversized fuel addr len reply ≡ some (drop addr reply)
unfolding fetch
fetch-drop oversized zero addr len reply hr h0 h h' hf = absurd (omega arith)
fetch-drop oversized (suc fuel) addr len reply hr h0 h h' hf =
    let next : Bytes → Option Bytes = λ answer. elim answer [
      | [] ↦ none
      | c ∷ piece ↦
          let rest : Option Bytes = elim (fetch oversized fuel (addr + length piece) len reply) [
            | none ↦ none
            | some text ↦ some (piece ++ text)
          ] in
          if c == b'm' then rest else if c == b'l' then some [] else none
    ] in
    let P : Bytes → Type 0 = λ answer. next answer ≡ some (drop addr reply) in
    let piece = piece_of reply addr len in
    let k = min len (length reply - addr) in
    let size : length piece ≡ k =
      omega (arith, length-take k (drop addr reply), length-drop addr reply) in
    ap next (string_reply-request oversized reply addr len (omega arith) h)
    ∙ if_lem P (ltb (length reply) addr) (λ e. absurd (ground arith))
        (λ e.
          if_lem P (addr == length reply)
            (λ e'.
              ap (λ t. some t)
                (sym (drop_all addr reply (omega (arith, (==_iff addr (length reply)).0 e')))))
            (λ e'.
              (let ne : addr ≢ length reply = λ q. absurd (ground arith) in
                let step : fetch oversized fuel (addr + length piece) len reply
                    ≡ some (drop (addr + length piece) reply) =
                  fetch-drop oversized fuel (addr + length piece) len reply hr h0 h
                    (omega (arith, size)) (omega (arith, size, ne)) in
                ap
                  (λ (o : Option Bytes). elim o as (λ x. Option Bytes) [
                    | none ↦ none
                    | some text ↦ some (piece ++ text)
                  ])
                  step
                ∙ ap (λ t. some (piece ++ t))
                    (ap (λ i. drop (addr + i) reply) size ∙ sym (drop-drop k addr reply))
                ∙ ap (λ t. some t) (take-append-drop k (drop addr reply)))))

-- Whatever the size of the pieces, the debugger that asks `handle_q_string_reply` for one piece
-- behind the other gets the whole text, with as many requests as the text has characters and one more.
pub fetch-string_reply :
    (oversized : ℕ → ℕ) (len : ℕ) (reply : Bytes)
    → length reply < 2 ^ 32
    → 0 < len
    → len < 2 ^ 32
    → fetch oversized (length reply + 1) 0 len reply ≡ some reply
fetch-string_reply oversized len reply hr h0 h =
    fetch-drop oversized (length reply + 1) 0 len reply hr h0 h (omega arith) (omega arith)
