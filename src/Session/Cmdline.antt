-- ===== src/Session/Cmdline.antt =====
-- gdb_main.c: the command line of a `vRun` packet, in a buffer of 83 characters.
use blackmagic.Base.{
  ℕ, zero, suc, ◌+◌, Option, none, some, List, [], ◌∷◌, map, Bytes, length, ◌&&◌, ◌||◌, leb, ◌==◌,
  if◌then◌else◌,
}
use blackmagic.Base.{write_at}
use blackmagic.Hex.{unhexify}
use blackmagic.Remote.{is_hex}

-- `strlen` of a buffer.
unfoldable pub strlen : Bytes → ℕ
strlen [] = 0
strlen (c ∷ cs) = let rest = strlen cs in if c == 0 then 0 else suc rest

-- A write into a buffer: `none` when it goes beyond the end.
abbrev pub write_in : Bytes → ℕ → Bytes → Option Bytes
write_in buf i src = if leb (i + length src) (length buf) then some (write_at buf i src) else none

-- A `;`, which stands for a space.
abbrev pub put_space : Bytes → ℕ → Option (Bytes × ℕ)
put_space buf p = elim (write_in buf p (b' ' ∷ 0 ∷ [])) [ none ↦ none | some b ↦ some (b, p + 1) ]

-- A character from two digits: `unhexify` writes two bytes, the second one is written over. A space
-- and a backslash have a backslash in front.
abbrev pub put_byte : Bytes → ℕ → Option Bytes → Option (Bytes × ℕ)
put_byte buf p (some (x ∷ y ∷ rest)) = elim (write_in buf p (x ∷ y ∷ [])) [
  | none ↦ none
  | some b ↦
      let escape = x == b' ' || x == b'\\' in
      let b1 : Bytes = if escape then write_at b p (b'\\' ∷ x ∷ []) else b in
      let q = if escape then p + 2 else p + 1 in
      elim (write_in b1 q (0 ∷ [])) [ none ↦ none | some b2 ↦ some (b2, q) ]
]
put_byte buf p _ = none

-- The loop over the packet, from `pcmdline` on: `none` when it touches memory outside the buffers.
unfoldable pub cmdline_loop : Bytes → Bytes → ℕ → Option Bytes
unfolding strlen unhexify
cmdline_loop [] buf p = none
cmdline_loop (c ∷ []) buf p = if c == 0 || leb 83 (strlen buf + 3) then some buf else none
cmdline_loop (c ∷ d ∷ cs) buf p =
    let spaced : Option Bytes = elim (put_space buf p) [
      | none ↦ none
      | some (b, q) ↦ cmdline_loop (d ∷ cs) b q
    ] in
    let decoded : Option Bytes = elim (put_byte buf p (unhexify 2 (c ∷ d ∷ cs))) [
      | none ↦ none
      | some (b, q) ↦ cmdline_loop cs b q
    ] in
    if c == 0 || leb 83 (strlen buf + 3)
    then some buf
    else if c == b';'
    then spaced
    else if is_hex c && is_hex d
    then decoded
    else some buf

-- The numbers below `n`.
abbrev pub below : ℕ → List ℕ
below zero = []
below (suc n) = n ∷ below n

-- `cmdline` at the start: an empty text, and else not initialised.
abbrev pub empty_line : (ℕ → ℕ) → Bytes
empty_line uninitialised = 0 ∷ map uninitialised (below 82)

-- The command line of a packet, from behind `vRun`.
unfoldable pub cmdline : (ℕ → ℕ) → Bytes → Option Bytes
unfolding cmdline_loop
cmdline uninitialised packet =
    let tok : Bytes = elim packet [ [] ↦ [] | c ∷ cs ↦ (if c == b';' then cs else c ∷ cs) ] in
    cmdline_loop tok (empty_line uninitialised) 0
