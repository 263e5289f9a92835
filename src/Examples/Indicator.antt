-- ===== src/Examples/Indicator.antt =====
-- morse.c: the theorem at a message that follows a letter under way, and messages without an end.
use blackmagic.Base.{
  ◌+◌, none, some, [], ◌∷◌, ◌++◌, length, replicate, true, false, ◌≡◌, refl, arith,
}
use blackmagic.Session.{codes}
use blackmagic.Morse.{Morse, morse, read_msg, load, send_bit, next_character, morse_update}
use blackmagic.Morse.Signals.{signal, low_bits, updates, morse-signal}

-- The last units of a letter are under way.
abbrev busy : Morse
busy = record { morse_msg = none; msg_index = 0; morse_repeat = false; code = 1; bits = 3 }

abbrev idle : Morse
idle = record busy { code = 0; bits = 0 }

morse-signal_example :
    updates
      (3 + (length (signal (codes "SOS 1")) + 2))
      (morse (some (codes "SOS 1" ++ (0 ∷ []))) false busy)
    ≡ some (low_bits 3 1 ++ (signal (codes "SOS 1") ++ replicate 2 false))
morse-signal_example =
    morse-signal (codes "SOS 1") busy 2 (omega arith) (refl, (refl, (refl, (refl, (refl, tt)))))

-- `morse(NULL, false)` takes the message away, and the next call reads through the null pointer.
morse_null : morse_update (morse none false idle) ≡ none
unfolding morse_update morse next_character read_msg
morse_null = refl

-- An empty message that is repeated is read behind its end after one pause.
morse_empty : updates 4 (morse (some (0 ∷ [])) true idle) ≡ some (replicate 4 false)
unfolding updates morse_update morse next_character read_msg load send_bit
morse_empty = refl

morse_beyond : updates 5 (morse (some (0 ∷ [])) true idle) ≡ none
unfolding updates morse_update morse next_character read_msg load send_bit
morse_beyond = refl
