-- ===== src/Examples/Targets.antt =====
-- The list of breakpoints and the sizes of a region, from target/target.c, at concrete inputs.
use blackmagic.Base.{◌-◌, ◌^◌, ltb, ◌++◌, inl, inr}
use blackmagic.Base.{
  ℕ, ◌+◌, ◌*◌, ◌<◌, ◌≤◌, max, none, some, [], ◌∷◌, length, replicate, true, ◌==◌, if◌then◌else◌,
  ◌≡◌, refl, arith,
}
use blackmagic.Target.{
  break_hard, Breakwatch, Target, Firmware, flash_sizes, target_breakwatch_set,
  target_breakwatch_clear,
}
use blackmagic.Target.Breakpoints.{length-target_breakwatch_clear, target_breakwatch_clear-set}
use blackmagic.Target.WriteBuffer.{flash_sizes_multiple}

abbrev accept : Breakwatch → ℕ → ℕ × Breakwatch × ℕ
accept bw w = (0, bw, w)

-- A target with one breakpoint, whose driver accepts every other.
abbrev target : Target ℕ
target = record {
  attached = true;
  has_controller = true;
  attach = none;
  detach = none;
  check_error = none;
  mem_read = none;
  mem_write = none;
  reg_read = none;
  breakwatch_set = some accept;
  breakwatch_clear = some accept;
  bw_list = record { kind = break_hard; addr = 0x8000100; size = 2; reserved = replicate 4 0 } ∷ [];
  ram = [];
  heapinfo = [];
  cmdline = [];
}

abbrev firmware : Firmware ℕ
firmware = record {
  malloc = λ w. (true, w + 1);
  destroy_callback = λ w. w;
  clk_output_enable = λ on w. w;
}

length-target_breakwatch_clear_example :
    (let r = target_breakwatch_clear target break_hard 0x8000100 2 7 in
      length r.1.bw_list + (if r.0 == 0 then 1 else 0) ≡ 1)
length-target_breakwatch_clear_example =
    length-target_breakwatch_clear target break_hard 0x8000100 2 7

-- A driver with a slot for each breakpoint, which it notes in the entry; the state is the number of
-- slots that are taken.
abbrev take_slot : Breakwatch → ℕ → ℕ × Breakwatch × ℕ
take_slot bw w =
    if ltb w 4 then (0, record bw { reserved = w ∷ 0 ∷ 0 ∷ 0 ∷ [] }, w + 1) else (2 ^ 32 - 1, bw, w)

abbrev free_slot : Breakwatch → ℕ → ℕ × Breakwatch × ℕ
free_slot bw w = (0, bw, w - 1)

abbrev slots : Target ℕ
slots = record target { breakwatch_set = some take_slot; breakwatch_clear = some free_slot }

abbrev later : Breakwatch
later = record { kind = break_hard; addr = 0x8000300; size = 2; reserved = 2 ∷ 0 ∷ 0 ∷ 0 ∷ [] }

abbrev plain_firmware : Firmware ℕ
plain_firmware = record firmware { malloc = λ w. (true, w) }

set_answer : (target_breakwatch_set plain_firmware slots break_hard 0x8000200 2 1).0 ≡ 0
unfolding target_breakwatch_set
set_answer = refl

target_breakwatch_clear-set_example :
    (let t' = (target_breakwatch_set plain_firmware slots break_hard 0x8000200 2 1).1 in
      target_breakwatch_clear
        (record t' { bw_list = (later ∷ []) ++ t'.bw_list })
        break_hard
        0x8000200
        2
        3
      ≡ (0, record slots { bw_list = (later ∷ []) ++ slots.bw_list }, 2))
target_breakwatch_clear-set_example =
    target_breakwatch_clear-set plain_firmware slots break_hard 0x8000200 2 1
      (record { same_kind = refl; same_addr = refl; same_size = refl }) set_answer (later ∷ []) 3
      (inr (inl (λ e. absurd (omega (arith, e)))), tt)

flash_sizes_multiple_example :
    (let (ws, wbs) = flash_sizes 1024 24 in
      (0 < ws)
      × ((count : ℕ) × (0 < count) × (wbs ≡ count * ws))
      × (wbs ≤ max 1024 ws)
      × (1024 < wbs + ws))
flash_sizes_multiple_example = flash_sizes_multiple 1024 24 (omega arith)
