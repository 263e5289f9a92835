-- ===== src/Target.antt =====
-- target/target.c: the target behind the debugger, whose operations a driver fills in.
-- The functions of the driver, the allocator and the clock output of the platform are parameters
-- over a state `W` of the outside. A function pointer that may be NULL is an `Option`. An `int` that
-- is returned is written as 32 bits, -1 as 2^32 - 1.
pub mod Breakpoints
pub mod WriteBuffer
use blackmagic.Base.{
  ℕ, zero, suc, ◌+◌, ◌-◌, ◌*◌, ◌/◌, ◌%◌, ◌^◌, ◌<◌, ◌≤◌, min, max, bit_and, bit_or, bit_xor, Option,
  none, some, List, [], ◌∷◌, ◌++◌, map, append-nil, append_assoc, Bytes, length, get_elem?, get_or,
  set, take, drop, replicate, All, subst, Bool, true, false, not, ◌&&◌, ◌||◌, ltb, leb, ◌==◌,
  if◌then◌else◌, ◌≡◌, ◌≢◌, refl, sym, ap, ◌∙◌, arith, ◌⊎◌, inl, inr, Bool-cases, Option-cases,
}
use blackmagic.Base.Words.{u32}

-- `target_breakwatch_e`.
pub data BreakwatchType : Type 0 where
  break_soft break_hard watch_write watch_read watch_access : BreakwatchType

-- The number of the enumerator.
abbrev pub type_code : BreakwatchType → ℕ
type_code break_soft = 0
type_code break_hard = 1
type_code watch_write = 2
type_code watch_read = 3
type_code watch_access = 4

-- `breakwatch_s`; `reserved` is for the driver.
pub record Breakwatch : Type 0 where
  pub kind : BreakwatchType
  pub addr : ℕ
  pub size : ℕ
  pub reserved : List ℕ

-- The functions of a driver, and what the target is made of in `target.c`.
pub record Target (W : Type 0) : Type 0 where
  pub attached : Bool
  pub has_controller : Bool
  pub attach : Option (W → Bool × W)
  pub detach : Option (W → W)
  pub check_error : Option (W → Bool × W)
  pub mem_read : Option (ℕ → ℕ → W → Bytes × W)
  pub mem_write : Option (ℕ → Bytes → W → W)
  pub reg_read : Option (ℕ → ℕ → W → Bytes × W)
  pub breakwatch_set : Option (Breakwatch → W → ℕ × Breakwatch × W)
  pub breakwatch_clear : Option (Breakwatch → W → ℕ × Breakwatch × W)
  pub bw_list : List Breakwatch
  pub ram : List (ℕ × ℕ)
  pub heapinfo : List ℕ
  pub cmdline : Bytes

-- What `target.c` calls of the rest of the firmware.
pub record Firmware (W : Type 0) : Type 0 where
  pub malloc : W → Bool × W
  pub destroy_callback : W → W
  pub clk_output_enable : Bool → W → W

-- The largest write buffer that is made of several writes.
abbrev pub flash_write_buffer_ceiling : ℕ
flash_write_buffer_ceiling = 1024

-- The two sizes that `target_add_flash` sets, from the block size and the write size that is given.
unfoldable pub flash_sizes : ℕ → ℕ → ℕ × ℕ
flash_sizes blocksize given =
    let writesize = if given == 0 then blocksize else given in
    (
      writesize,
      if leb writesize (flash_write_buffer_ceiling / 2)
          then writesize * (flash_write_buffer_ceiling / writesize)
          else writesize,
    )

-- The test of `target_breakwatch_clear`.
abbrev pub matches : BreakwatchType → ℕ → ℕ → Breakwatch → Bool
matches kind addr size bw =
    type_code bw.kind == type_code kind && bw.addr == addr && bw.size == size

-- The driver's part of `target_breakwatch_set`.
abbrev pub drive_set : {W : Type 0} → Target W → Breakwatch → W → ℕ × Breakwatch × W
drive_set t bw w = elim t.breakwatch_set [ none ↦ (1, bw, w) | some op ↦ op bw w ]

module _ {W : Type 0} (fw : Firmware W) where
  -- `target_attach`: `none` for NULL. The callback is that of the controller before.
  unfoldable pub target_attach : Target W → W → Bool × Target W × W
  target_attach t w =
      let w1 = if t.has_controller then fw.destroy_callback w else w in
      let w2 = fw.clk_output_enable true w1 in
      let (ok, w3) : Bool × W = elim t.attach [ none ↦ (true, w2) | some op ↦ op w2 ] in
      let t' = record t { has_controller = true } in
      if ok
      then (true, record t' { attached = true }, w3)
      else (false, t', fw.clk_output_enable false w3)

  -- `target_attach_n`: the target with the number `n`, from 1 on, if it attaches. The list is the
  -- one of all targets.
  pub target_attach_n : ℕ → List (Target W) → W → Bool × List (Target W) × W
  target_attach_n n [] w = (false, [], w)
  target_attach_n n (t ∷ ts) w =
      let (ok, t', w') = target_attach t w in
      let (ok', ts', w'') = target_attach_n (n - 1) ts w in
      if n == 1
      then (ok, t' ∷ ts, w')
      else if n == 0
      then (false, t ∷ ts, w)
      else (ok', t ∷ ts', w'')

  -- `target_detach`.
  unfoldable pub target_detach : Target W → W → Target W × W
  target_detach t w =
      let w1 : W = elim t.detach [ none ↦ w | some op ↦ op w ] in
      (record t { attached = false }, fw.clk_output_enable false w1)

  -- `target_add_ram`.
  unfoldable pub target_add_ram : Target W → ℕ → ℕ → W → Target W × W
  target_add_ram t start len w =
      let (ok, w') = fw.malloc w in (if ok then record t { ram = (start, len) ∷ t.ram } else t, w')

  -- `target_breakwatch_set`.
  unfoldable pub target_breakwatch_set : Target W → BreakwatchType → ℕ → ℕ → W → ℕ × Target W × W
  target_breakwatch_set t kind addr len w =
      let (ret, bw, w1) =
        drive_set t (record { kind = kind; addr = addr; size = len; reserved = replicate 4 0 }) w in
      let (ok, w2) = fw.malloc w1 in
      if ret == 0
      then (if ok then (ret, record t { bw_list = bw ∷ t.bw_list }, w2) else (1, t, w2))
      else (ret, t, w1)

module _ {W : Type 0} where
  -- `target_check_error`.
  unfoldable pub target_check_error : Target W → W → Bool × W
  target_check_error t w = elim t.check_error [ none ↦ (false, w) | some op ↦ op w ]

  -- `target_mem_read`: whether it failed, and the bytes when the driver reads any.
  unfoldable pub target_mem_read : Target W → ℕ → ℕ → W → Bool × Option Bytes × W
  unfolding target_check_error
  target_mem_read t src len w = elim t.mem_read [
    | none ↦ (let (failed, w') = target_check_error t w in (failed, none, w'))
    | some op ↦
        (let (bytes, w1) = op src len w in
          let (failed, w2) = target_check_error t w1 in (failed, some bytes, w2))
  ]

  -- `target_mem_write`: whether it failed.
  unfoldable pub target_mem_write : Target W → ℕ → Bytes → W → Bool × W
  unfolding target_check_error
  target_mem_write t dest bytes w = elim t.mem_write [
    | none ↦ target_check_error t w
    | some op ↦ target_check_error t (op dest bytes w)
  ]

  -- `target_set_heapinfo` for a target that is there.
  unfoldable pub target_set_heapinfo : Target W → ℕ → ℕ → ℕ → ℕ → Target W
  target_set_heapinfo t heap_base heap_limit stack_base stack_limit = record t {
    heapinfo = heap_base ∷ heap_limit ∷ stack_base ∷ stack_limit ∷ [];
  }

  -- `target_set_cmdline`: what stands in the array in front of the NUL; it holds 81 bytes.
  unfoldable pub target_set_cmdline : Target W → Bytes → Target W
  target_set_cmdline t cmdline = record t { cmdline = take (min 80 (length cmdline)) cmdline }

  -- The driver's part of `target_breakwatch_clear`.
  abbrev pub drive_clear : Target W → Breakwatch → W → ℕ × Breakwatch × W
  drive_clear t bw w = elim t.breakwatch_clear [ none ↦ (1, bw, w) | some op ↦ op bw w ]

  -- The walk of `target_breakwatch_clear` to the first entry that matches, and its removal.
  pub clear_first :
      Target W → BreakwatchType → ℕ → ℕ → List Breakwatch → W → ℕ × List Breakwatch × W
  clear_first t kind addr len [] w = (2 ^ 32 - 1, [], w)
  clear_first t kind addr len (bw ∷ bws) w =
      let (ret, bw', w') = drive_clear t bw w in
      let (ret', bws', w'') = clear_first t kind addr len bws w in
      if matches kind addr len bw
      then (if ret == 0 then (ret, bws, w') else (ret, bw' ∷ bws, w'))
      else (ret', bw ∷ bws', w'')

  -- `target_breakwatch_clear`.
  unfoldable pub target_breakwatch_clear : Target W → BreakwatchType → ℕ → ℕ → W → ℕ × Target W × W
  unfolding clear_first
  target_breakwatch_clear t kind addr len w =
      let (ret, bws, w') = clear_first t kind addr len t.bw_list w in
      (ret, record t { bw_list = bws }, w')
