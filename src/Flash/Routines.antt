-- ===== src/Flash/Routines.antt =====
-- target_flash.c: the routines that the GDB server calls, over all regions of a target.
pub mod Completion
use blackmagic.Base.{
  ℕ, zero, suc, ◌+◌, ◌-◌, ◌^◌, min, Option, none, some, List, [], ◌∷◌, Bytes, length, get_elem?,
  set, take, drop, Bool, true, false, not, ◌&&◌, ◌==◌, if◌then◌else◌,
}
use blackmagic.Base.Words.{u32, align_down}
use blackmagic.Flash.{
  Flash, Target, Call, covers, flash_for_addr, enter_flash_mode, exit_flash_mode, flash_prepare,
  flash_done, flash_buffer_alloc, flash_buffered_flush, flash_buffered_write,
}

module _ {D : Type 0} where
  -- A routine on one region, run on the region at a position of the target's list.
  abbrev on_flash : (Flash D → D → Bool × Flash D × D) → ℕ → Target D → Bool × Target D
  on_flash op i t = elim (get_elem? t.flash i) [
    | none ↦ (false, t)
    | some f ↦
        let (ret, f', d) = op f t.device in (ret, record t { flash = set t.flash i f'; device = d })
  ]

  -- Two routines in turn; both are run whatever the first answers.
  abbrev and_then :
      (Target D → Bool × Target D) → (Target D → Bool × Target D) → Target D → Bool × Target D
  and_then first second t = let (a, t') = first t in let (b, t'') = second t' in (a && b, t'')

  -- The change of the active region at the head of a round of `target_flash_erase`.
  abbrev leave_erased : ℕ → ℕ → Target D → Bool × Target D
  leave_erased active j t = if j == active then (true, t) else on_flash flash_done active t

  -- One block of `target_flash_erase`: the region is prepared and the block erased.
  abbrev erase_call : ℕ → Flash D → D → Bool × Flash D × D
  erase_call block f d = let (ok, d') = f.erase block f.blocksize d in (ok, f, d')

  -- The loop of `target_flash_erase`, on fuel (`none` when it runs out), and its end.
  pub erase_loop : ℕ → ℕ → ℕ → ℕ → Bool → Target D → Option (Bool × Target D)
  erase_loop fuel active addr zero ret t =
      let (ok, t') = on_flash flash_done active t in some (ret && ok, t')
  erase_loop zero active addr (suc n) ret t = none
  erase_loop (suc fuel) active addr (suc n) ret t = elim (flash_for_addr t.flash addr) [
    | none ↦ some (false, t)
    | some j ↦
        let (left, t1) = leave_erased active j t in
        let (ready, t2) = on_flash flash_prepare j t1 in
        let size : ℕ = elim (get_elem? t.flash j) [ none ↦ 1 | some f ↦ f.blocksize ] in
        let block = align_down addr size in
        let block_end = u32 (block + size) in
        let (erased, t3) = on_flash (erase_call block) j t2 in
        let ok = ret && left && erased in
        let step = min (u32 (block_end + 2 ^ 32 - addr)) (suc n) in
        let (last, t4) = on_flash flash_done j t3 in
        let rest = erase_loop fuel j block_end (suc n - step) ok t3 in
        if not ready then some (false, t2) else if ok then rest else some (false, t4)
  ]

  -- `target_flash_erase`.
  unfoldable pub target_flash_erase : ℕ → Target D → ℕ → ℕ → Option (Bool × Target D)
  unfolding erase_loop
  target_flash_erase fuel t addr len =
      let (entered, t') = enter_flash_mode t in
      let run : Option (Bool × Target D) = elim (flash_for_addr t'.flash addr) [
        | none ↦ some (false, t')
        | some active ↦ erase_loop fuel active addr len true t'
      ] in
      if entered then run else some (false, t')

  -- The walk over the regions at the head of `target_flash_write`: the last region that covers the
  -- address becomes active, and a buffer of any other is flushed and freed.
  abbrev pub flush_and_done : Flash D → D → Bool × Flash D × D
  flush_and_done f d =
      let (a, f', d') = flash_buffered_flush f d in
      let (b, f'', d'') = flash_done f' d' in (a && b, f'', d'')

  abbrev has_buffer : Flash D → Bool
  has_buffer f = elim f.buf [ none ↦ false | some b ↦ true ]

  pub settle : List (Flash D) → ℕ → ℕ → Option ℕ → Bool → D → Bool × Option ℕ × List (Flash D) × D
  settle [] dest i active ret d = (ret, active, [], d)
  settle (f ∷ fs) dest i active ret d =
      let (ok, f', d') =
        if not (covers f dest) && has_buffer f then flush_and_done f d else (true, f, d) in
      let active' = if covers f dest then some i else active in
      let (ret', active'', fs', d'') = settle fs dest (i + 1) active' (ret && ok) d' in
      (ret', active'', f' ∷ fs', d'')

  -- The change of the active region at the head of a round of `target_flash_write`.
  abbrev leave_written : ℕ → ℕ → Target D → Bool × Target D
  leave_written active j t = if j == active then (true, t) else on_flash flush_and_done active t

  abbrev alloc_if_needed : (ℕ → Call D) → Flash D → D → Bool × Flash D × D
  alloc_if_needed malloc f d = if has_buffer f then (true, f, d) else flash_buffer_alloc malloc f d

  -- A region's answer to a piece of a write, with the fuel of `flash_buffered_write` enough for it.
  abbrev write_piece : ℕ → Bytes → Flash D → D → Bool × Flash D × D
  write_piece dest piece f d = elim (flash_buffered_write (length piece) f d dest piece true) [
    | none ↦ (false, f, d)
    | some r ↦ r
  ]

  -- The loop of `target_flash_write`, on fuel (`none` when it runs out).
  pub write_loop : ℕ → ℕ → ℕ → Bytes → Bool → Target D → Option (Bool × Target D)
  write_loop fuel active dest [] ret t = some (ret, t)
  write_loop zero active dest (b ∷ src) ret t = none
  write_loop (suc fuel) active dest (b ∷ src) ret t = elim (flash_for_addr t.flash dest) [
    | none ↦ some (false, t)
    | some j ↦
        let (left, t1) = leave_written active j t in
        let (got, t2) = on_flash (alloc_if_needed t.malloc) j t1 in
        let region_end : ℕ = elim (get_elem? t.flash j) [
          | none ↦ 0
          | some f ↦ u32 (f.start + f.size)
        ] in
        let local_end = min (u32 (dest + length (b ∷ src))) region_end in
        let local_length = u32 (local_end + 2 ^ 32 - dest) in
        let (wrote, t3) = on_flash (write_piece dest (take local_length (b ∷ src))) j t2 in
        let ok = ret && left && got in
        let rest = write_loop fuel j local_end (drop local_length (b ∷ src)) true t3 in
        if not ok then some (false, t2) else if wrote then rest else some (false, t3)
  ]

  -- `target_flash_write`.
  unfoldable pub target_flash_write : ℕ → Target D → ℕ → Bytes → Option (Bool × Target D)
  unfolding write_loop settle
  target_flash_write fuel t dest src =
      let (entered, t') = enter_flash_mode t in
      let (ret, active, fs, d) = settle t'.flash dest 0 none true t'.device in
      let settled = record t' { flash = fs; device = d } in
      let run : Option (Bool × Target D) = elim active [
        | none ↦ some (false, settled)
        | some i ↦ if ret then write_loop fuel i dest src true settled else some (false, settled)
      ] in
      if entered then run else some (false, t')

  -- The loop of `target_flash_complete`.
  pub finish_all : List (Flash D) → Bool → D → Bool × List (Flash D) × D
  finish_all [] ret d = (ret, [], d)
  finish_all (f ∷ fs) ret d =
      let (ok, f', d') = flush_and_done f d in
      let (ret', fs', d'') = finish_all fs (ret && ok) d' in (ret', f' ∷ fs', d'')

  -- `target_flash_complete`.
  unfoldable pub target_flash_complete : Target D → Bool × Target D
  unfolding finish_all
  target_flash_complete t =
      let (ret, fs, d) = finish_all t.flash true t.device in
      let (exited, t') = exit_flash_mode (record t { flash = fs; device = d }) in
      if t.flash_mode then (ret, t') else (false, t)
