-- ===== src/Target/WriteBuffer.antt =====
-- target/target.c: the size of the write buffer of a flash region, from `target_add_flash`.
use blackmagic.Base.{
  ℕ, ◌+◌, ◌*◌, ◌/◌, ◌<◌, ◌≤◌, max, leb, ◌==◌, if◌then◌else◌, ◌≡◌, arith, inl, inr, Bool-cases,
}
use native.Mathlib.Nat.{div-mul-le_self, lt-div-mul-add, mul_comm, le-div_iff_mul-le}
use blackmagic.Target.{flash_sizes}

-- `target_add_flash` makes the write buffer a whole number of writes, of at least one, that is not
-- above 1024 bytes unless a single write is, and that has no room for another write below 1024. A
-- write size of 0 stands for the block size; the two are not both 0.
pub flash_sizes_multiple :
    (blocksize given : ℕ)
    → 0 < blocksize + given
    → (let (ws, wbs) = flash_sizes blocksize given in
        (0 < ws)
        × ((count : ℕ) × (0 < count) × (wbs ≡ count * ws))
        × (wbs ≤ max 1024 ws)
        × (1024 < wbs + ws))
unfolding flash_sizes
flash_sizes_multiple blocksize given h =
    whole (if given == 0 then blocksize else given) (ground arith)
  where
    whole :
        (ws : ℕ)
        → 0 < ws
        → (let wbs = if leb ws (1024 / 2) then ws * (1024 / ws) else ws in
            (0 < ws)
            × ((count : ℕ) × (0 < count) × (wbs ≡ count * ws))
            × (wbs ≤ max 1024 ws)
            × (1024 < wbs + ws))
    whole ws pos = elim (Bool-cases (leb ws (1024 / 2))) [
      | inl e ↦
          let small : ws ≤ 512 = ground arith in
          let n_pos : 1 ≤ 1024 / ws = (le-div_iff_mul-le pos).1 (omega arith) in
          let near : 1024 < 1024 / ws * ws + ws = lt-div-mul-add pos in
          rw e (
            pos,
            (1024 / ws, n_pos, mul_comm ws (1024 / ws)),
            omega (arith, div-mul-le_self 1024 ws, mul_comm ws (1024 / ws)),
            omega (arith, near, mul_comm ws (1024 / ws)),
          )
      | inr e ↦
          let large : 512 < ws = ground arith in
          rw e (pos, (1, omega arith, omega arith), omega arith, omega arith)
    ]
