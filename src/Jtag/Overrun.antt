-- ===== src/Jtag/Overrun.antt =====
-- target/jtag_scan.c: a chain that shows more instruction registers than there is room for.
use blackmagic.Base.{
  ℕ, zero, suc, ◌+◌, ◌<◌, ◌≤◌, Option, some, List, [], ◌∷◌, ◌++◌, append-nil, length, All, Bool,
  true, not, ◌||◌, ltb, ◌==◌, ◌≡◌, refl, sym, ap, ◌∙◌, arith,
}
use blackmagic.Base.{if_lem}
use blackmagic.Base.Words.{u8}
use blackmagic.Jtag.{Device, Descr, IrScan, overrun, uint32_max, max_ir_len, ir_loop, read_irs}
use blackmagic.Jtag.Lengths.{
  chain_proc, tail_bits, register_bits, fuel_for, reading, loop, many_zeros, one_register,
  first-Plain, go_on, Plain, Fits,
}

module _ (descrs : List Descr) (behind : Device) where
  -- The end of a register for which there is no room.
  no_room :
      (fuel n p : ℕ) (devs : List Device) (w : List Bool)
      → 2 ≤ n
      → n ≤ max_ir_len
      → loop descrs behind (suc fuel) (reading devs (length devs) p n) (true ∷ w) ≡ some overrun
  unfolding ir_loop
  no_room fuel n p devs w lo hi =
      let P : Option (IrScan (List Bool)) → Type 0 = λ o. o ≡ some overrun in
      if_lem P (ltb max_ir_len n) (λ f. absurd (ground arith))
        (λ f.
          if_lem P (not (ltb 1 (n + 1) || n + 1 == 0)) (λ f'. absurd (ground arith))
            (λ f'.
              if_lem P (n + 1 == 2) (λ f''. absurd (ground arith))
                (λ f''.
                  if_lem P (ltb (length devs) (length devs)) (λ d. absurd (ground arith))
                    (λ d. refl))))

  registers-overrun :
      (lens : List ℕ) (k p : ℕ) (done devs : List Device)
      → All Fits lens
      → length devs < length lens
      → All (Plain descrs behind) devs
      → Plain descrs behind behind
      → loop descrs behind
          (fuel_for lens k)
          (reading (done ++ devs) (length done) p 1)
          (tail_bits lens)
        ≡ some overrun
  registers-overrun [] k p done devs fits lt plain last = absurd (omega arith)
  registers-overrun (zero ∷ lens) k p done devs ((lo, hi), fits) lt plain last =
      absurd (omega arith)
  registers-overrun (suc zero ∷ lens) k p done devs ((lo, hi), fits) lt plain last =
      absurd (omega arith)
  registers-overrun (suc (suc m) ∷ lens) k p done [] ((lo, hi), fits) lt plain last =
      let xs = done ++ [] in
      let fuel = fuel_for lens k in
      let w = tail_bits lens in
      let full : length done ≡ length xs = ap length (sym (append-nil done)) in
      many_zeros descrs behind (suc m) (suc fuel) 1 (length done) p xs (true ∷ w) (omega arith)
      ∙ ap (λ i. loop descrs behind (suc fuel) (reading xs i p (1 + suc m)) (true ∷ w)) full
      ∙ no_room fuel (1 + suc m) p xs w (omega arith) (omega arith)
  registers-overrun (suc (suc m) ∷ lens) k p done (x ∷ devs) ((lo, hi), fits) lt (px, plain) last =
      let x' : Device = record x {
        ir_len = suc (suc m);
        ir_prescan = u8 p;
        current_ir = uint32_max;
      } in
      one_register descrs behind m (fuel_for lens k) p done devs x (tail_bits lens) hi plain last
      ∙ registers-overrun lens k (p + suc (suc m)) (done ++ (x' ∷ [])) devs fits (omega arith) plain
          last

  -- On a chain that shows more registers than the array has devices, `jtag_read_irs` writes behind
  -- the array, when no device has quirks and each register has from 2 to 16 bits.
  pub read_irs-overrun :
      (lens : List ℕ) (k : ℕ) (devs : List Device)
      → All Fits lens
      → length devs < length lens
      → All (Plain descrs behind) devs
      → Plain descrs behind behind
      → read_irs chain_proc descrs behind (suc (fuel_for lens k)) devs (register_bits lens)
        ≡ some overrun
  unfolding read_irs
  read_irs-overrun lens k devs fits lt plain last =
      ap
        (λ (q : ℕ × ℕ).
          loop descrs behind (suc (fuel_for lens k))
            (record {
              devs = devs;
              device = 0;
              prescan = 0;
              ir_len = 0;
              quirk_value = q.0;
              quirk_length = q.1;
            })
            (register_bits lens))
        (first-Plain descrs behind devs plain last)
      ∙ go_on descrs behind (fuel_for lens k) 0 0 0 devs true (tail_bits lens) (omega arith) refl
      ∙ registers-overrun lens k 0 [] devs fits lt plain last
