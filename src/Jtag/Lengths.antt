-- ===== src/Jtag/Lengths.antt =====
-- target/jtag_scan.c: the lengths of the instruction registers, read from the chain.
use blackmagic.Base.{
  ℕ, zero, suc, ◌+◌, ◌-◌, ◌<◌, ◌≤◌, Option, some, List, [], ◌∷◌, ◌++◌, append_assoc, length, get_or,
  set, All, Bool, true, false, not, ◌&&◌, ◌||◌, ltb, ◌==◌, ◌≡◌, refl, sym, ap, ◌∙◌, arith,
}
use blackmagic.Base.{if_lem, ap₂, length-append}
use blackmagic.Base.Words.{u8}
use blackmagic.Wire.Line.{first}
use blackmagic.Jtag.{
  JtagProc, Device, Descr, IrScan, scanned, Reading, empty_device, uint32_max, max_ir_len,
  get_quirks, next_device, ir_loop, read_irs,
}

-- A chain whose bits wait; what the probe puts out is lost.
abbrev pub chain_proc : JtagProc (List Bool)
chain_proc = record {
  reset = λ w. w;
  next = λ tms tdi w. first w;
  tms_seq = λ states n w. w;
  tdi_seq = λ final bytes n w. w;
  tdi_tdo_seq = λ final bytes n out w. (out, w);
}

abbrev pub zeros : ℕ → List Bool
zeros zero = []
zeros (suc n) = false ∷ zeros n

-- The bits of the registers behind the first one: each register gives a one and then zeros, and
-- behind the last one there are only ones.
abbrev pub tail_bits : List ℕ → List Bool
tail_bits [] = true ∷ []
tail_bits (zero ∷ lens) = true ∷ tail_bits lens
tail_bits (suc len ∷ lens) = zeros len ++ (true ∷ tail_bits lens)

abbrev pub register_bits : List ℕ → List Bool
register_bits lens = true ∷ tail_bits lens

-- The fuel for these bits: one unit for each, and `k` more.
abbrev pub steps : ℕ → ℕ → ℕ
steps zero k = k
steps (suc n) k = suc (steps n k)

abbrev pub fuel_for : List ℕ → ℕ → ℕ
fuel_for [] k = suc k
fuel_for (zero ∷ lens) k = suc (fuel_for lens k)
fuel_for (suc len ∷ lens) k = steps len (suc (fuel_for lens k))

-- The devices with these lengths and the sums of the lengths before each.
abbrev pub assign : ℕ → List ℕ → List Device → List Device
assign p [] devs = devs
assign p (len ∷ lens) [] = []
assign p (len ∷ lens) (d ∷ devs) =
    record d { ir_len = len; ir_prescan = u8 p; current_ir = uint32_max }
    ∷ assign (p + len) lens devs

-- A reading without quirks.
abbrev pub reading : List Device → ℕ → ℕ → ℕ → Reading
reading devs device p n = record {
  devs = devs;
  device = device;
  prescan = p;
  ir_len = n;
  quirk_value = 0;
  quirk_length = 0;
}

-- The lengths that the scan can tell: at least two bits, and not too many.
abbrev pub Fits : ℕ → Type 0
Fits len = (2 ≤ len) × (len ≤ max_ir_len)

module _ (descrs : List Descr) (behind : Device) where
  abbrev pub loop : ℕ → Reading → List Bool → Option (IrScan (List Bool))
  loop fuel r w = ir_loop chain_proc descrs behind fuel r w

  -- A bit that does not complete a register.
  pub go_on :
      (fuel n device p : ℕ) (devs : List Device) (b : Bool) (w : List Bool)
      → n ≤ max_ir_len
      → (b && ltb 1 (n + 1)) ≡ false
      → loop (suc fuel) (reading devs device p n) (b ∷ w)
        ≡ loop fuel (reading devs device p (n + 1)) w
  unfolding ir_loop
  go_on fuel n device p devs b w h e =
      let P : Option (IrScan (List Bool)) → Type 0 =
        λ o. o ≡ loop fuel (reading devs device p (n + 1)) w in
      let more : not ((b && ltb 1 (n + 1)) || n + 1 == 0) ≡ true = ground (arith, e) in
      if_lem P (ltb max_ir_len n) (λ f. absurd (ground arith))
        (λ f.
          if_lem P (not ((b && ltb 1 (n + 1)) || n + 1 == 0)) (λ f'. refl)
            (λ f'. absurd (ground (arith, more, f'))))

  pub many_zeros :
      (m fuel n device p : ℕ) (devs : List Device) (w : List Bool)
      → n + m ≤ max_ir_len + 1
      → loop (steps m fuel) (reading devs device p n) (zeros m ++ w)
        ≡ loop fuel (reading devs device p (n + m)) w
  many_zeros zero fuel n device p devs w h =
      ap (λ i. loop fuel (reading devs device p i) w) (omega arith)
  many_zeros (suc m) fuel n device p devs w h =
      let shift : n + 1 + m ≡ n + suc m = omega arith in
      go_on (steps m fuel) n device p devs false (zeros m ++ w) (omega arith) refl
      ∙ many_zeros m fuel (n + 1) device p devs w (omega arith)
      ∙ ap (λ i. loop fuel (reading devs device p i) w) shift

  -- A one behind at least two bits completes the register.
  pub complete :
      (fuel n device p : ℕ) (devs : List Device) (w : List Bool)
      → 2 ≤ n
      → n ≤ max_ir_len
      → device < length devs
      → loop (suc fuel) (reading devs device p n) (true ∷ w)
        ≡ loop fuel (next_device descrs behind (n + 1 - 1) 1 (reading devs device p n)) w
  unfolding ir_loop
  complete fuel n device p devs w lo hi room =
      let P : Option (IrScan (List Bool)) → Type 0 =
        λ o. o ≡ loop fuel (next_device descrs behind (n + 1 - 1) 1 (reading devs device p n)) w in
      if_lem P (ltb max_ir_len n) (λ f. absurd (ground arith))
        (λ f.
          if_lem P (not (ltb 1 (n + 1) || n + 1 == 0)) (λ f'. absurd (ground arith))
            (λ f'.
              if_lem P (n + 1 == 2) (λ f''. absurd (ground arith))
                (λ f''.
                  if_lem P (ltb device (length devs)) (λ d. refl) (λ d. absurd (ground arith)))))

  -- No device that the scan meets has quirks.
  abbrev pub Plain : Device → Type 0
  Plain d = get_quirks descrs d.idcode ≡ (0, 0)

  get_or-next :
      (done : List Device) (x : Device) (devs : List Device)
      → get_or (done ++ (x ∷ devs)) (length done + 1) behind ≡ get_or devs 0 behind
  get_or-next [] x devs = refl
  get_or-next (d ∷ done) x devs =
      let shift : suc (length done) + 1 ≡ suc (length done + 1) = omega arith in
      ap (λ i. get_or (d ∷ (done ++ (x ∷ devs))) i behind) shift ∙ get_or-next done x devs

  set-middle :
      (done : List Device) (x y : Device) (devs : List Device)
      → set (done ++ (x ∷ devs)) (length done) y ≡ done ++ (y ∷ devs)
  set-middle [] x y devs = refl
  set-middle (d ∷ done) x y devs = ap (λ t. d ∷ t) (set-middle done x y devs)

  get_or-middle :
      (done : List Device) (x : Device) (devs : List Device)
      → get_or (done ++ (x ∷ devs)) (length done) empty_device ≡ x
  get_or-middle [] x devs = refl
  get_or-middle (d ∷ done) x devs = get_or-middle done x devs

  pub first-Plain :
      (devs : List Device) → All Plain devs → Plain behind → Plain (get_or devs 0 behind)
  first-Plain [] all last = last
  first-Plain (d ∷ devs) (plain, all) last = plain

  pub next-Plain :
      (done devs : List Device) (x : Device) (p n len : ℕ)
      → All Plain devs
      → Plain behind
      → (let x' = record x { ir_len = len; ir_prescan = u8 p; current_ir = uint32_max } in
          next_device descrs behind len 1 (reading (done ++ (x ∷ devs)) (length done) p n)
          ≡ reading (done ++ (x' ∷ devs)) (length done + 1) (p + len) 1)
  next-Plain done devs x p n len all last =
      let xs = done ++ (x ∷ devs) in
      let fill : Device → Device =
        λ d. record d { ir_len = len; ir_prescan = u8 p; current_ir = uint32_max } in
      let dev : set xs (length done) (fill (get_or xs (length done) empty_device))
          ≡ done ++ (fill x ∷ devs) =
        ap (λ d. set xs (length done) (fill d)) (get_or-middle done x devs)
        ∙ set-middle done x (fill x) devs in
      let next : List Device → Reading = λ ys.
        (let (value, size) = get_quirks descrs (get_or ys (length done + 1) behind).idcode in
          record {
            devs = ys;
            device = length done + 1;
            prescan = p + len;
            ir_len = 1;
            quirk_value = value;
            quirk_length = size;
          }) in
      let quirks : get_quirks descrs
            (get_or (done ++ (fill x ∷ devs)) (length done + 1) behind).idcode
          ≡ (0, 0) =
        ap (λ (d : Device). get_quirks descrs d.idcode) (get_or-next done (fill x) devs)
        ∙ first-Plain devs all last in
      ap next dev
      ∙ ap
          (λ (q : ℕ × ℕ). record {
            devs = done ++ (fill x ∷ devs);
            device = length done + 1;
            prescan = p + len;
            ir_len = 1;
            quirk_value = q.0;
            quirk_length = q.1;
          })
          quirks

  -- A whole register, and the one behind it that completes it.
  pub one_register :
      (m fuel p : ℕ) (done devs : List Device) (x : Device) (w : List Bool)
      → suc (suc m) ≤ max_ir_len
      → All Plain devs
      → Plain behind
      → (let x' = record x { ir_len = suc (suc m); ir_prescan = u8 p; current_ir = uint32_max } in
          loop
            (steps (suc m) (suc fuel))
            (reading (done ++ (x ∷ devs)) (length done) p 1)
            (zeros (suc m) ++ (true ∷ w))
          ≡ loop fuel
              (reading
                ((done ++ (x' ∷ [])) ++ devs)
                (length (done ++ (x' ∷ [])))
                (p + suc (suc m))
                1)
              w)
  one_register m fuel p done devs x w hi plain last =
      let len : ℕ = suc (suc m) in
      let xs = done ++ (x ∷ devs) in
      let x' : Device = record x { ir_len = len; ir_prescan = u8 p; current_ir = uint32_max } in
      let room : length done < length xs = omega (arith, length-append done (x ∷ devs)) in
      let size : 1 + suc m + 1 - 1 ≡ len = omega arith in
      let joined : done ++ (x' ∷ devs) ≡ (done ++ (x' ∷ [])) ++ devs =
        sym (append_assoc done (x' ∷ []) devs) in
      let longer : length done + 1 ≡ length (done ++ (x' ∷ [])) =
        sym (length-append done (x' ∷ [])) in
      many_zeros (suc m) (suc fuel) 1 (length done) p xs (true ∷ w) (omega arith)
      ∙ complete fuel (1 + suc m) (length done) p xs w (omega arith) (omega arith) room
      ∙ ap
          (λ i.
            loop fuel (next_device descrs behind i 1 (reading xs (length done) p (1 + suc m))) w)
          size
      ∙ ap (λ r. loop fuel r w) (next-Plain done devs x p (1 + suc m) len plain last)
      ∙ ap₂ (λ ys n. loop fuel (reading ys n (p + len) 1) w) joined longer

  registers :
      (lens : List ℕ) (k p : ℕ) (done devs : List Device)
      → All Fits lens
      → length lens ≤ length devs
      → All Plain devs
      → Plain behind
      → loop (fuel_for lens k) (reading (done ++ devs) (length done) p 1) (tail_bits lens)
        ≡ some (scanned (done ++ assign p lens devs) [])
  unfolding ir_loop
  registers [] k p done devs fits le plain last = refl
  registers (zero ∷ lens) k p done devs ((lo, hi), fits) le plain last = absurd (omega arith)
  registers (suc zero ∷ lens) k p done devs ((lo, hi), fits) le plain last = absurd (omega arith)
  registers (suc (suc m) ∷ lens) k p done [] fits le plain last = absurd (omega arith)
  registers (suc (suc m) ∷ lens) k p done (x ∷ devs) ((lo, hi), fits) le (px, plain) last =
      let len : ℕ = suc (suc m) in
      let x' : Device = record x { ir_len = len; ir_prescan = u8 p; current_ir = uint32_max } in
      one_register m (fuel_for lens k) p done devs x (tail_bits lens) hi plain last
      ∙ registers lens k (p + len) (done ++ (x' ∷ [])) devs fits (omega arith) plain last
      ∙ ap (λ t. some (scanned t [])) (append_assoc done (x' ∷ []) (assign (p + len) lens devs))

  -- On a chain of registers of 2 to 16 bits that give a one and then zeros, with ones behind the last
  -- one, `jtag_read_irs` ends and finds exactly these lengths and the sums before them, when no device
  -- has quirks and the array has room for the devices.
  pub read_irs-assign :
      (lens : List ℕ) (k : ℕ) (devs : List Device)
      → All Fits lens
      → length lens ≤ length devs
      → All Plain devs
      → Plain behind
      → read_irs chain_proc descrs behind (suc (fuel_for lens k)) devs (register_bits lens)
        ≡ some (scanned (assign 0 lens devs) [])
  unfolding read_irs
  read_irs-assign lens k devs fits le plain last =
      ap
        (λ (q : ℕ × ℕ).
          loop (suc (fuel_for lens k))
            (record {
              devs = devs;
              device = 0;
              prescan = 0;
              ir_len = 0;
              quirk_value = q.0;
              quirk_length = q.1;
            })
            (register_bits lens))
        (first-Plain devs plain last)
      ∙ go_on (fuel_for lens k) 0 0 0 devs true (tail_bits lens) (omega arith) refl
      ∙ registers lens k 0 [] devs fits le plain last
