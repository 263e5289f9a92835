-- ===== src/Jtag/Given.antt =====
-- target/jtag_scan.c: a scan that is given the lengths of the instruction registers.
use blackmagic.Base.{
  ℕ, zero, suc, ◌+◌, ◌-◌, ◌^◌, ◌<◌, ◌≤◌, Option, none, some, List, [], ◌∷◌, ◌++◌, length, get_or,
  set, take, drop, replicate, All, subst, Bool, true, false, ◌||◌, ltb, ◌==◌, ◌≡◌, refl, sym, ap,
  ◌∙◌, arith, ◌⊎◌, inl, inr,
}
use blackmagic.Base.{if_lem, length-set, get_or-set_self, get_or-set_ne}
use blackmagic.Base.Words.{u8}
use blackmagic.Session.Tracked.{option_lem}
use blackmagic.Jtag.{
  JtagProc, Device, Descr, Chain, empty_device, max_devs, max_ir_len, uint32_max, idcode_loop,
  read_idcodes, word_of, ones, shift_to_dr, shift_ir, validate_loop, validate_irs, bypass_loop,
  sanity_check, fill_postscan, return_idle,
}
use blackmagic.Jtag.Scan.{Platform, find_irs, finish_scan, jtag_scan}
use blackmagic.Jtag.Postscan.{
  sum, path_length, place, Assigned, Alike, Alike-refl, Alike-trans, Alike-set, Alike-Assigned,
  fill-path, take-fill,
}

-- A given length is written into the chain, and those before it are kept.
abbrev Validated : ℕ → ℕ → List ℕ → List Device → Option (List Device) → Type 0
Validated device p lens devs none = Unit
Validated device p lens devs (some devs') =
    (length devs' ≡ length devs)
    × (((j : ℕ) → j < device → get_or devs' j empty_device ≡ get_or devs j empty_device)
        × Assigned p lens (drop device devs'))

drop-get_or :
    (devs : List Device) (i : ℕ)
    → i < length devs
    → drop i devs ≡ get_or devs i empty_device ∷ drop (i + 1) devs
drop-get_or [] i lt = absurd (omega arith)
drop-get_or (d ∷ devs) zero lt = refl
drop-get_or (d ∷ devs) (suc i) lt =
    let shift : suc (i + 1) ≡ suc i + 1 = omega arith in
    drop-get_or devs i (omega arith)
    ∙ ap (λ n. get_or devs i empty_device ∷ drop n (d ∷ devs)) shift

Validated-cons :
    (device p len : ℕ) (lens : List ℕ) (devs : List Device) (dev : Device)
    → device < length devs
    → place dev ≡ (len, u8 p)
    → (o : Option (List Device)) → Validated (device + 1) (p + len) lens (set devs device dev) o
    → Validated device p (len ∷ lens) devs o
Validated-cons device p len lens devs dev lt h none v = tt
Validated-cons device p len lens devs dev lt h (some devs') (size, (before, assigned)) =
    let grown : length devs' ≡ length devs = size ∙ length-set devs device dev in
    let own = before device (omega arith) ∙ get_or-set_self devs device dev empty_device lt in
    let kept : (j : ℕ) → j < device → get_or devs' j empty_device ≡ get_or devs j empty_device =
      λ j below.
        before j (omega (arith, below))
        ∙ get_or-set_ne devs device j dev empty_device (λ e. absurd (omega (arith, e, below))) in
    (
      grown,
      (
        kept,
        subst (λ ds. Assigned p (len ∷ lens) ds)
            (sym (drop-get_or devs' device (omega (arith, lt, grown))))
            (ap place own ∙ h, assigned),
      ),
    )

-- What the scan of the codes has found.
abbrev Found : ℕ → List Device → Option (List Device × ℕ) → Type 0
Found most devs none = Unit
Found most devs (some (devs', n)) = (length devs' ≡ length devs) × (n ≤ most)

Found-set :
    (most i : ℕ) (devs : List Device) (d : Device) (o : Option (List Device × ℕ))
    → Found most (set devs i d) o
    → Found most devs o
Found-set most i devs d none f = tt
Found-set most i devs d (some (devs', n)) (size, le) = (size ∙ length-set devs i d, le)

-- The devices behind the check of the chain.
abbrev Checked : {W : Type 0} → List Device → Option (List Device × ℕ × W) → Type 0
Checked devs none = ⊥
Checked devs (some (devs', n, w)) = Alike devs' devs

Checked-trans :
    {W : Type 0} (devs devs' : List Device) (o : Option (List Device × ℕ × W))
    → Alike devs' devs
    → Checked devs' o
    → Checked devs o
Checked-trans devs devs' none a c = c
Checked-trans devs devs' (some (devs'', n, w)) a c = Alike-trans devs'' devs' devs c a

module _ {W : Type 0} (jtag : JtagProc W) where
  idcode_loop-Found :
      (room device : ℕ) (devs : List Device) (w : W)
      → Found (device + room) devs (idcode_loop jtag room device devs w).0
  unfolding idcode_loop
  idcode_loop-Found zero device devs w =
      let (b, w') = jtag.tdi_tdo_seq false ones 32 (replicate 4 0) w in
      if_lem (λ o. Found (device + 0) devs o) (word_of b == uint32_max) (λ e. (refl, omega arith))
        (λ e. tt)
  idcode_loop-Found (suc room) device devs w =
      let (b, w') = jtag.tdi_tdo_seq false ones 32 (replicate 4 0) w in
      let dev = record (get_or devs device empty_device) { idcode = word_of b } in
      let rest = idcode_loop-Found room (device + 1) (set devs device dev) w' in
      let shift : device + 1 + room ≡ device + suc room = omega arith in
      if_lem (λ (r : Option (List Device × ℕ) × W). Found (device + suc room) devs r.0)
        (word_of b == uint32_max) (λ e. (refl, omega arith))
        (λ e.
          Found-set (device + suc room) device devs dev
            (idcode_loop jtag room (device + 1) (set devs device dev) w').0
            (subst
              (λ n.
                Found n (set devs device dev)
                  (idcode_loop jtag room (device + 1) (set devs device dev) w').0)
              shift rest))

  validate_loop-Validated :
      (lens : List ℕ) (device p : ℕ) (devs : List Device) (w : W)
      → device + length lens ≤ length devs
      → Validated device p lens devs (validate_loop jtag lens device p devs w).0
  unfolding validate_loop
  validate_loop-Validated [] device p devs w le = (refl, ((λ j lt. refl), tt))
  validate_loop-Validated (len ∷ lens) device p devs w le =
      let w' = (jtag.tdi_tdo_seq false ones len (replicate 4 0) w).1 in
      let dev = record (get_or devs device empty_device) {
        ir_len = len;
        ir_prescan = u8 p;
        current_ir = uint32_max;
      } in
      let room : device + 1 + length lens ≤ length (set devs device dev) =
        omega (arith, le, length-set devs device dev) in
      if_lem (λ (r : Option (List Device) × W). Validated device p (len ∷ lens) devs r.0)
        (ltb max_ir_len len || len == 0) (λ e. tt)
        (λ e.
          Validated-cons device p len lens devs dev (omega (arith, le)) refl
            (validate_loop jtag lens (device + 1) (p + len) (set devs device dev) w').0
            (validate_loop-Validated lens (device + 1) (p + len) (set devs device dev) w' room))

  bypass_loop-Checked :
      (count left device : ℕ) (devs : List Device) (w : W)
      → device + left ≤ length devs
      → Checked devs (bypass_loop jtag count left device devs w)
  unfolding bypass_loop
  bypass_loop-Checked count zero device devs w le = Alike-refl devs
  bypass_loop-Checked count (suc left) device devs w le =
      let (bit, w') = jtag.next false true w in
      let dev = record (get_or devs device empty_device) {
        dr_prescan = u8 device;
        dr_postscan = u8 (count + 2 ^ 8 - device - 1);
      } in
      let room : device + 1 + left ≤ length (set devs device dev) =
        omega (arith, le, length-set devs device dev) in
      let P : Option (List Device × ℕ × W) → Type 0 = λ o. Checked devs o in
      if_lem P bit (λ e. Alike-refl devs)
        (λ e.
          if_lem P (ltb device (length devs))
            (λ lt.
              Checked-trans devs (set devs device dev)
                (bypass_loop jtag count left (device + 1) (set devs device dev) w')
                (Alike-set devs device dev refl)
                (bypass_loop-Checked count left (device + 1) (set devs device dev) w' room))
            (λ ge. absurd (ground (arith, le, ge))))

  -- The chain behind the codes, when they were read.
  abbrev WasRead : Bool × Chain × W → Type 0
  WasRead r = r.0 ≡ true → (length r.1.devs ≡ max_devs) × (r.1.count ≤ max_devs)

  read_idcodes-WasRead :
      (chain : Chain) (w : W) → length chain.devs ≡ max_devs → WasRead (read_idcodes jtag chain w)
  unfolding read_idcodes
  read_idcodes-WasRead chain w size =
      let w1 = shift_to_dr jtag (jtag.reset w) in
      let found = idcode_loop jtag max_devs 0 chain.devs w1 in
      let f = idcode_loop-Found max_devs 0 chain.devs w1 in
      option_lem (λ (r : Bool × Chain × W). WasRead r) found.0 (λ e h. absurd (ground (arith, h)))
        (λ a e h.
          let (same, le) = subst (λ o. Found (0 + max_devs) chain.devs o) e f in
          (same ∙ size, omega (arith, le)))

  -- The chain behind the given lengths, when they were allowed and as many as the devices.
  abbrev WasGiven : List ℕ → Bool × Chain × W → Type 0
  WasGiven lens r =
      r.0 ≡ true
      → (length lens ≡ r.1.count) × (length r.1.devs ≡ max_devs) × Assigned 0 lens r.1.devs

  validate_irs-WasGiven :
      (gdb_outf : W → W) (lens : List ℕ) (chain : Chain) (w : W)
      → length chain.devs ≡ max_devs
      → chain.count ≤ max_devs
      → WasGiven lens (validate_irs jtag gdb_outf lens chain w)
  unfolding validate_irs
  validate_irs-WasGiven gdb_outf lens chain w size le =
      let found = validate_loop jtag lens 0 0 chain.devs (shift_ir jtag w) in
      let P : Bool × Chain × W → Type 0 = λ r. WasGiven lens r in
      if_lem P (length lens == chain.count)
        (λ e.
          let many : length lens ≡ chain.count = ground (arith, e) in
          option_lem P found.0 (λ n h. absurd (ground (arith, h)))
            (λ devs f h.
              let v =
                subst (λ o. Validated 0 0 lens chain.devs o) f
                  (validate_loop-Validated lens 0 0 chain.devs (shift_ir jtag w)
                    (omega (arith, many, size, le))) in
              (many, v.0 ∙ size, v.1.1)))
        (λ e h. absurd (ground (arith, h)))

  -- The chain behind the check, when it was passed.
  abbrev WasChecked : Chain → Option (Bool × Chain × W) → Type 0
  WasChecked chain none = ⊥
  WasChecked chain (some (valid, chain', w)) =
      valid ≡ true → Alike chain'.devs chain.devs × (chain'.count ≡ chain.count)

  sanity_check-WasChecked :
      (chain : Chain) (w : W)
      → chain.count < length chain.devs
      → WasChecked chain (sanity_check jtag chain w)
  unfolding sanity_check
  sanity_check-WasChecked chain w lt =
      let left = bypass_loop jtag chain.count (chain.count + 1) 0 chain.devs (shift_to_dr jtag w) in
      let P : Option (Bool × Chain × W) → Type 0 = λ o. WasChecked chain o in
      let checked =
        bypass_loop-Checked chain.count (chain.count + 1) 0 chain.devs (shift_to_dr jtag w)
          (omega (arith, lt)) in
      option_lem P left (λ e. absurd (subst (λ o. Checked chain.devs o) e checked))
        (λ a e.
          let alike = subst (λ o. Checked chain.devs o) e checked in
          if_lem P (a.1 == chain.count) (λ f h. (alike, refl)) (λ f h. absurd (ground (arith, h))))

  module _ (platform : Platform W) (descrs : List Descr) where
    -- A scan that has found devices has found one for each length, and the bits that pass when the
    -- register of one is written are those of the whole chain.
    abbrev pub ArePlaced : List ℕ → Option (ℕ × Chain × W) → Type 0
    ArePlaced lens none = ⊥
    ArePlaced lens (some (n, chain, w)) =
        (n ≡ 0) ⊎ ((n ≡ length lens) × All (λ d. path_length d ≡ sum lens) (take n chain.devs))

    finish_scan-ArePlaced :
        (lens : List ℕ) (r : Bool × Chain × W)
        → sum lens < 256
        → (r.0 ≡ true → (length lens ≡ r.1.count) × Assigned 0 lens r.1.devs)
        → ArePlaced lens (some (finish_scan jtag platform descrs r))
    unfolding finish_scan
    finish_scan-ArePlaced lens (valid, chain, w) lt given =
        let P : ℕ × Chain × W → Type 0 = λ r. ArePlaced lens (some r) in
        if_lem P valid
          (λ e.
            let (many, assigned) = given e in
            let path = fill-path 0 lens chain.devs (sum lens) (omega arith) lt assigned in
            let Paths : List Device → Type 0 = λ ds. All (λ d. path_length d ≡ sum lens) ds in
            let first : ℕ → List Device =
              λ n. take n ((fill_postscan (take n chain.devs)).0 ++ drop n chain.devs) in
            let same = take-fill 0 lens chain.devs (drop (length lens) chain.devs) assigned in
            inr (sym many, subst (λ n. Paths (first n)) many (subst Paths (sym same) path)))
          (λ e. inl refl)

    -- When `jtag_scan` is given the lengths of the instruction registers, fewer than 32 and less than
    -- 256 bits together, it ends without a write behind its array. It answers 0, or as many devices as
    -- there are lengths, and then for each of them the bits before its register, its own and those
    -- behind it are together those of the whole chain. This holds whatever bits the chain gives.
    pub jtag_scan-ArePlaced :
        (behind : Device) (fuel len : ℕ) (lens : List ℕ) (w : W)
        → sum (len ∷ lens) < 256
        → length (len ∷ lens) < max_devs
        → ArePlaced (len ∷ lens) (jtag_scan jtag platform descrs behind fuel (len ∷ lens) w)
    unfolding jtag_scan find_irs
    jtag_scan-ArePlaced behind fuel len lens w lt few =
        let given = len ∷ lens in
        let empty : Chain = record { devs = replicate max_devs empty_device; count = 0 } in
        let w1 = platform.jtagtap_init (platform.target_list_free w) in
        let read = read_idcodes jtag empty w1 in
        let known = validate_irs jtag platform.gdb_outf given read.1 read.2 in
        let w4 = return_idle jtag (jtag.next true true known.2).1 in
        let P : Option (ℕ × Chain × W) → Type 0 = λ o. ArePlaced given o in
        if_lem P read.0
          (λ e.
            let (size, le) = read_idcodes-WasRead empty w1 refl e in
            if_lem P known.0
              (λ f.
                let (many, full, assigned) =
                  validate_irs-WasGiven platform.gdb_outf given read.1 read.2 size le f in
                let checked = sanity_check-WasChecked known.1 w4 (omega (arith, many, full, few)) in
                option_lem P (sanity_check jtag known.1 w4)
                  (λ g. absurd (subst (λ o. WasChecked known.1 o) g checked))
                  (λ r g. finish_scan-ArePlaced given r lt (λ h.
                    let (alike, same) = subst (λ o. WasChecked known.1 o) g checked h in
                    (
                      many ∙ sym same,
                      Alike-Assigned 0 given r.1.devs known.1.devs alike assigned,
                    ))))
              (λ f. inl refl))
          (λ e. inl refl)
