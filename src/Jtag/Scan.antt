-- ===== src/Jtag/Scan.antt =====
-- target/jtag_scan.c: `jtag_scan` as a whole.
use blackmagic.Base.{
  ℕ, ◌+◌, bit_and, Option, none, some, List, [], ◌∷◌, ◌++◌, take, drop, replicate, Bool, true,
  false, ◌==◌, if◌then◌else◌,
}
use blackmagic.Jtag.{
  JtagProc, Device, Descr, Chain, scanned, mismatch, too_long, overrun, max_devs, empty_device,
  read_idcodes, read_irs, validate_irs, sanity_check, fill_postscan, return_idle,
}

-- What `jtag_scan` calls besides `jtag_proc`; `handler` is that of a row of `dev_descr`.
pub record Platform (W : Type 0) : Type 0 where
  pub target_list_free : W → W
  pub jtagtap_init : W → W
  pub gdb_outf : W → W
  pub handler : ℕ → ℕ → Chain → W → W

-- The row of the table for a code: the first that fits, before a code of 0.
unfoldable pub find_descr : List Descr → ℕ → ℕ → Option ℕ
find_descr [] idcode i = none
find_descr (d ∷ descrs) idcode i =
    let rest = find_descr descrs idcode (i + 1) in
    if d.code == 0 then none else if bit_and idcode d.mask == d.code then some i else rest

module _ {W : Type 0} (jtag : JtagProc W) (platform : Platform W) (descrs : List Descr) where
  -- The last loop of `jtag_scan`, for the devices from one on.
  unfoldable pub probe_devices : List Device → ℕ → Chain → W → W
  unfolding find_descr
  probe_devices [] device chain w = w
  probe_devices (d ∷ devs) device chain w =
      let w' : W = elim (find_descr descrs d.idcode 0) [
        | none ↦ w
        | some row ↦ platform.handler row device chain w
      ] in
      probe_devices devs (device + 1) chain w'

  -- The lengths of the instruction registers, given or read: `none` when the loop runs out of fuel
  -- or writes behind the array.
  unfoldable pub find_irs : Device → ℕ → List ℕ → Chain → W → Option (Bool × Chain × W)
  find_irs behind fuel [] chain w = elim (read_irs jtag descrs behind fuel chain.devs w) [
    | none ↦ none
    | some (scanned devs w') ↦ some (true, record chain { devs = devs }, w')
    | some (mismatch w') ↦ some (false, record chain { count = 0 }, w')
    | some (too_long w') ↦ some (false, record chain { count = 0 }, w')
    | some overrun ↦ none
  ]
  find_irs behind fuel (len ∷ lens) chain w =
      some (validate_irs jtag platform.gdb_outf (len ∷ lens) chain w)

  -- The end of `jtag_scan`, behind the check of the chain.
  unfoldable pub finish_scan : Bool × Chain × W → ℕ × Chain × W
  unfolding probe_devices
  finish_scan (valid, chain, w) =
      let devs = (fill_postscan (take chain.count chain.devs)).0 ++ drop chain.count chain.devs in
      let chain' = record chain { devs = devs } in
      if valid
      then (chain.count, chain', probe_devices (take chain.count devs) 0 chain' w)
      else (0, chain, w)

  -- `jtag_scan`: the number of devices, and the chain.
  unfoldable pub jtag_scan : Device → ℕ → List ℕ → W → Option (ℕ × Chain × W)
  unfolding find_irs finish_scan
  jtag_scan behind fuel lens w =
      let empty : Chain = record { devs = replicate max_devs empty_device; count = 0 } in
      let w1 = platform.jtagtap_init (platform.target_list_free w) in
      let (found, chain1, w2) = read_idcodes jtag empty w1 in
      let rest : Option (ℕ × Chain × W) = elim (find_irs behind fuel lens chain1 w2) [
        | none ↦ none
        | some (known, chain2, w3) ↦
            let w4 = return_idle jtag (jtag.next true true w3).1 in
            let checked : Option (ℕ × Chain × W) = elim (sanity_check jtag chain2 w4) [
              | none ↦ none
              | some r ↦ some (finish_scan r)
            ] in
            if known then checked else some (0, chain2, w3)
      ] in
      if found then rest else some (0, chain1, w2)
