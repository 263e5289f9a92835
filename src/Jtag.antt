-- ===== src/Jtag.antt =====
-- target/jtag_scan.c: the devices on a JTAG chain. The functions of `jtag_proc` are parameters over
-- a state `W` of the outside, and so is the table `dev_descr` of known devices.
pub mod Scan
pub mod Dp
pub mod Lengths
pub mod Overrun
pub mod Postscan
pub mod Given
use blackmagic.Base.{
  ℕ, zero, suc, ◌+◌, ◌-◌, ◌*◌, ◌/◌, ◌%◌, ◌^◌, ◌<◌, ◌≤◌, min, max, bit_and, bit_or, bit_xor, Option,
  none, some, List, [], ◌∷◌, ◌++◌, map, append-nil, append_assoc, Bytes, length, get_elem?, get_or,
  set, take, drop, replicate, All, subst, Bool, true, false, not, ◌&&◌, ◌||◌, ltb, leb, ◌==◌,
  if◌then◌else◌, ◌≡◌, ◌≢◌, refl, sym, ap, ◌∙◌, arith, ◌⊎◌, inl, inr, Bool-cases, Option-cases,
}
use blackmagic.Base.Words.{u8, u32}

-- `jtag_proc`.
pub record JtagProc (W : Type 0) : Type 0 where
  pub reset : W → W
  pub next : Bool → Bool → W → Bool × W
  pub tms_seq : ℕ → ℕ → W → W
  pub tdi_seq : Bool → Bytes → ℕ → W → W
  pub tdi_tdo_seq : Bool → Bytes → ℕ → Bytes → W → Bytes × W

-- `jtag_dev_s`, without the description.
pub record Device : Type 0 where
  pub idcode : ℕ
  pub current_ir : ℕ
  pub dr_prescan : ℕ
  pub dr_postscan : ℕ
  pub ir_len : ℕ
  pub ir_prescan : ℕ
  pub ir_postscan : ℕ

-- A row of `dev_descr`, with its quirks.
pub record Descr : Type 0 where
  pub code : ℕ
  pub mask : ℕ
  pub ir_value : ℕ
  pub ir_length : ℕ

-- `jtag_devs` and `jtag_dev_count`.
pub record Chain : Type 0 where
  pub devs : List Device
  pub count : ℕ

abbrev pub max_devs : ℕ
max_devs = 32

abbrev pub max_ir_len : ℕ
max_ir_len = 16

abbrev pub uint32_max : ℕ
uint32_max = 2 ^ 32 - 1

-- A device that is all zeros.
abbrev pub empty_device : Device
empty_device = record {
  idcode = 0;
  current_ir = 0;
  dr_prescan = 0;
  dr_postscan = 0;
  ir_len = 0;
  ir_prescan = 0;
  ir_postscan = 0;
}

-- `ones`.
abbrev pub ones : Bytes
ones = replicate 8 0xff

-- `jtag_add_device`: `none` is a write behind the array.
unfoldable pub add_device : ℕ → Device → Chain → Option Chain
add_device dev_index dev chain =
    let devs = if dev_index == 0 then replicate max_devs empty_device else chain.devs in
    if ltb dev_index max_devs
    then some (record { devs = set devs dev_index dev; count = dev_index + 1 })
    else none

-- `jtag_device_get_quirks`: the value and the length. The table ends before a code of 0.
unfoldable pub get_quirks : List Descr → ℕ → ℕ × ℕ
get_quirks [] idcode = (0, 0)
get_quirks (d ∷ descrs) idcode =
    let rest = get_quirks descrs idcode in
    if d.code == 0
    then (0, 0)
    else if bit_and idcode d.mask == d.code
    then (d.ir_value, d.ir_length)
    else rest

-- Four bytes as a number, the lowest first.
abbrev pub word_of : Bytes → ℕ
word_of b = get_or b 0 0 + 2 ^ 8 * get_or b 1 0 + 2 ^ 16 * get_or b 2 0 + 2 ^ 24 * get_or b 3 0

-- What a scan of the instruction registers ends with.
pub data IrScan (W : Type 0) : Type 0 where
  scanned : List Device → W → IrScan W
  mismatch too_long : W → IrScan W
  overrun : IrScan W

-- The variables of the loop of `jtag_read_irs`.
pub record Reading : Type 0 where
  pub devs : List Device
  pub device : ℕ
  pub prescan : ℕ
  pub ir_len : ℕ
  pub quirk_value : ℕ
  pub quirk_length : ℕ

-- The device of a reading is complete: `device_ir` is the length of its register, `overrun` how
-- many bits of the next one have been read. `behind` is what stands behind the array.
abbrev pub next_device : List Descr → Device → ℕ → ℕ → Reading → Reading
next_device descrs behind device_ir over r =
    let dev = record (get_or r.devs r.device empty_device) {
      ir_len = device_ir;
      ir_prescan = u8 r.prescan;
      current_ir = uint32_max;
    } in
    let devs = set r.devs r.device dev in
    let (value, size) = get_quirks descrs (get_or devs (r.device + 1) behind).idcode in
    record {
      devs = devs;
      device = r.device + 1;
      prescan = r.prescan + device_ir;
      ir_len = over;
      quirk_value = value;
      quirk_length = size;
    }

module _ {W : Type 0} (jtag : JtagProc W) where
  -- `jtagtap_shift_ir`, `jtagtap_shift_dr` and `jtagtap_return_idle(1)`.
  abbrev pub shift_ir : W → W
  shift_ir w = jtag.tms_seq 0x03 4 w

  abbrev pub shift_to_dr : W → W
  shift_to_dr w = jtag.tms_seq 0x01 3 w

  abbrev pub return_idle : W → W
  return_idle w = jtag.tms_seq 0x01 2 w

  -- The loop of `jtag_read_idcodes` from a device on, with room for `room` more: the devices and
  -- their number, or `none` for a chain that is too long.
  unfoldable pub idcode_loop : ℕ → ℕ → List Device → W → Option (List Device × ℕ) × W
  idcode_loop zero device devs w =
      let (b, w') = jtag.tdi_tdo_seq false ones 32 (replicate 4 0) w in
      (if word_of b == uint32_max then some (devs, device) else none, w')
  idcode_loop (suc room) device devs w =
      let (b, w') = jtag.tdi_tdo_seq false ones 32 (replicate 4 0) w in
      let dev = record (get_or devs device empty_device) { idcode = word_of b } in
      let rest = idcode_loop room (device + 1) (set devs device dev) w' in
      if word_of b == uint32_max then (some (devs, device), w') else rest

  -- `jtag_read_idcodes`: the state of the chain behind it, and whether it succeeded.
  unfoldable pub read_idcodes : Chain → W → Bool × Chain × W
  unfolding idcode_loop
  read_idcodes chain w =
      let (found, w') = idcode_loop max_devs 0 chain.devs (shift_to_dr (jtag.reset w)) in
      elim found [
        | none ↦ (false, record chain { count = 0 }, w')
        | some (devs, n) ↦
            (true, record { devs = devs; count = n }, return_idle (jtag.next true true w').1)
      ]

  -- The loop of `jtag_read_irs`, on fuel; `overrun` is a write behind the array of devices.
  unfoldable pub ir_loop : List Descr → Device → ℕ → Reading → W → Option (IrScan W)
  ir_loop descrs behind zero r w = none
  ir_loop descrs behind (suc fuel) r w =
      let (next_bit, w1) = jtag.next false true w in
      let quirky = not (r.quirk_length == 0) in
      let expected = r.quirk_value / 2 ^ r.ir_len % 2 == 1 in
      let differs = if expected then not next_bit else next_bit in
      let len = r.ir_len + 1 in
      let on = ir_loop descrs behind fuel (record r { ir_len = len }) w1 in
      let over = if quirky then 0 else 1 in
      let following =
        ir_loop descrs behind fuel (next_device descrs behind (len - over) over r) w1 in
      if ltb max_ir_len r.ir_len
      then some (too_long w)
      else if quirky && differs
      then some (mismatch w1)
      else if not ((not quirky && next_bit && ltb 1 len) || len == r.quirk_length)
      then on
      else if not quirky && len == 2
      then some (scanned r.devs w1)
      else if ltb r.device (length r.devs)
      then following
      else some overrun

  -- `jtag_read_irs`.
  unfoldable pub read_irs : List Descr → Device → ℕ → List Device → W → Option (IrScan W)
  unfolding ir_loop
  read_irs descrs behind fuel devs w =
      let (value, size) = get_quirks descrs (get_or devs 0 behind).idcode in
      ir_loop descrs behind fuel
        (record {
          devs = devs;
          device = 0;
          prescan = 0;
          ir_len = 0;
          quirk_value = value;
          quirk_length = size;
        })
        (shift_ir w)

  -- The loop of `jtag_validate_irs` from a device on: `none` for a length that is not allowed.
  unfoldable pub validate_loop : List ℕ → ℕ → ℕ → List Device → W → Option (List Device) × W
  validate_loop [] device prescan devs w = (some devs, w)
  validate_loop (len ∷ lens) device prescan devs w =
      let (irout, w') = jtag.tdi_tdo_seq false ones len (replicate 4 0) w in
      let dev = record (get_or devs device empty_device) {
        ir_len = len;
        ir_prescan = u8 prescan;
        current_ir = uint32_max;
      } in
      let rest = validate_loop lens (device + 1) (prescan + len) (set devs device dev) w' in
      if ltb max_ir_len len || len == 0 then (none, w) else rest

  -- `jtag_validate_irs`; `gdb_outf` is the message to the debugger.
  unfoldable pub validate_irs : (W → W) → List ℕ → Chain → W → Bool × Chain × W
  unfolding validate_loop
  validate_irs gdb_outf lens chain w =
      let (found, w') = validate_loop lens 0 0 chain.devs (shift_ir w) in
      let checked : Bool × Chain × W = elim found [
        | none ↦ (false, record chain { count = 0 }, w')
        | some devs ↦ (true, record chain { devs = devs }, w')
      ] in
      if length lens == chain.count
      then checked
      else (false, record chain { count = 0 }, gdb_outf w)

  -- The loop of `jtag_sanity_check` from a device on, for `left` more: the devices and the number
  -- that is counted; `none` is a write behind the array.
  unfoldable pub bypass_loop : ℕ → ℕ → ℕ → List Device → W → Option (List Device × ℕ × W)
  bypass_loop count zero device devs w = some (devs, device, w)
  bypass_loop count (suc left) device devs w =
      let (bit, w') = jtag.next false true w in
      let dev = record (get_or devs device empty_device) {
        dr_prescan = u8 device;
        dr_postscan = u8 (count + 2 ^ 8 - device - 1);
      } in
      let rest = bypass_loop count left (device + 1) (set devs device dev) w' in
      if bit then some (devs, device, w') else if ltb device (length devs) then rest else none

  -- `jtag_sanity_check`.
  unfoldable pub sanity_check : Chain → W → Option (Bool × Chain × W)
  unfolding bypass_loop
  sanity_check chain w =
      elim (bypass_loop chain.count (chain.count + 1) 0 chain.devs (shift_to_dr w)) [
        | none ↦ none
        | some (devs, device, w') ↦
            if device == chain.count
            then some (
              not (chain.count == 0),
              record chain { devs = devs },
              return_idle (jtag.next true true w').1,
            )
            else some (false, record { devs = devs; count = 0 }, w')
      ]

  -- `jtag_dev_write_ir`, for a device of the chain.
  unfoldable pub write_ir : ℕ → ℕ → Chain → W → Chain × W
  write_ir dev_index ir chain w =
      let device = get_or chain.devs dev_index empty_device in
      let bypassed =
        map (λ (d : Device). record d { current_ir = uint32_max }) (take chain.count chain.devs)
        ++ drop chain.count chain.devs in
      let devs =
        set bypassed dev_index
          (record (get_or bypassed dev_index empty_device) { current_ir = ir }) in
      let bytes =
        ir % 2 ^ 8 ∷ ir / 2 ^ 8 % 2 ^ 8 ∷ ir / 2 ^ 16 % 2 ^ 8 ∷ ir / 2 ^ 24 % 2 ^ 8 ∷ [] in
      let w1 = jtag.tdi_seq false ones device.ir_prescan (shift_ir w) in
      let w2 = jtag.tdi_seq (device.ir_postscan == 0) bytes device.ir_len w1 in
      let w3 = return_idle (jtag.tdi_seq true ones device.ir_postscan w2) in
      if ir == device.current_ir then (chain, w) else (record chain { devs = devs }, w3)

  -- `jtag_dev_shift_dr`; `data_out` is `none` for NULL.
  unfoldable pub shift_dr : ℕ → Option Bytes → Bytes → ℕ → Chain → W → Option Bytes × W
  shift_dr dev_index data_out data_in cycles chain w =
      let device = get_or chain.devs dev_index empty_device in
      let final = device.dr_postscan == 0 in
      let w1 = jtag.tdi_seq false ones device.dr_prescan (shift_to_dr w) in
      let (out, w2) : Option Bytes × W = elim data_out [
        | none ↦ (none, jtag.tdi_seq final data_in cycles w1)
        | some out ↦
            let (read, w') = jtag.tdi_tdo_seq final data_in cycles out w1 in (some read, w')
      ] in
      (out, return_idle (jtag.tdi_seq true ones device.dr_postscan w2))

-- The fill of `ir_postscan` in `jtag_scan`, from the back: the devices, and the sum of their lengths.
unfoldable pub fill_postscan : List Device → List Device × ℕ
fill_postscan [] = ([], 0)
fill_postscan (d ∷ devs) =
    let (devs', postscan) = fill_postscan devs in
    (record d { ir_postscan = postscan } ∷ devs', u8 (postscan + d.ir_len))
