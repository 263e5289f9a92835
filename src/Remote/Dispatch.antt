-- ===== src/Remote/Dispatch.antt =====
-- remote.c: the handlers of the request packets, and their dispatch.
-- What the handlers drive is a parameter: the functions of the SWD and JTAG taps, of the platform
-- and of ADIv5 access, over a state `W` of the outside. The idle LED is left out.
use blackmagic.Base.{
  ℕ, ◌+◌, ◌-◌, ◌*◌, ◌/◌, ◌%◌, ◌^◌, max, bit_and, bit_or, Option, none, some, [], ◌∷◌, Bytes, get_or,
  drop, replicate, Bool, not, ◌&&◌, ◌||◌, leb, ltb, ◌==◌, if◌then◌else◌,
}
use blackmagic.Base.Words.{u8, u32}
use blackmagic.Hex.{unhexify}
use blackmagic.Remote.{hex_string_to_num, respond, respond_buf, respond_string}

-- The types of an exception that is raised.
pub data Exception : Type 0 where
  error timeout : Exception

abbrev pub exception_type : Exception → ℕ
exception_type error = 1
exception_type timeout = 2

pub data Outcome (W A : Type 0) : Type 0 where
  returned : A → W → Outcome W A
  raised : Exception → W → Outcome W A

-- Whose functions are installed in `remote_dp`.
pub data Link : Type 0 where
  swd jtag : Link

-- `remote_dp`, as far as the handlers set it.
pub record DebugPort : Type 0 where
  pub link : Option Link
  pub dev_index : ℕ

-- The fields of `jtag_dev_s` that a packet gives.
pub record JtagDev : Type 0 where
  pub dr_prescan : ℕ
  pub dr_postscan : ℕ
  pub ir_len : ℕ
  pub ir_prescan : ℕ
  pub ir_postscan : ℕ
  pub current_ir : ℕ

-- What the handlers call. `fault` is `remote_dp.fault`. The accesses of ADIv5 give none when they do
-- not return; they are called with functions in `remote_dp`, or to read no bytes.
pub record Probe (W : Type 0) : Type 0 where
  pub swdptap_init : W → W
  pub seq_in_parity : ℕ → W → Bool × ℕ × W
  pub seq_in : ℕ → W → ℕ × W
  pub seq_out : ℕ → ℕ → W → W
  pub seq_out_parity : ℕ → ℕ → W → W
  pub jtagtap_init : W → W
  pub jtagtap_reset : W → W
  pub jtagtap_tms_seq : ℕ → ℕ → W → W
  pub jtagtap_cycle : Bool → Bool → ℕ → W → W
  pub jtagtap_tdi_tdo_seq : Bool → ℕ → ℕ → W → ℕ × W
  pub jtagtap_next : Bool → Bool → W → Bool × W
  pub target_voltage : W → Bytes
  pub nrst_set_val : Bool → W → W
  pub nrst_get_val : W → Bool
  pub max_frequency_set : ℕ → W → W
  pub max_frequency_get : W → ℕ
  pub has_power_switch : Bool
  pub power_conflict_threshold : ℕ
  pub target_get_power : W → Bool
  pub target_voltage_sense : W → ℕ
  pub target_set_power : Bool → W → W
  pub target_clk_output_enable : Bool → W → W
  pub ident : Bytes
  pub jtag_add_device : ℕ → JtagDev → W → W
  pub fault : W → ℕ
  pub dp_read : DebugPort → ℕ → W → Option (Outcome W ℕ)
  pub low_access : DebugPort → ℕ → ℕ → ℕ → W → Option (Outcome W ℕ)
  pub ap_read : DebugPort → ℕ → ℕ → W → Option (Outcome W ℕ)
  pub ap_write : DebugPort → ℕ → ℕ → ℕ → W → Option (Outcome W (Unit {0}))
  pub mem_read : DebugPort → ℕ → ℕ → ℕ → ℕ → W → Option (Outcome W Bytes)
  pub mem_write_sized : DebugPort → ℕ → ℕ → ℕ → Bytes → ℕ → W → Option (Outcome W (Unit {0}))

-- How a request ends: with a state and the characters put out, with a call through a null pointer,
-- with a write behind a variable or an array, or with an access that does not return.
pub data Reply (W : Type 0) : Type 0 where
  answered : DebugPort → W → Bytes → Reply W
  null_call outside unending : Reply W

-- The bits of `DO`, and `JTAG_MAX_DEVS`.
abbrev pub max_ticks : ℕ
max_ticks = 64

abbrev pub jtag_max_devs : ℕ
jtag_max_devs = 32

-- `packet[n]`.
abbrev pub char_at : Bytes → ℕ → ℕ
char_at packet n = get_or packet n 0

-- The number of at most `max` digits at `&packet[n]`.
abbrev pub num_at : ℕ → ℕ → Bytes → ℕ
num_at max n packet = hex_string_to_num max (drop n packet)

abbrev bit : Bool → ℕ
bit b = if b then 1 else 0

-- A `uint32_t` in memory, lowest byte first.
abbrev pub bytes_of : ℕ → Bytes
bytes_of x = x % 256 ∷ x / 2 ^ 8 % 256 ∷ x / 2 ^ 16 % 256 ∷ x / 2 ^ 24 % 256 ∷ []

module _ {W : Type 0} (p : Probe W) where
  -- `remote_packet_process_swd`; `i` is the length of the packet.
  unfoldable pub process_swd : ℕ → Bytes → DebugPort → W → Reply W
  process_swd i packet dp w =
      let c = char_at packet 1 in
      let ticks = u8 (num_at 2 2 packet) in
      let param = u32 (num_at (2 ^ 32 - 1) 4 packet) in
      let (bad_parity, value, w1) = p.seq_in_parity ticks w in
      let (value', w2) = p.seq_in ticks w in
      if c == b'S'
      then (if i == 2
          then answered (record dp { link = some swd }) (p.swdptap_init w) (respond b'K' 0)
          else answered dp w (respond b'E' 2))
      else if c == b'I'
      then answered dp w1 (respond (if bad_parity then b'P' else b'K') value)
      else if c == b'i'
      then answered dp w2 (respond b'K' value')
      else if c == b'o'
      then answered dp (p.seq_out param ticks w) (respond b'K' 0)
      else if c == b'O'
      then answered dp (p.seq_out_parity param ticks w) (respond b'K' 0)
      else answered dp w (respond b'E' 1)

  -- `remote_packet_process_jtag`.
  unfoldable pub process_jtag : ℕ → Bytes → DebugPort → W → Reply W
  process_jtag i packet dp w =
      let c = char_at packet 1 in
      let ticks = num_at 2 2 packet in
      let ms = u32 (num_at 2 4 packet) in
      let tms = not (char_at packet 2 == b'0') in
      let tdi = not (char_at packet 3 == b'0') in
      let (data_out, w1) =
        p.jtagtap_tdi_tdo_seq (c == b'D') (num_at (2 ^ 32 - 1) 4 packet) ticks w in
      let (tdo, w2) = p.jtagtap_next (char_at packet 2 == b'1') (char_at packet 3 == b'1') w in
      if c == b'S'
      then answered (record dp { link = some jtag }) (p.jtagtap_init w) (respond b'K' 0)
      else if c == b'R'
      then answered dp (p.jtagtap_reset w) (respond b'K' 0)
      else if c == b'T'
      then (if ltb i 4
          then answered dp w (respond b'E' 2)
          else answered dp (p.jtagtap_tms_seq ms ticks w) (respond b'K' 0))
      else if c == b'c'
      then answered dp (p.jtagtap_cycle tms tdi (num_at 8 4 packet) w) (respond b'K' 0)
      else if c == b'D' || c == b'd'
      then (if ltb i 5
          then answered dp w (respond b'E' 2)
          else if leb ticks max_ticks
          then answered dp w1 (respond b'K' data_out)
          else outside)
      else if c == b'N'
      then (if not (i == 4)
          then answered dp w (respond b'E' 2)
          else answered dp w2 (respond b'K' (bit tdo)))
      else answered dp w (respond b'E' 1)

  -- The case `REMOTE_PWR_SET`: power is not switched on against a voltage on the pin.
  unfoldable pub set_power : Bytes → W → W × Bytes
  set_power packet w =
      let on = char_at packet 2 == b'1' in
      let conflict =
        on
        && not (p.target_get_power w)
        && ltb p.power_conflict_threshold (p.target_voltage_sense w) in
      if not p.has_power_switch
      then (w, respond b'N' 0)
      else if conflict
      then (w, respond b'E' 0)
      else (p.target_set_power on w, respond b'K' 0)

  -- `remote_packet_process_general`.
  unfoldable pub process_general : Bytes → DebugPort → W → Reply W
  process_general packet dp w =
      let c = char_at packet 1 in
      let (w1, answer) = set_power packet w in
      if c == b'V'
      then answered dp w (respond_string b'K' (p.target_voltage w))
      else if c == b'Z'
      then answered dp (p.nrst_set_val (char_at packet 2 == b'1') w) (respond b'K' 0)
      else if c == b'z'
      then answered dp w (respond b'K' (bit (p.nrst_get_val w)))
      else if c == b'F'
      then answered dp (p.max_frequency_set (u32 (num_at 8 2 packet)) w) (respond b'K' 0)
      else if c == b'f'
      then answered dp w (respond_buf b'K' (bytes_of (p.max_frequency_get w)))
      else if c == b'P'
      then answered dp w1 answer
      else if c == b'p'
      then answered dp w
          (if p.has_power_switch then respond b'K' (bit (p.target_get_power w)) else respond b'N' 0)
      else if c == b'A'
      then answered dp w (respond_string b'K' p.ident)
      else if c == b'E'
      then answered dp (p.target_clk_output_enable (not (char_at packet 2 == b'0')) w)
          (respond b'K' 0)
      else answered dp w (respond b'E' 1)

  -- `remote_packet_process_high_level`; the version of the protocol is 3.
  unfoldable pub process_high_level : Bytes → ℕ → DebugPort → W → Reply W
  process_high_level packet packet_len dp w =
      let c = char_at packet 1 in
      let index = num_at 2 2 packet in
      let jtag_dev : JtagDev = record {
        dr_prescan = num_at 2 4 packet;
        dr_postscan = num_at 2 6 packet;
        ir_len = num_at 2 8 packet;
        ir_prescan = num_at 2 10 packet;
        ir_postscan = num_at 2 12 packet;
        current_ir = num_at 8 14 packet;
      } in
      if c == b'C'
      then answered dp w (respond b'K' 3)
      else if c == b'J'
      then (if ltb packet_len 22
          then answered dp w (respond b'E' 2)
          else if ltb index jtag_max_devs
          then answered dp (p.jtag_add_device index jtag_dev w) (respond b'K' 0)
          else outside)
      else answered dp w (respond b'E' 1)

  -- `remote_adiv5_respond`.
  unfoldable pub adiv5_respond : Option Bytes → W → Bytes
  adiv5_respond data_ w =
      if not (p.fault w == 0)
      then respond b'E' (bit_or 3 (p.fault w * 2 ^ 8))
      else elim data_ [ none ↦ respond b'K' 0 | some bs ↦ respond_buf b'K' bs ]

  -- The end of an access that returns a value, and of one that returns none. What an exception
  -- leaves behind it is handled in `remote_packet_process`.
  abbrev pub catch : {A : Type 0} → (A → Option Bytes) → DebugPort → Option (Outcome W A) → Reply W
  catch show dp none = unending
  catch show dp (some (returned a w)) = answered dp w (adiv5_respond (show a) w)
  catch show dp (some (raised e w)) =
      answered dp w (respond b'E' (bit_or 4 (exception_type e * 2 ^ 8)))

  -- A request that calls the functions in `remote_dp`, which are null pointers at first.
  abbrev pub connected : DebugPort → Reply W → Reply W
  connected dp r = elim dp.link [ none ↦ null_call | some l ↦ r ]

  -- `unhexify(data, packet + 32U, length)`: what the text does not give is 0 here.
  abbrev pub write_data : Bytes → ℕ → Bytes
  write_data packet len = elim (unhexify len (drop 32 packet)) [
    | none ↦ replicate len 0
    | some d ↦ d
  ]

  -- `remote_packet_process_adiv5`, with the frame around it that catches exceptions.
  unfoldable pub process_adiv5 : Bytes → ℕ → DebugPort → W → Reply W
  process_adiv5 packet packet_len dp0 w =
      let c = char_at packet 1 in
      let dp = record dp0 { dev_index = u8 (num_at 2 2 packet) } in
      let apsel = u8 (num_at 2 4 packet) in
      let addr = num_at 4 6 packet in
      let csw = num_at 8 6 packet in
      let value = num_at 8 10 packet in
      let read_len = num_at 8 22 packet in
      let align = num_at 2 14 packet in
      let write_len = num_at 8 24 packet in
      let read : Reply W =
        if ltb 1024 read_len
        then answered dp w (respond b'P' 0)
        else if read_len == 0
        then catch some dp (p.mem_read dp apsel csw (num_at 8 14 packet) 0 w)
        else connected dp
            (catch some dp (p.mem_read dp apsel csw (num_at 8 14 packet) read_len w)) in
      let write : Reply W =
        if ltb 1024 write_len
        then answered dp w (respond b'P' 0)
        else if not (bit_and write_len (u32 (2 ^ align + 2 ^ 32 - 1)) == 0)
        then answered dp w (respond b'P' 0)
        else connected dp (
            catch (λ x. none) dp
              (p.mem_write_sized dp apsel csw (num_at 8 16 packet) (write_data packet write_len)
                align w)) in
      if ltb packet_len 8
      then answered dp0 w (respond b'P' 0)
      else if c == b'd'
      then connected dp (catch (λ x. some (bytes_of x)) dp (p.dp_read dp addr w))
      else if c == b'R'
      then connected dp (catch (λ x. some (bytes_of x)) dp (p.low_access dp apsel addr value w))
      else if c == b'a'
      then connected dp (catch (λ x. some (bytes_of x)) dp (p.ap_read dp apsel addr w))
      else if c == b'A'
      then connected dp (catch (λ x. none) dp (p.ap_write dp apsel addr value w))
      else if c == b'm'
      then read
      else if c == b'M'
      then write
      else answered dp w (respond b'E' 1)

  -- `remote_packet_process`.
  unfoldable pub packet_process : ℕ → Bytes → DebugPort → W → Reply W
  packet_process i packet dp w =
      let c = char_at packet 0 in
      if c == b'S'
      then process_swd i packet dp w
      else if c == b'J'
      then process_jtag i packet dp w
      else if c == b'G'
      then process_general packet dp w
      else if c == b'H'
      then process_high_level packet i dp w
      else if c == b'A'
      then process_adiv5 packet i dp w
      else answered dp w (respond b'E' 1)
