-- ===== src/Rtt/Poll.antt =====
-- rtt.c: the search for the control block, and the poll of all channels.
use blackmagic.Base.{
  ℕ, zero, suc, ◌+◌, ◌-◌, ◌*◌, ◌/◌, min, Option, none, some, List, [], ◌∷◌, ◌++◌, Bytes, length,
  get_or, set, drop, replicate, Bool, true, false, not, ◌&&◌, ◌||◌, ltb, leb, ◌==◌, if◌then◌else◌,
}
use blackmagic.Base.Words.{u32}
use blackmagic.Rtt.{
  HaltReason, is_running, is_request, Io, Channel, Retval, rtt_ok, idle, rtt_err, word_at,
  fast_search, read_rtt, print_rtt,
}

-- What the poll asks of the target besides its memory. `ram` is the list of the RAM regions of the
-- target, start and length.
pub record Core (W : Type 0) : Type 0 where
  pub ram : List (ℕ × ℕ)
  pub needs_halt : Bool
  pub halt_poll : W → HaltReason × W
  pub halt_request : W → W
  pub halt_resume : Bool → W → W
  pub time_ms : W → ℕ

-- The variables of rtt.c.
pub record Rtt : Type 0 where
  pub enabled : Bool
  pub found : Bool
  pub halt : Bool
  pub cbaddr : ℕ
  pub num_up_chan : ℕ
  pub num_down_chan : ℕ
  pub auto_channel : Bool
  pub channel_enabled : List Bool
  pub channel : List Channel
  pub min_poll_ms : ℕ
  pub max_poll_ms : ℕ
  pub max_poll_errs : ℕ
  pub poll_ms : ℕ
  pub poll_errs : ℕ
  pub last_poll_ms : ℕ
  pub flag_skip : Bool
  pub flag_block : Bool
  pub flag_ram : Bool
  pub ram_start : ℕ
  pub ram_end : ℕ
  pub saved_header : Bytes
  pub ident : Bytes

abbrev pub max_chan : ℕ
max_chan = 16

-- `strncmp(buf, str, length str) == 0` for a text without a NUL.
pub starts_with : Bytes → Bytes → Bool
starts_with buf [] = true
starts_with [] (c ∷ str) = false
starts_with (b ∷ buf) (c ∷ str) = b == c && starts_with buf str

-- The inner loop of `memory_search` from `offset` on, for `left` more offsets.
pub match_from : Bytes → Bytes → ℕ → ℕ → Option ℕ
unfolding starts_with
match_from buf str zero offset = none
match_from buf str (suc left) offset =
    let rest = match_from buf str left (offset + 1) in
    if starts_with (drop offset buf) str then some offset else rest

-- `num_buf[0]` and `num_buf[1]` as `find_rtt` limits them.
abbrev pub clamp_up : ℕ → ℕ
clamp_up n = if ltb max_chan n then max_chan else n

abbrev pub clamp_down : ℕ → ℕ → ℕ
clamp_down up n = if ltb max_chan (u32 (up + n)) then max_chan - up else n

-- `rtt_channel_enabled` after the automatic choice of channels.
unfoldable pub auto_enable : ℕ → ℕ → List Bool
auto_enable up down =
    let first = set (set (replicate max_chan false) 0 (ltb 0 up)) 1 (ltb 1 up) in
    if ltb up max_chan && ltb 0 down then set first up true else first

-- The channel descriptors in the bytes behind the header of the control block, `n` of them.
pub read_channels : ℕ → Bytes → List Channel
read_channels zero bs = []
read_channels (suc n) bs =
    record {
      name_addr = word_at 0 bs;
      buf_addr = word_at 4 bs;
      buf_size = word_at 8 bs;
      head = word_at 12 bs;
      tail = word_at 16 bs;
      flag = word_at 20 bs;
    }
    ∷ read_channels n (drop 24 bs)

-- The poll interval after a poll.
unfoldable pub next_poll_ms : Bool → Bool → ℕ → ℕ → ℕ → ℕ
next_poll_ms busy err lo hi ms =
    let ms' = if busy && not err then ms / 2 else u32 (ms * 2) in
    if ltb hi ms' then hi else if ltb ms' lo then lo else ms'

-- The end of a poll: the interval, and the count of errors.
unfoldable pub after_poll : ℕ → Bool → Bool → Rtt → Rtt
after_poll now busy err r =
    let r' = record r {
      last_poll_ms = now;
      poll_ms = next_poll_ms busy err r.min_poll_ms r.max_poll_ms r.poll_ms;
    } in
    let errs = u32 (r.poll_errs + 1) in
    let lost = not (r.max_poll_errs == 0) && ltb r.max_poll_errs errs in
    if err then record r' { poll_errs = errs; enabled = if lost then false else r.enabled } else r'

module _ {W : Type 0} (io : Io W) (core : Core W) where
  -- The outer loop of `memory_search`, on fuel (`none` when it runs out).
  pub search_text : ℕ → Bytes → ℕ → ℕ → W → Option (ℕ × W)
  unfolding match_from
  search_text zero str addr ram_end w = none
  search_text (suc fuel) str addr ram_end w =
      let buf_siz = min (ram_end - addr) 128 in
      let (failed, buf, w') = io.mem_read addr buf_siz w in
      let rest = search_text fuel str (u32 (addr + (128 - length str - 1))) ram_end w' in
      let found : Option (ℕ × W) = elim (match_from buf str (buf_siz - length str - 1) 0) [
        | none ↦ rest
        | some offset ↦ some (u32 (addr + offset), w')
      ] in
      if not (ltb addr ram_end) then some (0, w) else if failed then rest else found

  -- `memory_search`.
  unfoldable pub memory_search : ℕ → Bytes → ℕ → ℕ → W → Option (ℕ × W)
  memory_search fuel str ram_start ram_end w =
      if length str == 0 || ltb 64 (length str)
      then some (0, w)
      else search_text fuel str ram_start ram_end w

  abbrev search_region : ℕ → Bytes → ℕ → ℕ → W → Option (ℕ × W)
  search_region fuel ident ram_start ram_end w =
      if length ident == 0
      then fast_search io fuel ram_start ram_end w
      else memory_search fuel ident ram_start ram_end w

  -- The walk of `find_rtt` over the RAM regions up to the first match.
  pub search_ram : ℕ → Bytes → List (ℕ × ℕ) → W → Option (ℕ × W)
  search_ram fuel ident [] w = some (0, w)
  search_ram fuel ident ((start, len) ∷ regions) w =
      elim (search_region fuel ident start (u32 (start + len)) w) [
        | none ↦ none
        | some (addr, w') ↦ if addr == 0 then search_ram fuel ident regions w' else some (addr, w')
      ]

  -- `find_rtt` behind a match: the number of channels is read and limited.
  unfoldable pub accept_block : Rtt → W → Rtt × W
  unfolding auto_enable
  accept_block r w =
      let (failed, num_buf, w1) = io.mem_read (u32 (r.cbaddr + 16)) 8 w in
      let up = clamp_up (word_at 0 num_buf) in
      let down = clamp_down up (word_at 4 num_buf) in
      let counted = record r { num_up_chan = up; num_down_chan = down } in
      let cleared = record counted {
        channel =
            replicate max_chan
              (record { name_addr = 0; buf_addr = 0; buf_size = 0; head = 0; tail = 0; flag = 0 });
        channel_enabled = if r.auto_channel then auto_enable up down else r.channel_enabled;
      } in
      let (failed', header, w2) = io.mem_read r.cbaddr 24 w1 in
      if failed
      then (r, w1)
      else if ltb 255 up || ltb 255 down
      then (record counted { enabled = false }, w1)
      else if up == 0 && down == 0
      then (record counted { enabled = false }, w1)
      else if failed'
      then (cleared, w2)
      else (record cleared { saved_header = header; found = true }, w2)

  -- `find_rtt` for a target that is there.
  unfoldable pub find_rtt : ℕ → Rtt → W → Option (Rtt × W)
  unfolding search_ram
  find_rtt fuel r w =
      let r0 = record r {
        found = false;
        poll_ms = r.max_poll_ms;
        poll_errs = 0;
        last_poll_ms = 0;
      } in
      let searched =
        if not r.flag_ram
        then search_ram fuel r.ident core.ram w
        else search_region fuel r.ident r.ram_start r.ram_end w in
      let done : Option (Rtt × W) = elim searched [
        | none ↦ none
        | some (addr, w') ↦
            let r1 = record r0 { cbaddr = addr } in
            if addr == 0 then some (r1, w') else some (accept_block r1 w')
      ] in
      if not r.enabled then some (r0, w) else done

  -- The loop of `poll_rtt` over the channels: `left` of them from `i` on, with what they answered.
  pub poll_channels : ℕ → ℕ → ℕ → ℕ → Rtt → Bool → Bool → W → Option (Rtt × Bool × Bool × W)
  poll_channels fuel up_size zero i r busy err w = some (r, busy, err, w)
  poll_channels fuel up_size (suc left) i r busy err w =
      let none_there : Channel = record {
        name_addr = 0;
        buf_addr = 0;
        buf_size = 0;
        head = 0;
        tail = 0;
        flag = 0;
      } in
      let c = get_or r.channel i none_there in
      let flagged = record r { flag_skip = c.flag == 0; flag_block = c.flag == 2 } in
      let up = ltb i r.num_up_chan in
      let r' = if up then r else flagged in
      let answer : Option (Retval × Channel × W) =
        if up
        then some (print_rtt io up_size r.cbaddr i c w)
        else read_rtt io fuel r.cbaddr i c w in
      let on : Option (Rtt × Bool × Bool × W) = elim answer [
        | none ↦ none
        | some (rtt_ok, c', w') ↦
            poll_channels fuel up_size left (i + 1) (record r' { channel = set r.channel i c' })
              true err w'
        | some (idle, c', w') ↦
            poll_channels fuel up_size left (i + 1) (record r' { channel = set r.channel i c' })
              busy err w'
        | some (rtt_err, c', w') ↦
            poll_channels fuel up_size left (i + 1) (record r' { channel = set r.channel i c' })
              busy true w'
      ] in
      let off = poll_channels fuel up_size left (i + 1) r busy err w in
      if get_or r.channel_enabled i false then on else off

  -- The wait for a halt, on fuel (`none` when it runs out).
  pub await_halt : ℕ → W → Option (HaltReason × W)
  await_halt zero w = none
  await_halt (suc fuel) w =
      let (reason, w') = core.halt_poll w in
      let rest = await_halt fuel w' in if is_running reason then rest else some (reason, w')

  -- The brief halt at the head of a poll: whether the target is to be resumed behind it.
  unfoldable pub halt_briefly : ℕ → Rtt → W → Option (Bool × W)
  unfolding await_halt
  halt_briefly fuel r w =
      let (reason, w') = core.halt_poll w in
      let waited : Option (Bool × W) = elim (await_halt fuel (core.halt_request w')) [
        | none ↦ none
        | some (reason', w'') ↦ some (is_request reason', w'')
      ] in
      if not r.halt then some (false, w) else if is_running reason then waited else some (false, w')

  -- The check that the control block has not changed.
  unfoldable pub check_header : Rtt → W → Rtt × W
  unfolding starts_with
  check_header r w =
      let (failed, header, w') = io.mem_read r.cbaddr 24 w in
      if not r.found
      then (r, w)
      else if failed || not (starts_with header r.saved_header)
      then (record r { found = false }, w')
      else (r, w')

  -- The transfers of a poll, when the control block is found.
  unfoldable pub transfer : ℕ → ℕ → Rtt → W → Option (Rtt × Bool × Bool × W)
  unfolding poll_channels read_channels
  transfer fuel up_size r w =
      let n = r.num_up_chan + r.num_down_chan in
      let (failed, block, w') = io.mem_read (u32 (r.cbaddr + 24)) (24 * n) w in
      let loaded = record r { channel = read_channels n block ++ drop n r.channel } in
      let polled = poll_channels fuel up_size n 0 loaded false false w' in
      if not (r.found && not (r.cbaddr == 0))
      then some (r, false, false, w)
      else if failed
      then some (r, false, true, w')
      else polled

  -- `poll_rtt` for a target that is there.
  unfoldable pub poll_rtt : ℕ → ℕ → Rtt → W → Option (Rtt × W)
  poll_rtt fuel up_size r w =
      let now = core.time_ms w in
      let r1 = if r.found then r else record r { halt = core.needs_halt } in
      let due = leb (u32 (r.last_poll_ms + r.poll_ms)) now || ltb now r.last_poll_ms in
      let end_poll : Bool → Rtt → W → Option (Rtt × W) = λ resume r2 w2.
        let (r3, w3) = check_header r2 w2 in
        elim (transfer fuel up_size r3 w3) [
          | none ↦ none
          | some (r4, busy, err, w4) ↦
              some (after_poll now busy err r4, if resume then core.halt_resume false w4 else w4)
        ] in
      let search_block : Bool × W → Option (Rtt × W) = λ h.
        let (resume, w1) = h in
        let found : Option (Rtt × W) = if r1.found then some (r1, w1) else find_rtt fuel r1 w1 in
        elim found [ none ↦ none | some (r2, w2) ↦ end_poll resume r2 w2 ] in
      let run : Option (Rtt × W) = elim (halt_briefly fuel r1 w) [
        | none ↦ none
        | some h ↦ search_block h
      ] in
      if not r.enabled then some (r, w) else if due then run else some (r, w)
