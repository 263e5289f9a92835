-- ===== src/Rtt.antt =====
-- rtt.c: real-time transfer over ring buffers in the memory of the target.
-- What the functions drive is a parameter: the memory of the target, the host's side of the
-- channels and the state of the core, over a state `W` of the outside. Messages to the user are
-- left out. Numbers of 32 bits wrap where the code adds them.
pub mod Poll
pub mod Rings
pub mod Memory
pub mod Refill
pub mod Queue
pub mod Drain
pub mod Limits
use blackmagic.Base.{
  ℕ, zero, suc, ◌+◌, ◌-◌, ◌*◌, ◌/◌, ◌%◌, ◌^◌, ◌<◌, ◌≤◌, min, max, bit_and, bit_or, bit_xor, Option,
  none, some, List, [], ◌∷◌, ◌++◌, map, append-nil, append_assoc, Bytes, length, get_elem?, get_or,
  set, take, drop, replicate, All, subst, Bool, true, false, not, ◌&&◌, ◌||◌, ltb, leb, ◌==◌,
  if◌then◌else◌, ◌≡◌, ◌≢◌, refl, sym, ap, ◌∙◌, arith, ◌⊎◌, inl, inr, Bool-cases, Option-cases,
}
use blackmagic.Base.Words.{u32, align_down}

-- Why a target is halted, `target_halt_reason_e`.
pub data HaltReason : Type 0 where
  running halt_error request stepping breakpoint watchpoint fault : HaltReason

abbrev pub is_running : HaltReason → Bool
is_running running = true
is_running _ = false

abbrev pub is_request : HaltReason → Bool
is_request request = true
is_request _ = false

-- `mem_read` and `mem_write` answer whether they failed, like `target_mem_read` and
-- `target_mem_write`. `getchar` is `rtt_getchar`, `none` for -1.
pub record Io (W : Type 0) : Type 0 where
  pub mem_read : ℕ → ℕ → W → Bool × Bytes × W
  pub mem_write : ℕ → Bytes → W → Bool × W
  pub nodata : W → Bool
  pub getchar : W → Option ℕ × W
  pub rtt_write : Bytes → W → W

-- `rtt_channel_s`.
pub record Channel : Type 0 where
  pub name_addr : ℕ
  pub buf_addr : ℕ
  pub buf_size : ℕ
  pub head : ℕ
  pub tail : ℕ
  pub flag : ℕ

pub data Retval : Type 0 where
  rtt_ok idle rtt_err : Retval

-- A `uint32_t` in memory, lowest byte first, and back.
abbrev pub bytes_of : ℕ → Bytes
bytes_of x = x % 256 ∷ x / 2 ^ 8 % 256 ∷ x / 2 ^ 16 % 256 ∷ x / 2 ^ 24 % 256 ∷ []

abbrev pub word_at : ℕ → Bytes → ℕ
word_at i bs =
    get_or bs i 0
    + get_or bs (i + 1) 0 * 2 ^ 8
    + get_or bs (i + 2) 0 * 2 ^ 16
    + get_or bs (i + 3) 0 * 2 ^ 24

-- The constants of `fast_search`.
abbrev pub hash_len : ℕ
hash_len = 16

abbrev pub stride : ℕ
stride = 128

abbrev pub hash_goal : ℕ
hash_goal = 0x444110cd

abbrev pub hash_prime : ℕ
hash_prime = 0x797a9691

abbrev pub hash_top : ℕ
hash_top = 0x73b07d01

-- One round of the inner loop: the hash moves one byte on.
pub roll : ℕ → ℕ → ℕ → ℕ
roll t out in_ =
    let t' = (t + hash_prime - hash_top * out % hash_prime) % hash_prime in
    (t' * 2 ^ 8 + in_) % hash_prime

-- The inner loop of `fast_search` from byte `i` on, for `left` more bytes: the position of a match,
-- or the hash behind the last byte.
pub scan : Bytes → ℕ → ℕ → ℕ → ℕ ⊎ ℕ
unfolding roll
scan buf zero i t = inr t
scan buf (suc left) i t =
    let t' = roll t (get_or buf i 0) (get_or buf (i + hash_len) 0) in
    let rest = scan buf left (i + 1) t' in if hash_goal == t' then inl i else rest

module _ {W : Type 0} (io : Io W) where
  -- The outer loop of `fast_search`, on fuel (`none` when it runs out). `kept` is the last part of
  -- the block before, which is copied to the front of the search buffer.
  pub search_blocks : ℕ → ℕ → ℕ → Bytes → ℕ → W → Option (ℕ × W)
  unfolding scan
  search_blocks zero addr ram_end kept t w = none
  search_blocks (suc fuel) addr ram_end kept t w =
      let buf_siz = min stride (ram_end - addr) in
      let (failed, read, w') = io.mem_read addr buf_siz w in
      let buf = kept ++ (read ++ replicate (stride - buf_siz) 0) in
      let next =
        λ (t' : ℕ). search_blocks fuel (u32 (addr + stride)) ram_end (drop stride buf) t' w' in
      let found : Option (ℕ × W) = elim (scan buf buf_siz 0 t) [
        | inl i ↦ some (u32 (addr + i + 2 ^ 32 - hash_len + 1), w')
        | inr t' ↦ next t'
      ] in
      if not (ltb addr ram_end) then some (0, w) else if failed then some (0, w') else found

  -- `fast_search`.
  unfoldable pub fast_search : ℕ → ℕ → ℕ → W → Option (ℕ × W)
  unfolding search_blocks
  fast_search fuel ram_start ram_end w =
      search_blocks fuel ram_start ram_end (replicate hash_len 0) 0 w

  -- `rtt_aligned_mem_read`: the bytes that stand at the front of the destination afterwards.
  unfoldable pub aligned_mem_read : ℕ → ℕ → W → Bool × Bytes × W
  aligned_mem_read src len w =
      let offset = bit_and src 0x3 in
      let src0 = src - offset in
      let len0 = len + offset in
      let len0' = if bit_and len0 0x3 == 0 then len0 else align_down (u32 (len0 + 4)) 4 in
      let (failed, read, w') = io.mem_read src0 len0' w in
      if src0 == src && len0' == len
      then io.mem_read src len w
      else (failed, take len (drop offset read), w')

  -- The loop of `read_rtt`, on fuel: bytes of the host go into the ring until it is full or the
  -- host has no more. `none` when the fuel runs out; else whether a write failed.
  pub fill_ring : ℕ → Channel → W → Option (Bool × Channel × W)
  fill_ring zero c w = none
  fill_ring (suc fuel) c w =
      let next_head = (c.head + 1) % c.buf_size in
      let (ch, w') = io.getchar w in
      let store : ℕ → Option (Bool × Channel × W) = λ x.
        let (failed, w'') = io.mem_write (u32 (c.buf_addr + c.head)) (x ∷ []) w' in
        let rest = fill_ring fuel (record c { head = next_head }) w'' in
        if failed then some (true, c, w'') else rest in
      let got : Option (Bool × Channel × W) = elim ch [
        | none ↦ some (false, c, w')
        | some x ↦ store x
      ] in
      if c.tail == next_head then some (false, c, w) else got

  -- `read_rtt` for a target that is there. `cbaddr` is `rtt_cbaddr`.
  unfoldable pub read_rtt : ℕ → ℕ → ℕ → Channel → W → Option (Retval × Channel × W)
  read_rtt fuel cbaddr i c w =
      let finish : Bool × Channel × W → Retval × Channel × W = λ r.
        let (failed, c', w') = r in
        let (bad, w'') = io.mem_write (u32 (cbaddr + 24 + i * 24 + 12)) (bytes_of c'.head) w' in
        if failed
        then (rtt_err, c', w')
        else if bad
        then (rtt_err, c', w'')
        else (rtt_ok, c', w'') in
      let filled : Option (Retval × Channel × W) = elim (fill_ring fuel c w) [
        | none ↦ none
        | some r ↦ some (finish r)
      ] in
      if io.nodata w
      then some (idle, c, w)
      else if c.buf_addr == 0 || c.buf_size == 0
      then some (idle, c, w)
      else if leb c.buf_size c.head || leb c.buf_size c.tail
      then some (rtt_err, c, w)
      else filled

  -- One of the two reads of `print_rtt`: `len` bytes from the tail on, at most `bytes_free`.
  unfoldable pub read_part : ℕ → ℕ → Channel → W → Bool × Bytes × Channel × W
  unfolding aligned_mem_read
  read_part len bytes_free c w =
      let n = min len bytes_free in
      let (failed, read, w') = aligned_mem_read (u32 (c.buf_addr + c.tail)) n w in
      (failed, read, if failed then c else record c { tail = (c.tail + n) % c.buf_size }, w')

  -- The end of `print_rtt`: the new tail goes to the target and the bytes to the host.
  unfoldable pub publish : ℕ → ℕ → Bytes → Channel → W → Retval × Channel × W
  publish cbaddr i text c w =
      let (bad, w') = io.mem_write (u32 (cbaddr + 24 + i * 24 + 16)) (bytes_of c.tail) w in
      if bad then (rtt_err, c, w') else (rtt_ok, c, io.rtt_write text w')

  -- The second part of `print_rtt`: up to the head.
  unfoldable pub print_low : ℕ → ℕ → ℕ → Bytes → Channel → W → Retval × Channel × W
  print_low cbaddr i bytes_free text c w =
      let (failed, read, c', w') = read_part (c.head - c.tail) bytes_free c w in
      if ltb c.tail c.head && ltb 0 bytes_free
      then (if failed then (rtt_err, c, w') else publish cbaddr i (text ++ read) c' w')
      else publish cbaddr i text c w

  -- `print_rtt` for a target that is there; `up_size` is `sizeof(xmit_buf)`.
  unfoldable pub print_rtt : ℕ → ℕ → ℕ → Channel → W → Retval × Channel × W
  print_rtt up_size cbaddr i c w =
      let free = up_size - 8 in
      let len = c.buf_size - c.tail in
      let (failed, read, c', w') = read_part len free c w in
      let wrapped =
        if failed then (rtt_err, c, w') else print_low cbaddr i (free - min len free) read c' w' in
      if c.buf_addr == 0 || c.buf_size == 0
      then (idle, c, w)
      else if leb c.buf_size c.head || leb c.buf_size c.tail
      then (rtt_err, c, w)
      else if c.head == c.tail
      then (idle, c, w)
      else if ltb c.head c.tail
      then wrapped
      else print_low cbaddr i free [] c w
