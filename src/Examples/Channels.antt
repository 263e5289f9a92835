-- ===== src/Examples/Channels.antt =====
-- RTT of rtt.c, and the checksum of crc32.c, at concrete inputs.
use blackmagic.Base.{
  length, if◌then◌else◌, ℕ, zero, suc, ◌+◌, ◌*◌, ◌%◌, ◌^◌, ◌<◌, ◌≤◌, Option, none, some, [], ◌∷◌,
  Bytes, get_or, take, replicate, true, false, ◌==◌, ◌≡◌, refl, arith,
}
use blackmagic.Rtt.{running, Io, Channel, print_rtt}
use blackmagic.Rtt.Memory.{Memory}
use blackmagic.Base.Words.{u32}
use blackmagic.Rtt.Drain.{PrintOutcome, print_rtt-PrintOutcome}
use blackmagic.Rtt.Poll.{Core, Rtt, accept_block, after_poll, max_chan}
use blackmagic.Rtt.Limits.{after_poll_interval, accept_block_channels}
use blackmagic.Crc.{Host, crc32_table, crc32_bytes, generic_crc32}
use blackmagic.Crc.Division.{divide_bits, crc32_table-divide_bits}
use blackmagic.Crc.Chunks.{region, ReadsMemory, generic_crc32-region}

-- A target in whose memory the bytes 2, 0, 0, 0, 1, 0, 0, 0 stand at every address, and a host that
-- sends the numbers that the state counts down.
abbrev pattern : ℕ → Bytes
pattern n = take n (2 ∷ 0 ∷ 0 ∷ 0 ∷ 1 ∷ 0 ∷ 0 ∷ 0 ∷ [])

abbrev count_down : ℕ → Option ℕ × ℕ
count_down zero = (none, 0)
count_down (suc w) = (some w, w)

abbrev io : Io ℕ
io = record {
  mem_read = λ a n w. (false, pattern n, w);
  mem_write = λ a bs w. (false, w);
  nodata = λ w. w == 0;
  getchar = count_down;
  rtt_write = λ bs w. w;
}

abbrev core : Core ℕ
core = record {
  ram = (0x20000000, 0x1000) ∷ [];
  needs_halt = false;
  halt_poll = λ w. (running, w);
  halt_request = λ w. w;
  halt_resume = λ step w. w;
  time_ms = λ w. w;
}

-- A ring of 4 bytes with two of them unread, on never_ends sides of its end.
abbrev ring : Channel
ring = record { name_addr = 0; buf_addr = 0x20000100; buf_size = 4; head = 1; tail = 3; flag = 0 }

abbrev state : Rtt
state = record {
  enabled = true;
  found = false;
  halt = false;
  cbaddr = 0x20000000;
  num_up_chan = 0;
  num_down_chan = 0;
  auto_channel = true;
  channel_enabled = replicate 16 false;
  channel = replicate 16 ring;
  min_poll_ms = 8;
  max_poll_ms = 256;
  max_poll_errs = 10;
  poll_ms = 200;
  poll_errs = 0;
  last_poll_ms = 0;
  flag_skip = false;
  flag_block = false;
  flag_ram = false;
  ram_start = 0;
  ram_end = 0;
  saved_header = [];
  ident = [];
}

-- A target with a memory, and a host with characters that wait.
abbrev store : ℕ → ℕ → Bytes → (ℕ → ℕ) → ℕ → ℕ
store a j [] f b = f b
store a j (x ∷ bs) f b = if b == u32 (a + j) then x else store a (suc j) bs f b

abbrev Machine : Type 0
Machine = (ℕ → ℕ) × Bytes

abbrev take_one : Machine → Option ℕ × Machine
take_one (f, []) = (none, (f, []))
take_one (f, x ∷ xs) = (some x, (f, xs))

abbrev machine_io : Io Machine
machine_io = record {
  mem_read = λ a n w. (false, pattern n, w);
  mem_write = λ a bs w. (false, (store a 0 bs w.0, w.1));
  nodata = λ w. length w.1 == 0;
  getchar = take_one;
  rtt_write = λ bs w. w;
}

print_rtt-PrintOutcome_example : PrintOutcome ring (print_rtt io 64 0x20000000 0 ring 5)
print_rtt-PrintOutcome_example = print_rtt-PrintOutcome io 64 0x20000000 0 ring 5

after_poll_interval_example :
    (let r' = after_poll 1000 false false state in
      (r'.min_poll_ms ≡ 8)
      × (r'.max_poll_ms ≡ 256)
      × (r'.min_poll_ms ≤ r'.poll_ms)
      × (r'.poll_ms ≤ r'.max_poll_ms))
after_poll_interval_example = after_poll_interval 1000 false false state (omega arith)

block_found : (accept_block io core state 0).0.found ≡ true
unfolding accept_block
block_found = refl

accept_block_channels_example :
    (let r' = (accept_block io core state 0).0 in
      (0 < r'.num_up_chan + r'.num_down_chan) × (r'.num_up_chan + r'.num_down_chan ≤ max_chan))
accept_block_channels_example = accept_block_channels io core state 0 refl block_found

crc32_table-divide_bits_example : get_or crc32_table 200 0 ≡ divide_bits 8 (200 * 2 ^ 24)
crc32_table-divide_bits_example = crc32_table-divide_bits 200 (omega arith)

-- A memory in which every address holds its number, of 8 bits.
abbrev numbers : ℕ → ℕ
numbers a = a % 256

abbrev host : Host ℕ
host = record {
  mem_read = λ a n w. (false, region numbers a n, w);
  time_ms = λ w. (w * 700, w + 1);
  keep_alive = λ w. w;
}

host-ReadsMemory : ReadsMemory host numbers
host-ReadsMemory = record { reads = λ a n w. refl }

generic_crc32-region_example :
    (w' : ℕ) × (generic_crc32 host 300 128 0x8000000 300 0
      ≡ some (some (crc32_bytes 0xffffffff (region numbers 0x8000000 300)), w'))
generic_crc32-region_example =
    generic_crc32-region host numbers 128 0x8000000 300 0 host-ReadsMemory (omega arith)
      (omega arith)
