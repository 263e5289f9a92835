-- ===== src/Lib.antt =====
-- A model of the core of the debug probe firmware, with theorems about it.
--
-- The firmware stands between a debugger on the host and the target. Packets of the debugger arrive
-- character by character (src/gdb_packet.c) with bytes in hexadecimal text (src/hex_utils.c); the
-- same connection carries the requests of the hosted application, which src/remote.c answers. The
-- packets act on the target (src/target/target.c): its memory, its breakpoints, its flash memory
-- (src/target/target_flash.c) and the checksum of its memory (src/crc32.c). In between the firmware
-- polls the ring buffers through which a running program exchanges text with the host (src/rtt.c).
-- The session with the debugger (src/gdb_main.c) gives each packet to a handler and keeps track of the
-- target. Targets are reached over two wires or a JTAG chain (src/target/adiv5_swdp.c,
-- src/target/jtag_scan.c), whose bits the generic sequences put on the pins.
--
-- Base: shared names, lists, tests, and words of 8 and 32 bits.
-- Hex: src/hex_utils.c. `hex_digit`, `hexify`, `unhex_digit` and `unhexify`.
-- Packet: src/gdb_packet.c. `gdb_getpacket` is the state machine `step` over the characters that
--   arrive, in the phases of its loops, for the firmware (PC_HOSTED is 0); `getpacket` runs it on a
--   finite input. What it puts out is a list of events. `gdb_putpacket`, `gdb_putpacket2` and
--   `gdb_put_notification` give the events that they cause for given replies.
-- Flash: src/target/target_flash.c. A region is the record `Flash` with the functions of its driver
--   as fields, over a state `D` of the device. `flash_buffered_flush` and `flash_buffered_write`
--   stand in Flash, `target_flash_erase`, `target_flash_write` and `target_flash_complete` in
--   Flash/Routines. Flash/Memory, Programming, Buffering, Delivery and Stored prove what the buffer
--   brings to the memory; Flash/Routines/Completion proves what the end of programming leaves.
-- Remote: src/remote.c. Numbers and responses in Remote, the dispatch of requests in
--   Remote/Dispatch. The functions of the probe are fields of the record `Probe`, over a state `W`;
--   a call that may raise an exception gives an `Outcome`, or none when it does not return. A request
--   ends with a `Reply`: a response, or what the firmware does in place of one. Remote/Numbers and
--   Remote/Responses are about numbers in responses and about which requests get one.
-- Rtt: src/rtt.c. The searches and the ring buffers in Rtt, the poll in Rtt/Poll. The memory of the
--   target and the side of the host are fields of `Io`, the control of the core those of `Core`.
--   Rtt/Rings, Memory, Refill and Queue are about bytes for the target, Rtt/Drain about bytes from
--   it.
-- Crc: src/crc32.c. The table, `crc32_calc` and `generic_crc32` without the CRC unit of STM32 parts.
-- Target: src/target/target.c. The record `Target` has the functions of the driver as fields.
--   `target_attach`, `target_detach`, access to memory, the list of breakpoints and watchpoints, the
--   sizes that `target_add_flash` sets, the command line and the heap information.
-- Wire: src/target/swdptap_generic.c and src/target/jtagtap_generic.c. Sequences of bits on the pins,
--   which are the record `Pins`. Wire/Line and Wire/Parity put the two directions together.
-- Swd: src/target/adiv5_swdp.c without the scan, `adiv5_dp_recoverable_access` of
--   src/target/adiv5.h and the register access of src/target/adiv5.c. `swd_proc` and the clock are
--   the record `SwdProc`; Swd/Bus puts the accesses on the sequences of Wire.
-- Jtag: src/target/jtag_scan.c, with `jtag_scan` in Jtag/Scan, and src/target/adiv5_jtagdp.c in
--   Jtag/Dp. `jtag_proc` is the record `JtagProc`, the table `dev_descr` an argument. Jtag/Lengths,
--   Overrun, Postscan and Given are about the lengths of the instruction registers.
-- Session: src/gdb_main.c. The variables of the file are the record `Session`, the operations on
--   targets the record `Targets` over the handles of targets. Session/Scanf has what the file uses of
--   `sscanf`, Attaching how targets come and go (also `target_attach` and `target_list_free` of
--   src/target/target.c for all targets together), Queries the q packets, Cmdline and Commands the v
--   and z packets, Loop the other packets and the poll. Tracked, Release, Keeping, Answering, Packets
--   and Reachable are about the targets that the session points at, Detached about packets without
--   a target, Replies and Answers about how many packets answer one, Numbers and Transfer about texts
--   in pieces, CommandStep and CommandLine about `vRun`.
-- Morse: src/morse.c as the firmware builds it, a message being the memory that its pointer leads to.
--   Morse/Signals has the alphabet of dots and dashes and what the indicator sends of a message.
-- Examples: the theorems at concrete inputs.
--
-- Bounds and fuel. Addresses and sizes are natural numbers; where the code adds or subtracts in 32
-- bits the model takes the remainder by 2^32, and characters are taken modulo 256. Loops that are
-- not structural take fuel. `flash_buffered_write` ends with as much fuel as there are bytes, since
-- every round takes one at least; the loop of the flush has the length of its interval and one more;
-- `read_rtt` ends with the size of the ring, of which every round takes a place; `generic_crc32`
-- ends with as much fuel as there are bytes. The waits for a halt of the target and the searches
-- through its memory take fuel, for which no bound is stated. An access over JTAG ends with fuel for
-- the clock, the scan of the instruction registers with one unit for each bit. An access over two
-- wires takes fuel for its loop and for its calls of itself, which need not end.
--
-- Not modelled: debug output and texts for the user; exceptions behind a packet, and the loop of
-- src/main.c; the drivers of target families and the cores, and the discovery of components behind
-- a debug port, which are sequences of accesses to hardware; the platforms, which stand on the git
-- submodule libopencm3; the hosted application; the functions that format text by printf. A
-- function that the code calls and that is not modelled is a parameter; the theorems that need
-- more of it than its type name that as a hypothesis.
pub mod Base
pub mod Hex
pub mod Packet
pub mod Flash
pub mod Remote
pub mod Rtt
pub mod Crc
pub mod Target
pub mod Wire
pub mod Swd
pub mod Jtag
pub mod Session
pub mod Morse
mod Examples
