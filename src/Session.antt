-- ===== src/Session.antt =====
-- gdb_main.c: the session with the debugger. What the targets do is a record of operations by the
-- handle of a target, which stands for its pointer, over a state `W` of the outside.
pub mod Scanf
pub mod Attaching
pub mod Queries
pub mod Commands
pub mod Loop
pub mod Tracked
pub mod Release
pub mod Keeping
pub mod Answering
pub mod Packets
pub mod Numbers
pub mod Reachable
pub mod Replies
pub mod Answers
pub mod Detached
pub mod Transfer
pub mod Cmdline
pub mod CommandStep
pub mod CommandLine
use blackmagic.Base.{
  ℕ, zero, suc, ◌+◌, ◌-◌, ◌*◌, ◌/◌, ◌%◌, ◌^◌, ◌<◌, ◌≤◌, min, max, bit_and, bit_or, bit_xor, Option,
  none, some, List, [], ◌∷◌, ◌++◌, map, append-nil, append_assoc, Bytes, length, get_elem?, get_or,
  set, take, drop, replicate, All, subst, Bool, true, false, not, ◌&&◌, ◌||◌, ltb, leb, ◌==◌,
  if◌then◌else◌, ◌≡◌, ◌≢◌, refl, sym, ap, ◌∙◌, arith, ◌⊎◌, inl, inr, Bool-cases, Option-cases,
}
use Prim.Native.Char.{code}
use Prim.Native.String.{String}
use blackmagic.Rtt.{HaltReason}

-- The code points of an ASCII text.
abbrev pub codes : String → Bytes
codes String.[] = []
codes (String.◌∷◌ c s) = code c ∷ codes s

-- An `int`.
pub data ℤ : Type 0 where
  pos negsuc : ℕ → ℤ

-- What is sent: a packet, a notification, a text for the console.
pub data Reply : Type 0 where
  packet notification console : Bytes → Reply

-- The variables of gdb_main.c, what has been sent, and the targets of which `tc` is set.
pub record Session (W : Type 0) : Type 0 where
  pub cur_target : Option ℕ
  pub last_target : Option ℕ
  pub running : Bool
  pub detach_notify : Bool
  pub rtt_found : Bool
  pub controlled : ℕ → Bool
  pub out : List Reply
  pub world : W

-- The end of a handler: a return value, the use of a NULL target, or a read behind the packet buffer.
pub data Run (W : Type 0) : Type 0 where
  done : ℤ → Session W → Run W
  null_target past_end : Run W

-- The operations on targets. A flag answers what the C function answers: failure for the accesses to
-- memory, success for the flash and `attach`. A register that cannot be read has no bytes.
-- `halt_poll`, `command_process` and `hostio_reply` may change the session: they may free the targets.
pub record Targets (W : Type 0) : Type 0 where
  pub target_list : W → List ℕ
  pub attach : ℕ → W → Bool × W
  pub detach : ℕ → W → W
  pub reset : ℕ → W → W
  pub set_cmdline : ℕ → Bytes → W → W
  pub regs_size : ℕ → W → ℕ
  pub regs_read : ℕ → W → Bytes × W
  pub regs_write : ℕ → Bytes → W → W
  pub has_reg_read : ℕ → W → Bool
  pub reg_read : ℕ → ℕ → ℕ → W → Bytes × W
  pub has_reg_write : ℕ → W → Bool
  pub reg_write : ℕ → ℕ → Bytes → W → Bool × W
  pub mem_read : ℕ → ℕ → ℕ → W → Bool × Bytes × W
  pub mem_write : ℕ → ℕ → Bytes → W → Bool × W
  pub halt_resume : ℕ → Bool → W → W
  pub halt_request : ℕ → W → W
  pub halt_poll : ℕ → Session W → HaltReason × ℕ × Session W
  pub breakwatch_set : ℕ → ℕ → ℕ → ℕ → W → ℤ × W
  pub breakwatch_clear : ℕ → ℕ → ℕ → ℕ → W → ℤ × W
  pub flash_erase : ℕ → ℕ → ℕ → W → Bool × W
  pub flash_write : ℕ → ℕ → Bytes → W → Bool × W
  pub flash_complete : ℕ → W → Bool × W
  pub mem_map : ℕ → ℕ → W → Bytes
  pub regs_description : ℕ → W → Option Bytes × W
  pub crc32 : ℕ → ℕ → ℕ → W → Option ℕ × W
  pub command_process : Bytes → Session W → ℤ × Session W
  pub hostio_reply : Bytes → ℕ → Session W → ℤ × Session W
  pub morse : Option Bytes → Bool → W → W
  pub set_run_state : Bool → W → W
  pub clk_output_enable : Bool → W → W
  -- The value of a variable that is not set, and of a number that `%x` cannot represent.
  pub uninitialised : ℕ → ℕ
  pub oversized : ℕ → ℕ

-- `gdb_putpacket`, `gdb_putpacketz`.
abbrev pub put : {W : Type 0} → Bytes → Session W → Session W
put text s = record s { out = s.out ++ (packet text ∷ []) }

-- A change of the outside.
abbrev pub upon : {W : Type 0} → (W → W) → Session W → Session W
upon f s = record s { world = f s.world }

-- A return of 0.
abbrev pub return_zero : {W : Type 0} → Session W → Run W
return_zero s = done (pos 0) s
