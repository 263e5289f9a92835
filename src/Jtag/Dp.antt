-- ===== src/Jtag/Dp.antt =====
-- target/adiv5_jtagdp.c: accesses to a debug port over JTAG.
use blackmagic.Base.{
  ℕ, zero, suc, ◌+◌, ◌*◌, ◌/◌, ◌%◌, ◌^◌, ◌<◌, bit_and, bit_or, Option, none, some, [], ◌∷◌, Bytes,
  Bool, true, not, ◌&&◌, ◌==◌, if◌then◌else◌, ◌≡◌, refl, ap, arith,
}
use blackmagic.Base.{if_lem}
use blackmagic.Base.Words.{u32}
use blackmagic.Remote.Dispatch.{Outcome, returned, raised, error}
use blackmagic.Jtag.{JtagProc, Chain, write_ir, shift_dr}

-- The fields of `adiv5_debug_port_s` that the accesses use.
pub record JtagPort : Type 0 where
  pub dev_index : ℕ
  pub fault : ℕ

-- The answers, and the instructions.
abbrev pub jtagdp_ack_ok : ℕ
jtagdp_ack_ok = 2

abbrev pub jtagdp_ack_wait : ℕ
jtagdp_ack_wait = 1

abbrev pub ir_abort : ℕ
ir_abort = 0x8

abbrev pub ir_dpacc : ℕ
ir_dpacc = 0xa

abbrev pub ir_apacc : ℕ
ir_apacc = 0xb

-- The bytes of a `uint64_t`, and the number that bytes are.
abbrev pub little_endian : ℕ → ℕ → Bytes
little_endian zero x = []
little_endian (suc n) x = x % 2 ^ 8 ∷ little_endian n (x / 2 ^ 8)

abbrev pub number_of_bytes : Bytes → ℕ
number_of_bytes [] = 0
number_of_bytes (b ∷ bs) = b + 2 ^ 8 * number_of_bytes bs

-- The 35 bits of a request.
unfoldable pub dp_request : Bool → ℕ → ℕ → ℕ
dp_request rnw addr value =
    bit_or (bit_or (value * 2 ^ 3) (bit_and (bit_and addr 0xff / 2) 0x06)) (if rnw then 1 else 0)

-- The clock, set to 250 ms at the start of an access.
pub record Timer (W : Type 0) : Type 0 where
  pub set_timeout : W → W
  pub expired : W → Bool × W

module _ {W : Type 0} (jtag : JtagProc W) (timer : Timer W) where
  -- The loop of `fw_adiv5_jtagdp_low_access`, on fuel: the result and the answer. `stale` are the
  -- eight bytes of `response` before it is set.
  unfoldable pub dp_loop : Bytes → ℕ → Bytes → ℕ → Chain → W → Option (ℕ × ℕ × W)
  dp_loop stale zero request dev_index chain w = none
  dp_loop stale (suc fuel) request dev_index chain w =
      let (read, w1) = shift_dr jtag dev_index (some stale) request 35 chain w in
      let response : ℕ = elim read [ none ↦ 0 | some b ↦ number_of_bytes b ] in
      let (late, w2) = timer.expired w1 in
      let rest = dp_loop stale fuel request dev_index chain w2 in
      if not late && response % 2 ^ 3 == jtagdp_ack_wait
      then rest
      else some (u32 (response / 2 ^ 3), response % 2 ^ 3, w2)

  -- `adiv5_jtagdp_abort`.
  unfoldable pub jtagdp_abort : ℕ → JtagPort → Chain → W → Chain × W
  jtagdp_abort abort dp chain w =
      let (chain1, w1) = write_ir jtag dp.dev_index ir_abort chain w in
      (chain1, (shift_dr jtag dp.dev_index none (little_endian 8 (abort * 2 ^ 3)) 35 chain1 w1).1)

  -- The end of `fw_adiv5_jtagdp_low_access`, from the result and the last answer.
  unfoldable pub dp_finish : ℕ × ℕ × W → JtagPort → Chain → Outcome (JtagPort × Chain × W) ℕ
  dp_finish (result, ack, w) dp chain =
      let (chain1, w1) = jtagdp_abort 1 dp chain w in
      if ack == jtagdp_ack_wait
      then returned 0 (record dp { fault = 1 }, chain1, w1)
      else if not (ack == jtagdp_ack_ok)
      then raised error (dp, chain, w)
      else returned result (dp, chain, w)

  -- `fw_adiv5_jtagdp_low_access`.
  unfoldable pub jtagdp_low_access :
      Bytes → ℕ → Bool → ℕ → ℕ → JtagPort → Chain → W → Option (Outcome (JtagPort × Chain × W) ℕ)
  unfolding dp_loop
  jtagdp_low_access stale fuel rnw addr value dp chain w =
      let request = little_endian 8 (dp_request rnw addr value) in
      let ap = not (bit_and addr 0x100 == 0) in
      let (chain1, w1) = write_ir jtag dp.dev_index (if ap then ir_apacc else ir_dpacc) chain w in
      elim (dp_loop stale fuel request dp.dev_index chain1 (timer.set_timeout w1)) [
        | none ↦ none
        | some r ↦ some (dp_finish r dp chain1)
      ]

  -- The time that is left, as a number of questions to the clock, which nothing but these changes.
  pub record Runs (left : W → ℕ) : Type 0 where
    pub ends : (w : W) → left w ≡ 0 → (timer.expired w).0 ≡ true
    pub runs : (w : W) → 0 < left w → left (timer.expired w).1 < left w
    pub shifts :
        (i n : ℕ) (out : Option Bytes) (b : Bytes) (chain : Chain) (w : W)
        → left (shift_dr jtag i out b n chain w).1 ≡ left w

  dp_loop_ends :
      (left : W → ℕ) (law : Runs left) (stale : Bytes) (fuel i : ℕ) (request : Bytes)
      (chain : Chain) (w : W)
      → left w < fuel
      → (r : ℕ × ℕ × W) × (dp_loop stale fuel request i chain w ≡ some r)
  unfolding dp_loop
  dp_loop_ends left law stale zero i request chain w lt = absurd (omega arith)
  dp_loop_ends left law stale (suc fuel) i request chain w lt =
      let P : Option (ℕ × ℕ × W) → Type 0 = λ o. (r : ℕ × ℕ × W) × (o ≡ some r) in
      let shifted = shift_dr jtag i (some stale) request 35 chain w in
      let w1 = shifted.1 in
      let w2 = (timer.expired w1).1 in
      let response : ℕ = elim shifted.0 [ none ↦ 0 | some b ↦ number_of_bytes b ] in
      let same : left w1 ≡ left w = law.shifts i 35 (some stale) request chain w in
      if_lem P (not (timer.expired w1).0 && response % 2 ^ 3 == jtagdp_ack_wait)
        {y = some (u32 (response / 2 ^ 3), response % 2 ^ 3, w2)}
        (λ e.
          (let some_left : 0 < left w1 =
              time_left (left w1) (timer.expired w1).0 _ e (law.ends w1) in
            let less : left w2 < left w1 = law.runs w1 some_left in
            dp_loop_ends left law stale fuel i request chain w2 (omega arith)))
        (λ e. ((u32 (response / 2 ^ 3), response % 2 ^ 3, w2), refl))
    where
      time_left :
          (n : ℕ) (late other : Bool) → (not late && other) ≡ true → (n ≡ 0 → late ≡ true) → 0 < n
      time_left zero late other e f = absurd (ground (arith, f refl))
      time_left (suc n) late other e f = omega arith

  -- An access over JTAG ends, with fuel for the questions that the clock answers with no and one
  -- more, whatever the target answers, when shifts take nothing from the clock.
  pub jtagdp_low_access_ends :
      (left : W → ℕ) (law : Runs left) (stale : Bytes) (fuel : ℕ) (rnw : Bool) (addr value : ℕ)
      (dp : JtagPort) (chain : Chain) (w : W)
      → ((w' : W) → left (timer.set_timeout w') < fuel)
      → (r : Outcome (JtagPort × Chain × W) ℕ) × (jtagdp_low_access stale fuel rnw addr value dp
            chain w
          ≡ some r)
  unfolding jtagdp_low_access
  jtagdp_low_access_ends left law stale fuel rnw addr value dp chain w enough =
      let request = little_endian 8 (dp_request rnw addr value) in
      let ap' = not (bit_and addr 0x100 == 0) in
      let (chain1, w1) = write_ir jtag dp.dev_index (if ap' then ir_apacc else ir_dpacc) chain w in
      let (r, e) =
        dp_loop_ends left law stale fuel dp.dev_index request chain1 (timer.set_timeout w1)
          (enough w1) in
      let next : Option (ℕ × ℕ × W) → Option (Outcome (JtagPort × Chain × W) ℕ) =
        λ o. elim o [ none ↦ none | some r' ↦ some (dp_finish r' dp chain1) ] in
      (dp_finish r dp chain1, ap next e)
