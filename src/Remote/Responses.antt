-- ===== src/Remote/Responses.antt =====
-- remote.c: which requests get one well-formed response.
use blackmagic.Base.{if_lem, subst, sym, ap, ◌∙◌, leb, ltb, ◌||◌, ◌≤◌}
use blackmagic.Base.{
  ℕ, zero, suc, ◌/◌, ◌%◌, ◌<◌, Option, none, some, [], ◌∷◌, ◌++◌, Bytes, All, Bool, true, false,
  ◌==◌, if◌then◌else◌, ◌≡◌, ◌≢◌, refl, arith, inl, inr, Bool-cases,
}
use blackmagic.Base.Words.{bit_and_mask, u8}
use blackmagic.Hex.{hex_digit, hexify}
use blackmagic.Remote.{
  send_buf, respond_buf, low_digits, some_digits, backwards, respond, sanitise, respond_string,
}
use blackmagic.Remote.Dispatch.{
  bytes_of, catch, answered, char_at, num_at, max_ticks, jtag_max_devs, Link, connected, null_call,
  Outcome, returned, raised, DebugPort, Probe, Reply, process_swd, process_jtag, set_power,
  process_general, process_high_level, adiv5_respond, process_adiv5, packet_process,
}

-- A character that neither starts nor ends a packet.
abbrev pub Plain : ℕ → Type 0
Plain c = (c ≢ b'#') × (c ≢ b'$') × (c ≢ b'!')

-- The rest of a response: plain characters up to the end marker.
pub data IsBody : Bytes → Type 0 where
  last : IsBody (b'#' ∷ [])
  char : {c : ℕ} {cs : Bytes} → Plain c → IsBody cs → IsBody (c ∷ cs)

-- The response codes.
pub data IsCode : ℕ → Type 0 where
  ok : IsCode b'K'
  parity : IsCode b'P'
  err : IsCode b'E'
  unsupported : IsCode b'N'

pub data IsResponse : Bytes → Type 0 where
  response : {code : ℕ} {body : Bytes} → IsCode code → IsBody body → IsResponse (b'&' ∷ code ∷ body)

-- A request that ends with a response.
pub data Answers {W : Type 0} : Reply W → Type 0 where
  answers : {dp : DebugPort} {w : W} {r : Bytes} → IsResponse r → Answers (answered dp w r)

hex_digit-Plain : (v : ℕ) → v < 16 → Plain (hex_digit v)
unfolding hex_digit
hex_digit-Plain v h = ground arith

send_buf-IsBody : (bs : Bytes) → All (λ b. b < 256) bs → IsBody (send_buf bs ++ (b'#' ∷ []))
unfolding send_buf hexify
send_buf-IsBody [] h = last
send_buf-IsBody (b ∷ bs) h =
    char (hex_digit-Plain (b / 16) (omega arith)) (
      char (rw (bit_and_mask 4 b) (hex_digit-Plain (b % 16) (omega arith)))
        (send_buf-IsBody bs h.1))

low_digits-Plain : (room param : ℕ) → All Plain (low_digits room param)
unfolding low_digits
low_digits-Plain zero param = tt
low_digits-Plain (suc room) param = elim (Bool-cases (param == 0)) [
  | inl e ↦ rw e tt
  | inr e ↦ rw e (
    rw (bit_and_mask 4 param) (hex_digit-Plain (param % 16) (omega arith)),
    low_digits-Plain room (param / 16),
  )
]

some_digits-Plain : (cs : Bytes) → All Plain cs → All Plain (some_digits cs)
some_digits-Plain [] h = ((omega arith, omega arith, omega arith), tt)
some_digits-Plain (c ∷ cs) h = h

backwards-IsBody : (cs behind : Bytes) → All Plain cs → IsBody behind → IsBody (backwards cs behind)
backwards-IsBody [] behind h b = b
backwards-IsBody (c ∷ cs) behind h b = backwards-IsBody cs (c ∷ behind) h.1 (char h.0 b)

sanitise-IsBody : (str : Bytes) → IsBody (sanitise str ++ (b'#' ∷ []))
unfolding sanitise
sanitise-IsBody [] = last
sanitise-IsBody (c ∷ str) = char (ground arith) (sanitise-IsBody str)

pub respond-IsResponse : {code : ℕ} (param : ℕ) → IsCode code → IsResponse (respond code param)
unfolding respond
respond-IsResponse param c =
    let digits = low_digits 16 param in
    response c (
      backwards-IsBody (some_digits digits) (b'#' ∷ [])
        (some_digits-Plain digits (low_digits-Plain 16 param)) last)

pub respond_string-IsResponse :
    {code : ℕ} (str : Bytes) → IsCode code → IsResponse (respond_string code str)
unfolding respond_string
respond_string-IsResponse str c = response c (sanitise-IsBody str)

pub respond_buf-IsResponse :
    {code : ℕ} (bs : Bytes) → IsCode code → All (λ b. b < 256) bs → IsResponse (respond_buf code bs)
unfolding respond_buf
respond_buf-IsResponse bs c h = response c (send_buf-IsBody bs h)

if_IsCode : (b : Bool) {c d : ℕ} → IsCode c → IsCode d → IsCode (if b then c else d)
if_IsCode true p q = p
if_IsCode false p q = q

if_IsResponse :
    (b : Bool) {x y : Bytes} → IsResponse x → IsResponse y → IsResponse (if b then x else y)
if_IsResponse true p q = p
if_IsResponse false p q = q

module _ {W : Type 0} where
  if_Answers : (b : Bool) {x y : Reply W} → Answers x → Answers y → Answers (if b then x else y)
  if_Answers true p q = p
  if_Answers false p q = q

bytes_of-bytes : (x : ℕ) → All (λ b. b < 256) (bytes_of x)
bytes_of-bytes x = omega arith

respond_buf-bytes_of : (x : ℕ) → IsResponse (respond_buf b'K' (bytes_of x))
respond_buf-bytes_of x = respond_buf-IsResponse (bytes_of x) ok (bytes_of-bytes x)

-- The same of a response that comes with a state alone.
data Responds {W : Type 0} : W × Bytes → Type 0 where
  responds : {r : W × Bytes} → IsResponse r.1 → Responds r

Responds-IsResponse : {W : Type 0} {r : W × Bytes} → Responds r → IsResponse r.1
Responds-IsResponse (responds h) = h

if_Responds :
    {W : Type 0} (b : Bool) {x y : W × Bytes}
    → Responds x
    → Responds y
    → Responds (if b then x else y)
if_Responds true p q = p
if_Responds false p q = q

-- A debug port whose functions are installed.
abbrev pub Installed : DebugPort → Type 0
Installed dp = (l : Link) × (dp.link ≡ some l)

-- An access that ends.
abbrev pub Ended : {S A : Type 0} → Option (Outcome S A) → Type 0
Ended {S} {A} o = (r : Outcome S A) × (o ≡ some r)

ruleset rules = (
  if_Answers, if_IsResponse, if_IsCode, answers, respond-IsResponse, respond_string-IsResponse, ok,
  err, parity, unsupported, respond_buf-bytes_of,
)

module _ {W : Type 0} (p : Probe W) where
  process_swd-Answers :
      (i : ℕ) (packet : Bytes) (dp : DebugPort) (w : W) → Answers (process_swd p i packet dp w)
  unfolding process_swd
  process_swd-Answers i packet dp w = search rules depth 14

  process_jtag-Answers :
      (i : ℕ) (packet : Bytes) (dp : DebugPort) (w : W)
      → ((char_at packet 1 == b'D' || char_at packet 1 == b'd') ≡ true
          → num_at 2 2 packet ≤ max_ticks)
      → Answers (process_jtag p i packet dp w)
  unfolding process_jtag
  process_jtag-Answers i packet dp w short =
      let c = char_at packet 1 in
      let P : Reply W → Type 0 = λ r. Answers r in
      if_lem P (c == b'S') (λ e. search rules depth 14)
        (λ e.
          if_lem P (c == b'R') (λ e. search rules depth 14)
            (λ e.
              if_lem P (c == b'T') (λ e. search rules depth 14)
                (λ e.
                  if_lem P (c == b'c') (λ e. search rules depth 14)
                    (λ e.
                      if_lem P (c == b'D' || c == b'd')
                        (λ e.
                          if_lem P (ltb i 5) (λ e'. search rules depth 14)
                            (λ e'.
                              if_lem P (leb (num_at 2 2 packet) max_ticks)
                                (λ f. search rules depth 14)
                                (λ f. let le = short e in absurd (ground (arith, le, f)))))
                        (λ e. search rules depth 14)))))

  set_power-Responds : (packet : Bytes) (w : W) → Responds (set_power p packet w)
  unfolding set_power
  set_power-Responds packet w = search (rules, if_Responds, responds) depth 8

  set_power-IsResponse : (packet : Bytes) (w : W) → IsResponse (set_power p packet w).1
  set_power-IsResponse packet w = Responds-IsResponse (set_power-Responds packet w)

  process_general-Answers :
      (packet : Bytes) (dp : DebugPort) (w : W) → Answers (process_general p packet dp w)
  unfolding process_general
  process_general-Answers packet dp w = search (rules, set_power-IsResponse) depth 16

  process_high_level-Answers :
      (packet : Bytes) (len : ℕ) (dp : DebugPort) (w : W)
      → ((char_at packet 1 == b'J') ≡ true → num_at 2 2 packet < jtag_max_devs)
      → Answers (process_high_level p packet len dp w)
  unfolding process_high_level
  process_high_level-Answers packet len dp w inside =
      let P : Reply W → Type 0 = λ r. Answers r in
      if_lem P (char_at packet 1 == b'C') (λ e. search rules depth 14)
        (λ e.
          if_lem P (char_at packet 1 == b'J')
            (λ e.
              if_lem P (ltb len 22) (λ e'. search rules depth 14)
                (λ e'.
                  if_lem P (ltb (num_at 2 2 packet) jtag_max_devs) (λ f. search rules depth 14)
                    (λ f. let lt = inside e in absurd (ground (arith, lt, f)))))
            (λ e. search rules depth 14))

  -- The data of an answer, where there is any, are bytes.
  abbrev AreBytes : Option Bytes → Type 0
  AreBytes none = Unit
  AreBytes (some bs) = All (λ b. b < 256) bs

  adiv5_respond-IsResponse :
      (o : Option Bytes) (w : W) → AreBytes o → IsResponse (adiv5_respond p o w)
  unfolding adiv5_respond
  adiv5_respond-IsResponse none w h = search rules depth 6
  adiv5_respond-IsResponse (some bs) w h = search (rules, respond_buf-IsResponse) depth 6

  -- An access that ends, and whose data, where there are any, are bytes.
  pub record Ends {A : Type 0} (show : A → Option Bytes) (o : Option (Outcome W A)) : Type 0 where
    pub outcome : Outcome W A
    pub ended : o ≡ some outcome
    pub bytes : (a : A) (w : W) → outcome ≡ returned a w → AreBytes (show a)

  catch-Answers :
      {A : Type 0} (show : A → Option Bytes) (dp : DebugPort) (o : Option (Outcome W A))
      → Ends show o
      → Answers (catch p show dp o)
  catch-Answers show dp o e = rw e.ended (outcome_lem e.outcome e.bytes)
    where
      outcome_lem :
          (r : Outcome W _)
          → ((a : _) (w : W) → r ≡ returned a w → AreBytes (show a))
          → Answers (catch p show dp (some r))
      outcome_lem (returned a w) h = answers (adiv5_respond-IsResponse (show a) w (h a w refl))
      outcome_lem (raised x w) h = answers (respond-IsResponse _ err)

  -- Accesses that return or raise an exception when the functions of the debug port are installed,
  -- and memory that is read as bytes.
  pub record AccessesEnd : Type 0 where
    pub dp_reads : (dp : DebugPort) (a : ℕ) (w : W) → Installed dp → Ended (p.dp_read dp a w)
    pub lows :
        (dp : DebugPort) (rnw a v : ℕ) (w : W) → Installed dp → Ended (p.low_access dp rnw a v w)
    pub ap_reads :
        (dp : DebugPort) (apsel a : ℕ) (w : W) → Installed dp → Ended (p.ap_read dp apsel a w)
    pub ap_writes :
        (dp : DebugPort) (apsel a v : ℕ) (w : W) → Installed dp → Ended (p.ap_write dp apsel a v w)
    pub mem_reads :
        (dp : DebugPort) (apsel csw a len : ℕ) (w : W)
        → Installed dp
        → Ended (p.mem_read dp apsel csw a len w)
    pub mem_writes :
        (dp : DebugPort) (apsel csw a : ℕ) (bs : Bytes) (align : ℕ) (w : W)
        → Installed dp
        → Ended (p.mem_write_sized dp apsel csw a bs align w)
    pub reads_bytes :
        (dp : DebugPort) (apsel csw a len : ℕ) (w w' : W) (bs : Bytes)
        → p.mem_read dp apsel csw a len w ≡ some (returned bs w')
        → All (λ b. b < 256) bs

  connected-Answers :
      (dp : DebugPort) (r : Reply W) → Installed dp → Answers r → Answers (connected p dp r)
  connected-Answers dp r (l, e) h =
      subst (λ (o : Option Link). Answers (elim o [ none ↦ null_call | some l' ↦ r ])) (sym e) h

  value-Answers :
      (dp : DebugPort) (o : Option (Outcome W ℕ))
      → Ended o
      → Answers (catch p (λ x. some (bytes_of x)) dp o)
  value-Answers dp o (r, e) =
      catch-Answers (λ x. some (bytes_of x)) dp o
        (record { outcome = r; ended = e; bytes = λ x w h. bytes_of-bytes x })

  unit-Answers :
      (dp : DebugPort) (o : Option (Outcome W (Unit {0})))
      → Ended o
      → Answers (catch p (λ x. none) dp o)
  unit-Answers dp o (r, e) =
      catch-Answers (λ x. none) dp o (record { outcome = r; ended = e; bytes = λ x w h. tt })

  module _ (ends : AccessesEnd) (packet : Bytes) (dp : DebugPort) (w : W) where
    bytes-Answers :
        (dp' : DebugPort) (apsel csw a len : ℕ)
        → Installed dp'
        → Answers (catch p some dp' (p.mem_read dp' apsel csw a len w))
    bytes-Answers dp' apsel csw a len i =
        let (r, e) = ends.mem_reads dp' apsel csw a len w i in
        catch-Answers some dp' (p.mem_read dp' apsel csw a len w) (record {
          outcome = r;
          ended = e;
          bytes = λ bs w' h. ends.reads_bytes dp' apsel csw a len w w' bs (e ∙ ap some h);
        })

    process_adiv5-Answers : (len : ℕ) → Installed dp → Answers (process_adiv5 p packet len dp w)
    unfolding process_adiv5
    process_adiv5-Answers len (l, e) =
        let dp' = record dp { dev_index = u8 (num_at 2 2 packet) } in
        let i : Installed dp' = (l, e) in
        search
          (
            rules, connected-Answers, value-Answers, unit-Answers, bytes-Answers, i, ends.dp_reads,
            ends.lows, ends.ap_reads, ends.ap_writes, ends.mem_writes,
          )
          depth 16

-- What a request asks for is inside of the limits: the functions of the debug port are installed
-- for ADIv5 requests, at most 64 bits are shifted at once, and the chain has a place for the device.
pub record IsServed (packet : Bytes) (dp : DebugPort) : Type 0 where
  pub adiv5 : (char_at packet 0 == b'A') ≡ true → Installed dp
  pub shift :
      (char_at packet 0 == b'J') ≡ true
      → (char_at packet 1 == b'D' || char_at packet 1 == b'd') ≡ true
      → num_at 2 2 packet ≤ max_ticks
  pub device :
      (char_at packet 0 == b'H') ≡ true
      → (char_at packet 1 == b'J') ≡ true
      → num_at 2 2 packet < jtag_max_devs

-- Every request inside of these limits, well-formed or not, is answered by exactly one response when
-- the ADIv5 accesses end: the marker `&`, one of the codes `K`, `P`, `E` and `N`, and then characters
-- among which `#` stands at the end alone and `$` and `!` do not stand. Errors and exceptions of an
-- access are answered so too. Memory is assumed to be read as bytes.
pub packet_process-Answers :
    {W : Type 0} (p : Probe W) (i : ℕ) (packet : Bytes) (dp : DebugPort) (w : W)
    → AccessesEnd p
    → IsServed packet dp
    → Answers (packet_process p i packet dp w)
unfolding packet_process
packet_process-Answers {W} p i packet dp w ends served =
    let c = char_at packet 0 in
    let P : Reply W → Type 0 = λ r. Answers r in
    if_lem P (c == b'S') (λ e. process_swd-Answers p i packet dp w)
      (λ e.
        if_lem P (c == b'J') (λ f. process_jtag-Answers p i packet dp w (served.shift f))
          (λ e.
            if_lem P (c == b'G') (λ e. process_general-Answers p packet dp w)
              (λ e.
                if_lem P (c == b'H')
                  (λ f. process_high_level-Answers p packet i dp w (served.device f))
                  (λ e.
                    if_lem P (c == b'A')
                      (λ f. process_adiv5-Answers p ends packet dp w i (served.adiv5 f))
                      (λ e. answers (respond-IsResponse 1 err))))))
