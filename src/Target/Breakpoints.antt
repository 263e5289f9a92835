-- ===== src/Target/Breakpoints.antt =====
-- target/target.c: the list of breakpoints and watchpoints.
use blackmagic.Base.{◌++◌, All, ap, sym, ◌∙◌, ◌⊎◌, inl, inr, ◌≢◌, false, Bool}
use blackmagic.Base.{
  ℕ, suc, ◌+◌, List, [], ◌∷◌, length, replicate, true, ◌==◌, if◌then◌else◌, ◌≡◌, refl, arith,
}
use blackmagic.Base.{if_lem}
use blackmagic.Target.{
  break_soft, break_hard, watch_write, watch_read, watch_access, type_code, Breakwatch,
  BreakwatchType, Target, Firmware, matches, drive_set, drive_clear, clear_first,
  target_breakwatch_set, target_breakwatch_clear,
}

length-clear_first :
    {W : Type 0} (t : Target W) (kind : BreakwatchType) (addr len : ℕ) (bws : List Breakwatch)
    (w : W)
    → (let r = clear_first t kind addr len bws w in
        length r.1 + (if r.0 == 0 then 1 else 0) ≡ length bws)
unfolding clear_first
length-clear_first t kind addr len [] w = refl
length-clear_first {W} t kind addr len (bw ∷ bws) w =
    let P : ℕ × List Breakwatch × W → Type 0 =
      λ r. length r.1 + (if r.0 == 0 then 1 else 0) ≡ suc (length bws) in
    let r = drive_clear t bw w in
    if_lem P (matches kind addr len bw)
      (λ _. if_lem P (r.0 == 0) (λ e. ground arith) (λ e. ground arith))
      (λ _. ground (arith, length-clear_first t kind addr len bws w))

-- `target_breakwatch_clear` takes one entry off the list when it answers success, and none
-- otherwise, whatever the driver does.
pub length-target_breakwatch_clear :
    {W : Type 0} (t : Target W) (kind : BreakwatchType) (addr len : ℕ) (w : W)
    → (let r = target_breakwatch_clear t kind addr len w in
        length r.1.bw_list + (if r.0 == 0 then 1 else 0) ≡ length t.bw_list)
unfolding target_breakwatch_clear
length-target_breakwatch_clear t kind addr len w = length-clear_first t kind addr len t.bw_list w

-- The entry that `target_breakwatch_set` hands to the driver, and what the driver makes of it.
abbrev pub fresh : BreakwatchType → ℕ → ℕ → Breakwatch
fresh kind addr len = record { kind = kind; addr = addr; size = len; reserved = replicate 4 0 }

abbrev pub driven : {W : Type 0} → Target W → BreakwatchType → ℕ → ℕ → W → Breakwatch
driven t kind addr len w = (drive_set t (fresh kind addr len) w).1

-- An entry of this type, address and size, and one of another.
pub record Has (kind : BreakwatchType) (addr len : ℕ) (bw : Breakwatch) : Type 0 where
  pub same_kind : bw.kind ≡ kind
  pub same_addr : bw.addr ≡ addr
  pub same_size : bw.size ≡ len

abbrev pub Differs : BreakwatchType → ℕ → ℕ → Breakwatch → Type 0
Differs kind addr len bw = (bw.kind ≢ kind) ⊎ ((bw.addr ≢ addr) ⊎ (bw.size ≢ len))

-- The enumerator with a number.
abbrev type_of : ℕ → BreakwatchType
type_of n =
    if n == 0
    then break_soft
    else if n == 1
    then break_hard
    else if n == 2
    then watch_write
    else if n == 3
    then watch_read
    else watch_access

type_of-type_code : (k : BreakwatchType) → type_of (type_code k) ≡ k
type_of-type_code break_soft = refl
type_of-type_code break_hard = refl
type_of-type_code watch_write = refl
type_of-type_code watch_read = refl
type_of-type_code watch_access = refl

type_code-inj : (k l : BreakwatchType) → type_code k ≡ type_code l → k ≡ l
type_code-inj k l e = sym (type_of-type_code k) ∙ ap type_of e ∙ type_of-type_code l

Has-matches :
    (kind : BreakwatchType) (addr len : ℕ) (bw : Breakwatch)
    → Has kind addr len bw
    → matches kind addr len bw ≡ true
Has-matches kind addr len bw h =
    let code : type_code bw.kind ≡ type_code kind = ap type_code h.same_kind in
    ground (arith, code, h.same_addr, h.same_size)

Differs-matches :
    (kind : BreakwatchType) (addr len : ℕ) (bw : Breakwatch)
    → Differs kind addr len bw
    → matches kind addr len bw ≡ false
Differs-matches kind addr len bw (inl ne) =
    let code : type_code bw.kind ≢ type_code kind = λ e. ne (type_code-inj bw.kind kind e) in
    ground (arith, code)
Differs-matches kind addr len bw (inr (inl ne)) = ground (arith, ne)
Differs-matches kind addr len bw (inr (inr ne)) = ground (arith, ne)

if_middle :
    {A B C : Type 0} (b : Bool) (x : A) (y y' : B) (z : C)
    → (let removed : A × B × C = if b then (x, y, z) else (x, y', z) in
        let middle : A × B × C = (x, if b then y else y', z) in removed ≡ middle)
if_middle true x y y' z = refl
if_middle false x y y' z = refl

-- The walk takes the first entry that matches, and leaves those in front of it.
clear_first-found :
    {W : Type 0} (t : Target W) (kind : BreakwatchType) (addr len : ℕ)
    (front rest : List Breakwatch) (bw : Breakwatch) (w : W)
    → All (Differs kind addr len) front
    → Has kind addr len bw
    → (let r = drive_clear t bw w in
        clear_first t kind addr len (front ++ (bw ∷ rest)) w
        ≡ (r.0, front ++ (if r.0 == 0 then rest else r.1 ∷ rest), r.2))
unfolding clear_first
clear_first-found {W} t kind addr len [] rest bw w other h =
    let r = drive_clear t bw w in
    let walked = clear_first t kind addr len rest w in
    let kept : ℕ × List Breakwatch × W = (walked.0, bw ∷ walked.1, walked.2) in
    let removed : ℕ × List Breakwatch × W =
      if r.0 == 0 then (r.0, rest, r.2) else (r.0, r.1 ∷ rest, r.2) in
    ap (λ b. if b then removed else kept) (Has-matches kind addr len bw h)
    ∙ if_middle (r.0 == 0) r.0 rest (r.1 ∷ rest) r.2
clear_first-found {W} t kind addr len (b ∷ front) rest bw w (other, others) h =
    let r = drive_clear t b w in
    let walked = clear_first t kind addr len (front ++ (bw ∷ rest)) w in
    let removed : ℕ × List Breakwatch × W =
      if r.0 == 0
      then (r.0, front ++ (bw ∷ rest), r.2)
      else (r.0, r.1 ∷ (front ++ (bw ∷ rest)), r.2) in
    let behind : ℕ × List Breakwatch × W → ℕ × List Breakwatch × W = λ x. (x.0, b ∷ x.1, x.2) in
    ap (λ m. if m then removed else behind walked) (Differs-matches kind addr len b other)
    ∙ ap behind (clear_first-found t kind addr len front rest bw w others h)

-- What `target_breakwatch_set` leaves behind when it succeeds.
set_head :
    {W : Type 0} (fw : Firmware W) (t : Target W) (kind : BreakwatchType) (addr len : ℕ) (w : W)
    → (let r = target_breakwatch_set fw t kind addr len w in
        r.0 ≡ 0 → r.1 ≡ record t { bw_list = driven t kind addr len w ∷ t.bw_list })
unfolding target_breakwatch_set
set_head {W} fw t kind addr len w =
    let bw = fresh kind addr len in
    let (ret, bw', w1) = drive_set t bw w in
    let P : ℕ × Target W × W → Type 0 =
      λ r. r.0 ≡ 0 → r.1 ≡ record t { bw_list = bw' ∷ t.bw_list } in
    if_lem P (ret == 0)
      (λ e. if_lem P (fw.malloc w1).0 (λ ok h. refl) (λ full h. absurd (omega (arith, h))))
      (λ e h. absurd (ground (arith, e, h)))

-- A breakpoint or watchpoint that has been set is the one that is cleared, whatever others, of
-- another type, address or size, have been set behind it: the driver is given back the entry that it
-- made when it set it, its answer is the answer, and on success the list is what it would be without
-- the entry. The driver keeps the type, the address and the size of the entry that it is given.
pub target_breakwatch_clear-set :
    {W : Type 0} (fw : Firmware W) (t : Target W) (kind : BreakwatchType) (addr len : ℕ) (w : W)
    → Has kind addr len (driven t kind addr len w)
    → (target_breakwatch_set fw t kind addr len w).0 ≡ 0
    → (front : List Breakwatch) (w' : W) → All (Differs kind addr len) front
    → (let t' = (target_breakwatch_set fw t kind addr len w).1 in
        let r = drive_clear t (driven t kind addr len w) w' in
        target_breakwatch_clear (record t' { bw_list = front ++ t'.bw_list }) kind addr len w' ≡ (
          r.0,
          record t { bw_list = front ++ (if r.0 == 0 then t.bw_list else r.1 ∷ t.bw_list) },
          r.2,
        ))
unfolding target_breakwatch_clear
target_breakwatch_clear-set {W} fw t kind addr len w has ok front w' others =
    let bw = driven t kind addr len w in
    let clear : Target W → ℕ × Target W × W = λ t'.
      target_breakwatch_clear (record t' { bw_list = front ++ t'.bw_list }) kind addr len w' in
    ap clear (set_head fw t kind addr len w ok)
    ∙ ap (λ (r : ℕ × List Breakwatch × W). (r.0, record t { bw_list = r.1 }, r.2))
        (clear_first-found t kind addr len front t.bw_list bw w' others has)
