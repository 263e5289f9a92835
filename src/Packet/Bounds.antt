-- ===== src/Packet/Bounds.antt =====
-- gdb_packet.c: `gdb_getpacket` stays inside the caller's buffer.
use blackmagic.Base.{ℕ, ◌<◌, ◌≤◌, bit_xor, [], ◌∷◌, Bytes, length, set, ◌≡◌, refl, arith}
use blackmagic.Base.{length-set}
use blackmagic.Packet.{
  Phase, start, remote_body, body, escaped, check_high, check_low, Receiver, Progress, more, done,
  step, Reception, waiting, received, run, getpacket,
}

-- How far the next store may reach. Behind `}` one more byte has to fit below `size`.
abbrev pub Slack : ℕ → Phase → ℕ → Type 0
Slack size escaped offset = offset < size
Slack size _ offset = offset ≤ size

module _ (size room : ℕ) where
  abbrev pub Inv : Phase → Receiver → Type 0
  Inv p r = (length r.packet ≡ room) × Slack size p r.offset

  abbrev pub ProgressInv : Progress → Type 0
  ProgressInv (more p r) = Inv p r
  ProgressInv (done n r) = (length r.packet ≡ room) × (n ≤ size)

  abbrev pub ReceptionInv : Reception → Type 0
  ReceptionInv (waiting p r) = Inv p r
  ReceptionInv (received n r rest) = (length r.packet ≡ room) × (n ≤ size)

  module _ (remote : ℕ → Bytes → Bytes)
      (keeps : (n : ℕ) (buf : Bytes) → length (remote n buf) ≡ length buf)
      (some_room : 0 < size) where
    step-ProgressInv :
        (p : Phase) (r : Receiver) (c : ℕ) → Inv p r → ProgressInv (step size remote p r c)
    unfolding step
    step-ProgressInv start r c h = ground (arith, length-set r.packet 0 c)
    step-ProgressInv remote_body r c h = ground (
      arith,
      length-set r.packet r.offset 0,
      length-set r.packet r.offset c,
      length-set r.packet 0 0,
      length-set r.packet 0 b'$',
      length-set (set r.packet 0 b'$') 0 0,
      keeps r.offset (set r.packet r.offset 0),
      length-set (remote r.offset (set r.packet r.offset 0)) 0 0,
    )
    step-ProgressInv body r c h = ground (arith, length-set r.packet r.offset c)
    step-ProgressInv escaped r c h = ground (arith, length-set r.packet r.offset (bit_xor c 0x20))
    step-ProgressInv check_high r c h = h
    step-ProgressInv (check_low a) r c h = ground (arith, length-set r.packet r.offset 0)

    resume-ReceptionInv :
        (s : Progress) (rest : Bytes) (resume : Phase → Receiver → Reception)
        → ((q : Phase) (t : Receiver) → Inv q t → ReceptionInv (resume q t))
        → ProgressInv s
        → ReceptionInv (elim s [ more q t ↦ resume q t | done n t ↦ received n t rest ])
    resume-ReceptionInv (more q t) rest resume keep h = keep q t h
    resume-ReceptionInv (done n t) rest resume keep h = h

    run-ReceptionInv :
        (input : Bytes) (p : Phase) (r : Receiver)
        → Inv p r
        → ReceptionInv (run size remote p r input)
    unfolding run
    run-ReceptionInv [] p r h = h
    run-ReceptionInv (c ∷ input) p r h =
        resume-ReceptionInv (step size remote p r c) input (λ q t. run size remote q t input)
          (run-ReceptionInv input) (step-ProgressInv p r c h)

-- Whatever characters arrive, `gdb_getpacket` leaves the length of the buffer alone, keeps its
-- offset at most `size` wherever it waits (below `size` behind an escape, where a store comes
-- next), and returns a length of at most `size`, provided that `size` is not 0 and that the handler
-- of remote packets leaves the length of the buffer alone.
pub getpacket_bounds :
    (size : ℕ) (remote : ℕ → Bytes → Bytes) (packet input : Bytes)
    → 0 < size
    → ((n : ℕ) (buf : Bytes) → length (remote n buf) ≡ length buf)
    → ReceptionInv size (length packet) (getpacket size remote packet input)
unfolding getpacket
getpacket_bounds size remote packet input h keeps =
    run-ReceptionInv size (length packet) remote keeps h input start
      (record { packet = packet; offset = 0; csum = 0; out = [] }) (refl, omega arith)
