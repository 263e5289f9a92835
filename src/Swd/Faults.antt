-- ===== src/Swd/Faults.antt =====
-- target/adiv5_swdp.c: accesses to a target that answers every request by a fault.
use blackmagic.Base.{
  ℕ, zero, suc, bit_and, Option, none, Bool, false, not, ◌&&◌, ◌==◌, ◌≡◌, refl, ap, arith,
}
use blackmagic.Base.{if_lem}
use blackmagic.Remote.Dispatch.{Outcome}
use blackmagic.Swd.{
  SwdProc, SwdPort, ack_fault, then_, all_clear, request_loop, low_access, make_packet_request,
}

-- Whether an access is dropped because of a fault that is pending.
abbrev pub is_dropped : ℕ → SwdPort → Bool
is_dropped addr dp = not (bit_and addr 0x100 == 0) && not (dp.fault == 0)

then_-none :
    {S A B : Type 0} (o : Option (Outcome S A)) (k : A → S → Option (Outcome S B))
    → o ≡ none
    → then_ o k ≡ none
then_-none o k e = ap (λ o'. then_ o' k) e

module _ {W : Type 0} (swd : SwdProc W) (always : (w : W) → (swd.in_ 3 w).0 ≡ ack_fault) where
  abbrev P : Option (Outcome (SwdPort × W) ℕ) → Type 0
  P r = r ≡ none

  never_ends :
      (fuel : ℕ)
      → ((request time : ℕ) (dp : SwdPort) (w : W) → request_loop swd fuel request time dp w ≡ none)
        × ((rnw : Bool) (addr value : ℕ) (dp : SwdPort) (w : W)
            → is_dropped addr dp ≡ false
            → low_access swd fuel rnw addr value dp w ≡ none)
  unfolding request_loop low_access
  never_ends zero = ((λ request time dp w. refl), (λ rnw addr value dp w h. refl))
  never_ends (suc fuel) =
      let (loops, accesses) = never_ends fuel in
      (
        (λ request time dp w.
            (let (ack, w1) = swd.in_ 3 (swd.out request 8 w) in
              if_lem P (ack == ack_fault)
                (λ e.
                  then_-none (low_access swd fuel false 0 all_clear dp w1) _
                    (accesses false 0 all_clear dp w1 refl))
                (λ e. absurd (ground (arith, always (swd.out request 8 w), e))))),
        (λ rnw addr value dp w h.
            if_lem P (is_dropped addr dp) (λ e. absurd (ground (arith, h, e)))
              (λ e.
                then_-none
                  (request_loop swd fuel (make_packet_request rnw addr) (swd.set_timeout w).0 dp
                    (swd.set_timeout w).1)
                  _
                  (loops (make_packet_request rnw addr) (swd.set_timeout w).0 dp
                    (swd.set_timeout w).1))),
      )

  -- An access does not end, whatever the fuel, when the target answers every request by a fault,
  -- also the one that is to clear the fault, unless the access is dropped at once.
  pub low_access-ack_fault :
      (fuel : ℕ) (rnw : Bool) (addr value : ℕ) (dp : SwdPort) (w : W)
      → is_dropped addr dp ≡ false
      → low_access swd fuel rnw addr value dp w ≡ none
  low_access-ack_fault fuel = (never_ends fuel).1
