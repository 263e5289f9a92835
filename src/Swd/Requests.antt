-- ===== src/Swd/Requests.antt =====
-- target/adiv5_swdp.c: the request of an access.
use blackmagic.Base.{ℕ, ◌/◌, ◌%◌, ◌<◌, List, [], ◌∷◌, Bool, true, false, ◌==◌, ◌≡◌, refl}
use blackmagic.Base.{agree, agree-below}
use blackmagic.Wire.Line.{value}
use blackmagic.Wire.Parity.{odd}
use blackmagic.Swd.{make_packet_request}

-- The bits of a request: start, the choice of port, the direction, two bits of the address, the
-- parity of these four, stop and park.
abbrev pub request_bits : Bool → ℕ → List Bool
request_bits rnw addr =
    let ap = addr / 256 % 2 == 1 in
    let a2 = addr / 4 % 2 == 1 in
    let a3 = addr / 8 % 2 == 1 in
    true ∷ ap ∷ rnw ∷ a2 ∷ a3 ∷ odd (ap ∷ rnw ∷ a2 ∷ a3 ∷ []) ∷ false ∷ true ∷ []

reads_agree : agree (make_packet_request true) (λ addr. value (request_bits true addr)) 512 ≡ true
unfolding agree make_packet_request
reads_agree = refl

writes_agree :
    agree (make_packet_request false) (λ addr. value (request_bits false addr)) 512 ≡ true
unfolding agree make_packet_request
writes_agree = refl

-- `make_packet_request` makes the eight bits of the protocol's request, lowest first: start, the
-- choice of port, the direction, the two bits of the address, their parity, stop and park, for every
-- address of a debug port or an access port.
pub make_packet_request-bits :
    (rnw : Bool) (addr : ℕ)
    → addr < 512
    → make_packet_request rnw addr ≡ value (request_bits rnw addr)
make_packet_request-bits true addr h =
    agree-below (make_packet_request true) (λ a. value (request_bits true a)) 512 addr h reads_agree
make_packet_request-bits false addr h =
    agree-below (make_packet_request false) (λ a. value (request_bits false a)) 512 addr h
      writes_agree
