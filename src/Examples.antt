-- ===== src/Examples.antt =====
-- The theorems of the development at concrete inputs, and runs of the model.
mod Packets
mod Requests
mod Flashing
mod Channels
mod Targets
mod Wires
mod Chains
mod Sessions
mod Indicator
