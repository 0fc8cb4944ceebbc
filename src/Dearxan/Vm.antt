-- ===== src/Dearxan/Vm.antt =====
-- src/dearxan/vm.c: the emulator that follows the code of Arxan. Blocks is the table of 64-byte blocks
-- of memory, Probe and Grow prove that it finds what it holds, and Table what its users rely on.
pub mod Blocks
pub mod Probe
pub mod Holds
pub mod Probed
pub mod Grow
pub mod Machine
pub mod Table
pub mod Memory
pub mod Update
pub mod View
pub mod ImageView
pub mod Read
pub mod Change
pub mod Wrote
pub mod Rounds
pub mod Write
pub mod Registers
pub mod Decoded
pub mod Access
pub mod Cases
pub mod Step
