-- ===== src/Tests.antt =====
-- Tests at concrete inputs, and the witnesses of the theorems.
mod Hashes
mod Boot
mod Driver
mod Interface
mod Machine
mod Linux
mod Whole
mod Mbi
mod Events
mod Trail
