-- ===== src/Examples.antt =====
-- Tests of the definitions, and the theorems at inputs that meet their hypotheses.
mod Tasks
mod Areas
mod Copies
mod Guest
mod Nested
mod Pages
mod Setup
mod Faults
mod Paging
mod Pool
mod Exits
mod Instructions
mod Hidden
mod Tables
mod Setups
mod Processor
mod Probe
