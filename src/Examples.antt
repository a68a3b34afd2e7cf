-- ===== src/Examples.antt =====
-- Tests of the definitions, and the theorems at concrete inputs.
mod Toy
mod Bits
mod Parts
mod Protocol
mod Traffic
mod Replicas
mod Application
mod Counters
mod Commits
mod Clients
mod Folders
mod Records
