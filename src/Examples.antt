-- ===== src/Examples.antt =====
-- Runs at concrete inputs, and the theorems at them.
mod Args
mod Vars
mod Certs
mod Commands
mod Topology
mod Service
mod Laws
mod Admin
mod System
mod Images
