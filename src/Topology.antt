-- ===== src/Topology.antt =====
-- internal/topology: the shape of a generated network, computed from the options of `generate`.
pub mod Options
pub mod Policies
pub mod Build
