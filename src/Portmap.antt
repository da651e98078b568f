-- ===== src/Portmap.antt =====
-- The portmapper, program 100000 (src/portmap): a registry of ports and its procedures.
pub mod Registry
pub mod Handlers
