-- ===== src/Pxn.antt =====
-- The PXN subsystem (NVLink proxy forwarding), src/mpcomm_pxn.h and src/mpcomm_pxn.cpp.
pub mod SpscQueue
pub mod Topology
pub mod ProxyBuffer
