-- ===== src/Pbft.antt =====
-- The ordering layer, platform/consensus/ordering/pbft.
pub mod Status
pub mod Collector
pub mod StatusChange
pub mod Pool
pub mod MessageManager
pub mod Commitment
pub mod CheckPoint
pub mod ViewChange
pub mod ResponseManager
