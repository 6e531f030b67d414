-- ===== src/Perception.antt =====
-- The perception side: src/lib/services/perception, src/config/regime.ts and
-- src/lib/stores/hotState.ts.
pub mod Regime
pub mod Normalizer
pub mod Ingester
pub mod ColdStorage
pub mod Aggregator
pub mod EvGate
pub mod HotState
