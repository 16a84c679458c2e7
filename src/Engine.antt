-- ===== src/Engine.antt =====
-- internal/engine: the investigation pipeline and the parts that it is made of.
pub mod Strings
pub mod Clamp
pub mod Causality
pub mod Rules
pub mod Confidence
pub mod Anchors
pub mod Timeline
pub mod Topology
pub mod Pipeline
