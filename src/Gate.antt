-- ===== src/Gate.antt =====
-- The host publication gate and the published hook behind it (src/host/publication_gate.cpp).
pub mod Control
pub mod Hook
pub mod Threads
mod Tests
