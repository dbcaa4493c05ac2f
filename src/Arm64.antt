-- ===== src/Arm64.antt =====
-- The AArch64 part of the interceptor (src/interceptor/arm64_bridge.cpp).
pub mod Decode
pub mod Flow
pub mod Patches
mod Tests
