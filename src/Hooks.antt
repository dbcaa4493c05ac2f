-- ===== src/Hooks.antt =====
-- The registry of hooks (src/core/hook_registry.cpp and the records of src/core/internal.h).
pub mod Listeners
pub mod Record
pub mod Unhook
pub mod Invoke
pub mod Interleaving
pub mod Adapters
pub mod Order
pub mod Registry
mod Tests
