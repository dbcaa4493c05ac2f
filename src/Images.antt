-- ===== src/Images.antt =====
-- The Dart AOT images of a process (src/runtime/runtime_image_set.cpp).
pub mod Module
pub mod Image
pub mod Set
pub mod Receipts
pub mod Resolve
pub mod Compare
mod Tests
