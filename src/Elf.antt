-- ===== src/Elf.antt =====
-- ELF images: program headers, address translation, readers and symbol lookup (src/elf).
pub mod Checked
pub mod Segments
pub mod Reader
pub mod Readers
pub mod Dynamic
pub mod Symbols
pub mod Sysv
pub mod Gnu
pub mod Lookup
pub mod Notes
mod Tests
