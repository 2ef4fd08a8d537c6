-- ===== src/Common.antt =====
-- common: what the other packages share.
pub mod Config
pub mod Table
pub mod Goid
pub mod Options
pub mod Safe
pub mod Aes
mod Tests
