-- ===== src/Log.antt =====
-- log: the rotation of the log files.
pub mod Decimal
pub mod Logger
pub mod Rotate
pub mod Writer
pub mod Files
pub mod Api
mod Tests
