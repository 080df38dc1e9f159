-- ===== src/Luna.antt =====
-- The command-line program luna (crates/luna): its errors and its configuration.
pub mod Errors
pub mod Config
pub mod Composer
pub mod Commands
pub mod Chat
pub mod Output
