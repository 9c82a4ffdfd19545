-- ===== src/Pipeline.antt =====
-- app/pipeline: what happens to one message.
pub mod Effects
pub mod Imap
pub mod Lists
pub mod Build
pub mod Stats
pub mod Env
pub mod Held
pub mod Process
pub mod Retro
mod Tests
