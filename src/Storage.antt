-- ===== src/Storage.antt =====
-- core/internal/storage: the partition logs.
pub mod Record
pub mod World
pub mod Names
pub mod State
pub mod Retention
pub mod Log
pub mod Loading
mod Examples
