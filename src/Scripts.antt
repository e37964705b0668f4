-- ===== src/Scripts.antt =====
-- src/scripts: the generators of the schema module.
pub mod Comments
pub mod Inserted
pub mod Refs
pub mod Resolved
pub mod Again
mod Tests
