-- ===== src/Examples.antt =====
-- src/examples: a client for the Gemini CLI, an echoing agent and a client for the console.
pub mod Lines
pub mod Paging
pub mod RoundTrip
pub mod Gemini
pub mod Permission
pub mod Run
pub mod Ended
pub mod Agent
pub mod Echo
mod Tests
