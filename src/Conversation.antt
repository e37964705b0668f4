-- ===== src/Conversation.antt =====
-- Two connections, each of which reads what the other one sends: src/acp/connection.py at both ends
-- of a pair of pipes.
mod State
unfoldable pub use State.*
pub mod Frames
pub mod Side
pub mod Reading
pub mod Sending
pub mod Serving
pub mod Moving
pub mod Whole
pub mod Answered
pub mod Serve
pub mod Load
pub mod Drain
mod Codec
mod Tests
