-- ===== src/Store.antt =====
-- src/acp/task/state.py: the in-memory store of requests under way. The futures of the event
-- loop that it hands out are part of its state, each known by its number.
mod State
unfoldable pub use State.*
pub mod Settled
pub mod Pending
mod Tests
