-- ===== src/Session.antt =====
-- src/acp/contrib/session_state.py: a `SessionAccumulator` merges session notifications into a
-- snapshot. Models are values, so a deep copy of one is the value itself. What `apply` raises
-- comes back beside the state, since what was written before stays written.
mod Calls
mod Accumulator
unfoldable pub use Calls.*
unfoldable pub use Accumulator.*
pub mod Merge
pub mod Keys
pub mod History
pub mod Receive
pub mod Change
pub mod Subscribers
mod Tests
