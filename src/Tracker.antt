-- ===== src/Tracker.antt =====
-- src/acp/contrib/tool_calls.py: a `ToolCallTracker` keeps the agent's tool calls by external id
-- and builds the notifications about them.
mod Call
mod Calls
unfoldable pub use Call.*
unfoldable pub use Calls.*
pub mod Replies
pub mod Stream
pub mod Ids
pub mod Mirror
pub mod Follow
pub mod Agreement
mod Tests
