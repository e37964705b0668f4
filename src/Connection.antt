-- ===== src/Connection.antt =====
-- src/acp/connection.py and src/acp/task/dispatcher.py: a JSON-RPC connection. What runs between
-- two waits of the event loop is one function; their interleavings are the steps of `Step`.
mod State
mod Incoming
mod Run
unfoldable pub use State.*
unfoldable pub use Incoming.*
unfoldable pub use Run.*
pub mod Receive
pub mod Respond
pub mod Tracked
pub mod Steps
pub mod Reach
pub mod Closing
pub mod Close
pub mod Serve
mod Tests
