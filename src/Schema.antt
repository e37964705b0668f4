-- ===== src/Schema.antt =====
-- src/acp/schema.py, the models that the modelled components read and build. A record has the
-- fields of its pydantic class, in its order; the literal `type` and `session_update` tags are
-- the constructors of the unions. Of the validation only the bounds of the numbers in requests are
-- modelled; the rest of it and the aliases are pydantic's.
mod Content
mod Calls
mod Permission
mod Update
mod Setup
mod Requests
unfoldable pub use Content.*
unfoldable pub use Calls.*
unfoldable pub use Permission.*
unfoldable pub use Update.*
unfoldable pub use Setup.*
unfoldable pub use Requests.*
