-- ===== src/Adapter.antt =====
-- internal/protocol/adapter.go and adapter_resume.go: one module for each group of fields that a
-- mutex of the Adapter guards, and the handlers that work on several of them.
pub mod Write
pub mod Settings
pub mod Dispatch
pub mod Reading
pub mod Pinging
pub mod Deadlines
pub mod Resuming
pub mod Reorder
pub mod Outgoing
pub mod Lifecycle
pub mod Closing
pub mod Seen
pub mod Publication
