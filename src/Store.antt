-- ===== src/Store.antt =====
-- The store: internal/store/store.go.
pub mod Failure
pub mod Tables
pub mod Exec
pub mod Fallback
pub mod Invariant
pub mod Messages
pub mod Status
pub mod Edits
pub mod Reactions
pub mod Outbound
pub mod Tail
pub mod Writes
pub mod Typing
pub mod Chats
