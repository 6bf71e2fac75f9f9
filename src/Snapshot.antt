-- ===== src/Snapshot.antt =====
-- Snapshots: the query text, the query and what is read back.
pub mod Escape
pub mod Filters
pub mod Query
pub mod Limits
pub mod Search
pub mod Preview
pub mod Fields
pub mod Rendering
pub mod Tools
