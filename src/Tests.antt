-- ===== src/Tests.antt =====
-- Runs of the model on concrete inputs.
pub mod Sample
pub mod Tables
pub mod Files
pub mod Server
pub mod Connections
pub mod Locks
pub mod Folders
pub mod Metadata
pub mod Storage
pub mod Transport
pub mod Documents
pub mod Undo
pub mod Checkpoints
pub mod Editing
pub mod Clients
