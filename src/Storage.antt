-- ===== src/Storage.antt =====
-- crates/machineemu-core/src/storage: the records of a workspace, kept in SQLite tables. A statement
-- of the code reads and writes the rows that its SQL text names; that SQLite carries it out is
-- assumed, so its own I/O errors have no counterpart here. Whether a process is alive, the digest of
-- an input and the removal of a directory are arguments.
pub mod Table
pub mod Schema
pub mod Action
pub mod Keeps
pub mod Consistent
pub mod Instances
pub mod Operations
pub mod Removal
pub mod Interrupted
pub mod Publish
pub mod Upgrade
pub mod Snapshots
pub mod Commands
mod Examples
