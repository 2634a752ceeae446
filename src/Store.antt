-- ===== src/Store.antt =====
-- src/storage/store.ts over the tables of src/storage/migrations.ts. The children model the
-- operations by subject; those named for a property prove it.
pub mod Rows
pub mod Directory
pub mod Memories
pub mod Indexes
pub mod Inserts
pub mod Recent
pub mod Ingest
pub mod Db
pub mod Tasks
pub mod Outbox
pub mod Steers
pub mod Recovery
pub mod Fifo
pub mod Laws
pub mod Kept
pub mod Frame
pub mod Lookup
pub mod Restart
pub mod Ends
pub mod Calm
pub mod Starts
pub mod Handover
pub mod Exclusive
pub mod Steered
pub mod Taken
pub mod Completion
