-- ===== src/Sync.antt =====
-- src/modules/sync: the ingestion of offline batches, the queue worker and the retry queues.
pub mod Process
pub mod Failure
pub mod Producer
pub mod Consumer
pub mod Service
pub mod Arithmetic
pub mod Accounting
pub mod Recorded
pub mod Signed
pub mod Outcome
pub mod Batch
pub mod Sale
pub mod Retry
pub mod Ingestion
pub mod Topology
pub mod FailedQueues
