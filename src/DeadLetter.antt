-- ===== src/DeadLetter.antt =====
-- packages/backend/src/common/queues: the dead-letter queue, which keeps the jobs that have failed
-- for good until an operator replays or dismisses them.
pub mod Schema
pub mod Redaction
pub mod Classify
pub mod Entry
pub mod Queue
pub mod Replay
pub mod Listing
pub mod Cleanup
pub mod Metrics
pub mod Move
mod Tests
use backit_on_stellar.Prelude.{Bool, true, false}

-- QueueName of queues.constants.ts.
pub data QueueName : Type 0 where
  ipfs_pinning notifications oracle_signing dead_letter reconciliation : QueueName
