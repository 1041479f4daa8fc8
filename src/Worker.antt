-- ===== src/Worker.antt =====
-- pkg/worker: the work items of a run and their handlers, the clients that do them, the file system
-- client, and the metrics.
pub mod Populate
pub mod Queue
pub mod Pool
pub mod Run
pub mod Disk
pub mod Fs
pub mod Operations
pub mod Metrics
pub mod Connection
mod Examples
