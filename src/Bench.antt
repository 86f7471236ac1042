-- ===== src/Bench.antt =====
-- The chaos benchmark (chaos-bench/): the workload, the fault injection and the scans after a run.
pub mod Config
pub mod Result
pub mod Table
pub mod History
pub mod DupScan
pub mod DivergenceScan
pub mod Deadline
pub mod CommitWait
pub mod Polling
pub mod Analysis
pub mod Faults
pub mod Workload
pub mod Campaign
pub mod LeaderTracker
pub mod LeaderDetect
pub mod Chaos
pub mod Command
pub mod FollowerRecovery
pub mod Submitter
pub mod Repeat
pub mod Reset
pub mod Exp4
pub mod Samples
mod Tests
