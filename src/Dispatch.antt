-- ===== src/Dispatch.antt =====
-- The generator dispatch ledger of skivolve/runner.py.
pub mod Types
pub mod Replay
pub mod Records
pub mod Journal
pub mod Extend
pub mod Writes
pub mod Steps
pub mod Stopped
pub mod Sound
pub mod Methods
pub mod Runs
pub mod Opening
pub mod Arms
pub mod Phases
pub mod Faults
pub mod Report
pub mod Ledger
mod Tests
mod Witnesses
