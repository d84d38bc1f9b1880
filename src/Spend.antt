-- ===== src/Spend.antt =====
-- `SpendLedger` and `SpendReservation` of skivolve/comparator_runtime.py: the run's spend ceiling and
-- its journal.
pub mod Money
pub mod Ledger
pub mod Calls
pub mod Reservation
pub mod Journal
pub mod Account
pub mod Refines
pub mod Failures
pub mod Run
pub mod Held
pub mod Restoring
pub mod Covered
pub mod Turns
pub mod Lines
pub mod Replayed
pub mod Outcome
pub mod Owed
pub mod Tracks
pub mod Crash
pub mod Restored
pub mod Examples
pub mod Transport
pub mod Settled
pub mod Implements
pub mod Witnesses
