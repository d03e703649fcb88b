-- ===== src/Operations.antt =====
-- app/repositories/operations.py: the durable ledger of campaign sends, one file to a concern.
pub mod Rows
pub mod Repository
pub mod Create
pub mod Steps
pub mod Rules
pub mod Outcomes
pub mod Runs
pub mod Invariant
pub mod Preserved
pub mod Accepted
pub mod Safety
pub mod Terminal
pub mod Receipts
pub mod Ledger
pub mod Traces
pub mod Finalized
mod Tests
