-- ===== src/TestLedger.antt =====
-- The fake ledger (src/ledger_client/test_ledger_client.rs). A call takes the state of the storage
-- and returns it with the outcome; after an error the state is the one that was reached. The locks
-- of the storage are not contended, and each call runs alone.
pub mod Ledger
pub mod Storage
pub mod Client
pub mod InMemory
pub mod Persisted
pub mod TxId
pub mod Contexts
pub mod Inputs
pub mod Issue
pub mod Builder
pub mod Built
pub mod Minted
pub mod Checked
pub mod Conservation
pub mod Accepted
pub mod Failures
pub mod Balance
pub mod Settle
