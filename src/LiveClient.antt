-- ===== src/LiveClient.antt =====
-- The client of a live ledger (src/trireme_ledger_client/cml_client.rs and its modules).
pub mod NetworkSettings
pub mod Cml
pub mod Value
pub mod Helpers
pub mod Utxo
pub mod Issue
pub mod Submit
pub mod Collateral
pub mod Finished
pub mod Issued
pub mod Versions
