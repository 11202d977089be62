-- ===== src/Trireme.antt =====
-- Trireme, the manager of environments (src/trireme_ledger_client.rs and its modules, trireme/src).
pub mod Config
pub mod Host
pub mod Keys
pub mod Client
pub mod ToClient
pub mod Environment
pub mod Balance
