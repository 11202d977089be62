-- ===== src/TestLedger/Ledger.antt =====
-- Calls of the fake ledger: calls with a state that end in a `LedgerClientError`.
pub use naumachia.Effects.{◌>>=◌, ◌>>◌, lift, return, >>=-eq-ok, >>=-eq-err, >>=-of-err, >>=-of-ok}
use naumachia.Errors.{LedgerClientError}
use naumachia.Effects.{Run}

abbrev pub Ledger : Type 0 → Type 0 → Type 0
Ledger S A = Run S LedgerClientError A
