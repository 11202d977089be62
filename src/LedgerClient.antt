-- ===== src/LedgerClient.antt =====
-- The interface of a ledger client (the trait `LedgerClient`, src/ledger_client.rs). Its method with
-- a default body, `balance_at_address`, is a definition of TestLedger.Issue.
use naumachia.Prelude.{ℕ, List, String}
use naumachia.Prelude.Int.{ℤ}
use naumachia.Address.{Network}
use naumachia.Errors.{LedgerClientError}
use naumachia.Effects.{Run}
use naumachia.Output.{Output}
use naumachia.Transaction.{UnbuiltTransaction}

pub record LedgerClient (A D R S : Type 0) : Type 0 where
  pub signer_base_address : Run S LedgerClientError A
  pub outputs_at_address : A → ℕ → Run S LedgerClientError (List (Output D))
  pub all_outputs_at_address : A → Run S LedgerClientError (List (Output D))
  pub issue : UnbuiltTransaction A D R → Run S LedgerClientError String
  pub network : Run S LedgerClientError Network
  pub last_block_time_secs : Run S LedgerClientError ℤ
  pub current_time_secs : Run S LedgerClientError ℤ
