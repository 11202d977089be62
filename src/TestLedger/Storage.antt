-- ===== src/TestLedger/Storage.antt =====
-- The trait `TestLedgerStorage`: what the fake ledger asks of its storage.
use naumachia.Prelude.{ℕ, List}
use naumachia.Prelude.Int.{ℤ}
use naumachia.Address.{Network}
use naumachia.Output.{Output}
use naumachia.TestLedger.Ledger.{Ledger}

pub record TestLedgerStorage (A D S : Type 0) : Type 0 where
  pub signer : Ledger S A
  pub outputs_by_count : A → ℕ → Ledger S (List (Output D))
  pub all_outputs : A → Ledger S (List (Output D))
  pub remove_output : Output D → Ledger S (Unit {0})
  pub add_output : Output D → Ledger S (Unit {0})
  pub current_time : Ledger S ℤ
  pub set_current_time : ℤ → Ledger S (Unit {0})
  pub get_block_length : Ledger S ℤ
  pub network : Ledger S Network
