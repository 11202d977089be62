-- ===== src/TestLedger/Client.antt =====
-- The fake ledger as a ledger client (src/ledger_client/test_ledger_client.rs).
use naumachia.Prelude.{ℕ, List, Eq}
use naumachia.Address.{AddressLib}
use naumachia.Scripts.PlutusData.{PlutusData}
use naumachia.LedgerClient.{LedgerClient}
use naumachia.TestLedger.Storage.{TestLedgerStorage}
use naumachia.TestLedger.TxId.{HexLib}
use naumachia.TestLedger.Issue.{issue}

-- The implementation of the trait; `random` is the hash of the transaction that it issues next.
unfoldable pub test_ledger_client :
    {A D R S : Type 0} ⦃d : Eq D⦄
    → TestLedgerStorage A D S
    → AddressLib A
    → HexLib
    → (D → PlutusData)
    → List ℕ
    → LedgerClient A D R S
unfolding issue
test_ledger_client storage lib hex into random = record {
  signer_base_address = storage.signer;
  outputs_at_address = storage.outputs_by_count;
  all_outputs_at_address = storage.all_outputs;
  issue = λ tx. issue storage lib hex into tx random;
  network = storage.network;
  last_block_time_secs = storage.current_time;
  current_time_secs = storage.current_time;
}
