-- ===== src/TestLedger/InMemory.antt =====
-- The storage in memory (src/ledger_client/test_ledger_client/in_memory_storage.rs).
pub mod Totals
use naumachia.Prelude.{
  ℕ, Option, none, some, List, [], ◌∷◌, ◌++◌, if◌then◌else◌, Eq, ◌==◌, take, Outcome, ok, err,
  panic,
}
use naumachia.Prelude.Int.{ℤ}
use naumachia.Address.{AddressLib, testnet}
use naumachia.Errors.{
  LedgerClientError, failed_to_retrieve_output_with_id, test_lc, duplicate_input,
}
use naumachia.Output.{Output, output_owner}
use naumachia.Output.Equality.{output_beq}
use naumachia.TestLedger.Ledger.{Ledger, ◌>>=◌, lift, return}
use naumachia.TestLedger.Storage.{TestLedgerStorage}

pub record InMemoryStorage (A D : Type 0) : Type 0 where
  pub signer : A
  pub outputs : List (A × Output D)
  pub current_posix_time : ℤ
  pub block_length : ℤ

module _ {A D : Type 0} ⦃lib : AddressLib A⦄ ⦃d : Eq D⦄ where
  -- The outputs that are filed under an address.
  unfoldable pub at_address : A → List (A × Output D) → List (Output D)
  at_address address [] = []
  at_address address ((a, o) ∷ outputs) =
      if lib.address_eq.beq a address
      then o ∷ at_address address outputs
      else at_address address outputs

  -- The list without its first output that equals the given one, if there is any.
  unfoldable pub take_out : Output D → List (A × Output D) → Option (List (A × Output D))
  unfolding output_beq
  take_out output [] = none
  take_out output ((a, o) ∷ outputs) =
      let rest = take_out output outputs in
      if output_beq o output
      then some outputs
      else elim rest [ none ↦ none | some left ↦ some ((a, o) ∷ left) ]

  unfoldable pub remove_output : Output D → Ledger (InMemoryStorage A D) (Unit {0})
  unfolding take_out
  remove_output output s = elim (take_out output s.outputs) [
    | none ↦ (err (failed_to_retrieve_output_with_id output.id (test_lc duplicate_input)), s)
    | some left ↦ (ok tt, record s { outputs = left })
  ]

  unfoldable pub add_output : Output D → Ledger (InMemoryStorage A D) (Unit {0})
  unfolding output_owner
  add_output output = do
    owner ← lift (output_owner output)
    λ s. (ok tt, record s { outputs = s.outputs ++ (owner, output) ∷ [] })

  unfoldable pub set_current_time : ℤ → Ledger (InMemoryStorage A D) (Unit {0})
  set_current_time posix_time s = (ok tt, record s { current_posix_time = posix_time })

  -- The implementation of the trait.
  abbrev pub in_memory : TestLedgerStorage A D (InMemoryStorage A D)
  in_memory = record {
    signer = λ s. (ok s.signer, s);
    outputs_by_count = λ address count s. (ok (take count (at_address address s.outputs)), s);
    all_outputs = λ address s. (ok (at_address address s.outputs), s);
    remove_output = remove_output;
    add_output = add_output;
    current_time = λ s. (ok s.current_posix_time, s);
    set_current_time = set_current_time;
    get_block_length = λ s. (ok s.block_length, s);
    network = return testnet;
  }
