-- ===== src/TestLedger/Persisted/File.antt =====
-- The storage in a file, as an implementation of the trait
-- (src/ledger_client/test_ledger_client/local_persisted_storage.rs).
use naumachia.Prelude.{ℕ, Option, none, some, List, [], ◌∷◌, ◌++◌, String, map, ok, panic, expect}
use naumachia.Prelude.Int.{ℤ, pos}
use naumachia.Address.{AddressLib, testnet}
use naumachia.Scripts.PlutusData.{PlutusData}
use naumachia.Output.{Output}
use naumachia.TestLedger.Ledger.{Ledger, ◌>>=◌, lift, return}
use naumachia.TestLedger.Storage.{TestLedgerStorage}
use naumachia.TestLedger.Persisted.{
  LdOutput, LedgerData, JsonLib, ld_output, new_ledger_data, data_add_output, data_add_signer,
  starting_output, outputs_at, first_outputs_at, data_switch_signer, take_ld, taken,
  ok_or_bad_address,
}

module _ {T : Type 0} (json : JsonLib T) where
  unfoldable pub get_data : Ledger (Option T) LedgerData
  get_data none = (panic, none)
  get_data (some contents) = (expect (json.from_str contents), some contents)

  -- Where the data has no text, the file is left as it was.
  unfoldable pub write_data : LedgerData → Ledger (Option T) (Unit {0})
  write_data ledger_data s = elim (json.to_string ledger_data) [
    | some serialized ↦ (ok tt, some serialized)
    | none ↦ (panic, s)
  ]

  unfoldable pub update_outputs : List LdOutput → Ledger (Option T) (Unit {0})
  unfolding get_data write_data
  update_outputs new_outputs = do
    ledger_data ← get_data
    write_data (record ledger_data { outputs = new_outputs })

  unfoldable pub update_current_time : ℤ → Ledger (Option T) (Unit {0})
  unfolding get_data write_data
  update_current_time posix_time = do
    ledger_data ← get_data
    write_data (record ledger_data { current_time = posix_time })

  unfoldable pub active_signer_name : Ledger (Option T) String
  unfolding get_data
  active_signer_name = do ledger_data ← get_data; return ledger_data.active_signer_name

  unfoldable pub get_signers : Ledger (Option T) (List String)
  unfolding get_data
  get_signers = do ledger_data ← get_data; return (map (λ x. x.0) ledger_data.signers)

  unfoldable pub switch_signer : String → Ledger (Option T) (Unit {0})
  unfolding get_data data_switch_signer write_data
  switch_signer name = do
    ledger_data ← get_data
    switched ← lift (data_switch_signer ledger_data name)
    write_data switched

module _ {A D T : Type 0} (lib : AddressLib A) (json : JsonLib T) (into : D → PlutusData) where
  -- `LocalPersistedStorage::init`: a file that exists is left as it is.
  unfoldable pub init : List ℕ → String → A → ℕ → ℤ → ℤ → Ledger (Option T) (Unit {0})
  unfolding new_ledger_data starting_output data_add_output write_data
  init tx_hash signer_name signer starting_amount starting_time block_length (some contents) =
      (ok tt, some contents)
  init tx_hash signer_name signer starting_amount starting_time block_length none =
      (do
        fresh ← lift (new_ledger_data lib signer_name signer block_length)
        output ← lift (starting_output lib tx_hash signer starting_amount)
        funded ←
            lift (data_add_output lib into (record fresh { current_time = starting_time }) output)
        write_data json funded)
        none

  unfoldable pub add_new_signer : List ℕ → String → A → ℕ → Ledger (Option T) (Unit {0})
  unfolding get_data starting_output data_add_output data_add_signer write_data
  add_new_signer tx_hash name address starting_amount = do
    ledger_data ← get_data json
    output ← lift (starting_output lib tx_hash address starting_amount)
    funded ← lift (data_add_output lib into ledger_data output)
    named ← lift (data_add_signer lib funded name address)
    write_data json named

  -- `TestLedgerClient::new_local_persisted`, of the file.
  unfoldable pub new_local_persisted : List ℕ → A → ℕ → Ledger (Option T) (Unit {0})
  unfolding init get_data
  new_local_persisted tx_hash signer starting_amount = do
    _ ← init tx_hash "Alice" signer starting_amount (pos 0) (pos 20)
    _ ← get_data json
    return tt

  unfoldable pub persisted_signer : Ledger (Option T) A
  unfolding get_data
  persisted_signer = do
    ledger_data ← get_data json
    lift (ok_or_bad_address (lib.from_bech32 ledger_data.active_signer))

  unfoldable pub remove_output : Output D → Ledger (Option T) (Unit {0})
  unfolding get_data ld_output take_ld update_outputs
  remove_output output = do
    ledger_data ← get_data json
    sanitized_output ← lift (ld_output lib into output)
    left ← lift (taken output.id (take_ld sanitized_output ledger_data.outputs))
    update_outputs json left

  unfoldable pub add_output : Output D → Ledger (Option T) (Unit {0})
  unfolding get_data ld_output update_outputs
  add_output output = do
    sanitized_output ← lift (ld_output lib into output)
    ledger_data ← get_data json
    update_outputs json (ledger_data.outputs ++ sanitized_output ∷ [])

  -- The implementation of the trait.
  unfoldable pub persisted : (PlutusData → Option D) → TestLedgerStorage A D (Option T)
  unfolding persisted_signer first_outputs_at outputs_at remove_output add_output
      update_current_time get_data
  persisted try_from = record {
    signer = persisted_signer;
    outputs_by_count = λ address count. (do
      ledger_data ← get_data json
      lift (first_outputs_at lib try_from address count ledger_data.outputs));
    all_outputs = λ address. (do
      ledger_data ← get_data json
      lift (outputs_at lib try_from address ledger_data.outputs));
    remove_output = remove_output;
    add_output = add_output;
    current_time = (do ledger_data ← get_data json; return ledger_data.current_time);
    set_current_time = update_current_time json;
    get_block_length = (do ledger_data ← get_data json; return ledger_data.block_length);
    network = return testnet;
  }
