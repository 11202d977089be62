-- ===== src/Tests/Live.antt =====
-- The properties of the client of a live ledger, on a library whose builders are the numbers that
-- they were given, and a ledger that answers `id`.
use naumachia.Prelude.{
  ℕ, ◌≡◌, refl, arith, none, some, List, [], ◌∷◌, String, All, ok, err, ◌⊎◌, ◌>>=◌,
}
use naumachia.Prelude.Int.{pos}
use naumachia.Errors.{no_big_enough_collateral_utxo}
use naumachia.Effects.{return}
use naumachia.Output.{wallet}
use naumachia.Transaction.{UnbuiltTransaction, v1}
use naumachia.Fixtures.{addresses, hex, ten_ada}
use naumachia.LiveClient.Cml.{ValueLib, CmlLib}
use naumachia.LiveClient.Helpers.{issued}
use naumachia.LiveClient.NetworkSettings.{preprod, settings_of, posix_from_slot}
use naumachia.LiveClient.Utxo.{Utxo, add_collateral, select_collateral_utxo}
use naumachia.LiveClient.Collateral.{Qualifies, IsSmallest, select_collateral_utxo-IsSmallest}
use naumachia.LiveClient.Issue.{CmlLedgerClient, set_valid_range}
use naumachia.LiveClient.Submit.{issue}
use naumachia.LiveClient.Versions.{issue-v1, set_valid_range-slots}

-- Values of lovelace alone.
abbrev value_lib : ValueLib
value_lib = record {
  Value = ℕ;
  MultiAsset = Unit {0};
  Assets = Unit {0};
  ScriptHash = String;
  AssetName = List ℕ;
  new_value = λ n. n;
  coin = λ n. n;
  multiasset = λ n. none;
  set_multiasset = λ m n. n;
  value_of_assets = λ m. 0;
  checked_add = λ m n. some n;
  no_assets = tt;
  insert_asset = λ name n assets. tt;
  asset_names = λ assets. [];
  asset_amount = λ assets name. none;
  no_policies = tt;
  insert_policy = λ hash assets policies. tt;
  policies = λ m. [];
  assets_of = λ m hash. none;
  new_name = some;
  name_bytes = λ name. name;
  hash_from_hex = some;
  hash_text = λ hash. hash;
}

abbrev cml_lib : CmlLib value_lib
cml_lib = record {
  Addr = String;
  TxHash = List ℕ;
  Script = List ℕ;
  CmlData = ℕ;
  CmlInt = ℕ;
  Input = ℕ;
  TxOutput = ℕ;
  Mint = ℕ;
  Builder = List ℕ;
  Signed = List ℕ;
  Tx = List ℕ;
  Key = ℕ;
  addr_from_bech32 = some;
  addr_to_bech32 = some;
  hash_of_bytes = some;
  tx_hash_text = λ hash. "";
  script_v1 = some;
  script_v2 = some;
  script_address = λ network script. "script";
  int_from = λ n. n;
  int_from_str = some;
  new_output = λ address value. value;
  output_with_coin = λ address coin. some coin;
  set_datum = λ data_ output. output;
  payment_key = λ hash index output. some output;
  plutus_input = λ hash index output script redeemer datum. some output;
  mint_of = λ name amount script redeemer. amount;
  builder_v1 = λ config. some [];
  builder_v2 = λ config. some [];
  add_input = λ input builder. some (input ∷ builder);
  add_utxo = λ input builder. input ∷ builder;
  add_output = λ output builder. some (output ∷ builder);
  add_mint = λ mint builder. mint ∷ builder;
  add_collateral = λ input builder. some (input ∷ builder);
  select_utxos = some;
  set_validity_start_interval = λ slot builder. slot ∷ builder;
  set_ttl = λ slot builder. slot ∷ builder;
  set_exunits = λ type index memory steps builder. builder;
  draft_tx = λ builder address. some builder;
  build = λ builder address. some builder;
  tx_json = λ tx. some "";
  add_vkey = λ key signed. key ∷ signed;
  build_checked = some;
}

abbrev utxo_of : ℕ → Utxo cml_lib
utxo_of n = record { tx_hash = []; output_index = 0; amount = n; datum = none }

abbrev utxos : List (Utxo cml_lib)
utxos = utxo_of 3000000 ∷ utxo_of 9000000 ∷ utxo_of 6000000 ∷ []

-- The ledger's state is the transactions that it was sent.
abbrev live : CmlLedgerClient cml_lib String ℕ ℕ (List (List ℕ))
live = record {
  ledger = record {
    last_block_time_secs = return (pos 0);
    get_utxos_for_addr = λ address count. return utxos;
    get_all_utxos_for_addr = λ address. return utxos;
    calculate_ex_units = λ tx. return [];
    submit_transaction = λ tx sent. (ok "id", tx ∷ sent);
  };
  keys = record { base_addr = return "me"; private_key = return 77 };
  network_settings = settings_of preprod;
  datums = record { to_plutus_data = ok; from_plutus_data = λ n. ok (some n) };
  redeemers = record { to_plutus_data = ok; from_plutus_data = λ n. ok (some n) };
  addresses = addresses;
  address_text = λ a. a;
  hex = hex;
  from_utf8 = λ bytes. some "";
  now = λ s. some 0;
}

abbrev sending : UnbuiltTransaction String ℕ ℕ
sending = record {
  script_version = v1;
  script_inputs = [];
  unbuilt_outputs = wallet "bob" ten_ada ∷ [];
  minting = [];
  specific_wallet_inputs = [];
  valid_range = (some (pos 1700000000), some (pos 1700000100));
}

select_collateral_utxo-IsSmallest_example :
    ((u : Utxo cml_lib) × IsSmallest 5000000 utxos u
      × (select_collateral_utxo cml_lib "me" utxos 5000000 ≡ (
          issued (cml_lib.output_with_coin "me" (value_lib.coin u.amount)) >>= λ output.
          issued (cml_lib.payment_key u.tx_hash u.output_index output))))
    ⊎ (All (λ v. ¬ Qualifies {lib = cml_lib} 5000000 v) utxos
        × (select_collateral_utxo cml_lib "me" utxos 5000000 ≡ err no_big_enough_collateral_utxo))
select_collateral_utxo-IsSmallest_example =
    select_collateral_utxo-IsSmallest {lib = cml_lib} "me" utxos 5000000

issue-v1_example :
    issue live (record sending { valid_range = (none, none); specific_wallet_inputs = [] }) []
    ≡ issue live sending []
issue-v1_example = issue-v1 live sending (none, none) [] [] refl

set_valid_range-slots_example :
    (first : ℕ) × (last : ℕ) × (set_valid_range live sending []
      ≡ ok (cml_lib.set_ttl last (cml_lib.set_validity_start_interval first [])))
    × (posix_from_slot (settings_of preprod) first ≡ pos 1700000000)
    × (posix_from_slot (settings_of preprod) last ≡ pos 1700000100)
set_valid_range-slots_example =
    set_valid_range-slots live preprod sending [] 1700000000 1700000100 refl refl (omega arith)
      (omega arith)

abbrev final : List ℕ
final = 77 ∷ 6000000 ∷ 10 ∷ 6000000 ∷ 9000000 ∷ 3000000 ∷ []
