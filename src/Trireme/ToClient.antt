-- ===== src/Trireme/ToClient.antt =====
-- The client that a configuration stands for, and its calls (src/trireme_ledger_client.rs). The
-- ledgers that Blockfrost, and Ogmios with Scrolls, serve are parameters.
use naumachia.Prelude.{
  ℕ, Eq, Option, none, some, List, String, list_eq, string_eq, Outcome, ok, err, ok_or,
}
use naumachia.Prelude.Int.{ℤ}
use naumachia.Address.{AddressLib}
use naumachia.Scripts.PlutusData.{PlutusData}
use naumachia.HashMap.{insert}
use naumachia.Errors.{Error, trireme, LedgerClientError, current_time, not_implemented}
use naumachia.Effects.{Run, ◌>>=◌, lift, return, raised}
use naumachia.LedgerClient.{LedgerClient}
use naumachia.TestLedger.TxId.{HexLib}
use naumachia.TestLedger.Storage.{TestLedgerStorage}
use naumachia.TestLedger.Issue.{advance_time_n_blocks}
use naumachia.TestLedger.Client.{test_ledger_client}
use naumachia.TestLedger.Persisted.{JsonLib}
use naumachia.TestLedger.Persisted.File.{persisted, get_data}
use naumachia.LiveClient.Cml.{ValueLib, CmlLib}
use naumachia.LiveClient.NetworkSettings.{
  Network, preprod, preview, mainnet, NetworkSettings, settings_of,
}
use naumachia.LiveClient.Utxo.{PlutusDataInterop}
use naumachia.LiveClient.Issue.{Keys, CmlLedgerClient}
use naumachia.LiveClient.Issue.{Ledger as LiveLedger}
use naumachia.LiveClient.Submit.{cml_ledger_client}
use naumachia.Trireme.Host.{FilePath, Host, join, file_at, ask_text, read_toml_struct_from_file}
use naumachia.Trireme.Keys.{
  KeyLib, CryptoLib, normalize_password, password_protected_keys, raw_secret_phrase_keys,
}
use naumachia.Trireme.Client.{
  LedgerSource, block_frost, ogmios_and_scrolls, KeySource, raw_secret_phrase,
  terminal_password_upfront_secret_phrase, network_index, ClientVariant, cml, test, Formats,
  get_current_client_config_from_file,
}

-- `DATA`, the name of the file of a persisted storage (local_persisted_storage.rs).
abbrev pub data_file : String
data_file = "data"

-- A call of a storage in a file of the host.
unfoldable pub in_file :
    {E X : Type 0} → FilePath → (Option String → Outcome E X × Option String) → Run Host E X
unfolding insert
in_file path call host =
    let (r, left) = call (file_at path host) in
    (
      r,
      elim left [
        | none ↦ host
        | some contents ↦ record host { files = insert path contents host.files }
      ],
    )

-- What the clients are made of besides a configuration: the crates, the services, the address of each
-- service, and the hash that the fake ledger draws for its next transaction.
pub record Platform {V : ValueLib} (lib : CmlLib V) (Bip32 A D R : Type 0) : Type 0 where
  pub key_lib : KeyLib Bip32 lib.Key lib.Addr
  pub crypto : CryptoLib
  pub formats : Formats
  pub home : Option FilePath
  pub preprod_network_url : String
  pub mainnet_url : String
  pub block_frost_ledger : String → String → LiveLedger lib Host
  pub ogmios_scrolls_ledger :
      String → String → String → String → NetworkSettings → LiveLedger lib Host
  pub datums : PlutusDataInterop lib.CmlData D
  pub redeemers : PlutusDataInterop lib.CmlData R
  pub addresses : AddressLib A
  pub address_text : A → String
  pub hex : HexLib
  pub now : Host → Option ℕ
  pub json : JsonLib String
  pub into : D → PlutusData
  pub try_from : PlutusData → Option D
  pub random : List ℕ

-- `InnerClient`, which `TriremeLedgerClient` wraps.
pub data InnerClient {V : ValueLib} (lib : CmlLib V) (A D R : Type 0) : Type 0 where
  block_frost_client ogmios_scrolls_client : CmlLedgerClient lib A D R Host → InnerClient lib A D R
  -- The file of the fake ledger's storage.
  mocked : FilePath → InnerClient lib A D R

module _ {V : ValueLib} {lib : CmlLib V} {Bip32 A D R : Type 0} (p : Platform lib Bip32 A D R) where
  -- `CMLLedgerCLient::new`
  unfoldable pub cml_client_of :
      LiveLedger lib Host → Keys lib Host → NetworkSettings → CmlLedgerClient lib A D R Host
  cml_client_of ledger keys network_settings = record {
    ledger = ledger;
    keys = keys;
    network_settings = network_settings;
    datums = p.datums;
    redeemers = p.redeemers;
    addresses = p.addresses;
    address_text = p.address_text;
    hex = p.hex;
    from_utf8 = p.crypto.from_utf8;
    now = p.now;
  }

  -- `TerminalPasswordUpfront::init`
  unfoldable pub terminal_password : List ℕ → Run Host Error (List ℕ)
  unfolding ask_text normalize_password
  terminal_password salt = do
    password ← ask_text trireme
    lift (normalize_password p.crypto password salt)

  -- The keys of a source of keys, on a network.
  unfoldable pub secret_phrase_keys : KeySource → Network → Run Host Error (Keys lib Host)
  unfolding raw_secret_phrase_keys password_protected_keys network_index terminal_password
  secret_phrase_keys (raw_secret_phrase phrase_file) network = return (
      raw_secret_phrase_keys p.key_lib p.formats.raw_phrases
        (record { phrase_file_path = phrase_file; network = network_index network }))
  secret_phrase_keys (terminal_password_upfront_secret_phrase phrase_file salt nonce) network = do
    password ← terminal_password salt
    return (
        password_protected_keys p.key_lib p.crypto p.formats.encrypted_phrases (record {
          password = password;
          phrase_file_path = phrase_file;
          encryption_nonce = nonce;
          network = network_index network;
        }))

  -- The address of Blockfrost for a network.
  unfoldable pub url_of : Network → Outcome Error String
  url_of preprod = ok p.preprod_network_url
  url_of mainnet = ok p.mainnet_url
  url_of preview = err trireme

  -- The inner client of a source of the ledger.
  unfoldable pub inner_client_of :
      LedgerSource → Keys lib Host → Network → Run Host Error (InnerClient lib A D R)
  unfolding read_toml_struct_from_file url_of cml_client_of settings_of
  inner_client_of (block_frost api_key_file) keys network = do
    api_key ← read_toml_struct_from_file p.formats.api_keys api_key_file
    blockfrost_key ← lift (ok_or api_key trireme)
    url ← lift (url_of network)
    let ledger = p.block_frost_ledger url blockfrost_key.inner
    return (block_frost_client (cml_client_of ledger keys (settings_of network)))
  inner_client_of (ogmios_and_scrolls scrolls_ip scrolls_port ogmios_ip ogmios_port) keys network =
      let network_settings = settings_of network in
      let ledger =
        p.ogmios_scrolls_ledger scrolls_ip scrolls_port ogmios_ip ogmios_port network_settings in
      return (ogmios_scrolls_client (cml_client_of ledger keys network_settings))

  -- `TestLedgerClient::load_local_persisted`, of a directory: the data is read once, which panics
  -- where the file has none.
  unfoldable pub load_local_persisted : FilePath → Run Host Error (InnerClient lib A D R)
  unfolding in_file get_data
  load_local_persisted dir = do
    _ ← raised Error.ledger_client (in_file (join dir data_file) (get_data p.json))
    return (mocked (join dir data_file))

  unfoldable pub to_client : ClientVariant → Run Host Error (InnerClient lib A D R)
  unfolding secret_phrase_keys inner_client_of load_local_persisted
  to_client (cml inner) = do
    keys ← secret_phrase_keys inner.key_source inner.network
    inner_client_of inner.ledger_source keys inner.network
  to_client (test inner) = load_local_persisted inner.data_path

  unfoldable pub get_trireme_ledger_client_from_file : Run Host Error (InnerClient lib A D R)
  unfolding get_current_client_config_from_file to_client
  get_trireme_ledger_client_from_file = do
    config ← get_current_client_config_from_file p.home p.formats
    found ← lift (ok_or config trireme)
    to_client found.variant

  -- The storage of the fake ledger, in its file.
  unfoldable pub mocked_storage : TestLedgerStorage A D (Option String)
  unfolding persisted
  mocked_storage = persisted p.addresses p.json p.into p.try_from

  module _ ⦃d : Eq D⦄ where
    -- The implementation of the trait `LedgerClient`: every call goes to the inner client.
    unfoldable pub trireme_ledger_client : InnerClient lib A D R → LedgerClient A D R Host
    unfolding cml_ledger_client test_ledger_client mocked_storage in_file
    trireme_ledger_client (block_frost_client c) = cml_ledger_client c
    trireme_ledger_client (ogmios_scrolls_client c) = cml_ledger_client c
    trireme_ledger_client (mocked path) =
        let client = test_ledger_client mocked_storage p.addresses p.hex p.into p.random in
        record {
          signer_base_address = in_file path client.signer_base_address;
          outputs_at_address =
              λ address count. in_file path (client.outputs_at_address address count);
          all_outputs_at_address = λ address. in_file path (client.all_outputs_at_address address);
          issue = λ tx. in_file path (client.issue tx);
          network = in_file path client.network;
          last_block_time_secs = in_file path client.last_block_time_secs;
          current_time_secs = in_file path client.current_time_secs;
        }

  -- `TriremeLedgerClient::current_time`
  unfoldable pub trireme_current_time : InnerClient lib A D R → Run Host LedgerClientError ℤ
  unfolding mocked_storage in_file
  trireme_current_time (block_frost_client _) = lift (err (current_time not_implemented))
  trireme_current_time (ogmios_scrolls_client _) = lift (err (current_time not_implemented))
  trireme_current_time (mocked path) = in_file path mocked_storage.current_time

  -- `TriremeLedgerClient::advance_blocks`
  unfoldable pub advance_blocks : InnerClient lib A D R → ℤ → Run Host LedgerClientError (Unit {0})
  unfolding mocked_storage in_file advance_time_n_blocks
  advance_blocks (block_frost_client _) count = lift (err (current_time not_implemented))
  advance_blocks (ogmios_scrolls_client _) count = lift (err (current_time not_implemented))
  advance_blocks (mocked path) count = in_file path (advance_time_n_blocks mocked_storage count)
