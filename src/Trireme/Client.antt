-- ===== src/Trireme/Client.antt =====
-- The configuration of a client, and how it is found (src/trireme_ledger_client.rs).
use naumachia.Prelude.{ℕ, Option, List, String, list_eq, string_eq, ok_or}
use naumachia.Errors.{Error, trireme}
use naumachia.Effects.{Run, ◌>>=◌, lift}
use naumachia.LiveClient.NetworkSettings.{Network, preprod, preview, mainnet}
use naumachia.Trireme.Config.{TriremeConfig}
use naumachia.Trireme.Host.{
  FilePath, Host, TomlLib, path_to_trireme_config_file, path_to_client_config_file,
  read_toml_struct_from_file,
}
use naumachia.Trireme.Keys.{EncryptedSecretPhrase, SecretPhrase}

pub data LedgerSource : Type 0 where
  block_frost : FilePath → LedgerSource
  -- The addresses and the ports of Scrolls and of Ogmios.
  ogmios_and_scrolls : String → String → String → String → LedgerSource

pub data KeySource : Type 0 where
  raw_secret_phrase : FilePath → KeySource
  -- A file, the salt of the password, and the nonce of the encryption.
  terminal_password_upfront_secret_phrase : FilePath → List ℕ → List ℕ → KeySource

-- `u8::from`, of a network.
unfoldable pub network_index : Network → ℕ
network_index mainnet = 1
network_index preprod = 0
network_index preview = 0

pub record CmlClientConfig : Type 0 where
  pub ledger_source : LedgerSource
  pub key_source : KeySource
  pub network : Network

pub record TestClientConfig : Type 0 where
  pub data_path : FilePath

pub data ClientVariant : Type 0 where
  cml : CmlClientConfig → ClientVariant
  test : TestClientConfig → ClientVariant

pub record ClientConfig : Type 0 where
  pub name : String
  pub variant : ClientVariant

unfoldable pub new_cml : String → LedgerSource → KeySource → Network → ClientConfig
new_cml name ledger_source key_source network = record {
  name = name;
  variant =
      cml (record { ledger_source = ledger_source; key_source = key_source; network = network });
}

unfoldable pub new_test : String → FilePath → ClientConfig
new_test name data_path = record { name = name; variant = test (record { data_path = data_path }) }

pub record BlockfrostApiKey : Type 0 where
  pub inner : String

-- The TOML form of each type that Trireme keeps in a file.
pub record Formats : Type 0 where
  pub configs : TomlLib TriremeConfig
  pub clients : TomlLib ClientConfig
  pub api_keys : TomlLib BlockfrostApiKey
  pub encrypted_phrases : TomlLib EncryptedSecretPhrase
  pub raw_phrases : TomlLib SecretPhrase

module _ (home : Option FilePath) (formats : Formats) where
  unfoldable pub get_trireme_config_from_file : Run Host Error (Option TriremeConfig)
  unfolding path_to_trireme_config_file read_toml_struct_from_file
  get_trireme_config_from_file = do
    trireme_config_path ← path_to_trireme_config_file home
    read_toml_struct_from_file formats.configs trireme_config_path

  unfoldable pub get_current_client_config_from_file : Run Host Error (Option ClientConfig)
  unfolding get_trireme_config_from_file path_to_client_config_file read_toml_struct_from_file
  get_current_client_config_from_file = do
    trireme_config ← get_trireme_config_from_file
    config ← lift (ok_or trireme_config trireme)
    current_env ← lift (ok_or config.current_env trireme)
    client_config_path ← path_to_client_config_file home current_env
    read_toml_struct_from_file formats.clients client_config_path
