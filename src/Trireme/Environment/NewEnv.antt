-- ===== src/Trireme/Environment/NewEnv.antt =====
-- A new environment (`new_env_impl` and `setup_local_mocked_env`, trireme/src/environment.rs).
use naumachia.Prelude.{Option, none, some, List, String, Outcome, ok, ok_or, ℕ}
use naumachia.Prelude.Int.{ℤ, pos}
use naumachia.Address.{AddressLib}
use naumachia.Scripts.PlutusData.{PlutusData}
use naumachia.Errors.{Error}
use naumachia.Effects.{Run, ◌>>=◌, lift, raised}
use naumachia.TestLedger.Persisted.{JsonLib}
use naumachia.TestLedger.Persisted.File.{init, add_new_signer}
use naumachia.Trireme.Config.{TriremeConfig, set_new_env}
use naumachia.Trireme.Config.{new as new_config}
use naumachia.Trireme.Host.{
  FilePath, Host, join, parent, path_to_client_config_file, write_toml_struct_to_file, ask_text,
}
use naumachia.Trireme.Keys.{CryptoLib}
use naumachia.Trireme.Client.{new_test, Formats, get_trireme_config_from_file}
use naumachia.Trireme.ToClient.{data_file, in_file}
use naumachia.Trireme.Environment.{
  CliError, naumachia_error, ledger_client_error, cli, terminal, bad_address, write_trireme_config,
}
use naumachia.Trireme.Environment.Setup.{
  EnvironmentType, real, mocked, get_env_type, ask_number_or,
  setup_password_protected_blockfrost_env,
}

-- What the code draws at random.
pub record Drawn : Type 0 where
  pub salt : List ℕ
  pub nonce : List ℕ
  -- The hashes of the first outputs.
  pub alice_hash : List ℕ
  pub bob_hash : List ℕ
  pub charlotte_hash : List ℕ
  pub dick_hash : List ℕ

abbrev pub alice_text : String
alice_text =
    "addr_test1qrksjmprvgcedgdt6rhg40590vr6exdzdc2hm5wc6pyl9ymkyskmqs55usm57gflrumk9kd63f3ty6r0l2tdfwfm28qs0rurdr"

abbrev pub bob_text : String
bob_text =
    "addr_test1qzulfkd06qm7t2nwe44nnuxh57k4h3p8zdrqukrjcekwn3kcra4ulhfn3g7j9gmnvmefjwzfsd55fq5ndecwlhgcw4zq07drdr"

abbrev pub charlotte_text : String
charlotte_text =
    "addr_test1qryc5tck5kqqs3arcqnl4lplvw5yg2ujsdnhx5eawn9lyzzvpmpraw365fayhrtpzpl4nulq6f9hhdkh4cdyh0tgnjxsg03qnh"

abbrev pub dick_text : String
dick_text =
    "addr_test1qr25qu9uu2putyngq38p04suc7w4lsgq5ylvt5q8hf3d9jh8gqwn858xkeuq7dlg5zycefeztfps6dmh62zpvac5wqxqvtgh4x"

abbrev pub start_balance : ℕ
start_balance = 100000000000

module _ {A D : Type 0} (home : Option FilePath) (formats : Formats) (addresses : AddressLib A)
    (json : JsonLib String) (into : D → PlutusData) (drawn : Drawn) where
  unfoldable pub address_of : String → Run Host CliError A
  address_of text = lift (ok_or (addresses.from_bech32 text) bad_address)

  -- The storage of the fake ledger in a directory, with one more signer.
  unfoldable pub signer_added : FilePath → List ℕ → String → A → Run Host CliError (Unit {0})
  unfolding in_file add_new_signer
  signer_added dir tx_hash name address = raised ledger_client_error (
      in_file (join dir data_file)
        (add_new_signer addresses json into tx_hash name address start_balance))

  -- The storage of the fake ledger and the configuration of its client, of the addresses of Alice, Bob,
  -- Charlotte and Dick: the file of the configuration, and its directory.
  unfoldable pub write_mocked_env :
      String → ℤ → A → A → A → A → FilePath → FilePath → Run Host CliError (Unit {0})
  unfolding in_file init signer_added new_test write_toml_struct_to_file
  write_mocked_env name block_length alice bob charlotte dick dir parent_dir = do
    _ ← raised ledger_client_error (
        in_file (join parent_dir data_file) (
          init addresses json into drawn.alice_hash "Alice" alice start_balance (pos 0)
            block_length))
    _ ← signer_added parent_dir drawn.bob_hash "Bob" bob
    _ ← signer_added parent_dir drawn.charlotte_hash "Charlotte" charlotte
    _ ← signer_added parent_dir drawn.dick_hash "Dick" dick
    raised naumachia_error
        (write_toml_struct_to_file formats.clients dir (new_test name parent_dir))

  unfoldable pub setup_local_mocked_env : String → Run Host CliError (Unit {0})
  unfolding ask_number_or address_of path_to_client_config_file parent write_mocked_env
  setup_local_mocked_env name = do
    block_length ← ask_number_or (pos 20)
    alice_address ← address_of alice_text
    bob_address ← address_of bob_text
    charlotte_address ← address_of charlotte_text
    dick_address ← address_of dick_text
    dir ← raised naumachia_error (path_to_client_config_file home name)
    parent_dir ← lift (ok_or (parent dir) cli)
    write_mocked_env name block_length alice_address bob_address charlotte_address dick_address dir
        parent_dir

  -- The configuration with the new environment as the current one.
  unfoldable pub config_with : Option TriremeConfig → String → Outcome Error TriremeConfig
  unfolding set_new_env new_config
  config_with (some config) name = set_new_env config name
  config_with none name = ok (new_config name)

  unfoldable pub set_up : CryptoLib → EnvironmentType → String → Run Host CliError (Unit {0})
  unfolding setup_password_protected_blockfrost_env setup_local_mocked_env
  set_up crypto real name =
      setup_password_protected_blockfrost_env home formats crypto drawn.salt drawn.nonce name
  set_up crypto mocked name = setup_local_mocked_env name

  -- `new_env_impl` from the name on.
  unfoldable pub new_env_named : CryptoLib → String → Run Host CliError (Unit {0})
  unfolding get_trireme_config_from_file config_with get_env_type set_up write_trireme_config
  new_env_named crypto name = do
    existing ← raised naumachia_error (get_trireme_config_from_file home formats)
    trireme_config ← raised naumachia_error (lift (config_with existing name))
    env_type ← get_env_type
    _ ← set_up crypto env_type name
    write_trireme_config home formats trireme_config

  unfoldable pub new_env_impl : CryptoLib → Run Host CliError (Unit {0})
  unfolding ask_text new_env_named
  new_env_impl crypto = do name ← ask_text terminal; new_env_named crypto name
