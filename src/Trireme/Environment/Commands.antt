-- ===== src/Trireme/Environment/Commands.antt =====
-- The commands on the current environment's client (trireme/src/environment.rs): what they print is
-- what they return here.
use naumachia.Prelude.{Eq, Option, none, some, String, panic, ok_or, expect}
use naumachia.Prelude.Int.{ℤ, pos}
use naumachia.Effects.{Run, ◌>>=◌, lift, return, raised}
use naumachia.Scripts.Context.{pub_key_hash_from_address_if_available}
use naumachia.TestLedger.Persisted.File.{active_signer_name, get_signers, switch_signer}
use naumachia.LiveClient.Cml.{ValueLib, CmlLib}
use naumachia.Trireme.Host.{
  FilePath, Host, join, path_to_client_config_file, read_toml_struct_from_file, ask_choice,
}
use naumachia.Trireme.Client.{ClientVariant, cml, test, get_current_client_config_from_file}
use naumachia.Trireme.ToClient.{
  Platform, InnerClient, data_file, in_file, get_trireme_ledger_client_from_file,
  trireme_ledger_client, trireme_current_time,
}
use naumachia.Trireme.ToClient.{advance_blocks as client_advance_blocks}
use naumachia.Trireme.Environment.{
  CliError, naumachia_error, ledger_client_error, cli, terminal, bad_address, get_elem?, env_impl,
}

module _ {V : ValueLib} {lib : CmlLib V} {Bip32 A D R : Type 0} ⦃d : Eq D⦄
    (p : Platform lib Bip32 A D R) where
  -- The fake ledger's file, where the current environment has one; all else panics.
  storage_file : ClientVariant → Run Host CliError FilePath
  storage_file (test inner) = return (join inner.data_path data_file)
  storage_file (cml _) = lift panic

  -- The file of the storage that `signer` and `switch-signer` read and write.
  unfoldable pub current_storage : Run Host CliError FilePath
  unfolding env_impl path_to_client_config_file read_toml_struct_from_file storage_file
  current_storage = do
    current_env ← env_impl p.home p.formats
    sub_dir ← lift (expect current_env)
    dir ← raised naumachia_error (path_to_client_config_file p.home sub_dir)
    found ← raised naumachia_error (read_toml_struct_from_file p.formats.clients dir)
    config ← lift (expect found)
    storage_file config.variant

  unfoldable pub active_signer_impl : Run Host CliError String
  unfolding current_storage in_file active_signer_name
  active_signer_impl = do
    path ← current_storage
    raised ledger_client_error (in_file path (active_signer_name p.json))

  unfoldable pub switch_signer_impl : Run Host CliError (Unit {0})
  unfolding current_storage in_file get_signers ask_choice get_elem? switch_signer
  switch_signer_impl = do
    path ← current_storage
    items ← raised ledger_client_error (in_file path (get_signers p.json))
    index ← ask_choice terminal
    name ← lift (expect (get_elem? items index))
    raised ledger_client_error (in_file path (switch_signer p.json name))

  -- The client of the current environment.
  current_client : Run Host CliError (InnerClient lib A D R)
  unfolding get_trireme_ledger_client_from_file
  current_client = raised naumachia_error (get_trireme_ledger_client_from_file p)

  unfoldable pub signer_address : Run Host CliError A
  unfolding current_client trireme_ledger_client
  signer_address = do
    ledger_client ← current_client
    raised ledger_client_error (trireme_ledger_client p ledger_client).signer_base_address

  unfoldable pub get_address_impl : Run Host CliError String
  unfolding signer_address
  get_address_impl = do
    address ← signer_address
    lift (ok_or (p.addresses.to_bech32 address) bad_address)

  -- In hex.
  unfoldable pub get_pubkey_hash_impl : Run Host CliError String
  unfolding signer_address pub_key_hash_from_address_if_available
  get_pubkey_hash_impl = do
    address ← signer_address
    pubkey_hash ←
        lift (ok_or (pub_key_hash_from_address_if_available ⦃lib = p.addresses⦄ address) cli)
    return (p.hex.encode pubkey_hash.bytes)

  -- The time that a configuration's ledger is at: the system's own, in seconds, or the fake ledger's.
  time_of : ClientVariant → Run Host CliError ℤ
  unfolding current_client trireme_current_time
  time_of (cml _) = do secs ← λ host. (expect (p.now host), host); return (pos secs)
  time_of (test _) = do
    ledger_client ← current_client
    raised ledger_client_error (trireme_current_time p ledger_client)

  -- Nothing where the current environment has no configuration.
  unfoldable pub current_time_impl : Run Host CliError (Option ℤ)
  unfolding get_current_client_config_from_file time_of
  current_time_impl = do
    found ← raised naumachia_error (get_current_client_config_from_file p.home p.formats)
    elim found [
      | none ↦ return none
      | some config ↦ time_of config.variant >>= λ secs. return (some secs)
    ]

  unfoldable pub last_block_time_impl : Run Host CliError ℤ
  unfolding current_client trireme_ledger_client
  last_block_time_impl = do
    ledger_client ← current_client
    raised ledger_client_error (trireme_ledger_client p ledger_client).last_block_time_secs

  -- The new time.
  unfoldable pub advance_blocks : ℤ → Run Host CliError ℤ
  unfolding current_client client_advance_blocks trireme_current_time
  advance_blocks count = do
    ledger_client ← current_client
    _ ← raised ledger_client_error (client_advance_blocks p ledger_client count)
    raised ledger_client_error (trireme_current_time p ledger_client)
