-- ===== src/Trireme/Environment/Setup.antt =====
-- How an environment is set up (trireme/src/environment.rs): `new-env`, and what the user is asked.
-- What the code draws at random, the salt, the nonce and the hashes of the first outputs, are
-- parameters.
use naumachia.Prelude.{
  ◌==◌, string_eq, if◌then◌else◌, Option, none, some, List, [], ◌∷◌, String, Outcome, ok, err,
  expect, ℕ,
}
use naumachia.Prelude.Int.{ℤ}
use naumachia.Errors.{Error}
use naumachia.Effects.{Run, ◌>>=◌, lift, return, raised}
use naumachia.LiveClient.NetworkSettings.{Network, preprod}
use naumachia.Trireme.Host.{
  FilePath, Host, Answer, text, number, choice, join, push, path_to_trireme_config_dir,
  path_to_client_config_file, write_toml_struct_to_file, ask_text, ask_choice,
}
use naumachia.Trireme.Keys.{CryptoLib, normalize_password, encrypt_phrase}
use naumachia.Trireme.Client.{
  LedgerSource, block_frost, ogmios_and_scrolls, terminal_password_upfront_secret_phrase, new_cml,
  Formats,
}
use naumachia.Trireme.Environment.{CliError, naumachia_error, terminal, get_elem?}

pub data EnvironmentType : Type 0 where
  real mocked : EnvironmentType

unfoldable pub get_env_type : Run Host CliError EnvironmentType
unfolding ask_choice get_elem?
get_env_type = do
  item_index ← ask_choice terminal
  lift (expect (get_elem? (mocked ∷ real ∷ []) item_index))

pub data LedgerTypes : Type 0 where
  block_frost_api ogmios_with_scrolls : LedgerTypes

unfoldable pub typed_or : String → List Answer → Outcome CliError String × List Answer
typed_or default [] = (err terminal, [])
typed_or default (text line ∷ rest) = (ok (if line == "" then default else line), rest)
typed_or default (number _ ∷ rest) = (err terminal, rest)
typed_or default (choice _ ∷ rest) = (err terminal, rest)

-- A text with a default, which an empty line asks for.
unfoldable pub ask_text_or : String → Run Host CliError String
unfolding typed_or
ask_text_or default host =
    let (line, rest) = typed_or default host.answers in (line, record host { answers = rest })

unfoldable pub setup_ogmios_and_scrolls_ledger : Run Host CliError LedgerSource
unfolding ask_text_or
setup_ogmios_and_scrolls_ledger = do
  scrolls_ip ← ask_text_or "127.0.0.1"
  scrolls_port ← ask_text_or "6379"
  ogmios_ip ← ask_text_or "127.0.0.1"
  ogmios_port ← ask_text_or "1337"
  return (ogmios_and_scrolls scrolls_ip scrolls_port ogmios_ip ogmios_port)

-- The loop of the confirmation, over the answers: it ends at the first one that is the password. The
-- first argument is the password, the second one the answer that the code holds, which an empty line
-- leaves as it is.
unfoldable pub confirmed : String → String → List Answer → Outcome CliError (Unit {0}) × List Answer
confirmed password confirmed_password [] =
    if password == confirmed_password then (ok tt, []) else (err terminal, [])
confirmed password confirmed_password (text line ∷ rest) =
    let later = confirmed password (if line == "" then confirmed_password else line) rest in
    if password == confirmed_password then (ok tt, text line ∷ rest) else later
confirmed password confirmed_password (number n ∷ rest) =
    if password == confirmed_password then (ok tt, number n ∷ rest) else (err terminal, rest)
confirmed password confirmed_password (choice n ∷ rest) =
    if password == confirmed_password then (ok tt, choice n ∷ rest) else (err terminal, rest)

unfoldable pub ask_until_confirmed : String → String → Run Host CliError (Unit {0})
unfolding confirmed
ask_until_confirmed password confirmed_password host =
    let (r, rest) = confirmed password confirmed_password host.answers in
    (r, record host { answers = rest })

-- The password, confirmed.
unfoldable pub get_confirmed_password : Run Host CliError String
unfolding ask_text ask_until_confirmed
get_confirmed_password = do
  password ← ask_text terminal
  confirmed_password ← ask_text terminal
  _ ← ask_until_confirmed password confirmed_password
  return password

-- `number` where a number is asked for, with its default; a text that is no number is asked for again.
unfoldable pub numbered : ℤ → List Answer → Outcome CliError ℤ × List Answer
numbered default [] = (err terminal, [])
numbered default (number none ∷ rest) = (ok default, rest)
numbered default (number (some n) ∷ rest) = (ok n, rest)
numbered default (text _ ∷ rest) = numbered default rest
numbered default (choice _ ∷ rest) = (err terminal, rest)

unfoldable pub ask_number_or : ℤ → Run Host CliError ℤ
unfolding numbered
ask_number_or default host =
    let (n, rest) = numbered default host.answers in (n, record host { answers = rest })

abbrev pub raw_phrase_file : String
raw_phrase_file = "secret_phrase.toml"

abbrev pub blockfrost_api_key_file : String
blockfrost_api_key_file = "blockfrost_api_key.toml"

-- Where a file of an environment stands.
unfoldable pub env_file : Option FilePath → String → String → Run Host Error FilePath
unfolding path_to_trireme_config_dir push
env_file home sub_dir file = do
  dir ← path_to_trireme_config_dir home
  return (join (push dir sub_dir) file)

module _ (home : Option FilePath) (formats : Formats) where
  unfoldable pub write_blockfrost_api_key : String → String → Run Host Error FilePath
  unfolding env_file write_toml_struct_to_file
  write_blockfrost_api_key api_key sub_dir = do
    file_path ← env_file home sub_dir blockfrost_api_key_file
    _ ← write_toml_struct_to_file formats.api_keys file_path (record { inner = api_key })
    return file_path

  unfoldable pub setup_blockfrost_ledger : String → Run Host CliError LedgerSource
  unfolding ask_text write_blockfrost_api_key
  setup_blockfrost_ledger env_name = do
    api_key ← ask_text terminal
    blockfrost_api_key_path ← raised naumachia_error (write_blockfrost_api_key api_key env_name)
    return (block_frost blockfrost_api_key_path)

  -- What the choice of a provider goes on with.
  unfoldable pub ledger_source_of : LedgerTypes → String → Run Host CliError LedgerSource
  unfolding setup_blockfrost_ledger setup_ogmios_and_scrolls_ledger
  ledger_source_of block_frost_api env_name = setup_blockfrost_ledger env_name
  ledger_source_of ogmios_with_scrolls env_name = setup_ogmios_and_scrolls_ledger

  unfoldable pub get_ledger_source : String → Run Host CliError LedgerSource
  unfolding ask_choice get_elem? ledger_source_of
  get_ledger_source env_name = do
    item_index ← ask_choice terminal
    ledger_type ← lift (expect (get_elem? (block_frost_api ∷ ogmios_with_scrolls ∷ []) item_index))
    ledger_source_of ledger_type env_name

  unfoldable pub write_secret_phrase_with_password :
      CryptoLib → String → String → List ℕ → List ℕ → Run Host Error FilePath
  unfolding env_file encrypt_phrase write_toml_struct_to_file
  write_secret_phrase_with_password crypto phrase sub_dir password encryption_nonce = do
    file_path ← env_file home sub_dir raw_phrase_file
    let phrase_struct = encrypt_phrase crypto phrase password encryption_nonce
    _ ← write_toml_struct_to_file formats.encrypted_phrases file_path phrase_struct
    return file_path

  unfoldable pub write_cml_client_config_with_password_protection :
      String
      → String
      → LedgerSource
      → FilePath
      → List ℕ
      → List ℕ
      → Network
      → Run Host Error (Unit {0})
  unfolding new_cml path_to_client_config_file write_toml_struct_to_file
  write_cml_client_config_with_password_protection name sub_dir ledger_source phrase_file salt nonce
        network =
      do
        let key_source = terminal_password_upfront_secret_phrase phrase_file salt nonce
        let client_config = new_cml name ledger_source key_source network
        file_path ← path_to_client_config_file home sub_dir
        write_toml_struct_to_file formats.clients file_path client_config

  -- With the salt of the password and the nonce of the encryption.
  unfoldable pub setup_password_protected_blockfrost_env :
      CryptoLib → List ℕ → List ℕ → String → Run Host CliError (Unit {0})
  unfolding get_ledger_source ask_text get_confirmed_password normalize_password
      write_secret_phrase_with_password write_cml_client_config_with_password_protection
  setup_password_protected_blockfrost_env crypto salt nonce name = do
    ledger_source ← get_ledger_source name
    secret_phrase ← ask_text terminal
    password ← get_confirmed_password
    normalized_password ← raised naumachia_error (lift (normalize_password crypto password salt))
    secret_phrase_path ←
        raised naumachia_error
          (write_secret_phrase_with_password crypto secret_phrase name normalized_password nonce)
    raised naumachia_error (
        write_cml_client_config_with_password_protection name name ledger_source secret_phrase_path
          salt nonce preprod)
