-- ===== src/Trireme/Environment/Untouched.antt =====
-- What the set-up of an environment leaves as it was (trireme/src/environment.rs): the steps with a
-- password.
use naumachia.Prelude.{refl, ◌≢◌, some, List, String, ℕ}
use naumachia.LiveClient.NetworkSettings.{preprod}
use naumachia.Trireme.Host.{
  FilePath, TomlLib, join, push, write_toml_struct_to_file, trireme_config_folder, config_file,
  ask_text, ask_choice, path_to_trireme_config_dir, path_to_client_config_file,
}
use naumachia.Trireme.Keys.{CryptoLib}
use naumachia.Trireme.Client.{Formats, LedgerSource}
use naumachia.Trireme.Environment.{naumachia_error, terminal}
use naumachia.Trireme.Environment.Setup.{
  LedgerTypes, block_frost_api, ogmios_with_scrolls, ask_text_or, setup_ogmios_and_scrolls_ledger,
  ask_until_confirmed, get_confirmed_password, raw_phrase_file, blockfrost_api_key_file, env_file,
  write_blockfrost_api_key, setup_blockfrost_ledger, ledger_source_of, get_ledger_source,
  write_secret_phrase_with_password, write_cml_client_config_with_password_protection,
  setup_password_protected_blockfrost_env,
}
use naumachia.Trireme.Environment.Frames.{
  Keeps, bind-Keeps, lift-Keeps, return-Keeps, raised-Keeps, write_toml_struct_to_file-Keeps,
}
use naumachia.Trireme.Environment.Paths.{IsPlain, join-push-≢-join}

module _ (home_dir : FilePath) (formats : Formats) where
  -- The directory of Trireme, and the file of its configuration.
  abbrev pub trireme_dir : FilePath
  trireme_dir = join home_dir trireme_config_folder

  abbrev pub trireme_file : FilePath
  trireme_file = join trireme_dir config_file

  -- The file of the configuration is none of an environment's own files.
  pub own_file :
      (name : String)
      → IsPlain name
      → (file : String) → join (push trireme_dir name) file ≢ trireme_file
  own_file name plain file = join-push-≢-join trireme_dir name plain file config_file

  pub ask_text-Keeps : Keeps trireme_file (ask_text terminal)
  unfolding ask_text
  ask_text-Keeps = record { same = λ host. refl }

  pub ask_choice-Keeps : Keeps trireme_file (ask_choice terminal)
  unfolding ask_choice
  ask_choice-Keeps = record { same = λ host. refl }

  pub env_file-Keeps :
      (name file : String) → Keeps trireme_file (env_file (some home_dir) name file)
  unfolding env_file path_to_trireme_config_dir
  env_file-Keeps name file = record { same = λ host. refl }

  pub written-Keeps :
      {X : Type 0} (lib : TomlLib X) (name : String)
      → IsPlain name
      → (file : String) (x : X)
      → Keeps trireme_file (write_toml_struct_to_file lib (join (push trireme_dir name) file) x)
  written-Keeps lib name plain file x =
      write_toml_struct_to_file-Keeps lib trireme_file _ x (own_file name plain file)

  pub write_blockfrost_api_key-Keeps :
      (api_key name : String)
      → IsPlain name
      → Keeps trireme_file (write_blockfrost_api_key (some home_dir) formats api_key name)
  unfolding write_blockfrost_api_key env_file path_to_trireme_config_dir
  write_blockfrost_api_key-Keeps api_key name plain =
      bind-Keeps _ (written-Keeps formats.api_keys name plain blockfrost_api_key_file _)
        λ _. return-Keeps _ _

  pub ask_text_or-Keeps : (default : String) → Keeps trireme_file (ask_text_or default)
  unfolding ask_text_or
  ask_text_or-Keeps default = record { same = λ host. refl }

  pub ogmios-Keeps : Keeps trireme_file setup_ogmios_and_scrolls_ledger
  unfolding setup_ogmios_and_scrolls_ledger
  ogmios-Keeps = bind-Keeps _ (ask_text_or-Keeps "127.0.0.1") λ a.
      bind-Keeps _ (ask_text_or-Keeps "6379") λ b.
        bind-Keeps _ (ask_text_or-Keeps "127.0.0.1")
          λ c. bind-Keeps _ (ask_text_or-Keeps "1337") λ d. return-Keeps _ _

  pub ledger_source_of-Keeps :
      (ledger_type : LedgerTypes) (name : String)
      → IsPlain name
      → Keeps trireme_file (ledger_source_of (some home_dir) formats ledger_type name)
  unfolding ledger_source_of setup_blockfrost_ledger
  ledger_source_of-Keeps block_frost_api name plain = bind-Keeps _ ask_text-Keeps λ api_key.
      bind-Keeps _
        (raised-Keeps _ naumachia_error (write_blockfrost_api_key-Keeps api_key name plain))
        λ _. return-Keeps _ _
  ledger_source_of-Keeps ogmios_with_scrolls name plain = ogmios-Keeps

  pub get_ledger_source-Keeps :
      (name : String)
      → IsPlain name
      → Keeps trireme_file (get_ledger_source (some home_dir) formats name)
  unfolding get_ledger_source
  get_ledger_source-Keeps name plain = bind-Keeps _ ask_choice-Keeps λ index.
      bind-Keeps _ (lift-Keeps _ _) λ ledger_type. ledger_source_of-Keeps ledger_type name plain

  pub until_confirmed-Keeps :
      (password first : String) → Keeps trireme_file (ask_until_confirmed password first)
  unfolding ask_until_confirmed
  until_confirmed-Keeps password first = record { same = λ host. refl }

  pub get_confirmed_password-Keeps : Keeps trireme_file get_confirmed_password
  unfolding get_confirmed_password
  get_confirmed_password-Keeps = bind-Keeps _ ask_text-Keeps λ password.
      bind-Keeps _ ask_text-Keeps λ confirmed_password.
        bind-Keeps _ (until_confirmed-Keeps password confirmed_password) λ _. return-Keeps _ _

  pub write_secret_phrase-Keeps :
      (crypto : CryptoLib) (phrase name : String)
      → IsPlain name
      → (password nonce : List ℕ)
      → Keeps trireme_file (
          write_secret_phrase_with_password
            (some home_dir)
            formats
            crypto
            phrase
            name
            password
            nonce)
  unfolding write_secret_phrase_with_password env_file path_to_trireme_config_dir
  write_secret_phrase-Keeps crypto phrase name plain password nonce =
      bind-Keeps _ (written-Keeps formats.encrypted_phrases name plain raw_phrase_file _)
        λ _. return-Keeps _ _

  pub write_client_config-Keeps :
      (name : String)
      → IsPlain name
      → (source : LedgerSource) (file : FilePath) (salt nonce : List ℕ)
      → Keeps trireme_file (
          write_cml_client_config_with_password_protection
            (some home_dir)
            formats
            name
            name
            source
            file
            salt
            nonce
            preprod)
  unfolding write_cml_client_config_with_password_protection path_to_client_config_file
      path_to_trireme_config_dir
  write_client_config-Keeps name plain source file salt nonce =
      written-Keeps formats.clients name plain config_file _

  pub setup_password_protected-Keeps :
      (crypto : CryptoLib) (salt nonce : List ℕ) (name : String)
      → IsPlain name
      → Keeps trireme_file
          (setup_password_protected_blockfrost_env (some home_dir) formats crypto salt nonce name)
  unfolding setup_password_protected_blockfrost_env
  setup_password_protected-Keeps crypto salt nonce name plain =
      bind-Keeps _ (get_ledger_source-Keeps name plain) λ ledger_source.
        bind-Keeps _ ask_text-Keeps λ secret_phrase.
          bind-Keeps _ get_confirmed_password-Keeps λ password.
            bind-Keeps _ (raised-Keeps _ naumachia_error (lift-Keeps _ _)) λ normalized.
              bind-Keeps _
                (raised-Keeps _ naumachia_error
                  (write_secret_phrase-Keeps crypto secret_phrase name plain normalized nonce))
                λ path.
                  raised-Keeps _ naumachia_error
                    (write_client_config-Keeps name plain ledger_source path salt nonce)
