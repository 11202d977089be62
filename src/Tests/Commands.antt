-- ===== src/Tests/Commands.antt =====
-- The properties of Trireme's environments, on a machine with two environments. What is written as
-- TOML is one of a few texts.
use naumachia.Prelude.{
  ℕ, ◌≡◌, ◌≢◌, refl, sym, Bool-cases, inl, inr, ◌==◌, string_eq, list_eq, nat_eq, if◌then◌else◌,
  none, some, List, [], ◌∷◌, String, All, ok,
}
use naumachia.HashMap.{HashMap, insert}
use naumachia.Prelude.Int.{pos}
use naumachia.Address.{testnet}
use naumachia.PolicyId.{PolicyId}
use naumachia.Effects.{return}
use naumachia.LedgerClient.{LedgerClient}
use naumachia.Fixtures.Valid.{ten_ada-IsValid, five_ada-IsValid}
use naumachia.Trireme.Balance.{
  lovelace_balance, total_balance, impl_lovelace_balance, impl_total_balance, native_assets,
  balances,
}
use naumachia.Trireme.Balance.Agree.{impl_total_balance-impl_lovelace_balance}
use naumachia.Fixtures.{locked, purse}
use naumachia.TestLedger.Persisted.{JsonLib}
use naumachia.Scripts.PlutusData.Convert.{as_bytes, utf8}
use naumachia.Trireme.Config.{
  TriremeConfig, new, contains, without, set_new_env, remove_env, current_without,
}
use naumachia.Trireme.Config.Reachable.{Reachable, start, next, added, IsValid, Reachable-IsValid}
use naumachia.Trireme.Host.{
  FilePath, Host, text, choice, cut, TomlLib, join, push, split_slash, with_char, enter, resolve,
  start_of, wrote, write_file, parent, file_at, trireme_config_folder, config_file,
  path_to_trireme_config_dir, path_to_trireme_config_file, path_to_client_config_file,
  write_toml_struct_to_file,
}
use naumachia.Trireme.Keys.{CryptoLib, EncryptedSecretPhrase, encrypt_phrase, read_phrase}
use naumachia.Trireme.Client.{Formats}
use naumachia.Trireme.Environment.{
  is_within, files_outside, has_files, remove_dir_all, delete_directory, write_trireme_config,
  remove_confirmed,
}
use naumachia.Trireme.Environment.Setup.{
  get_confirmed_password, env_file, write_secret_phrase_with_password,
}
use naumachia.Trireme.Environment.NewEnv.{Drawn}
use naumachia.Trireme.Environment.Phrases.{
  ReadsBack, IsStream, write_secret_phrase_with_password-read_phrase,
}
use naumachia.Trireme.Environment.Confirmed.{get_confirmed_password-ends}
use naumachia.Trireme.Environment.Removed.{remove_confirmed-file_at}

abbrev config : TriremeConfig
config = record { current_env = some "prod"; envs = "dev" ∷ "prod" ∷ [] }

config-Reachable : Reachable config
unfolding new set_new_env contains
config-Reachable = next (start "dev") (added "prod" refl)

Reachable-IsValid_example : IsValid config
Reachable-IsValid_example = Reachable-IsValid config config-Reachable

-- The first two bytes change places.
abbrev swapped : List ℕ → List ℕ
swapped (a ∷ b ∷ bytes) = b ∷ a ∷ bytes
swapped bytes = bytes

abbrev crypto : CryptoLib
crypto = record {
  hash_raw = λ bytes salt. none;
  apply_keystream = λ key nonce bytes. swapped bytes;
  from_utf8 = λ bytes. if bytes == 97 ∷ 98 ∷ [] then some "ab" else none;
}

crypto-IsStream : IsStream crypto
crypto-IsStream key nonce [] = refl
crypto-IsStream key nonce (a ∷ []) = refl
crypto-IsStream key nonce (a ∷ b ∷ bytes) = refl

-- One phrase has a TOML form.
abbrev phrases : TomlLib EncryptedSecretPhrase
phrases = record {
  to_string = λ phrase. if phrase.inner == 98 ∷ 97 ∷ [] then some "phrase" else none;
  from_str = λ t. some (record { inner = 98 ∷ 97 ∷ [] });
}

phrases-ReadsBack : ReadsBack phrases
phrases-ReadsBack phrase t h = elim (Bool-cases (phrase.inner == 98 ∷ 97 ∷ [])) [
  | inl same ↦
      let listed = ((list_eq ⦃e = nat_eq⦄).beq_iff phrase.inner (98 ∷ 97 ∷ [])).0 same in
      let unlisted = sym listed in λ i. some (record { inner = unlisted i })
  | inr other ↦ absurd (cc (rw other at h))
]

abbrev formats : Formats
formats = record {
  configs = record { to_string = λ c. some "configuration"; from_str = λ t. some config };
  clients = record { to_string = λ c. some "client"; from_str = λ t. none };
  api_keys = record { to_string = λ k. some "key"; from_str = λ t. none };
  encrypted_phrases = phrases;
  raw_phrases = record { to_string = λ p. none; from_str = λ t. none };
}

abbrev home : FilePath
home = "home" ∷ []

abbrev files : HashMap FilePath String
files =
    ("home" ∷ ".trireme" ∷ "config.toml" ∷ [], "old")
    ∷ ("home" ∷ ".trireme" ∷ "dev" ∷ "config.toml" ∷ [], "client")
    ∷ ("home" ∷ ".trireme" ∷ "prod" ∷ "config.toml" ∷ [], "client")
    ∷ []

abbrev machine : Host
machine = record { files = files; answers = []; disk = [] }

abbrev phrase_file : FilePath
phrase_file = "home" ∷ ".trireme" ∷ "dev" ∷ "secret_phrase.toml" ∷ []

abbrev with_phrase : Host
with_phrase = record machine { files = insert phrase_file "phrase" files }

phrase_written :
    write_secret_phrase_with_password
      (some home)
      formats
      crypto
      "ab"
      "dev"
      (5 ∷ [])
      (6 ∷ [])
      machine
    ≡ (ok phrase_file, with_phrase)
unfolding write_secret_phrase_with_password env_file path_to_trireme_config_dir push split_slash
    with_char enter resolve start_of wrote write_file write_toml_struct_to_file parent
    encrypt_phrase as_bytes utf8 insert
phrase_written = refl

ab_utf8 : crypto.from_utf8 (as_bytes "ab") ≡ some "ab"
unfolding as_bytes utf8
ab_utf8 = refl

write_secret_phrase_with_password-read_phrase_example :
    read_phrase crypto formats.encrypted_phrases
      (record {
        password = 5 ∷ [];
        phrase_file_path = phrase_file;
        encryption_nonce = 6 ∷ [];
        network = 0;
      })
      with_phrase
    ≡ (ok "ab", with_phrase)
write_secret_phrase_with_password-read_phrase_example =
    write_secret_phrase_with_password-read_phrase (some home) formats crypto crypto-IsStream
      phrases-ReadsBack "ab" "dev" (5 ∷ []) (6 ∷ []) 0 phrase_file machine with_phrase ab_utf8
      phrase_written

two_tries : All (λ (line : String). "secret" ≢ line) ("" ∷ "sceret" ∷ [])
two_tries = (
  (λ h. cc ((string_eq.beq_iff "secret" "").1 h)),
  ((λ h. cc ((string_eq.beq_iff "secret" "sceret").1 h)), tt),
)

no_empty_secret : ◌≢◌ {A = String} "secret" ""
no_empty_secret h = cc ((string_eq.beq_iff "secret" "").1 h)

get_confirmed_password-ends_example :
    get_confirmed_password (record machine {
      answers = text "secret" ∷ text "" ∷ text "sceret" ∷ text "secret" ∷ choice 1 ∷ [];
    })
    ≡ (ok "secret", record machine { answers = choice 1 ∷ [] })
get_confirmed_password-ends_example =
    get_confirmed_password-ends "secret" ("" ∷ "sceret" ∷ []) (choice 1 ∷ []) machine
      no_empty_secret two_tries

abbrev drawn : Drawn
drawn = record {
  salt = 1 ∷ [];
  nonce = 2 ∷ [];
  alice_hash = [];
  bob_hash = [];
  charlotte_hash = [];
  dick_hash = [];
}

abbrev json : JsonLib String
json = record { to_string = λ x. none; from_str = λ t. none }

-- An empty line is asked for again; the write of the Blockfrost key is cut.
abbrev leaving : Host
leaving = record machine {
  answers = text "" ∷ text "test" ∷ choice 1 ∷ choice 0 ∷ text "key" ∷ [];
  disk = cut "k" ∷ [];
}

-- Names that lead out of the directory of the environments.
push-outside :
    (push ("home" ∷ ".trireme" ∷ []) ".." ≡ "home" ∷ [])
    × (push ("home" ∷ ".trireme" ∷ []) "/etc/x" ≡ "etc" ∷ "x" ∷ [])
    × (push ("home" ∷ ".trireme" ∷ []) "a/./b" ≡ "home" ∷ ".trireme" ∷ "a" ∷ "b" ∷ [])
unfolding push split_slash with_char enter resolve start_of parent
push-outside = (refl, refl, refl)

abbrev without_dev : Host
without_dev = record machine {
  files =
      ("home" ∷ ".trireme" ∷ "config.toml" ∷ [], "configuration")
      ∷ ("home" ∷ ".trireme" ∷ "prod" ∷ "config.toml" ∷ [], "client")
      ∷ [];
}

dev_removed : remove_confirmed (some home) formats config "dev" "dev" machine ≡ (ok tt, without_dev)
unfolding remove_confirmed remove_env contains current_without without write_trireme_config
    path_to_trireme_config_file path_to_trireme_config_dir push split_slash with_char enter resolve
    start_of wrote write_file write_toml_struct_to_file parent insert delete_directory
    path_to_client_config_file remove_dir_all has_files files_outside is_within
dev_removed = refl

remove_confirmed-file_at_example :
    (left : TriremeConfig) × (contents : String) × (remove_env config "dev" ≡ ok left)
    × (formats.configs.to_string left ≡ some contents)
    × ((path : FilePath)
        → file_at path without_dev ≡ (
            if is_within (push (join home trireme_config_folder) "dev") path
            then none
            else if path == join (join home trireme_config_folder) config_file
            then some contents
            else file_at path machine))
remove_confirmed-file_at_example =
    remove_confirmed-file_at home formats config "dev" machine tt without_dev dev_removed

-- A client with two outputs at every address.
abbrev two_outputs : LedgerClient String ℕ ℕ (Unit {0})
two_outputs = record {
  signer_base_address = return "me";
  outputs_at_address = λ address count. return (purse ∷ locked ∷ []);
  all_outputs_at_address = λ address. return (purse ∷ locked ∷ []);
  issue = λ tx. return "id";
  network = return testnet;
  last_block_time_secs = return (pos 0);
  current_time_secs = return (pos 0);
}

impl_total_balance-impl_lovelace_balance_example :
    (lovelaces : ℕ) × (assets : List (PolicyId × ℕ)) × (impl_lovelace_balance two_outputs tt
      ≡ (ok (lovelace_balance lovelaces), tt))
    × (impl_total_balance two_outputs tt ≡ (ok (total_balance assets), tt))
    × (balances (total_balance assets) ≡ ok (lovelaces, native_assets assets))
impl_total_balance-impl_lovelace_balance_example =
    impl_total_balance-impl_lovelace_balance two_outputs tt tt tt "me" (purse ∷ locked ∷ []) refl
      refl (ten_ada-IsValid, (five_ada-IsValid, tt))
