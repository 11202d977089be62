-- ===== src/Trireme/Keys.antt =====
-- Secret phrases and the keys that they give (src/trireme_ledger_client/secret_phrase.rs,
-- src/trireme_ledger_client/raw_secret_phrase.rs, src/trireme_ledger_client/terminal_password_phrase.rs,
-- src/trireme_ledger_client/cml_client/key_manager.rs).
use Prim.Native.Nat.{bit_or}
use naumachia.Prelude.{
  ℕ, ltb, length, take, if◌then◌else◌, Option, List, [], String, list_eq, string_eq, Outcome, ok,
  panic, ok_or, expect,
}
use naumachia.Prelude.{◌>>=◌ as bind}
use naumachia.HashMap.{get}
use naumachia.Errors.{Error, trireme, CmlLcError, key_error}
use naumachia.Effects.{Run, ◌>>=◌, lift, return}
use naumachia.Scripts.PlutusData.Convert.{as_bytes}
use naumachia.LiveClient.Cml.{ValueLib, CmlLib}
use naumachia.LiveClient.Issue.{Keys}
use naumachia.Trireme.Host.{FilePath, Host, TomlLib, file_at}

-- Keys by the crates `bip39` and `cardano_multiplatform_lib`.
pub record KeyLib (Bip32 Key Addr : Type 0) : Type 0 where
  pub entropy_of_phrase : String → Option (List ℕ)
  pub from_bip39_entropy : List ℕ → List ℕ → Bip32
  pub derive : Bip32 → ℕ → Bip32
  pub to_raw_key : Bip32 → Key
  -- The hash of the public key, as a credential.
  pub credential : Bip32 → List ℕ
  pub base_address : ℕ → List ℕ → List ℕ → Addr

-- The crates `argon2` (of a text and a salt) and `chacha20` (of a key, a nonce and bytes), and the
-- standard library's UTF-8.
pub record CryptoLib : Type 0 where
  pub hash_raw : List ℕ → List ℕ → Option (List ℕ)
  pub apply_keystream : List ℕ → List ℕ → List ℕ → List ℕ
  pub from_utf8 : List ℕ → Option String

unfoldable pub harden : ℕ → ℕ
harden index = bit_or index 0x80000000

module _ {Bip32 Key Addr : Type 0} (lib : KeyLib Bip32 Key Addr) where
  unfoldable pub secret_phrase_to_account_key : String → Outcome CmlLcError Bip32
  unfolding harden
  secret_phrase_to_account_key phrase =
      bind (ok_or (lib.entropy_of_phrase phrase) key_error) λ entropy.
        let root_key = lib.from_bip39_entropy entropy [] in
        ok (lib.derive (lib.derive (lib.derive root_key (harden 1852)) (harden 1815)) (harden 0))

  unfoldable pub private_key_to_base_address : Bip32 → ℕ → Addr
  private_key_to_base_address account_key network =
      let pub_key = lib.derive (lib.derive account_key 0) 0 in
      let stake_key = lib.derive (lib.derive account_key 2) 0 in
      lib.base_address network (lib.credential pub_key) (lib.credential stake_key)

  -- The key that signs, of an account.
  unfoldable pub signing_key : Bip32 → Key
  signing_key account_key = lib.to_raw_key (lib.derive (lib.derive account_key 0) 0)

pub record EncryptedSecretPhrase : Type 0 where
  pub inner : List ℕ

pub record SecretPhrase : Type 0 where
  pub inner : String

module _ (crypto : CryptoLib) where
  -- The first 32 bytes of the hash; the slice panics where there are fewer.
  unfoldable pub normalize_password : String → List ℕ → Outcome Error (List ℕ)
  unfolding as_bytes
  normalize_password original salt =
      bind (ok_or (crypto.hash_raw (as_bytes original) salt) trireme)
        λ hashed. if ltb (length hashed) 32 then panic else ok (take 32 hashed)

  unfoldable pub encrypt_phrase : String → List ℕ → List ℕ → EncryptedSecretPhrase
  unfolding as_bytes
  encrypt_phrase phrase password encryption_nonce = record {
    inner = crypto.apply_keystream password encryption_nonce (as_bytes phrase);
  }

  unfoldable pub decrypt_phrase :
      EncryptedSecretPhrase → List ℕ → List ℕ → Outcome CmlLcError String
  decrypt_phrase encrypted_phrase password encryption_nonce =
      ok_or
        (crypto.from_utf8 (crypto.apply_keystream password encryption_nonce encrypted_phrase.inner))
        key_error

-- A file that is read whole, and parsed.
unfoldable pub read_keys_file : {X : Type 0} → TomlLib X → FilePath → Run Host CmlLcError X
unfolding get
read_keys_file lib path host = (
  bind (ok_or (file_at path host) key_error) λ contents. ok_or (lib.from_str contents) key_error,
  host,
)

-- `PasswordProtectedPhraseKeys`, with the password of `TerminalPasswordUpfront`.
pub record PasswordProtectedPhraseKeys : Type 0 where
  pub password : List ℕ
  pub phrase_file_path : FilePath
  pub encryption_nonce : List ℕ
  pub network : ℕ

pub record RawSecretPhraseKeys : Type 0 where
  pub phrase_file_path : FilePath
  pub network : ℕ

-- `KeyManager`
pub record KeyManager : Type 0 where
  pub config_path : FilePath
  pub network : ℕ

-- `PasswordProtectedPhraseKeys::read_phrase`
unfoldable pub read_phrase :
    CryptoLib
    → TomlLib EncryptedSecretPhrase
    → PasswordProtectedPhraseKeys
    → Run Host CmlLcError String
unfolding read_keys_file decrypt_phrase
read_phrase crypto lib keys = do
  encrypted ← read_keys_file lib keys.phrase_file_path
  lift (decrypt_phrase crypto encrypted keys.password keys.encryption_nonce)

-- `read_secret_phrase`, as a text.
unfoldable pub read_secret_phrase : TomlLib SecretPhrase → FilePath → Run Host CmlLcError String
unfolding read_keys_file
read_secret_phrase lib path = do phrase ← read_keys_file lib path; return phrase.inner

-- `load_phrase_from_file`, which panics on all errors; `phrase_of` finds the text under `phrase`.
unfoldable pub load_phrase_from_file :
    (String → Option String) → FilePath → Run Host CmlLcError String
unfolding get
load_phrase_from_file phrase_of path host =
    (bind (expect (file_at path host)) λ contents. expect (phrase_of contents), host)

module _ {V : ValueLib} {cml : CmlLib V} {Bip32 : Type 0}
    (lib : KeyLib Bip32 cml.Key cml.Addr) where
  -- The implementations of the trait `Keys`: for a way to read the phrase, and a network.
  unfoldable pub keys_of : Run Host CmlLcError String → ℕ → Keys cml Host
  unfolding secret_phrase_to_account_key private_key_to_base_address signing_key
  keys_of read network = record {
    base_addr = (do
      phrase ← read
      account_key ← lift (secret_phrase_to_account_key lib phrase)
      return (private_key_to_base_address lib account_key network));
    private_key = (do
      phrase ← read
      account_key ← lift (secret_phrase_to_account_key lib phrase)
      return (signing_key lib account_key));
  }

  unfoldable pub password_protected_keys :
      CryptoLib → TomlLib EncryptedSecretPhrase → PasswordProtectedPhraseKeys → Keys cml Host
  unfolding keys_of read_phrase
  password_protected_keys crypto toml keys = keys_of (read_phrase crypto toml keys) keys.network

  unfoldable pub raw_secret_phrase_keys : TomlLib SecretPhrase → RawSecretPhraseKeys → Keys cml Host
  unfolding keys_of read_secret_phrase
  raw_secret_phrase_keys toml keys =
      keys_of (read_secret_phrase toml keys.phrase_file_path) keys.network

  unfoldable pub key_manager : (String → Option String) → KeyManager → Keys cml Host
  unfolding keys_of load_phrase_from_file
  key_manager phrase_of keys =
      keys_of (load_phrase_from_file phrase_of keys.config_path) keys.network
