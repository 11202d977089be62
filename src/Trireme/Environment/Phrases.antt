-- ===== src/Trireme/Environment/Phrases.antt =====
-- A secret phrase that was written under a password, and read again
-- (src/trireme_ledger_client/terminal_password_phrase.rs, trireme/src/environment.rs).
use naumachia.Prelude.{
  ◌≡◌, refl, sym, ap, ◌∙◌, Option, none, some, List, ◌∷◌, [], String, ok, ok-inj, ==-refl, ok_or, ℕ,
  list_eq, string_eq,
}
use naumachia.HashMap.{insert}
use naumachia.HashMap.Laws.{get-insert}
use naumachia.Errors.{CmlLcError, toml}
use naumachia.Effects.{Run, ◌>>=◌, lift, return, >>=-eq-ok, >>=-of-ok}
use naumachia.Scripts.PlutusData.Convert.{as_bytes}
use naumachia.Trireme.Host.{
  FilePath, Host, TomlLib, Written, done, refused, cut, parent, wrote, write_file,
  write_toml_struct_to_file, path_to_trireme_config_dir, join, push, trireme_config_folder,
}
use naumachia.Trireme.Keys.{
  CryptoLib, EncryptedSecretPhrase, encrypt_phrase, decrypt_phrase, read_keys_file, read_phrase,
}
use naumachia.Trireme.Client.{Formats}
use naumachia.Trireme.Environment.Setup.{
  env_file, raw_phrase_file, write_secret_phrase_with_password,
}

-- What the crate `toml` documents: what was written is read.
abbrev pub ReadsBack : {X : Type 0} → TomlLib X → Type 0
ReadsBack {X} lib = (x : X) (t : String) → lib.to_string x ≡ some t → lib.from_str t ≡ some x

-- What `chacha20` documents: the key stream applied twice is no change.
abbrev pub IsStream : CryptoLib → Type 0
IsStream crypto =
    (key nonce bytes : List ℕ)
    → crypto.apply_keystream key nonce (crypto.apply_keystream key nonce bytes) ≡ bytes

pub decrypt_phrase-encrypt_phrase :
    (crypto : CryptoLib)
    → IsStream crypto
    → (phrase : String) (password nonce : List ℕ) → crypto.from_utf8 (as_bytes phrase) ≡ some phrase
    → decrypt_phrase crypto (encrypt_phrase crypto phrase password nonce) password nonce ≡ ok phrase
unfolding decrypt_phrase encrypt_phrase
decrypt_phrase-encrypt_phrase crypto stream phrase password nonce utf8 =
    rw (stream password nonce (as_bytes phrase), utf8) refl

-- A write that returned, whatever else the disk was to do.
wrote-eq-ok :
    (disk : List Written) (path : FilePath) (t : String) (host : Host) {u : Unit {0}} {host' : Host}
    → wrote disk path t host ≡ (ok u, host')
    → host'.files ≡ insert path t host.files
unfolding wrote
wrote-eq-ok [] path t host h = sym (ap (λ x. x.1.files) h)
wrote-eq-ok (done ∷ later) path t host h = sym (ap (λ x. x.1.files) h)
wrote-eq-ok (refused ∷ later) path t host h = absurd (cc (ap (λ x. x.0) h))
wrote-eq-ok (cut part ∷ later) path t host h = absurd (cc (ap (λ x. x.0) h))

-- The steps of a write, by the text of the struct and the directory.
write-at :
    (text : Option String) (dir : Option FilePath) (path : FilePath) (host : Host) {u : Unit {0}}
    {host' : Host}
    → (lift (ok_or text toml) >>= λ serialized.
          lift (ok_or dir toml) >>= λ _. write_file path serialized)
        host
      ≡ (ok u, host')
    → (t : String) × (text ≡ some t) × (host'.files ≡ insert path t host.files)
unfolding write_file
write-at (some t) (some dir) path host h = (t, refl, wrote-eq-ok host.disk path t host h)
write-at (some t) none path host h = absurd (cc (ap (λ x. x.0) h))
write-at none dir path host h = absurd (cc (ap (λ x. x.0) h))

-- A write that returned inserted the text of the struct, and did no more.
pub write_toml_struct_to_file-eq-ok :
    {X : Type 0} (lib : TomlLib X) (path : FilePath) (x : X) (host : Host) {u : Unit {0}}
    {host' : Host}
    → write_toml_struct_to_file lib path x host ≡ (ok u, host')
    → (t : String) × (lib.to_string x ≡ some t) × (host'.files ≡ insert path t host.files)
unfolding write_toml_struct_to_file parent
write_toml_struct_to_file-eq-ok lib path x host h =
    write-at (lib.to_string x) (parent path) path host h

-- What a file that was written is read as.
pub read_keys_file-written :
    {X : Type 0} (lib : TomlLib X) (path : FilePath) (x : X) (t : String) (host host' : Host)
    → ReadsBack lib
    → lib.to_string x ≡ some t
    → host'.files ≡ insert path t host.files
    → read_keys_file lib path host' ≡ (ok x, host')
unfolding read_keys_file
read_keys_file-written lib path x t host host' reads written inserted =
    rw (inserted, get-insert path path t host.files, ==-refl path, reads x t written) refl

-- A write of a phrase that returned: it inserted the encrypted phrase at the path that it returned.
write_secret_phrase_with_password-eq-ok :
    (home : Option FilePath) (formats : Formats) (crypto : CryptoLib) (phrase sub_dir : String)
    (password nonce : List ℕ) {path : FilePath} (host : Host) {host' : Host}
    → write_secret_phrase_with_password home formats crypto phrase sub_dir password nonce host
      ≡ (ok path, host')
    → (t : String) × (formats.encrypted_phrases.to_string
          (encrypt_phrase crypto phrase password nonce)
        ≡ some t)
      × (host'.files ≡ insert path t host.files)
unfolding write_secret_phrase_with_password env_file path_to_trireme_config_dir
write_secret_phrase_with_password-eq-ok none formats crypto phrase sub_dir password nonce host h =
    absurd (cc (ap (λ x. x.0) h))
write_secret_phrase_with_password-eq-ok (some dir) formats crypto phrase sub_dir password nonce
      {path} host h =
    let file_path : FilePath =
      join (push (join dir trireme_config_folder) sub_dir) raw_phrase_file in
    let phrase_struct = encrypt_phrase crypto phrase password nonce in
    let write = write_toml_struct_to_file formats.encrypted_phrases file_path phrase_struct in
    let (_, returned, later) = >>=-eq-ok write (λ _. return file_path) host h in
    let (t, text, inserted) =
      write_toml_struct_to_file-eq-ok formats.encrypted_phrases file_path phrase_struct host
        (λ i. (returned i, (write host).1)) in
    let same : file_path ≡ path = ok-inj (ap (λ x. x.0) later) in
    (t, text, sym (ap (λ x. x.1.files) later) ∙ inserted ∙ ap (λ q. insert q t host.files) same)

-- A phrase that is written under a password and a nonce is the phrase that the keys of that file,
-- with the same password and nonce, read, whatever the environment's name and the network.
pub write_secret_phrase_with_password-read_phrase :
    (home : Option FilePath) (formats : Formats) (crypto : CryptoLib)
    → IsStream crypto
    → ReadsBack formats.encrypted_phrases
    → (phrase sub_dir : String) (password nonce : List ℕ) (network : ℕ) (path : FilePath)
      (host host' : Host)
    → crypto.from_utf8 (as_bytes phrase) ≡ some phrase
    → write_secret_phrase_with_password home formats crypto phrase sub_dir password nonce host
      ≡ (ok path, host')
    → read_phrase crypto formats.encrypted_phrases
        (record {
          password = password;
          phrase_file_path = path;
          encryption_nonce = nonce;
          network = network;
        })
        host'
      ≡ (ok phrase, host')
unfolding read_phrase
write_secret_phrase_with_password-read_phrase home formats crypto stream reads phrase sub_dir
      password nonce network path host host' utf8 h =
    let (t, text, inserted) =
      write_secret_phrase_with_password-eq-ok home formats crypto phrase sub_dir password nonce host
        h in
    let encrypted = encrypt_phrase crypto phrase password nonce in
    let decrypt : EncryptedSecretPhrase → Run Host CmlLcError String =
      λ e. lift (decrypt_phrase crypto e password nonce) in
    let reading =
      read_keys_file-written formats.encrypted_phrases path encrypted t host host' reads text
        inserted in
    >>=-of-ok (read_keys_file formats.encrypted_phrases path) decrypt _ reading
    ∙ ap (λ r. (r, host')) (decrypt_phrase-encrypt_phrase crypto stream phrase password nonce utf8)
