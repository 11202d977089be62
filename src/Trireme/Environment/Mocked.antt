-- ===== src/Trireme/Environment/Mocked.antt =====
-- What the set-up of an environment leaves as it was (`setup_local_mocked_env`,
-- trireme/src/environment.rs): the steps with a fake ledger.
use naumachia.Prelude.{◌≡◌, refl, ap, some, List, String, ok, ok_or, ℕ}
use naumachia.Prelude.Int.{ℤ, pos}
use naumachia.Address.{AddressLib}
use naumachia.Scripts.PlutusData.{PlutusData}
use naumachia.Effects.{◌>>=◌, lift, raised}
use naumachia.TestLedger.Persisted.{JsonLib}
use naumachia.TestLedger.Persisted.File.{init, add_new_signer}
use naumachia.Trireme.Host.{
  FilePath, Host, join, push, parent, config_file, path_to_trireme_config_dir,
  path_to_client_config_file,
}
use naumachia.Trireme.Client.{Formats}
use naumachia.Trireme.ToClient.{data_file}
use naumachia.Trireme.Environment.{naumachia_error, ledger_client_error, cli}
use naumachia.Trireme.Environment.Setup.{ask_number_or}
use naumachia.Trireme.Environment.NewEnv.{
  Drawn, alice_text, bob_text, charlotte_text, dick_text, start_balance, address_of, signer_added,
  write_mocked_env, setup_local_mocked_env,
}
use naumachia.Trireme.Environment.Frames.{
  Keeps, bind-Keeps, bind-known-Keeps, lift-Keeps, raised-Keeps, in_file-Keeps,
}
use naumachia.Trireme.Environment.Paths.{IsPlain, parent-join}
use naumachia.Trireme.Environment.Untouched.{trireme_dir, trireme_file, own_file, written-Keeps}

module _ {A D : Type 0} (home_dir : FilePath) (formats : Formats) (addresses : AddressLib A)
    (json : JsonLib String) (into : D → PlutusData) (drawn : Drawn) where
  signer_added-Keeps :
      (name : String)
      → IsPlain name
      → (who : String) (tx_hash : List ℕ) (address : A)
      → Keeps (trireme_file home_dir formats) (
          signer_added
            (some home_dir)
            formats
            addresses
            json
            into
            drawn
            (push (trireme_dir home_dir formats) name)
            tx_hash
            who
            address)
  unfolding signer_added
  signer_added-Keeps name plain who tx_hash address = raised-Keeps _ ledger_client_error (
      in_file-Keeps _ _ (add_new_signer addresses json into tx_hash who address start_balance)
        (own_file home_dir formats name plain data_file))

  ask_number-Keeps : Keeps (trireme_file home_dir formats) (ask_number_or (pos 20))
  unfolding ask_number_or
  ask_number-Keeps = record { same = λ host. refl }

  address_of-Keeps :
      (text : String)
      → Keeps
          (trireme_file home_dir formats)
          (address_of (some home_dir) formats addresses json into drawn text)
  unfolding address_of
  address_of-Keeps text = lift-Keeps _ _

  client_config_path :
      (name : String) (host : Host)
      → raised naumachia_error (path_to_client_config_file (some home_dir) name) host
        ≡ (ok (join (push (trireme_dir home_dir formats) name) config_file), host)
  unfolding path_to_client_config_file path_to_trireme_config_dir
  client_config_path name host = refl

  parent_of :
      (name : String) (host : Host)
      → lift (ok_or (parent (join (push (trireme_dir home_dir formats) name) config_file)) cli) host
        ≡ (ok (push (trireme_dir home_dir formats) name), host)
  parent_of name host =
      ap (λ dir. (ok_or dir cli, host))
        (parent-join (push (trireme_dir home_dir formats) name) config_file)

  write_mocked_env-Keeps :
      (name : String)
      → IsPlain name
      → (block_length : ℤ) (alice bob charlotte dick : A)
      → Keeps (trireme_file home_dir formats) (
          write_mocked_env
            (some home_dir)
            formats
            addresses
            json
            into
            drawn
            name
            block_length
            alice
            bob
            charlotte
            dick
            (join (push (trireme_dir home_dir formats) name) config_file)
            (push (trireme_dir home_dir formats) name))
  unfolding write_mocked_env
  write_mocked_env-Keeps name plain block_length alice bob charlotte dick =
      let storage = raised-Keeps _ ledger_client_error (
        in_file-Keeps _ _
          (init addresses json into drawn.alice_hash "Alice" alice start_balance (pos 0)
            block_length)
          (own_file home_dir formats name plain data_file)) in
      bind-Keeps _ storage λ _.
        bind-Keeps _ (signer_added-Keeps name plain "Bob" drawn.bob_hash bob) λ _.
          bind-Keeps _ (signer_added-Keeps name plain "Charlotte" drawn.charlotte_hash charlotte)
            λ _. bind-Keeps _ (signer_added-Keeps name plain "Dick" drawn.dick_hash dick) λ _.
              raised-Keeps _ naumachia_error
                (written-Keeps home_dir formats formats.clients name plain config_file _)

  pub setup_local_mocked_env-Keeps :
      (name : String)
      → IsPlain name
      → Keeps
          (trireme_file home_dir formats)
          (setup_local_mocked_env (some home_dir) formats addresses json into drawn name)
  unfolding setup_local_mocked_env
  setup_local_mocked_env-Keeps name plain =
      let dir = push (trireme_dir home_dir formats) name in
      let write = write_mocked_env (some home_dir) formats addresses json into drawn name in
      bind-Keeps _ ask_number-Keeps λ block_length.
        bind-Keeps _ (address_of-Keeps alice_text) λ alice.
          bind-Keeps _ (address_of-Keeps bob_text) λ bob.
            bind-Keeps _ (address_of-Keeps charlotte_text) λ charlotte.
              bind-Keeps _ (address_of-Keeps dick_text) λ dick.
                let write_in = write block_length alice bob charlotte dick in
                bind-known-Keeps _ (λ file. lift (ok_or (parent file) cli) >>= write_in file)
                  (join dir config_file) (client_config_path name)
                  (bind-known-Keeps _ (write_in (join dir config_file)) dir (parent_of name)
                    (write_mocked_env-Keeps name plain block_length alice bob charlotte dick))
