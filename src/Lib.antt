-- ===== src/Lib.antt =====
-- Naumachia, a framework for Cardano smart contracts: the data that a contract's logic works with,
-- the transactions that it declares, and the fake ledger on which contracts are tested.
--
-- Parts and files, with the code they model (paths from the repository's root):
--   Values, Values/       bags of tokens: src/values.rs
--   PolicyId              src/policy_id.rs
--   Output, Output/       built and unbuilt outputs with their datums: src/output.rs
--   Transaction           `TxActions` and `to_unbuilt_tx`: src/transaction.rs and
--                         src/transaction/nested_value_map.rs
--   Scripts, Scripts/     the traits for scripts: src/scripts.rs; compiled scripts (Compiled):
--                         src/scripts/raw_script.rs, plutus_validator.rs and
--                         plutus_minting_policy.rs beside it; Plutus data:
--                         src/scripts/plutus_validator/plutus_data.rs; the context of a script, and
--                         its builders: src/scripts/context.rs
--   TestLedger, TestLedger/
--                         the fake ledger: src/ledger_client/test_ledger_client.rs, its storage in
--                         memory: src/ledger_client/test_ledger_client/in_memory_storage.rs, and
--                         `balance_at_address` of src/ledger_client.rs. Issue has `issue`, in the
--                         two phases it has in the code: `check_tx` reads and runs the scripts,
--                         `settle_tx` writes. Inputs has its loops over script inputs and minting,
--                         Contexts what the scripts are shown, Builder the builders of a ledger,
--                         Persisted the storage in a file:
--                         src/ledger_client/test_ledger_client/local_persisted_storage.rs; Client
--                         makes a ledger client of it.
--   LedgerClient          the interface of a ledger client: src/ledger_client.rs
--   SmartContract         `hit_endpoint` and `lookup`: src/smart_contract.rs, src/logic.rs
--   Logic                 what the dApps share: src/logic/error.rs, nau-scripts/src/one_shot.rs
--   CheckingAccount, CheckingAccount/
--                         sample-dApps/checking_account/src: Datum the datums, Owner and Pull the
--                         endpoints, Lookups the lookup, Dispatch the choice between them
--   TimeLocked, AlwaysSucceeds, Game, Minting
--                         the other dApps of sample-dApps
--   LiveClient, LiveClient/
--                         the client of a live ledger, src/trireme_ledger_client/cml_client.rs and
--                         cml_client/ beside it: NetworkSettings has slots and times, Value the bags
--                         of tokens, Helpers, Utxo and Issue the steps of a transaction
--                         (issuance_helpers.rs), Submit the calls of the client; Cml is the interface
--                         to the crate `cardano_multiplatform_lib`
--   Trireme, Trireme/     environments, src/trireme_ledger_client.rs: Config the configuration, Host
--                         files, answers and the disk, Keys the secret phrases (secret_phrase.rs,
--                         raw_secret_phrase.rs and terminal_password_phrase.rs beside it), Client and
--                         ToClient the client of an environment; Environment and Balance the commands
--                         of trireme/src
--   Effects               calls with a state and an outcome
--   Errors                src/error.rs and the error enums of the other files
--   Address               the interface to the crate `pallas_addresses`
--   Prelude, HashMap      numbers, results, and maps as the Rust standard library has them
--   Fixtures, Tests       a small ledger, and the properties applied to it
--
-- A contract's logic (SmartContract.ScLogic, which each dApp fills) reads from a ledger client and
-- declares actions (Transaction), which come to an unbuilt transaction. The fake ledger checks it
-- against its storage (TestLedger.Storage is the interface of a storage, which TestLedger.InMemory and
-- TestLedger.Persisted implement), runs the validators and minting policies on contexts
-- (Scripts.Context), weighs bags of tokens (Values) and writes the outputs that remain. The
-- client of a live ledger builds, signs and submits it (LiveClient.Submit); Trireme chooses between
-- the two by the current environment (Trireme.ToClient).
--
-- How the code is read:
--   * u64 and i64 arithmetic wraps, as compiled without overflow checks; `usize` does not.
--   * a `HashMap` is an association list with at most one entry for a key. The code iterates it in
--     an order of its own; here that is the order of the list.
--   * a call that panics (`expect`, `unwrap`) ends in `panic`, an outcome beside `ok` and `err`.
--   * a call on the ledger takes the state of the storage and returns it, also after an error;
--     asynchronous calls run one after the other, and no lock is contended.
--   * loops are recursions on the list they go through, so there is no fuel.
--   * the state of a command is the files of the machine, by their paths, and the answers that the
--     user gives next; a prompt that finds no answer ends in the terminal's error. The loop that asks
--     for a password again is a recursion on the answers. Where the prompt has no default an empty
--     line is asked for again, as the crate `dialoguer` does.
--   * a path is the list of names that the operating system takes it for, without symbolic links: a
--     name that the user gives may be absolute, hold slashes, or be one or two dots. A write of a
--     TOML file is done, refused, or cut after the file was emptied, as the machine's disk has it,
--     write by write; reads of files that are there succeed, and so do the fake ledger's own writes.
--     A directory is there where a file is below it, and then its removal succeeds.
--   * the random hash of a transaction, addresses and their text form, hex text, the hash of a
--     datum, SHA-256, JSON, TOML, floating-point numbers, the machine that runs compiled scripts,
--     the Cardano multiplatform library, passwords' hashes, ciphers, and the salts and nonces that
--     are drawn are parameters; the text of an error is left out.
--
-- Not modelled: the command lines of the dApps and the parsing of arguments; and, since they are
-- calls of other systems, the ledgers of Blockfrost, Ogmios and Scrolls
-- (src/trireme_ledger_client/cml_client/blockfrost_ledger.rs, ogmios_scrolls_ledger.rs) with their
-- forms of Plutus data, and the hash and bytes of Plutus data.
pub mod Prelude
pub mod HashMap
pub mod PolicyId
pub mod Errors
pub mod Effects
pub mod LedgerClient
pub mod SmartContract
pub mod Logic
pub mod CheckingAccount
pub mod TimeLocked
pub mod AlwaysSucceeds
pub mod Game
pub mod Minting
pub mod LiveClient
pub mod Trireme
pub mod Values
pub mod Address
pub mod Scripts
pub mod Output
pub mod Transaction
pub mod TestLedger
pub mod Fixtures
pub mod Tests
