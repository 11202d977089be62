-- ===== src/LiveClient/Versions.antt =====
-- What each version of a transaction carries to a live ledger (src/trireme_ledger_client/cml_client.rs).
use naumachia.Prelude.{String, ℕ, ◌^◌, ◌<◌, ◌≡◌, refl, List, some, ok}
use naumachia.Prelude.Int.{pos}
use naumachia.Errors.{LedgerClientError}
use naumachia.Effects.{Run, ◌>>=◌, raised}
use naumachia.Output.{Output}
use naumachia.Transaction.{UnbuiltTransaction, Range, TransactionVersion, v1}
use naumachia.LiveClient.Cml.{ValueLib, CmlLib}
use naumachia.LiveClient.Utxo.{Utxo}
use naumachia.LiveClient.NetworkSettings.{Network, settings_of, posix_from_slot}
use naumachia.LiveClient.NetworkSettings.Networks.{slot_from_posix-of_network}
use naumachia.LiveClient.Issue.{CmlLedgerClient, as_failed_to_issue_tx, set_valid_range, set_bound}
use naumachia.LiveClient.Submit.{issue, issue_by, issue_v1_tx, prepare_v1}

module _ {V : ValueLib} {lib : CmlLib V} {A D R S : Type 0} (c : CmlLedgerClient lib A D R S) where
  issue_by-v1 :
      (version : TransactionVersion) (tx : UnbuiltTransaction A D R) (r : Range)
      (inputs : List (Output D)) (utxos : List (Utxo lib)) (address : lib.Addr) (key : lib.Key)
      (s : S)
      → version ≡ v1
      → issue_by c version
          (record tx { valid_range = r; specific_wallet_inputs = inputs })
          utxos
          address
          key
          s
        ≡ issue_by c version tx utxos address key s
  unfolding issue_by issue_v1_tx prepare_v1
  issue_by-v1 v1 tx r inputs utxos address key s h = refl
  issue_by-v1 TransactionVersion.v2 tx r inputs utxos address key s h = cc

  -- The issuing of a transaction, but for what is done with the signer's outputs, address and key.
  abbrev issued_by :
      (List (Utxo lib) → lib.Addr → lib.Key → Run S LedgerClientError String)
      → Run S LedgerClientError String
  issued_by send = raised as_failed_to_issue_tx c.keys.base_addr >>= λ my_address.
      raised as_failed_to_issue_tx c.keys.private_key >>= λ priv_key.
      raised as_failed_to_issue_tx (c.ledger.get_all_utxos_for_addr my_address) >>= λ my_utxos.
      send my_utxos my_address priv_key

  -- A V1 transaction is issued without its validity range and without the inputs that it names:
  -- whatever they are, the outcome and the ledger are the same.
  pub issue-v1 :
      (tx : UnbuiltTransaction A D R) (r : Range) (inputs : List (Output D)) (s : S)
      → tx.script_version ≡ v1
      → issue c (record tx { valid_range = r; specific_wallet_inputs = inputs }) s ≡ issue c tx s
  unfolding issue
  issue-v1 tx r inputs s h i =
      issued_by
        (λ utxos address key t. issue_by-v1 tx.script_version tx r inputs utxos address key t h i) s

  -- For the settings of a network, a V2 transaction with two bounds that are non-negative times of
  -- type i64 is valid from the slot of the first on and to the slot of the second, and these slots'
  -- times are the bounds.
  pub set_valid_range-slots :
      (n : Network) (tx : UnbuiltTransaction A D R) (builder : lib.Builder) (from to : ℕ)
      → c.network_settings ≡ settings_of n
      → tx.valid_range ≡ (some (pos from), some (pos to))
      → from < 2 ^ 63
      → to < 2 ^ 63
      → (first : ℕ) × (last : ℕ) × (set_valid_range c tx builder
          ≡ ok (lib.set_ttl last (lib.set_validity_start_interval first builder)))
        × (posix_from_slot (settings_of n) first ≡ pos from)
        × (posix_from_slot (settings_of n) last ≡ pos to)
  unfolding set_valid_range set_bound
  set_valid_range-slots n tx builder from to settled ranged h k =
      let (first, e, p) = slot_from_posix-of_network {E = LedgerClientError} n from h in
      let (last, f, q) = slot_from_posix-of_network {E = LedgerClientError} n to k in
      (first, last, rw (set_valid_range, ranged, settled, e, f) refl, p, q)
