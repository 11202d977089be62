-- ===== src/LiveClient/Utxo.antt =====
-- Outputs of a live ledger, and the inputs that they give
-- (src/trireme_ledger_client/cml_client.rs, src/trireme_ledger_client/cml_client/issuance_helpers.rs).
use naumachia.Prelude.{
  ℕ, ◌-◌, ltb, Bool, true, false, ◌&&◌, if◌then◌else◌, Option, none, some, List, [], ◌∷◌, String,
  Outcome, ok, err, ◌>>=◌, ok_or, map_err, u64_mod,
}
use naumachia.Address.{AddressLib}
use naumachia.Errors.{
  LedgerClientError, bad_tx_id, bad_hex, failed_to_issue_tx, cml, deserialize, ScriptError, Cause,
  no_big_enough_collateral_utxo,
}
use naumachia.Output.{Output, new_wallet, new_validator}
use naumachia.TestLedger.TxId.{HexLib}
use naumachia.LiveClient.Cml.{ValueLib, CmlLib}
use naumachia.LiveClient.Value.{as_nau_values}
use naumachia.LiveClient.Helpers.{issued}

-- The trait `PlutusDataInterop`; `to_plutus_data` can panic, and so can `from_plutus_data`.
pub record PlutusDataInterop (CmlData T : Type 0) : Type 0 where
  pub to_plutus_data : T → Outcome LedgerClientError CmlData
  pub from_plutus_data : CmlData → Outcome LedgerClientError (Option T)

pub record Utxo {V : ValueLib} (lib : CmlLib V) : Type 0 where
  pub tx_hash : lib.TxHash
  pub output_index : ℕ
  pub amount : V.Value
  pub datum : Option lib.CmlData

abbrev pub min_collateral_amt : ℕ
min_collateral_amt = 5000000

module _ {V : ValueLib} (lib : CmlLib V) where
  unfoldable pub input_tx_hash : {D : Type 0} → Output D → Outcome LedgerClientError lib.TxHash
  input_tx_hash input = issued (lib.hash_of_bytes input.id.tx_hash)

  unfoldable pub input_from_utxo : lib.Addr → Utxo lib → Outcome LedgerClientError lib.Input
  input_from_utxo my_address utxo =
      issued
        (lib.payment_key utxo.tx_hash utxo.output_index (lib.new_output my_address utxo.amount))

  unfoldable pub specify_utxos_available_for_input_selection :
      lib.Addr → List (Utxo lib) → lib.Builder → Outcome LedgerClientError lib.Builder
  unfolding input_from_utxo
  specify_utxos_available_for_input_selection my_address [] builder = ok builder
  specify_utxos_available_for_input_selection my_address (utxo ∷ utxos) builder =
      input_from_utxo my_address utxo >>= λ input.
      specify_utxos_available_for_input_selection my_address utxos (lib.add_utxo input builder)

  unfoldable pub has_no_tokens : Utxo lib → Bool
  has_no_tokens utxo = elim (V.multiasset utxo.amount) [ none ↦ true | some _ ↦ false ]

  -- Whether an output improves on the amount so far.
  unfoldable pub is_better : ℕ → ℕ → Utxo lib → Bool
  unfolding has_no_tokens
  is_better min_amount smallest_amount utxo =
      let amount = V.coin utxo.amount in
      has_no_tokens utxo && (ltb amount smallest_amount && ltb min_amount amount)

  -- The loop of `select_collateral_utxo`, with the best output so far and its amount.
  unfoldable pub smallest_above :
      ℕ → List (Utxo lib) → Option (Utxo lib) → ℕ → Option (Utxo lib) × ℕ
  unfolding is_better
  smallest_above min_amount [] smallest_utxo smallest_amount = (smallest_utxo, smallest_amount)
  smallest_above min_amount (utxo ∷ utxos) smallest_utxo smallest_amount =
      let better = is_better min_amount smallest_amount utxo in
      smallest_above min_amount utxos (if better then some utxo else smallest_utxo)
        (if better then V.coin utxo.amount else smallest_amount)

  -- The input of the output that the loop found, with its amount.
  unfoldable pub collateral_input :
      lib.Addr → Option (Utxo lib) × ℕ → Outcome LedgerClientError lib.Input
  collateral_input my_address (some utxo, smallest_amount) =
      issued (lib.output_with_coin my_address smallest_amount) >>= λ input_utxo.
      issued (lib.payment_key utxo.tx_hash utxo.output_index input_utxo)
  collateral_input my_address (none, _) = err no_big_enough_collateral_utxo

  unfoldable pub select_collateral_utxo :
      lib.Addr → List (Utxo lib) → ℕ → Outcome LedgerClientError lib.Input
  unfolding smallest_above collateral_input
  select_collateral_utxo my_address my_utxos min_amount =
      collateral_input my_address (smallest_above min_amount my_utxos none (u64_mod - 1))

  unfoldable pub add_collateral :
      lib.Addr → List (Utxo lib) → lib.Builder → Outcome LedgerClientError lib.Builder
  unfolding select_collateral_utxo
  add_collateral my_address my_utxos builder =
      select_collateral_utxo my_address my_utxos min_collateral_amt >>= λ collateral_utxo.
      issued (lib.add_collateral collateral_utxo builder)

  unfoldable pub build_tx_for_signing :
      lib.Addr → lib.Builder → Outcome LedgerClientError lib.Signed
  build_tx_for_signing my_address builder = issued (lib.build builder my_address)

  unfoldable pub sign_tx : lib.Key → lib.Signed → Outcome LedgerClientError lib.Tx
  sign_tx priv_key signed = issued (lib.build_checked (lib.add_vkey priv_key signed))

  module _ (hex : HexLib) where
    -- A script from the hex text of a validator or a policy.
    unfoldable pub script_from_hex :
        (List ℕ → Option lib.Script)
        → Outcome ScriptError String
        → Outcome LedgerClientError lib.Script
    script_from_hex from_bytes script_hex =
        map_err (λ e. failed_to_issue_tx (Cause.script e)) script_hex >>= λ text.
        ok_or (hex.decode text) (failed_to_issue_tx bad_hex) >>= λ script_bytes.
        ok_or (from_bytes script_bytes) (failed_to_issue_tx (cml deserialize))

    module _ {A D : Type 0} (addresses : AddressLib A) (from_utf8 : List ℕ → Option String)
        (datums : PlutusDataInterop lib.CmlData D) where
      -- The datum of an output, where it has one that can be read.
      unfoldable pub read_datum : Option lib.CmlData → Outcome LedgerClientError (Option D)
      read_datum none = ok none
      read_datum (some data_) = datums.from_plutus_data data_

      unfoldable pub utxo_to_nau_utxo : Utxo lib → A → Outcome LedgerClientError (Output D)
      unfolding as_nau_values read_datum new_validator new_wallet
      utxo_to_nau_utxo utxo owner =
          ok_or (hex.decode (lib.tx_hash_text utxo.tx_hash)) (bad_tx_id bad_hex) >>= λ tx_hash.
          as_nau_values V from_utf8 utxo.amount >>= λ values. read_datum utxo.datum >>= λ read.
          elim read [
            | some datum ↦
                new_validator ⦃lib = addresses⦄ tx_hash utxo.output_index owner values datum
            | none ↦ new_wallet ⦃lib = addresses⦄ tx_hash utxo.output_index owner values
          ]
