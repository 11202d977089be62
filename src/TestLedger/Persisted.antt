-- ===== src/TestLedger/Persisted.antt =====
-- The storage in a file (src/ledger_client/test_ledger_client/local_persisted_storage.rs). The state
-- is the contents of the file `data`, of a type `T` of texts, and nothing where there is no file; the
-- file system's own calls succeed. Panics are those of `unwrap`, `expect` and `panic!`.
pub mod File
pub mod Json
pub mod Stored
pub mod Refines
use naumachia.Prelude.{
  ℕ, zero, suc, ◌-◌, ◌≡◌, Bool, ◌&&◌, Option, none, some, List, [], ◌∷◌, ◌++◌, String,
  if◌then◌else◌, ltb, map, Outcome, ok, err, panic, expect, ok_or, true, false, Eq, ◌==◌, string_eq,
  option_eq,
}
use naumachia.Prelude.{◌>>=◌ as bind}
use naumachia.Prelude.Int.{ℤ, pos}
use naumachia.HashMap.{HashMap, get, insert}
use naumachia.Address.{AddressLib, testnet}
use naumachia.Errors.{
  LedgerClientError, bad_address, bad_bech32, failed_to_retrieve_output_with_id, local_persisted_lc,
  listed_twice, OutputId,
}
use naumachia.PolicyId.{lovelace}
use naumachia.Values.{Values, empty, add_one_value}
use naumachia.Scripts.PlutusData.{PlutusData, plutus_data_eq}
use naumachia.Output.{
  Output, new_wallet, new_untyped_validator, output_owner, datum_plutus_data,
  with_typed_datum_if_possible,
}
use naumachia.Output.Equality.{id_beq, values_beq}
use naumachia.TestLedger.Ledger.{Ledger, ◌>>=◌, lift, return}
use naumachia.TestLedger.Storage.{TestLedgerStorage}

pub record LdOutput : Type 0 where
  pub id : OutputId
  pub owner : String
  pub values : Values
  pub datum : Option PlutusData

pub record LedgerData : Type 0 where
  pub active_signer_name : String
  pub active_signer : String
  pub signers : HashMap String String
  pub outputs : List LdOutput
  pub current_time : ℤ
  pub block_length : ℤ

-- The derived `PartialEq`.
unfoldable pub ld_output_beq : LdOutput → LdOutput → Bool
unfolding values_beq
ld_output_beq a b =
    id_beq a.id b.id && (a.owner == b.owner) && values_beq a.values b.values && (a.datum == b.datum)

-- The crate `serde_json` at `LedgerData`, with `None` for an error.
pub record JsonLib (T : Type 0) : Type 0 where
  pub to_string : LedgerData → Option T
  pub from_str : T → Option LedgerData

module _ {A : Type 0} (lib : AddressLib A) where
  -- `LDOutput::from`
  unfoldable pub ld_output : {D E : Type 0} → (D → PlutusData) → Output D → Outcome E LdOutput
  unfolding output_owner datum_plutus_data
  ld_output into output = bind (output_owner ⦃lib = lib⦄ output) λ address.
      bind (expect (lib.to_bech32 address)) λ owner. ok (record {
        id = output.id;
        owner = owner;
        values = output.values;
        datum = datum_plutus_data into output;
      })

  -- `Output::from`
  unfoldable pub output_of : {D E : Type 0} → LdOutput → Outcome E (Output D)
  unfolding new_untyped_validator new_wallet
  output_of value = bind (expect (lib.from_bech32 value.owner)) λ owner. elim value.datum [
    | some datum ↦
        new_untyped_validator ⦃lib = lib⦄ value.id.tx_hash value.id.index owner value.values datum
    | none ↦ new_wallet ⦃lib = lib⦄ value.id.tx_hash value.id.index owner value.values
  ]

  -- `LedgerData::new`
  unfoldable pub new_ledger_data : {E : Type 0} → String → A → ℤ → Outcome E LedgerData
  unfolding insert
  new_ledger_data signer_name signer_address block_length =
      bind (expect (lib.to_bech32 signer_address)) λ address_bech_32. ok (record {
        active_signer_name = signer_name;
        active_signer = address_bech_32;
        signers = insert signer_name address_bech_32 [];
        outputs = [];
        current_time = pos 0;
        block_length = block_length;
      })

  -- `LedgerData::add_output`
  unfoldable pub data_add_output :
      {D E : Type 0} → (D → PlutusData) → LedgerData → Output D → Outcome E LedgerData
  unfolding ld_output
  data_add_output into ledger_data output =
      bind (ld_output into output)
        λ ld. ok (record ledger_data { outputs = ledger_data.outputs ++ ld ∷ [] })

  -- `LedgerData::add_signer`
  unfoldable pub data_add_signer : {E : Type 0} → LedgerData → String → A → Outcome E LedgerData
  unfolding insert
  data_add_signer ledger_data name address =
      bind (expect (lib.to_bech32 address)) λ address_bech_32.
        ok (record ledger_data { signers = insert name address_bech_32 ledger_data.signers })

  -- `starting_output`; `tx_hash` is the random id.
  unfoldable pub starting_output : {D E : Type 0} → List ℕ → A → ℕ → Outcome E (Output D)
  unfolding new_wallet add_one_value
  starting_output tx_hash owner amount =
      new_wallet ⦃lib = lib⦄ tx_hash 0 owner (add_one_value empty lovelace amount)

  -- The outputs at an address, of those in the file.
  unfoldable pub outputs_at :
      {D E : Type 0} → (PlutusData → Option D) → A → List LdOutput → Outcome E (List (Output D))
  unfolding output_of output_owner with_typed_datum_if_possible
  outputs_at try_from address [] = ok []
  outputs_at try_from address (ld ∷ outputs) = bind (output_of ld) λ output.
      bind (output_owner ⦃lib = lib⦄ output) λ owner.
        bind (outputs_at try_from address outputs) λ rest. ok (
          if lib.address_eq.beq owner address
          then with_typed_datum_if_possible try_from output ∷ rest
          else rest)

  -- The first `count` of them: the outputs after these are not looked at.
  unfoldable pub first_outputs_at :
      {D E : Type 0} → (PlutusData → Option D) → A → ℕ → List LdOutput → Outcome E (List (Output D))
  unfolding output_of output_owner with_typed_datum_if_possible
  first_outputs_at try_from address count [] = ok []
  first_outputs_at try_from address zero (ld ∷ outputs) = ok []
  first_outputs_at try_from address (suc count) (ld ∷ outputs) = bind (output_of ld) λ output.
      bind (output_owner ⦃lib = lib⦄ output) λ owner. elim (lib.address_eq.beq owner address) [
        | true ↦
            bind (first_outputs_at try_from address count outputs)
              λ rest. ok (with_typed_datum_if_possible try_from output ∷ rest)
        | false ↦ first_outputs_at try_from address (suc count) outputs
      ]

-- `LedgerData::switch_signer`
unfoldable pub data_switch_signer : {E : Type 0} → LedgerData → String → Outcome E LedgerData
unfolding get
data_switch_signer ledger_data name =
    bind (expect (get name ledger_data.signers))
      λ address. ok (record ledger_data { active_signer_name = name; active_signer = address })

-- The outputs without the first that equals the given one.
unfoldable pub take_ld : LdOutput → List LdOutput → Option (List LdOutput)
unfolding ld_output_beq
take_ld output [] = none
take_ld output (x ∷ outputs) =
    let rest = take_ld output outputs in
    if ld_output_beq x output
    then some outputs
    else elim rest [ none ↦ none | some left ↦ some (x ∷ left) ]

-- The errors of a search and of an address.
abbrev pub taken : OutputId → Option (List LdOutput) → Outcome LedgerClientError (List LdOutput)
taken id left = ok_or left (failed_to_retrieve_output_with_id id (local_persisted_lc listed_twice))

abbrev pub ok_or_bad_address : {A : Type 0} → Option A → Outcome LedgerClientError A
ok_or_bad_address address = ok_or address (bad_address bad_bech32)
