-- ===== src/Output.antt =====
-- Outputs of transactions (src/output.rs), and the sum of their values (src/values.rs).
pub mod Datum
pub mod Equality
pub mod Sums
use naumachia.Prelude.{
  ℕ, Bool, Option, none, some, List, [], ◌∷◌, String, Outcome, ok, panic, ◌>>=◌, expect, map,
}
use naumachia.Address.{AddressLib}
use naumachia.Errors.{OutputId}
use naumachia.Scripts.PlutusData.{PlutusData}
use naumachia.Values.{Values, empty, add_values}

-- An output that a transaction is to create.
pub data UnbuiltOutput (D : Type 0) : Type 0 where
  wallet : String → Values → UnbuiltOutput D
  validator : String → Values → D → UnbuiltOutput D

pub data DatumKind (D : Type 0) : Type 0 where
  typed : D → DatumKind D
  untyped : PlutusData → DatumKind D
  no_datum : DatumKind D

pub record Output (D : Type 0) : Type 0 where
  pub id : OutputId
  pub owner : String
  pub values : Values
  pub datum : DatumKind D

module _ {A D : Type 0} {E : Type 0} ⦃lib : AddressLib A⦄ where
  -- `UnbuiltOutput::new_wallet`; `expect` panics on an address with no bech32 form.
  unfoldable pub unbuilt_wallet : A → Values → Outcome E (UnbuiltOutput D)
  unbuilt_wallet owner values = do s ← expect (lib.to_bech32 owner); ok (wallet s values)

  -- `UnbuiltOutput::new_validator`
  unfoldable pub unbuilt_validator : A → Values → D → Outcome E (UnbuiltOutput D)
  unbuilt_validator address values datum = do
    s ← expect (lib.to_bech32 address)
    ok (validator s values datum)

  -- `UnbuiltOutput::owner`
  unfoldable pub unbuilt_owner : UnbuiltOutput D → Outcome E A
  unbuilt_owner (wallet s _) = expect (lib.from_bech32 s)
  unbuilt_owner (validator s _ _) = expect (lib.from_bech32 s)

  -- `Output::new_wallet`
  unfoldable pub new_wallet : List ℕ → ℕ → A → Values → Outcome E (Output D)
  new_wallet tx_hash index owner values = do
    addr ← expect (lib.to_bech32 owner)
    ok (record {
      id = record { tx_hash = tx_hash; index = index };
      owner = addr;
      values = values;
      datum = no_datum;
    })

  -- `Output::new_validator`
  unfoldable pub new_validator : List ℕ → ℕ → A → Values → D → Outcome E (Output D)
  new_validator tx_hash index owner values datum = do
    addr ← expect (lib.to_bech32 owner)
    ok (record {
      id = record { tx_hash = tx_hash; index = index };
      owner = addr;
      values = values;
      datum = typed datum;
    })

  -- `Output::new_untyped_validator`
  unfoldable pub new_untyped_validator : List ℕ → ℕ → A → Values → PlutusData → Outcome E (Output D)
  new_untyped_validator tx_hash index owner values datum = do
    addr ← expect (lib.to_bech32 owner)
    ok (record {
      id = record { tx_hash = tx_hash; index = index };
      owner = addr;
      values = values;
      datum = untyped datum;
    })

  -- `Output::owner`
  unfoldable pub output_owner : Output D → Outcome E A
  output_owner o = expect (lib.from_bech32 o.owner)

module _ {D : Type 0} where
  -- `UnbuiltOutput::values`
  abbrev pub unbuilt_values : UnbuiltOutput D → Values
  unbuilt_values (wallet _ values) = values
  unbuilt_values (validator _ values _) = values

  -- `UnbuiltOutput::datum`
  unfoldable pub unbuilt_datum : UnbuiltOutput D → Option D
  unbuilt_datum (wallet _ _) = none
  unbuilt_datum (validator _ _ datum) = some datum

  -- `DatumKind::unwrap_typed`
  unfoldable pub unwrap_typed : {E : Type 0} → DatumKind D → Outcome E D
  unwrap_typed (typed datum) = ok datum
  unwrap_typed _ = panic

  -- `DatumKind::unwrap_untyped`
  unfoldable pub unwrap_untyped : {E : Type 0} → DatumKind D → Outcome E PlutusData
  unwrap_untyped (untyped datum) = ok datum
  unwrap_untyped _ = panic

  -- `Option::from`, and the body of `Output::typed_datum`.
  unfoldable pub typed_of : DatumKind D → Option D
  typed_of (typed datum) = some datum
  typed_of _ = none

  unfoldable pub typed_datum : Output D → Option D
  unfolding typed_of
  typed_datum o = typed_of o.datum

  untyped_kind : (D → PlutusData) → DatumKind D → DatumKind D
  untyped_kind into (typed datum) = untyped (into datum)
  untyped_kind into (untyped d) = untyped d
  untyped_kind into no_datum = no_datum

  unfoldable pub with_untyped_datum : (D → PlutusData) → Output D → Output D
  unfolding untyped_kind
  with_untyped_datum into o = record o { datum = untyped_kind into o.datum }

  plutus_data_of : (D → PlutusData) → DatumKind D → Option PlutusData
  plutus_data_of into (typed datum) = some (into datum)
  plutus_data_of into (untyped d) = some d
  plutus_data_of into no_datum = none

  unfoldable pub datum_plutus_data : (D → PlutusData) → Output D → Option PlutusData
  unfolding plutus_data_of
  datum_plutus_data into o = plutus_data_of into o.datum

  typed_kind : (PlutusData → Option D) → DatumKind D → DatumKind D
  typed_kind try_from (typed datum) = typed datum
  typed_kind try_from (untyped d) = elim (try_from d) [
    | some datum ↦ typed datum
    | none ↦ untyped d
  ]
  typed_kind try_from no_datum = no_datum

  -- `try_from` is the datum's `TryFrom<PlutusData>`, with `None` for an error.
  unfoldable pub with_typed_datum_if_possible : (PlutusData → Option D) → Output D → Output D
  unfolding typed_kind
  with_typed_datum_if_possible try_from o = record o { datum = typed_kind try_from o.datum }

-- A fold of `add_values`, which `Values::from_outputs` and the ledger make.
unfoldable pub sum_values : Values → List Values → Values
sum_values acc [] = acc
sum_values acc (v ∷ vs) = sum_values (add_values acc v) vs

-- `Values::from_outputs`
unfoldable pub from_outputs : {D : Type 0} → List (Output D) → Values
unfolding sum_values
from_outputs outputs = sum_values empty (map (λ o. o.values) outputs)
