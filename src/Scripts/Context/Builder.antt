-- ===== src/Scripts/Context/Builder.antt =====
-- The builder of contexts, with its sub-builders of inputs and outputs (src/scripts/context.rs).
-- `hash` is `PlutusData::hash`, which the crate `cardano_multiplatform_lib` computes.
pub mod Inputs
pub mod Outputs
use naumachia.Prelude.{ℕ, Bool, Option, none, some, List, [], ◌∷◌, ◌++◌, String, Outcome, ok, ◌>>=◌}
use naumachia.Prelude.Int.{ℤ}
use naumachia.Address.{AddressLib}
use naumachia.Output.{Output, output_owner, typed_datum}
use naumachia.Scripts.PlutusData.{PlutusData}
use naumachia.Scripts.Context.Nested.{NestedMap}
use naumachia.Scripts.Context.{
  CtxOutputReference, CtxScriptPurpose, mint, spend, PubKeyHash, ValidRange, CtxDatum, no_datum,
  Input, CtxOutput, TxContext, ctx_value, ctx_datum,
}

pub record ContextBuilder (A : Type 0) : Type 0 where
  pub signer : PubKeyHash
  pub range : Option ValidRange
  pub inputs : List (Input A)
  pub outputs : List (CtxOutput A)
  pub extra_signatories : List PubKeyHash
  pub datums : List (List ℕ × PlutusData)

pub record CtxInputBuilder (A : Type 0) : Type 0 where
  pub outer : ContextBuilder A
  pub transaction_id : List ℕ
  pub output_index : ℕ
  pub address : A
  pub value : NestedMap
  pub datum : CtxDatum
  pub reference_script : Option (List ℕ)

pub record CtxOutputBuilder (A : Type 0) : Type 0 where
  pub outer : ContextBuilder A
  pub address : A
  pub value : NestedMap
  pub datum : CtxDatum
  pub reference_script : Option (List ℕ)

-- The range of a builder; none is no bound.
abbrev range_of : Option ValidRange → ValidRange
range_of (some range) = range
range_of none = record { lower = none; upper = none }

module _ {A : Type 0} where
  -- `ContextBuilder::new`
  abbrev pub context_builder : PubKeyHash → ContextBuilder A
  context_builder signer = record {
    signer = signer;
    range = none;
    inputs = [];
    outputs = [];
    extra_signatories = [];
    datums = [];
  }

  abbrev pub with_range :
      ContextBuilder A → Option (ℤ × Bool) → Option (ℤ × Bool) → ContextBuilder A
  with_range b lower upper = record b { range = some (record { lower = lower; upper = upper }) }

  abbrev pub with_input : ContextBuilder A → List ℕ → ℕ → A → CtxInputBuilder A
  with_input b transaction_id output_index address = record {
    outer = b;
    transaction_id = transaction_id;
    output_index = output_index;
    address = address;
    value = [];
    datum = no_datum;
    reference_script = none;
  }

  abbrev pub add_input : ContextBuilder A → Input A → ContextBuilder A
  add_input b input = record b { inputs = b.inputs ++ input ∷ [] }

  abbrev pub with_output : ContextBuilder A → A → CtxOutputBuilder A
  with_output b address = record {
    outer = b;
    address = address;
    value = [];
    datum = no_datum;
    reference_script = none;
  }

  abbrev pub add_output : ContextBuilder A → CtxOutput A → ContextBuilder A
  add_output b output = record b { outputs = b.outputs ++ output ∷ [] }

  abbrev pub add_signatory : ContextBuilder A → PubKeyHash → ContextBuilder A
  add_signatory b signer = record b { extra_signatories = b.extra_signatories ++ signer ∷ [] }

  abbrev pub add_datum :
      {D : Type 0}
      → (PlutusData → List ℕ)
      → (D → PlutusData)
      → ContextBuilder A
      → D
      → ContextBuilder A
  add_datum hash into b datum = record b {
    datums = b.datums ++ (hash (into datum), into datum) ∷ [];
  }

  module _ {D E : Type 0} ⦃lib : AddressLib A⦄ (into : D → PlutusData) where
    -- `owner` panics on an owner that does not decode.
    abbrev pub add_specific_input : ContextBuilder A → Output D → Outcome E (ContextBuilder A)
    add_specific_input b input = do
      address ← output_owner ⦃lib = lib⦄ input
      ok (
          add_input b (record {
            transaction_id = input.id.tx_hash;
            output_index = input.id.index;
            address = address;
            value = ctx_value input.values;
            datum = ctx_datum into (typed_datum input);
            reference_script = none;
          }))

    abbrev pub add_specific_output : ContextBuilder A → Output D → Outcome E (ContextBuilder A)
    add_specific_output b input = do
      address ← output_owner ⦃lib = lib⦄ input
      ok (
          add_output b (record {
            address = address;
            value = ctx_value input.values;
            datum = ctx_datum into (typed_datum input);
            reference_script = none;
          }))

  abbrev build_for : CtxScriptPurpose → ContextBuilder A → TxContext A
  build_for purpose b = record {
    purpose = purpose;
    signer = b.signer;
    range = range_of b.range;
    inputs = b.inputs;
    outputs = b.outputs;
    extra_signatories = b.extra_signatories;
    datums = b.datums;
  }

  abbrev pub build_spend : ContextBuilder A → List ℕ → ℕ → TxContext A
  build_spend b tx_id index =
      build_for (spend (record { transaction_id = tx_id; output_index = index })) b

  abbrev pub build_mint : ContextBuilder A → List ℕ → TxContext A
  build_mint b policy_id = build_for (mint policy_id) b
