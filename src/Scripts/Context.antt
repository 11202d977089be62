-- ===== src/Scripts/Context.antt =====
-- The context that a script sees (src/scripts/context.rs): its types, its values, its builder.
pub mod Nested
pub mod Builder
pub mod Amounts
use naumachia.Prelude.{ℕ, Bool, Option, none, some, List, [], ◌∷◌, ◌++◌, String}
use naumachia.Prelude.Int.{ℤ}
use naumachia.HashMap.{HashMap}
use naumachia.Address.{AddressLib}
use naumachia.Values.{Values}
use naumachia.Scripts.PlutusData.{PlutusData}
use Nested.{ctx_inner}

pub record CtxOutputReference : Type 0 where
  pub transaction_id : List ℕ
  pub output_index : ℕ

pub data CtxScriptPurpose : Type 0 where
  mint : List ℕ → CtxScriptPurpose
  spend : CtxOutputReference → CtxScriptPurpose
  withdraw_from publish : CtxScriptPurpose

pub record PubKeyHash : Type 0 where
  pub bytes : List ℕ

-- The payment hash of a Shelley address.
unfoldable pub pub_key_hash_from_address_if_available :
    {A : Type 0} ⦃lib : AddressLib A⦄ → A → Option PubKeyHash
pub_key_hash_from_address_if_available ⦃lib⦄ address = elim (lib.payment_hash address) [
  | none ↦ none
  | some hash ↦ some (record { bytes = hash })
]

-- Bounds in milliseconds, each with whether it is inclusive.
pub record ValidRange : Type 0 where
  pub lower : Option (ℤ × Bool)
  pub upper : Option (ℤ × Bool)

-- Amounts by policy id and asset name.
pub record CtxValue : Type 0 where
  pub inner : HashMap String (HashMap String ℕ)

pub data CtxDatum : Type 0 where
  no_datum : CtxDatum
  datum_hash : List ℕ → CtxDatum
  inline_datum : PlutusData → CtxDatum

pub record Input (A : Type 0) : Type 0 where
  pub transaction_id : List ℕ
  pub output_index : ℕ
  pub address : A
  pub value : CtxValue
  pub datum : CtxDatum
  pub reference_script : Option (List ℕ)

pub record CtxOutput (A : Type 0) : Type 0 where
  pub address : A
  pub value : CtxValue
  pub datum : CtxDatum
  pub reference_script : Option (List ℕ)

pub record TxContext (A : Type 0) : Type 0 where
  pub purpose : CtxScriptPurpose
  pub signer : PubKeyHash
  pub range : ValidRange
  pub inputs : List (Input A)
  pub outputs : List (CtxOutput A)
  pub extra_signatories : List PubKeyHash
  pub datums : List (List ℕ × PlutusData)

-- `CtxValue::from`
unfoldable pub ctx_value : Values → CtxValue
unfolding ctx_inner
ctx_value v = record { inner = ctx_inner [] v.values }

-- `CtxDatum::from`, of an optional datum.
unfoldable pub ctx_datum : {D : Type 0} → (D → PlutusData) → Option D → CtxDatum
ctx_datum into none = no_datum
ctx_datum into (some d) = inline_datum (into d)
