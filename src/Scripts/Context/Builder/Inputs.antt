-- ===== src/Scripts/Context/Builder/Inputs.antt =====
-- The sub-builder of inputs (src/scripts/context.rs).
use naumachia.Prelude.{ℕ, List, String, string_eq}
use naumachia.Scripts.PlutusData.{PlutusData}
use naumachia.Scripts.Context.{datum_hash, inline_datum}
use naumachia.Scripts.Context.Nested.{add_to_nested}
use naumachia.Scripts.Context.Builder.{ContextBuilder, CtxInputBuilder, add_input}

module _ {A : Type 0} where
  abbrev pub with_value : CtxInputBuilder A → String → String → ℕ → CtxInputBuilder A
  with_value b policy_id asset_name amt = record b {
    value = add_to_nested b.value policy_id asset_name amt;
  }

  abbrev pub with_inline_datum :
      {D : Type 0} → (D → PlutusData) → CtxInputBuilder A → D → CtxInputBuilder A
  with_inline_datum into b datum = record b { datum = inline_datum (into datum) }

  abbrev pub with_datum_hash : CtxInputBuilder A → List ℕ → CtxInputBuilder A
  with_datum_hash b hash = record b { datum = datum_hash hash }

  abbrev pub with_datum_hash_from_datum :
      {D : Type 0}
      → (PlutusData → List ℕ)
      → (D → PlutusData)
      → CtxInputBuilder A
      → D
      → CtxInputBuilder A
  with_datum_hash_from_datum hash into b datum = record b { datum = datum_hash (hash (into datum)) }

  abbrev pub finish_input : CtxInputBuilder A → ContextBuilder A
  finish_input b = add_input b.outer (record {
    transaction_id = b.transaction_id;
    output_index = b.output_index;
    address = b.address;
    value = record { inner = b.value };
    datum = b.datum;
    reference_script = b.reference_script;
  })
