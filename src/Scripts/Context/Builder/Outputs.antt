-- ===== src/Scripts/Context/Builder/Outputs.antt =====
-- The sub-builder of outputs (src/scripts/context.rs).
use naumachia.Prelude.{ℕ, List, String, string_eq}
use naumachia.Scripts.PlutusData.{PlutusData}
use naumachia.Scripts.Context.{datum_hash, inline_datum}
use naumachia.Scripts.Context.Nested.{add_to_nested}
use naumachia.Scripts.Context.Builder.{ContextBuilder, CtxOutputBuilder, add_output}

module _ {A : Type 0} where
  abbrev pub with_value : CtxOutputBuilder A → String → String → ℕ → CtxOutputBuilder A
  with_value b policy_id asset_name amt = record b {
    value = add_to_nested b.value policy_id asset_name amt;
  }

  abbrev pub with_inline_datum :
      {D : Type 0} → (D → PlutusData) → CtxOutputBuilder A → D → CtxOutputBuilder A
  with_inline_datum into b datum = record b { datum = inline_datum (into datum) }

  abbrev pub with_datum_hash : CtxOutputBuilder A → List ℕ → CtxOutputBuilder A
  with_datum_hash b hash = record b { datum = datum_hash hash }

  abbrev pub with_datum_hash_from_datum :
      {D : Type 0}
      → (PlutusData → List ℕ)
      → (D → PlutusData)
      → CtxOutputBuilder A
      → D
      → CtxOutputBuilder A
  with_datum_hash_from_datum hash into b datum = record b { datum = datum_hash (hash (into datum)) }

  abbrev pub finish_output : CtxOutputBuilder A → ContextBuilder A
  finish_output b = add_output b.outer (record {
    address = b.address;
    value = record { inner = b.value };
    datum = b.datum;
    reference_script = b.reference_script;
  })
