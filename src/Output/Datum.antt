-- ===== src/Output/Datum.antt =====
-- Datums with and without their type (src/output.rs).
use naumachia.Prelude.{◌≡◌, Option, none, some, arith}
use naumachia.Scripts.PlutusData.{PlutusData}
use naumachia.Output.{
  Output, typed, with_untyped_datum, with_typed_datum_if_possible, typed_datum, datum_plutus_data,
}

module _ {D : Type 0} (into : D → PlutusData) (try_from : PlutusData → Option D) where
  -- Where every datum can be read back from its data, an output with a typed datum survives the
  -- loss of the type and its recovery unchanged, and on the way its data is seen
  -- alike, and no typed datum is seen.
  pub typed-untyped :
      ((d : D) → try_from (into d) ≡ some d)
      → (o : Output D) (d : D) → o.datum ≡ typed d
      → (with_typed_datum_if_possible try_from (with_untyped_datum into o) ≡ o)
        × (datum_plutus_data into (with_untyped_datum into o) ≡ datum_plutus_data into o)
        × (typed_datum (with_untyped_datum into o) ≡ none)
  unfolding with_typed_datum_if_possible with_untyped_datum datum_plutus_data typed_datum
  typed-untyped reads o d e = ground (arith, reads d)
