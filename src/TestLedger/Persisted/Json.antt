-- ===== src/TestLedger/Persisted/Json.antt =====
-- What has a JSON form (src/ledger_client/test_ledger_client/local_persisted_storage.rs).
use naumachia.Prelude.{◌≡◌, none, some, All}
use naumachia.Scripts.PlutusData.{
  PlutusData, constr, big_int, bounded_bytes, array, Items, nil, cons, end, entry,
}
use naumachia.Scripts.PlutusData.{map as map_data}
use naumachia.TestLedger.Persisted.{LdOutput, LedgerData, JsonLib}

unfoldable mutual
  -- Data that has a JSON form: a map's keys are not texts, so only the empty map has one.
  pub HasNoMap : PlutusData → Type 0
  HasNoMap (constr _ fields) = HaveNoMap fields
  HasNoMap (map_data end) = Unit {0}
  HasNoMap (map_data (entry _ _ _)) = ⊥
  HasNoMap (big_int _) = Unit {0}
  HasNoMap (bounded_bytes _) = Unit {0}
  HasNoMap (array items) = HaveNoMap items

  pub HaveNoMap : Items → Type 0
  HaveNoMap nil = Unit {0}
  HaveNoMap (cons x xs) = HasNoMap x × HaveNoMap xs

unfoldable pub HasJson : LdOutput → Type 0
HasJson o = elim o.datum [ none ↦ Unit {0} | some d ↦ HasNoMap d ]

-- What `serde_json` documents: data without other maps than ones keyed by texts is written, and what
-- was written is read.
pub record IsJson {T : Type 0} (json : JsonLib T) : Type 0 where
  pub written :
      (contents : LedgerData)
      → All HasJson contents.outputs
      → (t : T) × (json.to_string contents ≡ some t)
  pub read :
      (contents : LedgerData) (t : T)
      → json.to_string contents ≡ some t
      → json.from_str t ≡ some contents
