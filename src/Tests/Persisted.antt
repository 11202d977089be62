-- ===== src/Tests/Persisted.antt =====
-- The storage in a file, beside the storage in memory, on concrete data.
use naumachia.Prelude.{ℕ, ◌≡◌, refl, sym, Option, none, some, [], ◌∷◌, nat_eq, string_eq, map}
use naumachia.Prelude.Int.{pos}
use naumachia.Scripts.PlutusData.{PlutusData, bounded_bytes}
use naumachia.TestLedger.InMemory.{in_memory}
use naumachia.TestLedger.Persisted.{LedgerData, JsonLib}
use naumachia.TestLedger.Persisted.Json.{IsJson, HasNoMap}
use naumachia.TestLedger.Persisted.Stored.{stored, Filed, IsTyped}
use naumachia.TestLedger.Persisted.File.{get_data, persisted}
use naumachia.TestLedger.Persisted.Refines.{
  Describes, Refines, Agree, as_persisted, persisted-in_memory,
}
use naumachia.Fixtures.{addresses, datum_data, ledger, locked}

-- A file that holds its data as it is.
abbrev json : JsonLib LedgerData
json = record { to_string = λ x. some x; from_str = λ x. some x }

json-IsJson : IsJson json
json-IsJson = record { written = λ x h. (x, refl); read = λ x t h. sym h }

abbrev datum_of : PlutusData → Option ℕ
datum_of (bounded_bytes (n ∷ [])) = some n
datum_of _ = none

abbrev file : LedgerData
file = record {
  active_signer_name = "Alice";
  active_signer = "alice";
  signers = ("Alice", "alice") ∷ [];
  outputs = map (λ x. stored addresses datum_data datum_of x.1) ledger.outputs;
  current_time = pos 0;
  block_length = pos 20;
}

file-Describes : Describes addresses datum_data datum_of json file ledger
unfolding Filed IsTyped
file-Describes = record {
  signer = refl;
  outputs = refl;
  filed = ((refl, tt), ((refl, tt), tt));
  time = refl;
  block = refl;
}

file-Refines : Refines addresses datum_data datum_of json (some file) ledger
unfolding get_data
file-Refines = record { contents = file; read = refl; describes = file-Describes }

datum_of-datum_data : (n : ℕ) → datum_of (datum_data n) ≡ some n
datum_of-datum_data n = refl

datum_data-HasNoMap : (n : ℕ) → HasNoMap (datum_data n)
unfolding HasNoMap
datum_data-HasNoMap n = tt

locked-Filed : Filed addresses datum_data datum_of ("vault", locked)
unfolding Filed IsTyped
locked-Filed = (refl, tt)

persisted-in_memory_example :
    Agree addresses datum_data datum_of json
      ((persisted addresses json datum_data datum_of).signer (some file))
      ((in_memory ⦃lib = addresses⦄ ⦃d = nat_eq⦄).signer ledger)
    × Agree addresses datum_data datum_of json
        ((persisted addresses json datum_data datum_of).outputs_by_count "vault" 1 (some file))
        ((in_memory ⦃lib = addresses⦄ ⦃d = nat_eq⦄).outputs_by_count "vault" 1 ledger)
    × Agree addresses datum_data datum_of json
        ((persisted addresses json datum_data datum_of).all_outputs "vault" (some file))
        ((in_memory ⦃lib = addresses⦄ ⦃d = nat_eq⦄).all_outputs "vault" ledger)
    × Agree addresses datum_data datum_of json
        ((persisted addresses json datum_data datum_of).remove_output locked (some file))
        (as_persisted addresses datum_data datum_of json
          ((in_memory ⦃lib = addresses⦄ ⦃d = nat_eq⦄).remove_output locked ledger))
    × Agree addresses datum_data datum_of json
        ((persisted addresses json datum_data datum_of).add_output locked (some file))
        ((in_memory ⦃lib = addresses⦄ ⦃d = nat_eq⦄).add_output locked ledger)
    × Agree addresses datum_data datum_of json
        ((persisted addresses json datum_data datum_of).current_time (some file))
        ((in_memory ⦃lib = addresses⦄ ⦃d = nat_eq⦄).current_time ledger)
    × Agree addresses datum_data datum_of json
        ((persisted addresses json datum_data datum_of).set_current_time (pos 5) (some file))
        ((in_memory ⦃lib = addresses⦄ ⦃d = nat_eq⦄).set_current_time (pos 5) ledger)
    × Agree addresses datum_data datum_of json
        ((persisted addresses json datum_data datum_of).get_block_length (some file))
        ((in_memory ⦃lib = addresses⦄ ⦃d = nat_eq⦄).get_block_length ledger)
    × Agree addresses datum_data datum_of json
        ((persisted addresses json datum_data datum_of).network (some file))
        ((in_memory ⦃lib = addresses⦄ ⦃d = nat_eq⦄).network ledger)
persisted-in_memory_example =
    persisted-in_memory addresses datum_data datum_of json json-IsJson datum_of-datum_data
      datum_data-HasNoMap (some file) ledger file-Refines "vault" locked locked-Filed "vault" 1
      (pos 5)
