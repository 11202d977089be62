-- ===== src/Tests/Data.antt =====
-- The properties of Plutus data, each applied to concrete data.
use naumachia.Prelude.{◌≡◌, arith, [], ◌∷◌, ok, ◌>>=◌}
use naumachia.Prelude.Int.{pos, negsuc, IsI64}
use naumachia.Scripts.PlutusData.{plutus_data_eq}
use naumachia.Scripts.PlutusData.Numbers.{
  as_u64, data_of_i64, data_of_u64, i64_of_data, i64_of_data-data_of_i64,
}
use naumachia.CheckingAccount.Datum.{
  CheckingAccountDatums, allowed_puller, datum_data, datum_of_data, IsInRange,
  datum_of_data-datum_data,
}

minus_five-IsI64 : IsI64 (negsuc 4)
minus_five-IsI64 = record { upper = omega arith; lower = omega arith }

i64_of_data-data_of_i64_example :
    (i64_of_data (data_of_i64 (negsuc 4)) ≡ ok (negsuc 4))
    × ((i64_of_data (data_of_u64 18446744073709551615) >>= λ m. ok (as_u64 m))
        ≡ ok 18446744073709551615)
i64_of_data-data_of_i64_example =
    i64_of_data-data_of_i64 (negsuc 4) 18446744073709551615 minus_five-IsI64 (omega arith)

abbrev puller : CheckingAccountDatums
puller = allowed_puller (record {
  owner = record { bytes = 1 ∷ [] };
  puller = record { bytes = 2 ∷ [] };
  amount_lovelace = 15000000;
  next_pull = pos 10000;
  period = pos 1000;
  spending_token = 3 ∷ [];
  checking_account_nft = 4 ∷ [];
})

puller-IsInRange : IsInRange puller
unfolding IsInRange
puller-IsInRange = (
  omega arith,
  record { upper = omega arith; lower = omega arith },
  record { upper = omega arith; lower = omega arith },
)

datum_of_data-datum_data_example : datum_of_data (datum_data puller) ≡ ok puller
datum_of_data-datum_data_example = datum_of_data-datum_data puller puller-IsInRange
