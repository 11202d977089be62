-- ===== src/Tests/Actions.antt =====
-- The properties of transactions, each applied to concrete data.
use naumachia.Prelude.{
  ℕ, ◌≡◌, ◌+◌, ◌%◌, ◌^◌, refl, arith, String, string_eq, some, none, List, [], ◌∷◌, ok, sum_of,
}
use naumachia.HashMap.{get, insert}
use naumachia.PolicyId.{ada, lovelace}
use naumachia.Values.{Values, empty, add_one_value, add_entries, vec, amount}
use naumachia.Values.Add.{empty-IsValid}
use naumachia.Output.{wallet, unbuilt_wallet}
use naumachia.Transaction.{
  Action, transfer, mint, redeem_script_output, specific_input, TxActions, v2, UnbuiltTransaction,
  Building, build_actions, to_unbuilt_tx,
}
use naumachia.Transaction.Collected.{
  collect, minted_by, redeemed_by, spent_by, to_unbuilt_tx-collects,
}
use naumachia.Transaction.Payments.{bag_of, ValidBags, paid_by, build_actions-pays}
use naumachia.Fixtures.{addresses, vault, mint_policy, purse, locked}

abbrev plan : List (Action String ℕ ℕ)
plan =
    transfer 5 "bob" ada
    ∷ mint 3 (some "gold") 0 mint_policy
    ∷ redeem_script_output locked 7 vault
    ∷ transfer 2 "bob" ada
    ∷ specific_input purse
    ∷ []

abbrev planned : TxActions String ℕ ℕ
planned = record { script_version = v2; actions = plan; valid_range = (none, none) }

abbrev seven : Values
seven = record { values = (lovelace, 7) ∷ [] }

abbrev unbuilt : UnbuiltTransaction String ℕ ℕ
unbuilt = record {
  script_version = v2;
  script_inputs = (locked, 7, vault) ∷ [];
  unbuilt_outputs = wallet "bob" seven ∷ [];
  minting = (3, some "gold", 0, mint_policy) ∷ [];
  specific_wallet_inputs = purse ∷ [];
  valid_range = (none, none);
}

planned_builds : to_unbuilt_tx ⦃lib = addresses⦄ planned ≡ ok unbuilt
unfolding to_unbuilt_tx add_one_value insert empty ada get unbuilt_wallet add_entries vec
planned_builds = refl

to_unbuilt_tx-collects_example :
    (unbuilt.script_version ≡ planned.script_version)
    × (unbuilt.valid_range ≡ planned.valid_range)
    × (unbuilt.minting ≡ collect minted_by plan)
    × (unbuilt.script_inputs ≡ collect redeemed_by plan)
    × (unbuilt.specific_wallet_inputs ≡ collect spent_by plan)
to_unbuilt_tx-collects_example =
    to_unbuilt_tx-collects ⦃lib = addresses⦄ planned unbuilt planned_builds

abbrev start : Building String ℕ ℕ
start = record {
  min_output_values = [];
  minting = [];
  script_inputs = [];
  specific_outputs = [];
  specific_wallet_inputs = [];
}

abbrev gathered : Building String ℕ ℕ
gathered = record {
  min_output_values = ("bob", seven) ∷ [];
  minting = (3, some "gold", 0, mint_policy) ∷ [];
  script_inputs = (locked, 7, vault) ∷ [];
  specific_outputs = [];
  specific_wallet_inputs = purse ∷ [];
}

plan_gathers : build_actions ⦃lib = addresses⦄ start plan ≡ ok gathered
unfolding build_actions add_one_value insert empty ada get
plan_gathers = refl

start-ValidBags : ValidBags start.min_output_values
unfolding get
start-ValidBags owner = empty-IsValid

build_actions-pays_example :
    ValidBags gathered.min_output_values
    × (amount (bag_of "bob" gathered.min_output_values) ada
        ≡ (amount (bag_of "bob" start.min_output_values) ada
            + sum_of (paid_by ⦃lib = addresses⦄ "bob" ada) plan)
          % 2 ^ 64)
build_actions-pays_example =
    build_actions-pays ⦃lib = addresses⦄ start gathered plan "bob" ada start-ValidBags
      (omega arith, (tt, (tt, (omega arith, (tt, tt))))) plan_gathers
