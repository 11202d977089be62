-- ===== src/Fixtures/Valid.antt =====
-- The bags of the examples are valid.
use naumachia.Prelude.{arith}
use naumachia.PolicyId.{ada}
use naumachia.Values.{empty, add_one_value, IsValid}
use naumachia.Values.Add.{empty-IsValid, add_one_value-IsValid}
use naumachia.TestLedger.InMemory.Totals.{AllValid}
use naumachia.TestLedger.Checked.{IsValidTx}
use naumachia.Fixtures.{token, ten_ada, five_ada, twelve_ada, ledger, payment}

pub ten_ada-IsValid : IsValid ten_ada
ten_ada-IsValid = add_one_value-IsValid empty ada 10 (omega arith) empty-IsValid

pub five_ada-IsValid : IsValid five_ada
five_ada-IsValid = add_one_value-IsValid empty ada 5 (omega arith) empty-IsValid

pub twelve_ada-IsValid : IsValid twelve_ada
twelve_ada-IsValid =
    add_one_value-IsValid (add_one_value empty ada 12) token 3 (omega arith)
      (add_one_value-IsValid empty ada 12 (omega arith) empty-IsValid)

pub payment-IsValid : IsValidTx payment
payment-IsValid = record {
  inputs = (five_ada-IsValid, tt);
  outputs = (twelve_ada-IsValid, tt);
  minting = (omega arith, tt);
}

pub ledger-AllValid : AllValid ledger.outputs
ledger-AllValid = (ten_ada-IsValid, (five_ada-IsValid, tt))
