-- ===== src/Tests/Bags.antt =====
-- The properties of bags of tokens, of outputs and of contexts, each applied to concrete data.
use naumachia.Prelude.{
  ℕ, ◌≡◌, ◌≢◌, ◌+◌, ◌%◌, ◌^◌, ◌<◌, ◌≤◌, ◌⊎◌, refl, arith, true, false, Option, some, none, some-inj,
  [], ◌∷◌, String, string_eq, nat_eq, ok, err,
}
use naumachia.HashMap.{get, insert, erase, map_beq, collect_into}
use naumachia.PolicyId.{PolicyId, ada, lovelace, native_token, policy_eq}
use naumachia.Errors.{insufficient_amount_of}
use naumachia.Values.{
  Values, empty, add_one_value, add_values, try_subtract, get_value, is_empty, IsValid, amount,
}
use naumachia.Values.Add.{empty-IsValid, add_one_value-IsValid, amount-add_values}
use naumachia.Values.Subtract.{try_subtract_exact}
use naumachia.Values.Shortage.{try_subtract_fails, try_subtract_covered}
use naumachia.Values.Nothing.{try_subtract-none, try_subtract_drops_rest}
use naumachia.Output.Equality.{output_beq}
use naumachia.Scripts.PlutusData.{PlutusData, bounded_bytes}
use naumachia.Scripts.Context.{ctx_value}
use naumachia.Scripts.Context.Amounts.{nested_amount, ctx_value_amounts}
use naumachia.Fixtures.{token, ten_ada, five_ada, twelve_ada, purse}
use naumachia.Fixtures.Valid.{ten_ada-IsValid, five_ada-IsValid, twelve_ada-IsValid}

abbrev seven_ada : Values
seven_ada = record { values = (lovelace, 7) ∷ (token, 3) ∷ [] }

seven_left : try_subtract twelve_ada five_ada ≡ ok (some seven_ada)
unfolding try_subtract add_one_value insert empty ada get erase collect_into
seven_left = refl

try_subtract_exact_example :
    IsValid seven_ada
    × ((q : PolicyId) → amount seven_ada q + amount five_ada q ≡ amount twelve_ada q)
try_subtract_exact_example =
    try_subtract_exact twelve_ada five_ada seven_ada twelve_ada-IsValid five_ada-IsValid seven_left

five_short : try_subtract five_ada ten_ada ≡ err (insufficient_amount_of ada)
unfolding try_subtract add_one_value insert empty ada get erase
five_short = refl

try_subtract_fails_example :
    (p : PolicyId) × (a : ℕ) × (insufficient_amount_of ada ≡ insufficient_amount_of p)
    × (get_value ten_ada p ≡ some a)
    × ((get_value five_ada p ≡ none) ⊎ (amount five_ada p < a))
try_subtract_fails_example =
    try_subtract_fails five_ada ten_ada (insufficient_amount_of ada) ten_ada-IsValid five_short

five_covered :
    (p : PolicyId) (a : ℕ)
    → get_value five_ada p ≡ some a
    → (b : ℕ) × (get_value twelve_ada p ≡ some b) × (a ≤ b)
unfolding get_value add_one_value insert empty ada get
five_covered lovelace a e = (12, refl, omega (arith, some-inj e))
five_covered (native_token i n) a e = absurd (cc e)

try_subtract_covered_example : (d : Option Values) × (try_subtract twelve_ada five_ada ≡ ok d)
try_subtract_covered_example =
    try_subtract_covered twelve_ada five_ada five_ada-IsValid five_covered

abbrev all_ada : Values
all_ada = add_one_value empty ada 12

all_ada-IsValid : IsValid all_ada
all_ada-IsValid = add_one_value-IsValid empty ada 12 (omega arith) empty-IsValid

nothing_left : try_subtract twelve_ada all_ada ≡ ok none
unfolding try_subtract add_one_value insert empty ada get erase
nothing_left = refl

try_subtract-none_example :
    (is_empty all_ada ≡ false)
    × ((q : PolicyId) (b : ℕ) → get_value all_ada q ≡ some b → get_value twelve_ada q ≡ some b)
try_subtract-none_example =
    try_subtract-none twelve_ada all_ada twelve_ada-IsValid all_ada-IsValid nothing_left

all_ada_met :
    (q : PolicyId) (b : ℕ) → get_value all_ada q ≡ some b → get_value twelve_ada q ≡ some b
unfolding get_value add_one_value insert empty ada get
all_ada_met lovelace b e = e
all_ada_met (native_token i n) b e = absurd (cc e)

all_ada_listed : is_empty all_ada ≡ false
unfolding is_empty add_one_value insert empty ada get
all_ada_listed = refl

try_subtract_drops_rest_example : try_subtract twelve_ada all_ada ≡ ok none
try_subtract_drops_rest_example =
    try_subtract_drops_rest twelve_ada all_ada all_ada-IsValid all_ada_listed all_ada_met

amount-add_values_example :
    amount (add_values twelve_ada five_ada) ada
    ≡ (amount twelve_ada ada + amount five_ada ada) % 2 ^ 64
amount-add_values_example =
    amount-add_values twelve_ada five_ada ada twelve_ada-IsValid five_ada-IsValid

purse_same : output_beq purse purse ≡ true
unfolding output_beq map_beq add_one_value insert empty ada get erase
purse_same = refl

abbrev read_datum : PlutusData → Option ℕ
read_datum (bounded_bytes (n ∷ [])) = some n
read_datum _ = none

ab_named : ◌≢◌ {A = String} "ab" ""
ab_named e = cc

gold_named : ◌≢◌ {A = String} "gold" ""
gold_named e = cc

ctx_value_amounts_example :
    (nested_amount "ab" "gold" (ctx_value twelve_ada).inner
      ≡ amount twelve_ada (native_token "ab" (some "gold")))
    × (nested_amount "ab" "" (ctx_value twelve_ada).inner
        ≡ (amount twelve_ada (native_token "ab" none)
            + amount twelve_ada (native_token "ab" (some "")))
          % 2 ^ 64)
ctx_value_amounts_example =
    ctx_value_amounts twelve_ada "ab" "gold" twelve_ada-IsValid ab_named gold_named
