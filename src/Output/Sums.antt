-- ===== src/Output/Sums.antt =====
-- The sum of the values of outputs (src/values.rs).
use naumachia.HashMap.{get}
use naumachia.Prelude.{
  ◌+◌, ◌%◌, ◌^◌, ◌≡◌, List, [], ◌∷◌, arith, sum_of, All, sum_of-map, All-map, refl,
}
use naumachia.PolicyId.{PolicyId}
use naumachia.Values.{Values, empty, add_values, IsValid, amount}
use naumachia.Values.Add.{empty-IsValid, add_values-IsValid, amount-add_values, amount-lt}
use naumachia.Output.{Output, sum_values, from_outputs}

-- A running sum holds what it began with and the amounts added, modulo 2^64, and stays valid.
pub sum_values-IsValid :
    (acc : Values) (vs : List Values) → IsValid acc → All IsValid vs → IsValid (sum_values acc vs)
unfolding sum_values
sum_values-IsValid acc [] h k = h
sum_values-IsValid acc (v ∷ vs) h (k, ks) =
    sum_values-IsValid (add_values acc v) vs (add_values-IsValid acc v h k) ks

pub amount-sum_values :
    (acc : Values) (vs : List Values) (q : PolicyId)
    → IsValid acc
    → All IsValid vs
    → amount (sum_values acc vs) q ≡ (amount acc q + sum_of (λ v. amount v q) vs) % 2 ^ 64
unfolding sum_values
amount-sum_values acc [] q h k = omega (arith, amount-lt acc q h)
amount-sum_values acc (v ∷ vs) q h (k, ks) = omega (
  arith,
  amount-sum_values (add_values acc v) vs q (add_values-IsValid acc v h k) ks,
  amount-add_values acc v q h k,
)

pub amount-empty : (q : PolicyId) → amount empty q ≡ 0
unfolding empty get
amount-empty q = refl

-- Over outputs with valid bags, `from_outputs` gives a valid bag that holds the sum of each policy,
-- modulo 2^64.
pub amount-from_outputs :
    {D : Type 0} (os : List (Output D)) (q : PolicyId)
    → All (λ o. IsValid o.values) os
    → IsValid (from_outputs os)
      × (amount (from_outputs os) q ≡ sum_of (λ o. amount o.values q) os % 2 ^ 64)
unfolding from_outputs
amount-from_outputs os q h =
    let ok = All-map (λ o. o.values) IsValid os h in
    (
      sum_values-IsValid empty _ empty-IsValid ok,
      omega (
        arith,
        amount-sum_values empty _ q empty-IsValid ok,
        amount-empty q,
        sum_of-map (λ o. o.values) (λ v. amount v q) os,
      ),
    )
