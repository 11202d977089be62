-- ===== src/CheckingAccount/Amounts.antt =====
-- Taking lovelace from a bag, as a withdrawal and a pull do
-- (sample-dApps/checking_account/src/withdraw.rs, endpoints/pull.rs).
use naumachia.Prelude.{
  ℕ, ◌+◌, ◌<◌, ◌≡◌, refl, sym, ap, ◌∙◌, arith, Bool-cases, Option-cases, Outcome-cases, ◌⊎◌, inl,
  inr, some-inj, none, some, if◌then◌else◌, ◌==◌, u64_mod, ok, err, nat_eq,
}
use mathlib.Core.Path.{subst}
use naumachia.Errors.{insufficient_amount_of, OutputId, output_not_found}
use naumachia.HashMap.{get, insert}
use naumachia.PolicyId.{PolicyId, lovelace, native_token, policy_eq}
use naumachia.Values.{Values, IsValid, amount, empty, add_one_value, try_subtract, get_value}
use naumachia.Values.Add.{amount-add_one_value, add_one_value-IsValid, empty-IsValid}
use naumachia.Values.Subtract.{try_subtract_exact}
use naumachia.Values.Nothing.{try_subtract-none}
use naumachia.Values.Shortage.{try_subtract_fails, try_subtract-ne-panic}
use naumachia.Logic.{endpoint_dapp, endpoint_error}
use naumachia.CheckingAccount.Owner.{without_lovelace}

amount-empty : (q : PolicyId) → amount empty q ≡ 0
unfolding empty get
amount-empty q = refl

-- The difference of a bag and an amount of lovelace.
pub subtract_lovelace :
    (v w : Values) (n : ℕ) (q : PolicyId)
    → IsValid v
    → n < u64_mod
    → try_subtract v (add_one_value empty lovelace n) ≡ ok (some w)
    → amount w q + (if q == lovelace then n else 0) ≡ amount v q
subtract_lovelace v w n q valid small e =
    let (_, exact) =
      try_subtract_exact v (add_one_value empty lovelace n) w valid
        (add_one_value-IsValid empty lovelace n small empty-IsValid) e in
    let taken = amount-add_one_value empty lovelace n q empty-IsValid small in
    elim (Bool-cases (q == lovelace)) [
      | inl here ↦ rw here (omega (arith, exact q, rw (here) at taken, amount-empty q))
      | inr there ↦ rw there (omega (arith, exact q, rw (there) at taken, amount-empty q))
    ]

lovelace_listed :
    (n a : ℕ) (p : PolicyId)
    → get_value (add_one_value empty lovelace n) p ≡ some a
    → (p ≡ lovelace) × (a ≡ n)
unfolding get_value add_one_value empty get insert
lovelace_listed n a lovelace e = (refl, sym (some-inj e))
lovelace_listed n a (native_token i t) e = absurd (cc e)

listed_lovelace : (n : ℕ) → get_value (add_one_value empty lovelace n) lovelace ≡ some n
unfolding get_value add_one_value empty get insert
listed_lovelace n = refl

-- Taking an amount of lovelace from a bag: what is left is exact; or the amount is all the lovelace
-- there is, and nothing is left; or there is not enough.
unfoldable pub TakesLovelace : OutputId → Values → ℕ → Type 0
TakesLovelace id v n =
    ((w : Values) × (without_lovelace id v n ≡ ok w)
      × ((q : PolicyId) → amount w q + (if q == lovelace then n else 0) ≡ amount v q))
    ⊎ ((without_lovelace id v n ≡ err (endpoint_dapp (output_not_found id)))
        × (get_value v lovelace ≡ some n))
    ⊎ ((without_lovelace id v n ≡ err (endpoint_error (insufficient_amount_of lovelace)))
        × ((get_value v lovelace ≡ none) ⊎ (amount v lovelace < n)))

pub without_lovelace-TakesLovelace :
    (id : OutputId) (v : Values) (n : ℕ) → IsValid v → n < u64_mod → TakesLovelace id v n
unfolding TakesLovelace without_lovelace
without_lovelace-TakesLovelace id v n valid small =
    let sub = add_one_value empty lovelace n in
    let fits = add_one_value-IsValid empty lovelace n small empty-IsValid in
    elim (Outcome-cases (try_subtract v sub)) [
      | inl (d, e) ↦ elim (Option-cases d) [
        | inl nothing ↦
            let e' = e ∙ ap (λ o. ok o) nothing in
            inr (
              inl (
                rw (e') refl,
                (try_subtract-none v sub valid fits e').1 lovelace n (listed_lovelace n),
              ))
        | inr (w, some_left) ↦
            let e' = e ∙ ap (λ o. ok o) some_left in
            inl (w, rw (e') refl, λ q. subtract_lovelace v w n q valid small e')
      ]
      | inr (inl (x, e)) ↦
          let (p, a, named, listed, short) = try_subtract_fails v sub x fits e in
          let (is_lovelace, is_n) = lovelace_listed n a p listed in
          let e' = e ∙ ap (λ o. err o) (named ∙ ap insufficient_amount_of is_lovelace) in
          inr (
            inr (
              rw (e') refl,
              subst (λ y. (get_value v y ≡ none) ⊎ (amount v y < n)) is_lovelace
                  (subst (λ b. (get_value v p ≡ none) ⊎ (amount v p < b)) is_n short),
            ))
      | inr (inr e) ↦ absurd (try_subtract-ne-panic v sub e)
    ]
