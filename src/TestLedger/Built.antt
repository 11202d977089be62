-- ===== src/TestLedger/Built.antt =====
-- What the outputs of a transaction hold once they are built
-- (src/ledger_client/test_ledger_client.rs).
use naumachia.Prelude.{
  ℕ, ◌+◌, ◌≡◌, refl, sym, ◌∙◌, Option, none, some, List, [], ◌∷◌, ◌++◌, arith, sum_of,
  sum_of-append, All, All-append, sum_of-map, All-map, All-of-map, ap, ok, Outcome-cases, inl, inr,
  ok-inj, expect, map,
}
use naumachia.Prelude.{>>=-eq-ok as outcome-eq-ok}
use naumachia.Address.{AddressLib}
use naumachia.Errors.{LedgerClientError}
use naumachia.PolicyId.{PolicyId}
use naumachia.Values.{Values, IsValid, amount}
use naumachia.Output.{
  Output, UnbuiltOutput, wallet, validator, unbuilt_values, new_wallet, new_validator,
}
use naumachia.TestLedger.TxId.{
  TxIdConstructionCtx, new_ctx, advance_index, build_output, build_outputs, new_wallet_output,
  new_validator_output,
}
use naumachia.TestLedger.Issue.{remainder_output, combined_outputs}
use mathlib.Core.Path.{ap₂}
use mathlib.Core.List.{map-append}

abbrev pub amounts : {D : Type 0} → PolicyId → List (Output D) → ℕ
amounts q = sum_of (λ o. amount o.values q)

abbrev pub unbuilt_amounts : {D : Type 0} → PolicyId → List (UnbuiltOutput D) → ℕ
unbuilt_amounts q = sum_of (λ o. amount (unbuilt_values o) q)

-- A list of outputs to build is built with the values that were asked for.
module _ {A D : Type 0} (lib : AddressLib A) where
  new_wallet_output-values :
      (a : A) (v : Values) (c : TxIdConstructionCtx) (o : Output D)
      → new_wallet_output {E = LedgerClientError} lib a v c ≡ ok o
      → o.values ≡ v
  unfolding new_wallet_output new_wallet
  new_wallet_output-values a v c o e = ground arith

  new_validator_output-values :
      (a : A) (v : Values) (datum : D) (c : TxIdConstructionCtx) (o : Output D)
      → new_validator_output {E = LedgerClientError} lib a v datum c ≡ ok o
      → o.values ≡ v
  unfolding new_validator_output new_validator
  new_validator_output-values a v datum c o e = ground arith

  build_output-values :
      (u : UnbuiltOutput D) (c : TxIdConstructionCtx) (o : Output D)
      → build_output {E = LedgerClientError} lib u c ≡ ok o
      → o.values ≡ unbuilt_values u
  unfolding build_output
  build_output-values (wallet owner values) c o e =
      let (a, _, built) = outcome-eq-ok (expect (lib.from_bech32 owner)) _ e in
      new_wallet_output-values a values c o built
  build_output-values (validator owner values datum) c o e =
      let (a, _, built) = outcome-eq-ok (expect (lib.from_bech32 owner)) _ e in
      new_validator_output-values a values datum c o built

  build_outputs-values :
      (us : List (UnbuiltOutput D)) (c : TxIdConstructionCtx) (os : List (Output D))
      → build_outputs {E = LedgerClientError} lib us c ≡ ok os
      → map (λ o. o.values) os ≡ map unbuilt_values us
  unfolding build_outputs
  build_outputs-values [] c os e = rw (← ok-inj e)
  build_outputs-values (u ∷ us) c os e =
      let (o, one, e') = outcome-eq-ok (build_output lib u c) _ e in
      let (os', more, e'') = outcome-eq-ok (build_outputs lib us (advance_index c)) _ e' in
      let first = build_output-values u c o one in
      let rest = build_outputs-values us (advance_index c) os' more in
      rw (← ok-inj e'') (λ i. first i ∷ rest i)

  -- The remainder's output holds the remainder.
  remainder_output-values :
      (signer : A) (r : Option Values) (c : TxIdConstructionCtx) (os : List (Output D))
      (c' : TxIdConstructionCtx)
      → remainder_output lib signer r c ≡ ok (os, c')
      → map (λ o. o.values) os ≡ elim r [ none ↦ [] | some v ↦ v ∷ [] ]
  unfolding remainder_output
  remainder_output-values signer none c os c' e = rw (← ap (λ x. x.0) (ok-inj e))
  remainder_output-values signer (some v) c os c' e =
      elim (Outcome-cases (new_wallet_output {D = D} {E = LedgerClientError} lib signer v c)) [
        | inl (o, one) ↦
            let now = ap (λ x. x.0) (ok-inj (rw (remainder_output, one) at e)) in
            rw (← now) (λ i. new_wallet_output-values signer v c o one i ∷ [])
        | inr (inl (x, failed)) ↦ absurd (cc (rw (remainder_output, failed) at e))
        | inr (inr failed) ↦ absurd (cc (rw (remainder_output, failed) at e))
      ]

-- The values of outputs, as a list, decide what they hold and whether they are valid.
abbrev values_amount : PolicyId → List Values → ℕ
values_amount q = sum_of (λ v. amount v q)

abbrev pub remainder_amount : PolicyId → Option Values → ℕ
remainder_amount q none = 0
remainder_amount q (some v) = amount v q

abbrev pub IsValidRemainder : Option Values → Type 0
IsValidRemainder none = Unit
IsValidRemainder (some v) = IsValid v

abbrev remainder_values : Option Values → List Values
remainder_values r = elim r [ none ↦ [] | some v ↦ v ∷ [] ]

remainder_values-amount :
    (q : PolicyId) (r : Option Values) → values_amount q (remainder_values r) ≡ remainder_amount q r
remainder_values-amount q none = refl
remainder_values-amount q (some v) = omega arith

remainder_values-IsValid :
    (r : Option Values) → IsValidRemainder r → All IsValid (remainder_values r)
remainder_values-IsValid none h = tt
remainder_values-IsValid (some v) h = (h, tt)

module _ {A D : Type 0} (lib : AddressLib A) where
  combined_outputs-values :
      (signer : A) (r : Option Values) (us : List (UnbuiltOutput D)) (random : List ℕ)
      (os : List (Output D))
      → combined_outputs lib signer r us random ≡ ok os
      → map (λ o. o.values) os ≡ remainder_values r ++ map unbuilt_values us
  unfolding combined_outputs
  combined_outputs-values signer r us random os e =
      let ((rem, c), one, e') =
        outcome-eq-ok (remainder_output {D = D} lib signer r (new_ctx random)) _ e in
      let (built, more, e'') =
        outcome-eq-ok (build_outputs {E = LedgerClientError} lib us c) _ e' in
      rw (← ok-inj e'', map-append)
        (ap₂ (λ x y. x ++ y) (remainder_output-values lib signer r (new_ctx random) rem c one)
          (build_outputs-values lib us c built more))

  -- The outputs that come hold the remainder and what was asked for, and are valid.
  pub combined_outputs-amounts :
      (signer : A) (r : Option Values) (us : List (UnbuiltOutput D)) (random : List ℕ)
      (os : List (Output D)) (q : PolicyId)
      → combined_outputs lib signer r us random ≡ ok os
      → amounts q os ≡ remainder_amount q r + unbuilt_amounts q us
  combined_outputs-amounts signer r us random os q e =
      sym (sum_of-map (λ o. o.values) (λ v. amount v q) os)
      ∙ ap (values_amount q) (combined_outputs-values signer r us random os e)
      ∙ sum_of-append _ (remainder_values r) (map unbuilt_values us)
      ∙ ap₂ (λ x y. x + y) (remainder_values-amount q r)
          (sum_of-map unbuilt_values (λ v. amount v q) us)

  pub combined_outputs-IsValid :
      (signer : A) (r : Option Values) (us : List (UnbuiltOutput D)) (random : List ℕ)
      (os : List (Output D))
      → combined_outputs lib signer r us random ≡ ok os
      → IsValidRemainder r
      → All (λ u. IsValid (unbuilt_values u)) us
      → All (λ o. IsValid o.values) os
  combined_outputs-IsValid signer r us random os e v vs =
      All-of-map (λ o. o.values) IsValid os
        (rw (combined_outputs-values signer r us random os e) (
          All-append IsValid (remainder_values r) (map unbuilt_values us)
            (remainder_values-IsValid r v) (All-map unbuilt_values IsValid us vs)))
