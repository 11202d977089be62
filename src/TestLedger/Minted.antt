-- ===== src/TestLedger/Minted.antt =====
-- What is spent and minted, in amounts (src/ledger_client/test_ledger_client.rs).
use naumachia.Prelude.{
  ℕ, ◌+◌, ◌%◌, ◌^◌, ◌≡◌, ◌<◌, sym, ◌∙◌, List, [], ◌∷◌, ◌++◌, arith, sum_of, All, Eq, ok, err, panic,
  ok-inj, >>=-eq-ok, if◌then◌else◌, ◌==◌, map, map_err, u64_mod, map_err-ok,
}
use mathlib.Core.List.{append_assoc, append-nil}
use naumachia.Address.{AddressLib}
use naumachia.PolicyId.{PolicyId, native_token, policy_eq}
use naumachia.Values.{Values, IsValid, amount}
use naumachia.Values.Add.{amount-add_one_value, add_one_value-IsValid, amount-lt}
use naumachia.Scripts.PlutusData.{PlutusData}
use naumachia.Output.{Output}
use naumachia.Transaction.{UnbuiltTransaction, RedemptionDetails, Minting}
use naumachia.TestLedger.TxId.{HexLib}
use naumachia.TestLedger.Contexts.{mint_tx_context}
use naumachia.TestLedger.Inputs.{script_failed, spend_one, spend_all, mint_one, mint_all}

-- The amount of a policy that a list of mintings asks for.
abbrev pub minted_amount : {A R : Type 0} → PolicyId → Minting A R → ℕ
minted_amount q (amt, asset_name, redeemer, policy) = elim policy.id [
  | ok id ↦ if q == native_token id asset_name then amt else 0
  | err e ↦ 0
  | panic ↦ 0
]

abbrev pub minted_amounts : {A R : Type 0} → PolicyId → List (Minting A R) → ℕ
minted_amounts q = sum_of (minted_amount q)

module _ {A D R : Type 0} ⦃d : Eq D⦄ (lib : AddressLib A) (hex : HexLib) (into : D → PlutusData)
    (tx : UnbuiltTransaction A D R) (signer : A) where
  -- A minting that goes through adds its amount to the value of its policy.
  mint_one-amount :
      (v w : Values) (m : Minting A R) (q : PolicyId)
      → IsValid v
      → m.0 < u64_mod
      → mint_one lib hex into tx signer v m ≡ ok w
      → IsValid w × (amount w q ≡ (amount v q + minted_amount q m) % 2 ^ 64)
  unfolding mint_one
  mint_one-amount v w (amt, asset_name, redeemer, policy) q h fits e =
      let (id, named, e') = >>=-eq-ok (map_err script_failed policy.id) _ e in
      let (ctx, _, e'') = >>=-eq-ok (mint_tx_context lib into hex tx signer id) _ e' in
      let (_, _, e''') = >>=-eq-ok (map_err script_failed (policy.execute redeemer ctx)) _ e'' in
      rw (← ok-inj e''') (
        add_one_value-IsValid v (native_token id asset_name) amt fits h,
        rw (minted_amount, map_err-ok script_failed policy.id id named)
            (amount-add_one_value v (native_token id asset_name) amt q h fits),
      )

  -- Where all of a transaction's minting of u64 amounts goes through, from a valid bag, the bag that
  -- comes of it is valid and holds of each policy what was there and what is minted, modulo 2^64.
  pub mint_all-amount :
      (v w : Values) (ms : List (Minting A R)) (q : PolicyId)
      → IsValid v
      → All (λ m. m.0 < u64_mod) ms
      → mint_all lib hex into tx signer v ms ≡ ok w
      → IsValid w × (amount w q ≡ (amount v q + minted_amounts q ms) % 2 ^ 64)
  unfolding mint_all
  mint_all-amount v w [] q h fits e = rw (← ok-inj e) (h, omega (arith, amount-lt v q h))
  mint_all-amount v w (m ∷ ms) q h (fit, fits) e =
      let (u, one, rest) = >>=-eq-ok (mint_one lib hex into tx signer v m) _ e in
      let (valid, first) = mint_one-amount v u m q h fit one in
      let (valid', more) = mint_all-amount u w ms q valid fits rest in
      (valid', omega (arith, first, more))

  -- What is spent are the outputs of the redemptions, in their order.
  spend_one-spends :
      (spent after : List (Output D)) (x : RedemptionDetails A D R)
      → spend_one lib hex into tx signer spent x ≡ ok after
      → spent ++ x.0 ∷ [] ≡ after
  unfolding spend_one
  spend_one-spends spent after (input, redeemer, script) e = ground arith

  pub spend_all-spends :
      (spent after : List (Output D)) (xs : List (RedemptionDetails A D R))
      → spend_all lib hex into tx signer spent xs ≡ ok after
      → after ≡ spent ++ map (λ x. x.0) xs
  unfolding spend_all
  spend_all-spends spent after [] e = sym (ok-inj e) ∙ sym (append-nil spent)
  spend_all-spends spent after (x ∷ xs) e =
      let (mid, one, rest) = >>=-eq-ok (spend_one lib hex into tx signer spent x) _ e in
      rw (spend_all-spends mid after xs rest, ← spend_one-spends spent mid x one)
        (append_assoc spent (x.0 ∷ []) (map (λ y. y.0) xs))
