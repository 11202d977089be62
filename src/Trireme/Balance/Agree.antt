-- ===== src/Trireme/Balance/Agree.antt =====
-- The two commands that report a balance (trireme/src/logic.rs, trireme/src/balance.rs).
use naumachia.Prelude.{ℕ, ◌≤◌, ◌≡◌, refl, ap, ◌∙◌, arith, none, some, List, [], ◌∷◌, All, ok}
use naumachia.HashMap.{get, count}
use naumachia.HashMap.Laws.{get-eq-none}
use naumachia.PolicyId.{PolicyId, lovelace, native_token, policy_eq}
use naumachia.Values.{IsValid, vec}
use naumachia.Output.{Output, from_outputs}
use naumachia.Output.Sums.{amount-from_outputs}
use naumachia.Errors.{ScLogicError}
use naumachia.Effects.{Run, ◌>>=◌, call, return, call-of-ok, >>=-of-ok}
use naumachia.LedgerClient.{LedgerClient}
use naumachia.TestLedger.Issue.{sum_policy}
use naumachia.TestLedger.Balance.{sum_policy-sum}
use naumachia.Logic.{lookup_lc}
use naumachia.Trireme.Balance.{
  lovelace_balance, total_balance, TriremeResponses, impl_lovelace_balance, impl_total_balance,
  native_assets, ada_of, balances,
}

-- The Ada of a balance is the amount that a map lists for Lovelace.
ada_of-get :
    (start : ℕ) (entries : List (PolicyId × ℕ))
    → count lovelace entries ≤ 1
    → ada_of start entries ≡ elim (get lovelace entries) [ none ↦ start | some a ↦ a ]
unfolding ada_of get count
ada_of-get start [] h = refl
ada_of-get start ((lovelace, amt) ∷ entries) h =
    let others : count lovelace entries ≡ 0 = omega arith in
    ada_of-get amt entries (omega arith)
    ∙ ap (λ o. elim o [ none ↦ amt | some a ↦ a ]) (get-eq-none lovelace entries others)
ada_of-get start ((native_token id name, amt) ∷ entries) h = ada_of-get start entries (omega arith)

ada_of-from_outputs :
    {D : Type 0} (outputs : List (Output D))
    → All (λ o. IsValid o.values) outputs
    → ada_of 0 (vec (from_outputs outputs)) ≡ sum_policy lovelace 0 outputs
unfolding vec
ada_of-from_outputs outputs valid =
    let (total, held) = amount-from_outputs outputs lovelace valid in
    omega (
      arith,
      ada_of-get 0 (from_outputs outputs).values (total.distinct lovelace),
      held,
      sum_policy-sum lovelace 0 outputs (omega arith),
    )

module _ {A D R S : Type 0} (client : LedgerClient A D R S) where
  -- The steps of a lookup, up to what it makes of the outputs.
  abbrev of_outputs : (List (Output D) → TriremeResponses) → A → Run S ScLogicError TriremeResponses
  of_outputs f address =
      call lookup_lc (client.all_outputs_at_address address) >>= λ outputs. return (f outputs)

  of_outputs-of-ok :
      (f : List (Output D) → TriremeResponses) (s s1 s2 : S) (address : A)
      (outputs : List (Output D))
      → client.signer_base_address s ≡ (ok address, s1)
      → client.all_outputs_at_address address s1 ≡ (ok outputs, s2)
      → (call lookup_lc client.signer_base_address >>= of_outputs f) s ≡ (ok (f outputs), s2)
  of_outputs-of-ok f s s1 s2 address outputs signer found =
      >>=-of-ok (call lookup_lc client.signer_base_address) (of_outputs f) s
        (call-of-ok lookup_lc client.signer_base_address s signer)
      ∙ >>=-of-ok (call lookup_lc (client.all_outputs_at_address address))
          (λ found_outputs. return (f found_outputs)) s1
          (call-of-ok lookup_lc (client.all_outputs_at_address address) s1 found)

-- Where the client answers with its signer's address and the outputs there, with valid bags, both
-- lookups return, and the Ada of the total balance is the lovelace of the other lookup.
pub impl_total_balance-impl_lovelace_balance :
    {A D R S : Type 0} (client : LedgerClient A D R S) (s s1 s2 : S) (address : A)
    (outputs : List (Output D))
    → client.signer_base_address s ≡ (ok address, s1)
    → client.all_outputs_at_address address s1 ≡ (ok outputs, s2)
    → All (λ o. IsValid o.values) outputs
    → (lovelaces : ℕ) × (assets : List (PolicyId × ℕ)) × (impl_lovelace_balance client s
        ≡ (ok (lovelace_balance lovelaces), s2))
      × (impl_total_balance client s ≡ (ok (total_balance assets), s2))
      × (balances (total_balance assets) ≡ ok (lovelaces, native_assets assets))
unfolding impl_lovelace_balance impl_total_balance balances
impl_total_balance-impl_lovelace_balance client s s1 s2 address outputs signer found valid =
    let total : List (Output _) → TriremeResponses = λ os. total_balance (vec (from_outputs os)) in
    let ada : List (Output _) → TriremeResponses =
      λ os. lovelace_balance (sum_policy lovelace 0 os) in
    (
      sum_policy lovelace 0 outputs,
      vec (from_outputs outputs),
      of_outputs-of-ok client ada s s1 s2 address outputs signer found,
      of_outputs-of-ok client total s s1 s2 address outputs signer found,
      ap (λ n. ok (n, native_assets (vec (from_outputs outputs))))
          (ada_of-from_outputs outputs valid),
    )
