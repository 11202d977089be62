-- ===== src/TestLedger/Checked.antt =====
-- What `issue` finds before it writes, on the storage in memory
-- (src/ledger_client/test_ledger_client.rs).
use naumachia.Prelude.{
  ℕ, ◌+◌, ◌%◌, ◌^◌, ◌<◌, ◌≤◌, ◌≡◌, sym, ap, ◌∙◌, inl, inr, Option, none, some, List, [], ◌∷◌, ◌++◌,
  arith, All, All-append, sum_of-map, All-map, Eq, Bool-cases, Option-cases, ok, Outcome-cases,
  ok-inj, map, map_err, map_err-ok, u64_mod, ◌>>=◌,
}
use naumachia.Prelude.{>>=-eq-ok as outcome-eq-ok}
use naumachia.Address.{AddressLib}
use naumachia.PolicyId.{PolicyId, ada}
use naumachia.Values.{Values, empty, add_values, try_subtract, get_value, IsValid, amount}
use naumachia.Values.Add.{
  amount-absent, amount-listed, empty-IsValid, add_values-IsValid, amount-add_values,
}
use naumachia.Values.Subtract.{try_subtract_exact}
use naumachia.Values.Nothing.{try_subtract-none}
use naumachia.Scripts.PlutusData.{PlutusData}
use naumachia.Output.{Output, UnbuiltOutput, unbuilt_values, sum_values, from_outputs}
use naumachia.Output.Sums.{sum_values-IsValid, amount-sum_values, amount-empty, amount-from_outputs}
use naumachia.Transaction.{UnbuiltTransaction}
use naumachia.TestLedger.TxId.{HexLib}
use naumachia.TestLedger.InMemory.{InMemoryStorage, in_memory, at_address}
use naumachia.TestLedger.InMemory.Totals.{AllValid}
use naumachia.TestLedger.Inputs.{spend_all, mint_all}
use naumachia.TestLedger.Issue.{check_time_valid, check_tx, weigh_tx, not_issued}
use naumachia.TestLedger.Built.{amounts, unbuilt_amounts, remainder_amount, IsValidRemainder}
use naumachia.TestLedger.Minted.{minted_amounts, mint_all-amount, spend_all-spends}

-- Every bag of the transaction is a valid one, and what it mints are u64 amounts.
pub record IsValidTx {A D R : Type 0} (tx : UnbuiltTransaction A D R) : Type 0 where
  pub inputs : All (λ x. IsValid x.0.values) tx.script_inputs
  pub outputs : All (λ u. IsValid (unbuilt_values u)) tx.unbuilt_outputs
  pub minting : All (λ m. m.0 < u64_mod) tx.minting

-- The remainder is exact, but that nothing at all comes back where each requested policy is met
-- exactly.
abbrev pub Weighs : ℕ → ℕ → ℕ → Type 0
Weighs remainder requested total =
    (remainder + requested ≤ total) × (0 < requested → remainder + requested ≡ total)

try_subtract-Weighs :
    (self other : Values) (r : Option Values)
    → IsValid self
    → IsValid other
    → try_subtract self other ≡ ok r
    → IsValidRemainder r
      × ((q : PolicyId) → Weighs (remainder_amount q r) (amount other q) (amount self q))
unfolding get_value
try_subtract-Weighs self other (some v) h k e =
    let (valid, exact) = try_subtract_exact self other v h k e in
    (valid, λ q. (omega (arith, exact q), λ _. exact q))
try_subtract-Weighs self other none h k e =
    let (_, same) = try_subtract-none self other h k e in
    (
      tt,
      λ q. elim (Option-cases (get_value other q)) [
        | inl absent ↦
            let nothing = amount-absent other q absent in
            (omega (arith, nothing), omega (arith, nothing))
        | inr (b, found) ↦
            let met =
              amount-listed other q b found ∙ sym (amount-listed self q b (same q b found)) in
            (omega (arith, met), omega (arith, met))
      ],
    )

-- The totals that are weighed, for each policy.
weighed :
    {D : Type 0} (inputs : List (Output D)) (minted : Values) (us : List (UnbuiltOutput D))
    (r : Option Values)
    → All (λ o. IsValid o.values) inputs
    → IsValid minted
    → All (λ u. IsValid (unbuilt_values u)) us
    → try_subtract
        (add_values (from_outputs inputs) minted)
        (sum_values empty (map unbuilt_values us))
      ≡ ok r
    → IsValidRemainder r
      × ((q : PolicyId)
          → Weighs
              (remainder_amount q r)
              (unbuilt_amounts q us % 2 ^ 64)
              ((amounts q inputs + amount minted q) % 2 ^ 64))
weighed inputs minted us r h k v e =
    let total = λ (q : PolicyId). amount-from_outputs inputs q h in
    let asked = λ (q : PolicyId).
      amount-sum_values empty (map unbuilt_values us) q empty-IsValid
        (All-map unbuilt_values IsValid us v) in
    let (valid, weighs) =
      try_subtract-Weighs _ _ r (add_values-IsValid _ minted (total ada).0 k)
        (sum_values-IsValid empty _ empty-IsValid (All-map unbuilt_values IsValid us v)) e in
    (
      valid,
      λ q.
          let all = amount-add_values (from_outputs inputs) minted q (total q).0 k in
          let flat = sum_of-map unbuilt_values (λ v. amount v q) us in
          (
            omega (arith, weighs q, all, total q, asked q, flat, amount-empty q),
            λ some_asked. omega (
              arith,
              (weighs q).1 (omega (arith, some_asked, asked q, flat, amount-empty q)),
              all,
              total q,
              asked q,
              flat,
              amount-empty q,
            ),
          ),
    )

-- What is filed under an address is valid with the rest.
pub at_address-IsValid :
    {A D : Type 0} ⦃lib : AddressLib A⦄ ⦃d : Eq D⦄ (a : A) (outputs : List (A × Output D))
    → AllValid outputs
    → All (λ o. IsValid o.values) (at_address a outputs)
unfolding at_address
at_address-IsValid a [] h = tt
at_address-IsValid ⦃lib = lib⦄ a ((b, o) ∷ outputs) (h, hs) =
    elim (Bool-cases (lib.address_eq.beq b a)) [
      | inl here ↦ rw here (h, at_address-IsValid ⦃lib = lib⦄ a outputs hs)
      | inr there ↦ rw there (at_address-IsValid ⦃lib = lib⦄ a outputs hs)
    ]

module _ {A D R : Type 0} ⦃d : Eq D⦄ (lib : AddressLib A) (hex : HexLib)
    (into : D → PlutusData) where
  -- The checks, as a function of the storage they read; they leave it alone.
  pub check_tx-reads :
      (tx : UnbuiltTransaction A D R) (s : InMemoryStorage A D)
      → check_tx (in_memory ⦃lib = lib⦄) lib hex into tx s ≡ (
        (map_err not_issued (check_time_valid tx.valid_range s.current_posix_time) >>= λ _.
            weigh_tx
              (in_memory ⦃lib = lib⦄)
              lib
              hex
              into
              tx
              s.signer
              (at_address ⦃lib = lib⦄ s.signer s.outputs)),
        s,
      )
  unfolding check_tx
  check_tx-reads tx s =
      elim (Outcome-cases
        (map_err not_issued (check_time_valid tx.valid_range s.current_posix_time))) [
          | inl (u, good) ↦ rw good
          | inr (inl (x, failed)) ↦ rw failed
          | inr (inr failed) ↦ rw failed
        ]

  -- What a transaction that is weighed went through.
  weigh_tx-parts :
      (tx : UnbuiltTransaction A D R) (signer a : A) (mine inputs : List (Output D))
      (r : Option Values)
      → weigh_tx (in_memory ⦃lib = lib⦄) lib hex into tx signer mine ≡ ok (a, inputs, r)
      → (a ≡ signer)
        × (inputs ≡ mine ++ map (λ x. x.0) tx.script_inputs)
        × ((minted : Values) × (mint_all lib hex into tx signer empty tx.minting ≡ ok minted)
            × (try_subtract
                  (add_values (from_outputs inputs) minted)
                  (sum_values empty (map unbuilt_values tx.unbuilt_outputs))
                ≡ ok r))
  unfolding weigh_tx
  weigh_tx-parts tx signer a mine inputs r e =
      let (spent, run, e') =
        outcome-eq-ok (spend_all lib hex into tx signer [] tx.script_inputs) _ e in
      let (minted, mints, e'') =
        outcome-eq-ok (mint_all lib hex into tx signer empty tx.minting) _ e' in
      let (rest, left, end) = outcome-eq-ok (map_err _ (try_subtract _ _)) _ e'' in
      let all = ok-inj end in
      let taken = ap (λ x. x.1) all in
      (
        sym (ap (λ x. x.0) all),
        sym taken
            ∙ ap (λ os. mine ++ os)
                (spend_all-spends lib hex into tx signer [] spent tx.script_inputs run),
        (minted, mints, rw (← taken) (map_err-ok _ _ rest left ∙ ap (λ x. ok x.2) all)),
      )

  -- What is spent is what the signer has and what is redeemed; the outputs and the remainder are
  -- weighed against what is spent and minted.
  pub weigh_tx-Weighs :
      (tx : UnbuiltTransaction A D R) (signer a : A) (mine inputs : List (Output D))
      (r : Option Values)
      → IsValidTx tx
      → All (λ o. IsValid o.values) mine
      → weigh_tx (in_memory ⦃lib = lib⦄) lib hex into tx signer mine ≡ ok (a, inputs, r)
      → IsValidRemainder r
        × ((q : PolicyId)
            → Weighs
                (remainder_amount q r)
                (unbuilt_amounts q tx.unbuilt_outputs % 2 ^ 64)
                ((amounts q inputs + minted_amounts q tx.minting) % 2 ^ 64))
  weigh_tx-Weighs tx signer a mine inputs r v h e =
      let (_, what, (minted, mints, left)) = weigh_tx-parts tx signer a mine inputs r e in
      let redeemed = All-map (λ x. x.0) (λ o. IsValid o.values) tx.script_inputs v.inputs in
      let new = λ (q : PolicyId).
        mint_all-amount lib hex into tx signer empty minted tx.minting q empty-IsValid v.minting
          mints in
      let (valid, weighs) =
        weighed inputs minted tx.unbuilt_outputs r (rw what (All-append _ mine _ h redeemed))
          (new ada).0 v.outputs left in
      (
        valid,
        λ q. (
          omega (arith, weighs q, new q, amount-empty q),
          λ some_asked. omega (arith, (weighs q).1 some_asked, new q, amount-empty q),
        ),
      )
