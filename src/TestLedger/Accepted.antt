-- ===== src/TestLedger/Accepted.antt =====
-- Every script of a transaction that is issued has run and accepted
-- (src/ledger_client/test_ledger_client.rs).
use naumachia.Prelude.{
  ℕ, ◌≡◌, refl, false, Bool-cases, inl, inr, ◌⊎◌, Option, List, [], ◌∷◌, ◌++◌, String, All, Eq, ok,
  ok-inj, map_err, map_err-ok,
}
use naumachia.Prelude.{>>=-eq-ok as outcome-eq-ok}
use naumachia.Address.{AddressLib}
use naumachia.Values.{Values, empty}
use naumachia.Scripts.PlutusData.{PlutusData}
use naumachia.Scripts.{ExecutionCost}
use naumachia.Scripts.Context.{TxContext}
use naumachia.Output.{Output, DatumKind, typed, untyped, no_datum}
use naumachia.Transaction.{UnbuiltTransaction, RedemptionDetails, Minting}
use naumachia.TestLedger.TxId.{HexLib}
use naumachia.TestLedger.Contexts.{mint_tx_context, spend_tx_context}
use naumachia.TestLedger.InMemory.{InMemoryStorage, in_memory}
use naumachia.TestLedger.Inputs.{contains, script_failed, spend_one, spend_all, mint_one, mint_all}
use naumachia.TestLedger.Issue.{issue, weigh_tx}
use naumachia.TestLedger.Conservation.{issue-parts}

DatumKind-cases :
    {D : Type 0} (k : DatumKind D)
    → ((x : D) × (k ≡ typed x)) ⊎ ((x : PlutusData) × (k ≡ untyped x)) ⊎ (k ≡ no_datum)
DatumKind-cases (typed x) = inl (x, refl)
DatumKind-cases (untyped x) = inr (inl (x, refl))
DatumKind-cases no_datum = inr (inr refl)

module _ {A D R : Type 0} ⦃d : Eq D⦄ (lib : AddressLib A) (hex : HexLib) (into : D → PlutusData)
    (tx : UnbuiltTransaction A D R) (signer : A) where
  -- The validator accepted its typed datum in the context of the transaction.
  abbrev pub Unlocks : RedemptionDetails A D R → Type 0
  Unlocks (input, redeemer, script) =
      (datum : D) × (ctx : TxContext A) × (cost : ExecutionCost) × (input.datum ≡ typed datum)
      × (spend_tx_context lib into tx signer input ≡ ok ctx)
      × (script.execute datum redeemer ctx ≡ ok cost)

  -- No redemption is of an output that was redeemed before, and every validator accepted.
  abbrev pub Redeems : List (Output D) → List (RedemptionDetails A D R) → Type 0
  Redeems spent [] = Unit
  Redeems spent (x ∷ xs) = (contains spent x.0 ≡ false) × Unlocks x × Redeems (spent ++ x.0 ∷ []) xs

  -- The minting policy has an id, and accepted in the context of the transaction.
  abbrev pub Mints : Minting A R → Type 0
  Mints (amount, asset_name, redeemer, policy) =
      (id : String) × (ctx : TxContext A) × (cost : ExecutionCost) × (policy.id ≡ ok id)
      × (mint_tx_context lib into hex tx signer id ≡ ok ctx)
      × (policy.execute redeemer ctx ≡ ok cost)

  spend_one-Unlocks :
      (spent after : List (Output D)) (x : RedemptionDetails A D R)
      → spend_one lib hex into tx signer spent x ≡ ok after
      → (contains spent x.0 ≡ false) × Unlocks x × (spent ++ x.0 ∷ [] ≡ after)
  unfolding spend_one
  spend_one-Unlocks spent after (input, redeemer, script) e = elim (DatumKind-cases input.datum) [
    | inl (datum, is_typed) ↦ elim (Bool-cases (contains spent input)) [
      | inl dup ↦ absurd (cc (rw (spend_one, is_typed, dup) at e))
      | inr fresh ↦
          let (ctx, made, e') =
            outcome-eq-ok (spend_tx_context lib into tx signer input) _
              (rw (spend_one, is_typed, fresh) at e) in
          let (cost, runs, end) =
            outcome-eq-ok (map_err script_failed (script.execute datum redeemer ctx)) _ e' in
          (fresh, (datum, ctx, cost, is_typed, made, map_err-ok _ _ cost runs), ok-inj end)
    ]
    | inr (inl (raw, is_untyped)) ↦ absurd (cc (rw (spend_one, is_untyped) at e))
    | inr (inr nothing) ↦ absurd (cc (rw (spend_one, nothing) at e))
  ]

  spend_all-Redeems :
      (spent after : List (Output D)) (xs : List (RedemptionDetails A D R))
      → spend_all lib hex into tx signer spent xs ≡ ok after
      → Redeems spent xs
  unfolding spend_all
  spend_all-Redeems spent after [] e = tt
  spend_all-Redeems spent after (x ∷ xs) e =
      let (mid, one, rest) = outcome-eq-ok (spend_one lib hex into tx signer spent x) _ e in
      let (fresh, unlocks, grown) = spend_one-Unlocks spent mid x one in
      (fresh, unlocks, spend_all-Redeems (spent ++ x.0 ∷ []) after xs (rw (grown) rest))

  mint_one-Mints :
      (v w : Values) (m : Minting A R) → mint_one lib hex into tx signer v m ≡ ok w → Mints m
  unfolding mint_one
  mint_one-Mints v w (amt, asset_name, redeemer, policy) e =
      let (id, named, e') = outcome-eq-ok (map_err script_failed policy.id) _ e in
      let (ctx, made, e'') = outcome-eq-ok (mint_tx_context lib into hex tx signer id) _ e' in
      let (u, runs, end) =
        outcome-eq-ok (map_err script_failed (policy.execute redeemer ctx)) _ e'' in
      (id, ctx, u, map_err-ok _ _ id named, made, map_err-ok _ _ u runs)

  mint_all-Mints :
      (v w : Values) (ms : List (Minting A R))
      → mint_all lib hex into tx signer v ms ≡ ok w
      → All Mints ms
  unfolding mint_all
  mint_all-Mints v w [] e = tt
  mint_all-Mints v w (m ∷ ms) e =
      let (u, one, rest) = outcome-eq-ok (mint_one lib hex into tx signer v m) _ e in
      (mint_one-Mints v u m one, mint_all-Mints u w ms rest)

module _ {A D R : Type 0} ⦃d : Eq D⦄ (lib : AddressLib A) (hex : HexLib)
    (into : D → PlutusData) where
  weigh_tx-accepts :
      (tx : UnbuiltTransaction A D R) (signer : A) (mine : List (Output D))
      (c : A × List (Output D) × Option Values)
      → weigh_tx (in_memory ⦃lib = lib⦄) lib hex into tx signer mine ≡ ok c
      → Redeems lib hex into tx signer [] tx.script_inputs
        × All (Mints lib hex into tx signer) tx.minting
  unfolding weigh_tx
  weigh_tx-accepts tx signer mine c e =
      let (spent, run, e') =
        outcome-eq-ok (spend_all lib hex into tx signer [] tx.script_inputs) _ e in
      let (minted, mints, _) =
        outcome-eq-ok (mint_all lib hex into tx signer empty tx.minting) _ e' in
      (
        spend_all-Redeems lib hex into tx signer [] spent tx.script_inputs run,
        mint_all-Mints lib hex into tx signer empty minted tx.minting mints,
      )

  -- In a transaction that `issue` issues, no script input equals an earlier one; each has a typed
  -- datum, and its validator accepted that datum and its redeemer in the context built for it; and
  -- each minting policy has an id and accepted its redeemer in the context built for that id.
  pub issue-accepted :
      (tx : UnbuiltTransaction A D R) (random : List ℕ) (s t : InMemoryStorage A D) (id : String)
      → issue (in_memory ⦃lib = lib⦄) lib hex into tx random s ≡ (ok id, t)
      → Redeems lib hex into tx s.signer [] tx.script_inputs
        × All (Mints lib hex into tx s.signer) tx.minting
  issue-accepted tx random s t id e =
      let (_, _, (c, weighs, _)) = issue-parts lib hex into tx random s t id e in
      weigh_tx-accepts tx s.signer _ c weighs
