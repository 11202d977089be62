-- ===== src/TestLedger/Conservation.antt =====
-- A transaction that is issued on the storage in memory moves and mints value, and loses or
-- creates none (src/ledger_client/test_ledger_client.rs).
use naumachia.Prelude.{
  ℕ, ◌+◌, ◌%◌, ◌^◌, ◌<◌, ◌≤◌, ◌≡◌, sym, ap, ◌∙◌, Option, List, String, arith, Eq, ok, ok-inj,
  map_err, u64_mod,
}
use naumachia.Prelude.{>>=-eq-ok as outcome-eq-ok}
use naumachia.Address.{AddressLib}
use naumachia.PolicyId.{PolicyId, ada}
use naumachia.Values.{Values}
use naumachia.Scripts.PlutusData.{PlutusData}
use naumachia.Output.{Output}
use naumachia.Transaction.{UnbuiltTransaction}
use naumachia.TestLedger.Ledger.{>>=-eq-ok, return, ◌>>◌}
use naumachia.TestLedger.TxId.{HexLib}
use naumachia.TestLedger.InMemory.{InMemoryStorage, in_memory, at_address}
use naumachia.TestLedger.InMemory.Totals.{AllValid, held}
use naumachia.TestLedger.Issue.{check_time_valid, check_tx, weigh_tx, settle_tx, issue, not_issued}
use naumachia.TestLedger.Built.{unbuilt_amounts}
use naumachia.TestLedger.Minted.{minted_amounts}
use naumachia.TestLedger.Checked.{IsValidTx, at_address-IsValid, check_tx-reads, weigh_tx-Weighs}
use naumachia.TestLedger.Settle.{after_block, settle_tx-held}

module _ {A D R : Type 0} ⦃d : Eq D⦄ (lib : AddressLib A) (hex : HexLib)
    (into : D → PlutusData) where
  -- What a transaction that is issued went through.
  pub issue-parts :
      (tx : UnbuiltTransaction A D R) (random : List ℕ) (s t : InMemoryStorage A D) (id : String)
      → issue (in_memory ⦃lib = lib⦄) lib hex into tx random s ≡ (ok id, t)
      → (id ≡ hex.encode random)
        × (map_err not_issued (check_time_valid tx.valid_range s.current_posix_time) ≡ ok tt)
        × ((c : A × List (Output D) × Option Values) × (weigh_tx
                (in_memory ⦃lib = lib⦄)
                lib
                hex
                into
                tx
                s.signer
                (at_address ⦃lib = lib⦄ s.signer s.outputs)
              ≡ ok c)
            × (settle_tx (in_memory ⦃lib = lib⦄) lib hex into tx random c s ≡ (ok tt, t)))
  unfolding issue
  issue-parts tx random s t id e =
      let storage = in_memory {A = A} {D = D} ⦃lib = lib⦄ in
      let (c, checks, e') =
        >>=-eq-ok (check_tx storage lib hex into tx)
          (λ c. settle_tx storage lib hex into tx random c >> return (hex.encode random)) s e in
      let (_, settles, end) =
        >>=-eq-ok (settle_tx storage lib hex into tx random c) (λ _. return (hex.encode random))
          (check_tx storage lib hex into tx s).1 e' in
      let reads = check_tx-reads lib hex into tx s in
      let (_, in_time, weighs) =
        outcome-eq-ok (map_err not_issued _) _ (sym (ap (λ x. x.0) reads) ∙ checks) in
      let same = ap (λ x. x.1) reads in
      let settled : settle_tx storage lib hex into tx random c
            (check_tx storage lib hex into tx s).1
          ≡ (ok tt, t) =
        λ i. (settles i, (end i).1) in
      (ok-inj (sym (ap (λ x. x.0) end)), in_time, (c, weighs, rw same at settled))

  -- A transaction with valid bags that `issue` issues on a ledger of valid bags: the id is the hash
  -- in hex, the ledger's bags stay valid, time moves by one block, signer and block length stay,
  -- and of every policy that the outputs ask for, the ledger holds what it held and what was
  -- minted, modulo 2^64.
  pub issue-conserves :
      (tx : UnbuiltTransaction A D R) (random : List ℕ) (s t : InMemoryStorage A D) (id : String)
      → IsValidTx tx
      → AllValid s.outputs
      → issue (in_memory ⦃lib = lib⦄) lib hex into tx random s ≡ (ok id, t)
      → (id ≡ hex.encode random)
        × (t ≡ after_block s t.outputs)
        × AllValid t.outputs
        × ((q : PolicyId)
            → 0 < unbuilt_amounts q tx.unbuilt_outputs % 2 ^ 64
            → held q t.outputs % 2 ^ 64 ≡ (held q s.outputs + minted_amounts q tx.minting) % 2 ^ 64)
  issue-conserves tx random s t id v h e =
      let (named, _, ((a, inputs, r), weighs, settles)) = issue-parts tx random s t id e in
      let (valid, exact) =
        weigh_tx-Weighs lib hex into tx s.signer a _ inputs r v
          (at_address-IsValid ⦃lib = lib⦄ s.signer s.outputs h) weighs in
      let settled = λ (q : PolicyId).
        settle_tx-held lib hex into tx random a inputs r s t q h valid v.outputs settles in
      (
        named,
        (settled ada).2,
        (settled ada).1,
        λ q asked. omega (arith, (settled q).0, (exact q).1 asked),
      )

  -- Where the outputs that a transaction with valid bags asks for do not reach 2^64 of a policy, a
  -- ledger of valid bags on which it is issued holds no more of the policy than it held and what was
  -- minted.
  pub issue-creates_nothing :
      (tx : UnbuiltTransaction A D R) (random : List ℕ) (s t : InMemoryStorage A D) (id : String)
      (q : PolicyId)
      → IsValidTx tx
      → AllValid s.outputs
      → issue (in_memory ⦃lib = lib⦄) lib hex into tx random s ≡ (ok id, t)
      → unbuilt_amounts q tx.unbuilt_outputs < u64_mod
      → held q t.outputs ≤ held q s.outputs + minted_amounts q tx.minting
  issue-creates_nothing tx random s t id q v h e fits =
      let (named, _, ((a, inputs, r), weighs, settles)) = issue-parts tx random s t id e in
      let (valid, exact) =
        weigh_tx-Weighs lib hex into tx s.signer a _ inputs r v
          (at_address-IsValid ⦃lib = lib⦄ s.signer s.outputs h) weighs in
      let settled =
        settle_tx-held lib hex into tx random a inputs r s t q h valid v.outputs settles in
      omega (arith, settled, exact q, fits)
