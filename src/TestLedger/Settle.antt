-- ===== src/TestLedger/Settle.antt =====
-- What `issue` writes, on the storage in memory: the value that goes and comes
-- (src/ledger_client/test_ledger_client.rs).
use naumachia.TestLedger.Built.{
  amounts, unbuilt_amounts, remainder_amount, IsValidRemainder, combined_outputs-amounts,
  combined_outputs-IsValid,
}
use naumachia.Prelude.{ℕ, ◌+◌, ◌≡◌, refl, ◌∙◌, Option, List, [], ◌∷◌, arith, All, Eq, ap, ok}
use naumachia.Prelude.Int.{pos, add_i64, mul_i64}
use naumachia.Address.{AddressLib}
use naumachia.PolicyId.{PolicyId}
use naumachia.Values.{Values, IsValid}
use naumachia.Scripts.PlutusData.{PlutusData}
use naumachia.Output.{Output, unbuilt_values}
use naumachia.Transaction.{UnbuiltTransaction}
use naumachia.TestLedger.Ledger.{>>=-eq-ok, lift, ◌>>=◌}
use naumachia.TestLedger.TxId.{HexLib}
use naumachia.TestLedger.InMemory.{
  InMemoryStorage, in_memory, remove_output, add_output, set_current_time,
}
use naumachia.TestLedger.InMemory.Totals.{AllValid, held, remove_output-held, add_output-held}
use naumachia.TestLedger.Issue.{
  remove_outputs, add_outputs, settle_tx, advance_time_n_blocks, combined_outputs, commit_outputs,
}

module _ {A D : Type 0} ⦃lib : AddressLib A⦄ ⦃d : Eq D⦄ where
  -- Removals that all return lower what is held by the sum of the outputs.
  remove_outputs-held :
      (os : List (Output D)) (s t : InMemoryStorage A D) (q : PolicyId)
      → AllValid s.outputs
      → remove_outputs in_memory os s ≡ (ok tt, t)
      → (held q s.outputs ≡ amounts q os + held q t.outputs)
        × AllValid t.outputs
        × (t ≡ record s { outputs = t.outputs })
  unfolding remove_outputs
  remove_outputs-held [] s t q h e = rw (← ap (λ r. r.1) e) (omega arith, h, refl)
  remove_outputs-held (o ∷ os) s t q h e =
      let (x, first, rest) = >>=-eq-ok (remove_output o) (λ _. remove_outputs in_memory os) s e in
      let u = (remove_output o s).1 in
      let (one, valid, same) = remove_output-held o s u q h (λ i. (first i, u)) in
      let (more, valid', same') = remove_outputs-held os u t q valid rest in
      (
        omega (arith, one, more),
        valid',
        same' ∙ ap (λ (r : InMemoryStorage A D). record r { outputs = t.outputs }) same,
      )

  -- Additions raise it likewise.
  add_outputs-held :
      (os : List (Output D)) (s t : InMemoryStorage A D) (q : PolicyId)
      → AllValid s.outputs
      → All (λ o. IsValid o.values) os
      → add_outputs in_memory os s ≡ (ok tt, t)
      → (held q t.outputs ≡ held q s.outputs + amounts q os)
        × AllValid t.outputs
        × (t ≡ record s { outputs = t.outputs })
  unfolding add_outputs
  add_outputs-held [] s t q h v e = rw (← ap (λ r. r.1) e) (omega arith, h, refl)
  add_outputs-held (o ∷ os) s t q h (v, vs) e =
      let (x, first, rest) = >>=-eq-ok (add_output o) (λ _. add_outputs in_memory os) s e in
      let u = (add_output o s).1 in
      let (one, valid, same) = add_output-held o s u q h v (λ i. (first i, u)) in
      let (more, valid', same') = add_outputs-held os u t q valid vs rest in
      (
        omega (arith, one, more),
        valid',
        same' ∙ ap (λ (r : InMemoryStorage A D). record r { outputs = t.outputs }) same,
      )

-- The storage with other outputs, one block later.
abbrev pub after_block :
    {A D : Type 0} → InMemoryStorage A D → List (A × Output D) → InMemoryStorage A D
after_block s outputs = record s {
  outputs = outputs;
  current_posix_time = add_i64 (mul_i64 s.block_length (pos 1)) s.current_posix_time;
}

module _ {A D : Type 0} ⦃lib : AddressLib A⦄ ⦃d : Eq D⦄ where
  commit_outputs-held :
      (os : List (Output D)) (s t : InMemoryStorage A D) (q : PolicyId)
      → AllValid s.outputs
      → All (λ o. IsValid o.values) os
      → commit_outputs in_memory os s ≡ (ok tt, t)
      → (held q t.outputs ≡ held q s.outputs + amounts q os)
        × AllValid t.outputs
        × (t ≡ after_block s t.outputs)
  unfolding commit_outputs advance_time_n_blocks set_current_time
  commit_outputs-held os s t q h v e =
      let storage = in_memory {A = A} {D = D} ⦃lib = lib⦄ in
      let (x, first, rest) =
        >>=-eq-ok (add_outputs storage os) (λ _. advance_time_n_blocks storage (pos 1)) s e in
      let u = (add_outputs storage os s).1 in
      let (came, valid, same) = add_outputs-held os s u q h v (λ i. (first i, u)) in
      let now : after_block u u.outputs ≡ t = ap (λ r. r.1) rest in
      rw (← now) (came, valid, ap (λ (x : InMemoryStorage A D). after_block x u.outputs) same)

module _ {A D R : Type 0} ⦃d : Eq D⦄ (lib : AddressLib A) (hex : HexLib)
    (into : D → PlutusData) where
  -- On a ledger of valid bags, with a valid remainder and valid outputs, a settlement that returns
  -- takes the amounts of the inputs away and brings those of the remainder and of the outputs; the
  -- bags stay valid, time moves by one block, and the signer and the length of a block stay.
  pub settle_tx-held :
      (tx : UnbuiltTransaction A D R) (random : List ℕ) (signer : A) (inputs : List (Output D))
      (r : Option Values) (s t : InMemoryStorage A D) (q : PolicyId)
      → AllValid s.outputs
      → IsValidRemainder r
      → All (λ u. IsValid (unbuilt_values u)) tx.unbuilt_outputs
      → settle_tx (in_memory ⦃lib = lib⦄) lib hex into tx random (signer, inputs, r) s ≡ (ok tt, t)
      → (held q t.outputs + amounts q inputs
          ≡ held q s.outputs + remainder_amount q r + unbuilt_amounts q tx.unbuilt_outputs)
        × AllValid t.outputs
        × (t ≡ after_block s t.outputs)
  unfolding settle_tx
  settle_tx-held tx random signer inputs r s t q h v vs e =
      let storage = in_memory {A = A} {D = D} ⦃lib = lib⦄ in
      let (x, first, rest) =
        >>=-eq-ok (remove_outputs storage inputs)
          (λ _.
            lift (combined_outputs lib signer r tx.unbuilt_outputs random)
            >>= commit_outputs storage)
          s e in
      let u = (remove_outputs storage inputs s).1 in
      let (gone, valid, same) =
        remove_outputs-held ⦃lib = lib⦄ inputs s u q h (λ i. (first i, u)) in
      let (os, built, rest') =
        >>=-eq-ok (lift (combined_outputs lib signer r tx.unbuilt_outputs random))
          (commit_outputs storage) u rest in
      let (came, valid', same') =
        commit_outputs-held ⦃lib = lib⦄ os u t q valid
          (combined_outputs-IsValid lib signer r tx.unbuilt_outputs random os built v vs) rest' in
      (
        omega (
          arith,
          gone,
          came,
          combined_outputs-amounts lib signer r tx.unbuilt_outputs random os q built,
        ),
        valid',
        same' ∙ ap (λ (x : InMemoryStorage A D). after_block x t.outputs) same,
      )
