-- ===== src/TestLedger/Failures.antt =====
-- What a transaction that is not issued leaves behind, on the storage in memory
-- (src/ledger_client/test_ledger_client.rs).
use naumachia.Prelude.{
  ℕ, ◌≡◌, ◌≢◌, refl, sym, ap, ◌∙◌, ◌⊎◌, inl, inr, Option, none, some, List, [], ◌∷◌, arith, Eq, err,
  Outcome-cases, Option-cases, expect, expect-ne-err, err-inj,
}
use naumachia.Prelude.{>>=-eq-err as outcome-eq-err}
use naumachia.Prelude.Int.{pos}
use naumachia.Address.{AddressLib}
use naumachia.Errors.{
  LedgerClientError, OutputId, failed_to_retrieve_output_with_id, TestLcError, test_lc,
  duplicate_input,
}
use naumachia.Values.{Values}
use naumachia.Scripts.PlutusData.{PlutusData}
use naumachia.Output.{
  Output, UnbuiltOutput, wallet, validator, new_wallet, new_validator, output_owner,
}
use naumachia.Transaction.{UnbuiltTransaction}
use naumachia.TestLedger.Ledger.{>>=-eq-err, >>=-of-err, return, lift, ◌>>◌, ◌>>=◌}
use naumachia.TestLedger.TxId.{
  HexLib, TxIdConstructionCtx, new_ctx, advance_index, new_wallet_output, new_validator_output,
  build_output, build_outputs,
}
use naumachia.TestLedger.InMemory.{
  InMemoryStorage, in_memory, remove_output, add_output, set_current_time, take_out,
}
use naumachia.TestLedger.Issue.{
  check_time_valid, check_tx, settle_tx, issue, not_issued, remove_outputs, add_outputs,
  commit_outputs, combined_outputs, remainder_output, advance_time_n_blocks,
}
use naumachia.TestLedger.Checked.{check_tx-reads}

-- Building an output panics or returns, and never fails.
module _ {A D : Type 0} (lib : AddressLib A) (x : LedgerClientError) where
  new_wallet_output-ne-err :
      (a : A) (v : Values) (c : TxIdConstructionCtx) → new_wallet_output {D = D} lib a v c ≢ err x
  unfolding new_wallet_output new_wallet
  new_wallet_output-ne-err a v c h = ground arith

  new_validator_output-ne-err :
      (a : A) (v : Values) (datum : D) (c : TxIdConstructionCtx)
      → new_validator_output lib a v datum c ≢ err x
  unfolding new_validator_output new_validator
  new_validator_output-ne-err a v datum c h = ground arith

  build_output-ne-err :
      (u : UnbuiltOutput D) (c : TxIdConstructionCtx) → build_output lib u c ≢ err x
  unfolding build_output
  build_output-ne-err (wallet owner v) c h =
      elim (outcome-eq-err (expect (lib.from_bech32 owner)) _ h) [
        | inl now ↦ expect-ne-err _ x now
        | inr (a, _, later) ↦ new_wallet_output-ne-err a v c later
      ]
  build_output-ne-err (validator owner v datum) c h =
      elim (outcome-eq-err (expect (lib.from_bech32 owner)) _ h) [
        | inl now ↦ expect-ne-err _ x now
        | inr (a, _, later) ↦ new_validator_output-ne-err a v datum c later
      ]

  build_outputs-ne-err :
      (us : List (UnbuiltOutput D)) (c : TxIdConstructionCtx) → build_outputs lib us c ≢ err x
  unfolding build_outputs
  build_outputs-ne-err [] c h = cc
  build_outputs-ne-err (u ∷ us) c h = elim (outcome-eq-err (build_output lib u c) _ h) [
    | inl now ↦ build_output-ne-err u c now
    | inr (o, _, later) ↦ elim (outcome-eq-err (build_outputs lib us (advance_index c)) _ later) [
      | inl now ↦ build_outputs-ne-err us (advance_index c) now
      | inr (os, _, end) ↦ cc
    ]
  ]

  remainder_output-ne-err :
      (a : A) (r : Option Values) (c : TxIdConstructionCtx)
      → remainder_output {D = D} lib a r c ≢ err x
  unfolding remainder_output
  remainder_output-ne-err a none c h = cc
  remainder_output-ne-err a (some v) c h =
      let never = new_wallet_output-ne-err a v c in ground (arith, never)

  combined_outputs-ne-err :
      (a : A) (r : Option Values) (us : List (UnbuiltOutput D)) (random : List ℕ)
      → combined_outputs lib a r us random ≢ err x
  unfolding combined_outputs
  combined_outputs-ne-err a r us random h =
      elim (outcome-eq-err (remainder_output lib a r (new_ctx random)) _ h) [
        | inl now ↦ remainder_output-ne-err a r (new_ctx random) now
        | inr ((rem, c), _, later) ↦ elim (outcome-eq-err (build_outputs lib us c) _ later) [
          | inl now ↦ build_outputs-ne-err us c now
          | inr (built, _, end) ↦ cc
        ]
      ]

module _ {A D : Type 0} ⦃lib : AddressLib A⦄ ⦃d : Eq D⦄ where
  -- A removal fails where no output of the ledger equals the given one, and names it.
  remove_output-err :
      (o : Output D) (s t : InMemoryStorage A D) (x : LedgerClientError)
      → remove_output o s ≡ (err x, t)
      → x ≡ failed_to_retrieve_output_with_id o.id (test_lc duplicate_input)
  unfolding remove_output
  remove_output-err o s t x e = elim (Option-cases (take_out o s.outputs)) [
    | inl nothing ↦ sym (err-inj (ap (λ r. r.0) (rw (remove_output, nothing) at e)))
    | inr (left, found) ↦ absurd (cc (ap (λ r. r.0) (rw (remove_output, found) at e)))
  ]

  remove_outputs-err :
      (os : List (Output D)) (s t : InMemoryStorage A D) (x : LedgerClientError)
      → remove_outputs in_memory os s ≡ (err x, t)
      → (id : OutputId) × (x ≡ failed_to_retrieve_output_with_id id (test_lc duplicate_input))
  unfolding remove_outputs
  remove_outputs-err [] s t x e = absurd (cc (ap (λ r. r.0) e))
  remove_outputs-err (o ∷ os) s t x e =
      elim (>>=-eq-err (remove_output o) (λ _. remove_outputs in_memory os) s e) [
        | inl (now, _) ↦ (
          o.id,
          remove_output-err o s (remove_output o s).1 x (λ i. (now i, (remove_output o s).1)),
        )
        | inr (_, _, later) ↦ remove_outputs-err os (remove_output o s).1 t x later
      ]

  add_output-ne-err :
      (o : Output D) (s t : InMemoryStorage A D) (x : LedgerClientError)
      → add_output o s ≢ (err x, t)
  unfolding add_output output_owner
  add_output-ne-err o s t x e =
      elim (Outcome-cases (output_owner {A = A} {E = LedgerClientError} ⦃lib = lib⦄ o)) [
        | inl (owner, decoded) ↦ absurd (cc (ap (λ r. r.0) (rw (add_output, decoded) at e)))
        | inr (inl (y, failed)) ↦ expect-ne-err (lib.from_bech32 o.owner) y failed
        | inr (inr failed) ↦ absurd (cc (ap (λ r. r.0) (rw (add_output, failed) at e)))
      ]

  add_outputs-ne-err :
      (os : List (Output D)) (s t : InMemoryStorage A D) (x : LedgerClientError)
      → add_outputs in_memory os s ≢ (err x, t)
  unfolding add_outputs
  add_outputs-ne-err [] s t x e = absurd (cc (ap (λ r. r.0) e))
  add_outputs-ne-err (o ∷ os) s t x e =
      elim (>>=-eq-err (add_output o) (λ _. add_outputs in_memory os) s e) [
        | inl (now, _) ↦
            add_output-ne-err o s (add_output o s).1 x (λ i. (now i, (add_output o s).1))
        | inr (_, _, later) ↦ add_outputs-ne-err os (add_output o s).1 t x later
      ]

  commit_outputs-ne-err :
      (os : List (Output D)) (s t : InMemoryStorage A D) (x : LedgerClientError)
      → commit_outputs in_memory os s ≢ (err x, t)
  unfolding commit_outputs advance_time_n_blocks set_current_time
  commit_outputs-ne-err os s t x e =
      let storage = in_memory {A = A} {D = D} ⦃lib = lib⦄ in
      elim (>>=-eq-err (add_outputs storage os) (λ _. advance_time_n_blocks storage (pos 1)) s e) [
        | inl (now, _) ↦
            add_outputs-ne-err os s (add_outputs storage os s).1 x
              (λ i. (now i, (add_outputs storage os s).1))
        | inr (_, _, end) ↦ absurd (cc (ap (λ r. r.0) end))
      ]

module _ {A D R : Type 0} ⦃d : Eq D⦄ (lib : AddressLib A) (hex : HexLib)
    (into : D → PlutusData) where
  settle_tx-err :
      (tx : UnbuiltTransaction A D R) (random : List ℕ) (c : A × List (Output D) × Option Values)
      (s t : InMemoryStorage A D) (x : LedgerClientError)
      → settle_tx (in_memory ⦃lib = lib⦄) lib hex into tx random c s ≡ (err x, t)
      → (id : OutputId) × (x ≡ failed_to_retrieve_output_with_id id (test_lc duplicate_input))
  unfolding settle_tx
  settle_tx-err tx random (signer, inputs, r) s t x e =
      let storage = in_memory {A = A} {D = D} ⦃lib = lib⦄ in
      let u = (remove_outputs storage inputs s).1 in
      let build = lift (combined_outputs lib signer r tx.unbuilt_outputs random) in
      elim (>>=-eq-err (remove_outputs storage inputs) (λ _. build >>= commit_outputs storage) s
        e) [
          | inl (now, _) ↦ remove_outputs-err ⦃lib = lib⦄ inputs s u x (λ i. (now i, u))
          | inr (_, _, later) ↦ elim (>>=-eq-err build (commit_outputs storage) u later) [
            | inl (now, _) ↦
                absurd (combined_outputs-ne-err lib x signer r tx.unbuilt_outputs random now)
            | inr (os, _, end) ↦ absurd (commit_outputs-ne-err ⦃lib = lib⦄ os u t x end)
          ]
        ]

  -- A transaction that `issue` refuses with an error leaves the ledger as it was, unless the error
  -- is that an input was not found on the ledger.
  pub issue-err :
      (tx : UnbuiltTransaction A D R) (random : List ℕ) (s t : InMemoryStorage A D)
      (x : LedgerClientError)
      → issue (in_memory ⦃lib = lib⦄) lib hex into tx random s ≡ (err x, t)
      → (t ≡ s)
        ⊎ ((id : OutputId) × (x ≡ failed_to_retrieve_output_with_id id (test_lc duplicate_input)))
  unfolding issue
  issue-err tx random s t x e =
      let storage = in_memory {A = A} {D = D} ⦃lib = lib⦄ in
      let checks = check_tx storage lib hex into tx in
      let same = ap (λ r. r.1) (check_tx-reads lib hex into tx s) in
      let settles =
        λ (c : A × List (Output D) × Option Values). settle_tx storage lib hex into tx random c in
      elim (>>=-eq-err checks (λ c. settles c >> return (hex.encode random)) s e) [
        | inl (_, left) ↦ inl (sym left ∙ same)
        | inr (c, _, later) ↦
            let u = (checks s).1 in
            let v = (settles c u).1 in
            elim (>>=-eq-err (settles c) (λ _. return (hex.encode random)) u later) [
              | inl (now, _) ↦ inr (settle_tx-err tx random c u v x (λ i. (now i, v)))
              | inr (_, _, end) ↦ absurd (cc (ap (λ r. r.0) end))
            ]
      ]

  -- Outside its validity range, as `check_time_valid` has it, a transaction is refused with that
  -- error, before anything else is looked at, and the ledger is left as it was.
  pub issue-out_of_time :
      (tx : UnbuiltTransaction A D R) (random : List ℕ) (s : InMemoryStorage A D) (e : TestLcError)
      → check_time_valid tx.valid_range s.current_posix_time ≡ err e
      → issue (in_memory ⦃lib = lib⦄) lib hex into tx random s ≡ (err (not_issued e), s)
  unfolding issue
  issue-out_of_time tx random s e h =
      let storage = in_memory {A = A} {D = D} ⦃lib = lib⦄ in
      >>=-of-err (check_tx storage lib hex into tx)
        (λ c. settle_tx storage lib hex into tx random c >> return (hex.encode random)) s
        (check_tx-reads lib hex into tx s ∙ rw h refl)
