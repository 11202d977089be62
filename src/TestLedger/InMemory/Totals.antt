-- ===== src/TestLedger/InMemory/Totals.antt =====
-- What the ledger in memory holds in all of a policy
-- (src/ledger_client/test_ledger_client/in_memory_storage.rs).
use naumachia.Errors.{LedgerClientError}
use naumachia.Prelude.{
  ℕ, ◌+◌, ◌≡◌, refl, true, none, some, List, [], ◌∷◌, ◌++◌, arith, sum_of, sum_of-append, All,
  All-append, Eq, Bool-cases, Option-cases, inl, inr, ok, ap, some-inj, ◌⊎◌, Outcome-cases,
}
use naumachia.Address.{AddressLib}
use naumachia.PolicyId.{PolicyId}
use naumachia.Values.{IsValid, amount}
use naumachia.Output.{Output, output_owner}
use naumachia.Output.Equality.{output_beq, output_beq_sound}
use naumachia.TestLedger.InMemory.{InMemoryStorage, take_out, remove_output, add_output}

module _ {A D : Type 0} where
  -- Every output of the ledger holds a valid bag.
  abbrev pub AllValid : List (A × Output D) → Type 0
  AllValid = All (λ x. IsValid x.1.values)

  abbrev pub held : PolicyId → List (A × Output D) → ℕ
  held q = sum_of (λ x. amount x.1.values q)

  module _ ⦃lib : AddressLib A⦄ ⦃d : Eq D⦄ where
    pub take_out-cons :
        (o x : Output D) (a : A) (outputs left : List (A × Output D))
        → take_out o ((a, x) ∷ outputs) ≡ some left
        → ((output_beq x o ≡ true) × (outputs ≡ left))
          ⊎ ((l : List (A × Output D)) × (take_out o outputs ≡ some l) × ((a, x) ∷ l ≡ left))
    unfolding take_out
    take_out-cons o x a outputs left e = elim (Bool-cases (output_beq x o)) [
      | inl same ↦ inl (same, some-inj (rw same at e))
      | inr other ↦ elim (Option-cases (take_out o outputs)) [
        | inl nothing ↦ absurd (cc (rw (other, nothing) at e))
        | inr (l, found) ↦ inr (l, found, some-inj (rw (other, found) at e))
      ]
    ]

    pub take_out-nil : (o : Output D) → take_out {A = A} o [] ≡ none
    unfolding take_out
    take_out-nil o = refl

    -- Taking an output out lowers what is held by its amount.
    pub take_out-held :
        (o : Output D) (outputs left : List (A × Output D)) (q : PolicyId)
        → AllValid outputs
        → take_out o outputs ≡ some left
        → (held q outputs ≡ amount o.values q + held q left) × AllValid left
    take_out-held o [] left q h e = absurd (cc (rw (take_out-nil o) at e))
    take_out-held o ((a, x) ∷ outputs) left q (v, vs) e =
        elim (take_out-cons o x a outputs left e) [
          | inl (same, here) ↦
              rw (← here) (ap (λ t. t + held q outputs) ((output_beq_sound x o v same).2 q), vs)
          | inr (l, found, there) ↦
              let (sum, valid) = take_out-held o outputs l q vs found in
              rw (← there) (omega (arith, sum), (v, valid))
        ]

    -- On a ledger of valid bags, a removal that returns lowers what is held of a policy by the amount
    -- in the output, keeps the bags valid, and changes nothing but the outputs.
    pub remove_output-held :
        (o : Output D) (s t : InMemoryStorage A D) (q : PolicyId)
        → AllValid s.outputs
        → remove_output o s ≡ (ok tt, t)
        → (held q s.outputs ≡ amount o.values q + held q t.outputs)
          × AllValid t.outputs
          × (t ≡ record s { outputs = t.outputs })
    unfolding remove_output
    remove_output-held o s t q h e = elim (Option-cases (take_out o s.outputs)) [
      | inl nothing ↦ absurd (cc (ap (λ r. r.0) (rw (remove_output, nothing) at e)))
      | inr (left, found) ↦
          let now : record s { outputs = left } ≡ t =
            ap (λ r. r.1) (rw (remove_output, found) at e) in
          let (sum, valid) = take_out-held o s.outputs left q h found in
          rw (← now) (sum, valid, refl)
    ]

    -- On a ledger of valid bags, the addition of an output with a valid bag, where it returns, raises
    -- what is held of a policy by the amount in the output, keeps the bags valid, and changes nothing
    -- but the outputs.
    pub add_output-held :
        (o : Output D) (s t : InMemoryStorage A D) (q : PolicyId)
        → AllValid s.outputs
        → IsValid o.values
        → add_output o s ≡ (ok tt, t)
        → (held q t.outputs ≡ held q s.outputs + amount o.values q)
          × AllValid t.outputs
          × (t ≡ record s { outputs = t.outputs })
    unfolding add_output
    add_output-held o s t q h v e =
        elim (Outcome-cases (output_owner {A = A} {E = LedgerClientError} ⦃lib = lib⦄ o)) [
          | inl (owner, decoded) ↦
              let now : record s { outputs = s.outputs ++ (owner, o) ∷ [] } ≡ t =
                ap (λ r. r.1) (rw (add_output, decoded) at e) in
              rw (← now) (
                omega (
                  arith,
                  sum_of-append (λ (x : A × Output D). amount x.1.values q) s.outputs
                      ((owner, o) ∷ []),
                ),
                All-append _ s.outputs ((owner, o) ∷ []) h (v, tt),
                refl,
              )
          | inr (inl (x, failed)) ↦ absurd (cc (ap (λ r. r.0) (rw (add_output, failed) at e)))
          | inr (inr failed) ↦ absurd (cc (ap (λ r. r.0) (rw (add_output, failed) at e)))
        ]
