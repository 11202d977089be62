-- ===== src/TestLedger/Builder.antt =====
-- The builder of the fake ledger, with its sub-builder of outputs
-- (src/ledger_client/test_ledger_client.rs). `arbitrary_tx_id` is an argument.
use naumachia.Prelude.{
  ℕ, Option, none, some, List, [], ◌∷◌, ◌++◌, add_u64, ◌+◌, ◌%◌, ◌^◌, ◌<◌, ◌≡◌, ◌==◌, if◌then◌else◌,
  u64_mod, Option-cases, Bool-cases, inl, inr, arith, ap, sym, ◌∙◌, Outcome, ok, ◌>>=◌,
}
use naumachia.Prelude.Int.{ℤ, pos}
use naumachia.Address.{AddressLib}
use naumachia.HashMap.{get}
use naumachia.PolicyId.{PolicyId, policy_eq}
use naumachia.Values.{Values, empty, add_one_value, get_value, IsValid, amount}
use naumachia.Values.Add.{amount-add_one_value, amount-absent, amount-listed}
use naumachia.Output.{Output, new_wallet, new_validator}
use naumachia.TestLedger.InMemory.{InMemoryStorage}

pub record TestLedgerClientBuilder (A D : Type 0) : Type 0 where
  pub signer : A
  pub outputs : List (A × Output D)
  pub starting_time : ℤ
  pub block_length : ℤ

pub record OutputBuilder (A D : Type 0) : Type 0 where
  pub inner : TestLedgerClientBuilder A D
  pub owner : A
  pub values : Values
  pub datum : Option D

module _ {A D : Type 0} where
  -- `TestLedgerClientBuilder::new`
  abbrev pub ledger_builder : A → TestLedgerClientBuilder A D
  ledger_builder signer = record {
    signer = signer;
    outputs = [];
    starting_time = pos 0;
    block_length = pos 20;
  }

  abbrev pub start_output : TestLedgerClientBuilder A D → A → OutputBuilder A D
  start_output b owner = record { inner = b; owner = owner; values = empty; datum = none }

  -- `TestLedgerClientBuilder::add_output`
  abbrev pub file_output : TestLedgerClientBuilder A D → A → Output D → TestLedgerClientBuilder A D
  file_output b address output = record b { outputs = b.outputs ++ (address, output) ∷ [] }

  abbrev pub with_starting_time : TestLedgerClientBuilder A D → ℤ → TestLedgerClientBuilder A D
  with_starting_time b starting_time = record b { starting_time = starting_time }

  abbrev pub with_block_length : TestLedgerClientBuilder A D → ℤ → TestLedgerClientBuilder A D
  with_block_length b block_length = record b { block_length = block_length }

  -- `build_in_memory` and `TestLedgerClient::new_in_memory`
  abbrev pub build_in_memory : TestLedgerClientBuilder A D → InMemoryStorage A D
  build_in_memory b = record {
    signer = b.signer;
    outputs = b.outputs;
    current_posix_time = b.starting_time;
    block_length = b.block_length;
  }

  -- `OutputBuilder::with_value`; `add_one_value` adds to the total once more.
  unfoldable pub with_value : OutputBuilder A D → PolicyId → ℕ → OutputBuilder A D
  with_value b policy amount =
      let new_total : ℕ = elim (get_value b.values policy) [
        | some total ↦ add_u64 amount total
        | none ↦ amount
      ] in
      record b { values = add_one_value b.values policy new_total }

  abbrev pub with_datum : OutputBuilder A D → D → OutputBuilder A D
  with_datum b datum = record b { datum = some datum }

  module _ {E : Type 0} ⦃lib : AddressLib A⦄ where
    abbrev built_output : List ℕ → A → Values → Option D → Outcome E (Output D)
    built_output tx_hash address values (some datum) = new_validator tx_hash 0 address values datum
    built_output tx_hash address values none = new_wallet tx_hash 0 address values

    abbrev pub finish_output : List ℕ → OutputBuilder A D → Outcome E (TestLedgerClientBuilder A D)
    finish_output tx_hash b = do
      output ← built_output tx_hash b.owner b.values b.datum
      ok (file_output b.inner b.owner output)

  with_value-total :
      (b : OutputBuilder A D) (policy : PolicyId) (amt : ℕ)
      → amt < u64_mod
      → (with_value b policy amt).values
        ≡ add_one_value b.values policy ((amt + amount b.values policy) % 2 ^ 64)
  unfolding with_value get_value
  with_value-total b policy amt fits = elim (Option-cases (get policy b.values.values)) [
    | inl absent ↦ rw absent (
        ap (add_one_value b.values policy)
          (omega (arith, fits, amount-absent b.values policy absent)))
    | inr (total, found) ↦ rw found (
        ap (λ a. add_one_value b.values policy ((amt + a) % 2 ^ 64))
          (sym (amount-listed b.values policy total found)))
  ]

  -- A u64 amount that is added to an output in the making, with a valid bag so far, adds to its policy
  -- that amount and, once more, what was there already, modulo 2^64; it adds to no other policy.
  pub with_value-amount :
      (b : OutputBuilder A D) (policy q : PolicyId) (amt : ℕ)
      → IsValid b.values
      → amt < u64_mod
      → amount (with_value b policy amt).values q
        ≡ (amount b.values q + (if q == policy then amt + amount b.values policy else 0)) % 2 ^ 64
  with_value-amount b policy q amt h fits =
      let total = (amt + amount b.values policy) % 2 ^ 64 in
      let sum = amount-add_one_value b.values policy total q h (omega arith) in
      ap (λ v. amount v q) (with_value-total b policy amt fits) ∙ elim (Bool-cases (q == policy)) [
        | inl same ↦ rw (same) (omega (arith, rw same at sum))
        | inr other ↦ rw (other) (omega (arith, rw other at sum))
      ]
