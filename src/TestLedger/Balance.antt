-- ===== src/TestLedger/Balance.antt =====
-- The balance at an address, on the storage in memory (src/ledger_client.rs).
use naumachia.Prelude.{
  ℕ, ◌+◌, ◌%◌, ◌^◌, ◌<◌, ◌≡◌, refl, ap, List, [], ◌∷◌, arith, sum_of, Eq, Bool-cases, Option-cases,
  inl, inr, if◌then◌else◌, ok, u64_mod,
}
use naumachia.HashMap.{get}
use naumachia.Address.{AddressLib}
use naumachia.PolicyId.{PolicyId, policy_eq}
use naumachia.Values.{amount, get_value}
use naumachia.Values.Add.{amount-absent, amount-listed}
use naumachia.Output.{Output}
use naumachia.TestLedger.InMemory.{InMemoryStorage, at_address, in_memory}
use naumachia.TestLedger.Issue.{sum_policy, balance_at_address}

pub sum_policy-sum :
    {D : Type 0} (q : PolicyId) (acc : ℕ) (os : List (Output D))
    → acc < u64_mod
    → sum_policy q acc os ≡ (acc + sum_of (λ o. amount o.values q) os) % 2 ^ 64
unfolding sum_policy get_value
sum_policy-sum q acc [] small = omega (arith, small)
sum_policy-sum q acc (o ∷ os) small = elim (Option-cases (get q o.values.values)) [
  | inl absent ↦
      rw absent (omega (arith, amount-absent o.values q absent, sum_policy-sum q acc os small))
  | inr (a, found) ↦ rw found (
      omega (
        arith,
        amount-listed o.values q a found,
        sum_policy-sum q ((acc + a) % 2 ^ 64) os (omega arith),
      ))
]

module _ {A D : Type 0} ⦃lib : AddressLib A⦄ ⦃d : Eq D⦄ where
  -- What is filed under an address, in one policy.
  abbrev pub held_by : A → PolicyId → List (A × Output D) → ℕ
  held_by a q = sum_of (λ x. if lib.address_eq.beq x.0 a then amount x.1.values q else 0)

  at_address-held_by :
      (a : A) (q : PolicyId) (outputs : List (A × Output D))
      → sum_of (λ o. amount o.values q) (at_address a outputs) ≡ held_by a q outputs
  unfolding at_address
  at_address-held_by a q [] = refl
  at_address-held_by a q ((b, o) ∷ outputs) = elim (Bool-cases (lib.address_eq.beq b a)) [
    | inl here ↦ rw here (ap (λ t. amount o.values q + t) (at_address-held_by a q outputs))
    | inr there ↦ rw there (omega (arith, at_address-held_by a q outputs))
  ]

  -- The balance at an address is the sum, modulo 2^64, of the policy's amounts in the outputs that
  -- are filed under the address, and reading it leaves the ledger as it was.
  pub balance_at_address-held_by :
      (a : A) (q : PolicyId) (s : InMemoryStorage A D)
      → balance_at_address in_memory a q s ≡ (ok (held_by a q s.outputs % 2 ^ 64), s)
  unfolding balance_at_address
  balance_at_address-held_by a q s =
      let sum = sum_policy-sum q 0 (at_address a s.outputs) (omega arith) in
      let total : sum_policy q 0 (at_address a s.outputs) ≡ held_by a q s.outputs % 2 ^ 64 =
        omega (arith, sum, at_address-held_by a q s.outputs) in
      ap (λ (n : ℕ). (ok n, s)) total
