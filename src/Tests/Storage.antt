-- ===== src/Tests/Storage.antt =====
-- The properties of the storage and of what is written to it, each applied to concrete data.
use naumachia.Prelude.{
  ℕ, ◌≡◌, ◌+◌, ◌%◌, ◌^◌, refl, arith, String, string_eq, nat_eq, if◌then◌else◌, ◌==◌, ok, some, [],
  ◌∷◌,
}
use naumachia.HashMap.{get, insert, erase, map_beq}
use naumachia.PolicyId.{ada, policy_eq}
use naumachia.Values.{Values, empty, add_one_value, amount}
use naumachia.TestLedger.InMemory.{
  InMemoryStorage, in_memory, remove_output, add_output, set_current_time,
}
use naumachia.TestLedger.Issue.{settle_tx, balance_at_address}
use naumachia.TestLedger.Balance.{held_by, balance_at_address-held_by}
use naumachia.TestLedger.Inputs.{mint_all}
use naumachia.TestLedger.Builder.{
  OutputBuilder, ledger_builder, start_output, with_value, with_value-amount,
}
use naumachia.Fixtures.{addresses, hex, datum_data, token, five_ada, purse, locked, ledger, payment}
use naumachia.Fixtures.Valid.{five_ada-IsValid}

abbrev unlocked : InMemoryStorage String ℕ
unlocked = (remove_output ⦃lib = addresses⦄ locked ledger).1

locked_removed : remove_output ⦃lib = addresses⦄ locked ledger ≡ (ok tt, unlocked)
unfolding remove_output map_beq add_one_value insert empty ada get erase
locked_removed = refl

abbrev richer : InMemoryStorage String ℕ
richer = (add_output ⦃lib = addresses⦄ purse ledger).1

purse_added : add_output ⦃lib = addresses⦄ purse ledger ≡ (ok tt, richer)
unfolding add_output
purse_added = refl

abbrev settled : InMemoryStorage String ℕ
settled =
    (settle_tx (in_memory ⦃lib = addresses⦄) addresses hex datum_data payment (171 ∷ [])
      ("alice", purse ∷ locked ∷ [], some five_ada) ledger).1

payment-settled :
    settle_tx
      (in_memory ⦃lib = addresses⦄)
      addresses
      hex
      datum_data
      payment
      (171 ∷ [])
      ("alice", purse ∷ locked ∷ [], some five_ada)
      ledger
    ≡ (ok tt, settled)
unfolding settle_tx remove_output map_beq add_output set_current_time add_one_value insert empty ada
    get erase
payment-settled = refl

abbrev minted : Values
minted = record { values = (token, 3) ∷ [] }

payment_mints : mint_all addresses hex datum_data payment "alice" empty payment.minting ≡ ok minted
unfolding mint_all add_one_value insert empty get
payment_mints = refl

abbrev draft : OutputBuilder String ℕ
draft = record (start_output (ledger_builder "alice") "bob") { values = five_ada }

with_value-amount_example :
    amount (with_value draft ada 2).values ada
    ≡ (amount draft.values ada + (if ada == ada then 2 + amount draft.values ada else 0)) % 2 ^ 64
with_value-amount_example = with_value-amount draft ada ada 2 five_ada-IsValid (omega arith)

balance_at_address-held_by_example :
    balance_at_address (in_memory ⦃lib = addresses⦄) "alice" ada ledger
    ≡ (ok (held_by ⦃lib = addresses⦄ "alice" ada ledger.outputs % 2 ^ 64), ledger)
balance_at_address-held_by_example = balance_at_address-held_by ⦃lib = addresses⦄ "alice" ada ledger
